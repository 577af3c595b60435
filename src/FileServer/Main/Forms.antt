-- ===== src/FileServer/Main/Forms.antt =====
-- A form that uploads a file, and the link that downloads it.
use network_programming_lab.Prelude.{
  ℕ, ◌+◌, ◌≤◌, ◌<◌, true, false, List, ◌∷◌, ◌++◌, ◌≡◌, ◌≢◌, refl, ap, append_assoc, ◌∙◌, arith,
  some, All, Bytes, codes, length, leb, ◌==◌,
}
use network_programming_lab.Listing.{Dirent, dt_dir}
use network_programming_lab.FileServer.Text.{contains}
use network_programming_lab.FileServer.Output.{concat, target}
use network_programming_lab.FileServer.Reader.{blank_line, zeroed, HasNoNul}
use network_programming_lab.FileServer.Request.{content_length, request_action, receive_upload}
use network_programming_lab.FileServer.Request.Links.{IsLinkByte, request_action-post}
use network_programming_lab.FileServer.Upload.{
  Disk, Uploaded, stored, upload_path, html_response, ok_response, confirm, boundary_fits, store,
  upload,
}
use network_programming_lab.FileServer.Upload.Laws.{IsPart, upload-store}
use network_programming_lab.FileServer.Client.{
  Files, uploads, download_header, client_reply, client_thread,
}
use network_programming_lab.FileServer.Client.Downloads.{client_thread-eq}
use network_programming_lab.FileServer.Main.{Machine, Server, Connection, reply_to}

-- The answer fits its two buffers.
abbrev pub HasRoom : Bytes → Bytes → Bytes → Type 0
HasRoom path name content =
    let html = html_response name (length content) (upload_path path name) path in
    (length html < 2048) × (length (ok_response html) < 1024)

store-stored :
    (disk : Disk) (request path name content : Bytes)
    → length name < 1024
    → 0 < length path
    → disk.creates (upload_path path name) ≡ true
    → disk.opens (upload_path path name) ≡ true
    → boundary_fits request ≡ true
    → HasRoom path name content
    → store disk request path name content
      ≡ stored
          (upload_path path name)
          content
          (ok_response (html_response name (length content) (upload_path path name) path))
unfolding store confirm
store-stored disk request path name content short some_byte created opened fits room =
    rw (is_short, is_some, created, fits, opened, html_fits, response_fits) refl
  where
    is_short : leb 1024 (length name) ≡ false
    is_short = ground arith

    is_some : (length path == 0) ≡ false
    is_some = ground arith

    html_fits :
        leb 2048 (length (html_response name (length content) (upload_path path name) path)) ≡ false
    html_fits = ground (arith, room.0)

    response_fits :
        leb 1024
          (length (ok_response (html_response name (length content) (upload_path path name) path)))
        ≡ false
    response_fits = ground (arith, room.1)

-- The two connections: a form that is sent to a directory, and the link of its file in the listing.
abbrev pub post_lines : Bytes → Bytes → Bytes
post_lines path rest = codes "POST" ++ b' ' ∷ (path ++ b' ' ∷ rest)

abbrev pub get_lines : Bytes → Dirent → Bytes → Bytes
get_lines path e rest = codes "GET" ++ b' ' ∷ (concat (target path e) ++ b' ' ∷ rest)

-- Lines of a request, up to the empty line behind them.
abbrev pub IsRequest : Bytes → ℕ → Type 0
IsRequest lines n =
    HasNoNul (lines ++ blank_line)
    × (contains (lines ++ codes "\r\n\r") blank_line ≡ false)
    × (content_length (lines ++ blank_line) ≡ some n)

-- A form with one file, whose answer fits its buffers.
pub record IsForm (path rest lines after content : Bytes) (e : Dirent) (calls : List ℕ)
    : Type 0 where
  pub request : IsRequest (post_lines path rest) (length (lines ++ blank_line) + length content)
  pub part : IsPart lines e.d_name after
  pub path_bytes : All IsLinkByte path
  pub some_byte : 0 < length path
  pub short_path : length path < 1024
  pub short_name : length e.d_name < 1024
  pub boundary : boundary_fits (post_lines path rest ++ blank_line) ≡ true
  pub room : HasRoom path e.d_name content
  pub positive : All (λ n. 0 < n) calls
  pub enough : length content ≤ length calls

-- A link that is followed as it is.
pub record IsLink (path rest content : Bytes) (e : Dirent) (n : ℕ) : Type 0 where
  pub request : IsRequest (get_lines path e rest) n
  pub is_file : e.d_type ≢ dt_dir
  pub short : length (concat (target path e)) < 1024
  pub bytes : All IsLinkByte (concat (target path e))
  pub no_icon : contains (concat (target path e)) (codes "favicon.ico") ≡ false
  pub header : length (download_header (upload_path path e.d_name) (length content)) < 1024

abbrev pub form : Bytes → Bytes → Bytes → Bytes → List ℕ → Connection
form path rest lines content calls = record {
  calls = calls;
  input = post_lines path rest ++ (blank_line ++ (lines ++ (blank_line ++ content)));
}

abbrev pub link : Bytes → Dirent → Bytes → Bytes → List ℕ → Connection
link path e rest input calls = record {
  calls = calls;
  input = get_lines path e rest ++ (blank_line ++ input);
}

module _ (m : Machine) (s : Server) (path rest lines after content : Bytes) (e : Dirent)
    (calls : List ℕ) where
  abbrev named : Bytes
  named = upload_path path e.d_name

  pub reply_to-form :
      m.behind ≡ zeroed
      → m.disk.creates named ≡ true
      → m.disk.opens named ≡ true
      → IsForm path rest lines after content e calls
      → reply_to m (form path rest lines content calls) s
        ≡ uploads (
            stored named content (ok_response (html_response e.d_name (length content) named path)))
  unfolding reply_to
  reply_to-form zero_memory created opened f =
      let lines_on = lines ++ (blank_line ++ content) in
      let posted = post_lines path rest in
      ap (λ b. client_thread m.sorter files m.disk b calls (posted ++ (blank_line ++ lines_on)))
        zero_memory
      ∙ client_thread-eq m.sorter files m.disk calls posted lines_on f.request.0 f.request.1
      ∙ ap (client_reply m.sorter files (uploaded posted lines_on)) asked
      ∙ unfold client_reply in
        (ap uploads (
          upload-store m.disk (posted ++ blank_line) path lines e.d_name after content calls f.part
            f.positive f.enough
          ∙ store-stored m.disk (posted ++ blank_line) path e.d_name content f.short_name
              f.some_byte created opened f.boundary f.room))
    where
      files : Files
      files = record { contents = s.contents; scandir = m.scandir s.contents }

      uploaded : Bytes → Bytes → Bytes → ℕ → Uploaded
      uploaded posted lines_on path content_length =
          upload m.disk zeroed (posted ++ blank_line) path content_length calls lines_on

      assoc : (path ++ b' ' ∷ rest) ++ blank_line ≡ path ++ b' ' ∷ (rest ++ blank_line)
      assoc = append_assoc path (b' ' ∷ rest) blank_line

      asked :
          request_action (post_lines path rest ++ blank_line)
          ≡ receive_upload path (length (lines ++ blank_line) + length content)
      asked = rw assoc (
          request_action-post path (rest ++ blank_line) _ f.some_byte f.short_path f.path_bytes
            (rw (← assoc) f.request.2))
