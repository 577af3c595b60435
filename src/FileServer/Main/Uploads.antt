-- ===== src/FileServer/Main/Uploads.antt =====
-- A file that one client uploads and another one downloads.
use network_programming_lab.Prelude.{
  ℕ, true, List, [], ◌∷◌, ◌++◌, ◌≡◌, ap, ◌∙◌, none, some, All, Bytes, length, if◌then◌else◌,
}
use network_programming_lab.Listing.{Dirent}
use network_programming_lab.FileServer.Reader.{zeroed}
use network_programming_lab.FileServer.Upload.{stored, upload_path, html_response, ok_response}
use network_programming_lab.FileServer.Client.{
  Files, Reply, sends, uploads, download_header, client_thread,
}
use network_programming_lab.FileServer.Client.Downloads.{client_thread-download}
use network_programming_lab.FileServer.Main.Runs.{
  OtherFile, serve_all_running, serve_all_one, serve_all-append, serve_all-keeps,
}
use network_programming_lab.FileServer.Main.{
  Machine, Server, Connection, reply_to, written, behind_reply, serve_all,
}
use network_programming_lab.FileServer.Main.Forms.{IsForm, IsLink, form, link, reply_to-form}

-- The file of an upload, for all that other clients do to other files in between.
module _ (m : Machine) (s : Server) (path rest lines after content : Bytes) (e : Dirent)
    (calls : List ℕ) (clients : List Connection) (rest_of_link input : Bytes) (n : ℕ)
    (later : List ℕ) where
  abbrev pub uploaded_file : Bytes
  uploaded_file = upload_path path e.d_name

  abbrev pub stored_server : Server
  stored_server = record s { contents = written m uploaded_file content s.contents }

  abbrev pub replies : List Reply
  replies = (serve_all m clients stored_server).0

  abbrev pub last_server : Server
  last_server = (serve_all m clients stored_server).1

  abbrev pub confirmation : Bytes
  confirmation = ok_response (html_response e.d_name (length content) uploaded_file path)

  found :
      m.same_file uploaded_file uploaded_file ≡ true
      → m.disk.opens uploaded_file ≡ true
      → All (OtherFile m uploaded_file) replies
      → last_server.contents uploaded_file ≡ some content
  unfolding written
  found same opened others =
      serve_all-keeps m uploaded_file clients stored_server others
      ∙ ap
          (λ b.
            if b
            then (if m.disk.opens uploaded_file then some content else none)
            else s.contents uploaded_file)
          same
      ∙ ap (λ b. if b then some content else none) opened

  reply_to-link :
      (t : Server)
      → m.behind ≡ zeroed
      → t.contents uploaded_file ≡ some content
      → IsLink path rest_of_link content e n
      → reply_to m (link path e rest_of_link input later) t
        ≡ sends (download_header uploaded_file (length content) ++ content)
  unfolding reply_to
  reply_to-link t zero_memory held l =
      let files : Files = record { contents = t.contents; scandir = m.scandir t.contents } in
      ap
        (λ b.
          client_thread m.sorter files m.disk b later (link path e rest_of_link input later).input)
        zero_memory
      ∙ client_thread-download m.sorter files m.disk later path e rest_of_link input content n
          l.is_file l.short l.bytes l.no_icon l.request.2 l.request.0 l.request.1 held l.header

  -- In zeroed memory, for clients that are served one after the other: if one of them uploads a
  -- file by a form, the ones behind it only upload to other files and none makes the server leave
  -- a buffer, and a last one follows the link of the file, then the upload is confirmed, the
  -- clients in between get their answers, and the last one is handed the header and exactly the
  -- bytes that were uploaded, the closing boundary included. The form and the link have the shape
  -- that `IsForm` and `IsLink` spell out (no NUL, one empty line where it belongs, a
  -- `Content-Length` that counts the form, path and name that fit their buffers and need no
  -- escape, an answer that fits its buffers, calls of `recv` that take bytes), and the file can be
  -- created and opened.
  pub serve_all-uploaded :
      s.runs ≡ true
      → m.behind ≡ zeroed
      → m.same_file uploaded_file uploaded_file ≡ true
      → m.disk.creates uploaded_file ≡ true
      → m.disk.opens uploaded_file ≡ true
      → IsForm path rest lines after content e calls
      → All (OtherFile m uploaded_file) replies
      → last_server.runs ≡ true
      → IsLink path rest_of_link content e n
      → (serve_all m
          (form path rest lines content calls
            ∷ (clients ++ link path e rest_of_link input later ∷ []))
          s).0
        ≡ uploads (stored uploaded_file content confirmation)
          ∷ (replies ++ sends (download_header uploaded_file (length content) ++ content) ∷ [])
  serve_all-uploaded runs zero_memory same created opened f others runs_on l =
      let first = form path rest lines content calls in
      let second = link path e rest_of_link input later in
      ap (λ p. p.0) (serve_all_running m first (clients ++ second ∷ []) s runs)
      ∙ ap (λ r. r ∷ (serve_all m (clients ++ second ∷ []) (behind_reply m r s)).0)
          (reply_to-form m s path rest lines after content e calls zero_memory created opened f)
      ∙ ap (◌∷◌ (uploads (stored uploaded_file content confirmation))) (
          serve_all-append m clients (second ∷ []) stored_server
          ∙ ap (λ r. replies ++ r) (serve_all_one m second last_server runs_on)
          ∙ ap (λ r. replies ++ r ∷ [])
              (reply_to-link last_server zero_memory (found same opened others) l))
