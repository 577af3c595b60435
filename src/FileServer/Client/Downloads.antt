-- ===== src/FileServer/Client/Downloads.antt =====
-- A link of a listing, followed to the bytes of the file.
use network_programming_lab.Prelude.{
  ℕ, zero, suc, ◌≤◌, ◌<◌, false, List, [], ◌∷◌, ◌++◌, ◌≡◌, ◌≢◌, refl, ap, ◌∙◌, arith, some, All,
  Bytes, codes, length, drop, length-drop, take-append-drop, append_assoc, leb, ◌==◌,
}
use network_programming_lab.Strcmp.{Sorter}
use network_programming_lab.Listing.{Dirent, dt_dir}
use network_programming_lab.FileServer.Text.{contains, contains-behind}
use network_programming_lab.FileServer.Output.{concat, target}
use network_programming_lab.FileServer.Reader.{
  blank_line, zeroed, HasNoNul, HasNoNul-prefix, as_text-zeroed, is_complete-zeroed, read_part_lem,
}
use network_programming_lab.FileServer.Request.{
  content_length, download, request_action, client_action,
}
use network_programming_lab.FileServer.Request.Links.{IsLinkByte, follow_link}
use network_programming_lab.FileServer.Upload.{Disk, upload_path, upload}
use network_programming_lab.FileServer.Client.{
  Files, sends, download_block_size, send_blocks, download_header, download_reply, client_reply,
  client_thread,
}

send_blocks-whole : (fuel : ℕ) (left : Bytes) → length left ≤ fuel → send_blocks fuel left ≡ left
unfolding send_blocks
send_blocks-whole zero [] h = refl
send_blocks-whole zero (x ∷ left) h = absurd (omega arith)
send_blocks-whole (suc fuel) [] h = refl
send_blocks-whole (suc fuel) (x ∷ left) h =
    rw
      (
        some_left,
        send_blocks-whole fuel (drop download_block_size (x ∷ left))
            (omega (arith, length-drop download_block_size (x ∷ left))),
      )
      (take-append-drop download_block_size (x ∷ left))
  where
    some_left : (length (x ∷ left) == 0) ≡ false
    some_left = ground arith

download_reply-whole :
    (path file : Bytes)
    → length (download_header path (length file)) < 1024
    → download_reply path (some file) ≡ sends (download_header path (length file) ++ file)
unfolding download_reply
download_reply-whole path file short =
    rw (is_short, send_blocks-whole (length file) file (omega arith)) refl
  where
    is_short : leb 1024 (length (download_header path (length file))) ≡ false
    is_short = ground arith

-- The thread on a request that is complete.
pub client_thread-eq :
    (q : Sorter Dirent) (files : Files) (disk : Disk) (calls : List ℕ) (lines input : Bytes)
    → HasNoNul (lines ++ blank_line)
    → contains (lines ++ codes "\r\n\r") blank_line ≡ false
    → client_thread q files disk zeroed calls (lines ++ (blank_line ++ input))
      ≡ client_reply q files
          (λ path content_length.
            upload disk zeroed (lines ++ blank_line) path content_length calls input)
          (request_action (lines ++ blank_line))
unfolding client_thread client_action
client_thread-eq q files disk calls lines input h once =
    rw
      (
        read_part_lem lines input (HasNoNul-prefix lines blank_line h) once,
        is_complete-zeroed (lines ++ blank_line) h,
        contains-behind lines blank_line,
        as_text-zeroed (lines ++ blank_line) h,
      )
      refl

-- For an entry that is no directory and whose link has fewer than 1024 bytes, no white space, NUL,
-- `%` or `+` and no `favicon.ico` in it: if a client sends `GET`, the link and anything else
-- without a NUL or an empty line, then an empty line, with a `Content-Length` that fits an `int`
-- if there is one, in zeroed memory, and the file that `CreateHTML` has listed can be opened, then
-- the thread hands to `Send` exactly the header, if this has fewer than 1024 bytes, and the whole
-- file.
pub client_thread-download :
    (q : Sorter Dirent) (files : Files) (disk : Disk) (calls : List ℕ) (path : Bytes) (e : Dirent)
    (rest input file : Bytes) (n : ℕ)
    → let href = concat (target path e) in
      let named = upload_path path e.d_name in
      let lines = codes "GET" ++ b' ' ∷ (href ++ b' ' ∷ rest) in
      e.d_type ≢ dt_dir
      → length href < 1024
      → All IsLinkByte href
      → contains href (codes "favicon.ico") ≡ false
      → content_length (lines ++ blank_line) ≡ some n
      → HasNoNul (lines ++ blank_line)
      → contains (lines ++ codes "\r\n\r") blank_line ≡ false
      → files.contents named ≡ some file
      → length (download_header named (length file)) < 1024
      → client_thread q files disk zeroed calls (lines ++ (blank_line ++ input))
        ≡ sends (download_header named (length file) ++ file)
client_thread-download q files disk calls path e rest input file n is_file short link no_icon fits
      no_nul once found small =
    client_thread-eq q files disk calls lines input no_nul once
    ∙ rw asked (unfold client_reply in refl)
    ∙ ap (download_reply named) found
    ∙ download_reply-whole named file small
  where
    href : Bytes
    href = concat (target path e)

    named : Bytes
    named = upload_path path e.d_name

    lines : Bytes
    lines = codes "GET" ++ b' ' ∷ (href ++ b' ' ∷ rest)

    assoc : (href ++ b' ' ∷ rest) ++ blank_line ≡ href ++ b' ' ∷ (rest ++ blank_line)
    assoc = append_assoc href (b' ' ∷ rest) blank_line

    asked : request_action (lines ++ blank_line) ≡ download named
    asked = rw (assoc) (
        follow_link path e (rest ++ blank_line) n short link no_icon (λ dir. absurd (is_file dir))
          (rw (← assoc) fits)
        ∙ ground (arith, is_file))
