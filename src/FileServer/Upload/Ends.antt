-- ===== src/FileServer/Upload/Ends.antt =====
-- What the ends of an upload say of its file.
use network_programming_lab.Prelude.{
  Bool, true, false, [], Bytes, codes, length, ◌≡◌, refl, ap, sym, ◌∙◌, if◌then◌else◌,
}
use network_programming_lab.FileServer.Upload.{
  Disk, Uploaded, refused, stored, stored_and_overflows, crashes, server_error, html_response,
  ok_response, confirm,
}

-- Every end of the check of a file names the file and its bytes.
abbrev file_path : Uploaded → Bytes
file_path (refused response) = []
file_path (stored path file response) = path
file_path (stored_and_overflows path file) = path
file_path crashes = []

abbrev file_bytes : Uploaded → Bytes
file_bytes (refused response) = []
file_bytes (stored path file response) = file
file_bytes (stored_and_overflows path file) = file
file_bytes crashes = []

pub confirm-file :
    (disk : Disk) (dir name path file : Bytes) (stored_path stored_file response : Bytes)
    → confirm disk dir name path file ≡ stored stored_path stored_file response
    → (path ≡ stored_path) × (file ≡ stored_file)
unfolding confirm
confirm-file disk dir name path file stored_path stored_file response h = (
  sym (named (disk.opens path) _) ∙ ap file_path h,
  sym (holds (disk.opens path) _) ∙ ap file_bytes h,
)
  where
    named :
        (opens long : Bool)
        → file_path (
            if opens
            then (if long
                then stored_and_overflows path file
                else stored path file (ok_response (html_response name (length file) path dir)))
            else stored path file (server_error (codes "Could not verify uploaded file")))
          ≡ path
    named true true = refl
    named true false = refl
    named false long = refl

    holds :
        (opens long : Bool)
        → file_bytes (
            if opens
            then (if long
                then stored_and_overflows path file
                else stored path file (ok_response (html_response name (length file) path dir)))
            else stored path file (server_error (codes "Could not verify uploaded file")))
          ≡ file
    holds true true = refl
    holds true false = refl
    holds false long = refl
