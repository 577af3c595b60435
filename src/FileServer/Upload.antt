-- ===== src/FileServer/Upload.antt =====
-- np20.c, `ClientThread` (lines 266 to 378): an upload.
pub mod Laws
pub mod Room
pub mod Ends
use network_programming_lab.Prelude.{
  ℕ, zero, suc, ◌+◌, ◌-◌, Bool, true, false, ◌||◌, List, [], ◌∷◌, ◌++◌, Option, none, some, Bytes,
  codes, length, get_or, take, drop, ltb, leb, ◌==◌, if◌then◌else◌,
}
use network_programming_lab.Scanf.{skip_spaces, word}
use network_programming_lab.Decimal.{decimal}
use network_programming_lab.FileServer.Text.{strstr, contains, before_quote}
use network_programming_lab.FileServer.Reader.{as_text, is_complete, read_part}

-- `recv` of up to 1024 bytes, again and again: each call takes as many as it says of those that are
-- left, and 0 ends the loop. The result is what `fwrite` puts into the file.
unfoldable pub receive : ℕ → ℕ → List ℕ → Bytes → Bytes
receive content_length content_read [] input = []
receive content_length content_read (n ∷ calls) input =
    let chunk = take n (take 1024 input) in
    let r = length chunk in
    let onward = receive content_length (content_read + r) calls (drop r input) in
    if ltb content_read content_length then (if r == 0 then [] else chunk ++ onward) else []

unfoldable pub upload_path : Bytes → Bytes → Bytes
upload_path path name =
    if get_or path (length path - 1) 0 == b'/' then path ++ name else path ++ b'/' ∷ name

abbrev bad_request : Bytes → Bytes
bad_request message =
    codes "HTTP/1.1 400 BAD REQUEST\r\nContent-Type: text/html\r\n\r\n<html><body><h2>Error: "
    ++ (message ++ codes "</h2></body></html>")

abbrev pub server_error : Bytes → Bytes
server_error message =
    codes
      "HTTP/1.1 500 INTERNAL SERVER ERROR\r\nContent-Type: text/html\r\n\r\n<html><body><h2>Error: "
    ++ (message ++ codes "</h2></body></html>")

unfoldable pub html_response : Bytes → ℕ → Bytes → Bytes → Bytes
html_response name file_size fullpath path =
    codes "<html><body><h2>Upload Successful!</h2><p>File: <b>"
    ++ (name
        ++ (codes "</b></p><p>Size: <b>"
            ++ (decimal file_size
                ++ (codes "</b> bytes</p><p>Location: <b>"
                    ++ (fullpath
                        ++ (codes "</b></p><a href=\""
                            ++ (path ++ codes "\">Back to directory</a></body></html>")))))))

unfoldable pub ok_response : Bytes → Bytes
ok_response html =
    codes "HTTP/1.1 200 OK\r\nContent-Type: text/html\r\nContent-Length: "
    ++ (decimal (length html) ++ (codes "\r\n\r\n" ++ html))

-- How an upload ends: a text that is sent and no file; a file and a text; a file and then a write
-- outside `html_response` or `response`; or a buffer left before any byte of the file is written.
pub data Uploaded : Type 0 where
  refused : Bytes → Uploaded
  stored : Bytes → Bytes → Bytes → Uploaded  -- fullpath, contents, response
  stored_and_overflows : Bytes → Bytes → Uploaded  -- fullpath, contents
  crashes : Uploaded

-- What the file system answers: can a file be created, and opened to look at its size.
pub record Disk : Type 0 where
  pub creates : Bytes → Bool
  pub opens : Bytes → Bool

-- `sprintf` into 2048 bytes and then into 1024. The size is that of what was written.
unfoldable pub confirm : Disk → Bytes → Bytes → Bytes → Bytes → Uploaded
confirm disk path name fullpath contents =
    let html = html_response name (length contents) fullpath path in
    if disk.opens fullpath
    then (if leb 2048 (length html) || leb 1024 (length (ok_response html))
        then stored_and_overflows fullpath contents
        else stored fullpath contents (ok_response html))
    else stored fullpath contents (server_error (codes "Could not verify uploaded file"))

-- `boundary_str` has 256 bytes and the word is copied with no bound; nothing else is done with it.
unfoldable pub boundary_fits : Bytes → Bool
boundary_fits request = fits (strstr request (codes "boundary="))
  where
    fits : Option Bytes → Bool
    fits none = true
    fits (some boundary) = ltb (length (word (skip_spaces (drop 9 boundary)))) 256

-- `name` has 1024 bytes.
unfoldable pub store : Disk → Bytes → Bytes → Bytes → Bytes → Uploaded
store disk request path name contents =
    let fullpath = upload_path path name in
    if leb 1024 (length name) || length path == 0
    then crashes
    else if disk.creates fullpath
    then (if boundary_fits request then confirm disk path name fullpath contents else crashes)
    else refused (server_error (codes "Could not create file"))

unfoldable pub store_named : Disk → Bytes → Bytes → Bytes → Option Bytes → Uploaded
store_named disk request path contents none =
    refused (bad_request (codes "Invalid filename format"))
store_named disk request path contents (some name) = store disk request path name contents

unfoldable pub store_part : Disk → Bytes → Bytes → Bytes → Option Bytes → Uploaded
store_part disk request path contents none = refused (bad_request (codes "No file selected"))
store_part disk request path contents (some filename_start) =
    store_named disk request path contents (before_quote (drop 10 filename_start))

-- The upload behind the request: the header of the part, then the file. A part of which nothing has
-- come is NULL, and is handed to `strstr`.
unfoldable pub upload : Disk → (Bytes → Bytes) → Bytes → Bytes → ℕ → List ℕ → Bytes → Uploaded
unfolding store_named store_part
upload disk behind request path content_length calls input =
    let part = (read_part behind [] input).0 in
    let rest = (read_part behind [] input).1 in
    let text = as_text behind part in
    let contents = receive content_length (length part) calls rest in
    if length part == 0
    then crashes
    else if is_complete behind part
    then store_part disk request path contents (strstr text (codes "filename=\""))
    else refused (bad_request (codes "Invalid request format"))
