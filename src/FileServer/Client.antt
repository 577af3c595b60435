-- ===== src/FileServer/Client.antt =====
-- np20.c, `ClientThread` (lines 157 to 381): a request from its first byte to what is sent. Whether
-- `send` takes what it is given is the matter of `send_all`. The files
-- have fewer than 2^31 bytes, so that their lengths fit an `int`.
pub mod Downloads
use network_programming_lab.Prelude.{
  ℕ, zero, suc, ◌+◌, ◌-◌, ◌*◌, Bool, true, false, List, [], ◌∷◌, ◌++◌, Option, none, some, Bytes,
  codes, length, take, drop, leb, ◌==◌, if◌then◌else◌,
}
use network_programming_lab.Strcmp.{Sorter}
use network_programming_lab.Decimal.{decimal}
use network_programming_lab.Listing.{Dirent}
use network_programming_lab.FileServer.Text.{contains}
use network_programming_lab.FileServer.Output.{create_html}
use network_programming_lab.FileServer.Reader.{as_text, read_part}
use network_programming_lab.FileServer.Request.{
  Action, closes, undefined, send_icon, list_directory, download, receive_upload, client_action,
}
use network_programming_lab.FileServer.Upload.{Disk, Uploaded, upload}

-- What the file system answers to `fopen` for reading and to `scandir`.
pub record Files : Type 0 where
  pub contents : Bytes → Option Bytes
  pub scandir : Bytes → Option (List Dirent)

-- What `Send` is given, in order; or a buffer that is left; or an upload.
pub data Reply : Type 0 where
  sends : Bytes → Reply
  faults : Reply
  uploads : Uploaded → Reply

abbrev pub not_found : Bytes
not_found = codes "HTTP/1.1 404 NOT FOUND\r\n\r\n"

-- The text behind the last slash, or all of it.
unfoldable pub file_name : Bytes → Bytes
file_name [] = []
file_name (c ∷ cs) =
    let onward = file_name cs in
    if contains cs (codes "/") then onward else if c == b'/' then cs else c ∷ cs

unfoldable pub icon_reply : Option Bytes → Reply
icon_reply none = sends not_found
icon_reply (some ico_data) = sends (
    codes "HTTP/1.1 200 OK\r\nContent-Length: "
    ++ (decimal (length ico_data) ++ (codes "\r\nContent-Type: image/x-icon\r\n\r\n" ++ ico_data)))

unfoldable pub listing_reply : Option Bytes → Reply
listing_reply none = faults
listing_reply (some html) = sends (
    codes "HTTP/1.1 200 OK\r\nContent-Length: "
    ++ (decimal (length html) ++ (codes "\r\nContent-Type: text/html\r\n\r\n" ++ html)))

abbrev pub download_block_size : ℕ
download_block_size = 1024 * 1024

-- The loop of `fread` and `Send`, while fewer bytes have been read than the file has.
unfoldable pub send_blocks : ℕ → Bytes → Bytes
send_blocks zero left = []
send_blocks (suc fuel) left =
    let onward = send_blocks fuel (drop download_block_size left) in
    if length left == 0 then [] else take download_block_size left ++ onward

unfoldable pub download_header : Bytes → ℕ → Bytes
download_header path len =
    codes "HTTP/1.1 200 OK\r\nContent-Length: "
    ++ (decimal len
        ++ (codes
              "\r\nContent-Type: application/octet-stream\r\nContent-Disposition: attachment; filename=\""
            ++ (file_name path ++ codes "\"\r\n\r\n")))

-- `response` has 1024 bytes.
unfoldable pub download_reply : Bytes → Option Bytes → Reply
download_reply path none = sends not_found
download_reply path (some file) =
    let response = download_header path (length file) in
    if leb 1024 (length response)
    then faults
    else sends (response ++ send_blocks (length file) file)

unfoldable pub client_reply : Sorter Dirent → Files → (Bytes → ℕ → Uploaded) → Action → Reply
client_reply q files upload_of closes = sends []
client_reply q files upload_of undefined = faults
client_reply q files upload_of send_icon = icon_reply (files.contents (codes "favicon.ico"))
client_reply q files upload_of (list_directory path) =
    listing_reply (create_html q path (files.scandir path) none)
client_reply q files upload_of (download path) = download_reply path (files.contents path)
client_reply q files upload_of (receive_upload path content_length) =
    uploads (upload_of path content_length)

-- `calls` are the answers of `recv` for the body of an upload, and `input` is all that the client
-- sends.
unfoldable pub client_thread :
    Sorter Dirent → Files → Disk → (Bytes → Bytes) → List ℕ → Bytes → Reply
client_thread q files disk behind calls input =
    let request_body = (read_part behind [] input).0 in
    let rest = (read_part behind [] input).1 in
    client_reply q files
      (λ path content_length.
        upload disk behind (as_text behind request_body) path content_length calls rest)
      (client_action behind request_body)
