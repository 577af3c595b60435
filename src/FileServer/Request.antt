-- ===== src/FileServer/Request.antt =====
-- np20.c, `ClientThread` (lines 179 to 266): what a request asks for.
pub mod Links
use network_programming_lab.Prelude.{
  ℕ, zero, suc, ◌+◌, ◌-◌, ◌*◌, ◌^◌, Bool, true, false, ◌&&◌, ◌||◌, List, [], ◌∷◌, ◌++◌, Option,
  none, some, Bytes, codes, length, get_or, take, drop, ltb, leb, ◌==◌, if◌then◌else◌,
}
use network_programming_lab.Strcmp.{texts_agree}
use network_programming_lab.Scanf.{read_digits, skip_spaces, word, behind_word, c_string}
use network_programming_lab.Url.{url_decode}
use network_programming_lab.FileServer.Text.{strstr, contains}
use network_programming_lab.FileServer.Reader.{is_complete, as_text}

-- `%d` of `sscanf`, where a negative number, which is only ever compared with a count, stands as 0.
unfoldable pub scan_int : Bytes → ℕ
scan_int [] = 0
scan_int (c ∷ cs) =
    if c == b'-' then 0 else if c == b'+' then read_digits 0 cs else read_digits 0 (c ∷ cs)

-- `none` is a number that does not fit an `int`.
abbrev as_int : ℕ → Option ℕ
as_int n = if ltb n (2 ^ 31) then some n else none

unfoldable pub content_length : Bytes → Option ℕ
content_length body = header_value (strstr body (codes "Content-Length: "))
  where
    header_value : Option Bytes → Option ℕ
    header_value none = some 0
    header_value (some ct_len) = as_int (scan_int (skip_spaces (drop 16 ct_len)))

-- What the thread goes on to do.
pub data Action : Type 0 where
  closes : Action  -- nothing is sent
  undefined : Action  -- a buffer is left, or read in front of its start
  send_icon : Action
  list_directory : Bytes → Action  -- path
  download : Bytes → Action  -- path
  receive_upload : Bytes → ℕ → Action  -- path, content_length

-- `GET`; an empty path has no last byte.
unfoldable pub get_action : Bytes → Action
get_action path =
    let last = length path - 1 in
    if contains path (codes "favicon.ico")
    then send_icon
    else if length path == 0
    then undefined
    else if get_or path last 0 == b'?'
    then download (take last path)
    else list_directory path

abbrev choose_action : Bytes → Bytes → Option ℕ → Action
choose_action method path none = undefined
choose_action method path (some content_length) =
    if texts_agree method (codes "GET")
    then get_action path
    else if texts_agree method (codes "POST")
    then receive_upload path content_length
    else closes

-- `method` has 8 bytes and `path` 1024, and `sscanf` copies the words with no bound. `strcpy` ends at
-- a NUL that was written as `%00`.
unfoldable pub request_action : Bytes → Action
request_action body =
    let rest = skip_spaces body in
    let method = word rest in
    let target = word (skip_spaces (behind_word rest)) in
    if leb 8 (length method) || leb 1024 (length target)
    then undefined
    else choose_action method (c_string (url_decode target)) (content_length body)

-- The request as it was read, and what stands in the memory behind it.
unfoldable pub client_action : (Bytes → Bytes) → Bytes → Action
client_action behind request_body =
    if is_complete behind request_body then request_action (as_text behind request_body) else closes
