-- ===== src/HttpServer/Answer.antt =====
-- multithreading-http-server.c, `send_favicon`, `send_response` and `handle_client` (lines 133 to
-- 202): which answer a request gets, and the bytes that are handed to `send`.

pub mod Laws
pub mod Whole
use network_programming_lab.Prelude.{
  ℕ, zero, suc, ◌+◌, ◌-◌, ◌%◌, Bool, true, false, ◌&&◌, ◌||◌, not, List, [], ◌∷◌, ◌++◌, map, Option,
  none, some, Bytes, codes, length, take, replicate, ltb, leb, ◌==◌, if◌then◌else◌,
}
use network_programming_lab.Strcmp.{texts_agree, Sorter}
use network_programming_lab.Listing.{FileEntry}
use network_programming_lab.Scanf.{is_space, skip_spaces, word, behind_word, c_string}
use network_programming_lab.Decimal.{decimal}
use network_programming_lab.HttpServer.Page.{Page}
use network_programming_lab.HttpServer.Entries.{Found, scan_directory}

abbrev pub answer_size : ℕ
answer_size = 8192

-- The initialiser of `favicon`; each value is reduced to a byte.
abbrev pub favicon_values : List ℕ
favicon_values =
    0x00 ∷ 0x00 ∷ 0x01 ∷ 0x00 ∷ 0x01 ∷ 0x00 ∷ 0x10 ∷ 0x10 ∷ 0x00 ∷ 0x00 ∷ 0x01 ∷ 0x00 ∷ 0x18 ∷ 0x00
    ∷ 0x68 ∷ 0x03 ∷ 0x00 ∷ 0x00 ∷ 0x16 ∷ 0x00 ∷ 0x00 ∷ 0x00 ∷ 0x28 ∷ 0x00 ∷ 0x00 ∷ 0x00 ∷ 0x10
    ∷ 0x00 ∷ 0x00 ∷ 0x00 ∷ 0x20 ∷ 0x00 ∷ 0x00 ∷ 0x00 ∷ 0x01 ∷ 0x00 ∷ 0x18 ∷ 0x00 ∷ 0x00 ∷ 0x00
    ∷ 0x00 ∷ 0x00 ∷ 0x00 ∷ 0x03 ∷ 0x00 ∷ 0x00 ∷ 0x00 ∷ 0x00 ∷ 0x00 ∷ 0x00 ∷ 0x00 ∷ 0x00 ∷ 0x00
    ∷ 0x00 ∷ 0x00 ∷ 0x00 ∷ 0x00 ∷ 0x00 ∷ 0x00 ∷ 0x00 ∷ 0x00 ∷ 0x00 ∷ 0xff ∷ 0xff ∷ 0xff ∷ 0xff
    ∷ 0xff ∷ 0xff ∷ 0xff ∷ 0xff ∷ 0xff ∷ 0xff ∷ 0xff ∷ 0xff ∷ 0xff ∷ 0xff ∷ 0xff ∷ 0x4169 ∷ 0xe1
    ∷ 0x41 ∷ 0x69 ∷ 0xe1 ∷ 0x41 ∷ 0x69 ∷ 0xe1 ∷ 0xff ∷ 0xff ∷ 0xff ∷ 0xff ∷ 0xff ∷ 0xff ∷ 0xff
    ∷ 0xff ∷ 0xff ∷ 0xff ∷ 0xff ∷ 0xff ∷ 0xff ∷ 0xff ∷ 0xff ∷ 0x00 ∷ 0x00 ∷ 0x00 ∷ 0x00 ∷ 0x00
    ∷ 0x00 ∷ 0x00 ∷ 0x00 ∷ []

unfoldable pub favicon : Bytes
favicon = map (λ v. v % 256) favicon_values

-- A header with the content's type and length.
unfoldable pub http_header : Bytes → ℕ → Bytes
http_header content_type content_length =
    codes "HTTP/1.1 200 OK\r\nContent-Type: "
    ++ (content_type
        ++ (codes "\r\nContent-Length: "
            ++ (decimal content_length ++ codes "\r\nConnection: close\r\n\r\n")))

-- The two calls of `send`, one behind the other.
unfoldable pub send_favicon : Bytes
send_favicon = http_header (codes "image/x-icon") (length favicon) ++ favicon

-- `snprintf` into 8192 bytes, then `strlen` of the result.
unfoldable pub send_response : Bytes → Bytes
send_response html_content =
    let header = http_header (codes "text/html; charset=UTF-8") (length html_content) in
    take (answer_size - 1) (header ++ html_content)

-- What the client gets: nothing, the icon or a page; or a write outside a buffer.
pub data Answer : Type 0 where
  nothing : Answer
  icon : Answer
  listing : Answer
  overflow : Answer

-- The choice by `path`, once both words have been read: `method` has 16 bytes and `path` 512, and the
-- words are copied with no bound. A word that is missing leaves `path` as it was, `stale`.
unfoldable pub choose : Bytes → Bytes → Answer
choose stale request =
    let rest = skip_spaces request in
    let method = word rest in
    let read = word (skip_spaces (behind_word rest)) in
    let path = if length read == 0 then stale else read in
    if leb 16 (length method) || leb 512 (length read)
    then overflow
    else if texts_agree path (codes "/favicon.ico")
    then icon
    else listing

-- `handle_client`: the bytes that `recv` has put into the buffer, none if it has returned 0 or less.
unfoldable pub handle_client : Bytes → Bytes → Answer
handle_client stale received =
    if ltb 0 (length received) then choose stale (c_string received) else nothing

page_text : Option Page → Option Bytes
page_text none = none
page_text (some p) = some (send_response p.text)

-- The bytes sent for an answer; `none` is a write outside a buffer.
unfoldable pub answer_bytes : Sorter FileEntry → Option (List Found) → Answer → Option Bytes
unfolding page_text
answer_bytes q found nothing = some []
answer_bytes q found icon = some send_favicon
answer_bytes q found listing = page_text (scan_directory q answer_size found)
answer_bytes q found overflow = none
