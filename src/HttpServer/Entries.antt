-- ===== src/HttpServer/Entries.antt =====
pub mod Laws
-- multithreading-http-server.c, `scan_directory` (lines 49 to 131): the entries of the directory, and
-- the page that lists them.

use network_programming_lab.Prelude.{
  ℕ, zero, suc, ◌+◌, Bool, true, false, ◌||◌, List, [], ◌∷◌, ◌++◌, map, Option, none, some, Bytes,
  codes, length, take, ltb, ◌==◌, if◌then◌else◌, ◌>>=◌,
}
use network_programming_lab.Strcmp.{texts_agree, Sorter}
use network_programming_lab.Listing.{FileEntry, compare_entries}
use network_programming_lab.Url.{url_encode}
use network_programming_lab.HttpServer.Page.{Page, blank, print, print_all}

-- What `FindFirstFile` and `FindNextFile` say of a file.
pub record Found : Type 0 where
  pub c_file_name : Bytes
  pub has_directory_attribute : Bool

abbrev pub max_entries : ℕ
max_entries = 1024

unfoldable pub file_entry : Found → FileEntry
file_entry f = record {
  name = take 255 f.c_file_name;
  is_dir = if f.has_directory_attribute then 1 else 0;
}

unfoldable pub is_dot : Bytes → Bool
is_dot name = texts_agree name (codes ".") || texts_agree name (codes "..")

-- The loop over the files, with `count` entries filled.
unfoldable pub collect : ℕ → List Found → List FileEntry
collect count [] = []
collect count (f ∷ fs) =
    let skipped = collect count fs in
    let kept = file_entry f ∷ collect (suc count) fs in
    if is_dot f.c_file_name then skipped else if ltb count max_entries then kept else skipped

-- The item of an entry whose name has been encoded.
unfoldable pub item_text : Bytes → FileEntry → Bytes
item_text encoded_name e =
    if e.is_dir == 0
    then codes "        <li class=\"file\"><a href=\"/files/"
      ++ (encoded_name ++ (codes "\">" ++ (e.name ++ codes "</a></li>\n")))
    else codes "        <li class=\"folder\"><a href=\"/files/"
      ++ (encoded_name ++ (codes "/\">" ++ (e.name ++ codes "/</a></li>\n")))

unfoldable pub list_item : FileEntry → Option Bytes
list_item e = do encoded_name ← url_encode 512 e.name; some (item_text encoded_name e)

unfoldable pub list_items : List FileEntry → Option (List Bytes)
list_items [] = some []
list_items (e ∷ es) = do item ← list_item e; rest ← list_items es; some (item ∷ rest)

unfoldable pub page_head : Bytes
page_head =
    codes "<!DOCTYPE html>\n<html>\n<head>\n    <meta charset=\"UTF-8\">\n"
    ++ codes "    <title>File Browser</title>\n"
    ++ codes "    <link rel=\"icon\" href=\"/favicon.ico\" type=\"image/x-icon\">\n    <style>\n"
    ++ codes "        body { font-family: Arial, sans-serif; margin: 20px; }\n"
    ++ codes "        h1 { color: #333; }\n        ul { list-style-type: none; padding: 0; }\n"
    ++ codes "        li { margin: 5px 0; }\n"
    ++ codes "        a { text-decoration: none; color: #0066cc; }\n"
    ++ codes "        a:hover { text-decoration: underline; }\n"
    ++ codes "        .folder { font-weight: bold; }\n        .file { font-style: italic; }\n"
    ++ codes "    </style>\n</head>\n<body>\n    <h1>Directory Listing</h1>\n    <ul>\n"

abbrev pub page_foot : Bytes
page_foot = codes "    </ul>\n</body>\n</html>\n"

abbrev pub error_page : Bytes
error_page = codes "<html><body><h1>Error opening directory</h1></body></html>"

-- The text left in a buffer of `buffer_size` bytes; `none` is a write outside it. The argument of the
-- search is `none` if `FindFirstFile` has failed.
unfoldable pub scan_directory : Sorter FileEntry → ℕ → Option (List Found) → Option Page
scan_directory q buffer_size none = print buffer_size error_page (blank buffer_size)
scan_directory q buffer_size (some found) = do
  items ← list_items (q.sort compare_entries (collect 0 found))
  print_all buffer_size (page_head ∷ (items ++ page_foot ∷ [])) (blank buffer_size)
