-- ===== src/Tests/Serving.antt =====
-- Listings, pages and requests on concrete directories and requests.
use network_programming_lab.Prelude.{
  ◌+◌, ◌^◌, ◌<◌, true, false, List, [], ◌∷◌, ◌++◌, map, ◌≡◌, ◌↔◌, ◌⊎◌, refl, arith, none, some,
  Bytes, codes, length, take, leb, if◌then◌else◌,
}
use mathlib.Core.List.{Perm}
use network_programming_lab.Strcmp.{opposite, insertion, strcmp}
use network_programming_lab.Url.{encode_from, encode_byte}
use network_programming_lab.Listing.{FileEntry, compare_entries, Dirent, dt_dir, compare_dirents}
use network_programming_lab.Listing.Order.{IsListing, compare_dirents-flips_iff}
use network_programming_lab.Decimal.{decimal, digits_of}
use network_programming_lab.Scanf.{IsWord, c_string, skip_spaces, word, behind_word}
use network_programming_lab.HttpServer.Page.Bounds.{page}
use network_programming_lab.HttpServer.Entries.{
  Found, max_entries, file_entry, is_dot, collect, item_text, page_head, page_foot, scan_directory,
}
use network_programming_lab.HttpServer.Entries.Laws.{visible, items, scan_directory_lem}
use network_programming_lab.HttpServer.Answer.{
  answer_size, http_header, send_response, icon, handle_client, choose, answer_bytes,
}
use network_programming_lab.HttpServer.Answer.Whole.{
  listing_page, page_header, answer_bytes-whole_page,
}
use network_programming_lab.HttpServer.Answer.Laws.{
  Dispatch, handle_client-Dispatch, send_response_whole_iff,
}

abbrev notes : FileEntry
notes = record { name = codes "notes"; is_dir = 0 }

abbrev subfolder : FileEntry
subfolder = record { name = codes "zoo"; is_dir = 1 }

sorts : insertion.sort compare_entries (notes ∷ subfolder ∷ []) ≡ subfolder ∷ notes ∷ []
unfolding compare_entries
sorts = refl

-- A regular file (8) and a symbolic link (10).
abbrev regular : Dirent
regular = record { d_type = 8; d_name = codes "a" }

abbrev link : Dirent
link = record { d_type = 10; d_name = codes "b" }

compare_dirents-flips_iff_example :
    (compare_dirents regular link ≡ opposite (compare_dirents link regular))
    ↔ ((link.d_type ≡ regular.d_type) ⊎ (link.d_type ≡ dt_dir) ⊎ (regular.d_type ≡ dt_dir))
compare_dirents-flips_iff_example = compare_dirents-flips_iff link regular

abbrev in_folder : List Found
in_folder =
    record { c_file_name = codes "."; has_directory_attribute = true }
    ∷ record { c_file_name = codes "b c.txt"; has_directory_attribute = false }
    ∷ record { c_file_name = codes "a"; has_directory_attribute = true }
    ∷ []

lists :
    insertion.sort compare_entries (collect 0 in_folder)
    ≡ record { name = codes "a"; is_dir = 1 } ∷ record { name = codes "b c.txt"; is_dir = 0 } ∷ []
unfolding collect file_entry is_dot compare_entries strcmp
lists = refl

abbrev sorted_entries : List FileEntry
sorted_entries = insertion.sort compare_entries (collect 0 in_folder)

-- A buffer of 1024 bytes does hold the head but not the whole page.
scan_directory_lem_example :
    (scan_directory insertion 1024 (some in_folder) ≡ (
      if leb (length page_head + length (items sorted_entries)) 1024
      then some (page 1024 (page_head ++ (items sorted_entries ++ page_foot)))
      else none))
    × Perm sorted_entries (map file_entry (take max_entries (visible in_folder)))
    × IsListing sorted_entries
scan_directory_lem_example =
    scan_directory_lem insertion 1024 in_folder (omega arith) (omega arith) short
  where
    short : length (page_head ++ (items sorted_entries ++ page_foot)) < 2 ^ 63
    short =
        unfold collect file_entry is_dot compare_entries strcmp item_text page_head encode_from
          encode_byte in
        (omega arith)

abbrev get_word : Bytes
get_word = codes "GET"

abbrev icon_path : Bytes
icon_path = codes "/favicon.ico"

get_word-IsWord : IsWord get_word
get_word-IsWord = record { some_byte = omega arith; bytes = ground arith }

icon_path-IsWord : IsWord icon_path
icon_path-IsWord = record { some_byte = omega arith; bytes = ground arith }

handle_client-Dispatch_example :
    Dispatch get_word icon_path
      (handle_client [] (get_word ++ b' ' ∷ (icon_path ++ b' ' ∷ codes "HTTP/1.1\r\n")))
handle_client-Dispatch_example =
    handle_client-Dispatch [] get_word icon_path (codes "HTTP/1.1\r\n") get_word-IsWord
      icon_path-IsWord

-- A request without a path is answered by the bytes that `path`, which nothing initialises, holds.
stale_path : handle_client icon_path (codes "GET") ≡ icon
unfolding handle_client choose c_string skip_spaces word behind_word strcmp
stale_path = refl

send_response_whole_iff_example :
    (send_response (codes "<html></html>")
      ≡ http_header (codes "text/html; charset=UTF-8") 13 ++ codes "<html></html>")
    ↔ (length (http_header (codes "text/html; charset=UTF-8") 13) + 13 < answer_size)
send_response_whole_iff_example = send_response_whole_iff (codes "<html></html>")

answer_bytes-whole_page_example :
    (answer_bytes insertion
        (some in_folder)
        (handle_client [] (get_word ++ b' ' ∷ (codes "/" ++ b' ' ∷ codes "HTTP/1.1")))
      ≡ some (page_header (listing_page sorted_entries) ++ listing_page sorted_entries))
    × Perm sorted_entries (map file_entry (take max_entries (visible in_folder)))
    × IsListing sorted_entries
answer_bytes-whole_page_example =
    answer_bytes-whole_page insertion in_folder [] get_word (codes "/") (codes "HTTP/1.1")
      get_word-IsWord (record { some_byte = omega arith; bytes = ground arith }) (omega arith)
      (omega arith) (λ same. absurd (ground arith)) fits
  where
    fits :
        length (page_header (listing_page sorted_entries)) + length (listing_page sorted_entries)
        < answer_size
    fits =
        unfold collect file_entry is_dot compare_entries strcmp item_text page_head encode_from
          encode_byte http_header decimal digits_of in
        (omega arith)
