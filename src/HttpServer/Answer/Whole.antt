-- ===== src/HttpServer/Answer/Whole.antt =====
-- A request for a page, up to the bytes that are sent for it.
use network_programming_lab.Prelude.{
  ℕ, ◌+◌, ◌-◌, ◌<◌, true, List, ◌∷◌, ◌++◌, map, ◌≡◌, ◌≢◌, refl, ap, ◌∙◌, arith, none, some, Bytes,
  codes, length, take, take-eq_of_le, length-append, leb, if◌then◌else◌,
}
use mathlib.Core.List.{Perm}
use network_programming_lab.Strcmp.{Sorter}
use network_programming_lab.Listing.{FileEntry, compare_entries}
use network_programming_lab.Listing.Order.{IsListing}
use network_programming_lab.Scanf.{IsWord}
use network_programming_lab.HttpServer.Page.Bounds.{page}
use network_programming_lab.HttpServer.Entries.{
  Found, max_entries, file_entry, collect, page_head, page_foot, scan_directory,
}
use network_programming_lab.HttpServer.Entries.Laws.{visible, items, scan_directory_lem}
use network_programming_lab.HttpServer.Answer.{
  answer_size, http_header, send_response, Answer, listing, handle_client, answer_bytes,
}
use network_programming_lab.HttpServer.Answer.Laws.{
  Dispatch, long_method, long_path, asks_icon, asks_page, handle_client-Dispatch,
  send_response_whole_iff,
}

-- The page for the files of a directory.
abbrev pub sorted : Sorter FileEntry → List Found → List FileEntry
sorted q found = q.sort compare_entries (collect 0 found)

abbrev pub listing_page : List FileEntry → Bytes
listing_page entries = page_head ++ (items entries ++ page_foot)

abbrev pub page_header : Bytes → Bytes
page_header html = http_header (codes "text/html; charset=UTF-8") (length html)

Dispatch-listing :
    {method path : Bytes} {a : Answer}
    → Dispatch method path a
    → length method < 16
    → length path < 512
    → path ≢ codes "/favicon.ico"
    → a ≡ listing
Dispatch-listing (long_method h) m p i = absurd (omega arith)
Dispatch-listing (long_path h) m p i = absurd (omega arith)
Dispatch-listing (asks_icon h e) m p i = absurd (i e)
Dispatch-listing (asks_page h k e) m p i = refl

front_fits :
    (head inner foot : Bytes) (size : ℕ)
    → length (head ++ (inner ++ foot)) < size
    → leb (length head + length inner) size ≡ true
front_fits head inner foot size h =
    ground (arith, length-append head (inner ++ foot), length-append inner foot)

module _ (q : Sorter FileEntry) (found : List Found) where
  abbrev html : Bytes
  html = listing_page (sorted q found)

  scan_directory_whole :
      length html < answer_size
      → scan_directory q answer_size (some found) ≡ some (page answer_size html)
  scan_directory_whole short =
      let scanned =
        scan_directory_lem q answer_size found (omega arith) (omega arith) (omega arith) in
      let room : leb (length page_head + length (items (sorted q found))) answer_size ≡ true =
        front_fits page_head (items (sorted q found)) page_foot answer_size short in
      scanned.0 ∙ ap (λ b. if b then some (page answer_size html) else none) room

  -- For a request of two words, the first of fewer than 16 bytes and the second of fewer than 512
  -- and not `/favicon.ico`: if header and page together have fewer than 8192 bytes, then what is
  -- handed to `send` is exactly the header, which announces the length of the page, and the page,
  -- with an item for each of the first 1024 visible files of the directory, in the order of the
  -- listing.
  pub answer_bytes-whole_page :
      (stale method path rest : Bytes)
      → IsWord method
      → IsWord path
      → length method < 16
      → length path < 512
      → path ≢ codes "/favicon.ico"
      → length (page_header html) + length html < answer_size
      → (answer_bytes q (some found) (handle_client stale (method ++ b' ' ∷ (path ++ b' ' ∷ rest)))
          ≡ some (page_header html ++ html))
        × Perm (sorted q found) (map file_entry (take max_entries (visible found)))
        × IsListing (sorted q found)
  unfolding answer_bytes
  answer_bytes-whole_page stale method path rest is_method is_path few short no_icon fits =
      let asked : handle_client stale (method ++ b' ' ∷ (path ++ b' ' ∷ rest)) ≡ listing =
        Dispatch-listing (handle_client-Dispatch stale method path rest is_method is_path) few short
          no_icon in
      let scanned =
        scan_directory_lem q answer_size found (omega arith) (omega arith) (omega arith) in
      let whole : take (answer_size - 1) html ≡ html =
        take-eq_of_le (answer_size - 1) html (omega arith) in
      (
        rw (asked, scan_directory_whole (omega arith))
            (ap some (ap send_response whole ∙ (send_response_whole_iff html).1 fits)),
        scanned.1,
        scanned.2,
      )
