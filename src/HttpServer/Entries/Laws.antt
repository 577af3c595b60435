-- ===== src/HttpServer/Entries/Laws.antt =====
-- The listing that a page holds, and when it fits the page.
use network_programming_lab.Prelude.{
  ℕ, zero, suc, ◌+◌, ◌<◌, ◌^◌, List, [], ◌∷◌, ◌++◌, map, ◌≡◌, refl, ap, subst, sym, ◌∙◌, arith, inl,
  inr, none, some, Bytes, length, take, leb, le→ltb, lt→ltb, if◌then◌else◌, Bool-cases,
  length-append, append-nil, append_assoc,
}
use mathlib.Core.List.{Perm}
use network_programming_lab.Strcmp.{Sorter}
use network_programming_lab.Listing.{FileEntry, compare_entries}
use network_programming_lab.Listing.Order.{IsListing, sort_entries}
use network_programming_lab.Url.{encode_from}
use network_programming_lab.Url.RoundTrip.{url_encode-eq}
use network_programming_lab.HttpServer.Page.Bounds.{page, joined, but_last, print_all-blank}
use network_programming_lab.HttpServer.Entries.{
  Found, max_entries, file_entry, is_dot, collect, item_text, list_item, list_items, page_head,
  page_foot, scan_directory,
}

-- The files but for the directory itself and its parent.
abbrev pub visible : List Found → List Found
visible [] = []
visible (f ∷ fs) = if is_dot f.c_file_name then visible fs else f ∷ visible fs

collect-take :
    (room count : ℕ) (fs : List Found)
    → room + count ≡ max_entries
    → collect count fs ≡ map file_entry (take room (visible fs))
unfolding collect
collect-take zero count [] h = refl
collect-take (suc room) count [] h = refl
collect-take zero count (f ∷ fs) h = elim (Bool-cases (is_dot f.c_file_name)) [
  | inl dot ↦ rw dot (collect-take zero count fs h)
  | inr file ↦ rw (file, le→ltb count max_entries (omega arith)) (collect-take zero count fs h)
]
collect-take (suc room) count (f ∷ fs) h = elim (Bool-cases (is_dot f.c_file_name)) [
  | inl dot ↦ rw dot (collect-take (suc room) count fs h)
  | inr file ↦
      rw (file, lt→ltb count max_entries (omega arith))
        (ap (◌∷◌ (file_entry f)) (collect-take room (suc count) fs (omega arith)))
]

joined-append : (xs ys : List Bytes) → joined (xs ++ ys) ≡ joined xs ++ joined ys
joined-append [] ys = refl
joined-append (x ∷ xs) ys =
    ap (◌++◌ x) (joined-append xs ys) ∙ sym (append_assoc x (joined xs) (joined ys))

but_last-snoc : (xs : List Bytes) (last : Bytes) → but_last (xs ++ last ∷ []) ≡ length (joined xs)
but_last-snoc [] last = refl
but_last-snoc (x ∷ []) last = omega (arith, length-append x [])
but_last-snoc (x ∷ y ∷ xs) last =
    omega (arith, but_last-snoc (y ∷ xs) last, length-append x (y ++ joined xs))

-- The item of an entry, with its name as the encoder writes it into 512 bytes.
abbrev pub item : FileEntry → Bytes
item e = item_text (encode_from 512 0 e.name) e

abbrev pub items : List FileEntry → Bytes
items entries = joined (map item entries)

list_items-eq : (entries : List FileEntry) → list_items entries ≡ some (map item entries)
unfolding list_items list_item
list_items-eq [] = refl
list_items-eq (e ∷ entries) =
    rw (url_encode-eq 512 e.name (omega arith) (omega arith), list_items-eq entries) refl

-- For any sort that keeps the promise of `qsort`, a buffer that is not empty and shorter than 2^63
-- bytes, and a page of fewer than 2^63 bytes: `scan_directory` writes outside the buffer exactly
-- if the head and the items have more bytes than the buffer, and else leaves the page cut to the
-- buffer; the items are those of the first 1024 files other than `.` and `..`, directories first
-- and each of the two kinds by name.
pub scan_directory_lem :
    (q : Sorter FileEntry) (size : ℕ) (found : List Found)
    → let entries = q.sort compare_entries (collect 0 found) in
      let whole = page_head ++ (items entries ++ page_foot) in
      0 < size
      → size < 2 ^ 63
      → length whole < 2 ^ 63
      → (scan_directory q size (some found) ≡ (
          if leb (length page_head + length (items entries)) size
          then some (page size whole)
          else none))
        × Perm entries (map file_entry (take max_entries (visible found)))
        × IsListing entries
unfolding scan_directory
scan_directory_lem q size found pos small short =
    let entries = q.sort compare_entries (collect 0 found) in
    let pages = map item entries ++ page_foot ∷ [] in
    let fit : but_last (page_head ∷ pages) ≡ length page_head + length (items entries) =
      but_last-snoc (page_head ∷ map item entries) page_foot
      ∙ length-append page_head (items entries) in
    let all : joined (page_head ∷ pages) ≡ page_head ++ (items entries ++ page_foot) =
      ap (◌++◌ page_head) (
        joined-append (map item entries) (page_foot ∷ [])
        ∙ ap (◌++◌ (items entries)) (append-nil page_foot)) in
    let (same, listed) = sort_entries q (collect 0 found) in
    (
      rw (list_items-eq entries)
          (print_all-blank size small page_head pages pos (rw all short) ∙ rw (fit, all)),
      subst (Perm entries) (collect-take max_entries 0 found refl) same,
      listed,
    )
