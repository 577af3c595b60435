-- ===== src/Listing/Order.antt =====
-- Which of the comparators is an order, and what a listing sorted by it looks like.
use network_programming_lab.Prelude.{◌≤◌, List, [], ◌∷◌, ◌≡◌, ◌≢◌, ◌↔◌, ◌⊎◌, arith, All}
use mathlib.Core.List.{Perm}
use network_programming_lab.Strcmp.{
  above, opposite, strcmp, strcmp-flips, strcmp-chains, IsOrder, IsSorted, Sorter,
}
use network_programming_lab.Listing.{FileEntry, compare_entries, Dirent, dt_dir, compare_dirents}

compare_entries-flips : (a b : FileEntry) → compare_entries b a ≡ opposite (compare_entries a b)
unfolding compare_entries
compare_entries-flips a b = ground (arith, strcmp-flips a.name b.name)

compare_entries-chains :
    (a b c : FileEntry)
    → compare_entries a b ≢ above
    → compare_entries b c ≢ above
    → compare_entries a c ≢ above
unfolding compare_entries
compare_entries-chains a b c h k = ground (arith, strcmp-chains a.name b.name c.name)

-- `compare_entries` is an order: swapping its arguments flips its sign, and an entry that does not
-- stand behind a second one, which does not stand behind a third, does not stand behind the third.
pub compare_entries-IsOrder : IsOrder compare_entries
compare_entries-IsOrder = record { flips = compare_entries-flips; chains = compare_entries-chains }

-- Directories stand before files, and each of the two by name.
abbrev pub MayPrecede : FileEntry → FileEntry → Type 0
MayPrecede a b = (b.is_dir ≤ a.is_dir) × (a.is_dir ≡ b.is_dir → strcmp a.name b.name ≢ above)

abbrev pub IsListing : List FileEntry → Type 0
IsListing [] = Unit {0}
IsListing (x ∷ xs) = All (MayPrecede x) xs × IsListing xs

compare_entries-MayPrecede : (a b : FileEntry) → compare_entries a b ≢ above → MayPrecede a b
unfolding compare_entries
compare_entries-MayPrecede a b h = ground arith

All-MayPrecede :
    (x : FileEntry) (xs : List FileEntry)
    → All (λ y. compare_entries x y ≢ above) xs
    → All (MayPrecede x) xs
All-MayPrecede x [] h = tt
All-MayPrecede x (y ∷ xs) h = (compare_entries-MayPrecede x y h.0, All-MayPrecede x xs h.1)

IsSorted-IsListing : (xs : List FileEntry) → IsSorted compare_entries xs → IsListing xs
IsSorted-IsListing [] h = tt
IsSorted-IsListing (x ∷ xs) h = (All-MayPrecede x xs h.0, IsSorted-IsListing xs h.1)

pub sort_entries :
    (q : Sorter FileEntry) (entries : List FileEntry)
    → Perm (q.sort compare_entries entries) entries × IsListing (q.sort compare_entries entries)
sort_entries q entries = (
  q.sort-perm compare_entries entries,
  IsSorted-IsListing _ (q.sort-IsSorted compare_entries entries compare_entries-IsOrder),
)

-- Swapping the arguments of `Compare` flips its sign exactly if the two entries are of the same
-- type or one of them is a directory: for two entries of different types that are no directories,
-- each is said to stand behind the other.
pub compare_dirents-flips_iff :
    (a b : Dirent)
    → (compare_dirents b a ≡ opposite (compare_dirents a b))
      ↔ ((a.d_type ≡ b.d_type) ⊎ (a.d_type ≡ dt_dir) ⊎ (b.d_type ≡ dt_dir))
unfolding compare_dirents
compare_dirents-flips_iff a b = ground (arith, strcmp-flips a.d_name b.d_name)
