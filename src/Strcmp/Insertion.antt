-- ===== src/Strcmp/Insertion.antt =====
-- Insertion sort: a function that keeps the promise of `qsort`.
use network_programming_lab.Prelude.{
  Bool, true, false, List, [], ◌∷◌, ◌≡◌, ◌≢◌, arith, All, inl, inr, if◌then◌else◌, Bool-cases,
}
use network_programming_lab.Strcmp.Defs.{Sign, above}
use network_programming_lab.Strcmp.Laws.{IsOrder}
use network_programming_lab.Strcmp.Sorting.{IsSorted, Sorter}
use mathlib.Core.List.{Perm}
use mathlib.Core.List.Perm

abbrev is_above : Sign → Bool
is_above above = true
is_above _ = false

module _ {ℓ} {A : Type ℓ} (compare : A → A → Sign) where
  abbrev insert : A → List A → List A
  insert x [] = x ∷ []
  insert x (y ∷ ys) = if is_above (compare x y) then y ∷ insert x ys else x ∷ y ∷ ys

  abbrev pub insertion_sort : List A → List A
  insertion_sort [] = []
  insertion_sort (x ∷ xs) = insert x (insertion_sort xs)

  insert-perm : (x : A) (ys : List A) → Perm (insert x ys) (x ∷ ys)
  insert-perm x [] = Perm.refl _
  insert-perm x (y ∷ ys) = elim (Bool-cases (is_above (compare x y))) [
    | inl h ↦ rw h (Perm.trans (Perm.cons y (insert-perm x ys)) (Perm.swap x y ys))
    | inr h ↦ rw h (Perm.refl (x ∷ y ∷ ys))
  ]

  pub insertion_sort-perm : (xs : List A) → Perm (insertion_sort xs) xs
  insertion_sort-perm [] = Perm.refl _
  insertion_sort-perm (x ∷ xs) =
      Perm.trans (insert-perm x (insertion_sort xs)) (Perm.cons x (insertion_sort-perm xs))

  abbrev Before : A → A → Type 0
  Before x y = compare x y ≢ above

  All-Before-insert :
      (z x : A) (ys : List A) → Before z x → All (Before z) ys → All (Before z) (insert x ys)
  All-Before-insert z x [] h hs = (h, tt)
  All-Before-insert z x (y ∷ ys) h hs = elim (Bool-cases (is_above (compare x y))) [
    | inl k ↦ rw k (hs.0, All-Before-insert z x ys h hs.1)
    | inr k ↦ rw k (h, hs)
  ]

  module _ (o : IsOrder compare) where
    All-Before-chains : (x y : A) (ys : List A) → Before x y → All (Before y) ys → All (Before x) ys
    All-Before-chains x y [] h hs = tt
    All-Before-chains x y (z ∷ ys) h hs = (o.chains x y z h hs.0, All-Before-chains x y ys h hs.1)

    turned : (x y : A) → is_above (compare x y) ≡ true → Before y x
    turned x y h = ground (arith, o.flips x y)

    kept : (x y : A) → is_above (compare x y) ≡ false → Before x y
    kept x y h = ground arith

    insert-IsSorted : (x : A) (ys : List A) → IsSorted compare ys → IsSorted compare (insert x ys)
    insert-IsSorted x [] s = (tt, tt)
    insert-IsSorted x (y ∷ ys) s = elim (Bool-cases (is_above (compare x y))) [
      | inl h ↦ rw h (All-Before-insert y x ys (turned x y h) s.0, insert-IsSorted x ys s.1)
      | inr h ↦ rw h ((kept x y h, All-Before-chains x y ys (kept x y h) s.0), s)
    ]

    pub insertion_sort-IsSorted : (xs : List A) → IsSorted compare (insertion_sort xs)
    insertion_sort-IsSorted [] = tt
    insertion_sort-IsSorted (x ∷ xs) = insert-IsSorted x _ (insertion_sort-IsSorted xs)

abbrev pub insertion {ℓ} : {A : Type ℓ} → Sorter A
insertion = record {
  sort = insertion_sort;
  sort-perm = insertion_sort-perm;
  sort-IsSorted = λ compare xs o. insertion_sort-IsSorted compare o xs;
}
