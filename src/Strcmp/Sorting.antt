-- ===== src/Strcmp/Sorting.antt =====
-- `qsort` and the sort inside `scandir` are not code of this repository: what they promise, for a
-- comparator that is an order.
use network_programming_lab.Prelude.{List, [], ◌∷◌, ◌≢◌, All}
use network_programming_lab.Strcmp.Defs.{Sign, above}
use network_programming_lab.Strcmp.Laws.{IsOrder}
use mathlib.Core.List.{Perm}

-- No element stands behind one that it should stand before.
abbrev pub IsSorted {ℓ} : {A : Type ℓ} → (A → A → Sign) → List A → Type 0
IsSorted compare [] = Unit {0}
IsSorted compare (x ∷ xs) = All (λ y. compare x y ≢ above) xs × IsSorted compare xs

pub record Sorter {ℓ} (A : Type ℓ) : Type ℓ where
  pub sort : (A → A → Sign) → List A → List A
  pub sort-perm : (compare : A → A → Sign) (xs : List A) → Perm (sort compare xs) xs
  pub sort-IsSorted :
      (compare : A → A → Sign) (xs : List A) → IsOrder compare → IsSorted compare (sort compare xs)
