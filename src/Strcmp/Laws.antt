-- ===== src/Strcmp/Laws.antt =====
-- What makes a comparator an order, and `strcmp` one.
use network_programming_lab.Prelude.{true, [], ◌∷◌, ◌≡◌, ◌≢◌, ◌↔◌, refl, arith, Bytes}
use network_programming_lab.Strcmp.Defs.{Sign, same, above, opposite, strcmp, texts_agree}

-- A comparator that two calls on the same pair, or calls on three elements, cannot contradict.
pub record IsOrder {ℓ} {A : Type ℓ} (compare : A → A → Sign) : Type ℓ where
  pub flips : (a b : A) → compare b a ≡ opposite (compare a b)
  pub chains : (a b c : A) → compare a b ≢ above → compare b c ≢ above → compare a c ≢ above

pub strcmp-flips : (a b : Bytes) → strcmp b a ≡ opposite (strcmp a b)
unfolding strcmp
strcmp-flips [] [] = refl
strcmp-flips [] (y ∷ b) = refl
strcmp-flips (x ∷ a) [] = refl
strcmp-flips (x ∷ a) (y ∷ b) = ground (arith, strcmp-flips a b)

pub strcmp-chains : (a b c : Bytes) → strcmp a b ≢ above → strcmp b c ≢ above → strcmp a c ≢ above
unfolding strcmp
strcmp-chains [] b [] h k = ground arith
strcmp-chains [] b (z ∷ c) h k = ground arith
strcmp-chains (x ∷ a) [] c h k = ground arith
strcmp-chains (x ∷ a) (y ∷ b) [] h k = ground arith
strcmp-chains (x ∷ a) (y ∷ b) (z ∷ c) h k = ground (arith, strcmp-chains a b c)

pub strcmp-IsOrder : IsOrder strcmp
strcmp-IsOrder = record { flips = strcmp-flips; chains = strcmp-chains }

pub strcmp-same_iff : (a b : Bytes) → (strcmp a b ≡ same) ↔ (a ≡ b)
unfolding strcmp
strcmp-same_iff [] [] = (λ h. refl, λ h. refl)
strcmp-same_iff [] (y ∷ b) = ground arith
strcmp-same_iff (x ∷ a) [] = ground arith
strcmp-same_iff (x ∷ a) (y ∷ b) = ground (arith, strcmp-same_iff a b)

pub texts_agree_iff : (a b : Bytes) → (texts_agree a b ≡ true) ↔ (a ≡ b)
texts_agree_iff a b = ground (arith, strcmp-same_iff a b)
