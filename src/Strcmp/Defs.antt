-- ===== src/Strcmp/Defs.antt =====
-- The sign of a comparison, and the comparison of two texts by their bytes.
use network_programming_lab.Prelude.{ℕ, Bool, true, false, [], ◌∷◌, Bytes, ltb, ◌==◌, if◌then◌else◌}

-- The sign of an `int`.
pub data Sign : Type 0 where
  below same above : Sign

abbrev pub opposite : Sign → Sign
opposite below = above
opposite same = same
opposite above = below

-- The sign of `a - b`.
abbrev pub sign_of_difference : ℕ → ℕ → Sign
sign_of_difference a b = if a == b then same else if ltb a b then below else above

unfoldable pub strcmp : Bytes → Bytes → Sign
strcmp [] [] = same
strcmp [] (y ∷ b) = below
strcmp (x ∷ a) [] = above
strcmp (x ∷ a) (y ∷ b) = if x == y then strcmp a b else sign_of_difference x y

abbrev pub is_same : Sign → Bool
is_same same = true
is_same _ = false

-- `strcmp(a, b) == 0`
abbrev pub texts_agree : Bytes → Bytes → Bool
texts_agree a b = is_same (strcmp a b)
