-- ===== src/Console.antt =====
-- The programs of one `main` that talk to the console: ex1.cpp, ex2.cpp and tao-ham-ghep-xau.cpp.
use network_programming_lab.Prelude.{
  ◌≤◌, ◌≡◌, refl, ap, arith, ℕ, zero, suc, ◌/◌, ◌%◌, Bool, List, [], ◌∷◌, ◌++◌, Option, none, some,
  Bytes, length, ◌==◌, if◌then◌else◌, ◌>>=◌,
}
use network_programming_lab.Url.{hex_digit}

-- ex1.cpp: the bytes of a `float`, from the one with the highest address down, in two digits each.
unfoldable pub hex_text : Bytes → Bytes
hex_text [] = []
hex_text (c ∷ cs) = hex_text cs ++ (hex_digit (c / 16) ∷ hex_digit (c % 16) ∷ b' ' ∷ [])

-- What ex2.cpp uses of the type `float`.
pub record Floats : Type 1 where
  pub Float : Type 0
  pub nought : Float
  pub is_nought : Float → Bool
  pub plus : Float → Float → Float

module _ (floats : Floats) where
  -- The numbers up to the first that is zero; `none` if there is none, when the last number is read
  -- again and again until there is no more memory.
  unfoldable pub arr : List floats.Float → Option (List floats.Float)
  arr [] = none
  arr (num ∷ nums) = if floats.is_nought num then some [] else keep num (arr nums)
    where
      keep : floats.Float → Option (List floats.Float) → Option (List floats.Float)
      keep num none = none
      keep num (some nums) = some (num ∷ nums)

  unfoldable pub sum_from : floats.Float → List floats.Float → floats.Float
  sum_from sum [] = sum
  sum_from sum (num ∷ nums) = sum_from (floats.plus sum num) nums

  unfoldable pub sum_of : List floats.Float → Option floats.Float
  sum_of nums = do numbers ← arr nums; some (sum_from floats.nought numbers)

-- tao-ham-ghep-xau.cpp: `getline` is the text up to the newline, and the rest behind it.
unfoldable pub getline : Bytes → Bytes
getline [] = []
getline (c ∷ cs) = if c == b'\n' then [] else c ∷ getline cs

unfoldable pub behind_getline : Bytes → Bytes
behind_getline [] = []
behind_getline (c ∷ cs) = if c == b'\n' then cs else behind_getline cs

-- The lines up to the first that is empty, joined; `n` bounds the number of rounds.
unfoldable pub joined : ℕ → Bytes → Bytes
joined zero input = []
joined (suc n) input =
    let onward = joined n (behind_getline input) in
    if length (getline input) == 0 then [] else getline input ++ onward

-- The output: an input of so many bytes has no more lines.
unfoldable pub output : Bytes → Bytes
output input = joined (length input) input ++ b'\n' ∷ []

length-behind_getline : (c : ℕ) (cs : Bytes) → length (behind_getline (c ∷ cs)) ≤ length cs
unfolding behind_getline
length-behind_getline c [] = ground arith
length-behind_getline c (d ∷ cs) = ground (arith, length-behind_getline d cs)

-- More rounds than there are bytes make no difference.
joined_enough :
    (n m : ℕ) (input : Bytes)
    → length input ≤ n
    → length input ≤ m
    → joined n input ≡ joined m input
unfolding joined
joined_enough zero zero input h k = refl
joined_enough zero (suc m) [] h k = unfold getline in refl
joined_enough zero (suc m) (c ∷ cs) h k = absurd (omega arith)
joined_enough (suc n) zero [] h k = unfold getline in refl
joined_enough (suc n) zero (c ∷ cs) h k = absurd (omega arith)
joined_enough (suc n) (suc m) [] h k = unfold getline in refl
joined_enough (suc n) (suc m) (c ∷ cs) h k =
    let shorter = length-behind_getline c cs in
    ap (λ rest. if length (getline (c ∷ cs)) == 0 then [] else getline (c ∷ cs) ++ rest)
      (joined_enough n m (behind_getline (c ∷ cs)) (omega arith) (omega arith))
