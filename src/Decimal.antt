-- ===== src/Decimal.antt =====
-- `%d` of a number that is not negative, as `printf` writes it, with the digits read back.
use network_programming_lab.Prelude.{
  ℕ, zero, suc, All, All-append, ltb→lt, length, length-append, ◌≤◌, ◌+◌, ◌-◌, ◌*◌, ◌/◌, ◌%◌, ◌<◌,
  [], ◌∷◌, ◌++◌, ◌≡◌, refl, arith, Bytes, inl, inr, ltb, if◌then◌else◌, Bool-cases, ltb_false→le,
}

-- The digits of `n`, with at most `fuel` of them; the last one is written last.
unfoldable pub digits_of : ℕ → ℕ → Bytes
digits_of zero n = []
digits_of (suc fuel) n =
    let front = digits_of fuel (n / 10) in
    if ltb n 10 then (b'0' + n) ∷ [] else front ++ (b'0' + n % 10) ∷ []

unfoldable pub decimal : ℕ → Bytes
unfolding digits_of
decimal n = digits_of (suc n) n

-- The number that a text of digits stands for, behind a number already read.
abbrev pub value_from : ℕ → Bytes → ℕ
value_from acc [] = acc
value_from acc (c ∷ cs) = value_from (acc * 10 + (c - b'0')) cs

value_from-append :
    (xs ys : Bytes) (acc : ℕ) → value_from acc (xs ++ ys) ≡ value_from (value_from acc xs) ys
value_from-append [] ys acc = refl
value_from-append (x ∷ xs) ys acc = value_from-append xs ys (acc * 10 + (x - b'0'))

value_from-digits_of : (fuel n : ℕ) → n < fuel → value_from 0 (digits_of fuel n) ≡ n
unfolding digits_of
value_from-digits_of zero n h = absurd (omega arith)
value_from-digits_of (suc fuel) n h = elim (Bool-cases (ltb n 10)) [
  | inl one ↦ rw one (omega arith)
  | inr more ↦
      let front = value_from-digits_of fuel (n / 10) (omega (arith, ltb_false→le _ _ more)) in
      rw (more, value_from-append) (rw front (omega arith))
]

-- The digits written for a number stand for it.
pub value_from-decimal : (n : ℕ) → value_from 0 (decimal n) ≡ n
unfolding decimal
value_from-decimal n = value_from-digits_of (suc n) n (omega arith)

abbrev pub IsDigit : ℕ → Type 0
IsDigit c = (b'0' ≤ c) × (c ≤ b'9')

All-IsDigit-digits_of : (fuel n : ℕ) → All IsDigit (digits_of fuel n)
unfolding digits_of
All-IsDigit-digits_of zero n = tt
All-IsDigit-digits_of (suc fuel) n = elim (Bool-cases (ltb n 10)) [
  | inl one ↦ rw one ((omega arith, omega (arith, ltb→lt _ _ one)), tt)
  | inr more ↦ rw more (
      All-append IsDigit (digits_of fuel (n / 10)) _ (All-IsDigit-digits_of fuel (n / 10))
        ((omega arith, omega arith), tt))
]

pub All-IsDigit-decimal : (n : ℕ) → All IsDigit (decimal n)
unfolding decimal
All-IsDigit-decimal n = All-IsDigit-digits_of (suc n) n

pub length-decimal : (n : ℕ) → 0 < length (decimal n)
unfolding decimal digits_of
length-decimal n = ground (arith, length-append (digits_of n (n / 10)) ((b'0' + n % 10) ∷ []))

-- Every number below the bound has at most so many digits, whatever the fuel.
abbrev pub Digits : ℕ → ℕ → Type 0
Digits bound most = (fuel n : ℕ) → n < bound → length (digits_of fuel n) ≤ most

one-Digits : Digits 10 1
unfolding digits_of
one-Digits zero n h = omega arith
one-Digits (suc fuel) n h = ground arith

one_more : (bound most : ℕ) → 0 < bound → Digits bound most → Digits (10 * bound) (suc most)
unfolding digits_of
one_more bound most some_room shorter zero n h = omega arith
one_more bound most some_room shorter (suc fuel) n h = ground (
  arith,
  length-append (digits_of fuel (n / 10)) ((b'0' + n % 10) ∷ []),
  shorter fuel (n / 10) (omega arith),
)

five-Digits : Digits 100000 5
five-Digits = one_more 10000 4 (omega arith) (
    one_more 1000 3 (omega arith)
      (one_more 100 2 (omega arith) (one_more 10 1 (omega arith) one-Digits)))

pub length-decimal_u16 : (n : ℕ) → n < 65536 → length (decimal n) ≤ 5
unfolding decimal
length-decimal_u16 n h = five-Digits (suc n) n (omega arith)
