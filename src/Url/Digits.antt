-- ===== src/Url/Digits.antt =====
-- Hexadecimal digits, checked one by one.
use network_programming_lab.Prelude.{dec_lt, ℕ, zero, suc, ◌<◌, true, ◌≡◌, arith}
use network_programming_lab.Url.{hex_digit, is_xdigit, hex_value}

-- `url_decode` reads the digit of `k` as `k`.
abbrev Reads : ℕ → Type 0
Reads k = (is_xdigit (hex_digit k) ≡ true) × (hex_value (hex_digit k) ≡ k)

-- The claim for each number under a bound, as a table.
abbrev Table : ℕ → Type 0
Table zero = Unit {0}
Table (suc n) = Reads n × Table n

row : (n k : ℕ) → Table n → k < n → Reads k
row zero k table h = absurd (omega arith)
row (suc n) k table h = elim (dec_lt k n) [
  | yes under ↦ row n k table.1 under
  | no last ↦ let e : k ≡ n = omega arith in rw e table.0
]

digits : Table 16
unfolding hex_digit is_xdigit hex_value
digits = ground arith

-- `url_decode` reads each digit that `url_encode` writes, as its value.
pub hex_digit_lem :
    (k : ℕ) → k < 16 → (is_xdigit (hex_digit k) ≡ true) × (hex_value (hex_digit k) ≡ k)
hex_digit_lem k h = row 16 k digits h
