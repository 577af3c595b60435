-- ===== src/FileShare/Streams/Laws.antt =====
-- What is read off a text of words and numbers with spaces between them.
use network_programming_lab.Prelude.{
  ℕ, ◌+◌, ◌-◌, ◌*◌, ◌≤◌, ◌<◌, true, false, [], ◌∷◌, ◌++◌, ◌≡◌, refl, ap, ◌∙◌, arith, some, All,
  Bytes, length, take-eq_of_le, length-append, ◌==◌,
}
use network_programming_lab.Scanf.{
  is_space, skip_spaces, word, behind_word, read_digits, IsWord, IsWordByte, skip_spaces-append,
}
use network_programming_lab.Decimal.{
  decimal, value_from, value_from-decimal, IsDigit, All-IsDigit-decimal, length-decimal,
}
use network_programming_lab.FileServer.Reader.{HasNoNul, c_string-eq}
use network_programming_lab.FileShare.Streams.{
  buffer_text, next_word, behind_next, behind_digits, int_max, signed_int, behind_number,
  behind_signed, next_int, behind_int,
}

-- A text that ends or goes on with white space.
abbrev pub Ends : Bytes → Type 0
Ends [] = Unit {0}
Ends (c ∷ cs) = is_space c ≡ true

word-Ends : (w rest : Bytes) → All IsWordByte w → Ends rest → word (w ++ rest) ≡ w
unfolding word
word-Ends [] [] h e = refl
word-Ends [] (c ∷ cs) h e = rw e
word-Ends (c ∷ w) rest h e = rw (h.0.0) (ap (◌∷◌ c) (word-Ends w rest h.1 e))

behind_word-Ends : (w rest : Bytes) → All IsWordByte w → Ends rest → behind_word (w ++ rest) ≡ rest
unfolding behind_word
behind_word-Ends [] [] h e = refl
behind_word-Ends [] (c ∷ cs) h e = rw e
behind_word-Ends (c ∷ w) rest h e = rw (h.0.0) (behind_word-Ends w rest h.1 e)

pub next_word-append : (w rest : Bytes) → IsWord w → Ends rest → next_word (w ++ rest) ≡ w
unfolding next_word
next_word-append w rest h e = rw (skip_spaces-append w rest h) (word-Ends w rest h.bytes e)

pub behind_next-append : (w rest : Bytes) → IsWord w → Ends rest → behind_next (w ++ rest) ≡ rest
unfolding behind_next
behind_next-append w rest h e = rw (skip_spaces-append w rest h) (behind_word-Ends w rest h.bytes e)

pub next_word_space : (text : Bytes) → next_word (b' ' ∷ text) ≡ next_word text
unfolding next_word skip_spaces
next_word_space text = refl

pub behind_next_space : (text : Bytes) → behind_next (b' ' ∷ text) ≡ behind_next text
unfolding behind_next skip_spaces
behind_next_space text = refl

read_digits-Ends :
    (acc : ℕ) (ds rest : Bytes)
    → All IsDigit ds
    → Ends rest
    → read_digits acc (ds ++ rest) ≡ value_from acc ds
unfolding read_digits
read_digits-Ends acc [] [] h e = refl
read_digits-Ends acc [] (c ∷ cs) h e = ground arith
read_digits-Ends acc (d ∷ ds) rest h e =
    ground (arith, h.0, read_digits-Ends (acc * 10 + (d - b'0')) ds rest h.1 e)

behind_digits-Ends :
    (ds rest : Bytes) → All IsDigit ds → Ends rest → behind_digits (ds ++ rest) ≡ rest
unfolding behind_digits
behind_digits-Ends [] [] h e = refl
behind_digits-Ends [] (c ∷ cs) h e = ground arith
behind_digits-Ends (d ∷ ds) rest h e = ground (arith, h.0, behind_digits-Ends ds rest h.1 e)

skip_spaces-digits :
    (ds rest : Bytes) → 0 < length ds → All IsDigit ds → skip_spaces (ds ++ rest) ≡ ds ++ rest
unfolding skip_spaces
skip_spaces-digits [] rest h k = absurd (omega arith)
skip_spaces-digits (d ∷ ds) rest h k = ground (arith, k.0)

signed_int-digits :
    (ds rest : Bytes)
    → 0 < length ds
    → All IsDigit ds
    → Ends rest
    → value_from 0 ds ≤ int_max
    → signed_int (ds ++ rest) ≡ some (value_from 0 ds)
unfolding signed_int
signed_int-digits [] rest h k e small = absurd (omega arith)
signed_int-digits (d ∷ ds) rest h k e small =
    rw (no_minus, no_plus, read_digits-Ends 0 (d ∷ ds) rest k e) (ground arith)
  where
    no_minus : (d == b'-') ≡ false
    no_minus = ground (arith, k.0)

    no_plus : (d == b'+') ≡ false
    no_plus = ground (arith, k.0)

behind_number-digits :
    (ds rest : Bytes)
    → 0 < length ds
    → All IsDigit ds
    → Ends rest
    → value_from 0 ds ≤ int_max
    → behind_number int_max (ds ++ rest) ≡ rest
unfolding behind_number
behind_number-digits ds rest h k e small =
    rw (read_digits-Ends 0 ds rest k e, behind_digits-Ends ds rest k e)
      (ground (arith, length-append ds rest))

behind_signed-digits :
    (ds rest : Bytes)
    → 0 < length ds
    → All IsDigit ds
    → Ends rest
    → value_from 0 ds ≤ int_max
    → behind_signed (ds ++ rest) ≡ rest
unfolding behind_signed
behind_signed-digits [] rest h k e small = absurd (omega arith)
behind_signed-digits (d ∷ ds) rest h k e small =
    ground (arith, k.0, behind_number-digits (d ∷ ds) rest h k e small)

-- A number that fits an `int`, behind a space.
module _ (n : ℕ) (rest : Bytes) (ends : Ends rest) (small : n ≤ int_max) where
  abbrev digits : Bytes
  digits = decimal n

  fits : value_from 0 digits ≤ int_max
  fits = omega (arith, value_from-decimal n)

  pub next_int-decimal : next_int (b' ' ∷ (digits ++ rest)) ≡ some n
  unfolding next_int skip_spaces
  next_int-decimal =
      ap signed_int (skip_spaces-digits digits rest (length-decimal n) (All-IsDigit-decimal n))
      ∙ signed_int-digits digits rest (length-decimal n) (All-IsDigit-decimal n) ends fits
      ∙ ap some (value_from-decimal n)

  pub behind_int-decimal : behind_int (b' ' ∷ (digits ++ rest)) ≡ rest
  unfolding behind_int skip_spaces
  behind_int-decimal =
      ap behind_signed (skip_spaces-digits digits rest (length-decimal n) (All-IsDigit-decimal n))
      ∙ behind_signed-digits digits rest (length-decimal n) (All-IsDigit-decimal n) ends fits

pub buffer_text-eq :
    (size : ℕ) (text : Bytes)
    → HasNoNul text
    → length text < size
    → buffer_text size text ≡ some text
unfolding buffer_text
buffer_text-eq size text h short =
    rw (take-eq_of_le size text (omega arith), c_string-eq text h) (ground arith)

pub word-HasNoNul : (w : Bytes) → All IsWordByte w → HasNoNul w
word-HasNoNul [] h = tt
word-HasNoNul (c ∷ w) h = (h.0.1, word-HasNoNul w h.1)

pub digits-HasNoNul : (ds : Bytes) → All IsDigit ds → HasNoNul ds
digits-HasNoNul [] h = tt
digits-HasNoNul (c ∷ ds) h = (ground (arith, h.0), digits-HasNoNul ds h.1)
