-- ===== src/Scanf/Laws.antt =====
-- Reading a word off a text.
use network_programming_lab.Prelude.{
  ℕ, ◌<◌, false, [], ◌∷◌, ◌++◌, ◌≡◌, ◌≢◌, refl, ap, arith, All, Bytes, length,
}
use network_programming_lab.Scanf.Defs.{is_space, skip_spaces, word, behind_word, c_string}

-- A word of a request line: neither white space nor a NUL in it, and not empty.
abbrev pub IsWordByte : ℕ → Type 0
IsWordByte c = (is_space c ≡ false) × (c ≢ 0)

pub record IsWord (w : Bytes) : Type 0 where
  pub some_byte : 0 < length w
  pub bytes : All IsWordByte w

pub word-append : (w rest : Bytes) → All IsWordByte w → word (w ++ b' ' ∷ rest) ≡ w
unfolding word
word-append [] rest h = refl
word-append (c ∷ w) rest h = rw (h.0.0) (ap (◌∷◌ c) (word-append w rest h.1))

pub behind_word-append :
    (w rest : Bytes) → All IsWordByte w → behind_word (w ++ b' ' ∷ rest) ≡ b' ' ∷ rest
unfolding behind_word
behind_word-append [] rest h = refl
behind_word-append (c ∷ w) rest h = rw (h.0.0) (behind_word-append w rest h.1)

pub skip_spaces-append : (w rest : Bytes) → IsWord w → skip_spaces (w ++ rest) ≡ w ++ rest
unfolding skip_spaces
skip_spaces-append [] rest h = absurd (omega (arith, h.some_byte))
skip_spaces-append (c ∷ w) rest h = rw (h.bytes.0.0)

pub c_string-append :
    (w rest : Bytes) → All IsWordByte w → c_string (w ++ b' ' ∷ rest) ≡ w ++ b' ' ∷ c_string rest
unfolding c_string
c_string-append [] rest h = refl
c_string-append (c ∷ w) rest h = ground (arith, h.0.1, c_string-append w rest h.1)

-- The two words of a text that starts with them, a space behind each.
module _ (first second rest : Bytes) (is_first : IsWord first) (is_second : IsWord second) where
  abbrev two_words : Bytes
  two_words = first ++ b' ' ∷ (second ++ b' ' ∷ rest)

  pub skip_spaces-two_words : skip_spaces two_words ≡ two_words
  skip_spaces-two_words = skip_spaces-append first (b' ' ∷ (second ++ b' ' ∷ rest)) is_first

  pub word-two_words : word two_words ≡ first
  word-two_words = word-append first (second ++ b' ' ∷ rest) is_first.bytes

  pub second-two_words : word (skip_spaces (behind_word two_words)) ≡ second
  second-two_words =
      rw (behind_word-append first (second ++ b' ' ∷ rest) is_first.bytes, skip_one)
        (word-append second rest is_second.bytes)
    where
      skip_one : skip_spaces (b' ' ∷ (second ++ b' ' ∷ rest)) ≡ second ++ b' ' ∷ rest
      skip_one = unfold skip_spaces in (skip_spaces-append second (b' ' ∷ rest) is_second)
