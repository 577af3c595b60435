-- ===== src/Tftp/Wire/Messages.antt =====
-- The text of an error packet, which is printed from the buffer.
use network_programming_lab.Prelude.{
  ℕ, zero, suc, ◌≤◌, true, ◌==◌, ==_iff, Bool-cases, inl, inr, [], ◌∷◌, ◌++◌, ◌≡◌, refl, sym, ◌∙◌,
  arith, Bytes, length, drop, overlay,
}
use network_programming_lab.Tftp.Wire.{get_u16, op_error, buffer_size, has_nul}

has_nul-append : (xs ys : Bytes) → has_nul xs ≡ true → has_nul (xs ++ ys) ≡ true
unfolding has_nul
has_nul-append [] ys h = absurd (ground arith)
has_nul-append (c ∷ xs) ys h = elim (Bool-cases (c == 0)) [
  | inl nul ↦ rw nul refl
  | inr other ↦ rw other (has_nul-append xs ys (rw other at h))
]

-- A NUL in a datagram is one in the buffer.
pub has_nul-drop :
    (n : ℕ) (d rest : Bytes) → has_nul (drop n d) ≡ true → has_nul (drop n (d ++ rest)) ≡ true
has_nul-drop zero d rest h = has_nul-append d rest h
has_nul-drop (suc n) [] rest h = absurd (unfold has_nul in ground (arith, h))
has_nul-drop (suc n) (c ∷ d) rest h = has_nul-drop n d rest h

pub has_nul-last : (xs rest : Bytes) → has_nul (xs ++ 0 ∷ rest) ≡ true
unfolding has_nul
has_nul-last [] rest = refl
has_nul-last (c ∷ xs) rest = elim (Bool-cases (c == 0)) [
  | inl nul ↦ rw nul refl
  | inr other ↦ rw other (has_nul-last xs rest)
]

-- The opcode of a datagram is the one in the buffer.
pub get_u16-append : (d rest : Bytes) → 2 ≤ length d → get_u16 (d ++ rest) 0 ≡ get_u16 d 0
get_u16-append [] rest h = absurd (omega arith)
get_u16-append (a ∷ []) rest h = absurd (omega arith)
get_u16-append (a ∷ b ∷ d) rest h = refl

-- A datagram with its opcode, that fits the buffer, and with a NUL behind the header if it is an error.
pub record IsWellFormed (d : Bytes) : Type 0 where
  pub has_opcode : 2 ≤ length d
  pub fits : length d ≤ buffer_size
  pub ended : get_u16 d 0 ≡ op_error → has_nul (drop 4 d) ≡ true

pub IsWellFormed-has_nul :
    (d buffer : Bytes)
    → IsWellFormed d
    → (get_u16 (overlay d buffer) 0 == op_error) ≡ true
    → has_nul (drop 4 (overlay d buffer)) ≡ true
IsWellFormed-has_nul d buffer w error = has_nul-drop 4 d (drop (length d) buffer) (
    w.ended (
      sym (get_u16-append d (drop (length d) buffer) w.has_opcode)
      ∙ (==_iff (get_u16 (overlay d buffer) 0) op_error).0 error))
