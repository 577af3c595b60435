-- ===== src/Prelude/Buffers.antt =====
-- Bytes, buffers of a fixed size, and the texts of the program as code points.
use Prim.Native.Char.{code}
use Prim.Native.Nat.{ℕ, ◌+◌, ◌≤◌, ◌<◌}
use Prim.Native.String.{String}
use mathlib.Core.List.{List, [], ◌∷◌, ◌++◌}
use mathlib.Core.Option.{Option, none, some}
use mathlib.Core.Path.{◌≡◌}
use native.Mathlib.Omega.{arith}
use network_programming_lab.Prelude.Lists.{
  length, take, drop, length-append, length-drop, take-append, drop-append,
}
use network_programming_lab.Prelude.Tests.{leb, if◌then◌else◌}

abbrev pub Bytes : Type 0
Bytes = List ℕ

-- The code points of an ASCII text.
abbrev pub codes : String → Bytes
codes String.[] = []
codes (String.◌∷◌ c s) = code c ∷ codes s

-- A predicate on every element.
abbrev pub All {ℓ κ} : {A : Type ℓ} → (A → Type κ) → List A → Type κ
All P [] = Unit
All P (x ∷ xs) = P x × All P xs

-- A buffer after its first bytes have been written over by `d`.
abbrev pub overlay : Bytes → Bytes → Bytes
overlay d buffer = d ++ drop (length d) buffer

pub length-overlay :
    (d buffer : Bytes) → length d ≤ length buffer → length (overlay d buffer) ≡ length buffer
length-overlay d buffer h =
    omega (arith, length-append d (drop (length d) buffer), length-drop (length d) buffer)

-- `strcpy`, `memcpy` or a store at an offset; `none` is a write past the end of the buffer.
unfoldable pub store : ℕ → Bytes → Bytes → Option Bytes
store at d buffer =
    if leb (at + length d) (length buffer)
    then some (take at buffer ++ overlay d (drop at buffer))
    else none

-- A buffer that is filled from the front: a store right behind what has been written, or past the
-- end.
module _ {at : ℕ} (front d rest : Bytes) (here : at ≡ length front) where
  pub store_behind :
      length d ≤ length rest → store at d (front ++ rest) ≡ some (front ++ overlay d rest)
  unfolding store
  store_behind h =
      rw (here, take-append front rest, drop-append front rest)
        (ground (arith, length-append front rest))

  pub store_past_end : length rest < length d → store at d (front ++ rest) ≡ none
  unfolding store
  store_past_end h = ground (arith, length-append front rest)
