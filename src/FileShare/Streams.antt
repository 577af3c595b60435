-- ===== src/FileShare/Streams.antt =====
-- A received datagram as a text, and what `>>` reads off a `std::istringstream`.
pub mod Laws
use network_programming_lab.Prelude.{
  ℕ, zero, suc, ◌+◌, ◌-◌, ◌*◌, ◌%◌, ◌^◌, Bool, true, false, ◌&&◌, ◌||◌, List, [], ◌∷◌, ◌++◌, Option,
  none, some, Bytes, length, take, ltb, leb, ◌==◌, if◌then◌else◌,
}
use network_programming_lab.Scanf.{skip_spaces, word, behind_word, c_string, read_digits}

-- `recvfrom` into a buffer of zeros, and `std::string(buffer)`: `none` if no NUL is left in it.
unfoldable pub buffer_text : ℕ → Bytes → Option Bytes
buffer_text size d =
    let text = c_string (take size d) in if ltb (length text) size then some text else none

-- `>>` into a string: the word, and the stream behind it.
unfoldable pub next_word : Bytes → Bytes
next_word text = word (skip_spaces text)

unfoldable pub behind_next : Bytes → Bytes
behind_next text = behind_word (skip_spaces text)

-- What stands behind the digits at the front of a text.
unfoldable pub behind_digits : Bytes → Bytes
behind_digits [] = []
behind_digits (c ∷ cs) =
    let onward = behind_digits cs in if leb b'0' c && leb c b'9' then onward else c ∷ cs

abbrev pub int_max : ℕ
int_max = 2 ^ 31 - 1

-- Behind a minus sign, and in front of a number that has none: the bits of the `int`, which is the
-- last one in its direction if the number is too large.
abbrev negative : ℕ → ℕ
negative n = if leb n (2 ^ 31) then (2 ^ 32 - n) % 2 ^ 32 else 2 ^ 31

abbrev positive : ℕ → ℕ
positive n = if leb n int_max then n else int_max

-- Behind a sign, if there is one.
unfoldable pub signed_int : Bytes → Option ℕ
signed_int [] = none
signed_int (c ∷ cs) = some (
    if c == b'-'
    then negative (read_digits 0 cs)
    else positive (read_digits 0 (if c == b'+' then cs else c ∷ cs)))

-- The stream has failed, and gives nothing more, if the number is beyond `most` or has no digit.
unfoldable pub behind_number : ℕ → Bytes → Bytes
behind_number most cs =
    if leb (read_digits 0 cs) most && ltb (length (behind_digits cs)) (length cs)
    then behind_digits cs
    else []

unfoldable pub behind_signed : Bytes → Bytes
behind_signed [] = []
behind_signed (c ∷ cs) =
    if c == b'-'
    then behind_number (2 ^ 31) cs
    else if c == b'+'
    then behind_number int_max cs
    else behind_number int_max (c ∷ cs)

-- `>>` into an `int`: its 32 bits, and the stream behind it. Nothing is stored at the end of the stream.
unfoldable pub next_int : Bytes → Option ℕ
next_int text = signed_int (skip_spaces text)

unfoldable pub behind_int : Bytes → Bytes
behind_int text = behind_signed (skip_spaces text)
