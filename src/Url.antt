-- ===== src/Url.antt =====
-- The two halves of percent-encoding: `url_encode` of multithreading-http-server.c (lines 30 to 47)
-- and `url_decode` of np20.c (lines 114 to 141). A `char` is its byte; the comparisons of a signed
-- `char` are only made against ASCII, where a byte from 128 on is no letter either way.

pub mod Digits
pub mod RoundTrip
use network_programming_lab.Prelude.{
  ℕ, zero, suc, ◌+◌, ◌-◌, ◌*◌, ◌/◌, ◌%◌, ◌^◌, Bool, true, false, ◌&&◌, ◌||◌, List, [], ◌∷◌, ◌++◌,
  Option, none, some, Bytes, codes, length, get_or, ltb, leb, ◌==◌, if◌then◌else◌,
}

abbrev pub between : ℕ → ℕ → ℕ → Bool
between lo hi c = leb lo c && leb c hi

-- The bytes that `url_encode` copies.
unfoldable pub is_plain : ℕ → Bool
is_plain c =
    between b'A' b'Z' c
    || between b'a' b'z' c
    || between b'0' b'9' c
    || c == b'-'
    || c == b'_'
    || c == b'.'
    || c == b'~'
    || c == b'/'

-- `hex[k]`
unfoldable pub hex_digit : ℕ → ℕ
hex_digit k = get_or (codes "0123456789ABCDEF") k 0

-- What one byte becomes.
unfoldable pub encode_byte : ℕ → Bytes
unfolding is_plain hex_digit
encode_byte c =
    if is_plain c then c ∷ [] else b'%' ∷ hex_digit (c / 16 % 16) ∷ hex_digit (c % 16) ∷ []

-- `dst_size - 4` in a `size_t` of 64 bits.
abbrev pub room : ℕ → ℕ
room dst_size = (dst_size + 2 ^ 64 - 4) % 2 ^ 64

-- The loop of `url_encode`, on the text without its NUL, from `dst[pos]` on: what it writes, without
-- the NUL at the end. It stops where fewer than five bytes are left.
unfoldable pub encode_from : ℕ → ℕ → Bytes → Bytes
encode_from dst_size pos [] = []
encode_from dst_size pos (c ∷ src) =
    let rest = encode_from dst_size (pos + length (encode_byte c)) src in
    if ltb pos (room dst_size) then encode_byte c ++ rest else []

-- The text that is left in the `dst_size` bytes of `dst`; `none` is a write past their end. With fewer
-- than four bytes `dst_size - 4` is huge, and the test of the loop stops nothing.
unfoldable pub url_encode : ℕ → Bytes → Option Bytes
url_encode dst_size src =
    let text = encode_from dst_size 0 src in if ltb (length text) dst_size then some text else none

unfoldable pub is_xdigit : ℕ → Bool
is_xdigit c = between b'0' b'9' c || between b'a' b'f' c || between b'A' b'F' c

-- `if (a >= 'a') a -= 'a'-'A'; if (a >= 'A') a -= ('A' - 10); else a -= '0';`
unfoldable pub hex_value : ℕ → ℕ
hex_value c = let a = if leb b'a' c then c - 32 else c in if leb b'A' a then a - 55 else a - 48

-- `url_decode`, on the text without its NUL: a `%` before two hexadecimal digits is their byte, `+`
-- is a space. A text that ends behind the `%` or the first digit has no second one, since the NUL
-- is none.
unfoldable pub url_decode : Bytes → Bytes
url_decode [] = []
url_decode (c ∷ []) = (if c == b'+' then b' ' else c) ∷ []
url_decode (c ∷ a ∷ []) = (if c == b'+' then b' ' else c) ∷ url_decode (a ∷ [])
url_decode (c ∷ a ∷ b ∷ src) =
    let escaped = url_decode src in
    let plain = url_decode (a ∷ b ∷ src) in
    if (c == b'%') && is_xdigit a && is_xdigit b
    then (16 * hex_value a + hex_value b) % 256 ∷ escaped
    else (if c == b'+' then b' ' else c) ∷ plain
