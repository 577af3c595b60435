-- ===== src/Url/RoundTrip.antt =====
-- Decoding undoes encoding, and the encoder stays inside its buffer.
use network_programming_lab.Prelude.{
  ℕ, suc, ◌+◌, ◌*◌, ◌/◌, ◌%◌, ◌^◌, ◌≤◌, ◌<◌, true, [], ◌∷◌, ◌++◌, ◌≡◌, dec_lt, refl, ap, ◌∙◌, none,
  some, Option, ltb→lt, ltb_false→le, arith, All, Bytes, inl, inr, length, take, length-append, ltb,
  if◌then◌else◌, Bool-cases, lt→ltb, take-eq_of_le,
}
use network_programming_lab.Url.{
  is_plain, encode_byte, encode_from, url_encode, url_decode, room, hex_digit,
}
use network_programming_lab.Url.Digits.{hex_digit_lem}

plain-decode :
    (c : ℕ) (rest : Bytes) → is_plain c ≡ true → url_decode (c ∷ rest) ≡ c ∷ url_decode rest
unfolding is_plain url_decode
plain-decode c [] h = ground arith
plain-decode c (a ∷ []) h = ground arith
plain-decode c (a ∷ b ∷ rest) h = ground arith

escaped-decode :
    (j k : ℕ) (rest : Bytes)
    → j < 16
    → k < 16
    → url_decode (b'%' ∷ hex_digit j ∷ hex_digit k ∷ rest) ≡ (16 * j + k) ∷ url_decode rest
unfolding url_decode
escaped-decode j k rest hj hk =
    rw
      (
        (hex_digit_lem j hj).0,
        (hex_digit_lem k hk).0,
        (hex_digit_lem j hj).1,
        (hex_digit_lem k hk).1,
      )
      (ap (λ x. x ∷ url_decode rest) (omega arith))

decode-encode_byte :
    (c : ℕ) (rest : Bytes) → c < 256 → url_decode (encode_byte c ++ rest) ≡ c ∷ url_decode rest
unfolding encode_byte
decode-encode_byte c rest small = elim (Bool-cases (is_plain c)) [
  | inl plain ↦ rw plain (plain-decode c rest plain)
  | inr other ↦ rw other (
      escaped-decode (c / 16 % 16) (c % 16) rest (omega arith) (omega arith)
      ∙ ap (λ x. x ∷ url_decode rest) (omega arith))
]

length-encode_byte : (c : ℕ) → (1 ≤ length (encode_byte c)) × (length (encode_byte c) ≤ 3)
unfolding encode_byte
length-encode_byte c = elim (Bool-cases (is_plain c)) [
  | inl plain ↦ rw plain (omega arith)
  | inr other ↦ rw other (omega arith)
]

-- The number of bytes that the encoder takes from the source.
abbrev pub taken : ℕ → ℕ → Bytes → ℕ
taken dst_size pos [] = 0
taken dst_size pos (c ∷ src) =
    let more = taken dst_size (pos + length (encode_byte c)) src in
    if ltb pos (room dst_size) then suc more else 0

decode-encode_from :
    (dst_size pos : ℕ) (src : Bytes)
    → All (λ c. c < 256) src
    → url_decode (encode_from dst_size pos src) ≡ take (taken dst_size pos src) src
unfolding encode_from
decode-encode_from dst_size pos [] bytes = unfold url_decode in refl
decode-encode_from dst_size pos (c ∷ src) bytes = elim (Bool-cases (ltb pos (room dst_size))) [
  | inl fits ↦ rw fits (
      decode-encode_byte c _ bytes.0
      ∙ ap (◌∷◌ c) (decode-encode_from dst_size (pos + length (encode_byte c)) src bytes.1))
  | inr over ↦ rw over (unfold url_decode in refl)
]

taken_all :
    (dst_size pos : ℕ) (src : Bytes)
    → pos + 3 * length src ≤ room dst_size + 2
    → taken dst_size pos src ≡ length src
taken_all dst_size pos [] h = refl
taken_all dst_size pos (c ∷ src) h = rw (lt→ltb pos (room dst_size) (omega arith)) (
    ap suc
      (taken_all dst_size (pos + length (encode_byte c)) src (omega (arith, length-encode_byte c))))

length-encode_from :
    (dst_size pos : ℕ) (src : Bytes)
    → pos ≤ room dst_size + 2
    → pos + length (encode_from dst_size pos src) ≤ room dst_size + 2
unfolding encode_from
length-encode_from dst_size pos [] h = omega arith
length-encode_from dst_size pos (c ∷ src) h =
    let step = pos + length (encode_byte c) in
    ground (
      arith,
      length-encode_byte c,
      length-append (encode_byte c) (encode_from dst_size step src),
      length-encode_from dst_size step src,
    )

-- The encoder gives up only where fewer than five bytes are left.
taken_stops :
    (dst_size pos : ℕ) (src : Bytes)
    → taken dst_size pos src < length src
    → room dst_size ≤ pos + length (encode_from dst_size pos src)
unfolding encode_from
taken_stops dst_size pos [] h = absurd (omega arith)
taken_stops dst_size pos (c ∷ src) h =
    let step = pos + length (encode_byte c) in
    ground (
      arith,
      length-append (encode_byte c) (encode_from dst_size step src),
      taken_stops dst_size step src,
    )

-- For a buffer of at least four bytes, whose size fits 64 bits, the text that `url_encode` writes
-- and the NUL behind it fit the buffer.
pub url_encode-eq :
    (dst_size : ℕ) (src : Bytes)
    → 4 ≤ dst_size
    → dst_size < 2 ^ 64
    → url_encode dst_size src ≡ some (encode_from dst_size 0 src)
unfolding url_encode
url_encode-eq dst_size src low high =
    let fits : ltb (length (encode_from dst_size 0 src)) dst_size ≡ true =
      lt→ltb _ _ (omega (arith, length-encode_from dst_size 0 src (omega arith))) in
    rw fits refl

-- What `url_encode` leaves: a text that fits and stands for a front of `src`, all of it unless the text
-- comes within four bytes of the end; or a write past the end of a buffer of fewer than four bytes,
-- which is too small for the whole text.
abbrev pub IsEncoded : ℕ → Bytes → Option Bytes → Type 0
IsEncoded dst_size src (some text) =
    (length text < dst_size)
    × ((k : ℕ) × (url_decode text ≡ take k src) × (k < length src → dst_size ≤ length text + 4))
IsEncoded dst_size src none = (dst_size < 4) × (dst_size ≤ 3 * length src)

length-encode_from_thrice :
    (dst_size pos : ℕ) (src : Bytes) → length (encode_from dst_size pos src) ≤ 3 * length src
unfolding encode_from
length-encode_from_thrice dst_size pos [] = omega arith
length-encode_from_thrice dst_size pos (c ∷ src) =
    let step = pos + length (encode_byte c) in
    ground (
      arith,
      length-encode_byte c,
      length-append (encode_byte c) (encode_from dst_size step src),
      length-encode_from_thrice dst_size step src,
    )

-- Only a buffer of fewer than four bytes is left.
too_small :
    (dst_size : ℕ) (src : Bytes)
    → dst_size < 2 ^ 64
    → dst_size ≤ length (encode_from dst_size 0 src)
    → dst_size < 4
too_small dst_size src high long = elim (dec_lt dst_size 4) [
  | yes small ↦ small
  | no big ↦ absurd (omega (arith, length-encode_from dst_size 0 src (omega arith)))
]

-- For any text of bytes and any size of the buffer that fits 64 bits: `url_encode` writes past the
-- end only of a buffer that has fewer than four bytes and at most three for each byte of the text;
-- else what it leaves fits the buffer with its NUL, and `url_decode` makes a front of the text of
-- it, never a cut escape, which is less than the whole only if what was written comes within four
-- bytes of the end.
pub url_encode-IsEncoded :
    (dst_size : ℕ) (src : Bytes)
    → dst_size < 2 ^ 64
    → All (λ c. c < 256) src
    → IsEncoded dst_size src (url_encode dst_size src)
unfolding url_encode
url_encode-IsEncoded dst_size src high bytes =
    let text = encode_from dst_size 0 src in
    elim (Bool-cases (ltb (length text) dst_size)) [
      | inl fits ↦ rw fits (
        ltb→lt _ _ fits,
        (
          taken dst_size 0 src,
          decode-encode_from dst_size 0 src bytes,
          λ h. omega (arith, taken_stops dst_size 0 src h),
        ),
      )
      | inr over ↦
          let long = ltb_false→le _ _ over in
          rw over (
            too_small dst_size src high long,
            omega (arith, length-encode_from_thrice dst_size 0 src),
          )
    ]

-- For a text of bytes, of which three times the length and two more fit `dst_size`, a number of 64
-- bits: `url_encode` stays inside its buffer, and `url_decode` gives back what it was given.
pub url_decode-url_encode :
    (dst_size : ℕ) (src : Bytes)
    → dst_size < 2 ^ 64
    → All (λ c. c < 256) src
    → 3 * length src + 2 ≤ dst_size
    → (text : Bytes) × (url_encode dst_size src ≡ some text) × (url_decode text ≡ src)
url_decode-url_encode dst_size [] high bytes h = (
  [],
  unfold url_encode encode_from in (rw (lt→ltb 0 dst_size (omega arith)) refl),
  unfold url_decode in refl,
)
url_decode-url_encode dst_size (c ∷ src) high bytes h = (
  encode_from dst_size 0 (c ∷ src),
  url_encode-eq dst_size (c ∷ src) (omega arith) high,
  decode-encode_from dst_size 0 (c ∷ src) bytes
      ∙ take-eq_of_le _ (c ∷ src) (omega (arith, taken_all dst_size 0 (c ∷ src) (omega arith))),
)
