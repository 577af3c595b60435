-- ===== src/Tftp/Wire/Format.antt =====
-- The packets as bytes: the fields of a packet, and the request that stands in the buffer.
use network_programming_lab.Prelude.{
  ℕ, ◌+◌, ◌-◌, ◌*◌, ◌/◌, ◌%◌, ◌≤◌, ◌<◌, [], ◌∷◌, ◌++◌, ◌≡◌, refl, none, some, arith, Bytes, codes,
  length, drop, store_behind, store_past_end, dec_lt, none, length-append, length-drop,
  append_assoc,
}
use network_programming_lab.Tftp.Wire.{
  put_u16, get_u16, build_request, send_error, op_error, buffer_size,
}

pub get_u16-put_u16 : (v : ℕ) (rest : Bytes) → v < 65536 → get_u16 (put_u16 v ++ rest) 0 ≡ v
get_u16-put_u16 v rest h = omega arith

-- The two bytes of a 16-bit field stand for it.
pub u16_bytes : (v : ℕ) → v < 65536 → v / 256 % 256 * 256 + v % 256 ≡ v
u16_bytes v h = omega arith

abbrev pub error_format : ℕ → Bytes → Bytes
error_format error_code error_msg =
    put_u16 op_error ++ (put_u16 error_code ++ (error_msg ++ 0 ∷ []))

pub send_error-eq :
    (error_code : ℕ) (error_msg : Bytes) {d : Bytes}
    → send_error error_code error_msg ≡ some d
    → d ≡ error_format error_code error_msg
unfolding send_error
send_error-eq error_code error_msg e = ground arith

-- RFC 1350's request: opcode, name, NUL, mode, NUL.
abbrev pub request_format : ℕ → Bytes → Bytes
request_format opcode name = put_u16 opcode ++ (name ++ 0 ∷ (codes "octet" ++ 0 ∷ []))

-- With a buffer of 516 bytes and a name of at most 507, the request is built, stays inside the
-- buffer, and its first `request_len` bytes are the opcode, the name, a NUL, "octet" and a NUL.
pub build_request-eq :
    (opcode : ℕ) (name buffer : Bytes)
    → length buffer ≡ buffer_size
    → length name ≤ 507
    → (rest : Bytes) × (build_request opcode name buffer
        ≡ some (request_format opcode name ++ rest, length (request_format opcode name)))
      × (length (request_format opcode name ++ rest) ≡ buffer_size)
unfolding build_request
build_request-eq opcode name buffer full short = (
  rest,
  rw
      (
        store_behind [] (put_u16 opcode) buffer refl (omega arith),
        store_behind (put_u16 opcode) named behind_opcode refl room,
        store_behind (put_u16 opcode ++ named) mode behind_name at_mode
            (omega (arith, length-name, behind)),
      )
      (rw request_len (simp append_assoc)),
  omega (
    arith,
    length-append (name ++ 0 ∷ mode) rest,
    length-append name (0 ∷ mode),
    length-drop 6 behind_name,
    behind,
  ),
)
  where
    mode : Bytes
    mode = codes "octet" ++ 0 ∷ []

    named : Bytes
    named = name ++ 0 ∷ []

    behind_opcode : Bytes
    behind_opcode = drop 2 buffer

    behind_name : Bytes
    behind_name = drop (length named) behind_opcode

    rest : Bytes
    rest = drop 6 behind_name

    length-name : length named ≡ length name + 1
    length-name = length-append name (0 ∷ [])

    room : length named ≤ length behind_opcode
    room = omega (arith, length-name, length-drop 2 buffer)

    behind : length behind_name ≡ 513 - length name
    behind =
        omega (arith, length-name, length-drop 2 buffer, length-drop (length named) behind_opcode)

    at_mode : 2 + (length name + 1) ≡ length (put_u16 opcode ++ named)
    at_mode = omega (arith, length-name)

    request_len : 2 + (length name + 1) + 6 ≡ length (request_format opcode name)
    request_len = omega (arith, length-append name (0 ∷ mode))

-- With a name of more than 507 bytes the request is written past the end of the buffer of 516
-- bytes.
build_request-eq-none :
    (opcode : ℕ) (name buffer : Bytes)
    → length buffer ≡ buffer_size
    → 507 < length name
    → build_request opcode name buffer ≡ none
unfolding build_request
build_request-eq-none opcode name buffer full long = elim (dec_lt (length name) 514) [
  | yes inside ↦ rw (
    store_behind [] (put_u16 opcode) buffer refl (omega arith),
    store_behind (put_u16 opcode) named behind_opcode refl
        (omega (arith, length-append name (0 ∷ []), length-drop 2 buffer)),
    store_past_end {at = 2 + (length name + 1)} (put_u16 opcode ++ named) (codes "octet" ++ 0 ∷ [])
        (drop (length named) behind_opcode) (omega (arith, length-append name (0 ∷ [])))
        (omega (
          arith,
          length-append name (0 ∷ []),
          length-drop 2 buffer,
          length-drop (length named) behind_opcode,
        )),
  )
  | no outside ↦ rw (
    store_behind [] (put_u16 opcode) buffer refl (omega arith),
    store_past_end (put_u16 opcode) named behind_opcode refl
        (omega (arith, length-append name (0 ∷ []), length-drop 2 buffer)),
  )
]
  where
    named : Bytes
    named = name ++ 0 ∷ []

    behind_opcode : Bytes
    behind_opcode = drop 2 buffer
