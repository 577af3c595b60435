-- ===== src/Tftp/Wire.antt =====
-- trivial-file-transfer-protocol.c, lines 11 to 63: constants, packet layout, `send_error`, and
-- the request that `tftp_get` and `tftp_put` build in their buffer. A 16-bit field is written by
-- `htons` and read by `ntohs`, so it lies in network order whatever the host's.
pub mod Format
pub mod Messages
use network_programming_lab.Prelude.{
  Bool, false, ◌||◌, ◌==◌, ℕ, suc, ◌+◌, ◌*◌, ◌/◌, ◌%◌, List, [], ◌∷◌, ◌++◌, Option, none, some,
  Bytes, codes, length, get_or, take, store, leb, if◌then◌else◌, ◌>>=◌,
}

abbrev pub block_size : ℕ
block_size = 512

abbrev pub buffer_size : ℕ
buffer_size = 516

abbrev pub max_retries : ℕ
max_retries = 5

abbrev pub op_rrq : ℕ
op_rrq = 1

abbrev pub op_wrq : ℕ
op_wrq = 2

abbrev pub op_data : ℕ
op_data = 3

abbrev pub op_ack : ℕ
op_ack = 4

abbrev pub op_error : ℕ
op_error = 5

-- `*p = htons(v)`
abbrev pub put_u16 : ℕ → Bytes
put_u16 v = (v / 256 % 256) ∷ (v % 256) ∷ []

-- `ntohs(*(uint16_t*)(buffer + i))`
abbrev pub get_u16 : Bytes → ℕ → ℕ
get_u16 buffer i = get_or buffer i 0 * 256 + get_or buffer (suc i) 0

-- A `uint16_t` one up and one down.
abbrev pub next_u16 : ℕ → ℕ
next_u16 v = (v + 1) % 65536

abbrev pub prev_u16 : ℕ → ℕ
prev_u16 v = (v + 65535) % 65536

-- The four bytes of `ack_buffer`.
abbrev pub ack_packet : ℕ → Bytes
ack_packet block = put_u16 op_ack ++ put_u16 block

-- The first `4 + bytes_read` bytes of `data_buffer`.
abbrev pub data_packet : ℕ → Bytes → Bytes
data_packet block chunk = put_u16 op_data ++ (put_u16 block ++ chunk)

-- `printf` of a text: it reads up to a NUL, and past the end of the buffer if there is none.
unfoldable pub has_nul : Bytes → Bool
has_nul [] = false
has_nul (c ∷ cs) = (c == 0) || has_nul cs

-- `send_error`: what it hands to `sendto`. The message is copied into the 516 bytes of `buffer`
-- with no test, so one that is too long is a write out of bounds.
unfoldable pub send_error : ℕ → Bytes → Option Bytes
send_error error_code error_msg =
    if leb (4 + (length error_msg + 1)) buffer_size
    then some (put_u16 op_error ++ (put_u16 error_code ++ (error_msg ++ 0 ∷ [])))
    else none

-- A request in `buffer`: the opcode, the file's name and "octet", each with its NUL. The result is
-- the buffer and `request_len`.
unfoldable pub build_request : ℕ → Bytes → Bytes → Option (Bytes × ℕ)
build_request opcode remote_file buffer = do
  with_opcode ← store 0 (put_u16 opcode) buffer
  with_name ← store 2 (remote_file ++ 0 ∷ []) with_opcode
  with_mode ← store (2 + (length remote_file + 1)) (codes "octet" ++ 0 ∷ []) with_name
  some (with_mode, 2 + (length remote_file + 1) + 6)
