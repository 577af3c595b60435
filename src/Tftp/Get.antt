-- ===== src/Tftp/Get.antt =====
-- trivial-file-transfer-protocol.c, `tftp_get` (lines 65 to 194). The state holds the variables that
-- live across the loop, with the bytes given to `fwrite` and the calls of `sendto` so far.
pub mod Delivery
pub mod Download
pub mod Silence
pub mod Invariant
use network_programming_lab.Prelude.{
  ℕ, suc, ◌+◌, ◌-◌, Bool, true, false, List, [], ◌∷◌, ◌++◌, Option, none, some, Bytes, length, take,
  drop, overlay, store, ltb, ◌==◌, if◌then◌else◌,
}
use network_programming_lab.Tftp.Link.{
  Addr, Event, packet, timed_out, failed, Target, server, peer, Sent, datagram, Outcome, continues,
  succeeds, fails, faults, ◌>>=◌,
}
use network_programming_lab.Tftp.Wire.{
  block_size, max_retries, op_rrq, op_data, op_error, get_u16, next_u16, prev_u16, ack_packet,
  build_request, has_nul,
}

pub record Get : Type 0 where
  pub retries : ℕ  -- int
  pub expected_block : ℕ  -- uint16_t
  pub buffer : Bytes  -- char[516]
  pub from_addr : Option Addr
  pub written : Bytes
  pub out : List Sent

abbrev pub send_ack : ℕ → Get → Get
send_ack block s = record s { out = s.out ++ datagram (peer s.from_addr) (ack_packet block) ∷ [] }

-- `WSAETIMEDOUT`: repeat the last acknowledgement, at most `max_retries` times in a row.
get_timed_out : Get → Outcome Get
get_timed_out s =
    let counted = record s { retries = s.retries + 1 } in
    if ltb s.retries max_retries
    then continues (send_ack (prev_u16 s.expected_block) counted)
    else fails counted

-- `OP_DATA` in a datagram of `n` bytes. A negative `data_len` is a huge count for `fwrite`, which
-- then reads far past the buffer.
get_data : ℕ → Get → Outcome Get
get_data n s =
    let block_num = get_u16 s.buffer 2 in
    let data_len = n - 4 in
    let stored = record s { written = s.written ++ take data_len (drop 4 s.buffer) } in
    let advanced = record (send_ack block_num stored) {
      expected_block = next_u16 s.expected_block;
    } in
    if block_num == s.expected_block
    then (if ltb n 4
        then faults
        else if ltb data_len block_size
        then succeeds advanced
        else continues advanced)
    else if ltb block_num s.expected_block
    then continues (send_ack block_num s)
    else continues s

-- A datagram of `n` bytes lies at the front of the buffer, with old bytes behind it. The message of an
-- `OP_ERROR` is printed from the buffer.
get_packet : ℕ → Get → Outcome Get
get_packet n s =
    let recv_opcode = get_u16 s.buffer 0 in
    if recv_opcode == op_error
    then (if has_nul (drop 4 s.buffer) then fails s else faults)
    else if recv_opcode == op_data
    then get_data n s
    else continues s

-- One round of the loop.
unfoldable pub get_step : Event → Get → Outcome Get
unfolding get_timed_out get_data get_packet
get_step (packet from d) s =
    get_packet (length d)
      (record s { retries = 0; from_addr = some from; buffer = overlay d s.buffer })
get_step timed_out s = get_timed_out s
get_step failed s = fails s

-- The loop, up to the events that have come.
unfoldable pub get_run : Get → List Event → Outcome Get
get_run s [] = continues s
get_run s (e ∷ es) = get_step e s >>= λ t. get_run t es

-- Before the request, and with the first `request_len` bytes of the buffer sent to the server.
abbrev pub nothing_done : Bytes → Get
nothing_done buffer = record {
  retries = 0;
  expected_block = 1;
  buffer = buffer;
  from_addr = none;
  written = [];
  out = [];
}

abbrev pub requested : Bytes → ℕ → Get
requested buffer request_len = record (nothing_done buffer) {
  out = datagram server (take request_len buffer) ∷ [];
}

get_request : Option (Bytes × ℕ) → Outcome Get
get_request none = faults
get_request (some (buffer, request_len)) = continues (requested buffer request_len)

-- The part before the loop. The flags say whether `socket` and `fopen` have succeeded, and `buffer`
-- is what the 516 bytes of the uninitialised buffer hold.
unfoldable pub get_start : Bool → Bool → Bytes → Bytes → Outcome Get
unfolding get_request
get_start socket_opened file_opened remote_file buffer =
    if socket_opened
    then (if file_opened
        then get_request (build_request op_rrq remote_file buffer)
        else fails (nothing_done buffer))
    else fails (nothing_done buffer)

unfoldable pub tftp_get : Bool → Bool → Bytes → Bytes → List Event → Outcome Get
tftp_get socket_opened file_opened remote_file buffer events =
    get_start socket_opened file_opened remote_file buffer >>= λ s. get_run s events
