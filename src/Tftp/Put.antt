-- ===== src/Tftp/Put.antt =====
-- trivial-file-transfer-protocol.c, `tftp_put` (lines 196 to 331). The state holds the variables that
-- live across the loop, what is left to read of the local file, and the calls of `sendto` so far.
-- After the last block the code waits once more, inside the same round: `closing` is that wait, and
-- `confirmed` says that it has seen the last acknowledgement ("Transfer complete!").
pub mod Blocks
pub mod Delivery
pub mod Steps
pub mod Invariant
pub mod Silence
pub mod Upload
use network_programming_lab.Prelude.{
  ℕ, suc, ◌+◌, ◌-◌, Bool, true, false, ◌&&◌, List, [], ◌∷◌, ◌++◌, Option, none, some, Bytes, length,
  take, drop, overlay, ltb, ◌==◌, if◌then◌else◌,
}
use network_programming_lab.Tftp.Link.{
  Addr, Event, packet, timed_out, failed, Target, server, peer, Sent, datagram, bad_length, Outcome,
  continues, succeeds, fails, faults, ◌>>=◌,
}
use network_programming_lab.Tftp.Wire.{
  block_size, max_retries, op_wrq, op_ack, op_error, get_u16, next_u16, data_packet, build_request,
  has_nul,
}

pub record Put : Type 0 where
  pub retries : ℕ  -- int
  pub block_num : ℕ  -- uint16_t
  pub buffer : Bytes  -- char[516]
  pub request_len : ℕ
  pub from_addr : Option Addr
  pub unread : Bytes
  pub closing : Bool
  pub confirmed : Bool
  pub out : List Sent

-- `WSAETIMEDOUT`. Here `n` is `SOCKET_ERROR`, -1, so that `4 + (n - 4)` is a negative length.
put_timed_out : Put → Outcome Put
put_timed_out s =
    let counted = record s { retries = s.retries + 1 } in
    let request = datagram server (take s.request_len s.buffer) in
    let again = if s.block_num == 0 then request else bad_length (peer s.from_addr) in
    if ltb s.retries max_retries
    then continues (record counted { out = s.out ++ again ∷ [] })
    else fails counted

-- A block that `fread` has given, if it has given any byte, is sent and kept in the buffer.
abbrev pub send_block : Bytes → Put → Put
send_block chunk s =
    let data_buffer = data_packet s.block_num chunk in
    let sent = s.out ++ datagram (peer s.from_addr) data_buffer ∷ [] in
    let bytes_read = length chunk in
    record s {
      buffer = if ltb 0 bytes_read then overlay data_buffer s.buffer else s.buffer;
      out = if ltb 0 bytes_read then sent else s.out;
    }

-- The acknowledgement that was awaited: read and send the next block.
put_next_block : Put → Put
put_next_block s =
    let chunk = take block_size s.unread in
    let read = record s { block_num = next_u16 s.block_num; unread = drop block_size s.unread } in
    record (send_block chunk read) { closing = ltb (length chunk) block_size }

-- The message of an `OP_ERROR` is printed from the buffer.
put_packet : Put → Outcome Put
put_packet s =
    let recv_opcode = get_u16 s.buffer 0 in
    if recv_opcode == op_error
    then (if has_nul (drop 4 s.buffer) then fails s else faults)
    else if (recv_opcode == op_ack) && (get_u16 s.buffer 2 == s.block_num)
    then continues (put_next_block s)
    else continues s

abbrev pub receives : Addr → Bytes → Put → Put
receives from d s = record s { from_addr = some from; buffer = overlay d s.buffer }

-- The wait behind the last block: however it ends, the function breaks out and returns 0.
put_closing : Event → Put → Outcome Put
put_closing (packet from d) s =
    let heard = receives from d s in
    succeeds (record heard {
      confirmed =
          ltb 0 (length d)
          && (get_u16 heard.buffer 0 == op_ack)
          && (get_u16 heard.buffer 2 == s.block_num);
    })
put_closing _ s = succeeds s

put_waiting : Event → Put → Outcome Put
put_waiting (packet from d) s = put_packet (record (receives from d s) { retries = 0 })
put_waiting timed_out s = put_timed_out s
put_waiting failed s = fails s

-- One `recvfrom` and what follows it.
unfoldable pub put_step : Event → Put → Outcome Put
unfolding put_timed_out put_next_block put_packet put_closing put_waiting
put_step e s = if s.closing then put_closing e s else put_waiting e s

unfoldable pub put_run : Put → List Event → Outcome Put
put_run s [] = continues s
put_run s (e ∷ es) = put_step e s >>= λ t. put_run t es

-- Before the request, and with the first `request_len` bytes of the buffer sent to the server.
abbrev pub nothing_done : Bytes → Bytes → Put
nothing_done content buffer = record {
  retries = 0;
  block_num = 0;
  buffer = buffer;
  request_len = 0;
  from_addr = none;
  unread = content;
  closing = false;
  confirmed = false;
  out = [];
}

abbrev pub requested : Bytes → Bytes → ℕ → Put
requested content buffer request_len = record (nothing_done content buffer) {
  request_len = request_len;
  out = datagram server (take request_len buffer) ∷ [];
}

put_request : Bytes → Option (Bytes × ℕ) → Outcome Put
put_request content none = faults
put_request content (some (buffer, request_len)) = continues (requested content buffer request_len)

-- The part before the loop. The local file is opened first: `none` means that `fopen` failed.
unfoldable pub put_start : Option Bytes → Bool → Bytes → Bytes → Outcome Put
unfolding put_request
put_start none socket_opened remote_file buffer = fails (nothing_done [] buffer)
put_start (some content) socket_opened remote_file buffer =
    if socket_opened
    then put_request content (build_request op_wrq remote_file buffer)
    else fails (nothing_done content buffer)

unfoldable pub tftp_put : Option Bytes → Bool → Bytes → Bytes → List Event → Outcome Put
tftp_put local_file socket_opened remote_file buffer events =
    put_start local_file socket_opened remote_file buffer >>= λ s. put_run s events
