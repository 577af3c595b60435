-- ===== src/Tftp/Put/Steps.antt =====
-- What one event does to an upload: an acknowledgement, another datagram, a timeout.
use network_programming_lab.Prelude.{
  ℕ, ◌+◌, ◌≤◌, ◌<◌, true, false, ◌&&◌, List, [], ◌∷◌, ◌++◌, ◌≡◌, ◌≢◌, refl, ◌∙◌, Option, arith,
  Bytes, length, take, drop, overlay, length-overlay, ltb, ◌==◌, ==_refl, if◌then◌else◌, append-nil,
}
use network_programming_lab.Tftp.Link.{
  Addr, Event, packet, timed_out, failed, Sent, datagram, bad_length, peer, server, continues,
  succeeds,
}
use network_programming_lab.Tftp.Wire.{
  block_size, buffer_size, max_retries, op_ack, op_error, get_u16, next_u16, data_packet,
  ack_packet,
}
use network_programming_lab.Tftp.Wire.Format.{u16_bytes}
use network_programming_lab.Tftp.Put.{Put, receives, send_block, put_step}
use network_programming_lab.Tftp.Put.Blocks.{data_sent, data_sent-append}

-- A datagram, read behind the old bytes of the buffer, that is neither an error nor the
-- acknowledgement that is awaited.
pub record IsNoise (block : ℕ) (d buffer : Bytes) : Type 0 where
  pub fits : length d ≤ buffer_size
  pub not_error : get_u16 (overlay d buffer) 0 ≢ op_error
  pub not_awaited : (get_u16 (overlay d buffer) 0 ≡ op_ack) → get_u16 (overlay d buffer) 2 ≢ block

-- The events acknowledge the block numbered `block`, and then all blocks of `content`; between
-- the acknowledgements come at most `max_retries` timeouts in a row, and any number of other
-- packets. The last event ends the wait behind the last block, and may be any.
pub data Acknowledges : ℕ → ℕ → Bytes → List Event → Type 0 where
  last :
      {block retries : ℕ} {content : Bytes} (from : Addr) (final : Event)
      → length content < block_size
      → Acknowledges block retries content (packet from (ack_packet block) ∷ final ∷ [])
  block :
      {block retries : ℕ} {rest content : Bytes} {es : List Event} (from : Addr) (chunk : Bytes)
      → length chunk ≡ block_size
      → content ≡ chunk ++ rest
      → Acknowledges (next_u16 block) 0 rest es
      → Acknowledges block retries content (packet from (ack_packet block) ∷ es)
  timeout :
      {block retries : ℕ} {content : Bytes} {es : List Event}
      → retries < max_retries
      → Acknowledges block (retries + 1) content es
      → Acknowledges block retries content (timed_out ∷ es)
  noise :
      {block retries : ℕ} {content d : Bytes} {es : List Event} (from : Addr)
      → ((buffer : Bytes) → length buffer ≡ buffer_size → IsNoise block d buffer)
      → Acknowledges block 0 content es
      → Acknowledges block retries content (packet from d ∷ es)

abbrev pub acked : Addr → ℕ → Bytes → Put → Put
acked from b rest s = record (receives from (ack_packet b) s) {
  retries = 0;
  block_num = next_u16 b;
  unread = rest;
}

-- The state behind the acknowledgement of block `b`, with the next block read and sent.
abbrev pub advanced : Addr → ℕ → Bytes → Bytes → Put → Put
advanced from b chunk rest s = record (send_block chunk (acked from b rest s)) {
  closing = ltb (length chunk) block_size;
}

module _ (s : Put) (from : Addr) {b : ℕ} (open_ : s.closing ≡ false) (at : s.block_num ≡ b)
    (small : b < 65536) (chunk rest : Bytes) where
  pub put_step_ack :
      take block_size s.unread ≡ chunk
      → drop block_size s.unread ≡ rest
      → put_step (packet from (ack_packet b)) s ≡ continues (advanced from b chunk rest s)
  unfolding put_step
  put_step_ack front back = rw (open_, u16_bytes b small, at, ==_refl b, front, back)

pub length-send_block :
    (chunk : Bytes) (s : Put)
    → length s.buffer ≡ buffer_size
    → length chunk ≤ block_size
    → length (send_block chunk s).buffer ≡ buffer_size
length-send_block chunk s kept fits =
    ground (arith, length-overlay (data_packet s.block_num chunk) s.buffer)

-- What a round that waits on leaves as it is; `retries` is what it sets the count of timeouts to.
pub record Waits (retries : ℕ) (s t : Put) : Type 0 where
  pub still_open : t.closing ≡ s.closing
  pub same_block : t.block_num ≡ s.block_num
  pub same_unread : t.unread ≡ s.unread
  pub same_data : data_sent t.out ≡ data_sent s.out
  pub count : t.retries ≡ retries
  pub size : length t.buffer ≡ length s.buffer

abbrev pub ignoring : Addr → Bytes → Put → Put
ignoring from d s = record (receives from d s) { retries = 0 }

pub put_step_noise :
    (s : Put) (from : Addr) (d : Bytes)
    → s.closing ≡ false
    → length s.buffer ≡ buffer_size
    → IsNoise s.block_num d s.buffer
    → (put_step (packet from d) s ≡ continues (ignoring from d s)) × Waits 0 s (ignoring from d s)
unfolding put_step
put_step_noise s from d open_ kept n =
    (ground (arith, n.not_awaited), ground (arith, length-overlay d s.buffer, n.fits))

pub data_sent-server :
    (out : List Sent) (d : Bytes) → data_sent (out ++ datagram server d ∷ []) ≡ data_sent out
data_sent-server out d = data_sent-append out _ ∙ append-nil _

pub data_sent-bad_length :
    (out : List Sent) (a : Option Addr)
    → data_sent (out ++ bad_length (peer a) ∷ []) ≡ data_sent out
data_sent-bad_length out a = data_sent-append out _ ∙ append-nil _

pub data_sent-peer :
    (out : List Sent) (a : Option Addr) (d : Bytes)
    → data_sent (out ++ datagram (peer a) d ∷ []) ≡ data_sent out ++ d ∷ []
data_sent-peer out a d = data_sent-append out _

abbrev pub repeated : Put → Put
repeated s = record s {
  retries = s.retries + 1;
  out =
      s.out
      ++ (if s.block_num == 0
          then datagram server (take s.request_len s.buffer)
          else bad_length (peer s.from_addr))
        ∷ [];
}

pub put_step_timed_out :
    (s : Put)
    → s.closing ≡ false
    → s.retries < max_retries
    → (put_step timed_out s ≡ continues (repeated s)) × Waits (s.retries + 1) s (repeated s)
unfolding put_step
put_step_timed_out s open_ h = (
  ground arith,
  ground (
    arith,
    data_sent-server s.out (take s.request_len s.buffer),
    data_sent-bad_length s.out s.from_addr,
  ),
)

abbrev pub heard : Addr → Bytes → Put → Put
heard from d s = record (receives from d s) {
  confirmed =
      ltb 0 (length d)
      && (get_u16 (overlay d s.buffer) 0 == op_ack)
      && (get_u16 (overlay d s.buffer) 2 == s.block_num);
}

-- Whatever ends the wait behind the last block, the function returns 0 and sends nothing more.
pub put_step_closing :
    (e : Event) (s : Put)
    → s.closing ≡ true
    → (t : Put) × (put_step e s ≡ succeeds t) × (t.out ≡ s.out)
unfolding put_step
put_step_closing (packet from d) s h = (heard from d s, rw h refl, refl)
put_step_closing timed_out s h = (s, rw h, refl)
put_step_closing failed s h = (s, rw h, refl)
