-- ===== src/Tftp/Get/Delivery.antt =====
-- A file that a server delivers block by block arrives whole, whatever else comes in between.
use network_programming_lab.Prelude.{
  ℕ, ◌+◌, ◌-◌, ◌≤◌, ◌<◌, List, [], ◌∷◌, ◌++◌, ◌≡◌, ◌≢◌, refl, ap, ◌∙◌, some, arith, Bytes, ltb,
  ◌==◌, ◌&&◌, if◌then◌else◌, ==_refl, length, drop, overlay, length-overlay, take-append,
  append_assoc,
}
use network_programming_lab.Tftp.Link.{
  Addr, Event, packet, timed_out, peer, datagram, continues, succeeds,
}
use network_programming_lab.Tftp.Wire.{
  block_size, buffer_size, max_retries, op_data, op_error, get_u16, next_u16, prev_u16, data_packet,
  ack_packet,
}
use network_programming_lab.Tftp.Wire.Format.{u16_bytes}
use network_programming_lab.Tftp.Get.{Get, send_ack, get_step, get_run}

-- A datagram, read behind the old bytes of the buffer, that is neither an error nor the block
-- that is awaited.
pub record IsNoise (expected : ℕ) (d buffer : Bytes) : Type 0 where
  pub fits : length d ≤ buffer_size
  pub not_error : get_u16 (overlay d buffer) 0 ≢ op_error
  pub not_awaited :
      (get_u16 (overlay d buffer) 0 ≡ op_data) → get_u16 (overlay d buffer) 2 ≢ expected

-- The events deliver `content` from block `expected` on, after `retries` timeouts in a row. Blocks
-- are full but for the last; between them come at most `max_retries` timeouts in a row, and any
-- number of other packets, such as repeated blocks.
pub data Delivers : ℕ → ℕ → Bytes → List Event → Type 0 where
  last :
      {expected retries : ℕ} {chunk : Bytes} (from : Addr)
      → length chunk < block_size
      → Delivers expected retries chunk (packet from (data_packet expected chunk) ∷ [])
  block :
      {expected retries : ℕ} {chunk rest content : Bytes} {es : List Event} (from : Addr)
      → length chunk ≡ block_size
      → content ≡ chunk ++ rest
      → Delivers (next_u16 expected) 0 rest es
      → Delivers expected retries content (packet from (data_packet expected chunk) ∷ es)
  timeout :
      {expected retries : ℕ} {content : Bytes} {es : List Event}
      → retries < max_retries
      → Delivers expected (retries + 1) content es
      → Delivers expected retries content (timed_out ∷ es)
  noise :
      {expected retries : ℕ} {content d : Bytes} {es : List Event} (from : Addr)
      → ((buffer : Bytes) → length buffer ≡ buffer_size → IsNoise expected d buffer)
      → Delivers expected 0 content es
      → Delivers expected retries content (packet from d ∷ es)

-- The state behind the block that was awaited.
abbrev pub accepted : Addr → Bytes → Get → Get
accepted from chunk s = record {
  retries = 0;
  expected_block = next_u16 s.expected_block;
  buffer = overlay (data_packet s.expected_block chunk) s.buffer;
  from_addr = some from;
  written = s.written ++ chunk;
  out = s.out ++ datagram (peer (some from)) (ack_packet s.expected_block) ∷ [];
}

-- The awaited block is written and acknowledged, and a short one ends the transfer.
pub get_step_awaited :
    (s : Get) (from : Addr) (chunk : Bytes)
    → s.expected_block < 65536
    → get_step (packet from (data_packet s.expected_block chunk)) s ≡ (
        if ltb (length chunk) block_size
        then succeeds (accepted from chunk s)
        else continues (accepted from chunk s))
unfolding get_step
get_step_awaited s from chunk h =
    rw
      (
        u16_bytes s.expected_block h,
        ==_refl s.expected_block,
        data_len,
        take-append chunk (drop (length (data_packet s.expected_block chunk)) s.buffer),
      )
      (ground arith)
  where
    data_len : length (data_packet s.expected_block chunk) - 4 ≡ length chunk
    data_len = omega arith

module _ (s : Get) (from : Addr) (chunk : Bytes) {expected : ℕ}
    (awaited : s.expected_block ≡ expected) (small : expected < 65536) where
  pub get_step_last :
      length chunk < block_size
      → get_step (packet from (data_packet expected chunk)) s ≡ succeeds (accepted from chunk s)
  get_step_last short =
      rw (← awaited) (get_step_awaited s from chunk (rw awaited small) ∙ ground arith)

  pub get_step_block :
      length chunk ≡ block_size
      → get_step (packet from (data_packet expected chunk)) s ≡ continues (accepted from chunk s)
  get_step_block long =
      rw (← awaited) (get_step_awaited s from chunk (rw awaited small) ∙ ground arith)

-- What a round that waits on leaves as it is; `retries` is what it sets the count of timeouts to.
pub record Waits (retries : ℕ) (s t : Get) : Type 0 where
  pub same_expected : t.expected_block ≡ s.expected_block
  pub same_written : t.written ≡ s.written
  pub count : t.retries ≡ retries
  pub full : length t.buffer ≡ length s.buffer

module _ (s : Get) (from : Addr) (d : Bytes) where
  abbrev noticed : Get
  noticed = record s { retries = 0; from_addr = some from; buffer = overlay d s.buffer }

  -- An old block is acknowledged again.
  abbrev answered : Get
  answered =
      if (get_u16 (overlay d s.buffer) 0 == op_data)
        && ltb (get_u16 (overlay d s.buffer) 2) s.expected_block
      then send_ack (get_u16 (overlay d s.buffer) 2) noticed
      else noticed

  pub get_step_noise :
      length s.buffer ≡ buffer_size
      → IsNoise s.expected_block d s.buffer
      → (get_step (packet from d) s ≡ continues answered) × Waits 0 s answered
  unfolding get_step
  get_step_noise full n =
      (ground (arith, n.not_awaited), ground (arith, length-overlay d s.buffer, n.fits))

pub get_step_timed_out :
    (s : Get)
    → s.retries < max_retries
    → (t : Get) × (get_step timed_out s ≡ continues t) × Waits (s.retries + 1) s t
unfolding get_step
get_step_timed_out s h = (
  send_ack (prev_u16 s.expected_block) (record s { retries = s.retries + 1 }),
  ground arith,
  ground arith,
)

-- The download ends with `return 0`, and the file holds what it held before and `content`.
abbrev pub Downloads : Get → List Event → Bytes → Type 0
Downloads s es content =
    (t : Get) × (get_run s es ≡ succeeds t) × (t.written ≡ s.written ++ content)

Downloads-Waits :
    {k : ℕ} (s t : Get) (e : Event) (es : List Event) (content : Bytes)
    → get_step e s ≡ continues t
    → Waits k s t
    → Downloads t es content
    → Downloads s (e ∷ es) content
unfolding get_run
Downloads-Waits s t e es content step w (u, runs, all) =
    (u, rw step runs, rw (← w.same_written) all)

next_u16-lt : (v : ℕ) → next_u16 v < 65536
next_u16-lt v = omega arith

pub Delivers-Downloads :
    {expected retries : ℕ} {content : Bytes} {es : List Event} (s : Get)
    → Delivers expected retries content es
    → s.expected_block ≡ expected
    → s.retries ≡ retries
    → expected < 65536
    → length s.buffer ≡ buffer_size
    → Downloads s es content
unfolding get_run
Delivers-Downloads s (last {chunk = chunk} from short) e r lt full =
    (accepted from chunk s, rw (get_step_last s from chunk e lt short), refl)
Delivers-Downloads s (block {chunk = chunk} {rest} from long split next) e r lt full =
    let t = accepted from chunk s in
    let kept = length-overlay (data_packet s.expected_block chunk) s.buffer (omega arith) ∙ full in
    let (u, runs, all) = Delivers-Downloads t next (ap next_u16 e) refl (next_u16-lt _) kept in
    (
      u,
      rw (get_step_block s from chunk e lt long) runs,
      rw (all, split) (append_assoc s.written chunk rest),
    )
Delivers-Downloads s (timeout few next) e r lt full =
    let (t, step, w) = get_step_timed_out s (rw r few) in
    Downloads-Waits s t timed_out _ _ step w (
      Delivers-Downloads t next (w.same_expected ∙ e) (w.count ∙ ap (λ n. n + 1) r) lt
        (w.full ∙ full))
Delivers-Downloads s (noise {d = d} from other next) e r lt full =
    let (step, w) = get_step_noise s from d full (rw e (other s.buffer full)) in
    Downloads-Waits s (answered s from d) (packet from d) _ _ step w
      (Delivers-Downloads (answered s from d) next (w.same_expected ∙ e) w.count lt (w.full ∙ full))
