-- ===== src/Tftp/Put/Delivery.antt =====
-- A peer that acknowledges block after block is sent the whole file.
use network_programming_lab.Prelude.{
  ℕ, ◌+◌, ◌<◌, false, List, [], ◌∷◌, ◌++◌, ◌≡◌, refl, ap, sym, ◌∙◌, some, arith, Bytes, length,
  length-overlay, le→ltb, lt→ltb, take-append_of_eq, drop-append_of_eq, take-eq_of_le,
  drop-eq-nil_of_le, append_assoc, append-nil,
}
use network_programming_lab.Tftp.Link.{Addr, Event, packet, timed_out, continues, succeeds}
use network_programming_lab.Tftp.Wire.{block_size, buffer_size, next_u16, data_packet, ack_packet}
use network_programming_lab.Tftp.Put.{Put, put_step, put_run}
use network_programming_lab.Tftp.Put.Blocks.{data_sent, Carries, nothing, short, full}
use network_programming_lab.Tftp.Put.Steps.{
  put_step_ack, last, block, timeout, noise, Acknowledges, acked, advanced, length-send_block,
  Waits, ignoring, put_step_noise, data_sent-peer, repeated, put_step_timed_out, put_step_closing,
}

-- The upload ends with `return 0`, and the data packets sent on the way carry `content`.
abbrev pub Uploads : Put → List Event → ℕ → Bytes → Type 0
Uploads s es b content =
    (t : Put) × (put_run s es ≡ succeeds t)
    × (ds : List Bytes) × (data_sent t.out ≡ data_sent s.out ++ ds)
    × Carries b content ds

Uploads-Waits :
    {k : ℕ} (s t : Put) (e : Event) (es : List Event) (b : ℕ) (content : Bytes)
    → put_step e s ≡ continues t
    → Waits k s t
    → Uploads t es b content
    → Uploads s (e ∷ es) b content
unfolding put_run
Uploads-Waits s t e es b content step w (u, runs, ds, sent, carried) =
    (u, rw step runs, ds, rw (← w.same_data) sent, carried)

advanced_data :
    (s : Put) (from : Addr) (b : ℕ) (chunk rest : Bytes)
    → 0 < length chunk
    → data_sent (advanced from b chunk rest s).out
      ≡ data_sent s.out ++ data_packet (next_u16 b) chunk ∷ []
advanced_data s from b chunk rest h =
    rw (lt→ltb 0 (length chunk) h)
      (data_sent-peer s.out (some from) (data_packet (next_u16 b) chunk))

last_block :
    (s : Put) (from : Addr) (b : ℕ) (chunk : Bytes)
    → length chunk < block_size
    → (ds : List Bytes) × (data_sent (advanced from b chunk [] s).out ≡ data_sent s.out ++ ds)
      × Carries (next_u16 b) chunk ds
last_block s from b [] h = ([], sym (append-nil _), nothing)
last_block s from b (c ∷ chunk) h = (
  data_packet (next_u16 b) (c ∷ chunk) ∷ [],
  advanced_data s from b (c ∷ chunk) [] (omega arith),
  short (omega arith) h,
)

-- The last block, if it has any byte, is sent; then the function waits once more.
Uploads-last :
    (s : Put) (from : Addr) (final : Event) {b : ℕ} (content : Bytes)
    → s.closing ≡ false
    → s.block_num ≡ b
    → b < 65536
    → s.unread ≡ content
    → length content < block_size
    → Uploads s (packet from (ack_packet b) ∷ final ∷ []) (next_u16 b) content
unfolding put_run
Uploads-last s from final {b} content open_ at small left h =
    let t = advanced from b content [] s in
    let whole = take-eq_of_le block_size content (omega arith) in
    let none_left = drop-eq-nil_of_le block_size content (omega arith) in
    let step = put_step_ack s from open_ at small content [] (rw left whole) (rw left none_left) in
    let (u, ends, same) = put_step_closing final t (lt→ltb _ _ h) in
    let (ds, sent, carried) = last_block s from b content h in
    (u, rw step (rw ends), ds, rw same sent, carried)

Uploads-block :
    (s : Put) (from : Addr) (b : ℕ) (chunk rest content : Bytes) (es : List Event)
    → put_step (packet from (ack_packet b)) s ≡ continues (advanced from b chunk rest s)
    → length chunk ≡ block_size
    → content ≡ chunk ++ rest
    → Uploads (advanced from b chunk rest s) es (next_u16 (next_u16 b)) rest
    → Uploads s (packet from (ack_packet b) ∷ es) (next_u16 b) content
unfolding put_run
Uploads-block s from b chunk rest content es step long split (u, runs, ds, sent, carried) =
    let packet = data_packet (next_u16 b) chunk in
    (
      u,
      rw step runs,
      packet ∷ ds,
      sent
          ∙ rw (advanced_data s from b chunk rest (omega arith))
              (append_assoc (data_sent s.out) (packet ∷ []) ds),
      full long split carried,
    )

next_u16-lt : (v : ℕ) → next_u16 v < 65536
next_u16-lt v = omega arith

pub Acknowledges-Uploads :
    {b retries : ℕ} {content : Bytes} {es : List Event} (s : Put)
    → Acknowledges b retries content es
    → s.closing ≡ false
    → s.block_num ≡ b
    → s.retries ≡ retries
    → s.unread ≡ content
    → b < 65536
    → length s.buffer ≡ buffer_size
    → Uploads s es (next_u16 b) content
Acknowledges-Uploads s (last from final short_) open_ at r left small kept =
    Uploads-last s from final _ open_ at small left short_
Acknowledges-Uploads s (block {block = b} {rest = rest} from chunk long split next) open_ at r left
      small kept =
    let t = advanced from b chunk rest s in
    let front = take-append_of_eq block_size chunk rest long in
    let back = drop-append_of_eq block_size chunk rest long in
    let step =
      put_step_ack s from open_ at small chunk rest (rw (left, split) front)
        (rw (left, split) back) in
    let heard_ack = length-overlay (ack_packet b) s.buffer (omega arith) ∙ kept in
    let size = length-send_block chunk (acked from b rest s) heard_ack (omega arith) in
    Uploads-block s from b chunk rest _ _ step long split
      (Acknowledges-Uploads t next (le→ltb _ _ (omega arith)) refl refl refl (next_u16-lt _) size)
Acknowledges-Uploads s (timeout few next) open_ at r left small kept =
    let (step, w) = put_step_timed_out s open_ (rw r few) in
    Uploads-Waits s (repeated s) timed_out _ _ _ step w (
      Acknowledges-Uploads (repeated s) next (w.still_open ∙ open_) (w.same_block ∙ at)
        (w.count ∙ ap (λ n. n + 1) r) (w.same_unread ∙ left) small (w.size ∙ kept))
Acknowledges-Uploads s (noise {d = d} from other next) open_ at r left small kept =
    let (step, w) = put_step_noise s from d open_ kept (rw at (other s.buffer kept)) in
    Uploads-Waits s (ignoring from d s) (packet from d) _ _ _ step w (
      Acknowledges-Uploads (ignoring from d s) next (w.still_open ∙ open_) (w.same_block ∙ at)
        w.count (w.same_unread ∙ left) small (w.size ∙ kept))
