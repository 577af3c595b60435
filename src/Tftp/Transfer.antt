-- ===== src/Tftp/Transfer.antt =====
-- The two ends joined: what `tftp_put` sends is what `tftp_get` takes.
use network_programming_lab.Prelude.{
  ℕ, ◌%◌, ◌≤◌, ◌<◌, true, List, ◌++◌, map, ◌≡◌, ◌≢◌, refl, ap, ◌∙◌, sym, arith, some, Bytes, length,
  length-append, length-overlay, append-nil, append_assoc,
}
use network_programming_lab.Tftp.Link.{Addr, Event, packet, continues, succeeds}
use network_programming_lab.Tftp.Wire.{block_size, buffer_size, next_u16, data_packet}
use network_programming_lab.Tftp.Get.{Get, get_run, tftp_get}
use network_programming_lab.Tftp.Get.Delivery.{Delivers, last, block, accepted, get_step_block}
use network_programming_lab.Tftp.Get.Download.{get_start-IsRequested, tftp_get-Delivers}
use network_programming_lab.Tftp.Put.{Put, tftp_put}
use network_programming_lab.Tftp.Put.Blocks.{data_sent, Carries, nothing, short, full}
use network_programming_lab.Tftp.Put.Steps.{Acknowledges}
use network_programming_lab.Tftp.Put.Upload.{tftp_put-Acknowledges}

-- The packets reach the other end in order, each once.
abbrev pub carry : Addr → List Bytes → List Event
carry from = map (packet from)

-- A file that ends in a short block ends the download.
Carries-Delivers :
    {b : ℕ} {content : Bytes} {ds : List Bytes} (from : Addr)
    → Carries b content ds
    → length content % block_size ≢ 0
    → Delivers b 0 content (carry from ds)
Carries-Delivers from nothing partial = absurd (partial (omega arith))
Carries-Delivers from (short some_ few) partial = last from few
Carries-Delivers from (full {chunk = chunk} {rest} long split more) partial =
    block from long split (
      Carries-Delivers from more
        (λ h. partial (omega (arith, ap length split, length-append chunk rest))))

-- A file of whole blocks does not: the download has it all, and waits for more.
Carries-waits :
    {b : ℕ} {content : Bytes} {ds : List Bytes} (s : Get) (from : Addr)
    → Carries b content ds
    → length content % block_size ≡ 0
    → s.expected_block ≡ b
    → b < 65536
    → length s.buffer ≡ buffer_size
    → (t : Get) × (get_run s (carry from ds) ≡ continues t) × (t.written ≡ s.written ++ content)
unfolding get_run
Carries-waits s from nothing whole e lt kept = (s, refl, sym (append-nil s.written))
Carries-waits s from (short some_ few) whole e lt kept = absurd (omega arith)
Carries-waits s from (full {chunk = chunk} {rest} long split more) whole e lt kept =
    let size = length-overlay (data_packet s.expected_block chunk) s.buffer (omega arith) ∙ kept in
    let (t, runs, all) =
      Carries-waits (accepted from chunk s) from more
        (omega (arith, ap length split, length-append chunk rest)) (ap next_u16 e) (omega arith)
        size in
    (
      t,
      rw (get_step_block s from chunk e lt long) runs,
      rw (all, split) (append_assoc s.written chunk rest),
    )

module _ (content name buffer : Bytes) (wide : length buffer ≡ buffer_size)
    (small : length name ≤ 507) (es : List Event) (acked : Acknowledges 0 0 content es)
    (from : Addr) where
  -- For a file whose length is not a multiple of 512, a name of at most 507 bytes, and events that
  -- acknowledge every block of the file (with at most five timeouts in a row and any other packets
  -- in between): `tftp_put` returns 0, and `tftp_get`, given the data packets that it has sent,
  -- returns 0 with exactly the file written.
  pub put_get_partial :
      length content % block_size ≢ 0
      → (t : Put) × (u : Get) × (tftp_put (some content) true name buffer es ≡ succeeds t)
        × (tftp_get true true name buffer (carry from (data_sent t.out)) ≡ succeeds u)
        × (u.written ≡ content)
  put_get_partial partial =
      let (t, ends, carried) = tftp_put-Acknowledges content name buffer wide small es acked in
      let (u, runs, all) =
        tftp_get-Delivers name buffer wide small content _
          (Carries-Delivers from carried partial) in
      (t, u, ends, runs, all)

  -- For a file whose length is a multiple of 512, under the same conditions, `tftp_put` returns 0,
  -- but `tftp_get`, given the data packets that it has sent, has written the whole file and still
  -- waits for more: no short block ends the transfer.
  pub put_get_whole :
      length content % block_size ≡ 0
      → (t : Put) × (u : Get) × (tftp_put (some content) true name buffer es ≡ succeeds t)
        × (tftp_get true true name buffer (carry from (data_sent t.out)) ≡ continues u)
        × (u.written ≡ content)
  unfolding tftp_get
  put_get_whole whole =
      let (t, ends, carried) = tftp_put-Acknowledges content name buffer wide small es acked in
      let (s, starts, r) = get_start-IsRequested name buffer wide small in
      let (u, runs, all) = Carries-waits s from carried whole r.first (omega arith) r.full in
      (t, u, ends, rw starts runs, rw r.empty at all)
