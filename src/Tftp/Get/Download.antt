-- ===== src/Tftp/Get/Download.antt =====
-- `tftp_get` as a whole: the request, the loop, and the ways out.
use network_programming_lab.Prelude.{
  ℕ, ◌≤◌, ◌<◌, true, Bool, false, List, [], ◌∷◌, ◌++◌, ◌≡◌, refl, ap, arith, none, some, All, Bytes,
  length, overlay, ==_refl, take-append, drop,
}
use network_programming_lab.Tftp.Link.{
  Addr, Event, packet, datagram, server, continues, succeeds, fails, faults,
}
use network_programming_lab.Tftp.Wire.{buffer_size, op_rrq, put_u16, op_data, send_error}
use network_programming_lab.Tftp.Wire.Format.{
  request_format, build_request-eq, error_format, send_error-eq, u16_bytes,
}
use network_programming_lab.Tftp.Wire.Messages.{has_nul-drop, has_nul-last}
use network_programming_lab.Tftp.Get.{Get, requested, get_start, tftp_get, get_run, get_step}
use network_programming_lab.Tftp.Get.Delivery.{Delivers, Delivers-Downloads}
use network_programming_lab.Tftp.Get.Invariant.{IsSafe, IsSized, IsValid, get_run-IsSafe}

-- What `tftp_get` has when its loop begins.
pub record IsRequested (name : Bytes) (s : Get) : Type 0 where
  pub none_yet : s.retries ≡ 0
  pub first : s.expected_block ≡ 1
  pub full : length s.buffer ≡ buffer_size
  pub unknown : s.from_addr ≡ none
  pub empty : s.written ≡ []
  pub asked : s.out ≡ datagram server (request_format op_rrq name) ∷ []

IsRequested-IsValid : {name : Bytes} {s : Get} → IsRequested name s → IsValid s
IsRequested-IsValid r = record {
  few = omega (arith, r.none_yet);
  full = r.full;
  whole = rw r.empty;
  numbered = rw (r.first, r.empty);
  acks = rw (r.asked) (tt, tt);
}

module _ (name buffer : Bytes) (full : length buffer ≡ buffer_size)
    (short : length name ≤ 507) where
  -- With the socket and the file open, exactly the request of RFC 1350 is sent.
  pub get_start-IsRequested :
      (s : Get) × (get_start true true name buffer ≡ continues s) × IsRequested name s
  unfolding get_start
  get_start-IsRequested =
      let (rest, built, fits) = build_request-eq op_rrq name buffer full short in
      let packet = request_format op_rrq name in
      (
        requested (packet ++ rest) (length packet),
        rw built refl,
        record {
          none_yet = refl;
          first = refl;
          full = fits;
          unknown = refl;
          empty = refl;
          asked = ap (λ d. datagram server d ∷ []) (take-append packet rest);
        },
      )

  -- If the socket and the local file open, the name has at most 507 bytes, and the events deliver
  -- `content` from block 1 on (with at most five timeouts in a row, and any number of packets that
  -- are neither errors nor the awaited block in between), then `tftp_get` returns 0 and has
  -- written exactly `content`.
  pub tftp_get-Delivers :
      (content : Bytes) (es : List Event)
      → Delivers 1 0 content es
      → (t : Get) × (tftp_get true true name buffer es ≡ succeeds t) × (t.written ≡ content)
  unfolding tftp_get
  tftp_get-Delivers content es d =
      let (s, starts, r) = get_start-IsRequested in
      let (t, runs, all) = Delivers-Downloads s d r.first r.none_yet (omega arith) r.full in
      (t, rw starts runs, rw r.empty at all)

  -- Whatever events arrive, as long as each datagram has between 4 and 516 bytes, an error packet
  -- has a NUL behind its header, and the name has at most 507 bytes: `tftp_get` has no undefined
  -- behaviour; while it runs, the file holds whole blocks of 512 bytes, the awaited number is that
  -- of the next block (modulo 65536), the count of timeouts is at most five and every
  -- acknowledgement carries a number up to that of the blocks written; if it returns 0, the
  -- awaited number counts a last, short block too; if it returns -1, the file holds whole blocks
  -- only.
  pub tftp_get-IsSafe :
      (socket_opened file_opened : Bool) (es : List Event)
      → All IsSized es
      → IsSafe (tftp_get socket_opened file_opened name buffer es)
  unfolding tftp_get
  tftp_get-IsSafe true true es sized =
      let (s, starts, r) = get_start-IsRequested in
      rw starts (get_run-IsSafe es s sized (IsRequested-IsValid r))
  tftp_get-IsSafe true false es sized = unfold get_start in (omega arith)
  tftp_get-IsSafe false b es sized = unfold get_start in (omega arith)

-- An error packet as `send_error` builds it ends the download with -1 in any state, with the file
-- and the datagrams sent as they were.
get_run-send_error :
    (s : Get) (from : Addr) (error_code : ℕ) (error_msg d : Bytes) (es : List Event)
    → send_error error_code error_msg ≡ some d
    → (t : Get) × (get_run s (packet from d ∷ es) ≡ fails t)
      × (t.written ≡ s.written)
      × (t.out ≡ s.out)
unfolding get_run get_step
get_run-send_error s from error_code error_msg d es e =
    rw
      (
        send_error-eq error_code error_msg e,
        has_nul-drop 0 (error_msg ++ 0 ∷ [])
            (drop (length (error_format error_code error_msg)) s.buffer)
            (has_nul-last error_msg []),
      )
      (
        record s {
          retries = 0;
          from_addr = some from;
          buffer = overlay (error_format error_code error_msg) s.buffer;
        },
        refl,
        refl,
        refl,
      )

-- In any state of the download two datagrams from a peer lead to undefined behaviour: one with an
-- unknown opcode and the number of the awaited block, and one that is only the opcode for data, so
-- that the length of the data is negative.
pub get_run_runt :
    (s : Get) (from : Addr) (es : List Event)
    → s.expected_block < 65536
    → get_run s
        (packet from (put_u16 9 ++ put_u16 s.expected_block) ∷ packet from (put_u16 op_data) ∷ es)
      ≡ faults
unfolding get_run get_step
get_run_runt s from es h = rw (u16_bytes s.expected_block h, ==_refl s.expected_block)
