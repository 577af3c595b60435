-- ===== src/Tftp/Get/Silence.antt =====
-- What a download does while nothing arrives.
use network_programming_lab.Prelude.{
  ℕ, zero, suc, ◌+◌, ◌≤◌, ◌<◌, List, [], ◌∷◌, ◌++◌, ◌≡◌, ap, ◌∙◌, sym, arith, replicate, append-nil,
  append_assoc,
}
use network_programming_lab.Tftp.Link.{Event, timed_out, Sent, datagram, peer, fails}
use network_programming_lab.Tftp.Wire.{max_retries, prev_u16, ack_packet}
use network_programming_lab.Tftp.Get.{Get, get_step, get_run}

-- The acknowledgement of the block before the awaited one, for the last known sender.
abbrev pub last_ack : Get → Sent
last_ack s = datagram (peer s.from_addr) (ack_packet (prev_u16 s.expected_block))

-- After `n` timeouts in a row.
abbrev pub silent : ℕ → Get → Get
silent n s = record s { retries = s.retries + n; out = s.out ++ replicate n (last_ack s) }

get_run_timeout :
    (s : Get) (es : List Event)
    → s.retries < max_retries
    → get_run s (timed_out ∷ es) ≡ get_run (silent 1 s) es
unfolding get_run get_step
get_run_timeout s es h = ground arith

silent-zero : (s : Get) → silent 0 s ≡ s
silent-zero s = ground (arith, append-nil s.out)

silent-suc : (n : ℕ) (s : Get) → silent n (silent 1 s) ≡ silent (suc n) s
silent-suc n s = ground (arith, append_assoc s.out (last_ack s ∷ []) (replicate n (last_ack s)))

-- The acknowledgement is repeated once for each timeout.
pub get_run-replicate :
    (n : ℕ) (s : Get) (es : List Event)
    → s.retries + n ≤ max_retries
    → get_run s (replicate n timed_out ++ es) ≡ get_run (silent n s) es
get_run-replicate zero s es h = ap (λ t. get_run t es) (sym (silent-zero s))
get_run-replicate (suc n) s es h =
    get_run_timeout s (replicate n timed_out ++ es) (omega arith)
    ∙ get_run-replicate n (silent 1 s) es (omega arith)
    ∙ ap (λ t. get_run t es) (silent-suc n s)

-- From any state of the download, if nothing but timeouts comes until there are five in a row, and
-- then one more, the download returns -1; at each timeout but the last it has acknowledged the
-- block before the awaited one, to the address that the last datagram came from, if one has come,
-- and it has written nothing.
pub get_silence_ends :
    (n : ℕ) (s : Get) (es : List Event)
    → s.retries + n ≡ max_retries
    → get_run s (replicate n timed_out ++ timed_out ∷ es)
      ≡ fails (record (silent n s) { retries = max_retries + 1 })
get_silence_ends n s es h =
    get_run-replicate n s (timed_out ∷ es) (omega arith) ∙ unfold get_run get_step in ground arith
