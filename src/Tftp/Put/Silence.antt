-- ===== src/Tftp/Put/Silence.antt =====
-- What an upload does while nothing arrives.
use network_programming_lab.Prelude.{
  ℕ, zero, suc, ◌+◌, ◌≤◌, ◌<◌, false, List, [], ◌∷◌, ◌++◌, ◌≡◌, ◌⊎◌, ap, ◌∙◌, sym, arith, replicate,
  append-nil, append_assoc, take,
}
use network_programming_lab.Tftp.Link.{
  Event, timed_out, Sent, datagram, bad_length, peer, server, fails,
}
use network_programming_lab.Tftp.Wire.{max_retries}
use network_programming_lab.Tftp.Put.{Put, put_step, put_run}

-- After `n` timeouts in a row, with `again` handed to `sendto` at each.
abbrev pub silent : Sent → ℕ → Put → Put
silent again n s = record s { retries = s.retries + n; out = s.out ++ replicate n again }

-- What `sendto` is given at a timeout.
abbrev pub Repeats : Put → Sent → Type 0
Repeats s again =
    ((s.block_num ≡ 0) × (again ≡ datagram server (take s.request_len s.buffer)))
    ⊎ ((0 < s.block_num) × (again ≡ bad_length (peer s.from_addr)))

put_run_timeout :
    (s : Put) (again : Sent) (es : List Event)
    → s.closing ≡ false
    → Repeats s again
    → s.retries < max_retries
    → put_run s (timed_out ∷ es) ≡ put_run (silent again 1 s) es
unfolding put_run put_step
put_run_timeout s again es open_ r h = ground arith

silent-zero : (again : Sent) (s : Put) → silent again 0 s ≡ s
silent-zero again s = ground (arith, append-nil s.out)

silent-suc :
    (again : Sent) (n : ℕ) (s : Put) → silent again n (silent again 1 s) ≡ silent again (suc n) s
silent-suc again n s = ground (arith, append_assoc s.out (again ∷ []) (replicate n again))

put_run-replicate :
    (n : ℕ) (s : Put) (again : Sent) (es : List Event)
    → s.closing ≡ false
    → Repeats s again
    → s.retries + n ≤ max_retries
    → put_run s (replicate n timed_out ++ es) ≡ put_run (silent again n s) es
put_run-replicate zero s again es open_ r h = ap (λ t. put_run t es) (sym (silent-zero again s))
put_run-replicate (suc n) s again es open_ r h =
    put_run_timeout s again (replicate n timed_out ++ es) open_ r (omega arith)
    ∙ put_run-replicate n (silent again 1 s) again es open_ r (omega arith)
    ∙ ap (λ t. put_run t es) (silent-suc again n s)

-- In the loop of the upload, if nothing but timeouts comes until there are five in a row, and then
-- one more, the upload returns -1. What it has handed to `sendto` at each timeout but the last is,
-- where the block number is 0, as many bytes as the request has of what then stands in the buffer,
-- be it the request or what was received over it, and with any other number a call with a negative
-- length, so that a lost block is never sent again.
pub put_silence_ends :
    (n : ℕ) (s : Put) (again : Sent) (es : List Event)
    → s.closing ≡ false
    → Repeats s again
    → s.retries + n ≡ max_retries
    → put_run s (replicate n timed_out ++ timed_out ∷ es)
      ≡ fails (record (silent again n s) { retries = max_retries + 1 })
put_silence_ends n s again es open_ r h =
    put_run-replicate n s again (timed_out ∷ es) open_ r (omega arith)
    ∙ unfold put_run put_step in ground arith
