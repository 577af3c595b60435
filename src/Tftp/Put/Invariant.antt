-- ===== src/Tftp/Put/Invariant.antt =====
-- What holds of an upload in every state, whatever datagrams arrive.
use network_programming_lab.Prelude.{
  ℕ, ◌+◌, ◌%◌, ◌≤◌, ◌<◌, true, false, ◌&&◌, List, [], ◌∷◌, ◌++◌, ◌≡◌, ap, sym, ◌∙◌, inl, inr, arith,
  All, Bytes, length, take, drop, length-append, length-take, length-overlay, take-append-drop,
  drop-eq-nil_of_le, append_assoc, append-nil, Bool-cases, ltb, lt→ltb, ltb→lt, ltb_false→le, ◌==◌,
  if◌then◌else◌,
}
use network_programming_lab.Tftp.Link.{
  Event, packet, timed_out, failed, datagram, bad_length, peer, server, Outcome, continues,
  succeeds, fails, faults, ◌>>=◌,
}
use network_programming_lab.Tftp.Wire.{
  block_size, buffer_size, max_retries, op_ack, op_error, get_u16, next_u16, data_packet, has_nul,
}
use network_programming_lab.Tftp.Wire.Messages.{IsWellFormed, IsWellFormed-has_nul}
use network_programming_lab.Tftp.Put.{
  Put, send_block, put_next_block, put_packet, put_timed_out, put_waiting, put_closing, put_step,
  put_run, receives,
}
use network_programming_lab.Tftp.Put.Blocks.{data_sent, payloads, payloads-append}
use network_programming_lab.Tftp.Put.Steps.{
  length-send_block, data_sent-peer, data_sent-server, data_sent-bad_length,
}

-- Consecutive block numbers from `k` on, as 16-bit numbers.
abbrev pub Numbered : ℕ → List Bytes → Type 0
Numbered k [] = Unit {0}
Numbered k (d ∷ ds) = (get_u16 d 2 ≡ k % 65536) × Numbered (k + 1) ds

Numbered-snoc :
    (k : ℕ) (ds : List Bytes) (d : Bytes)
    → Numbered k ds
    → get_u16 d 2 ≡ (k + length ds) % 65536
    → Numbered k (ds ++ d ∷ [])
Numbered-snoc k [] d h e = (omega arith, tt)
Numbered-snoc k (x ∷ ds) d h e = (h.0, Numbered-snoc (k + 1) ds d h.1 (omega arith))

-- What has been sent of `content`: its front, in numbered packets.
pub record IsSent (content : Bytes) (s : Put) : Type 0 where
  pub parts : payloads (data_sent s.out) ++ s.unread ≡ content
  pub numbered : Numbered 1 (data_sent s.out)

pub record IsValid (content : Bytes) (s : Put) : Type 0 where
  pub few : s.retries ≤ max_retries
  pub wide : length s.buffer ≡ buffer_size
  pub sent : IsSent content s
  pub counted : s.closing ≡ false → s.block_num ≡ length (data_sent s.out) % 65536
  pub ended : s.closing ≡ true → s.unread ≡ []

-- Behind `return 0` all of the file has been sent; behind `return -1` a part of it.
abbrev pub IsSafe : Bytes → Outcome Put → Type 0
IsSafe content (continues s) = IsValid content s
IsSafe content (succeeds s) = (payloads (data_sent s.out) ≡ content) × Numbered 1 (data_sent s.out)
IsSafe content (fails s) = IsSent content s
IsSafe content faults = ⊥

-- A datagram has its opcode and fits the buffer, and ends its text if it is an error.
abbrev pub Fits : Event → Type 0
Fits (packet _ d) = IsWellFormed d
Fits timed_out = Unit {0}
Fits failed = Unit {0}

-- Neither the buffer nor the target of the next datagram matters for what has been sent.
IsSent-block :
    (content : Bytes) (s : Put) (chunk : Bytes)
    → s.block_num ≡ (length (data_sent s.out) + 1) % 65536
    → payloads (data_sent s.out) ++ (chunk ++ s.unread) ≡ content
    → Numbered 1 (data_sent s.out)
    → IsSent content (send_block chunk s)
IsSent-block content s [] at parts numbered = record { parts = parts; numbered = numbered }
IsSent-block content s (c ∷ chunk) at parts numbered =
    let d = data_packet s.block_num (c ∷ chunk) in
    let more = data_sent-peer s.out s.from_addr d in
    rw (lt→ltb 0 (length (c ∷ chunk)) (omega arith)) (record {
      parts = rw (more, payloads-append) (simp (append-nil, append_assoc) parts);
      numbered = rw more (Numbered-snoc 1 _ d numbered (omega arith));
    })

length-data_sent-send_block :
    (chunk : Bytes) (s : Put)
    → 0 < length chunk
    → length (data_sent (send_block chunk s).out) ≡ length (data_sent s.out) + 1
length-data_sent-send_block chunk s h =
    let d = data_packet s.block_num chunk in
    rw (lt→ltb 0 (length chunk) h)
      (ap length (data_sent-peer s.out s.from_addr d) ∙ length-append (data_sent s.out) (d ∷ []))

module _ (content : Bytes) (s : Put) (open_ : s.closing ≡ false) (v : IsValid content s) where
  abbrev chunk : Bytes
  chunk = take block_size s.unread

  abbrev read : Put
  read = record s { block_num = next_u16 s.block_num; unread = drop block_size s.unread }

  length-chunk : length chunk ≤ block_size
  length-chunk = omega (arith, length-take block_size s.unread)

  next-IsSent : IsSent content (send_block chunk read)
  next-IsSent =
      IsSent-block content read chunk (omega (arith, v.counted open_))
        (rw (take-append-drop block_size s.unread) v.sent.parts) v.sent.numbered

  -- A short block is the last one.
  none_left : length chunk < block_size → drop block_size s.unread ≡ []
  none_left h =
      drop-eq-nil_of_le block_size s.unread (omega (arith, length-take block_size s.unread))

  put_next_block-IsValid : IsValid content (put_next_block s)
  unfolding put_next_block
  put_next_block-IsValid = record {
    few = v.few;
    wide = length-send_block chunk read v.wide length-chunk;
    sent = record { parts = next-IsSent.parts; numbered = next-IsSent.numbered };
    counted = λ more.
        let counted = v.counted open_ in
        let long = ltb_false→le _ _ more in
        omega (arith, counted, length-data_sent-send_block chunk read (omega arith));
    ended = λ short. none_left (ltb→lt _ _ short);
  }

put_packet-IsSafe :
    (content : Bytes) (s : Put)
    → s.closing ≡ false
    → ((get_u16 s.buffer 0 == op_error) ≡ true → has_nul (drop 4 s.buffer) ≡ true)
    → IsValid content s
    → IsSafe content (put_packet s)
unfolding put_packet
put_packet-IsSafe content s open_ ended v = elim (Bool-cases (get_u16 s.buffer 0 == op_error)) [
  | inl error ↦ rw (error, ended error) v.sent
  | inr other ↦
      let awaited = (get_u16 s.buffer 0 == op_ack) && (get_u16 s.buffer 2 == s.block_num) in
      rw other (elim (Bool-cases awaited) [
        | inl ack ↦ rw ack (put_next_block-IsValid content s open_ v)
        | inr noise ↦ rw noise v
      ])
]

-- What a timeout sends is no data.
data_sent-repeat :
    (s : Put)
    → data_sent (
        s.out
        ++ (if s.block_num == 0
            then datagram server (take s.request_len s.buffer)
            else bad_length (peer s.from_addr))
          ∷ [])
      ≡ data_sent s.out
data_sent-repeat s = elim (Bool-cases (s.block_num == 0)) [
  | inl first ↦ rw first (data_sent-server s.out (take s.request_len s.buffer))
  | inr later ↦ rw later (data_sent-bad_length s.out s.from_addr)
]

put_timed_out-IsSafe :
    (content : Bytes) (s : Put) → IsValid content s → IsSafe content (put_timed_out s)
unfolding put_timed_out
put_timed_out-IsSafe content s v = elim (Bool-cases (ltb s.retries max_retries)) [
  | inl more ↦ rw more (record {
    few = omega (arith, ltb→lt _ _ more);
    wide = v.wide;
    sent = record {
      parts = rw (data_sent-repeat s) v.sent.parts;
      numbered = rw (data_sent-repeat s) v.sent.numbered;
    };
    counted = λ h. rw (data_sent-repeat s) (v.counted h);
    ended = v.ended;
  })
  | inr over ↦ rw over (record { parts = v.sent.parts; numbered = v.sent.numbered })
]

put_waiting-IsSafe :
    (content : Bytes) (e : Event) (s : Put)
    → Fits e
    → s.closing ≡ false
    → IsValid content s
    → IsSafe content (put_waiting e s)
unfolding put_waiting
put_waiting-IsSafe content (packet from d) s fits open_ v =
    put_packet-IsSafe content (record (receives from d s) { retries = 0 }) open_
      (IsWellFormed-has_nul d s.buffer fits)
      (record {
        few = omega arith;
        wide = length-overlay d s.buffer (omega (arith, v.wide, fits.fits)) ∙ v.wide;
        sent = record { parts = v.sent.parts; numbered = v.sent.numbered };
        counted = v.counted;
        ended = v.ended;
      })
put_waiting-IsSafe content timed_out s fits open_ v = put_timed_out-IsSafe content s v
put_waiting-IsSafe content failed s fits open_ v = v.sent

all_sent :
    (content : Bytes) (s : Put)
    → s.closing ≡ true
    → IsValid content s
    → payloads (data_sent s.out) ≡ content
all_sent content s closed v =
    sym (append-nil _)
    ∙ ap (◌++◌ (payloads (data_sent s.out))) (sym (v.ended closed))
    ∙ v.sent.parts

put_closing-IsSafe :
    (content : Bytes) (e : Event) (s : Put)
    → s.closing ≡ true
    → IsValid content s
    → IsSafe content (put_closing e s)
unfolding put_closing
put_closing-IsSafe content (packet from d) s closed v =
    (all_sent content s closed v, v.sent.numbered)
put_closing-IsSafe content timed_out s closed v = (all_sent content s closed v, v.sent.numbered)
put_closing-IsSafe content failed s closed v = (all_sent content s closed v, v.sent.numbered)

put_step-IsSafe :
    (content : Bytes) (e : Event) (s : Put)
    → Fits e
    → IsValid content s
    → IsSafe content (put_step e s)
unfolding put_step
put_step-IsSafe content e s fits v = elim (Bool-cases s.closing) [
  | inl closed ↦ simp closed (put_closing-IsSafe content e s closed v)
  | inr open_ ↦ simp open_ (put_waiting-IsSafe content e s fits open_ v)
]

>>=-IsSafe :
    (content : Bytes) (o : Outcome Put) (f : Put → Outcome Put)
    → ((t : Put) → IsValid content t → IsSafe content (f t))
    → IsSafe content o
    → IsSafe content (o >>= f)
>>=-IsSafe content (continues t) f next h = next t h
>>=-IsSafe content (succeeds t) f next h = h
>>=-IsSafe content (fails t) f next h = h
>>=-IsSafe content faults f next h = h

pub put_run-IsSafe :
    (content : Bytes) (es : List Event) (s : Put)
    → All Fits es
    → IsValid content s
    → IsSafe content (put_run s es)
unfolding put_run
put_run-IsSafe content [] s fits v = v
put_run-IsSafe content (e ∷ es) s fits v =
    >>=-IsSafe content (put_step e s) _ (λ t h. put_run-IsSafe content es t fits.1 h)
      (put_step-IsSafe content e s fits.0 v)
