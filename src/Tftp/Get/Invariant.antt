-- ===== src/Tftp/Get/Invariant.antt =====
-- What holds of a download in every state, whatever datagrams arrive.
use network_programming_lab.Prelude.{
  true, ℕ, ◌+◌, ◌-◌, ◌/◌, ◌%◌, ◌≤◌, List, [], ◌∷◌, ◌++◌, ◌≡◌, refl, ◌∙◌, Option, arith, All, Bytes,
  length, take, drop, length-append, length-take, length-drop, length-overlay, ltb, le→ltb, ltb→lt,
  ltb_false→le, ==_iff, inl, inr, Bool-cases, ◌==◌,
}
use network_programming_lab.Tftp.Link.{
  Addr, Event, packet, timed_out, failed, server, peer, Sent, datagram, bad_length, Outcome,
  continues, succeeds, fails, faults, ◌>>=◌,
}
use network_programming_lab.Tftp.Wire.{
  block_size, buffer_size, max_retries, op_data, op_error, get_u16, ack_packet, has_nul,
}
use network_programming_lab.Tftp.Wire.Messages.{IsWellFormed, IsWellFormed-has_nul}
use network_programming_lab.Tftp.Get.{
  Get, send_ack, get_timed_out, get_data, get_packet, get_step, get_run,
}

-- A datagram to the peer acknowledges a block with a number up to `k`; the request goes to the server.
abbrev pub AcksUpTo : ℕ → Sent → Type 0
AcksUpTo k (datagram server d) = Unit {0}
AcksUpTo k (datagram (peer _) d) = (j : ℕ) × (d ≡ ack_packet j) × (j ≤ k)
AcksUpTo k (bad_length _) = ⊥

pub record IsValid (s : Get) : Type 0 where
  pub few : s.retries ≤ max_retries
  pub full : length s.buffer ≡ buffer_size
  pub whole : length s.written % block_size ≡ 0
  pub numbered : s.expected_block ≡ (length s.written / block_size + 1) % 65536
  pub acks : All (AcksUpTo (length s.written / block_size)) s.out

-- Behind `return 0`: the last block written is a short one, and counts as a block.
pub record IsComplete (s : Get) : Type 0 where
  pub counted : s.expected_block ≡ (length s.written / block_size + 2) % 65536
  pub acks : All (AcksUpTo (length s.written / block_size + 1)) s.out

-- Behind `return -1`: whole blocks only.
pub record IsAborted (s : Get) : Type 0 where
  pub whole : length s.written % block_size ≡ 0
  pub acks : All (AcksUpTo (length s.written / block_size)) s.out

abbrev pub IsSafe : Outcome Get → Type 0
IsSafe (continues s) = IsValid s
IsSafe (succeeds s) = IsComplete s
IsSafe (fails s) = IsAborted s
IsSafe faults = ⊥

-- A datagram with room for its header, that fits the buffer, and ends its text if it is an error.
abbrev pub IsSized : Event → Type 0
IsSized (packet _ d) = (4 ≤ length d) × IsWellFormed d
IsSized timed_out = Unit {0}
IsSized failed = Unit {0}

All-snoc :
    (P : Sent → Type 0) (out : List Sent) (x : Sent) → All P out → P x → All P (out ++ x ∷ [])
All-snoc P [] x h hx = (hx, tt)
All-snoc P (y ∷ out) x h hx = (h.0, All-snoc P out x h.1 hx)

AcksUpTo-mono : (j k : ℕ) (x : Sent) → j ≤ k → AcksUpTo j x → AcksUpTo k x
AcksUpTo-mono j k (datagram server d) le h = tt
AcksUpTo-mono j k (datagram (peer a) d) le h = (h.0, h.1, omega arith)
AcksUpTo-mono j k (bad_length a) le h = h

All-AcksUpTo-mono :
    (j k : ℕ) (out : List Sent) → j ≤ k → All (AcksUpTo j) out → All (AcksUpTo k) out
All-AcksUpTo-mono j k [] le h = tt
All-AcksUpTo-mono j k (x ∷ out) le h =
    (AcksUpTo-mono j k x le h.0, All-AcksUpTo-mono j k out le h.1)

acks_more :
    (j k block : ℕ) (from : Option Addr) (out : List Sent)
    → j ≤ k
    → block ≤ k
    → All (AcksUpTo j) out
    → All (AcksUpTo k) (out ++ datagram (peer from) (ack_packet block) ∷ [])
acks_more j k block from out le small h =
    All-snoc (AcksUpTo k) out _ (All-AcksUpTo-mono j k out le h) (block, refl, small)

send_ack-IsValid :
    (s : Get) (block : ℕ)
    → block ≤ length s.written / block_size
    → IsValid s
    → IsValid (send_ack block s)
send_ack-IsValid s block small v = record {
  few = v.few;
  full = v.full;
  whole = v.whole;
  numbered = v.numbered;
  acks = acks_more _ _ block s.from_addr s.out (omega arith) small v.acks;
}

get_timed_out-IsSafe : (s : Get) → IsValid s → IsSafe (get_timed_out s)
unfolding get_timed_out
get_timed_out-IsSafe s v = elim (Bool-cases (ltb s.retries max_retries)) [
  | inl more ↦ rw more (
      send_ack-IsValid (record s { retries = s.retries + 1 }) _ (omega (arith, v.numbered))
        (record {
          few = omega (arith, ltb→lt _ _ more);
          full = v.full;
          whole = v.whole;
          numbered = v.numbered;
          acks = v.acks;
        }))
  | inr over ↦ rw over (record { whole = v.whole; acks = v.acks })
]

module _ (n : ℕ) (s : Get) (low : 4 ≤ n) (high : n ≤ buffer_size) (v : IsValid s) where
  abbrev block_num : ℕ
  block_num = get_u16 s.buffer 2

  abbrev blocks : ℕ
  blocks = length s.written / block_size

  abbrev longer : Bytes
  longer = s.written ++ take (n - 4) (drop 4 s.buffer)

  length-longer : length longer ≡ length s.written + (n - 4)
  length-longer = omega (
    arith,
    length-append s.written (take (n - 4) (drop 4 s.buffer)),
    length-take (n - 4) (drop 4 s.buffer),
    length-drop 4 s.buffer,
    v.full,
  )

  abbrev acknowledged : List Sent
  acknowledged = s.out ++ datagram (peer s.from_addr) (ack_packet block_num) ∷ []

  -- The awaited block has a number that is at most one above the blocks written.
  acks_awaited :
      block_num ≡ s.expected_block → (k : ℕ) → blocks + 1 ≤ k → All (AcksUpTo k) acknowledged
  acks_awaited same k le =
      acks_more blocks k block_num s.from_addr s.out (omega arith) (omega (arith, v.numbered))
        v.acks

  get_data-IsSafe : IsSafe (get_data n s)
  unfolding get_data
  get_data-IsSafe = elim (Bool-cases (block_num == s.expected_block)) [
    | inl same ↦
        let same' = (==_iff block_num s.expected_block).0 same in
        rw (same, le→ltb n 4 low)
          (elim (Bool-cases (ltb (n - 4) block_size)) [
            | inl short ↦ rw short (record {
              counted = omega (arith, v.numbered, v.whole, length-longer, ltb→lt _ _ short);
              acks = acks_awaited same' _ (omega (arith, length-longer, ltb→lt _ _ short));
            })
            | inr long ↦ rw long (record {
              few = v.few;
              full = v.full;
              whole = omega (arith, v.whole, length-longer, ltb_false→le _ _ long);
              numbered = omega (arith, v.numbered, v.whole, length-longer, ltb_false→le _ _ long);
              acks = acks_awaited same' _ (omega (arith, length-longer, ltb_false→le _ _ long));
            })
          ])
    | inr other ↦ rw other (elim (Bool-cases (ltb block_num s.expected_block)) [
      | inl old ↦
          rw old (send_ack-IsValid s block_num (omega (arith, v.numbered, ltb→lt _ _ old)) v)
      | inr new ↦ rw new v
    ])
  ]

get_packet-IsSafe :
    (n : ℕ) (s : Get)
    → 4 ≤ n
    → n ≤ buffer_size
    → ((get_u16 s.buffer 0 == op_error) ≡ true → has_nul (drop 4 s.buffer) ≡ true)
    → IsValid s
    → IsSafe (get_packet n s)
unfolding get_packet
get_packet-IsSafe n s low high ended v = elim (Bool-cases (get_u16 s.buffer 0 == op_error)) [
  | inl error ↦ rw (error, ended error) (record { whole = v.whole; acks = v.acks })
  | inr other ↦ rw other (elim (Bool-cases (get_u16 s.buffer 0 == op_data)) [
    | inl block ↦ rw block (get_data-IsSafe n s low high v)
    | inr unknown ↦ rw unknown v
  ])
]

-- A datagram that has its header, and fits, keeps the state safe.
get_step-IsSafe : (e : Event) (s : Get) → IsSized e → IsValid s → IsSafe (get_step e s)
unfolding get_step
get_step-IsSafe (packet from d) s (low, w) v =
    get_packet-IsSafe (length d) _ low w.fits (IsWellFormed-has_nul d s.buffer w) (record {
      few = omega arith;
      full = length-overlay d s.buffer (omega (arith, v.full, w.fits)) ∙ v.full;
      whole = v.whole;
      numbered = v.numbered;
      acks = v.acks;
    })
get_step-IsSafe timed_out s sized v = get_timed_out-IsSafe s v
get_step-IsSafe failed s sized v = record { whole = v.whole; acks = v.acks }

>>=-IsSafe :
    (o : Outcome Get) (f : Get → Outcome Get)
    → ((t : Get) → IsValid t → IsSafe (f t))
    → IsSafe o
    → IsSafe (o >>= f)
>>=-IsSafe (continues t) f next h = next t h
>>=-IsSafe (succeeds t) f next h = h
>>=-IsSafe (fails t) f next h = h
>>=-IsSafe faults f next h = h

pub get_run-IsSafe :
    (es : List Event) (s : Get) → All IsSized es → IsValid s → IsSafe (get_run s es)
unfolding get_run
get_run-IsSafe [] s sized v = v
get_run-IsSafe (e ∷ es) s sized v =
    >>=-IsSafe (get_step e s) _ (λ t h. get_run-IsSafe es t sized.1 h)
      (get_step-IsSafe e s sized.0 v)
