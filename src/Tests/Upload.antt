-- ===== src/Tests/Upload.antt =====
-- An upload on short exchanges, alone and with a download at the other end.
use network_programming_lab.Prelude.{
  ◌<◌, true, some, List, [], ◌∷◌, ◌++◌, ◌≡◌, inr, refl, arith, Bytes, codes, length, replicate,
}
use network_programming_lab.Tftp.Link.{
  Event, packet, timed_out, bad_length, peer, continues, succeeds, fails,
}
use network_programming_lab.Tftp.Wire.{put_u16, op_error, ack_packet, has_nul}
use network_programming_lab.Tftp.Get.{Get, tftp_get}
use network_programming_lab.Tftp.Put.{Put, requested, put_run, tftp_put}
use network_programming_lab.Tftp.Put.Blocks.{data_sent, Carries}
use network_programming_lab.Tftp.Put.Steps.{Acknowledges}
use network_programming_lab.Tftp.Put.Invariant
use network_programming_lab.Tftp.Put.Silence.{put_silence_ends}
use network_programming_lab.Tftp.Wire.Messages.{IsWellFormed}
use network_programming_lab.Tftp.Put.Upload.{tftp_put-Acknowledges, tftp_put-IsSafe}
use network_programming_lab.Tftp.Transfer.{carry, put_get_partial, put_get_whole}

abbrev zeros : Bytes
zeros = replicate 516 0

abbrev full_block : Bytes
full_block = replicate 512 b'x'

abbrev name : Bytes
name = codes "a.txt"

-- The request is lost once; an unrelated acknowledgement comes; the blocks are acknowledged.
abbrev upload : List Event
upload =
    timed_out
    ∷ packet 7 (ack_packet 9)
    ∷ packet 7 (ack_packet 0)
    ∷ packet 7 (ack_packet 1)
    ∷ packet 7 (ack_packet 2)
    ∷ []

abbrev acknowledged :
    (tail : Bytes) → length tail < 512 → Acknowledges 0 0 (full_block ++ tail) upload
acknowledged tail short = Acknowledges.timeout (omega arith) (
    Acknowledges.noise 7
      (λ buffer h. record {
        fits = omega arith;
        not_error = omega arith;
        not_awaited = λ _. omega arith;
      })
      (Acknowledges.block 7 full_block refl refl
        (Acknowledges.last 7 (packet 7 (ack_packet 2)) short)))

abbrev tail : Bytes
tail = codes "end"

tftp_put-Acknowledges_example :
    (t : Put) × (tftp_put (some (full_block ++ tail)) true name zeros upload ≡ succeeds t)
    × Carries 1 (full_block ++ tail) (data_sent t.out)
tftp_put-Acknowledges_example =
    tftp_put-Acknowledges (full_block ++ tail) name zeros refl (omega arith) upload
      (acknowledged tail (omega arith))

-- The first block is asked for, and then the server gives up.
abbrev refusal : Bytes
refusal = put_u16 op_error ++ (put_u16 3 ++ (codes "disk full" ++ 0 ∷ []))

abbrev given_up : List Event
given_up = timed_out ∷ packet 7 (ack_packet 0) ∷ packet 7 refusal ∷ []

ack-IsWellFormed : IsWellFormed (ack_packet 0)
ack-IsWellFormed = record {
  has_opcode = omega arith;
  fits = omega arith;
  ended = λ error. absurd (omega (arith, error));
}

refusal-IsWellFormed : IsWellFormed refusal
refusal-IsWellFormed = record {
  has_opcode = omega arith;
  fits = omega arith;
  ended = λ error. unfold has_nul in refl;
}

tftp_put-IsSafe_example :
    Invariant.IsSafe
      (full_block ++ tail)
      (tftp_put (some (full_block ++ tail)) true name zeros given_up)
tftp_put-IsSafe_example =
    tftp_put-IsSafe (full_block ++ tail) name zeros refl (omega arith) true given_up
      (tt, (ack-IsWellFormed, (refusal-IsWellFormed, tt)))

put_get_partial_example :
    (t : Put) × (u : Get) × (tftp_put (some (full_block ++ tail)) true name zeros upload
      ≡ succeeds t)
    × (tftp_get true true name zeros (carry 8 (data_sent t.out)) ≡ succeeds u)
    × (u.written ≡ full_block ++ tail)
put_get_partial_example =
    put_get_partial (full_block ++ tail) name zeros refl (omega arith) upload
      (acknowledged tail (omega arith)) 8 (omega arith)

put_get_whole_example :
    (t : Put) × (u : Get) × (tftp_put (some (full_block ++ [])) true name zeros upload ≡ succeeds t)
    × (tftp_get true true name zeros (carry 8 (data_sent t.out)) ≡ continues u)
    × (u.written ≡ full_block ++ [])
put_get_whole_example =
    put_get_whole (full_block ++ []) name zeros refl (omega arith) upload
      (acknowledged [] (omega arith)) 8 (omega arith)

-- Block 1 has been sent to peer 7.
abbrev sent_one : Put
sent_one = record (requested [] zeros 14) { block_num = 1; from_addr = some 7 }

put_silence_ends_example :
    put_run sent_one (replicate 5 timed_out ++ timed_out ∷ [])
    ≡ fails (record sent_one {
      retries = 6;
      out = sent_one.out ++ replicate 5 (bad_length (peer (some 7)));
    })
put_silence_ends_example =
    put_silence_ends 5 sent_one (bad_length (peer (some 7))) [] refl (inr (omega arith, refl)) refl
