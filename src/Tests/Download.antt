-- ===== src/Tests/Download.antt =====
-- The TFTP client on a short exchange.
use network_programming_lab.Prelude.{
  true, some, none, List, [], ◌∷◌, ◌++◌, ◌≡◌, refl, arith, Bytes, codes, replicate,
}
use network_programming_lab.Tftp.Link.{
  Event, packet, timed_out, datagram, peer, continues, succeeds, fails, faults,
}
use network_programming_lab.Tftp.Wire.{data_packet, ack_packet, put_u16, send_error, op_error}
use network_programming_lab.Tftp.Wire.{has_nul}
use network_programming_lab.Tftp.Wire.Messages.{IsWellFormed}
use network_programming_lab.Tftp.Get.{Get, requested, get_run, get_step, tftp_get}
use network_programming_lab.Tftp.Get.Delivery.{Delivers}
use network_programming_lab.Tftp.Get.Download.{tftp_get-Delivers, tftp_get-IsSafe, get_run_runt}
use network_programming_lab.Tftp.Get.Invariant
use network_programming_lab.Tftp.Get.Silence.{get_silence_ends}

abbrev zeros : Bytes
zeros = replicate 516 0

abbrev full_block : Bytes
full_block = replicate 512 b'x'

abbrev tail : Bytes
tail = codes "end"

abbrev name : Bytes
name = codes "a.txt"

-- The server sends block 1, repeats it, is silent once, and sends block 2.
abbrev download : List Event
download =
    packet 7 (data_packet 1 full_block)
    ∷ packet 7 (data_packet 1 full_block)
    ∷ timed_out
    ∷ packet 7 (data_packet 2 tail)
    ∷ []

abbrev delivery : Delivers 1 0 (full_block ++ tail) download
delivery = Delivers.block 7 refl refl (
    Delivers.noise 7
      (λ buffer h. record {
        fits = omega arith;
        not_error = omega arith;
        not_awaited = λ _. omega arith;
      })
      (Delivers.timeout (omega arith) (Delivers.last 7 (omega arith))))

tftp_get-Delivers_example :
    (t : Get) × (tftp_get true true name zeros download ≡ succeeds t)
    × (t.written ≡ full_block ++ tail)
tftp_get-Delivers_example =
    tftp_get-Delivers name zeros refl (omega arith) (full_block ++ tail) download delivery

abbrev refusal : Bytes
refusal = put_u16 op_error ++ (put_u16 1 ++ (codes "no such file" ++ 0 ∷ []))

-- The server sends block 1 and gives up.
abbrev given_up : List Event
given_up = packet 7 (data_packet 1 full_block) ∷ packet 7 refusal ∷ []

block-IsWellFormed : IsWellFormed (data_packet 1 full_block)
block-IsWellFormed = record {
  has_opcode = omega arith;
  fits = omega arith;
  ended = λ error. absurd (omega (arith, error));
}

refusal-IsWellFormed : IsWellFormed refusal
refusal-IsWellFormed = record {
  has_opcode = omega arith;
  fits = omega arith;
  ended = λ error. unfold has_nul in refl;
}

tftp_get-IsSafe_example : Invariant.IsSafe (tftp_get true true name zeros given_up)
tftp_get-IsSafe_example =
    tftp_get-IsSafe name zeros refl (omega arith) true true given_up
      ((omega arith, block-IsWellFormed), ((omega arith, refusal-IsWellFormed), tt))

-- The state in which the loop begins.
abbrev waiting : Get
waiting = requested zeros 14

-- A message that is not ended is read past the end of the buffer.
reads_on : get_run waiting (packet 7 (put_u16 op_error ++ replicate 514 b'x') ∷ []) ≡ faults
unfolding get_run get_step has_nul
reads_on = refl

after_timeout :
    get_run waiting (timed_out ∷ [])
    ≡ continues (record waiting {
      retries = 1;
      out = waiting.out ++ datagram (peer none) (ack_packet 0) ∷ [];
    })
unfolding get_run get_step
after_timeout = refl

get_silence_ends_example :
    get_run waiting (replicate 5 timed_out ++ timed_out ∷ [])
    ≡ fails (record waiting {
      retries = 6;
      out = waiting.out ++ replicate 5 (datagram (peer none) (ack_packet 0));
    })
get_silence_ends_example = get_silence_ends 5 waiting [] refl

get_run_runt_example :
    get_run waiting (packet 7 (put_u16 9 ++ put_u16 1) ∷ packet 7 (put_u16 3) ∷ []) ≡ faults
get_run_runt_example = get_run_runt waiting 7 [] (omega arith)

refusal_sent : send_error 1 (codes "no such file") ≡ some refusal
unfolding send_error
refusal_sent = refl
