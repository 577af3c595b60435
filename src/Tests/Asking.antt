-- ===== src/Tests/Asking.antt =====
-- Commands of a client of the file sharing programs that get no answer.
use network_programming_lab.Prelude.{
  ℕ, ◌+◌, Bool, true, not, List, [], ◌∷◌, map, ◌==◌, ◌≡◌, ◌≢◌, refl, arith, none, some, Bytes,
  codes,
}
use network_programming_lab.FileShare.Transfer.{send_port}
use network_programming_lab.FileShare.Client.{show_all}
use network_programming_lab.FileShare.Client.Ports.{
  Line, round_at, all_unanswered, show_all-unanswered,
}

-- Every port can be bound but the one that the child has.
abbrev other_ports : ℕ → Bool
other_ports port = not (port == send_port)

abbrev source_port : ℕ
source_port = 40000

-- A line whose answer is sent to the port of the socket that broadcast it.
abbrev ask : Bytes → Line
ask input = record {
  input = input;
  from_port = source_port;
  answer = some (codes "127.0.0.1 41000");
  file = λ name. none;
  connects = λ address. true;
}

abbrev lines : List Line
lines = ask (codes "SEND note ann") ∷ ask (codes "HELP") ∷ ask (codes "LIST") ∷ []

show_all-unanswered_example : show_all (map (round_at other_ports) lines) ≡ all_unanswered lines
show_all-unanswered_example =
    show_all-unanswered other_ports lines refl (elsewhere, (elsewhere, (elsewhere, tt)))
  where
    elsewhere : source_port ≢ send_port + 1000
    elsewhere h = absurd (omega (arith, h))
