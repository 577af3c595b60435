-- ===== src/Tests/Chatting.antt =====
-- The three chat rooms with a few clients.
use network_programming_lab.Prelude.{
  false, ℕ, true, not, ◌&&◌, List, [], ◌∷◌, ◌++◌, ◌≡◌, ◌↔◌, refl, arith, none, some, Bytes, codes,
  length, set, replicate, ◌==◌, if◌then◌else◌,
}
use network_programming_lab.Decimal.{decimal, digits_of}
use network_programming_lab.Scanf.{c_string}
use network_programming_lab.Chat.Threads.{
  array_size, Handler, Server, serving, start, accept_client, join, receive, to_all, Reach, here,
  next, Step, accepts,
}
use network_programming_lab.Chat.Threads.Delivery.{others, broadcast-others, accept_client-none_iff}
use network_programming_lab.Chat.Processes as Processes
use network_programming_lab.Chat.Processes.Signals.{
  sigint, sigchld, my_signal, sig_handler, Group, Happening, happens, at_parent, at_child,
  step_group, run_group, run_group-silent,
}
use network_programming_lab.Chat.Datagrams as Datagrams
use network_programming_lab.Chat.Datagrams.{ClientInfo, is_client, knows}
use network_programming_lab.Chat.Datagrams.Senders.{times, step-everyone}

abbrev first : Handler
first = record { client_socket = 4; client_index = 0; phase = serving }

abbrev second : Handler
second = record { client_socket = 5; client_index = 1; phase = serving }

abbrev one_client : Server
one_client = record {
  room = record { g_sockets = set (replicate array_size 0) 0 4; g_count = 1 };
  handlers = first ∷ [];
  sent = [];
}

abbrev two_clients : Server
two_clients = record {
  room = record { g_sockets = set (set (replicate array_size 0) 0 4) 1 5; g_count = 2 };
  handlers = first ∷ second ∷ [];
  sent = [];
}

first_step : Step start one_client
unfolding accept_client join
first_step = accepts 4 (omega arith) tt refl

second_step : Step one_client two_clients
unfolding accept_client join
second_step = accepts 5 (omega arith) (λ open_ same. absurd (omega arith), tt) refl

two_clients-Reach : Reach two_clients
two_clients-Reach = next (next here first_step) second_step

broadcast-others_example :
    receive 1 second (codes "hi") two_clients
    ≡ record two_clients { sent = [] ++ to_all (others 1 (first ∷ second ∷ [])) (codes "hi") }
broadcast-others_example =
    broadcast-others {s = two_clients} 1 second b'h' (codes "i") two_clients-Reach refl refl

accept_client-none_iff_example :
    (accept_client 6 two_clients ≡ none) ↔ (length two_clients.handlers ≡ array_size)
accept_client-none_iff_example = accept_client-none_iff {s = two_clients} 6 two_clients-Reach

-- The lowest number that is not among three open descriptors and a fourth.
abbrev lowest_free : List ℕ → ℕ
lowest_free open_descriptors = if length open_descriptors == 4 then 4 else 5

abbrev standard : List ℕ
standard = 0 ∷ 1 ∷ 2 ∷ 3 ∷ []

abbrev talk : List Processes.Event
talk = Processes.connects ∷ Processes.connects ∷ Processes.says 0 (codes "hi") ∷ []

abbrev after_talk : Processes.Server
after_talk = record {
  open_descriptors = standard;
  g_shared = record {
    sockets = set (set (replicate Processes.max_clients (some 0)) 0 (some 4)) 1 (some 4);
    count = 2;
  };
  children =
      record { my_socket = some 4; runs = true } ∷ record { my_socket = some 4; runs = true } ∷ [];
  sent = [];
}

talks : Processes.run lowest_free talk (Processes.start standard) ≡ some after_talk
unfolding Processes.run Processes.step Processes.fork_child Processes.child_round
    Processes.recipients Processes.is_other Processes.to_all
talks = refl

-- The second child is interrupted, and then the parent, which takes no more clients.
abbrev interrupted : List Happening
interrupted =
    happens Processes.connects
    ∷ at_parent my_signal
    ∷ happens Processes.connects
    ∷ at_child 1 sigint
    ∷ at_parent sigchld
    ∷ happens (Processes.says 0 (codes "hi"))
    ∷ at_parent sigint
    ∷ happens Processes.connects
    ∷ []

abbrev after_interrupts : Group
after_interrupts = record {
  server = record after_talk {
    children =
        record { my_socket = some 4; runs = true }
        ∷ record { my_socket = some 4; runs = false }
        ∷ [];
  };
  parent_runs = false;
}

all_interrupted :
    run_group lowest_free interrupted
      (record { server = Processes.start standard; parent_runs = true })
    ≡ some after_interrupts
unfolding run_group step_group sig_handler Processes.step Processes.fork_child Processes.child_round
    Processes.stop_child Processes.recipients Processes.is_other Processes.to_all
all_interrupted = refl

run_group-silent_example : after_interrupts.server.sent ≡ []
run_group-silent_example =
    run_group-silent lowest_free standard interrupted after_interrupts all_interrupted

abbrev ann : ClientInfo
ann = record { s_addr = 16777343; sin_port = 40000 }

abbrev bob : ClientInfo
bob = record { s_addr = 16777343; sin_port = 40001 }

abbrev loopback : ℕ → Bytes
loopback s_addr = codes "127.0.0.1"

abbrev datagrams : List Datagrams.Event
datagrams = Datagrams.datagram ann (codes "hi") ∷ Datagrams.fails ∷ []

names_sender : Datagrams.message loopback ann (codes "hi") ≡ codes "[127.0.0.1:40000] hi"
unfolding Datagrams.message decimal digits_of c_string
names_sender = refl

step-everyone_example :
    (to : List ClientInfo) × ((Datagrams.step loopback
        (Datagrams.datagram bob (codes "yes"))
        (Datagrams.run loopback datagrams Datagrams.start)).sent
      ≡ (Datagrams.run loopback datagrams Datagrams.start).sent
        ++ (Datagrams.message loopback bob (codes "yes"), to) ∷ [])
    × ((d : ClientInfo)
        → (times d to ≡ (if not (is_client bob d) && knows d (ann ∷ []) then 1 else 0))
          × ((is_client bob d ≡ true) ↔ (bob ≡ d)))
step-everyone_example = step-everyone loopback datagrams bob (codes "yes")
