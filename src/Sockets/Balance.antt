-- ===== src/Sockets/Balance.antt =====
-- A program that cannot open its socket in full leaves none open.
use network_programming_lab.Prelude.{ℕ, Bool, true, ◌≡◌, arith}
use network_programming_lab.Sockets.Start.{Call, socket, attempt, unchecked, Balanced, WsaBalanced}
use network_programming_lab.Sockets.Greeter as Greeter
use network_programming_lab.Sockets.Shell as Shell
use network_programming_lab.Sockets.Echo.{server_set_up, client_set_up}
use network_programming_lab.Sockets.Relay as Relay
use network_programming_lab.Chat.Threads as Threads
use network_programming_lab.Chat.Processes as Processes
use network_programming_lab.Chat.Datagrams as Datagrams
use network_programming_lab.HttpServer.Main as HttpMain
use network_programming_lab.FileShare.Opening.{broadcast_calls}

-- Whichever of their system calls fail, the TCP server, the shell server, the two halves of the
-- UDP program, the netcat client for any port, the UDP chat server and the HTTP server leave no
-- socket open if they give up, and exactly one if they go on; and the HTTP server then has Winsock
-- started, and only then. A broadcast of the file sharing program leaves no socket open.
pub set_up-Balanced :
    (works : Call → Bool) (port : ℕ)
    → Balanced works (Greeter.set_up works)
      × Balanced works (Shell.set_up works)
      × Balanced works (server_set_up works)
      × Balanced works (client_set_up works)
      × Balanced works (Relay.set_up port works)
      × Balanced works (Datagrams.set_up works)
      × Balanced works (HttpMain.set_up works)
      × WsaBalanced works (HttpMain.set_up works)
      × Balanced works (broadcast_calls works)
unfolding Greeter.set_up Shell.set_up server_set_up client_set_up Relay.set_up Datagrams.set_up
    HttpMain.set_up broadcast_calls attempt unchecked
set_up-Balanced works port = (
  ground arith,
  ground arith,
  ground arith,
  ground arith,
  ground arith,
  ground arith,
  ground arith,
  ground arith,
  ground arith,
)

-- The two chat rooms over TCP do not look at the answer of `socket`.
set_up-Balanced_of_socket :
    (works : Call → Bool)
    → works socket ≡ true
    → Balanced works (Threads.set_up works) × Balanced works (Processes.set_up works)
unfolding Threads.set_up Processes.set_up attempt unchecked
set_up-Balanced_of_socket works h = (ground arith, ground arith)
