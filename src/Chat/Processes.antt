-- ===== src/Chat/Processes.antt =====
-- tcl-chatroom-server.cpp: one process per client, with the descriptors of all clients in shared
-- memory. A descriptor is a number of the process that has it open; the parent closes its own behind
-- each `fork`.
pub mod Silence
pub mod Signals
use network_programming_lab.Prelude.{
  ℕ, zero, suc, ◌+◌, ◌≤◌, ◌<◌, Bool, true, false, not, ◌&&◌, List, [], ◌∷◌, ◌++◌, Option, none,
  some, Bytes, length, take, drop, replicate, get_elem?, set, ltb, ◌==◌, if◌then◌else◌,
}
use network_programming_lab.Sockets.Start.{
  Call, socket, bind, listen, close, Started, started, attempt, unchecked,
}

abbrev pub max_clients : ℕ
max_clients = 1024

-- A descriptor as `accept` returns it; `none` is -1.
abbrev pub Socket : Type 0
Socket = Option ℕ

pub record SharedData : Type 0 where
  pub sockets : List Socket
  pub count : ℕ

-- `sockets[i] != my_socket && sockets[i] > 0`
unfoldable pub is_other : ℕ → Socket → Bool
is_other my_socket none = false
is_other my_socket (some d) = not (d == my_socket) && not (d == 0)

-- The loop over the sockets, in a child that has received something: those that it is sent to.
unfoldable pub recipients : ℕ → List Socket → List Socket
recipients my_socket [] = []
recipients my_socket (d ∷ ds) =
    let onward = recipients my_socket ds in if is_other my_socket d then d ∷ onward else onward

unfoldable pub is_mine : Socket → Socket → Bool
is_mine none none = true
is_mine (some a) (some b) = a == b
is_mine _ _ = false

-- The loop in a child whose client has gone: the first slot with its descriptor becomes -1.
unfoldable pub forget : Socket → List Socket → List Socket
forget my_socket [] = []
forget my_socket (d ∷ ds) =
    let onward = forget my_socket ds in if is_mine d my_socket then none ∷ ds else d ∷ onward

-- A child: the descriptor that it was forked with, and whether it still runs.
pub record Child : Type 0 where
  pub my_socket : Socket
  pub runs : Bool

-- The parent's open descriptors, what is shared, the children, and what they have handed to `send`.
pub record Server : Type 0 where
  pub open_descriptors : List ℕ
  pub g_shared : SharedData
  pub children : List Child
  pub sent : List (Socket × Bytes)

abbrev pub start : List ℕ → Server
start open_descriptors = record {
  open_descriptors = open_descriptors;
  g_shared = record { sockets = replicate max_clients (some 0); count = 0 };
  children = [];
  sent = [];
}

-- Events: `accept` returns a descriptor or fails; a child with a number receives bytes, or nothing.
pub data Event : Type 0 where
  connects : Event
  accept_fails : Event
  says : ℕ → Bytes → Event

-- The parent's descriptors behind `accept`, and behind `close`.
abbrev pub opened : Socket → List ℕ → List ℕ
opened none ds = ds
opened (some d) ds = d ∷ ds

abbrev pub erase : ℕ → List ℕ → List ℕ
erase d [] = []
erase d (e ∷ ds) = let onward = erase d ds in if e == d then ds else e ∷ onward

abbrev pub closed : Socket → List ℕ → List ℕ
closed none ds = ds
closed (some d) ds = erase d ds

-- A round of the parent for what `accept` has returned: the descriptor is stored, a child is forked,
-- and the parent's copy is closed. `none` is a write past the end of the array.
unfoldable pub fork_child : Socket → Server → Option Server
fork_child d s =
    let shared = s.g_shared in
    if ltb shared.count max_clients
    then some (record s {
      open_descriptors = closed d (opened d s.open_descriptors);
      g_shared = record { sockets = set shared.sockets shared.count d; count = shared.count + 1 };
      children = s.children ++ record { my_socket = d; runs = true } ∷ [];
    })
    else none

unfoldable pub stop_child : ℕ → List Child → List Child
stop_child i [] = []
stop_child zero (c ∷ cs) = record c { runs = false } ∷ cs
stop_child (suc i) (c ∷ cs) = c ∷ stop_child i cs

unfoldable pub to_all : List Socket → Bytes → List (Socket × Bytes)
to_all [] message = []
to_all (d ∷ ds) message = (d, message) ∷ to_all ds message

-- The end of a child: the first `count` sockets are looked through.
unfoldable pub child_leaves : ℕ → Socket → Server → Server
child_leaves i my_socket s =
    let shared = s.g_shared in
    record s {
      g_shared = record shared {
        sockets =
            forget my_socket (take shared.count shared.sockets) ++ drop shared.count shared.sockets;
      };
      children = stop_child i s.children;
    }

-- A round of a child: `recv` on -1 fails, and else puts the bytes into the buffer, none if the client
-- has gone.
unfoldable pub child_round : ℕ → Socket → Bytes → Server → Server
child_round i none message s = child_leaves i none s
child_round i (some d) [] s = child_leaves i (some d) s
child_round i (some d) (c ∷ cs) s =
    let shared = s.g_shared in
    record s { sent = s.sent ++ to_all (recipients d (take shared.count shared.sockets)) (c ∷ cs) }

child_at : ℕ → Bytes → Server → Option Child → Server
child_at i message s none = s
child_at i message s (some c) = if c.runs then child_round i c.my_socket message s else s

-- What one event does. `lowest_free` is the descriptor that `accept` returns, by those that are open.
unfoldable pub step : (List ℕ → ℕ) → Event → Server → Option Server
unfolding child_at
step lowest_free connects s = fork_child (some (lowest_free s.open_descriptors)) s
step lowest_free accept_fails s = fork_child none s
step lowest_free (says i message) s = some (child_at i message s (get_elem? s.children i))

run_on : (List ℕ → ℕ) → (Server → Option Server) → Option Server → Option Server
run_on lowest_free rest none = none
run_on lowest_free rest (some s) = rest s

unfoldable pub run : (List ℕ → ℕ) → List Event → Server → Option Server
unfolding run_on
run lowest_free [] s = some s
run lowest_free (e ∷ es) s = run_on lowest_free (run lowest_free es) (step lowest_free e s)

-- How the socket is opened; it is not looked at whether there is one.
unfoldable pub set_up : (Call → Bool) → Started
unfolding attempt unchecked
set_up works =
    unchecked socket (attempt works (bind 8888) (close ∷ []) (unchecked (listen 10) started))
