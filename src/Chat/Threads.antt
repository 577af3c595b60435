-- ===== src/Chat/Threads.antt =====
-- multithread-chatroom-server.cpp: one thread per client, with the sockets of all clients in an array
-- behind a mutex. Each call that holds the mutex is one step.
pub mod Slots
pub mod Invariant
pub mod Delivery
use network_programming_lab.Prelude.{
  ℕ, zero, suc, ◌+◌, ◌≤◌, ◌<◌, Bool, true, false, not, ◌&&◌, List, [], ◌∷◌, ◌++◌, ◌≡◌, ◌≢◌, Option,
  none, some, All, Bytes, length, take, replicate, get_elem?, set, ltb, ◌==◌, if◌then◌else◌,
}
use network_programming_lab.Sockets.Start as Start
use network_programming_lab.Sockets.Start.{
  Call, socket, setsockopt, bind, listen, close, Started, attempt, unchecked,
}

abbrev pub array_size : ℕ
array_size = 1024

-- `g_sockets` and `g_count`; a slot is 0 if its client has gone.
pub record Room : Type 0 where
  pub g_sockets : List ℕ
  pub g_count : ℕ

abbrev pub empty_room : Room
empty_room = record { g_sockets = replicate array_size 0; g_count = 0 }

-- `main` with the mutex: the room, and the index that the thread is given. `none` is a write past the
-- end of the array.
unfoldable pub join : ℕ → Room → Option (Room × ℕ)
join client_socket r =
    if ltb r.g_count array_size
    then some (
      record r { g_sockets = set r.g_sockets r.g_count client_socket; g_count = r.g_count + 1 },
      r.g_count,
    )
    else none

-- The loop of `client_handler` with the mutex: the sockets that the message is sent to.
unfoldable pub recipients : ℕ → List ℕ → List ℕ
recipients client_socket [] = []
recipients client_socket (slot ∷ slots) =
    let onward = recipients client_socket slots in
    if not (slot == 0) && not (slot == client_socket) then slot ∷ onward else onward

unfoldable pub broadcast : ℕ → Room → List ℕ
broadcast client_socket r = recipients client_socket (take r.g_count r.g_sockets)

unfoldable pub leave : ℕ → Room → Room
leave client_index r = record r { g_sockets = set r.g_sockets client_index 0 }

-- Where a thread is: in its loop, between the mutex and `close`, or behind `close`.
pub data Phase : Type 0 where
  serving hung_up closed : Phase

pub record Handler : Type 0 where
  pub client_socket : ℕ
  pub client_index : ℕ
  pub phase : Phase

-- The threads in the order in which they were started, and what has been handed to `send`.
pub record Server : Type 0 where
  pub room : Room
  pub handlers : List Handler
  pub sent : List (ℕ × Bytes)

abbrev pub start : Server
start = record { room = empty_room; handlers = []; sent = [] }

unfoldable pub to_all : List ℕ → Bytes → List (ℕ × Bytes)
to_all [] message = []
to_all (d ∷ ds) message = (d, message) ∷ to_all ds message

started : ℕ → Server → Option (Room × ℕ) → Option Server
started client_socket s none = none
started client_socket s (some (r, current_index)) = some (record s {
  room = r;
  handlers =
      s.handlers
      ++ record { client_socket = client_socket; client_index = current_index; phase = serving }
        ∷ [];
})

-- A round of `main`, for a descriptor that `accept` has returned.
unfoldable pub accept_client : ℕ → Server → Option Server
unfolding started
accept_client client_socket s = started client_socket s (join client_socket s.room)

-- The phase of the thread with a number.
unfoldable pub set_phase : Phase → ℕ → List Handler → List Handler
set_phase p i [] = []
set_phase p zero (h ∷ hs) = record h { phase = p } ∷ hs
set_phase p (suc i) (h ∷ hs) = h ∷ set_phase p i hs

-- A round of `client_handler` in the thread `h`, the one with number `i`, for what `recv` has put into
-- the buffer: nothing if the client has gone.
unfoldable pub receive : ℕ → Handler → Bytes → Server → Server
receive i h [] s = record s {
  room = leave h.client_index s.room;
  handlers = set_phase hung_up i s.handlers;
}
receive i h (c ∷ cs) s = record s {
  sent = s.sent ++ to_all (broadcast h.client_socket s.room) (c ∷ cs);
}

-- `close` in the thread with number `i`.
unfoldable pub close_socket : ℕ → Server → Server
close_socket i s = record s { handlers = set_phase closed i s.handlers }

abbrev pub is_closed : Phase → Bool
is_closed closed = true
is_closed _ = false

-- A descriptor that no thread has open.
abbrev pub IsFresh : ℕ → List Handler → Type 0
IsFresh d [] = Unit {0}
IsFresh d (h ∷ hs) = (is_closed h.phase ≡ false → h.client_socket ≢ d) × IsFresh d hs

-- One step of the process. `accept` returns a descriptor that is not open, and none below 1 while the
-- standard input is.
pub data Step (s t : Server) : Type 0 where
  accepts : (d : ℕ) → 0 < d → IsFresh d s.handlers → accept_client d s ≡ some t → Step s t
  receives :
      (i : ℕ) (h : Handler) (message : Bytes)
      → get_elem? s.handlers i ≡ some h
      → h.phase ≡ serving
      → t ≡ receive i h message s
      → Step s t
  closes :
      (i : ℕ) (h : Handler)
      → get_elem? s.handlers i ≡ some h
      → h.phase ≡ hung_up
      → t ≡ close_socket i s
      → Step s t

pub data Reach : Server → Type 0 where
  here : Reach start
  next : {s t : Server} → Reach s → Step s t → Reach t

-- How the socket is opened; it is not looked at whether there is one.
unfoldable pub set_up : (Call → Bool) → Started
unfolding attempt unchecked
set_up works = unchecked socket (
    unchecked setsockopt
      (attempt works (bind 9999) (close ∷ []) (unchecked (listen 10) Start.started)))
