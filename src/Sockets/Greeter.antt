-- ===== src/Sockets/Greeter.antt =====
-- simple-tcp-server.cpp, `main`.
use network_programming_lab.Prelude.{
  Bool, List, [], ◌∷◌, Option, none, some, Bytes, codes, length, take, ◌==◌, if◌then◌else◌,
}
use network_programming_lab.Scanf.{c_string}
use network_programming_lab.Sockets.Start.{
  Call, socket, setsockopt, bind, listen, close, Started, started, attempt,
}

unfoldable pub set_up : (Call → Bool) → Started
unfolding attempt
set_up works = attempt works socket [] (
    attempt works setsockopt (close ∷ [])
      (attempt works (bind 8888) (close ∷ []) (attempt works (listen 5) (close ∷ []) started)))

abbrev pub welcome_msg : Bytes
welcome_msg = codes "Welcome to my first TCP server!\n"

-- What is sent to a client, and what is printed of its one message; an empty message stands for any
-- answer of `recv` that is not positive.
unfoldable pub serve : Bytes → Bytes × Option Bytes
serve message =
    (welcome_msg, if length message == 0 then none else some (c_string (take 1023 message)))

-- A connection: `accept` fails, or gives a client that says something.
pub data Arrival : Type 0 where
  fails : Arrival
  client : Bytes → Arrival

unfoldable pub serve_all : List Arrival → List (Bytes × Option Bytes)
serve_all [] = []
serve_all (fails ∷ arrivals) = serve_all arrivals
serve_all (client message ∷ arrivals) = serve message ∷ serve_all arrivals
