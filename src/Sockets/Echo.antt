-- ===== src/Sockets/Echo.antt =====
-- simple-udp-client-and-server.cpp.
use network_programming_lab.Prelude.{
  ℕ, ◌≤◌, Bool, List, [], ◌∷◌, ◌++◌, ◌≡◌, ◌≢◌, refl, arith, Option, none, some, All-append,
  All-take, Bytes, codes, length, take, take-eq_of_le, length-take, if◌then◌else◌,
}
use network_programming_lab.Strcmp.{texts_agree}
use network_programming_lab.Scanf.{c_string}
use network_programming_lab.FileServer.Reader.{HasNoNul, c_string-eq}
use network_programming_lab.Sockets.Start.{Call, socket, bind, close, Started, started, attempt}

unfoldable pub server_set_up : (Call → Bool) → Started
unfolding attempt
server_set_up works = attempt works socket [] (attempt works (bind 5000) (close ∷ []) started)

unfoldable pub client_set_up : (Call → Bool) → Started
unfolding attempt
client_set_up works = attempt works socket [] (attempt works (bind 6000) (close ∷ []) started)

-- An address, as `struct sockaddr_in` holds it.
pub record Address : Type 0 where
  pub s_addr : ℕ
  pub sin_port : ℕ

-- A datagram: who it is from or who it is for, and its bytes.
abbrev pub Datagram : Type 0
Datagram = Address × Bytes

-- The answer of the server to a datagram; `none` is a call of `recvfrom` that fails.
unfoldable pub answer : Option Datagram → Option Datagram
answer none = none
answer (some (client_addr, bytes)) = some (record client_addr { sin_port = 6000 }, take 1023 bytes)

unfoldable pub serve : List (Option Datagram) → List Datagram
serve [] = []
serve (received ∷ rest) = keep (answer received) (serve rest)
  where
    keep : Option Datagram → List Datagram → List Datagram
    keep none sent = sent
    keep (some datagram) sent = datagram ∷ sent

abbrev pub server_addr : Address
server_addr = record { s_addr = 16777343; sin_port = 5000 }

unfoldable pub request : Bytes → Datagram
request line = (server_addr, line ++ b'\n' ∷ [])

-- What a client prints of an answer; `none` is a call of `recvfrom` that fails.
unfoldable pub printed : Option Bytes → Option Bytes
printed none = none
printed (some bytes) = some (codes "Response from server: " ++ c_string (take 1023 bytes))

-- The lines of a client, for each whether `sendto` works and what `recvfrom` then gives: what is sent,
-- and what is printed.
pub record Turn : Type 0 where
  line : Bytes
  is_sent : Bool
  received : Option Bytes

unfoldable pub talk : List Turn → List Datagram × List Bytes
talk [] = ([], [])
talk (turn ∷ turns) =
    let (sent, shown) = talk turns in
    if turn.is_sent
    then (request turn.line ∷ sent, keep (printed turn.received) shown)
    else (sent, shown)
  where
    keep : Option Bytes → List Bytes → List Bytes
    keep none shown = shown
    keep (some text) shown = text ∷ shown

-- How the program is started.
pub data Mode : Type 0 where
  server : Mode
  client : Mode
  both : Mode
  exits : Mode  -- with status 1

unfoldable pub mode_of : List Bytes → Mode
mode_of [] = exits
mode_of (program ∷ []) = exits
mode_of (program ∷ mode ∷ more) =
    if texts_agree mode (codes "server")
    then server
    else if texts_agree mode (codes "client")
    then client
    else if texts_agree mode (codes "both")
    then both
    else exits

-- What comes back of a line that is sent from some address: the line with its newline, cut at the size
-- of the buffers, and it goes to port 6000 of that address.
abbrev sent_back : Address → Bytes → Option Datagram
sent_back from line = answer (some (from, (request line).1))

pub answer-request :
    (from : Address) (line : Bytes)
    → HasNoNul line
    → (back : Bytes) × (sent_back from line ≡ some (record from { sin_port = 6000 }, back))
      × (printed (some back)
          ≡ some (codes "Response from server: " ++ take 1023 (line ++ b'\n' ∷ [])))
unfolding answer request printed
answer-request from line h =
    let text = line ++ b'\n' ∷ [] in
    let clean : HasNoNul text = All-append (λ c. c ≢ 0) line (b'\n' ∷ []) h (omega arith, tt) in
    let short : length (take 1023 text) ≤ 1023 = omega (arith, length-take 1023 text) in
    (
      take 1023 text,
      refl,
      rw
          (
            take-eq_of_le 1023 (take 1023 text) short,
            c_string-eq (take 1023 text) (All-take (λ c. c ≢ 0) 1023 text clean),
          )
          refl,
    )
