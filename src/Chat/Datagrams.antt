-- ===== src/Chat/Datagrams.antt =====
-- multiple-client-udp-server.cpp: who is known to the server, and what it sends on.
pub mod Senders
use network_programming_lab.Prelude.{
  ℕ, Bool, true, false, not, ◌&&◌, List, [], ◌∷◌, ◌++◌, Option, none, some, Bytes, codes, take,
  ◌==◌, if◌then◌else◌,
}
use network_programming_lab.Scanf.{c_string}
use network_programming_lab.Decimal.{decimal}
use network_programming_lab.Sockets.Start.{Call, socket, bind, close, Started, started, attempt}

-- `ClientInfo`, as far as it is compared.
pub record ClientInfo : Type 0 where
  pub s_addr : ℕ
  pub sin_port : ℕ

abbrev pub is_client : ClientInfo → ClientInfo → Bool
is_client a b = a.s_addr == b.s_addr && a.sin_port == b.sin_port

-- `std::find`, and `push_back` if it finds nothing.
unfoldable pub knows : ClientInfo → List ClientInfo → Bool
knows c [] = false
knows c (d ∷ ds) = let onward = knows c ds in if is_client d c then true else onward

unfoldable pub remember : ClientInfo → List ClientInfo → List ClientInfo
remember c clients = if knows c clients then clients else clients ++ c ∷ []

-- `std::string(buffer)` behind the sender's address, of which `inet_ntop` writes the first part.
unfoldable pub message : (ℕ → Bytes) → ClientInfo → Bytes → Bytes
message inet_ntop c buffer =
    codes "["
    ++ (inet_ntop c.s_addr
        ++ (codes ":" ++ (decimal c.sin_port ++ (codes "] " ++ c_string buffer))))

-- The loop over the clients.
unfoldable pub recipients : ClientInfo → List ClientInfo → List ClientInfo
recipients c [] = []
recipients c (d ∷ ds) = let onward = recipients c ds in if is_client d c then onward else d ∷ onward

-- What `recvfrom` does: fail, or give a datagram of at most 4095 bytes and its sender.
pub data Event : Type 0 where
  fails : Event
  datagram : ClientInfo → Bytes → Event

-- The clients, and what has been handed to `sendto`: a message and those it goes to.
pub record Server : Type 0 where
  pub clients : List ClientInfo
  pub sent : List (Bytes × List ClientInfo)

abbrev pub start : Server
start = record { clients = []; sent = [] }

unfoldable pub step : (ℕ → Bytes) → Event → Server → Server
step inet_ntop fails s = s
step inet_ntop (datagram c buffer) s =
    let clients = remember c s.clients in
    record {
      clients = clients;
      sent = s.sent ++ (message inet_ntop c (take 4095 buffer), recipients c clients) ∷ [];
    }

unfoldable pub run : (ℕ → Bytes) → List Event → Server → Server
run inet_ntop [] s = s
run inet_ntop (e ∷ es) s = run inet_ntop es (step inet_ntop e s)

-- How the socket is opened.
unfoldable pub set_up : (Call → Bool) → Started
unfolding attempt
set_up works = attempt works socket [] (attempt works (bind 5000) (close ∷ []) started)
