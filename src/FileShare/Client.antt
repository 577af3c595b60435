-- ===== src/FileShare/Client.antt =====
-- file-sharing-server-client.cpp, the two loops of `run_client` (lines 112 to 307).
pub mod Ports
use network_programming_lab.Prelude.{ℕ, Bool, List, [], ◌∷◌, Option, none, some, Bytes, ◌>>=◌}
use network_programming_lab.FileShare.Registry.{Clients, read_listing}
use network_programming_lab.FileShare.Transfer.{
  Command, lists, sends, ignored, command, registration, broadcasts, Sending, send_to_target,
  Receiving, receive_offer,
}

-- A line of input, with what `recvfrom` then gives, and how files and connections open.
pub record Round : Type 0 where
  pub input : Bytes
  pub reply : Option Bytes
  pub file : Bytes → Option Bytes
  pub connects : Bytes × ℕ → Bool

-- What the user sees of a round.
pub data Shown : Type 0 where
  shows_listing : Clients → Shown
  shows_sending : Sending → Shown
  shows_nothing : Shown

-- `recvfrom` leaves the buffer of zeros as it is if nothing comes.
abbrev pub received : Option Bytes → Bytes
received none = []
received (some d) = d

unfoldable pub show_command : Round → Command → Option Shown
show_command r lists = do clients ← read_listing (received r.reply); some (shows_listing clients)
show_command r (sends filename target_name) = do
  sending ← send_to_target r.connects (r.file filename) r.reply
  some (shows_sending sending)
show_command r ignored = some shows_nothing

-- The loop of the parent; `none` is undefined behaviour in one of the rounds.
unfoldable pub show_all : List Round → Option (List Shown)
unfolding show_command
show_all [] = some []
show_all (r ∷ rounds) = do
  shown ← show_command r (command r.input)
  rest ← show_all rounds
  some (shown ∷ rest)

broadcast_rounds : List Round → List (Bytes × ℕ)
broadcast_rounds [] = []
broadcast_rounds (r ∷ rounds) = add (broadcasts r.input) (broadcast_rounds rounds)
  where
    add : Option (Bytes × ℕ) → List (Bytes × ℕ) → List (Bytes × ℕ)
    add none sent = sent
    add (some message) sent = message ∷ sent

-- All that the parent broadcasts: its name, and then what its commands ask for.
unfoldable pub broadcast_all : Bytes → List Round → List (Bytes × ℕ)
unfolding broadcast_rounds
broadcast_all my_name rounds = registration my_name ∷ broadcast_rounds rounds

-- A datagram at the child, with the port of its new socket and what comes over the connection.
pub record Offer : Type 0 where
  pub datagram : Bytes
  pub port : ℕ
  pub size_bytes : ℕ
  pub calls : List ℕ
  pub input : Bytes

-- The loop of the child.
unfoldable pub receive_all : Bytes → List Offer → Option (List Receiving)
receive_all my_name [] = some []
receive_all my_name (o ∷ offers) = do
  done ← receive_offer my_name o.port o.size_bytes o.calls o.input o.datagram
  rest ← receive_all my_name offers
  some (done ∷ rest)
