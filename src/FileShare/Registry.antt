-- ===== src/FileShare/Registry.antt =====
-- file-sharing-server-client.cpp, `run_server` (lines 43 to 109), and the listing in `run_client`
-- (lines 188 to 224).
pub mod Lookup
pub mod Listing
pub mod Answers
pub mod Canonical
use network_programming_lab.Prelude.{
  ℕ, zero, suc, Bool, true, false, List, [], ◌∷◌, ◌++◌, Option, none, some, Bytes, codes, length,
  take, drop, ltb, ◌^◌, if◌then◌else◌, ◌>>=◌,
}
use network_programming_lab.Strcmp.{Sign, below, same, above, strcmp, texts_agree}
use network_programming_lab.Decimal.{decimal}
use network_programming_lab.FileShare.Streams.{
  buffer_text, next_word, behind_next, next_int, behind_int,
}

-- `std::map<std::string, std::string>`: names and addresses, in the order of the names.
abbrev pub Clients : Type 0
Clients = List (Bytes × Bytes)

-- The places that a new key can take: the entry's own, in front of it, or behind it.
placed : Sign → Bytes → Bytes → Bytes × Bytes → Clients → Clients → Clients
placed same name ip entry rest onward = (entry.0, ip) ∷ rest
placed below name ip entry rest onward = (name, ip) ∷ entry ∷ rest
placed above name ip entry rest onward = entry ∷ onward

-- `clients[name] = ip`
unfoldable pub insert : Bytes → Bytes → Clients → Clients
unfolding placed
insert name ip [] = (name, ip) ∷ []
insert name ip (entry ∷ rest) =
    placed (strcmp name entry.0) name ip entry rest (insert name ip rest)

unfoldable pub registered : Bytes → Bytes → Clients → Clients
registered ip msg clients =
    if texts_agree (take 4 msg) (codes "REG ") then insert (drop 4 msg) ip clients else clients

-- A datagram at the port for registrations; `none` is a read past the end of the buffer.
unfoldable pub handle_reg : (ℕ → Bytes) → ℕ → Bytes → Clients → Option Clients
handle_reg inet_ntop s_addr d clients = do
  msg ← buffer_text 1024 d
  some (registered (inet_ntop s_addr) msg clients)

unfoldable pub entries_text : Clients → Bytes
entries_text [] = []
entries_text (client ∷ rest) = b' ' ∷ (client.0 ++ b' ' ∷ (client.1 ++ entries_text rest))

unfoldable pub list_response : Clients → Bytes
list_response clients = codes "LIST" ++ b' ' ∷ (decimal (length clients) ++ entries_text clients)

-- A datagram at the port for listings: what is sent back, if anything.
unfoldable pub handle_list : Bytes → Clients → Option (Option Bytes)
handle_list d clients = do
  msg ← buffer_text 1024 d
  some (if texts_agree msg (codes "LIST") then some (list_response clients) else none)

-- What `select` and `recvfrom` give: a datagram at one of the two ports.
pub data Event : Type 0 where
  at_reg_port : ℕ → Bytes → Event  -- from this address
  at_list_port : Bytes → Event

-- The loop; what is sent to the clients does not change what it knows.
unfoldable pub run_server : (ℕ → Bytes) → List Event → Clients → Option Clients
run_server inet_ntop [] clients = some clients
run_server inet_ntop (at_reg_port s_addr d ∷ es) clients = do
  known ← handle_reg inet_ntop s_addr d clients
  run_server inet_ntop es known
run_server inet_ntop (at_list_port d ∷ es) clients = do
  reply ← handle_list d clients
  run_server inet_ntop es clients

-- The loop of the client over the names and addresses, `count` times.
unfoldable pub read_entries : ℕ → Bytes → Clients
read_entries zero text = []
read_entries (suc count) text =
    let behind_name = behind_next text in
    (next_word text, next_word behind_name) ∷ read_entries count (behind_next behind_name)

-- How often a loop runs that counts up to an `int` with these bits.
abbrev pub loop_rounds : ℕ → ℕ
loop_rounds count = if ltb count (2 ^ 31) then count else 0

-- The listing that the client reads off a response; `none` if `count` is read without having been
-- written, or the buffer is read past its end.
unfoldable pub read_listing : Bytes → Option Clients
read_listing d = do
  response ← buffer_text 4096 d
  count ← next_int (behind_next response)
  some (read_entries (loop_rounds count) (behind_int (behind_next response)))
