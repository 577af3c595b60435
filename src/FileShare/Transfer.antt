-- ===== src/FileShare/Transfer.antt =====
-- file-sharing-server-client.cpp, `run_client` (lines 112 to 307): the commands, the agreement on an
-- address, and a file on its way. Each text that a program gives to `send` goes across whole.
pub mod Agreement
pub mod Contents
pub mod EndToEnd
use network_programming_lab.Prelude.{
  ℕ, zero, suc, ◌+◌, ◌-◌, ◌*◌, ◌/◌, ◌%◌, ◌^◌, Bool, true, false, ◌&&◌, List, [], ◌∷◌, ◌++◌, Option,
  none, some, Bytes, codes, length, take, drop, ltb, ◌==◌, if◌then◌else◌, ◌>>=◌,
}
use network_programming_lab.Strcmp.{texts_agree}
use network_programming_lab.Decimal.{decimal}
use network_programming_lab.FileShare.Streams.{buffer_text, next_word, behind_next, next_int}

abbrev pub reg_port : ℕ
reg_port = 5000

abbrev pub list_port : ℕ
list_port = 6000

abbrev pub send_port : ℕ
send_port = 7000

-- What a client broadcasts when it starts: a text, and the port it goes to.
abbrev pub registration : Bytes → Bytes × ℕ
registration my_name = (codes "REG " ++ my_name, reg_port)

-- A line of input: a listing, a file for a client, or neither.
pub data Command : Type 0 where
  lists : Command
  sends : Bytes → Bytes → Command  -- filename, target_name
  ignored : Command

unfoldable pub command : Bytes → Command
command input =
    if texts_agree input (codes "LIST")
    then lists
    else if texts_agree (take 5 input) (codes "SEND ")
    then sends (next_word (behind_next input)) (next_word (behind_next (behind_next input)))
    else ignored

-- What it broadcasts, and to which port.
unfoldable pub broadcasts : Bytes → Option (Bytes × ℕ)
broadcasts input = by_command (command input)
  where
    by_command : Command → Option (Bytes × ℕ)
    by_command lists = some (codes "LIST", list_port)
    by_command (sends filename target_name) = some (input, send_port)
    by_command ignored = none

-- The datagram with the address, when `getsockname` gave this port.
unfoldable pub address_text : ℕ → Bytes
address_text port = codes "127.0.0.1" ++ b' ' ∷ decimal port

-- The child at the port for files: the name of the file it waits for, if it does; `none` is a read past
-- the end of the buffer.
unfoldable pub awaited_file : Bytes → Bytes → Option (Option Bytes)
awaited_file my_name d = do
  msg ← buffer_text 1024 d
  let cmd = next_word msg
  let filename = next_word (behind_next msg)
  let target_name = next_word (behind_next (behind_next msg))
  some (
      if texts_agree cmd (codes "SEND") && texts_agree target_name my_name
      then some (codes "received_" ++ filename)
      else none)

-- The address that the sender reads off the datagram; `none` if there was no datagram or an empty one,
-- the inner `none` if `target_port` is used without having been written or the buffer is read past its
-- end.
unfoldable pub target_address : Option Bytes → Option (Option (Bytes × ℕ))
target_address none = none
target_address (some d) = if length d == 0 then none else some read_it
  where
    read_it : Option (Bytes × ℕ)
    read_it = do
      response ← buffer_text 1024 d
      target_port ← next_int (behind_next response)
      some (next_word response, target_port % 2 ^ 16)

-- `htonl` and `ntohl`: the bytes of a 32-bit number in network order.
abbrev pub put_u32 : ℕ → Bytes
put_u32 v = (v / 16777216 % 256) ∷ (v / 65536 % 256) ∷ (v / 256 % 256) ∷ (v % 256) ∷ []

abbrev pub get_u32 : Bytes → Option ℕ
get_u32 (a ∷ b ∷ c ∷ d ∷ []) = some (((a * 256 + b) * 256 + c) * 256 + d)
get_u32 bytes = none

unfoldable pub file_buffer : ℕ
file_buffer = 4096

-- The blocks that `fread` gives; `n` bounds their number.
unfoldable pub blocks : ℕ → Bytes → List Bytes
blocks zero contents = []
blocks (suc n) contents =
    let onward = blocks n (drop file_buffer contents) in
    if length contents == 0 then [] else take file_buffer contents ∷ onward

-- What is given to `send`: the size, then the file.
unfoldable pub send_file : Bytes → List Bytes
send_file contents = put_u32 (length contents % 2 ^ 32) ∷ blocks (length contents) contents

-- The loop of the receiver: what is written into the file. Each call of `recv` takes as many bytes as
-- it says, up to what it is asked for and what there is; a call without a byte ends the loop.
unfoldable pub receive_contents : ℕ → ℕ → List ℕ → Bytes → Bytes
receive_contents file_size received [] input = []
receive_contents file_size received (n ∷ calls) input =
    let chunk = take n (take file_buffer (take (file_size - received) input)) in
    let onward =
      receive_contents file_size (received + length chunk) calls (drop (length chunk) input) in
    if ltb received file_size then (if length chunk == 0 then [] else chunk ++ onward) else []

-- The whole receiver: `n` is what the first call of `recv` takes. `none` is a size that is used without
-- having been written whole.
unfoldable pub receive_file : ℕ → List ℕ → Bytes → Option Bytes
receive_file n calls input = do
  let header = take n (take 4 input)
  file_size ← get_u32 header
  some (receive_contents file_size 0 calls (drop (length header) input))

-- How `SEND` ends for the sender, and the texts that it has sent then.
pub data Sending : Type 0 where
  no_response : Sending
  no_connection : Sending
  no_file : Sending
  file_sent : List Bytes → Sending

-- `SEND` behind the broadcast: the datagram that came back, if one came, whether there is a connection
-- to an address, and the contents of the file, if it can be opened. `none` is as for the address.
unfoldable pub send_to_target : (Bytes × ℕ → Bool) → Option Bytes → Option Bytes → Option Sending
send_to_target connects file reply = by_address (target_address reply)
  where
    with_file : Option Bytes → Sending
    with_file none = no_file
    with_file (some contents) = file_sent (send_file contents)

    by_address : Option (Option (Bytes × ℕ)) → Option Sending
    by_address none = some no_response
    by_address (some none) = none
    by_address (some (some address)) =
        some (if connects address then with_file file else no_connection)

-- What a child does about a datagram: nothing, or answer with an address and store a file.
pub data Receiving : Type 0 where
  ignores : Receiving
  receives : Bytes → Bytes → Bytes → Receiving  -- the answer, the file's name, its contents

-- `port` is what `getsockname` gives, `n` and `calls` are what the calls of `recv` take, and `input` is
-- what comes over the connection.
unfoldable pub receive_offer : Bytes → ℕ → ℕ → List ℕ → Bytes → Bytes → Option Receiving
receive_offer my_name port n calls input d = do awaited ← awaited_file my_name d; by_name awaited
  where
    store_file : Bytes → Option Bytes → Option Receiving
    store_file name none = none
    store_file name (some contents) = some (receives (address_text port) name contents)

    by_name : Option Bytes → Option Receiving
    by_name none = some ignores
    by_name (some name) = store_file name (receive_file n calls input)

-- How the program is started.
pub data Program : Type 0 where
  runs_server : Program
  runs_client : Program
  exits : Program  -- with status 1

unfoldable pub program_of : List Bytes → Program
program_of [] = exits
program_of (name ∷ []) = exits
program_of (name ∷ mode ∷ more) =
    if texts_agree mode (codes "server")
    then runs_server
    else if texts_agree mode (codes "client")
    then runs_client
    else exits
