-- ===== src/Sockets/Relay.antt =====
-- simple-netcat-client.cpp.
pub mod Writing
pub mod Laws
use network_programming_lab.Prelude.{
  ℕ, ◌+◌, Bool, true, false, not, ◌&&◌, List, [], ◌∷◌, ◌++◌, Option, none, some, Bytes, length,
  take, drop, ◌==◌, if◌then◌else◌,
}
use network_programming_lab.Sockets.Start.{
  Call, socket, inet_pton, connect, close, Started, started, attempt,
}

unfoldable pub set_up : ℕ → (Call → Bool) → Started
unfolding attempt
set_up port works =
    attempt works socket []
      (attempt works inet_pton (close ∷ []) (attempt works (connect port) (close ∷ []) started))

-- How the loop over `send` or `write` ends: all is written, a call failed, or it has not ended.
pub data Ending : Type 0 where
  all_written : Ending
  failed : Ending
  unfinished : Ending

-- The bytes that are written, and the ending. A call takes as many bytes as it says of those that are
-- left, or fails.
unfoldable pub write_all : List (Option ℕ) → Bytes → Bytes × Ending
write_all [] bytes = ([], if length bytes == 0 then all_written else unfinished)
write_all (none ∷ answers) bytes = ([], if length bytes == 0 then all_written else failed)
write_all (some m ∷ answers) bytes =
    let (onward, ending) = write_all answers (drop m bytes) in
    if length bytes == 0 then ([], all_written) else (take m bytes ++ onward, ending)

-- What is read at one of the two descriptors, at most 4096 bytes, and what the calls that write it
-- answer. Nothing read stands for any answer of `read` or `recv` that is not positive.
pub record Input : Type 0 where
  pub bytes : Bytes
  pub answers : List (Option ℕ)

-- What `select` gives: an interrupt, another error, or what is there to read at standard input and at
-- the socket.
pub data Event : Type 0 where
  interrupted : Event
  select_fails : Event
  ready : Option Input → Option Input → Event

pub record Client : Type 0 where
  stdin_closed : Bool
  pub to_socket : Bytes
  pub to_output : Bytes
  pub runs : Bool  -- inside the loop, and not in a loop over `send` or `write` that has not ended

abbrev pub connected : Client
connected = record { stdin_closed = false; to_socket = []; to_output = []; runs = true }

abbrev pub is_over : Ending → Bool
is_over all_written = true
is_over failed = false
is_over unfinished = false

-- The rest of a round behind an input at standard input.
unfoldable pub send_input : Option Input → Client → Client
send_input none c = c
send_input (some input) c =
    let (written, ending) = write_all input.answers (take 4096 input.bytes) in
    if c.stdin_closed
    then c
    else if length input.bytes == 0
    then record c { stdin_closed = true }
    else record c { to_socket = c.to_socket ++ written; runs = is_over ending }

unfoldable pub print_input : Option Input → Client → Client
print_input none c = c
print_input (some input) c =
    let (written, ending) = write_all input.answers (take 4096 input.bytes) in
    if not c.runs
    then c
    else if length input.bytes == 0
    then record c { runs = false }
    else record c { to_output = c.to_output ++ written; runs = is_over ending }

unfoldable pub round : Event → Client → Client
unfolding send_input print_input
round interrupted c = c
round select_fails c = record c { runs = false }
round (ready at_stdin at_socket) c = print_input at_socket (send_input at_stdin c)

unfoldable pub run : List Event → Client → Client
run [] c = c
run (event ∷ events) c = let onward = run events (round event c) in if c.runs then onward else c
