-- ===== src/Sockets/Shell.antt =====
-- simple-ssh-simulation.cpp.
pub mod Output
pub mod Guard
use network_programming_lab.Prelude.{
  ℕ, zero, suc, ◌+◌, ◌-◌, Bool, true, false, ◌||◌, List, [], ◌∷◌, ◌++◌, Option, none, some, Bytes,
  codes, length, take, drop, ◌==◌, if◌then◌else◌,
}
use network_programming_lab.Strcmp.{texts_agree}
use network_programming_lab.Scanf.{c_string}
use network_programming_lab.FileServer.Text.{contains}
use network_programming_lab.Sockets.Start.{
  Call, socket, setsockopt, bind, listen, close, Started, started, attempt,
}

unfoldable pub set_up : (Call → Bool) → Started
unfolding attempt
set_up works = attempt works socket [] (
    attempt works setsockopt (close ∷ [])
      (attempt works (bind 9999) (close ∷ []) (attempt works (listen 5) (close ∷ []) started)))

-- What `fgets` reads when it has room for `room` bytes: up to the end of the line.
unfoldable pub line : ℕ → Bytes → Bytes
line zero stream = []
line (suc room) [] = []
line (suc room) (c ∷ cs) = let onward = line room cs in if c == b'\n' then c ∷ [] else c ∷ onward

-- The loop over `fgets`, `n` times at most; what stands behind a NUL in the buffer is lost.
unfoldable pub read_lines : ℕ → Bytes → Bytes
read_lines zero stream = []
read_lines (suc n) stream =
    let text = line 4095 stream in
    let onward = read_lines n (drop (length text) stream) in
    if length text == 0 then [] else c_string text ++ onward

-- `none` is a pipe that could not be opened; otherwise, what the command prints.
unfoldable pub exec_command : Option Bytes → Bytes
exec_command none = codes "Error executing command"
exec_command (some stream) = read_lines (length stream) stream

-- The newline at the end of what was received is written over.
unfoldable pub without_newline : Bytes → Bytes
without_newline [] = []
without_newline (c ∷ cs) = last_or c cs (without_newline cs)
  where
    last_or : ℕ → Bytes → Bytes → Bytes
    last_or c [] onward = if c == b'\n' then [] else c ∷ []
    last_or c (d ∷ cs) onward = c ∷ onward

unfoldable pub command_text : Bytes → Bytes
command_text received = c_string (without_newline (take 4095 received))

abbrev pub fork_bomb : Bytes
fork_bomb = codes ":(){ :|:& };:"

unfoldable pub is_dangerous : Bytes → Bool
is_dangerous command = contains command (codes "rm -rf") || contains command fork_bomb

-- What the client is sent for the output of a command.
unfoldable pub output_text : Option Bytes → Bytes
output_text printed =
    let result = exec_command printed in
    if length result == 0 then codes "Command executed successfully (no output)\n" else result

abbrev pub welcome_msg : Bytes
welcome_msg = codes "Welcome to SSH Simulation. Enter commands to execute (type 'exit' to quit):\n"

abbrev pub exit_msg : Bytes
exit_msg = codes "Closing connection. Goodbye!\n"

abbrev pub blocked_msg : Bytes
blocked_msg = codes "Error: Potentially dangerous command blocked\n"

-- What `recv` gives, and what the command in it prints if it is run; nothing received stands for any
-- answer that is not positive.
pub record Turn : Type 0 where
  pub received : Bytes
  pub printed : Option Bytes

-- The texts sent to a client, and the commands that `popen` was given.
pub record Session : Type 0 where
  pub sent : List Bytes
  pub executed : List Bytes

abbrev pub quiet : Session
quiet = record { sent = []; executed = [] }

-- The commands of a client, one after the other.
unfoldable pub serve : List Turn → Session
serve [] = quiet
serve (turn ∷ turns) =
    let command = command_text turn.received in
    let onward = serve turns in
    if length turn.received == 0
    then quiet
    else if texts_agree command (codes "exit")
    then record quiet { sent = exit_msg ∷ [] }
    else if is_dangerous command
    then record onward { sent = blocked_msg ∷ onward.sent }
    else record {
      sent = output_text turn.printed ∷ onward.sent;
      executed = command ∷ onward.executed;
    }

unfoldable pub connection : List Turn → Session
connection turns = let session = serve turns in record session { sent = welcome_msg ∷ session.sent }
