-- ===== src/Telnet.antt =====
-- multi-thread-telnet-simulation.c: threads that share a mutex and a file. A thread is the place that
-- `clientThread` (lines 11 to 45) has reached; a turn lets one thread go on, so that a list of turns
-- is an interleaving.
pub mod Invariant
pub mod Lines
use network_programming_lab.Prelude.{
  ℕ, zero, suc, Bool, true, false, List, [], ◌∷◌, ◌++◌, Bytes, codes, length, take, ◌==◌,
  if◌then◌else◌,
}
use network_programming_lab.Scanf.{c_string}
use network_programming_lab.Sockets.Start.{
  Call, socket, bind, listen, Started, started, attempt, unchecked,
}

pub data Thread : Type 0 where
  receiving : Thread  -- at recv
  locking : Bytes → Thread  -- at pthread_mutex_lock, with the text in `buffer`
  opening : Bytes → Thread  -- at fopen
  writing : Bytes → Thread  -- between fprintf and fclose, with the bytes that the file lacks
  unlocking : Thread  -- at pthread_mutex_unlock
  finished : Thread

-- What the threads share. `messages` is not in the program: the texts for which the file was opened,
-- in that order.
pub record Shared : Type 0 where
  pub file : Bytes  -- tmp.txt
  pub locked : Bool  -- fileMutex
  pub messages : List Bytes

-- What a thread meets on its turn.
pub data Event : Type 0 where
  gets : Bytes → Event  -- recv puts these bytes into the buffer; none if the client has gone
  cannot_open : Event  -- fopen fails
  goes_on : Event

-- One step of a thread; a thread that the event is not for, or that waits for the mutex, stays where
-- it is. The bytes of a line get into the file one at a time.
unfoldable pub move : Event → Shared → Thread → Shared × Thread
move (gets d) s receiving =
    (s, if length d == 0 then finished else locking (c_string (take 1023 d)))
move goes_on s (locking text) =
    if s.locked then (s, locking text) else (record s { locked = true }, opening text)
move cannot_open s (opening text) = (s, unlocking)
move goes_on s (opening text) =
    (record s { messages = s.messages ++ text ∷ [] }, writing (text ++ b'\n' ∷ []))
move goes_on s (writing (c ∷ rest)) = (record s { file = s.file ++ c ∷ [] }, writing rest)
move goes_on s (writing []) = (s, unlocking)
move goes_on s unlocking = (record s { locked = false }, receiving)
move _ s t = (s, t)

-- The step of the thread with a number, if there is one.
unfoldable pub move_at : ℕ → Event → Shared → List Thread → Shared × List Thread
move_at i e s [] = (s, [])
move_at zero e s (t ∷ ts) = let moved = move e s t in (moved.0, moved.1 ∷ ts)
move_at (suc i) e s (t ∷ ts) = let moved = move_at i e s ts in (moved.0, t ∷ moved.1)

-- A turn: `main` accepts a client and starts its thread, or a thread goes on.
pub data Turn : Type 0 where
  accepts : Turn
  turn : ℕ → Event → Turn

unfoldable pub run : List Turn → Shared → List Thread → Shared × List Thread
run [] s ts = (s, ts)
run (accepts ∷ turns) s ts = run turns s (ts ++ receiving ∷ [])
run (turn i e ∷ turns) s ts = let moved = move_at i e s ts in run turns moved.0 moved.1

-- How the socket is opened; it is not closed if it cannot be bound.
unfoldable pub set_up : (Call → Bool) → Started
unfolding attempt unchecked
set_up works =
    attempt works socket [] (attempt works (bind 9999) [] (unchecked (listen 10) started))
