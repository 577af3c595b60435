-- ===== src/Tftp/Link.antt =====
-- trivial-file-transfer-protocol.c: what the calls of `recvfrom` and `sendto` exchange with the
-- rest of the world, as values. The socket is not code of this repository: what it delivers is a
-- list of events, and what the program sends is recorded in order.
use network_programming_lab.Prelude.{ℕ, Bytes, Option}

-- A peer's `struct sockaddr_in`, of which the program only keeps a copy.
abbrev pub Addr : Type 0
Addr = ℕ

-- How one `recvfrom` ends: a datagram and its sender, `WSAETIMEDOUT`, or another error.
pub data Event : Type 0 where
  packet : Addr → Bytes → Event
  timed_out : Event
  failed : Event

-- Where a datagram goes: `server_addr`, or `from_addr`, which holds no address before the first
-- datagram has come.
pub data Target : Type 0 where
  server : Target
  peer : Option Addr → Target

-- One call of `sendto`: a datagram, or a call with a negative length, which sends nothing.
pub data Sent : Type 0 where
  datagram : Target → Bytes → Sent
  bad_length : Target → Sent

-- Where a step leaves the function: in its loop, behind `return 0`, behind `return -1`, or in
-- undefined behaviour.
pub data Outcome {ℓ} (S : Type ℓ) : Type ℓ where
  continues : S → Outcome S
  succeeds : S → Outcome S
  fails : S → Outcome S
  faults : Outcome S

-- The loop goes on only after a step that stays in it.
infixl 5 ◌>>=◌
abbrev pub ◌>>=◌ {ℓ} : {S : Type ℓ} → Outcome S → (S → Outcome S) → Outcome S
continues s >>= f = f s
succeeds s >>= f = succeeds s
fails s >>= f = fails s
faults >>= f = faults
