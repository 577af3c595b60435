-- ===== src/Sockets/Start.antt =====
-- How a program opens its socket: the system calls in their order, each of which may fail.
use network_programming_lab.Prelude.{ℕ, ◌+◌, Bool, true, false, List, [], ◌∷◌, ◌≡◌, if◌then◌else◌}

pub data Call : Type 0 where
  socket : Call
  setsockopt : Call
  bind : ℕ → Call  -- the port
  listen : ℕ → Call  -- the backlog
  inet_pton : Call
  connect : ℕ → Call  -- the port
  close : Call
  wsa_startup : Call
  wsa_cleanup : Call

-- The calls that were made, and whether the program goes on.
pub record Started : Type 0 where
  calls : List Call
  goes_on : Bool

abbrev pub started : Started
started = record { calls = []; goes_on = true }

-- A program, or a part of it, that ends with these calls.
abbrev pub finished : List Call → Started
finished calls = record { calls = calls; goes_on = false }

-- One call, and what follows if it works; if not, the calls that clean up.
unfoldable pub attempt : (Call → Bool) → Call → List Call → Started → Started
attempt works call clean_up onward =
    if works call
    then record { calls = call ∷ onward.calls; goes_on = onward.goes_on }
    else record { calls = call ∷ clean_up; goes_on = false }

-- A call whose answer is not looked at.
unfoldable pub unchecked : Call → Started → Started
unchecked call onward = record onward { calls = call ∷ onward.calls }

abbrev pub opens : (Call → Bool) → Call → ℕ
opens works socket = if works socket then 1 else 0
opens works call = 0

abbrev pub closes : Call → ℕ
closes close = 1
closes call = 0

abbrev pub opened : (Call → Bool) → List Call → ℕ
opened works [] = 0
opened works (call ∷ calls) = opens works call + opened works calls

abbrev pub closed : List Call → ℕ
closed [] = 0
closed (call ∷ calls) = closes call + closed calls

abbrev pub starts : (Call → Bool) → Call → ℕ
starts works wsa_startup = if works wsa_startup then 1 else 0
starts works call = 0

abbrev pub cleans : Call → ℕ
cleans wsa_cleanup = 1
cleans call = 0

abbrev pub wsa_started : (Call → Bool) → List Call → ℕ
wsa_started works [] = 0
wsa_started works (call ∷ calls) = starts works call + wsa_started works calls

abbrev pub wsa_cleaned : List Call → ℕ
wsa_cleaned [] = 0
wsa_cleaned (call ∷ calls) = cleans call + wsa_cleaned calls

-- A socket is left open if the program goes on, and none is if it does not.
abbrev pub Balanced : (Call → Bool) → Started → Type 0
Balanced works s = opened works s.calls ≡ closed s.calls + (if s.goes_on then 1 else 0)

-- The same for Winsock.
abbrev pub WsaBalanced : (Call → Bool) → Started → Type 0
WsaBalanced works s = wsa_started works s.calls ≡ wsa_cleaned s.calls + (if s.goes_on then 1 else 0)
