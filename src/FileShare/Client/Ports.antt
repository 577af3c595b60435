-- ===== src/FileShare/Client/Ports.antt =====
-- The ports at which `run_client` waits for answers (lines 123 to 130, 205 to 221 and 242 to 258).
use network_programming_lab.Prelude.{
  ℕ, ◌+◌, Bool, true, false, List, [], ◌∷◌, map, Option, none, some, All, Bytes, ◌==◌, ◌≡◌, ◌≢◌,
  refl, ap, ◌∙◌, arith, if◌then◌else◌, ◌>>=◌,
}
use network_programming_lab.Scanf.{c_string, skip_spaces, behind_word}
use network_programming_lab.FileShare.Streams.{buffer_text, next_int, signed_int, behind_next}
use network_programming_lab.FileShare.Registry.{read_listing}
use network_programming_lab.FileShare.Transfer.{
  Command, lists, sends, ignored, command, list_port, send_port, no_response, target_address,
  send_to_target,
}
use network_programming_lab.FileShare.Client.{
  Round, Shown, shows_sending, shows_nothing, show_command, show_all,
}

-- What `recvfrom` gets at a new socket, if a datagram with this payload comes to a port while it waits. A
-- socket that could not be bound gets nothing.
unfoldable pub answer_at : (ℕ → Bool) → ℕ → ℕ → Option Bytes → Option Bytes
answer_at binds port to_port answer =
    if binds port then (if to_port == port then answer else none) else none

-- A line at the prompt: the port of the socket that broadcasts it, to which the others send their
-- answer, and the answer.
pub record Line : Type 0 where
  pub input : Bytes
  pub from_port : ℕ
  pub answer : Option Bytes
  pub file : Bytes → Option Bytes
  pub connects : Bytes × ℕ → Bool

unfoldable pub reply_at : (ℕ → Bool) → Line → Command → Option Bytes
reply_at binds l lists = answer_at binds (list_port + 1000) l.from_port l.answer
reply_at binds l (sends filename target_name) =
    answer_at binds (send_port + 1000) l.from_port l.answer
reply_at binds l ignored = none

-- A round, where `bind` works for these ports.
unfoldable pub round_at : (ℕ → Bool) → Line → Round
round_at binds l = record {
  input = l.input;
  reply = reply_at binds l (command l.input);
  file = l.file;
  connects = l.connects;
}

-- A command whose answer does not come.
abbrev pub unanswered : Command → Option Shown
unanswered lists = none
unanswered (sends filename target_name) = some (shows_sending no_response)
unanswered ignored = some shows_nothing

abbrev pub all_unanswered : List Line → Option (List Shown)
all_unanswered [] = some []
all_unanswered (l ∷ lines) = do
  shown ← unanswered (command l.input)
  rest ← all_unanswered lines
  some (shown ∷ rest)

no_listing : (binds : ℕ → Bool) (l : Line) → binds send_port ≡ false → reply_at binds l lists ≡ none
unfolding reply_at answer_at
no_listing binds l taken =
    ap (λ b. if b then (if l.from_port == send_port then l.answer else none) else none) taken

nothing_either_way : (b : Bool) → ◌≡◌ {A = Option Bytes} (if b then none else none) none
nothing_either_way true = refl
nothing_either_way false = refl

no_address :
    (binds : ℕ → Bool) (l : Line) (filename target_name : Bytes)
    → l.from_port ≢ send_port + 1000
    → reply_at binds l (sends filename target_name) ≡ none
unfolding reply_at answer_at
no_address binds l filename target_name elsewhere =
    let other : (l.from_port == send_port + 1000) ≡ false = ground (arith, elsewhere) in
    let works = binds (send_port + 1000) in
    ap (λ b. if works then (if b then l.answer else none) else none) other
    ∙ nothing_either_way works

abbrev round_with : (ℕ → Bool) → Line → Option Bytes → Round
round_with binds l reply = record {
  input = l.input;
  reply = reply;
  file = l.file;
  connects = l.connects;
}

show_command-unanswered :
    (binds : ℕ → Bool) (l : Line) (c : Command)
    → binds send_port ≡ false
    → l.from_port ≢ send_port + 1000
    → show_command (round_with binds l (reply_at binds l c)) c ≡ unanswered c
unfolding show_command
show_command-unanswered binds l lists taken elsewhere =
    ap (λ reply. show_command (round_with binds l reply) lists) (no_listing binds l taken)
    ∙ unfold read_listing buffer_text next_int c_string signed_int skip_spaces behind_next
        behind_word in
      refl
show_command-unanswered binds l (sends filename target_name) taken elsewhere =
    ap (λ reply. show_command (round_with binds l reply) (sends filename target_name))
      (no_address binds l filename target_name elsewhere)
    ∙ unfold send_to_target target_address in refl
show_command-unanswered binds l ignored taken elsewhere = refl

-- Where the port 7000 cannot be bound again, since the child has bound it or found it taken, and
-- no answer is sent to port 8000, but to the port of the socket that broadcast the question:
-- whatever is typed and whatever answers are sent, each `SEND` ends without a response, each other
-- line that is no `LIST` shows nothing, and a `LIST` reads `count` without its having been
-- written.
pub show_all-unanswered :
    (binds : ℕ → Bool) (lines : List Line)
    → binds send_port ≡ false
    → All (λ l. l.from_port ≢ send_port + 1000) lines
    → show_all (map (round_at binds) lines) ≡ all_unanswered lines
unfolding show_all round_at
show_all-unanswered binds [] taken h = refl
show_all-unanswered binds (l ∷ lines) taken h =
    rw
      (
        show_command-unanswered binds l (command l.input) taken h.0,
        show_all-unanswered binds lines taken h.1,
      )
      refl
