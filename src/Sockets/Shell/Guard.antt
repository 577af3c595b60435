-- ===== src/Sockets/Shell/Guard.antt =====
-- What of the commands of a client is run, and what is answered.
use network_programming_lab.Prelude.{
  Bool, false, ◌||◌, List, [], ◌∷◌, ◌++◌, map, ◌≡◌, refl, ap, sym, subst, arith, All, Bytes, codes,
  length, ◌==◌, if◌then◌else◌, Bool-cases, inl, inr,
}
use network_programming_lab.Strcmp.{texts_agree}
use network_programming_lab.FileServer.Text.{contains}
use network_programming_lab.Sockets.Shell.{
  command_text, is_dangerous, fork_bomb, output_text, welcome_msg, exit_msg, blocked_msg, Turn,
  serve, connection,
}

abbrev says_exit : Turn → Bool
says_exit turn = texts_agree (command_text turn.received) (codes "exit")

-- The turns in front of the first that is empty or leaves.
abbrev pub handled : List Turn → List Turn
handled [] = []
handled (turn ∷ turns) =
    if length turn.received == 0 || says_exit turn then [] else turn ∷ handled turns

-- The goodbye, if the client leaves.
abbrev pub farewell : List Turn → List Bytes
farewell [] = []
farewell (turn ∷ turns) =
    if length turn.received == 0
    then []
    else if says_exit turn
    then exit_msg ∷ []
    else farewell turns

abbrev pub answer : Turn → Bytes
answer turn =
    if is_dangerous (command_text turn.received) then blocked_msg else output_text turn.printed

-- The commands that are not dangerous.
abbrev pub harmless : List Bytes → List Bytes
harmless [] = []
harmless (command ∷ commands) =
    if is_dangerous command then harmless commands else command ∷ harmless commands

abbrev pub IsGuarded : Bytes → Type 0
IsGuarded command =
    (contains command (codes "rm -rf") ≡ false) × (contains command fork_bomb ≡ false)

harmless-IsGuarded : (commands : List Bytes) → All IsGuarded (harmless commands)
unfolding is_dangerous
harmless-IsGuarded [] = tt
harmless-IsGuarded (command ∷ commands) = elim (Bool-cases (is_dangerous command)) [
  | inl bad ↦ rw bad (harmless-IsGuarded commands)
  | inr good ↦ rw good ((ground arith, ground arith), harmless-IsGuarded commands)
]

serve-handled :
    (turns : List Turn)
    → (serve turns).executed ≡ harmless (map (λ turn. command_text turn.received) (handled turns))
      × (serve turns).sent ≡ map answer (handled turns) ++ farewell turns
unfolding serve
serve-handled [] = (refl, refl)
serve-handled (turn ∷ turns) =
    let (executed, sent) = serve-handled turns in
    elim (Bool-cases (length turn.received == 0)) [
      | inl over ↦ rw over (refl, refl)
      | inr more ↦ elim (Bool-cases (says_exit turn)) [
        | inl leaves ↦ rw (more, leaves) (refl, refl)
        | inr stays ↦ elim (Bool-cases (is_dangerous (command_text turn.received))) [
          | inl bad ↦ rw (more, stays, bad) (executed, ap (◌∷◌ blocked_msg) sent)
          | inr good ↦
              rw (more, stays, good)
                (
                  ap (◌∷◌ (command_text turn.received)) executed,
                  ap (◌∷◌ (output_text turn.printed)) sent,
                )
        ]
      ]
    ]

-- Whatever a client of the shell server sends, no command that contains `rm -rf` or the fork bomb
-- is run; the commands that are run are the others, in their order, up to the first `exit` or the
-- end of the connection; and behind the welcome each command is answered by one text, the output
-- of the command or the message that it is blocked, with a goodbye behind them for `exit`.
pub connection-IsGuarded :
    (turns : List Turn)
    → All IsGuarded (connection turns).executed
      × (connection turns).executed
        ≡ harmless (map (λ turn. command_text turn.received) (handled turns))
      × (connection turns).sent ≡ welcome_msg ∷ (map answer (handled turns) ++ farewell turns)
unfolding connection
connection-IsGuarded turns =
    let (executed, sent) = serve-handled turns in
    let commands = map (λ turn. command_text turn.received) (handled turns) in
    (
      subst (All IsGuarded) (sym executed) (harmless-IsGuarded commands),
      executed,
      ap (◌∷◌ welcome_msg) sent,
    )
