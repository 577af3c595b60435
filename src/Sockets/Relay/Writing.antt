-- ===== src/Sockets/Relay/Writing.antt =====
-- What the loops over `send` and `write` pass on.
use network_programming_lab.Prelude.{
  ℕ, Bool, true, List, [], ◌∷◌, ◌++◌, append_assoc, ◌≡◌, refl, ap, sym, ◌∙◌, arith, Option, none,
  some, Bytes, length, take, drop, take-append-drop, ◌==◌, if◌then◌else◌, Bool-cases, inl, inr,
}
use network_programming_lab.Sockets.Relay.{write_all, Event, ready, is_over}

-- What there is to write is what has been written and a rest, and the rest is `left` if all went well.
abbrev pub Follows : Bytes → Bytes → Bool → Bytes → Type 0
Follows whole done well left = (rest : Bytes) × (whole ≡ done ++ rest) × (well ≡ true → rest ≡ left)

no_bytes : (bytes : Bytes) → (length bytes == 0) ≡ true → bytes ≡ []
no_bytes [] h = refl
no_bytes (c ∷ cs) h = absurd (ground arith)

write_all-Follows :
    (answers : List (Option ℕ)) (bytes : Bytes)
    → Follows bytes (write_all answers bytes).0 (is_over (write_all answers bytes).1) []
unfolding write_all
write_all-Follows [] bytes = elim (Bool-cases (length bytes == 0)) [
  | inl over ↦ (bytes, refl, λ well. no_bytes bytes over)
  | inr more ↦ rw more (bytes, refl, λ well. cc)
]
write_all-Follows (none ∷ answers) bytes = elim (Bool-cases (length bytes == 0)) [
  | inl over ↦ (bytes, refl, λ well. no_bytes bytes over)
  | inr more ↦ rw more (bytes, refl, λ well. cc)
]
write_all-Follows (some m ∷ answers) bytes = elim (Bool-cases (length bytes == 0)) [
  | inl over ↦ rw over (bytes, refl, λ well. no_bytes bytes over)
  | inr more ↦
      let (rest, whole, all) = write_all-Follows answers (drop m bytes) in
      rw more (
        rest,
        sym (take-append-drop m bytes)
            ∙ ap (λ t. take m bytes ++ t) whole
            ∙ sym (append_assoc (take m bytes) (write_all answers (drop m bytes)).0 rest),
        all,
      )
]

-- What is typed, up to the end of standard input.
abbrev pub typed : List Event → Bytes
typed [] = []
typed (ready (some input) at_socket ∷ events) =
    if length input.bytes == 0 then [] else take 4096 input.bytes ++ typed events
typed (event ∷ events) = typed events

-- What the server sends, up to the end of the connection.
abbrev pub heard : List Event → Bytes
heard [] = []
heard (ready at_stdin (some input) ∷ events) =
    if length input.bytes == 0 then [] else take 4096 input.bytes ++ heard events
heard (event ∷ events) = heard events

-- One input is passed on behind what has been passed on before, with `later` to come.
pub passed_on :
    (before later bytes : Bytes) (answers : List (Option ℕ))
    → Follows
        (before ++ (bytes ++ later))
        (before ++ (write_all answers bytes).0)
        (is_over (write_all answers bytes).1)
        later
passed_on before later bytes answers =
    let written = (write_all answers bytes).0 in
    let (rest, whole, all) = write_all-Follows answers bytes in
    (
      rest ++ later,
      ap (λ t. before ++ (t ++ later)) whole
          ∙ ap (λ t. before ++ t) (append_assoc written rest later)
          ∙ sym (append_assoc before written (rest ++ later)),
      λ well. ap (λ r. r ++ later) (all well),
    )
