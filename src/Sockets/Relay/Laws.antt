-- ===== src/Sockets/Relay/Laws.antt =====
-- Both directions of the relay pass on what they are given, in its order.
use network_programming_lab.Prelude.{
  true, false, List, [], ◌∷◌, ◌++◌, ◌≡◌, refl, arith, ap, sym, ◌∙◌, Option, none, some, Bytes,
  length, take, ◌==◌, if◌then◌else◌, Bool-cases, inl, inr,
}
use network_programming_lab.Sockets.Relay.Writing.{Follows, typed, heard, passed_on}
use network_programming_lab.Sockets.Relay.{
  Input, Event, interrupted, select_fails, ready, Client, connected, send_input, print_input, round,
  run,
}

-- What is still to be sent, or to be printed, when these events are to come.
abbrev to_send : List Event → Client → Bytes
to_send events c = if c.stdin_closed then [] else typed events

send_input-Follows :
    (input : Option Input) (at_socket : Option Input) (events : List Event) (c : Client)
    → c.runs ≡ true
    → Follows
        (c.to_socket ++ to_send (ready input at_socket ∷ events) c)
        (send_input input c).to_socket
        (send_input input c).runs
        (to_send events (send_input input c))
unfolding send_input
send_input-Follows none at_socket events c h = (to_send events c, refl, λ well. refl)
send_input-Follows (some input) at_socket events c h = elim (Bool-cases c.stdin_closed) [
  | inl closed ↦ rw closed ([], refl, λ well. refl)
  | inr open_ ↦ elim (Bool-cases (length input.bytes == 0)) [
    | inl over ↦ rw (open_, over) ([], refl, λ well. refl)
    | inr more ↦
        rw (open_, more)
          (let (rest, whole, all) =
              passed_on c.to_socket (typed events) (take 4096 input.bytes) input.answers in
            (rest, whole, all))
  ]
]

print_input-keeps :
    (input : Option Input) (c : Client)
    → (print_input input c).to_socket ≡ c.to_socket
      × (print_input input c).stdin_closed ≡ c.stdin_closed
      × ((print_input input c).runs ≡ true → c.runs ≡ true)
unfolding print_input
print_input-keeps none c = (refl, refl, λ h. h)
print_input-keeps (some input) c = elim (Bool-cases c.runs) [
  | inl runs ↦ elim (Bool-cases (length input.bytes == 0)) [
    | inl over ↦ rw (runs, over) (refl, refl, λ h. refl)
    | inr more ↦ rw (runs, more) (refl, refl, λ h. refl)
  ]
  | inr stopped ↦ rw stopped (refl, refl, λ h. h)
]

send_input-keeps :
    (input : Option Input) (c : Client) → (send_input input c).to_output ≡ c.to_output
unfolding send_input
send_input-keeps none c = refl
send_input-keeps (some input) c = elim (Bool-cases c.stdin_closed) [
  | inl closed ↦ rw closed refl
  | inr open_ ↦ elim (Bool-cases (length input.bytes == 0)) [
    | inl over ↦ rw (open_, over) refl
    | inr more ↦ rw (open_, more) refl
  ]
]

print_input-Follows :
    (at_stdin : Option Input) (input : Option Input) (events : List Event) (c : Client)
    → Follows
        (c.to_output ++ heard (ready at_stdin input ∷ events))
        (print_input input c).to_output
        (print_input input c).runs
        (heard events)
unfolding print_input
print_input-Follows at_stdin none events c = (heard events, refl, λ well. refl)
print_input-Follows at_stdin (some input) events c = elim (Bool-cases c.runs) [
  | inl runs ↦ elim (Bool-cases (length input.bytes == 0)) [
    | inl over ↦ rw (runs, over) ([], refl, λ well. cc)
    | inr more ↦
        rw (runs, more) (passed_on c.to_output (heard events) (take 4096 input.bytes) input.answers)
  ]
  | inr stopped ↦ rw stopped (heard (ready at_stdin (some input) ∷ events), refl, λ well. cc)
]

-- A round, in each of the two directions.
round-sends :
    (event : Event) (events : List Event) (c : Client)
    → c.runs ≡ true
    → Follows
        (c.to_socket ++ to_send (event ∷ events) c)
        (round event c).to_socket
        (round event c).runs
        (to_send events (round event c))
unfolding round
round-sends interrupted events c h = (to_send events c, refl, λ well. refl)
round-sends select_fails events c h = (to_send events c, refl, λ well. refl)
round-sends (ready at_stdin at_socket) events c h =
    let (rest, whole, all) = send_input-Follows at_stdin at_socket events c h in
    let (same_socket, same_end, ran) = print_input-keeps at_socket (send_input at_stdin c) in
    (rest, rw same_socket whole, λ well. rw same_end (all (ran well)))

round-prints :
    (event : Event) (events : List Event) (c : Client)
    → Follows
        (c.to_output ++ heard (event ∷ events))
        (round event c).to_output
        (round event c).runs
        (heard events)
unfolding round
round-prints interrupted events c = (heard events, refl, λ well. refl)
round-prints select_fails events c = (heard events, refl, λ well. refl)
round-prints (ready at_stdin at_socket) events c =
    let (rest, whole, all) =
      print_input-Follows at_stdin at_socket events (send_input at_stdin c) in
    (
      rest,
      ap (λ t. t ++ heard (ready at_stdin at_socket ∷ events)) (sym (send_input-keeps at_stdin c))
          ∙ whole,
      all,
    )

run_stopped : (events : List Event) (c : Client) → c.runs ≡ false → run events c ≡ c
unfolding run
run_stopped [] c h = refl
run_stopped (event ∷ events) c h = rw h refl

-- A round that ends the loop, or goes on with the others.
module _ (event : Event) (events : List Event) (c : Client) (runs : c.runs ≡ true) where
  run-next : run (event ∷ events) c ≡ run events (round event c)
  unfolding run
  run-next = rw runs refl

-- One direction: what has been passed on, and what is left of the events to come.
module _ (done : Client → Bytes) (left : List Event → Client → Bytes)
    (none_left : (c : Client) → left [] c ≡ [])
    (round-Follows : (event : Event) (events : List Event) (c : Client)
      → c.runs ≡ true
      → Follows
          (done c ++ left (event ∷ events) c)
          (done (round event c))
          (round event c).runs
          (left events (round event c))) where
  run-done :
      (events : List Event) (c : Client)
      → Follows (done c ++ left events c) (done (run events c)) (run events c).runs []
  run-done [] c = unfold run in (left [] c, refl, λ well. none_left c)
  run-done (event ∷ events) c = elim (Bool-cases c.runs) [
    | inr stopped ↦
        rw (run_stopped (event ∷ events) c stopped) (left (event ∷ events) c, refl, λ well. cc)
    | inl runs ↦
        let (rest, whole, all) = round-Follows event events c runs in
        rw (run-next event events c runs) (elim (Bool-cases (round event c).runs) [
          | inr ends ↦ rw (run_stopped events (round event c) ends) (rest, whole, λ well. cc)
          | inl goes_on ↦
              let (more, onward, over) = run-done events (round event c) in
              (more, whole ∙ ap (λ t. done (round event c) ++ t) (all goes_on) ∙ onward, over)
        ])
  ]

none_to_send : (c : Client) → to_send [] c ≡ []
none_to_send c = ground arith

-- Whatever `select` reports and however few bytes each call of `send` and `write` takes, what has
-- been sent is the front of what was typed up to the end of standard input, and what has been
-- printed is the front of what the server sent up to the end of the connection; while the client
-- is in its loop and no call has failed or is still going on, they are all of it.
pub run-Follows :
    (events : List Event)
    → Follows (typed events) (run events connected).to_socket (run events connected).runs []
      × Follows (heard events) (run events connected).to_output (run events connected).runs []
run-Follows events = (
  run-done (λ c. c.to_socket) to_send none_to_send round-sends events connected,
  run-done (λ c. c.to_output) (λ es c. heard es) (λ c. refl)
      (λ event es c runs. round-prints event es c) events connected,
)
