-- ===== src/FileShare/Registry/Lookup.antt =====
-- What the server knows of a name is the address of its last registration.
use network_programming_lab.Prelude.{
  ℕ, ◌<◌, Bool, true, false, List, [], ◌∷◌, ◌++◌, ◌≡◌, ◌↔◌, refl, ap, sym, ◌∙◌, arith, Option, none,
  some, Bytes, codes, length, take, drop, take-append-drop, if◌then◌else◌, Bool-cases, inl, inr,
}
use network_programming_lab.Strcmp.{
  Sign, below, same, above, strcmp, texts_agree, texts_agree_iff, strcmp-same_iff,
}
use network_programming_lab.FileServer.Reader.{HasNoNul}
use network_programming_lab.FileShare.Streams.Laws.{buffer_text-eq}
use network_programming_lab.FileShare.Registry.{
  Clients, placed, insert, registered, handle_reg, handle_list, Event, at_reg_port, at_list_port,
  run_server,
}

abbrev pub lookup : Bytes → Clients → Option Bytes
lookup name [] = none
lookup name (entry ∷ rest) = if texts_agree name entry.0 then some entry.1 else lookup name rest

lookup-placed :
    (name key ip : Bytes) (entry : Bytes × Bytes) (rest onward : Clients) (sign : Sign)
    → strcmp key entry.0 ≡ sign
    → lookup name onward ≡ (if texts_agree name key then some ip else lookup name rest)
    → lookup name (placed sign key ip entry rest onward)
      ≡ (if texts_agree name key then some ip else lookup name (entry ∷ rest))
unfolding placed
lookup-placed name key ip entry rest onward same e ih =
    let alike : key ≡ entry.0 = (strcmp-same_iff key entry.0).0 e in
    elim (Bool-cases (texts_agree name entry.0)) [
      | inl own ↦ rw (alike, own) refl
      | inr foreign ↦ rw (alike, foreign) refl
    ]
lookup-placed name key ip entry rest onward below e ih = refl
lookup-placed name key ip entry rest onward above e ih = elim (Bool-cases (texts_agree name key)) [
  | inl own ↦
      let alike : name ≡ key = (texts_agree_iff name key).0 own in
      let other : texts_agree name entry.0 ≡ false = rw (alike, e) refl in
      rw (own, other) (ih ∙ rw own refl)
  | inr foreign ↦ rw (ih, foreign) refl
]

lookup-insert :
    (name key ip : Bytes) (clients : Clients)
    → lookup name (insert key ip clients)
      ≡ (if texts_agree name key then some ip else lookup name clients)
unfolding insert
lookup-insert name key ip [] = refl
lookup-insert name key ip (entry ∷ rest) =
    lookup-placed name key ip entry rest (insert key ip rest) (strcmp key entry.0) refl
      (lookup-insert name key ip rest)

-- The text of a registration.
abbrev pub reg_msg : Bytes → Bytes
reg_msg name = codes "REG " ++ name

-- The address of the last registration of a name.
abbrev pub last_address : (ℕ → Bytes) → Bytes → List Event → Option Bytes → Option Bytes
last_address inet_ntop name [] known = known
last_address inet_ntop name (at_reg_port s_addr d ∷ es) known =
    last_address inet_ntop name es
      (if texts_agree d (reg_msg name) then some (inet_ntop s_addr) else known)
last_address inet_ntop name (at_list_port d ∷ es) known = last_address inet_ntop name es known

-- A datagram that leaves a NUL in the buffer, and has none of its own.
abbrev pub IsText : Bytes → Type 0
IsText d = HasNoNul d × (length d < 1024)

abbrev pub HasTexts : List Event → Type 0
HasTexts [] = Unit {0}
HasTexts (at_reg_port s_addr d ∷ es) = IsText d × HasTexts es
HasTexts (at_list_port d ∷ es) = IsText d × HasTexts es

same_tests : (a b : Bool) → ((a ≡ true) ↔ (b ≡ true)) → a ≡ b
same_tests a b h = ground arith

lookup-registered :
    (name ip d : Bytes) (clients : Clients)
    → lookup name (registered ip d clients)
      ≡ (if texts_agree d (reg_msg name) then some ip else lookup name clients)
unfolding registered
lookup-registered name ip d clients = elim (Bool-cases (texts_agree (take 4 d) (codes "REG "))) [
  | inl reg ↦
      let front : take 4 d ≡ codes "REG " = (texts_agree_iff (take 4 d) (codes "REG ")).0 reg in
      let whole : d ≡ reg_msg (drop 4 d) =
        sym (take-append-drop 4 d) ∙ ap (λ x. x ++ drop 4 d) front in
      let tests : texts_agree name (drop 4 d) ≡ texts_agree d (reg_msg name) = same_tests _ _ (
        λ h.
            (texts_agree_iff d (reg_msg name)).1
              (whole ∙ ap reg_msg (sym ((texts_agree_iff name (drop 4 d)).0 h))),
        λ h.
            (texts_agree_iff name (drop 4 d)).1
              (ap (drop 4) (sym ((texts_agree_iff d (reg_msg name)).0 h))),
      ) in
      rw (reg, lookup-insert name (drop 4 d) ip clients, tests) refl
  | inr other ↦
      let no_reg : texts_agree d (reg_msg name) ≡ false =
        elim (Bool-cases (texts_agree d (reg_msg name))) [
          | inl reg ↦ ground (
            arith,
            texts_agree_iff (take 4 d) (codes "REG "),
            other,
            ap (take 4) ((texts_agree_iff d (reg_msg name)).0 reg),
          )
          | inr no_reg ↦ no_reg
        ] in
      rw (other, no_reg) refl
]

-- However datagrams arrive at the two ports, as long as each has fewer than 1024 bytes and no NUL,
-- the server reads nothing past its buffers; and what its map then says of a name is the address
-- that the last datagram `REG ` with that name came from, or what the map said at first if there
-- was none.
pub run_server-lookup :
    (inet_ntop : ℕ → Bytes) (es : List Event) (clients : Clients)
    → HasTexts es
    → (known : Clients) × (run_server inet_ntop es clients ≡ some known)
      × ((name : Bytes) → lookup name known ≡ last_address inet_ntop name es (lookup name clients))
unfolding run_server handle_reg handle_list
run_server-lookup inet_ntop [] clients h = (clients, refl, λ name. refl)
run_server-lookup inet_ntop (at_reg_port s_addr d ∷ es) clients h =
    let (known, runs, agrees) =
      run_server-lookup inet_ntop es (registered (inet_ntop s_addr) d clients) h.1 in
    (
      known,
      rw (buffer_text-eq 1024 d h.0.0 h.0.1) runs,
      λ name.
          agrees name
          ∙ ap (last_address inet_ntop name es)
              (lookup-registered name (inet_ntop s_addr) d clients),
    )
run_server-lookup inet_ntop (at_list_port d ∷ es) clients h =
    let (known, runs, agrees) = run_server-lookup inet_ntop es clients h.1 in
    (known, rw (buffer_text-eq 1024 d h.0.0 h.0.1) runs, agrees)
