-- ===== src/FileShare/Registry/Answers.antt =====
-- From the registrations to the listing that a client reads.
use network_programming_lab.Prelude.{
  ℕ, ◌≤◌, ◌<◌, true, List, [], ◌∷◌, ◌≡◌, refl, ap, sym, subst, ◌∙◌, some, All, Bytes, codes, length,
  take, drop, Bool-cases, inl, inr,
}
use network_programming_lab.Strcmp.{
  Sign, below, same, above, opposite, strcmp, texts_agree, strcmp-same_iff, strcmp-flips,
  strcmp-chains,
}
use network_programming_lab.FileShare.Streams.{int_max}
use network_programming_lab.FileShare.Streams.Laws.{buffer_text-eq}
use network_programming_lab.FileShare.Registry.{
  Clients, placed, insert, registered, handle_reg, handle_list, list_response, Event, at_reg_port,
  at_list_port, run_server, read_listing,
}
use network_programming_lab.FileShare.Registry.Lookup.{
  lookup, last_address, HasTexts, run_server-lookup,
}
use network_programming_lab.FileShare.Registry.Listing.{IsEntry, read_listing-list_response}

-- The names of a map stand in their order, and each stands once.
abbrev pub IsBefore : Bytes → Bytes × Bytes → Type 0
IsBefore name entry = strcmp name entry.0 ≡ below

abbrev pub IsMap : Clients → Type 0
IsMap [] = Unit {0}
IsMap (entry ∷ rest) = All (IsBefore entry.0) rest × IsMap rest

strcmp_trans : (a b c : Bytes) → strcmp a b ≡ below → strcmp b c ≡ below → strcmp a c ≡ below
strcmp_trans a b c h k = by_sign (strcmp a c) refl
  where
    by_sign : (sign : Sign) → strcmp a c ≡ sign → strcmp a c ≡ below
    by_sign below e = e
    by_sign same e =
        let alike : a ≡ c = (strcmp-same_iff a c).0 e in
        let back : strcmp b a ≡ below = subst (λ x. strcmp b x ≡ below) (sym alike) k in
        let flipped : strcmp b a ≡ above = strcmp-flips a b ∙ ap opposite h in cc
    by_sign above e = absurd (strcmp-chains a b c (λ x. cc) (λ x. cc) e)

-- What holds of the entries holds behind an assignment, if it holds of the new entry.
insert-All :
    (P : Bytes × Bytes → Type 0) (name ip : Bytes) (clients : Clients)
    → P (name, ip)
    → All P clients
    → All P (insert name ip clients)
unfolding insert
insert-All P name ip [] p h = (p, tt)
insert-All P name ip (entry ∷ rest) p h =
    by_sign (strcmp name entry.0) refl (insert-All P name ip rest p h.1)
  where
    by_sign :
        (sign : Sign)
        → strcmp name entry.0 ≡ sign
        → All P (insert name ip rest)
        → All P (placed sign name ip entry rest (insert name ip rest))
    by_sign same e ih = (subst (λ x. P (x, ip)) ((strcmp-same_iff name entry.0).0 e) p, h.1)
    by_sign below e ih = (p, h)
    by_sign above e ih = (h.0, ih)

pub IsBefore-all :
    (name : Bytes) (entry : Bytes × Bytes) (rest : Clients)
    → IsBefore name entry
    → All (IsBefore entry.0) rest
    → All (IsBefore name) rest
IsBefore-all name entry [] e h = tt
IsBefore-all name entry (other ∷ rest) e h =
    (strcmp_trans name entry.0 other.0 e h.0, IsBefore-all name entry rest e h.1)

insert-IsMap :
    (name ip : Bytes) (clients : Clients) → IsMap clients → IsMap (insert name ip clients)
unfolding insert
insert-IsMap name ip [] h = (tt, tt)
insert-IsMap name ip (entry ∷ rest) h =
    by_sign (strcmp name entry.0) refl (insert-IsMap name ip rest h.1)
  where
    by_sign :
        (sign : Sign)
        → strcmp name entry.0 ≡ sign
        → IsMap (insert name ip rest)
        → IsMap (placed sign name ip entry rest (insert name ip rest))
    by_sign same e ih = h
    by_sign below e ih = ((e, IsBefore-all name entry rest e h.0), h)
    by_sign above e ih = (
      insert-All (IsBefore entry.0) name ip rest (strcmp-flips name entry.0 ∙ ap opposite e) h.0,
      ih,
    )

-- Names without white space, from addresses that are written without it.
module _ (inet_ntop : ℕ → Bytes) where
  abbrev pub HasWords : List Event → Type 0
  HasWords [] = Unit {0}
  HasWords (at_reg_port s_addr d ∷ es) =
      (texts_agree (take 4 d) (codes "REG ") ≡ true → IsEntry (drop 4 d, inet_ntop s_addr))
      × HasWords es
  HasWords (at_list_port d ∷ es) = HasWords es

  registered-IsMap :
      (s_addr : ℕ) (d : Bytes) (clients : Clients)
      → IsMap clients
      → IsMap (registered (inet_ntop s_addr) d clients)
  unfolding registered
  registered-IsMap s_addr d clients h = elim (Bool-cases (texts_agree (take 4 d) (codes "REG "))) [
    | inl reg ↦ rw reg (insert-IsMap (drop 4 d) (inet_ntop s_addr) clients h)
    | inr other ↦ rw other h
  ]

  registered-IsEntry :
      (s_addr : ℕ) (d : Bytes) (clients : Clients)
      → (texts_agree (take 4 d) (codes "REG ") ≡ true → IsEntry (drop 4 d, inet_ntop s_addr))
      → All IsEntry clients
      → All IsEntry (registered (inet_ntop s_addr) d clients)
  unfolding registered
  registered-IsEntry s_addr d clients words h =
      elim (Bool-cases (texts_agree (take 4 d) (codes "REG "))) [
        | inl reg ↦ rw reg (insert-All IsEntry (drop 4 d) (inet_ntop s_addr) clients (words reg) h)
        | inr other ↦ rw other h
      ]

  pub run_server-IsMap :
      (es : List Event) (clients known : Clients)
      → HasTexts es
      → IsMap clients
      → run_server inet_ntop es clients ≡ some known
      → IsMap known
  unfolding run_server handle_reg handle_list
  run_server-IsMap [] clients known t m e = let alike : clients ≡ known = cc in subst IsMap alike m
  run_server-IsMap (at_reg_port s_addr d ∷ es) clients known t m e =
      run_server-IsMap es (registered (inet_ntop s_addr) d clients) known t.1
        (registered-IsMap s_addr d clients m) (rw (buffer_text-eq 1024 d t.0.0 t.0.1) at e)
  run_server-IsMap (at_list_port d ∷ es) clients known t m e =
      run_server-IsMap es clients known t.1 m (rw (buffer_text-eq 1024 d t.0.0 t.0.1) at e)

  run_server-IsEntry :
      (es : List Event) (clients known : Clients)
      → HasTexts es
      → HasWords es
      → All IsEntry clients
      → run_server inet_ntop es clients ≡ some known
      → All IsEntry known
  unfolding run_server handle_reg handle_list
  run_server-IsEntry [] clients known t w h e =
      let alike : clients ≡ known = cc in subst (All IsEntry) alike h
  run_server-IsEntry (at_reg_port s_addr d ∷ es) clients known t w h e =
      run_server-IsEntry es (registered (inet_ntop s_addr) d clients) known t.1 w.1
        (registered-IsEntry s_addr d clients w.0 h) (rw (buffer_text-eq 1024 d t.0.0 t.0.1) at e)
  run_server-IsEntry (at_list_port d ∷ es) clients known t w h e =
      run_server-IsEntry es clients known t.1 w h (rw (buffer_text-eq 1024 d t.0.0 t.0.1) at e)

  -- For texts that fit their buffers and names and addresses without white space: if the server,
  -- started with an empty map, has taken in any sequence of registrations and questions, the map
  -- has at most 2^31 - 1 names, and the answer to `LIST` has fewer than 4096 bytes, then what a
  -- client reads off the answer is the map of the server, in which each name stands once, in
  -- order, with the address that it registered last.
  pub run_server-read_listing :
      (es : List Event) (known : Clients)
      → HasTexts es
      → HasWords es
      → run_server inet_ntop es [] ≡ some known
      → length known ≤ int_max
      → length (list_response known) < 4096
      → (read_listing (list_response known) ≡ some known)
        × IsMap known
        × ((name : Bytes) → lookup name known ≡ last_address inet_ntop name es (lookup name []))
  run_server-read_listing es known t w e few short =
      let map_ = run_server-IsMap es [] known t tt e in
      let entries = run_server-IsEntry es [] known t w tt e in
      let (last, runs, finds) = run_server-lookup inet_ntop es [] t in
      let alike : last ≡ known = cc in
      (
        read_listing-list_response known entries few short,
        map_,
        λ name.
            subst (λ k. lookup name k ≡ last_address inet_ntop name es (lookup name [])) alike
              (finds name),
      )
