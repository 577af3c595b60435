-- ===== src/Chat/Processes/Silence.antt =====
-- All clients have the same descriptor, so that nobody is sent anything.
use network_programming_lab.Prelude.{
  ℕ, zero, suc, ◌+◌, true, false, List, [], ◌∷◌, ◌++◌, ◌≡◌, ◌≢◌, refl, ap, sym, subst, ◌∙◌, arith,
  Option, none, some, All, All-set, All-append, All-take, All-drop, All-replicate, All-get_elem?,
  Bytes, get_elem?, set, ==_refl, Bool-cases, inl, inr,
}
use network_programming_lab.Chat.Processes.{
  Socket, is_other, recipients, is_mine, forget, Child, Server, start, max_clients, Event, connects,
  accept_fails, says, fork_child, opened, closed, stop_child, to_all, child_leaves, child_round,
  child_at, step, run_on, run,
}

-- -1, a slot that is not in use, or the one descriptor that the parent ever gets.
abbrev pub IsSlot : ℕ → Socket → Type 0
IsSlot d none = Unit {0}
IsSlot d (some e) = (e ≢ 0) → e ≡ d

abbrev pub IsChild : ℕ → Child → Type 0
IsChild d c = ((e : ℕ) → c.my_socket ≡ some e → e ≡ d)

pub record IsValid (open_descriptors : List ℕ) (d : ℕ) (s : Server) : Type 0 where
  pub kept : s.open_descriptors ≡ open_descriptors
  pub slots : All (IsSlot d) s.g_shared.sockets
  pub forked : All (IsChild d) s.children
  pub silent : s.sent ≡ []

closed-opened : (m : Socket) (ds : List ℕ) → closed m (opened m ds) ≡ ds
closed-opened none ds = refl
closed-opened (some d) ds = rw (==_refl d)

abbrev with_child : Socket → Server → Server
with_child m s = record s {
  open_descriptors = closed m (opened m s.open_descriptors);
  g_shared = record {
    sockets = set s.g_shared.sockets s.g_shared.count m;
    count = s.g_shared.count + 1;
  };
  children = s.children ++ record { my_socket = m; runs = true } ∷ [];
}

forked-eq : (m : Socket) (s t : Server) → fork_child m s ≡ some t → with_child m s ≡ t
unfolding fork_child
forked-eq m s t h = ground arith

module _ (d : ℕ) where
  forget-slots :
      (my_socket : Socket) (ds : List Socket)
      → All (IsSlot d) ds
      → All (IsSlot d) (forget my_socket ds)
  unfolding forget
  forget-slots m [] h = tt
  forget-slots m (e ∷ ds) h = elim (Bool-cases (is_mine e m)) [
    | inl own ↦ rw own (tt, h.1)
    | inr other ↦ rw other (h.0, forget-slots m ds h.1)
  ]

  is_other-slot : (e : Socket) → IsSlot d e → is_other d e ≡ false
  unfolding is_other
  is_other-slot none h = refl
  is_other-slot (some e) h = ground arith

  recipients-none : (ds : List Socket) → All (IsSlot d) ds → recipients d ds ≡ []
  unfolding recipients
  recipients-none [] h = refl
  recipients-none (e ∷ ds) h = rw (is_other-slot e h.0) (recipients-none ds h.1)

  pub stop_child-forked :
      (i : ℕ) (cs : List Child) → All (IsChild d) cs → All (IsChild d) (stop_child i cs)
  unfolding stop_child
  stop_child-forked i [] h = tt
  stop_child-forked zero (c ∷ cs) h = (h.0, h.1)
  stop_child-forked (suc i) (c ∷ cs) h = (h.0, stop_child-forked i cs h.1)

  own-IsSlot : (m : Socket) → ((e : ℕ) → m ≡ some e → e ≡ d) → IsSlot d m
  own-IsSlot none own = tt
  own-IsSlot (some e) own = λ used. own e refl

  module _ (open_descriptors : List ℕ) where
    child_leaves-IsValid :
        (i : ℕ) (m : Socket) (s : Server)
        → IsValid open_descriptors d s
        → IsValid open_descriptors d (child_leaves i m s)
    unfolding child_leaves
    child_leaves-IsValid i m s v = record {
      kept = v.kept;
      slots =
          All-append (IsSlot d) _ _
            (forget-slots m _ (All-take (IsSlot d) s.g_shared.count s.g_shared.sockets v.slots))
            (All-drop (IsSlot d) s.g_shared.count s.g_shared.sockets v.slots);
      forked = stop_child-forked i s.children v.forked;
      silent = v.silent;
    }

    child_round-IsValid :
        (i : ℕ) (m : Socket) (message : Bytes) (s : Server)
        → ((e : ℕ) → m ≡ some e → e ≡ d)
        → IsValid open_descriptors d s
        → IsValid open_descriptors d (child_round i m message s)
    unfolding child_round
    child_round-IsValid i none message s own v = child_leaves-IsValid i none s v
    child_round-IsValid i (some e) [] s own v = child_leaves-IsValid i (some e) s v
    child_round-IsValid i (some e) (c ∷ cs) s own v = record {
      kept = v.kept;
      slots = v.slots;
      forked = v.forked;
      silent =
          rw
            (
              v.silent,
              own e refl,
              recipients-none _ (All-take (IsSlot d) s.g_shared.count s.g_shared.sockets v.slots),
            )
            (unfold to_all in refl);
    }

    fork_child-IsValid :
        (m : Socket) (s t : Server)
        → ((e : ℕ) → m ≡ some e → e ≡ d)
        → fork_child m s ≡ some t
        → IsValid open_descriptors d s
        → IsValid open_descriptors d t
    fork_child-IsValid m s t own h v =
        subst (IsValid open_descriptors d) (forked-eq m s t h) (record {
          kept = closed-opened m s.open_descriptors ∙ v.kept;
          slots =
              All-set (IsSlot d) s.g_shared.sockets s.g_shared.count m (own-IsSlot m own) v.slots;
          forked = All-append (IsChild d) s.children _ v.forked (own, tt);
          silent = v.silent;
        })

module _ (lowest_free : List ℕ → ℕ) (open_descriptors : List ℕ) where
  abbrev the_socket : ℕ
  the_socket = lowest_free open_descriptors

  child_at-IsValid :
      (i : ℕ) (message : Bytes) (s : Server) (c : Option Child)
      → ((x : Child) → c ≡ some x → IsChild the_socket x)
      → IsValid open_descriptors the_socket s
      → IsValid open_descriptors the_socket (child_at i message s c)
  unfolding child_at
  child_at-IsValid i message s none own v = v
  child_at-IsValid i message s (some c) own v = elim (Bool-cases c.runs) [
    | inl runs ↦
        rw runs
          (child_round-IsValid the_socket open_descriptors i c.my_socket message s (own c refl) v)
    | inr over ↦ rw over v
  ]

  pub step-IsValid :
      (e : Event) (s t : Server)
      → step lowest_free e s ≡ some t
      → IsValid open_descriptors the_socket s
      → IsValid open_descriptors the_socket t
  unfolding step
  step-IsValid connects s t h v =
      fork_child-IsValid the_socket open_descriptors (some (lowest_free s.open_descriptors)) s t
        (λ e same.
          let back : lowest_free s.open_descriptors ≡ e = cc in sym back ∙ ap lowest_free v.kept)
        h v
  step-IsValid accept_fails s t h v =
      fork_child-IsValid the_socket open_descriptors none s t (λ e same. absurd (ground arith)) h v
  step-IsValid (says i message) s t h v =
      let same : child_at i message s (get_elem? s.children i) ≡ t = cc in
      subst (IsValid open_descriptors the_socket) same (
        child_at-IsValid i message s (get_elem? s.children i)
          (λ x found. All-get_elem? (IsChild the_socket) s.children i x v.forked found) v)

  run_on-some :
      (rest : Server → Option Server) (o : Option Server) (t : Server)
      → run_on lowest_free rest o ≡ some t
      → (u : Server) × (o ≡ some u) × (rest u ≡ some t)
  unfolding run_on
  run_on-some rest none t h = absurd (ground arith)
  run_on-some rest (some u) t h = (u, refl, h)

  run-IsValid :
      (es : List Event) (s t : Server)
      → run lowest_free es s ≡ some t
      → IsValid open_descriptors the_socket s
      → IsValid open_descriptors the_socket t
  unfolding run
  run-IsValid [] s t h v =
      let same : s ≡ t = cc in subst (IsValid open_descriptors the_socket) same v
  run-IsValid (e ∷ es) s t h v =
      let (u, stepped, rest) = run_on-some (run lowest_free es) (step lowest_free e s) t h in
      run-IsValid es u t rest (step-IsValid e s u stepped v)

  pub start-IsValid : IsValid open_descriptors the_socket (start open_descriptors)
  start-IsValid = record {
    kept = refl;
    slots = All-replicate (IsSlot the_socket) max_clients (some 0) (λ used. absurd (used refl));
    forked = tt;
    silent = refl;
  }

  -- In the server with processes, if the descriptor that `accept` returns depends only on those
  -- that the parent has open: whatever clients connect, say and leave, as long as the array has
  -- room, no child ever sends anything to anybody, since the parent closes each descriptor and so
  -- every client is known by the same number.
  run-silent :
      (es : List Event) (t : Server)
      → run lowest_free es (start open_descriptors) ≡ some t
      → t.sent ≡ []
  run-silent es t h = (run-IsValid es (start open_descriptors) t h start-IsValid).silent
