-- ===== src/Chat/Processes/Signals.antt =====
-- tcl-chatroom-server.cpp, `sig_handler` (lines 28 to 44), which the parent and its children share.
use network_programming_lab.Prelude.{
  ℕ, Bool, true, false, not, ◌&&◌, List, [], ◌∷◌, ◌≡◌, refl, ap, sym, subst, ◌∙◌, arith, Option,
  none, some, ◌>>=◌, if◌then◌else◌, Bool-cases, inl, inr,
}
use network_programming_lab.Chat.Processes.{
  Server, start, Event, connects, accept_fails, says, stop_child, step,
}
use network_programming_lab.Chat.Processes.Silence.{
  IsValid, start-IsValid, step-IsValid, stop_child-forked,
}

pub data Signal : Type 0 where
  sigint : Signal
  sigchld : Signal
  my_signal : Signal

-- Does the process end? For the other signals a line is printed.
unfoldable pub sig_handler : Signal → Bool
sig_handler sigint = true
sig_handler sigchld = false
sig_handler my_signal = false

-- The processes, and whether the parent still runs.
pub record Group : Type 0 where
  pub server : Server
  pub parent_runs : Bool

pub data Happening : Type 0 where
  happens : Event → Happening
  at_parent : Signal → Happening
  at_child : ℕ → Signal → Happening  -- at the child with a number

abbrev is_of_parent : Event → Bool
is_of_parent connects = true
is_of_parent accept_fails = true
is_of_parent (says i message) = false

abbrev behind_step : Group → Option Server → Option Group
behind_step g none = none
behind_step g (some s) = some (record g { server = s })

-- A child that a signal ends does not look for its slot.
abbrev without_child : ℕ → Group → Group
without_child i g = record g {
  server = record g.server { children = stop_child i g.server.children };
}

unfoldable pub step_group : (List ℕ → ℕ) → Happening → Group → Option Group
step_group lowest_free (happens e) g =
    if is_of_parent e && not g.parent_runs
    then some g
    else behind_step g (step lowest_free e g.server)
step_group lowest_free (at_parent signal) g =
    some (record g { parent_runs = g.parent_runs && not (sig_handler signal) })
step_group lowest_free (at_child i signal) g =
    some (if sig_handler signal then without_child i g else g)

unfoldable pub run_group : (List ℕ → ℕ) → List Happening → Group → Option Group
run_group lowest_free [] g = some g
run_group lowest_free (h ∷ hs) g = do
  next ← step_group lowest_free h g
  run_group lowest_free hs next

bind-some :
    {A B : Type 0} (o : Option A) (f : A → Option B) (b : B)
    → o >>= f ≡ some b
    → (a : A) × (o ≡ some a) × (f a ≡ some b)
bind-some none f b h = absurd (ground arith)
bind-some (some a) f b h = (a, refl, h)

module _ (lowest_free : List ℕ → ℕ) (open_descriptors : List ℕ) where
  abbrev IsQuiet : Group → Type 0
  IsQuiet g = IsValid open_descriptors (lowest_free open_descriptors) g.server

  behind_step-IsQuiet :
      (e : Event) (g t : Group) (o : Option Server)
      → step lowest_free e g.server ≡ o
      → behind_step g o ≡ some t
      → IsQuiet g
      → IsQuiet t
  behind_step-IsQuiet e g t none stepped h v = absurd (ground arith)
  behind_step-IsQuiet e g t (some s) stepped h v =
      let same : record g { server = s } ≡ t = cc in
      subst IsQuiet same (step-IsValid lowest_free open_descriptors e g.server s stepped v)

  step_group-IsQuiet :
      (h : Happening) (g t : Group) → step_group lowest_free h g ≡ some t → IsQuiet g → IsQuiet t
  unfolding step_group sig_handler
  step_group-IsQuiet (happens e) g t h v =
      let next = behind_step g (step lowest_free e g.server) in
      elim (Bool-cases (is_of_parent e && not g.parent_runs)) [
        | inl ended ↦
            let stays : some g ≡ some t = sym (ap (λ b. if b then some g else next) ended) ∙ h in
            let alike : g ≡ t = cc in subst IsQuiet alike v
        | inr goes_on ↦
            behind_step-IsQuiet e g t (step lowest_free e g.server) refl
              (sym (ap (λ b. if b then some g else next) goes_on) ∙ h) v
      ]
  step_group-IsQuiet (at_parent signal) g t h v =
      let same : record g { parent_runs = g.parent_runs && not (sig_handler signal) } ≡ t = cc in
      subst IsQuiet same v
  step_group-IsQuiet (at_child i sigint) g t h v =
      let alike : without_child i g ≡ t = cc in
      subst IsQuiet alike (record {
        kept = v.kept;
        slots = v.slots;
        forked = stop_child-forked (lowest_free open_descriptors) i g.server.children v.forked;
        silent = v.silent;
      })
  step_group-IsQuiet (at_child i sigchld) g t h v = let alike : g ≡ t = cc in subst IsQuiet alike v
  step_group-IsQuiet (at_child i my_signal) g t h v =
      let alike : g ≡ t = cc in subst IsQuiet alike v

  run_group-IsQuiet :
      (hs : List Happening) (g t : Group)
      → run_group lowest_free hs g ≡ some t
      → IsQuiet g
      → IsQuiet t
  unfolding run_group
  run_group-IsQuiet [] g t e v = let same : g ≡ t = cc in subst IsQuiet same v
  run_group-IsQuiet (h ∷ hs) g t e v =
      let (next, stepped, rest) =
        bind-some (step_group lowest_free h g) (run_group lowest_free hs) t e in
      run_group-IsQuiet hs next t rest (step_group-IsQuiet h g next stepped v)

  -- In the server with processes, if the descriptor that `accept` returns depends only on those
  -- that the parent has open: whatever clients connect, say and leave, and whichever signals reach
  -- the parent and its children, as long as the array has room, no child ever sends anything to
  -- anybody, since the parent closes each descriptor and so every client is known by the same
  -- number.
  pub run_group-silent :
      (hs : List Happening) (t : Group)
      → run_group lowest_free hs (record { server = start open_descriptors; parent_runs = true })
        ≡ some t
      → t.server.sent ≡ []
  run_group-silent hs t h =
      (run_group-IsQuiet hs _ t h (start-IsValid lowest_free open_descriptors)).silent
