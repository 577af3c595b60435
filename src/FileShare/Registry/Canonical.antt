-- ===== src/FileShare/Registry/Canonical.antt =====
-- The map as a view of the registrations that forgets their order.
use mathlib.Core.Quot
use mathlib.Core.Quot.{Quot}
use network_programming_lab.Prelude.{
  ℕ, true, false, List, [], ◌∷◌, ◌≡◌, ◌↔◌, refl, ap, sym, subst, ◌∙◌, Option, none, some, All,
  Bytes, Bool-cases, inl, inr,
}
use network_programming_lab.Strcmp.{
  Sign, below, same, above, opposite, strcmp, texts_agree, texts_agree_iff, strcmp-same_iff,
  strcmp-flips,
}
use network_programming_lab.FileShare.Registry.{Clients, Event, run_server}
use network_programming_lab.FileShare.Registry.Lookup.{
  lookup, last_address, HasTexts, run_server-lookup,
}
use network_programming_lab.FileShare.Registry.Answers.{
  IsBefore, IsMap, IsBefore-all, run_server-IsMap,
}

-- What stands behind a name in the map has another name.
lookup-none :
    (name : Bytes) (clients : Clients) → All (IsBefore name) clients → lookup name clients ≡ none
lookup-none name [] h = refl
lookup-none name (entry ∷ rest) h =
    let other : texts_agree name entry.0 ≡ false = rw h.0 refl in
    rw other (lookup-none name rest h.1)

lookup-first :
    (entry : Bytes × Bytes) (rest : Clients) → lookup entry.0 (entry ∷ rest) ≡ some entry.1
lookup-first entry rest =
    let own : texts_agree entry.0 entry.0 ≡ true =
      rw ((strcmp-same_iff entry.0 entry.0).1 refl) refl in
    rw own refl

none-some : (x : Bytes) (o : Option Bytes) → o ≡ none → o ≡ some x → ⊥
none-some x o h k = cc

abbrev SameLookup : Clients → Clients → Type 0
SameLookup xs ys = (name : Bytes) → lookup name xs ≡ lookup name ys

SameLookup-rest :
    (x y : Bytes × Bytes) (xs ys : Clients)
    → x.0 ≡ y.0
    → All (IsBefore x.0) xs
    → All (IsBefore y.0) ys
    → SameLookup (x ∷ xs) (y ∷ ys)
    → SameLookup xs ys
SameLookup-rest x y xs ys e before_xs before_ys h name = elim (Bool-cases (texts_agree name x.0)) [
  | inl own ↦
      let a : name ≡ x.0 = (texts_agree_iff name x.0).0 own in
      let nothing : lookup x.0 ys ≡ none =
        subst (λ n. lookup n ys ≡ none) (sym e) (lookup-none y.0 ys before_ys) in
      subst (λ n. lookup n xs ≡ lookup n ys) (sym a) (lookup-none x.0 xs before_xs ∙ sym nothing)
  | inr foreign ↦
      let k : texts_agree name y.0 ≡ false = rw (← e) foreign in
      let whole : lookup name (x ∷ xs) ≡ lookup name (y ∷ ys) = h name in rw (foreign, k) at whole
]

-- A map is known by what it says of each name.
IsMap-ext : (xs ys : Clients) → IsMap xs → IsMap ys → SameLookup xs ys → xs ≡ ys
IsMap-ext [] [] m n h = refl
IsMap-ext [] (y ∷ ys) m n h = absurd (none-some y.1 _ (sym (h y.0)) (lookup-first y ys))
IsMap-ext (x ∷ xs) [] m n h = absurd (none-some x.1 _ (h x.0) (lookup-first x xs))
IsMap-ext (x ∷ xs) (y ∷ ys) m n h = by_sign (strcmp x.0 y.0) refl (IsMap-ext xs ys m.1 n.1)
  where
    by_sign : (sign : Sign) → strcmp x.0 y.0 ≡ sign → (SameLookup xs ys → xs ≡ ys) → x ∷ xs ≡ y ∷ ys
    by_sign below e ih = absurd (
        none-some x.1 (lookup x.0 (y ∷ ys))
          (lookup-none x.0 (y ∷ ys) (e, IsBefore-all x.0 y ys e n.0))
          (sym (h x.0) ∙ lookup-first x xs))
    by_sign above e ih =
        let back : strcmp y.0 x.0 ≡ below = strcmp-flips x.0 y.0 ∙ ap opposite e in
        absurd (
          none-some y.1 (lookup y.0 (x ∷ xs))
            (lookup-none y.0 (x ∷ xs) (back, IsBefore-all y.0 x xs back m.0))
            (h y.0 ∙ lookup-first y ys))
    by_sign same e ih =
        let alike : x.0 ≡ y.0 = (strcmp-same_iff x.0 y.0).0 e in
        let theirs : lookup x.0 (y ∷ ys) ≡ some y.1 =
          subst (λ n. lookup n (y ∷ ys) ≡ some y.1) (sym alike) (lookup-first y ys) in
        let as_options : some x.1 ≡ some y.1 = sym (lookup-first x xs) ∙ h x.0 ∙ theirs in
        let values : x.1 ≡ y.1 = cc in
        ap (λ name. (name, x.1) ∷ xs) alike
        ∙ ap (λ ip. (y.0, ip) ∷ xs) values
        ∙ ap (λ rest. y ∷ rest) (ih (SameLookup-rest x y xs ys alike m.0 n.0 h))

module _ (inet_ntop : ℕ → Bytes) where
  -- What the server has received, as far as its buffers hold it.
  abbrev pub Texts : Type 0
  Texts = (es : List Event) × HasTexts es

  abbrev pub SameAddresses : Texts → Texts → Type 0
  SameAddresses e f =
      (name : Bytes) → last_address inet_ntop name e.0 none ≡ last_address inet_ntop name f.0 none

  -- What was received, up to the order and the registrations that others have replaced.
  abbrev pub View : Type 0
  View = Quot SameAddresses

  known_clients : Texts → Clients
  known_clients e = (run_server-lookup inet_ntop e.0 [] e.1).0

  known_clients-same : (e f : Texts) → SameAddresses e f → known_clients e ≡ known_clients f
  unfolding known_clients
  known_clients-same e f h =
      let (xs, runs, finds) = run_server-lookup inet_ntop e.0 [] e.1 in
      let (ys, runs_too, finds_too) = run_server-lookup inet_ntop f.0 [] f.1 in
      IsMap-ext xs ys (run_server-IsMap inet_ntop e.0 [] xs e.1 tt runs)
        (run_server-IsMap inet_ntop f.0 [] ys f.1 tt runs_too)
        (λ name. finds name ∙ h name ∙ sym (finds_too name))

  view_clients : View → Clients
  view_clients = Quot.lift (hlevel) known_clients known_clients-same

  run_server-view : (e : Texts) → run_server inet_ntop e.0 [] ≡ some (view_clients (Quot.mk e))
  unfolding view_clients known_clients
  run_server-view e = (run_server-lookup inet_ntop e.0 [] e.1).1

  SameAddresses-runs :
      (e f : Texts) → run_server inet_ntop e.0 [] ≡ run_server inet_ntop f.0 [] → SameAddresses e f
  SameAddresses-runs e f agree name =
      let (xs, runs, finds) = run_server-lookup inet_ntop e.0 [] e.1 in
      let (ys, runs_too, finds_too) = run_server-lookup inet_ntop f.0 [] f.1 in
      let alike : xs ≡ ys = cc in sym (finds name) ∙ ap (lookup name) alike ∙ finds_too name

  -- For any two sequences of registrations and questions that fit their buffers: the server,
  -- started with an empty map, has the same map behind both exactly if the two are equal in the
  -- quotient that forgets everything but the address that each name was last registered from. So
  -- neither the order of the registrations nor the ones that others have replaced can be seen in
  -- the map.
  pub run_server-View :
      (e f : Texts)
      → (run_server inet_ntop e.0 [] ≡ run_server inet_ntop f.0 [])
        ↔ (◌≡◌ {A = View} (Quot.mk e) (Quot.mk f))
  run_server-View e f = (
    λ agree. Quot.sound (SameAddresses-runs e f agree),
    λ agree. run_server-view e ∙ ap (λ v. some (view_clients v)) agree ∙ sym (run_server-view f),
  )
