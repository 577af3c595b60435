-- ===== src/Chat/Threads/Slots.antt =====
-- What the array holds for the threads, and how the two change together.
use network_programming_lab.Prelude.{
  ℕ, zero, suc, ◌+◌, ◌≤◌, ◌<◌, false, List, [], ◌∷◌, ◌++◌, map, ◌≡◌, ◌≢◌, refl, ap, sym, ◌∙◌, arith,
  some, All, length, take, get_elem?, set,
}
use network_programming_lab.Chat.Threads.{
  array_size, Phase, serving, hung_up, closed, Handler, Server, set_phase, is_closed, IsFresh,
}

-- What the array should hold for a thread.
abbrev pub slot_of : Phase → ℕ → ℕ
slot_of serving socket = socket
slot_of _ socket = 0

abbrev pub slot : Handler → ℕ
slot h = slot_of h.phase h.client_socket

-- Every thread knows its place, from `n` on.
abbrev pub Indexed : ℕ → List Handler → Type 0
Indexed n [] = Unit {0}
Indexed n (h ∷ hs) = (h.client_index ≡ n) × Indexed (n + 1) hs

-- `k` does not have the descriptor of `h` open.
abbrev pub Apart : Handler → Handler → Type 0
Apart h k =
    is_closed h.phase ≡ false → is_closed k.phase ≡ false → k.client_socket ≢ h.client_socket

abbrev pub Distinct : List Handler → Type 0
Distinct [] = Unit {0}
Distinct (h ∷ hs) = All (Apart h) hs × Distinct hs

pub record IsValid (s : Server) : Type 0 where
  pub size : length s.room.g_sockets ≡ array_size
  pub counted : s.room.g_count ≡ length s.handlers
  pub within : s.room.g_count ≤ array_size
  pub slots : take s.room.g_count s.room.g_sockets ≡ map slot s.handlers
  pub indexed : Indexed 0 s.handlers
  pub positive : All (λ h. 0 < h.client_socket) s.handlers
  pub distinct : Distinct s.handlers

module _ {ℓ} {A : Type ℓ} where
  pub take-set_end :
      (n : ℕ) (xs : List A) (x : A)
      → n < length xs
      → take (suc n) (set xs n x) ≡ take n xs ++ x ∷ []
  take-set_end n [] x h = absurd (omega arith)
  take-set_end zero (y ∷ xs) x h = refl
  take-set_end (suc n) (y ∷ xs) x h = ap (◌∷◌ y) (take-set_end n xs x (omega arith))

  pub take-set : (n i : ℕ) (xs : List A) (x : A) → take n (set xs i x) ≡ set (take n xs) i x
  take-set zero i xs x = refl
  take-set (suc n) i [] x = refl
  take-set (suc n) zero (y ∷ xs) x = refl
  take-set (suc n) (suc i) (y ∷ xs) x = ap (◌∷◌ y) (take-set n i xs x)

  pub length-set : (xs : List A) (i : ℕ) (x : A) → length (set xs i x) ≡ length xs
  length-set [] i x = refl
  length-set (y ∷ xs) zero x = refl
  length-set (y ∷ xs) (suc i) x = ap suc (length-set xs i x)

pub map-slot-append :
    (hs : List Handler) (h : Handler) → map slot (hs ++ h ∷ []) ≡ map slot hs ++ slot h ∷ []
map-slot-append [] h = refl
map-slot-append (k ∷ hs) h = ap (◌∷◌ (slot k)) (map-slot-append hs h)

module _ (p : Phase) where
  pub length-set_phase : (i : ℕ) (hs : List Handler) → length (set_phase p i hs) ≡ length hs
  unfolding set_phase
  length-set_phase i [] = refl
  length-set_phase zero (h ∷ hs) = refl
  length-set_phase (suc i) (h ∷ hs) = ap suc (length-set_phase i hs)

  pub Indexed-set_phase :
      (i n : ℕ) (hs : List Handler) → Indexed n hs → Indexed n (set_phase p i hs)
  unfolding set_phase
  Indexed-set_phase i n [] h = h
  Indexed-set_phase zero n (k ∷ hs) h = h
  Indexed-set_phase (suc i) n (k ∷ hs) h = (h.0, Indexed-set_phase i (n + 1) hs h.1)

  pub positive-set_phase :
      (i : ℕ) (hs : List Handler)
      → All (λ h. 0 < h.client_socket) hs
      → All (λ h. 0 < h.client_socket) (set_phase p i hs)
  unfolding set_phase
  positive-set_phase i [] h = h
  positive-set_phase zero (k ∷ hs) h = h
  positive-set_phase (suc i) (k ∷ hs) h = (h.0, positive-set_phase i hs h.1)

  Apart-set_phase :
      (k : Handler) (i : ℕ) (hs : List Handler) (h : Handler)
      → get_elem? hs i ≡ some h
      → is_closed h.phase ≡ false
      → All (Apart k) hs
      → All (Apart k) (set_phase p i hs)
  unfolding set_phase
  Apart-set_phase k i [] h e o a = a
  Apart-set_phase k zero (l ∷ hs) h e o a =
      let same : l ≡ h = cc in
      (λ open_k now. a.0 open_k (ap (λ (t : Handler). is_closed t.phase) same ∙ o), a.1)
  Apart-set_phase k (suc i) (l ∷ hs) h e o a = (a.0, Apart-set_phase k i hs h e o a.1)

  Apart-phase :
      (k : Handler) (hs : List Handler)
      → is_closed k.phase ≡ false
      → All (Apart k) hs
      → All (Apart (record k { phase = p })) hs
  Apart-phase k [] o a = tt
  Apart-phase k (h ∷ hs) o a = (λ now. a.0 o, Apart-phase k hs o a.1)

  pub Distinct-set_phase :
      (i : ℕ) (hs : List Handler) (h : Handler)
      → get_elem? hs i ≡ some h
      → is_closed h.phase ≡ false
      → Distinct hs
      → Distinct (set_phase p i hs)
  unfolding set_phase
  Distinct-set_phase i [] h e o d = d
  Distinct-set_phase zero (l ∷ hs) h e o d =
      let same : l ≡ h = cc in
      (Apart-phase l hs (ap (λ (t : Handler). is_closed t.phase) same ∙ o) d.0, d.1)
  Distinct-set_phase (suc i) (l ∷ hs) h e o d =
      (Apart-set_phase l i hs h e o d.0, Distinct-set_phase i hs h e o d.1)

pub slots-set_phase :
    (i : ℕ) (hs : List Handler) → map slot (set_phase hung_up i hs) ≡ set (map slot hs) i 0
unfolding set_phase
slots-set_phase i [] = refl
slots-set_phase zero (h ∷ hs) = refl
slots-set_phase (suc i) (h ∷ hs) = ap (◌∷◌ (slot h)) (slots-set_phase i hs)

pub slots-closed :
    (i : ℕ) (hs : List Handler) (h : Handler)
    → get_elem? hs i ≡ some h
    → h.phase ≡ hung_up
    → map slot (set_phase closed i hs) ≡ map slot hs
unfolding set_phase
slots-closed i [] h e p = refl
slots-closed zero (k ∷ hs) h e p =
    let same : k ≡ h = cc in
    ap (λ (x : ℕ). x ∷ map slot hs)
      (ap (λ (t : Phase). slot_of t k.client_socket) (sym (ap (λ (t : Handler). t.phase) same ∙ p)))
slots-closed (suc i) (k ∷ hs) h e p = ap (◌∷◌ (slot k)) (slots-closed i hs h e p)

pub Indexed-append :
    (n : ℕ) (hs : List Handler) (h : Handler)
    → h.client_index ≡ n + length hs
    → Indexed n hs
    → Indexed n (hs ++ h ∷ [])
Indexed-append n [] h e a = omega (arith, e)
Indexed-append n (k ∷ hs) h e a = (a.0, Indexed-append (n + 1) hs h (omega (arith, e)) a.1)

pub positive-append :
    (hs : List Handler) (h : Handler)
    → 0 < h.client_socket
    → All (λ k. 0 < k.client_socket) hs
    → All (λ k. 0 < k.client_socket) (hs ++ h ∷ [])
positive-append [] h p a = (p, tt)
positive-append (k ∷ hs) h p a = (a.0, positive-append hs h p a.1)

Apart-append :
    (k : Handler) (hs : List Handler) (h : Handler)
    → Apart k h
    → All (Apart k) hs
    → All (Apart k) (hs ++ h ∷ [])
Apart-append k [] h a as_ = (a, tt)
Apart-append k (l ∷ hs) h a as_ = (as_.0, Apart-append k hs h a as_.1)

pub Distinct-append :
    (hs : List Handler) (h : Handler)
    → IsFresh h.client_socket hs
    → Distinct hs
    → Distinct (hs ++ h ∷ [])
Distinct-append [] h fresh d = (tt, tt)
Distinct-append (k ∷ hs) h fresh d = (
  Apart-append k hs h (λ open_k now same. fresh.0 open_k (sym same)) d.0,
  Distinct-append hs h fresh.1 d.1,
)
