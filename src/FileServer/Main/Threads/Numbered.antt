-- ===== src/FileServer/Main/Threads/Numbered.antt =====
-- The threads by their numbers: one of them has an upload, and the others leave its file alone.
use network_programming_lab.Prelude.{
  ℕ, zero, suc, ◌+◌, ◌-◌, ◌≤◌, true, List, [], ◌∷◌, ◌++◌, Option, some, Bytes, length, take,
  get_elem?, All, All-append, ltb, ◌==◌, ◌≡◌, refl, ap, sym, subst, arith, Bool-cases, inl, inr,
}
use network_programming_lab.FileServer.Upload.{boundary_fits}
use network_programming_lab.FileServer.Main.{Machine, Connection}
use network_programming_lab.FileServer.Main.Threads.{
  Writer, fullpath, opening, Thread, starting, writing, answered, Shared, start, close_file,
  write_round, step, step_at,
}
use network_programming_lab.FileServer.Main.Threads.Kept.{
  Avoids, step-Keeps, total, confirmation, IsAtWork, step-IsAtWork,
}

-- 1 for a turn of the thread with this number.
abbrev pub own_turn : ℕ → ℕ → ℕ
own_turn zero zero = 1
own_turn (suc i) (suc j) = own_turn i j
own_turn _ _ = 0

module _ (m : Machine) (mine : Writer) where
  -- How many turns of its own the thread still needs.
  abbrev pub left : Thread → ℕ
  left (starting client) = 2 + length mine.calls
  left (writing w) = 1 + length w.calls
  left (answered answer) = 0

  start-left :
      (client : Connection) (s : Shared)
      → left (start m client s (some mine)).1 ≤ 1 + length mine.calls
  unfolding start
  start-left client s = elim (Bool-cases (boundary_fits mine.request)) [
    | inl fits ↦ rw fits (omega arith)
    | inr long ↦ rw long (omega arith)
  ]

  write_round-left :
      (w : Writer) (s : Shared) (calls : List ℕ) → left (write_round m w s calls).1 ≤ length calls
  unfolding write_round close_file
  write_round-left w s [] = omega arith
  write_round-left w s (n ∷ calls) = elim (Bool-cases (ltb w.content_read w.content_length)) [
    | inl more ↦ elim (Bool-cases (length (take n (take 1024 w.input)) == 0)) [
      | inl gone ↦ rw (more, gone) (omega arith)
      | inr came ↦ rw (more, came) (omega arith)
    ]
    | inr enough ↦ rw enough (omega arith)
  ]

  step-left :
      (s : Shared) (t : Thread) (file : Option Bytes)
      → IsAtWork m mine file t
      → left (step m s t).1 ≤ left t - 1
  unfolding step
  step-left s (starting client) file h = rw h (omega (arith, start-left client s))
  step-left s (writing w) file h = omega (arith, write_round-left w s w.calls)
  step-left s (answered answer) file h = omega arith

  -- The thread with a number is the one that writes the file, and no other does.
  abbrev pub IsKept : Option Bytes → ℕ → List Thread → Type 0
  IsKept file i [] = ⊥
  IsKept file zero (t ∷ ts) = IsAtWork m mine file t × All (Avoids m (fullpath mine)) ts
  IsKept file (suc i) (t ∷ ts) = Avoids m (fullpath mine) t × IsKept file i ts

  abbrev pub left_at : ℕ → List Thread → ℕ
  left_at i [] = 0
  left_at zero (t ∷ ts) = left t
  left_at (suc i) (t ∷ ts) = left_at i ts

  abbrev pub IsKeptBy : ℕ → ℕ → List Thread → Shared × List Thread → Type 0
  IsKeptBy i turns ts (s, moved) =
      IsKept (s.files (fullpath mine)) i moved × (left_at i moved ≤ left_at i ts - turns)

  step_at-all :
      (j : ℕ) (s : Shared) (ts : List Thread)
      → All (Avoids m (fullpath mine)) ts
      → All (Avoids m (fullpath mine)) (step_at m j s ts).1
        × ((step_at m j s ts).0.files (fullpath mine) ≡ s.files (fullpath mine))
  unfolding step_at
  step_at-all j s [] h = (tt, refl)
  step_at-all zero s (t ∷ ts) h =
      let (avoids, same) = step-Keeps m (fullpath mine) s t h.0 in ((avoids, h.1), same)
  step_at-all (suc j) s (t ∷ ts) h =
      let (avoids, same) = step_at-all j s ts h.1 in ((h.0, avoids), same)

  module _ (own : m.same_file (fullpath mine) (fullpath mine) ≡ true)
      (fits : boundary_fits mine.request ≡ true) (first : mine.total_written ≡ 0) where
    pub step_at-IsKept :
        (i j : ℕ) (s : Shared) (ts : List Thread)
        → IsKept (s.files (fullpath mine)) i ts
        → IsKeptBy i (own_turn i j) ts (step_at m j s ts)
    unfolding step_at
    step_at-IsKept i j s [] h = absurd h
    step_at-IsKept zero zero s (t ∷ ts) h =
        ((step-IsAtWork m mine s t own fits first h.0, h.1), step-left s t _ h.0)
    step_at-IsKept zero (suc j) s (t ∷ ts) h =
        let (avoid, same) = step_at-all j s ts h.1 in
        ((subst (λ file. IsAtWork m mine file t) (sym same) h.0, avoid), omega arith)
    step_at-IsKept (suc i) zero s (t ∷ ts) h =
        let (avoids, same) = step-Keeps m (fullpath mine) s t h.0 in
        ((avoids, subst (λ file. IsKept file i ts) (sym same) h.1), omega arith)
    step_at-IsKept (suc i) (suc j) s (t ∷ ts) h =
        let (kept, less) = step_at-IsKept i j s ts h.1 in ((h.0, kept), less)

  pub IsKept-append :
      (file : Option Bytes) (i : ℕ) (ts : List Thread) (t : Thread)
      → IsKept file i ts
      → Avoids m (fullpath mine) t
      → IsKept file i (ts ++ t ∷ []) × (left_at i (ts ++ t ∷ []) ≡ left_at i ts)
  IsKept-append file i [] t h avoids = absurd h
  IsKept-append file zero (x ∷ ts) t h avoids =
      ((h.0, All-append (Avoids m (fullpath mine)) ts (t ∷ []) h.1 (avoids, tt)), refl)
  IsKept-append file (suc i) (x ∷ ts) t h avoids =
      let (kept, same) = IsKept-append file i ts t h.1 avoids in ((h.0, kept), same)

  pub IsKept-answered :
      (file : Option Bytes) (i : ℕ) (ts : List Thread)
      → IsKept file i ts
      → left_at i ts ≤ 0
      → (get_elem? ts i ≡ some (answered (confirmation m mine))) × (file ≡ some (total m mine))
  IsKept-answered file i [] h none_left = absurd h
  IsKept-answered file zero (starting client ∷ ts) h none_left = absurd (omega arith)
  IsKept-answered file zero (writing w ∷ ts) h none_left = absurd (omega arith)
  IsKept-answered file zero (answered answer ∷ ts) h none_left =
      (ap (λ r. some (answered r)) h.0.1, h.0.0)
  IsKept-answered file (suc i) (t ∷ ts) h none_left = IsKept-answered file i ts h.1 none_left

  pub IsKept-starting :
      (file : Option Bytes) (client : Connection) (others : List Thread)
      → All (Avoids m (fullpath mine)) others
      → opening m client ≡ some mine
      → IsKept file (length others) (others ++ starting client ∷ [])
        × (left_at (length others) (others ++ starting client ∷ []) ≡ 2 + length mine.calls)
  IsKept-starting file client [] h e = ((e, tt), refl)
  IsKept-starting file client (t ∷ others) h e =
      let (kept, same) = IsKept-starting file client others h.1 e in ((h.0, kept), same)
