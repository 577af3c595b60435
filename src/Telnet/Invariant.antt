-- ===== src/Telnet/Invariant.antt =====
-- What holds of the mutex and the file, and that a step of a thread keeps it.
use network_programming_lab.Prelude.{
  ℕ, ◌+◌, ◌≤◌, Bool, true, false, List, [], ◌∷◌, ◌++◌, ◌≡◌, refl, ap, sym, ◌∙◌, arith, Bool-cases,
  inl, inr, Bytes, length, append-nil, append_assoc, ◌==◌,
}
use network_programming_lab.Telnet.{
  Thread, receiving, locking, opening, writing, unlocking, finished, Shared, Event, gets,
  cannot_open, goes_on, move,
}

-- Is the thread between the two calls for the mutex?
abbrev pub is_inside : Thread → ℕ
is_inside (opening text) = 1
is_inside (writing rest) = 1
is_inside unlocking = 1
is_inside _ = 0

abbrev pub inside : List Thread → ℕ
inside [] = 0
inside (t ∷ ts) = is_inside t + inside ts

abbrev pub lacking : Thread → Bytes
lacking (writing rest) = rest
lacking _ = []

-- The bytes that the file still lacks.
abbrev pub pending : List Thread → Bytes
pending [] = []
pending (t ∷ ts) = lacking t ++ pending ts

abbrev pub lines : List Bytes → Bytes
lines [] = []
lines (text ∷ texts) = (text ++ b'\n' ∷ []) ++ lines texts

abbrev pub count : Bool → ℕ
count true = 1
count false = 0

-- The state that the turns have reached, from a file with `before` in it: the mutex counts the threads
-- inside, and the file has its lines but for what is pending. `others` and `front` are the count and
-- the pending bytes of threads in front of `ts`.
pub record IsValid (before : Bytes) (others : ℕ) (front : Bytes) (s : Shared) (ts : List Thread)
    : Type 0 where
  pub one_inside : others + inside ts ≡ count s.locked
  pub whole_lines : s.file ++ (front ++ pending ts) ≡ before ++ lines s.messages

lines-append :
    (texts : List Bytes) (text : Bytes)
    → lines (texts ++ text ∷ []) ≡ lines texts ++ (text ++ b'\n' ∷ [])
lines-append [] text = append-nil (text ++ b'\n' ∷ [])
lines-append (t ∷ texts) text =
    ap (◌++◌ (t ++ b'\n' ∷ [])) (lines-append texts text)
    ∙ sym (append_assoc (t ++ b'\n' ∷ []) (lines texts) (text ++ b'\n' ∷ []))

pub lacking-none : (t : Thread) → is_inside t ≡ 0 → lacking t ≡ []
lacking-none (writing rest) h = absurd (omega arith)
lacking-none (opening text) h = refl
lacking-none (locking text) h = refl
lacking-none receiving h = refl
lacking-none unlocking h = refl
lacking-none finished h = refl

pub pending-none : (ts : List Thread) → inside ts ≡ 0 → pending ts ≡ []
pending-none [] h = refl
pending-none (t ∷ ts) h = rw (lacking-none t (omega arith)) (pending-none ts (omega arith))

pub count-bound : (b : Bool) → count b ≤ 1
count-bound true = omega arith
count-bound false = omega arith

module _ (before : Bytes) (others : ℕ) (front : Bytes) (front_none : others ≡ 0 → front ≡ []) where
  -- Nothing is pending beside the one thread inside.
  alone :
      (b : Bool) (ts : List Thread)
      → others + (1 + inside ts) ≡ count b
      → (front ≡ []) × (pending ts ≡ [])
  alone b ts h =
      let bound = count-bound b in
      (front_none (omega (arith, h, bound)), pending-none ts (omega (arith, h, bound)))

  -- The file when nothing is pending.
  pub nothing_pending :
      (s : Shared) (ts : List Thread)
      → front ≡ []
      → pending ts ≡ []
      → s.file ++ (front ++ pending ts) ≡ before ++ lines s.messages
      → s.file ≡ before ++ lines s.messages
  nothing_pending s ts f p h =
      sym (append-nil s.file)
      ∙ ap (λ x. s.file ++ (x ++ [])) (sym f)
      ∙ ap (λ x. s.file ++ (front ++ x)) (sym p)
      ∙ h

  opens :
      (s : Shared) (text : Bytes) (ts : List Thread)
      → IsValid before others front s (opening text ∷ ts)
      → s.file ++ (front ++ ((text ++ b'\n' ∷ []) ++ pending ts))
        ≡ before ++ lines (s.messages ++ text ∷ [])
  opens s text ts v =
      let (f, p) = alone s.locked ts v.one_inside in
      let line = text ++ b'\n' ∷ [] in
      rw
        (
          f,
          p,
          append-nil line,
          lines-append s.messages text,
          ← append_assoc before (lines s.messages) line,
        )
        (ap (λ x. x ++ line) (nothing_pending s ts f p v.whole_lines))

  writes :
      (s : Shared) (c : ℕ) (rest : Bytes) (ts : List Thread)
      → IsValid before others front s (writing (c ∷ rest) ∷ ts)
      → (s.file ++ c ∷ []) ++ (front ++ (rest ++ pending ts)) ≡ before ++ lines s.messages
  writes s c rest ts v =
      let (f, p) = alone s.locked ts v.one_inside in
      rw f (
        append_assoc s.file (c ∷ []) (rest ++ pending ts)
        ∙ ap (λ x. s.file ++ (x ++ c ∷ (rest ++ pending ts))) (sym f)
        ∙ v.whole_lines)

  pub move-IsValid :
      (e : Event) (s : Shared) (t : Thread) (ts : List Thread)
      → IsValid before others front s (t ∷ ts)
      → IsValid before others front (move e s t).0 ((move e s t).1 ∷ ts)
  unfolding move
  move-IsValid (gets d) s receiving ts v = elim (Bool-cases (length d == 0)) [
    | inl e ↦ rw e (record { one_inside = v.one_inside; whole_lines = v.whole_lines })
    | inr e ↦ rw e (record { one_inside = v.one_inside; whole_lines = v.whole_lines })
  ]
  move-IsValid goes_on s (locking text) ts v = elim (Bool-cases s.locked) [
    | inl e ↦ rw e (record {
      one_inside = omega (arith, v.one_inside, ap count e);
      whole_lines = v.whole_lines;
    })
    | inr e ↦ rw e (record {
      one_inside = omega (arith, v.one_inside, ap count e);
      whole_lines = v.whole_lines;
    })
  ]
  move-IsValid cannot_open s (opening text) ts v = record {
    one_inside = v.one_inside;
    whole_lines = v.whole_lines;
  }
  move-IsValid goes_on s (opening text) ts v = record {
    one_inside = v.one_inside;
    whole_lines = opens s text ts v;
  }
  move-IsValid goes_on s (writing (c ∷ rest)) ts v = record {
    one_inside = v.one_inside;
    whole_lines = writes s c rest ts v;
  }
  move-IsValid goes_on s (writing []) ts v = record {
    one_inside = v.one_inside;
    whole_lines = v.whole_lines;
  }
  move-IsValid goes_on s unlocking ts v = record {
    one_inside = omega (arith, v.one_inside, count-bound s.locked);
    whole_lines = v.whole_lines;
  }
  move-IsValid _ s t ts v = record { one_inside = v.one_inside; whole_lines = v.whole_lines }
