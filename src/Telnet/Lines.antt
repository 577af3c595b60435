-- ===== src/Telnet/Lines.antt =====
-- The mutex keeps the lines of the file whole.
use network_programming_lab.Prelude.{
  ℕ, zero, suc, ◌+◌, false, List, [], ◌∷◌, ◌++◌, ◌≡◌, refl, ap, arith, Bytes, append_assoc,
}
use network_programming_lab.Telnet.{
  Thread, receiving, Shared, Event, move_at, Turn, accepts, turn, run,
}
use network_programming_lab.Telnet.Invariant.{
  is_inside, inside, lacking, pending, lines, count, IsValid, lacking-none, pending-none,
  nothing_pending, move-IsValid,
}

move_at-IsValid :
    (before : Bytes) (others : ℕ) (front : Bytes)
    → (others ≡ 0 → front ≡ [])
    → (i : ℕ) (e : Event) (s : Shared) (ts : List Thread) → IsValid before others front s ts
    → IsValid before others front (move_at i e s ts).0 (move_at i e s ts).1
unfolding move_at
move_at-IsValid before others front none_ i e s [] v = v
move_at-IsValid before others front none_ zero e s (t ∷ ts) v =
    move-IsValid before others front none_ e s t ts v
move_at-IsValid before others front none_ (suc i) e s (t ∷ ts) v =
    let onward =
      move_at-IsValid before (others + is_inside t) (front ++ lacking t) none_more i e s ts
        (record {
          one_inside = omega (arith, v.one_inside);
          whole_lines = rw (append_assoc front (lacking t) (pending ts)) v.whole_lines;
        }) in
    record {
      one_inside = omega (arith, onward.one_inside);
      whole_lines =
          rw (← append_assoc front (lacking t) (pending (move_at i e s ts).1)) onward.whole_lines;
    }
  where
    none_more : others + is_inside t ≡ 0 → front ++ lacking t ≡ []
    none_more h = rw (none_ (omega (arith, h)), lacking-none t (omega (arith, h))) refl

accepts-IsValid :
    (before : Bytes) (s : Shared) (ts : List Thread)
    → IsValid before 0 [] s ts
    → IsValid before 0 [] s (ts ++ receiving ∷ [])
accepts-IsValid before s ts v = record {
  one_inside = omega (arith, inside-accepts ts, v.one_inside);
  whole_lines = rw (pending-accepts ts) v.whole_lines;
}
  where
    inside-accepts : (ts : List Thread) → inside (ts ++ receiving ∷ []) ≡ inside ts
    inside-accepts [] = refl
    inside-accepts (t ∷ ts) = ap (◌+◌ (is_inside t)) (inside-accepts ts)

    pending-accepts : (ts : List Thread) → pending (ts ++ receiving ∷ []) ≡ pending ts
    pending-accepts [] = refl
    pending-accepts (t ∷ ts) = ap (◌++◌ (lacking t)) (pending-accepts ts)

run-IsValid :
    (before : Bytes) (turns : List Turn) (s : Shared) (ts : List Thread)
    → IsValid before 0 [] s ts
    → IsValid before 0 [] (run turns s ts).0 (run turns s ts).1
unfolding run
run-IsValid before [] s ts v = v
run-IsValid before (accepts ∷ turns) s ts v =
    run-IsValid before turns s (ts ++ receiving ∷ []) (accepts-IsValid before s ts v)
run-IsValid before (turn i e ∷ turns) s ts v =
    run-IsValid before turns _ _ (move_at-IsValid before 0 [] (λ h. refl) i e s ts v)

-- The server before its first client: nobody has the mutex.
abbrev pub fresh : Bytes → Shared
fresh before = record { file = before; locked = false; messages = [] }

-- However the turns of any number of clients interleave, from a mutex that is free and a file with
-- anything in it: exactly one thread is between the two calls for the mutex if it is locked, and
-- none if not; and the file, followed by what that thread has still to write, is what it was,
-- followed by one line for each opening of the file, in their order.
pub run-lines :
    (before : Bytes) (turns : List Turn)
    → let s = (run turns (fresh before) []).0 in
      let ts = (run turns (fresh before) []).1 in
      (inside ts ≡ count s.locked) × (s.file ++ pending ts ≡ before ++ lines s.messages)
run-lines before turns =
    let v =
      run-IsValid before turns (fresh before) []
        (record { one_inside = refl; whole_lines = refl }) in
    (omega (arith, v.one_inside), v.whole_lines)

-- However the turns of any number of clients interleave, whenever the mutex is free the file has
-- what it had at first and a whole line for each opening of the file, in their order.
run-unlocked :
    (before : Bytes) (turns : List Turn)
    → let s = (run turns (fresh before) []).0 in
      s.locked ≡ false → s.file ≡ before ++ lines s.messages
run-unlocked before turns open_ =
    let s = (run turns (fresh before) []).0 in
    let ts = (run turns (fresh before) []).1 in
    let (one, whole) = run-lines before turns in
    nothing_pending before 0 [] (λ h. refl) s ts refl
      (pending-none ts (omega (arith, one, ap count open_))) whole
