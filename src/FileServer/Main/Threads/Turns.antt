-- ===== src/FileServer/Main/Threads/Turns.antt =====
-- An upload in all interleavings of the threads.
use network_programming_lab.Prelude.{
  ℕ, ◌+◌, ◌≤◌, Bool, true, false, List, [], ◌∷◌, ◌++◌, some, Bytes, length, get_elem?, All, ◌≡◌,
  refl, ap, sym, subst, ◌∙◌, arith, if◌then◌else◌,
}
use network_programming_lab.FileServer.Upload.{stored, boundary_fits}
use network_programming_lab.FileServer.Client.{uploads}
use network_programming_lab.FileServer.Main.{Machine, Connection, reply_to}
use network_programming_lab.FileServer.Main.Threads.{
  Writer, fullpath, opening, Thread, starting, answered, Shared, seen, step_at, Turn, accepts, turn,
  run,
}
use network_programming_lab.FileServer.Main.Threads.Alone.{opening-IsOpened}
use network_programming_lab.FileServer.Main.Threads.Kept.{Misses, Avoids, total, confirmation}
use network_programming_lab.FileServer.Main.Threads.Numbered.{
  IsKept, IsKeptBy, own_turn, step_at-IsKept, IsKept-append, IsKept-answered, IsKept-starting,
}
use network_programming_lab.FileServer.Upload.Ends.{confirm-file}

-- How many of the turns are those of the thread with a number.
abbrev pub turns_of : ℕ → List Turn → ℕ
turns_of i [] = 0
turns_of i (accepts client ∷ turns) = turns_of i turns
turns_of i (turn j ∷ turns) = own_turn i j + turns_of i turns

-- The clients that come in between write no file at the path.
abbrev pub AvoidFile : Machine → Bytes → List Turn → Type 0
AvoidFile m path [] = Unit {0}
AvoidFile m path (accepts client ∷ turns) =
    Misses m path (opening m client) × AvoidFile m path turns
AvoidFile m path (turn i ∷ turns) = AvoidFile m path turns

-- What holds of a run that has not stopped.
if_running :
    (b : Bool) (onward stopped : Shared × List Thread) (Q : Shared × List Thread → Type 0)
    → (onward.0.runs ≡ true → Q onward)
    → (b ≡ false → stopped.0.runs ≡ false)
    → (if b then onward else stopped).0.runs ≡ true
    → Q (if b then onward else stopped)
if_running true onward stopped Q h off runs = h runs
if_running false onward stopped Q h off runs = absurd (ground (arith, off refl, runs))

module _ (m : Machine) (mine : Writer) (own : m.same_file (fullpath mine) (fullpath mine) ≡ true)
    (fits : boundary_fits mine.request ≡ true) (first : mine.total_written ≡ 0) where
  run-IsKept :
      (turns : List Turn) (i : ℕ) (s : Shared) (ts : List Thread)
      → IsKept m mine (s.files (fullpath mine)) i ts
      → AvoidFile m (fullpath mine) turns
      → (run m turns s ts).0.runs ≡ true
      → IsKeptBy m mine i (turns_of i turns) ts (run m turns s ts)
  unfolding run
  run-IsKept [] i s ts h avoid = λ runs. (h, omega arith)
  run-IsKept (accepts client ∷ turns) i s ts h avoid =
      let (kept, same) = IsKept-append m mine _ i ts (starting client) h avoid.0 in
      if_running s.runs _ (s, ts) (IsKeptBy m mine i (turns_of i turns) ts)
        (λ runs.
          let (last, less) = run-IsKept turns i s (ts ++ starting client ∷ []) kept avoid.1 runs in
          (last, omega (arith, same, less)))
        (λ off. off)
  run-IsKept (turn j ∷ turns) i s ts h avoid =
      let (kept, one) = step_at-IsKept m mine own fits first i j s ts h in
      let moved = step_at m j s ts in
      if_running s.runs _ (s, ts) (IsKeptBy m mine i (own_turn i j + turns_of i turns) ts)
        (λ runs.
          let (last, less) = run-IsKept turns i moved.0 moved.1 kept avoid runs in
          (last, omega (arith, one, less)))
        (λ off. off)

  run-answered :
      (s : Shared) (others : List Thread) (client : Connection) (turns : List Turn)
      → opening m client ≡ some mine
      → All (Avoids m (fullpath mine)) others
      → AvoidFile m (fullpath mine) turns
      → 2 + length mine.calls ≤ turns_of (length others) turns
      → (run m turns s (others ++ starting client ∷ [])).0.runs ≡ true
      → (get_elem? (run m turns s (others ++ starting client ∷ [])).1 (length others)
          ≡ some (answered (confirmation m mine)))
        × ((run m turns s (others ++ starting client ∷ [])).0.files (fullpath mine)
            ≡ some (total m mine))
  run-answered s others client turns opens avoid avoid_too enough runs =
      let i = length others in
      let ts = others ++ starting client ∷ [] in
      let (begun, needs) =
        IsKept-starting m mine (s.files (fullpath mine)) client others avoid opens in
      let (kept, less) = run-IsKept turns i s ts begun avoid_too runs in
      IsKept-answered m mine _ i (run m turns s ts).1 kept (omega (arith, needs, less, enough))

module _ (m : Machine) (s : Shared) (others : List Thread) (client : Connection) (turns : List Turn)
    (path file response : Bytes) where
  abbrev pub last : Shared × List Thread
  last = run m turns s (others ++ starting client ∷ [])

  -- However the turns of any number of threads interleave, and whatever clients come in between:
  -- if a client that is served alone would get a file stored, no other thread opens that file for
  -- an upload, the thread of the client gets two turns and one more for each call of `recv`, and
  -- no thread makes the server leave a buffer, then the thread has sent the answer that it sends
  -- alone, and the file holds exactly the bytes of the upload.
  pub run-uploaded :
      reply_to m client (seen m s) ≡ uploads (stored path file response)
      → m.same_file path path ≡ true
      → All (Avoids m path) others
      → AvoidFile m path turns
      → 2 + length client.calls ≤ turns_of (length others) turns
      → last.0.runs ≡ true
      → (get_elem? last.1 (length others) ≡ some (answered (uploads (stored path file response))))
        × (last.0.files path ≡ some file)
  run-uploaded alone own avoid avoid_too enough runs =
      let o = opening-IsOpened m client (seen m s) path file response alone in
      let (here, all) =
        confirm-file m.disk o.mine.path o.mine.name (fullpath o.mine) (total m o.mine) path file
          response o.confirms in
      let (answer, holds) =
        run-answered m o.mine (subst (λ p. m.same_file p p ≡ true) (sym here) own) o.fits o.first s
          others client turns o.opens (subst (λ p. All (Avoids m p) others) (sym here) avoid)
          (subst (λ p. AvoidFile m p turns) (sym here) avoid_too)
          (omega (arith, ap length o.all_calls)) runs in
      (
        answer ∙ ap (λ u. some (answered (uploads u))) o.confirms,
        ap last.0.files (sym here) ∙ holds ∙ ap some all,
      )
