-- ===== src/FileServer/Main/Threads/Kept.antt =====
-- An upload among other threads: its file is written as if it were alone.
use network_programming_lab.Prelude.{
  ℕ, ◌+◌, ◌-◌, true, false, List, [], ◌∷◌, ◌++◌, append-nil, append_assoc, Option, none, some,
  Bytes, length, take, drop, take-eq_of_le, drop-eq-nil_of_le, length-append, length-drop, ltb,
  ◌==◌, ◌≡◌, refl, ap, sym, ◌∙◌, arith, Bool-cases, inl, inr,
}
use network_programming_lab.FileServer.Upload.{receive, confirm, boundary_fits}
use network_programming_lab.FileServer.Client.{Reply, uploads}
use network_programming_lab.FileServer.Main.{Machine, Connection}
use network_programming_lab.FileServer.Main.Threads.{
  Writer, fullpath, opening, Thread, starting, writing, answered, Shared, updated, put_at, wrote,
  write_chunk, start, close_file, write_round, step,
}

put_at_end : (file chunk : Bytes) → put_at (length file) chunk file ≡ file ++ chunk
unfolding put_at
put_at_end file chunk =
    let none_left : drop (length chunk) (drop (length file) file) ≡ [] =
      drop-eq-nil_of_le (length chunk) (drop (length file) file)
        (omega (arith, length-drop (length file) file)) in
    let no_gap : length file - length file ≡ 0 = omega arith in
    rw
      (
        no_gap,
        append-nil file,
        take-eq_of_le (length file) file (omega arith),
        none_left,
        append-nil chunk,
      )
      refl

module _ (m : Machine) (path : Bytes) where
  -- A thread that never opens the file.
  abbrev pub Misses : Option Writer → Type 0
  Misses none = Unit {0}
  Misses (some w) = m.same_file path (fullpath w) ≡ false

  abbrev pub Avoids : Thread → Type 0
  Avoids (starting client) = Misses (opening m client)
  Avoids (writing w) = m.same_file path (fullpath w) ≡ false
  Avoids (answered reply) = Unit {0}

  abbrev pub Keeps : Shared → Shared × Thread → Type 0
  Keeps s (next, t) = Avoids t × (next.files path ≡ s.files path)

  start-Keeps :
      (client : Connection) (s : Shared) (opened : Option Writer)
      → Misses opened
      → Keeps s (start m client s opened)
  unfolding start updated
  start-Keeps client s none h = (tt, refl)
  start-Keeps client s (some w) h = elim (Bool-cases (boundary_fits w.request)) [
    | inl fits ↦ rw fits (h, rw h refl)
    | inr long ↦ rw long (tt, rw h refl)
  ]

  write_round-Keeps :
      (w : Writer) (s : Shared) (calls : List ℕ)
      → m.same_file path (fullpath w) ≡ false
      → Keeps s (write_round m w s calls)
  unfolding write_round close_file updated
  write_round-Keeps w s [] h = (tt, refl)
  write_round-Keeps w s (n ∷ calls) h = elim (Bool-cases (ltb w.content_read w.content_length)) [
    | inl more ↦ elim (Bool-cases (length (take n (take 1024 w.input)) == 0)) [
      | inl gone ↦ rw (more, gone) (tt, refl)
      | inr came ↦ rw (more, came) (h, rw h refl)
    ]
    | inr enough ↦ rw enough (tt, refl)
  ]

  pub step-Keeps : (s : Shared) (t : Thread) → Avoids t → Keeps s (step m s t)
  unfolding step
  step-Keeps s (starting client) h = start-Keeps client s (opening m client) h
  step-Keeps s (writing w) h = write_round-Keeps w s w.calls h
  step-Keeps s (answered reply) h = (tt, refl)

module _ (m : Machine) (mine : Writer) where
  abbrev pub path : Bytes
  path = fullpath mine

  abbrev pub total : Bytes
  total = receive mine.content_length mine.content_read mine.calls mine.input

  abbrev pub confirmation : Reply
  confirmation = uploads (confirm m.disk mine.path mine.name path total)

  -- What the file holds, and where the thread is that writes it.
  abbrev pub IsWriting : Option Bytes → Writer → Type 0
  IsWriting file w =
      (w.path ≡ mine.path)
      × (w.name ≡ mine.name)
      × ((front : Bytes) × (file ≡ some front)
          × (length front ≡ w.total_written)
          × (front ++ receive w.content_length w.content_read w.calls w.input ≡ total))

  abbrev pub IsAtWork : Option Bytes → Thread → Type 0
  IsAtWork file (starting client) = opening m client ≡ some mine
  IsAtWork file (writing w) = IsWriting file w
  IsAtWork file (answered answer) = (file ≡ some total) × (answer ≡ confirmation)

  close-IsAtWork :
      (w : Writer) (s : Shared)
      → w.path ≡ mine.path
      → w.name ≡ mine.name
      → s.files path ≡ some total
      → IsAtWork ((close_file m w s).0.files path) (close_file m w s).1
  unfolding close_file
  close-IsAtWork w s p n h = (h, rw (p, n, h) refl)

  whole :
      (w : Writer) (front : Bytes) (calls : List ℕ)
      → front ++ receive w.content_length w.content_read w.calls w.input ≡ total
      → w.calls ≡ calls
      → receive w.content_length w.content_read calls w.input ≡ []
      → front ≡ total
  whole w front calls h e nothing =
      sym (append-nil front)
      ∙ ap (λ rest. front ++ rest)
          (sym (ap (λ c. receive w.content_length w.content_read c w.input) e ∙ nothing))
      ∙ h

  wrote-IsWriting :
      (w : Writer) (s : Shared) (calls : List ℕ) (chunk : Bytes)
      → m.same_file path path ≡ true
      → IsWriting (s.files path) w
      → receive w.content_length w.content_read w.calls w.input
        ≡ chunk
          ++ receive w.content_length
              (w.content_read + length chunk)
              calls
              (drop (length chunk) w.input)
      → IsWriting ((write_chunk m w chunk s).files path) (wrote m w calls chunk)
  unfolding updated
  wrote-IsWriting w s calls chunk own (p, name, (front, holds, long, rest)) more =
      let here : fullpath w ≡ path = rw (p, name) refl in
      (
        p,
        name,
        (
          front ++ chunk,
          rw (here, own, holds, ← long, put_at_end front chunk) refl,
          omega (arith, length-append front chunk),
          append_assoc front chunk _ ∙ ap (λ rest. front ++ rest) (sym more) ∙ rest,
        ),
      )

  write_round-IsAtWork :
      (w : Writer) (s : Shared) (calls : List ℕ)
      → m.same_file path path ≡ true
      → w.calls ≡ calls
      → IsWriting (s.files path) w
      → IsAtWork ((write_round m w s calls).0.files path) (write_round m w s calls).1
  unfolding write_round receive
  write_round-IsAtWork w s [] own e (p, name, (front, holds, long, rest)) =
      close-IsAtWork w s p name (holds ∙ ap some (whole w front [] rest e refl))
  write_round-IsAtWork w s (n ∷ calls) own e (p, name, (front, holds, long, rest)) =
      elim (Bool-cases (ltb w.content_read w.content_length)) [
        | inl more ↦ elim (Bool-cases (length (take n (take 1024 w.input)) == 0)) [
          | inl gone ↦
              let all : front ≡ total = whole w front (n ∷ calls) rest e (rw (more, gone) refl) in
              rw (more, gone) (close-IsAtWork w s p name (holds ∙ ap some all))
          | inr came ↦
              let onward =
                wrote-IsWriting w s calls (take n (take 1024 w.input)) own
                  (p, name, (front, holds, long, rest)) (rw (e, more, came) refl) in
              rw (more, came) onward
        ]
        | inr enough ↦
            let all : front ≡ total = whole w front (n ∷ calls) rest e (rw enough refl) in
            rw enough (close-IsAtWork w s p name (holds ∙ ap some all))
      ]

  start-IsAtWork :
      (client : Connection) (s : Shared)
      → m.same_file path path ≡ true
      → boundary_fits mine.request ≡ true
      → mine.total_written ≡ 0
      → IsAtWork ((start m client s (some mine)).0.files path) (start m client s (some mine)).1
  unfolding start updated
  start-IsAtWork client s own fits first = rw (fits, own) (refl, refl, ([], refl, sym first, refl))

  pub step-IsAtWork :
      (s : Shared) (t : Thread)
      → m.same_file path path ≡ true
      → boundary_fits mine.request ≡ true
      → mine.total_written ≡ 0
      → IsAtWork (s.files path) t
      → IsAtWork ((step m s t).0.files path) (step m s t).1
  unfolding step
  step-IsAtWork s (starting client) own fits first h = rw h (start-IsAtWork client s own fits first)
  step-IsAtWork s (writing w) own fits first h = write_round-IsAtWork w s w.calls own refl h
  step-IsAtWork s (answered answer) own fits first h = h
