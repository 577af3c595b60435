-- ===== src/FileShare/Transfer/Contents.antt =====
-- What arrives of a file.
use network_programming_lab.Prelude.{
  ℕ, zero, suc, ◌+◌, ◌-◌, ◌*◌, ◌/◌, ◌%◌, ◌^◌, ◌≤◌, ◌<◌, false, List, [], ◌∷◌, ◌++◌, ◌≡◌, ◌≢◌, refl,
  ap, sym, ◌∙◌, arith, some, All, Bytes, length, take, drop, take-append-drop, length-take,
  length-drop, take-eq_of_le, min, ltb, ◌==◌, Bool-cases, inl, inr,
}
use network_programming_lab.FileServer.Output.{concat}
use network_programming_lab.FileShare.Transfer.{
  file_buffer, blocks, send_file, receive_contents, receive_file,
}

-- A 32-bit number is put together again out of its bytes.
u32_bytes :
    (v : ℕ)
    → v < 2 ^ 32
    → ((v / 16777216 % 256 * 256 + v / 65536 % 256) * 256 + v / 256 % 256) * 256 + v % 256 ≡ v
u32_bytes v h = omega arith

some_room : 0 < file_buffer
unfolding file_buffer
some_room = omega arith

pub concat-blocks :
    (n : ℕ) (contents : Bytes) → length contents ≤ n → concat (blocks n contents) ≡ contents
unfolding blocks
concat-blocks zero [] h = refl
concat-blocks zero (c ∷ cs) h = absurd (omega arith)
concat-blocks (suc n) [] h = refl
concat-blocks (suc n) (c ∷ cs) h =
    let unread : (length (c ∷ cs) == 0) ≡ false = ground arith in
    rw
      (
        unread,
        concat-blocks n (drop file_buffer (c ∷ cs))
            (omega (arith, length-drop file_buffer (c ∷ cs), some_room)),
      )
      (take-append-drop file_buffer (c ∷ cs))

take-take : (a b : ℕ) (xs : Bytes) → take a (take b xs) ≡ take (min a b) xs
take-take zero b xs = let nothing : 0 ≡ min 0 b = omega arith in ap (λ n. take n xs) nothing
take-take (suc a) zero xs =
    let nothing : 0 ≡ min (suc a) 0 = omega arith in ap (λ n. take n xs) nothing
take-take (suc a) (suc b) [] = sym (take-eq_of_le (min (suc a) (suc b)) [] (omega arith))
take-take (suc a) (suc b) (x ∷ xs) =
    let up : suc (min a b) ≡ min (suc a) (suc b) = omega arith in
    ap (◌∷◌ x) (take-take a b xs) ∙ ap (λ n. take n (x ∷ xs)) up

take-length-take : (n : ℕ) (xs : Bytes) → take (length (take n xs)) xs ≡ take n xs
take-length-take zero xs = refl
take-length-take (suc n) [] = refl
take-length-take (suc n) (x ∷ xs) = ap (◌∷◌ x) (take-length-take n xs)

take-take-drop : (k m : ℕ) (xs : Bytes) → take k xs ++ take m (drop k xs) ≡ take (k + m) xs
take-take-drop zero m xs = ap (λ n. take n xs) (omega arith)
take-take-drop (suc k) m [] =
    take-eq_of_le m [] (omega arith) ∙ sym (take-eq_of_le (suc k + m) [] (omega arith))
take-take-drop (suc k) m (x ∷ xs) =
    let up : suc (k + m) ≡ suc k + m = omega arith in
    ap (◌∷◌ x) (take-take-drop k m xs) ∙ ap (λ n. take n (x ∷ xs)) up

-- A chunk that is asked for is a front part of the input, no longer than there is room for.
module _ (room n : ℕ) (input : Bytes) where
  abbrev pub chunk : Bytes
  chunk = take n (take file_buffer (take room input))

  chunk-eq : chunk ≡ take (min n (min file_buffer room)) input
  chunk-eq =
      ap (take n) (take-take file_buffer room input) ∙ take-take n (min file_buffer room) input

  chunk-front : chunk ≡ take (length chunk) input
  chunk-front =
      chunk-eq
      ∙ sym (take-length-take (min n (min file_buffer room)) input)
      ∙ ap (λ c. take (length c) input) (sym chunk-eq)

  length-chunk : length chunk ≡ min (min n (min file_buffer room)) (length input)
  length-chunk = ap length chunk-eq ∙ length-take (min n (min file_buffer room)) input

  chunk-more : (m : ℕ) → chunk ++ take m (drop (length chunk) input) ≡ take (length chunk + m) input
  chunk-more m =
      ap (λ c. c ++ take m (drop (length chunk) input)) chunk-front
      ∙ take-take-drop (length chunk) m input

-- Whatever `recv` answers, the file is a front part of what was sent.
pub receive_contents-front :
    (file_size received : ℕ) (calls : List ℕ) (input : Bytes)
    → received ≤ file_size
    → (k : ℕ) × (k ≤ file_size - received)
      × (receive_contents file_size received calls input ≡ take k input)
unfolding receive_contents
receive_contents-front file_size received [] input h = (0, omega arith, refl)
receive_contents-front file_size received (n ∷ calls) input h =
    let room = file_size - received in
    let part = chunk room n input in
    let fits : length part ≤ room = omega (arith, length-chunk room n input) in
    let (k, small, front) =
      receive_contents-front file_size (received + length part) calls (drop (length part) input)
        (omega arith) in
    elim (Bool-cases (ltb received file_size)) [
      | inl less ↦ elim (Bool-cases (length part == 0)) [
        | inl over ↦ (0, omega arith, rw (less, over) refl)
        | inr more ↦
            (length part + k, omega arith, rw (less, more, front) (chunk-more room n input k))
      ]
      | inr full ↦ (0, omega arith, rw full refl)
    ]

no_more : (n : ℕ) (xs : Bytes) → length xs ≡ 0 → [] ≡ take n xs
no_more n [] h = sym (take-eq_of_le n [] (omega arith))
no_more n (x ∷ xs) h = absurd (omega arith)

-- As long as there is something to receive, `recv` gives a byte.
pub receive_contents_whole :
    (file_size received : ℕ) (calls : List ℕ) (input : Bytes)
    → received ≤ file_size
    → All (λ n. 0 < n) calls
    → length input ≤ length calls
    → receive_contents file_size received calls input ≡ take (file_size - received) input
unfolding receive_contents
receive_contents_whole file_size received [] [] h k enough =
    sym (take-eq_of_le (file_size - received) [] (omega arith))
receive_contents_whole file_size received [] (c ∷ cs) h k enough = absurd (omega arith)
receive_contents_whole file_size received (n ∷ calls) input h k enough =
    let room = file_size - received in
    let part = chunk room n input in
    let len = length-chunk room n input in
    elim (Bool-cases (ltb received file_size)) [
      | inl less ↦ elim (Bool-cases (length part == 0)) [
        | inl over ↦
            let empty : length input ≡ 0 = ground (arith, len, k.0, some_room) in
            rw (less, over) (no_more room input empty)
        | inr more ↦
            let some_byte : length part ≢ 0 = ground arith in
            let rest : length part + (file_size - (received + length part)) ≡ room =
              omega (arith, len) in
            let onward =
              receive_contents_whole file_size (received + length part) calls
                (drop (length part) input) (omega arith) k.1
                (omega (arith, length-drop (length part) input)) in
            rw (less, more, onward)
              (chunk-more room n input (file_size - (received + length part))
                ∙ ap (λ m. take m input) rest)
      ]
      | inr full ↦ let no_room : 0 ≡ room = ground arith in rw full (ap (λ m. take m input) no_room)
    ]

module _ (contents : Bytes) (calls : List ℕ) where
  abbrev file_size : ℕ
  file_size = length contents % 2 ^ 32

  receive_file-eq :
      receive_file 4 calls (concat (send_file contents))
      ≡ some (receive_contents file_size 0 calls contents)
  unfolding receive_file send_file
  receive_file-eq =
      let sent = concat (blocks (length contents) contents) in
      ap (λ v. some (receive_contents v 0 calls sent)) (u32_bytes file_size (omega arith))
      ∙ ap (λ c. some (receive_contents file_size 0 calls c))
          (concat-blocks (length contents) contents (omega arith))

  -- For a file that is sent whole, a first call of `recv` that takes four bytes, and then at least
  -- as many calls as the file has bytes, each of which would take at least one byte: the receiver
  -- writes the first part of the file, of as many bytes as its length modulo 2^32; a file of fewer
  -- than 2^32 bytes arrives whole.
  pub receive_file-send_file :
      All (λ n. 0 < n) calls
      → length contents ≤ length calls
      → receive_file 4 calls (concat (send_file contents)) ≡ some (take file_size contents)
  receive_file-send_file positive enough =
      let whole : file_size - 0 ≡ file_size = omega arith in
      receive_file-eq
      ∙ ap some (receive_contents_whole file_size 0 calls contents (omega arith) positive enough)
      ∙ ap (λ m. some (take m contents)) whole

  pub receive_file-front :
      (k : ℕ) × (k ≤ file_size)
      × (receive_file 4 calls (concat (send_file contents)) ≡ some (take k contents))
  receive_file-front =
      let (k, small, front) = receive_contents-front file_size 0 calls contents (omega arith) in
      (k, omega (arith, small), receive_file-eq ∙ ap some front)
