-- ===== src/Sockets/Shell/Output.antt =====
-- The output of a command reaches the client whole.
use network_programming_lab.Prelude.{
  ℕ, zero, suc, ◌≤◌, ◌<◌, false, [], ◌∷◌, ◌++◌, ◌≡◌, ◌≢◌, refl, ap, sym, subst, ◌∙◌, arith, some,
  All-take, All-drop, Bytes, length, take, drop, take-append-drop, length-drop, ◌==◌,
}
use network_programming_lab.FileServer.Reader.{HasNoNul, c_string-eq}
use network_programming_lab.Sockets.Shell.{line, read_lines, exec_command, output_text}

line-front :
    (room : ℕ) (stream : Bytes) → line room stream ≡ take (length (line room stream)) stream
unfolding line
line-front zero stream = refl
line-front (suc room) [] = refl
line-front (suc room) (c ∷ cs) = ground (arith, line-front room cs)

line-more : (room : ℕ) (c : ℕ) (cs : Bytes) → 0 < room → 0 < length (line room (c ∷ cs))
unfolding line
line-more zero c cs h = absurd (omega arith)
line-more (suc room) c cs h = ground arith

pub read_lines-eq :
    (n : ℕ) (stream : Bytes) → length stream ≤ n → HasNoNul stream → read_lines n stream ≡ stream
unfolding read_lines
read_lines-eq zero [] h k = refl
read_lines-eq zero (c ∷ cs) h k = absurd (omega arith)
read_lines-eq (suc n) [] h k = unfold line in refl
read_lines-eq (suc n) (c ∷ cs) h k =
    let text = line 4095 (c ∷ cs) in
    let some_byte = line-more 4095 c cs (omega arith) in
    let front = line-front 4095 (c ∷ cs) in
    let clean : HasNoNul text =
      subst HasNoNul (sym front) (All-take (λ c. c ≢ 0) (length text) (c ∷ cs) k) in
    let onward : read_lines n (drop (length text) (c ∷ cs)) ≡ drop (length text) (c ∷ cs) =
      read_lines-eq n (drop (length text) (c ∷ cs))
        (omega (arith, length-drop (length text) (c ∷ cs)))
        (All-drop (λ c. c ≢ 0) (length text) (c ∷ cs) k) in
    let goes_on : (length text == 0) ≡ false = ground arith in
    rw (goes_on, c_string-eq text clean, onward)
      (ap (λ t. t ++ drop (length text) (c ∷ cs)) front ∙ take-append-drop (length text) (c ∷ cs))

-- Output without a NUL, and with something in it, is sent as it is.
pub output_text-eq :
    (c : ℕ) (stream : Bytes) → HasNoNul (c ∷ stream) → output_text (some (c ∷ stream)) ≡ c ∷ stream
unfolding output_text exec_command
output_text-eq c stream h =
    let whole = read_lines-eq (length (c ∷ stream)) (c ∷ stream) (omega arith) h in
    let goes_on : (length (c ∷ stream) == 0) ≡ false = ground arith in rw whole (rw goes_on refl)
