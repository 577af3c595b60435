-- ===== src/FileServer/Reader.antt =====
-- np20.c, the two loops of `ClientThread` that receive a byte at a time up to an empty line (lines
-- 166 to 177 and 268 to 280).
use network_programming_lab.Prelude.{
  ℕ, Bool, true, false, [], ◌∷◌, ◌++◌, ◌≡◌, ◌≢◌, refl, ap, ◌∙◌, arith, All, Bytes, codes,
  append-nil, append_assoc, if◌then◌else◌,
}
use network_programming_lab.Scanf.{c_string}
use network_programming_lab.FileServer.Text.{strstr, contains, contains-append, contains-behind}

abbrev pub blank_line : Bytes
blank_line = codes "\r\n\r\n"

-- The buffer is never ended by a NUL, so `strstr` reads on in the memory behind it: `behind body` is
-- what stands there when the buffer holds `body`. An empty buffer is NULL.
unfoldable pub as_text : (Bytes → Bytes) → Bytes → Bytes
as_text behind body = c_string (body ++ behind body)

unfoldable pub is_complete : (Bytes → Bytes) → Bytes → Bool
is_complete behind [] = false
is_complete behind (c ∷ cs) = contains (as_text behind (c ∷ cs)) blank_line

-- The bytes in the buffer when the loop ends, and those that are left to receive. `recv` returns 0 or
-- less when there are none.
unfoldable pub read_part : (Bytes → Bytes) → Bytes → Bytes → Bytes × Bytes
read_part behind body [] = (body, [])
read_part behind body (chr ∷ input) =
    let onward = read_part behind (body ++ chr ∷ []) input in
    if is_complete behind body then (body, chr ∷ input) else onward

-- Memory that is zero behind the buffer.
abbrev pub zeroed : Bytes → Bytes
zeroed body = []

abbrev pub HasNoNul : Bytes → Type 0
HasNoNul = All (λ c. c ≢ 0)

pub c_string-eq : (text : Bytes) → HasNoNul text → c_string text ≡ text
unfolding c_string
c_string-eq [] h = refl
c_string-eq (c ∷ cs) h = ground (arith, h.0, c_string-eq cs h.1)

pub as_text-zeroed : (body : Bytes) → HasNoNul body → as_text zeroed body ≡ body
unfolding as_text
as_text-zeroed body h = rw (append-nil body) (c_string-eq body h)

pub is_complete-zeroed :
    (body : Bytes) → HasNoNul body → is_complete zeroed body ≡ contains body blank_line
unfolding is_complete
is_complete-zeroed [] h = unfold strstr in refl
is_complete-zeroed (c ∷ cs) h = ap (λ t. contains t blank_line) (as_text-zeroed (c ∷ cs) h)

read_part_complete :
    (body input : Bytes)
    → HasNoNul body
    → contains body blank_line ≡ true
    → read_part zeroed body input ≡ (body, input)
unfolding read_part
read_part_complete body [] h k = refl
read_part_complete body (chr ∷ input) h k = rw (is_complete-zeroed body h ∙ k) refl

pub HasNoNul-prefix : (text more : Bytes) → HasNoNul (text ++ more) → HasNoNul text
HasNoNul-prefix [] more h = tt
HasNoNul-prefix (c ∷ text) more h = (h.0, HasNoNul-prefix text more h.1)

HasNoNul-append : (text more : Bytes) → HasNoNul text → HasNoNul more → HasNoNul (text ++ more)
HasNoNul-append [] more h k = k
HasNoNul-append (c ∷ text) more h k = (h.0, HasNoNul-append text more h.1 k)

not_complete :
    (body more : Bytes)
    → HasNoNul body
    → contains (body ++ more) blank_line ≡ false
    → is_complete zeroed body ≡ false
not_complete body more h early =
    is_complete-zeroed body h ∙ ground (arith, contains-append body blank_line more)

read_part_up_to :
    (body text : Bytes) (last : ℕ) (input : Bytes)
    → HasNoNul (body ++ (text ++ last ∷ []))
    → contains (body ++ text) blank_line ≡ false
    → contains (body ++ (text ++ last ∷ [])) blank_line ≡ true
    → read_part zeroed body (text ++ last ∷ input) ≡ (body ++ (text ++ last ∷ []), input)
unfolding read_part
read_part_up_to body [] last input h early done =
    rw (not_complete body [] (HasNoNul-prefix body (last ∷ []) h) early)
      (read_part_complete (body ++ last ∷ []) input h done)
read_part_up_to body (c ∷ text) last input h early done =
    rw (not_complete body (c ∷ text) (HasNoNul-prefix body _ h) early) (
      rw (← append_assoc body (c ∷ []) (text ++ last ∷ [])) (
        read_part_up_to (body ++ c ∷ []) text last input
          (rw (append_assoc body (c ∷ []) (text ++ last ∷ [])) h)
          (rw (append_assoc body (c ∷ []) text) early)
          (rw (append_assoc body (c ∷ []) (text ++ last ∷ [])) done)))

-- In zeroed memory, the loop that receives a byte at a time stops exactly behind the first empty
-- line of what the client sends, and leaves the rest to receive, if no NUL stands in front of it.
pub read_part_lem :
    (lines input : Bytes)
    → HasNoNul lines
    → contains (lines ++ codes "\r\n\r") blank_line ≡ false
    → read_part zeroed [] (lines ++ (blank_line ++ input)) ≡ (lines ++ blank_line, input)
read_part_lem lines input h early =
    let start = codes "\r\n\r" in
    let split : (lines ++ start) ++ b'\n' ∷ [] ≡ lines ++ blank_line =
      append_assoc lines start (b'\n' ∷ []) in
    rw (← append_assoc lines start (b'\n' ∷ input), ← split)
      (read_part_up_to [] (lines ++ start) b'\n' input
        (rw split (HasNoNul-append lines blank_line h (ground arith))) early
        (rw split (contains-behind lines blank_line)))
