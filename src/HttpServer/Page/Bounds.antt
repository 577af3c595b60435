-- ===== src/HttpServer/Page/Bounds.antt =====
-- When the calls stay inside the buffer, and what they leave in it.
use network_programming_lab.Prelude.{
  ℕ, zero, suc, ◌+◌, ◌-◌, ◌%◌, ◌^◌, ◌≤◌, ◌<◌, List, [], ◌∷◌, ◌++◌, ◌≡◌, refl, ap, ◌∙◌, arith, none,
  some, Bytes, length, take, leb, if◌then◌else◌, length-append, length-take, take-eq_of_le,
  append_assoc, append-nil, dec_lt,
}
use network_programming_lab.HttpServer.Page.{Page, blank, size_mod, print, print_all}

-- The texts that the calls print, joined.
abbrev pub joined : List Bytes → Bytes
joined [] = []
joined (line ∷ lines) = line ++ joined lines

-- The length of all texts but the last.
abbrev pub but_last : List Bytes → ℕ
but_last [] = 0
but_last (line ∷ []) = 0
but_last (line ∷ next ∷ lines) = length line + but_last (next ∷ lines)

take-append_more :
    (n : ℕ) (xs ys : Bytes) → length xs ≤ n → take n (xs ++ ys) ≡ xs ++ take (n - length xs) ys
take-append_more n [] ys h = let e : n - 0 ≡ n = omega arith in rw e
take-append_more zero (x ∷ xs) ys h = absurd (omega arith)
take-append_more (suc n) (x ∷ xs) ys h =
    let e : suc n - suc (length xs) ≡ n - length xs = omega arith in
    rw e (ap (◌∷◌ x) (take-append_more n xs ys (omega arith)))

take-append_of_le : (n : ℕ) (xs ys : Bytes) → n ≤ length xs → take n (xs ++ ys) ≡ take n xs
take-append_of_le zero xs ys h = refl
take-append_of_le (suc n) [] ys h = absurd (omega arith)
take-append_of_le (suc n) (x ∷ xs) ys h = ap (◌∷◌ x) (take-append_of_le n xs ys (omega arith))

-- The page after `all` has been printed, as long as `all` is not longer than the buffer.
abbrev pub page : ℕ → Bytes → Page
page size all = record {
  text = take (size - 1) all;
  offset = length all;
  remaining = (size + size_mod - length all) % size_mod;
}

module _ (size : ℕ) (small : size < 2 ^ 63) where
  print-page :
      (all line : Bytes)
      → length all ≤ size
      → length line < 2 ^ 63
      → 0 < size
      → print size line (page size all) ≡ some (page size (all ++ line))
  unfolding print
  print-page all line fits short pos =
      let a = length all in
      let left : (size + size_mod - a) % size_mod ≡ size - a = omega arith in
      let sum = length-append all line in
      let rest : (size - a + size_mod - length line) % size_mod
          ≡ (size + size_mod - length (all ++ line)) % size_mod =
        omega (arith, sum) in
      elim (dec_lt a size) [
        | yes inside ↦
            let e : size - 1 - a ≡ size - a - 1 = omega arith in
            let whole = take-eq_of_le (size - 1) all (omega arith) in
            let more = rw e at (take-append_more (size - 1) all line (omega arith)) in
            rw (left, rest, whole, more) (ground (arith, sum, length-take (size - a - 1) line))
        | no full ↦
            let same = take-append_of_le (size - 1) all line (omega arith) in
            rw (left, rest, same) (ground (arith, sum))
      ]

  print_past_end :
      (all line : Bytes)
      → size < length all
      → length all < 2 ^ 63
      → print size line (page size all) ≡ none
  unfolding print
  print_past_end all line over short =
      let left : (size + size_mod - length all) % size_mod ≡ size + size_mod - length all =
        omega arith in
      rw left (ground arith)

  print_all-page :
      (all line : Bytes) (lines : List Bytes)
      → 0 < size
      → length all + length (joined (line ∷ lines)) < 2 ^ 63
      → print_all size (line ∷ lines) (page size all) ≡ (
          if leb (length all + but_last (line ∷ lines)) size
          then some (page size (all ++ joined (line ∷ lines)))
          else none)
  unfolding print_all
  print_all-page all line [] pos short =
      let sum = length-append line [] in
      elim (dec_lt size (length all)) [
        | yes over ↦ rw (print_past_end all line over (omega arith)) (ground arith)
        | no fits ↦
            rw (print-page all line (omega arith) (omega (arith, sum)) pos, append-nil line)
              (ground arith)
      ]
  print_all-page all line (next ∷ lines) pos short =
      let sum = length-append line (joined (next ∷ lines)) in
      let more = length-append all line in
      elim (dec_lt size (length all)) [
        | yes over ↦ rw (print_past_end all line over (omega arith)) (ground arith)
        | no fits ↦ rw (print-page all line (omega arith) (omega (arith, sum)) pos) (
            print_all-page (all ++ line) next lines pos (omega (arith, sum, more))
            ∙ rw (more, append_assoc all line (joined (next ∷ lines))) (ground arith))
      ]

  page-nil : page size [] ≡ blank size
  page-nil = ground (arith, take-eq_of_le {A = ℕ} (size - 1) [] (omega arith))

  -- For a buffer that is not empty and shorter than 2^63 bytes, and texts of fewer than 2^63 bytes
  -- together: the calls of `snprintf`, one behind the other, stay inside the buffer exactly if all
  -- texts but the last have at most as many bytes as the buffer; and then the buffer holds the
  -- texts cut to one byte less than its size.
  pub print_all-blank :
      (line : Bytes) (lines : List Bytes)
      → 0 < size
      → length (joined (line ∷ lines)) < 2 ^ 63
      → print_all size (line ∷ lines) (blank size) ≡ (
          if leb (but_last (line ∷ lines)) size
          then some (page size (joined (line ∷ lines)))
          else none)
  print_all-blank line lines pos short =
      rw (← page-nil) (print_all-page [] line lines pos (omega arith) ∙ ground arith)
