-- ===== src/FileServer/Output/Laws.antt =====
-- What the calls of `Append` add up to, and what `Send` gets across.
use network_programming_lab.Prelude.{
  ℕ, ◌≤◌, ◌<◌, false, List, [], ◌∷◌, ◌++◌, ◌≡◌, refl, ap, sym, ◌∙◌, arith, Option, none, some, All,
  Bytes, codes, length, drop, length-drop, take-append-drop, append_assoc, append-nil, ◌==◌,
}
use network_programming_lab.Strcmp.{Sorter}
use network_programming_lab.Listing.{Dirent}
use network_programming_lab.FileServer.Output.{
  append, append_all, concat, page_start, entries, scanned, create_html, send_all,
}

append_all-some :
    (strs : List Bytes) (old : Bytes) → append_all strs (some old) ≡ some (old ++ concat strs)
unfolding append append_all
append_all-some [] old = ap some (sym (append-nil old))
append_all-some (str ∷ strs) old =
    append_all-some strs (old ++ str) ∙ ap some (append_assoc old str (concat strs))

pub append_all-none :
    (strs : List Bytes) → 0 < length strs → append_all strs none ≡ some (concat strs)
unfolding append append_all
append_all-none [] h = absurd (omega arith)
append_all-none (str ∷ strs) h = append_all-some strs str

-- The calls of `Append` in `CreateHTML`, from NULL on, leave exactly the texts appended, joined:
-- the start of the page, the entries in sorted order, and its end.
pub create_html_lem :
    (q : Sorter Dirent) (path : Bytes) (found : Option (List Dirent))
    → let strs =
        page_start path ++ (entries path (scanned q found) ++ codes "</body></html>" ∷ []) in
      create_html q path found none ≡ some (concat strs)
unfolding create_html
create_html_lem q path found =
    append_all-none
      (page_start path ++ (entries path (scanned q found) ++ codes "</body></html>" ∷ []))
      (omega arith)

-- If every call of `send` takes at least one byte, and there are as many calls as bytes, then
-- `Send` gets all of its bytes across, in order.
pub send_all-whole :
    (answers : List ℕ) (bytes : Bytes)
    → All (λ n. 0 < n) answers
    → length bytes ≤ length answers
    → send_all answers bytes ≡ bytes
unfolding send_all
send_all-whole [] [] h enough = refl
send_all-whole [] (x ∷ bytes) h enough = absurd (omega arith)
send_all-whole (n ∷ answers) [] h enough = refl
send_all-whole (n ∷ answers) (x ∷ bytes) h enough =
    rw (some_left, some_taken)
      (rw (send_all-whole answers (drop n (x ∷ bytes)) h.1 left) (take-append-drop n (x ∷ bytes)))
  where
    some_left : (length (x ∷ bytes) == 0) ≡ false
    some_left = ground arith

    some_taken : (n == 0) ≡ false
    some_taken = ground (arith, h.0)

    left : length (drop n (x ∷ bytes)) ≤ length answers
    left = omega (arith, h.0, length-drop n (x ∷ bytes))
