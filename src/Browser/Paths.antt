-- ===== src/Browser/Paths.antt =====
-- The path as a stack of folder names: going down pushes, going up pops.
use network_programming_lab.Prelude.{
  ℕ, zero, suc, ◌+◌, ◌-◌, ◌≤◌, ◌<◌, List, [], ◌∷◌, ◌++◌, ◌≡◌, ◌≢◌, refl, ◌∙◌, arith, none, some,
  All, Bytes, length, get_or, take, length-append, take-append, append_assoc, ltb, ◌==◌,
  if◌then◌else◌,
}
use native.Mathlib.Nat.{zero-add, suc-add}
use network_programming_lab.Browser.{root_size, up_loop, update_root_up, update_root_down}

-- A folder's name: not empty, and without a slash.
pub record IsName (folder : Bytes) : Type 0 where
  pub some_byte : 0 < length folder
  pub no_slash : All (λ c. c ≢ b'/') folder

-- The path of a stack of folders, the innermost first.
abbrev pub render : List Bytes → Bytes
render [] = b'/' ∷ []
render (folder ∷ []) = b'/' ∷ folder
render (folder ∷ outer ∷ stack) = render (outer ∷ stack) ++ b'/' ∷ folder

get_or-append : (xs ys : Bytes) (i d : ℕ) → get_or (xs ++ ys) (length xs + i) d ≡ get_or ys i d
get_or-append [] ys i d = rw zero-add
get_or-append (x ∷ xs) ys i d = rw (suc-add) (get_or-append xs ys i d)

get_or-no_slash :
    (xs : Bytes) (i : ℕ) → All (λ c. c ≢ b'/') xs → i < length xs → get_or xs i 0 ≢ b'/'
get_or-no_slash [] i all h = absurd (omega arith)
get_or-no_slash (x ∷ xs) zero all h = all.0
get_or-no_slash (x ∷ xs) (suc i) all h = get_or-no_slash xs i all.1 (omega arith)

-- A cut at the slash leaves what stands before it, or the slash if that is nothing.
cut :
    (front folder : Bytes)
    → (if length front == 0
        then take 1 (front ++ b'/' ∷ folder)
        else take (length front) (front ++ b'/' ∷ folder))
      ≡ (if length front == 0 then b'/' ∷ [] else front)
cut [] folder = refl
cut (x ∷ front) folder = ground (arith, take-append (x ∷ front) (b'/' ∷ folder))

module _ (front folder : Bytes) (all : All (λ c. c ≢ b'/') folder) where
  abbrev path : Bytes
  path = front ++ b'/' ∷ folder

  at_slash : get_or path (length front) 0 ≡ b'/'
  at_slash =
      let e : length front + 0 ≡ length front = omega arith in
      rw e at (get_or-append front (b'/' ∷ folder) 0 0)

  -- The loop passes over the folder's name, and cuts the path at the slash before it.
  up_loop-path :
      (j : ℕ)
      → j ≤ length folder
      → up_loop (suc (length front + j)) path ≡ (if length front == 0 then b'/' ∷ [] else front)
  unfolding up_loop
  up_loop-path zero h =
      let e : length front + 0 ≡ length front = omega arith in rw (e, at_slash) (cut front folder)
  up_loop-path (suc j) h =
      let e : length front + suc j ≡ suc (length front + j) = omega arith in
      let passes =
        rw (← get_or-append front (b'/' ∷ folder) (suc j) 0) at (get_or-no_slash folder j all h) in
      rw e (ground (arith, passes, e, up_loop-path j (omega arith)))

-- The path up to the slash before the last name.
abbrev above_last : List Bytes → Bytes
above_last [] = []
above_last (folder ∷ stack) = render (folder ∷ stack)

render-path :
    (folder : Bytes) (stack : List Bytes)
    → render (folder ∷ stack) ≡ above_last stack ++ b'/' ∷ folder
render-path folder [] = refl
render-path folder (outer ∷ stack) = refl

length-render : (stack : List Bytes) → 0 < length (render stack)
length-render [] = omega arith
length-render (folder ∷ []) = omega arith
length-render (folder ∷ outer ∷ stack) =
    omega (arith, length-append (render (outer ∷ stack)) (b'/' ∷ folder))

render-above_last :
    (stack : List Bytes)
    → (if length (above_last stack) == 0 then b'/' ∷ [] else above_last stack) ≡ render stack
render-above_last [] = refl
render-above_last (folder ∷ stack) = ground (arith, length-render (folder ∷ stack))

pub update_root_up-render :
    (folder : Bytes) (stack : List Bytes)
    → IsName folder
    → update_root_up (render (folder ∷ stack)) ≡ render stack
unfolding update_root_up
update_root_up-render folder stack n =
    let front = above_last stack in
    let loop =
      up_loop-path front folder n.no_slash (length folder) (omega arith)
      ∙ render-above_last stack in
    let size = length-append front (b'/' ∷ folder) in
    rw render-path (ground (arith, n.some_byte, loop, size))

-- A path with a name in it does not end in a slash.
last_byte :
    (folder : Bytes) (stack : List Bytes)
    → IsName folder
    → let path = render (folder ∷ stack) in get_or path (length path - 1) 0 ≢ b'/'
last_byte [] stack n = absurd (omega (arith, n.some_byte))
last_byte (c ∷ name) stack n =
    let front = above_last stack in
    let e : length (front ++ b'/' ∷ c ∷ name) - 1 ≡ length front + suc (length name) =
      omega (arith, length-append front (b'/' ∷ c ∷ name)) in
    rw render-path (
      rw (e, get_or-append front (b'/' ∷ c ∷ name) (suc (length name)) 0)
        (get_or-no_slash (c ∷ name) (length name) n.no_slash (omega arith)))

pub update_root_down-render :
    (folder : Bytes) (stack : List Bytes)
    → All IsName stack
    → update_root_down folder (render stack) ≡ (
        if ltb (length (render (folder ∷ stack))) root_size
        then some (render (folder ∷ stack))
        else none)
unfolding update_root_down
update_root_down-render folder [] names = refl
update_root_down-render folder (outer ∷ stack) names = ground (
  arith,
  last_byte outer stack names.0,
  length-render (outer ∷ stack),
  append_assoc (render (outer ∷ stack)) (b'/' ∷ []) folder,
)

-- Going down into a folder from the path of a stack of names, where the new path fits the array,
-- and up again leads back to the path, if the folder's name and those of the stack are not empty
-- and have no slash.
update_root_up-down :
    (folder root : Bytes) (stack : List Bytes)
    → IsName folder
    → All IsName stack
    → update_root_down folder (render stack) ≡ some root
    → update_root_up root ≡ render stack
update_root_up-down folder root stack name names h =
    let down = update_root_down-render folder stack names in
    let up = update_root_up-render folder stack name in ground (arith, h, down, up)
