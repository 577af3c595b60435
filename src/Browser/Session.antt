-- ===== src/Browser/Session.antt =====
-- A session at the prompt, against what it means on a stack of folder names.
use network_programming_lab.Prelude.{
  Bool, List, [], ◌∷◌, ◌++◌, ◌≡◌, refl, arith, All, Bytes, codes, length, take, ltb, if◌then◌else◌,
}
use network_programming_lab.Strcmp.{texts_agree}
use network_programming_lab.Browser.{
  root_size, update_root_up, Next, quits, at, overflows, ◌>>=◌, browse, browse_all,
}
use network_programming_lab.Browser.Paths.{
  IsName, render, update_root_up-render, update_root_down-render,
}

-- The session on a stack: what the prompt offers.
pub data Place : Type 0 where
  left : Place
  inside : List Bytes → Place
  too_deep : Place

abbrev pub pop : List Bytes → List Bytes
pop [] = []
pop (folder ∷ stack) = stack

abbrev pub push : Bytes → List Bytes → Place
push folder stack =
    if ltb (length (render (folder ∷ stack))) root_size then inside (folder ∷ stack) else too_deep

abbrev pub go_on : Place → (List Bytes → Place) → Place
go_on (inside stack) f = f stack
go_on left f = left
go_on too_deep f = too_deep

module _ (is_directory : Bytes → Bool) where
  abbrev pub visit : Bytes → List Bytes → Place
  visit input stack =
      if texts_agree input (codes "q")
      then left
      else if texts_agree input (codes "..")
      then inside (pop stack)
      else if is_directory (take 1023 (render stack ++ b'/' ∷ input))
      then push input stack
      else inside stack

  abbrev pub visit_all : List Bytes → List Bytes → Place
  visit_all [] stack = inside stack
  visit_all (input ∷ inputs) stack = go_on (visit input stack) (visit_all inputs)

-- A place as the program keeps it.
abbrev pub as_root : Place → Next
as_root left = quits
as_root (inside stack) = at (render stack)
as_root too_deep = overflows

-- The stack that a place holds has names only.
abbrev pub HasNames : Place → Type 0
HasNames (inside stack) = All IsName stack
HasNames _ = Unit {0}

update_root_up-pop :
    (stack : List Bytes)
    → All IsName stack
    → (update_root_up (render stack) ≡ render (pop stack)) × All IsName (pop stack)
update_root_up-pop [] names = (unfold update_root_up in refl, tt)
update_root_up-pop (folder ∷ stack) names = (update_root_up-render folder stack names.0, names.1)

module _ (is_directory : Bytes → Bool) where
  -- One round, with the names of the stack it leads to.
  pub browse-visit :
      (input : Bytes) (stack : List Bytes)
      → IsName input
      → All IsName stack
      → (browse is_directory input (render stack) ≡ as_root (visit is_directory input stack))
        × HasNames (visit is_directory input stack)
  unfolding browse
  browse-visit input stack name names =
      let (up, popped) = update_root_up-pop stack names in
      let down = update_root_down-render input stack names in
      (ground (arith, up, down), ground (arith, popped))

  >>=-go_on :
      (p : Place) (f : Bytes → Next) (g : List Bytes → Place)
      → HasNames p
      → ((stack : List Bytes) → All IsName stack → f (render stack) ≡ as_root (g stack))
      → (as_root p >>= f) ≡ as_root (go_on p g)
  >>=-go_on (inside stack) f g names same = same stack names
  >>=-go_on left f g names same = refl
  >>=-go_on too_deep f g names same = refl

  -- For words that are not empty and have no slash, typed at a prompt whose path is that of a
  -- stack of such names: the session on the path ends as the session on the stack does, whatever
  -- `stat` says of any path. On the stack, a folder is pushed, `..` pops, and a path that would
  -- not fit the array of 1024 bytes is its own end.
  pub browse_all-visit_all :
      (inputs stack : List Bytes)
      → All IsName inputs
      → All IsName stack
      → browse_all is_directory inputs (render stack)
        ≡ as_root (visit_all is_directory inputs stack)
  unfolding browse_all
  browse_all-visit_all [] stack ns names = refl
  browse_all-visit_all (input ∷ inputs) stack ns names =
      let (same, kept) = browse-visit input stack ns.0 names in
      rw same (
        >>=-go_on (visit is_directory input stack) _ (visit_all is_directory inputs) kept
          (λ inner all. browse_all-visit_all inputs inner ns.1 all))
