-- ===== src/Browser.antt =====
-- scandir-mo-rong.c: a directory browser on the console. `root` is the path in the global array of
-- 1024 bytes, without its NUL.
pub mod Paths
pub mod Session
use network_programming_lab.Prelude.{
  ℕ, zero, suc, ◌+◌, ◌-◌, Bool, true, false, List, [], ◌∷◌, ◌++◌, Option, none, some, Bytes, codes,
  length, get_or, take, ltb, leb, ◌==◌, if◌then◌else◌,
}
use network_programming_lab.Strcmp.{texts_agree}

abbrev pub root_size : ℕ
root_size = 1024

-- The loop of `update_root_up`, with `i + 1` rounds left.
unfoldable pub up_loop : ℕ → Bytes → Bytes
up_loop zero root = root
up_loop (suc i) root =
    let onward = up_loop i root in
    if get_or root i 0 == b'/' then (if i == 0 then take 1 root else take i root) else onward

unfoldable pub update_root_up : Bytes → Bytes
update_root_up root = if leb (length root) 1 then root else up_loop (length root) root

-- The two calls of `strcat`, the first one only if the path does not end in a slash. An empty path
-- has no last byte to look at, and a text that does not fit the array is written past its end.
unfoldable pub update_root_down : Bytes → Bytes → Option Bytes
update_root_down folder root =
    let parent = if get_or root (length root - 1) 0 == b'/' then root else root ++ b'/' ∷ [] in
    if length root == 0
    then none
    else if ltb (length (parent ++ folder)) root_size
    then some (parent ++ folder)
    else none

-- How one round of `main` ends.
pub data Next : Type 0 where
  quits : Next
  at : Bytes → Next
  overflows : Next

next_root : Option Bytes → Next
next_root none = overflows
next_root (some root) = at root

-- One round of `main` behind the prompt: `input` is the word read, and `is_directory` what `stat`
-- says of a path. `snprintf` cuts the path that it asks about to 1023 bytes.
unfoldable pub browse : (Bytes → Bool) → Bytes → Bytes → Next
unfolding next_root
browse is_directory input root =
    let test_path = take 1023 (root ++ b'/' ∷ input) in
    if texts_agree input (codes "q")
    then quits
    else if texts_agree input (codes "..")
    then at (update_root_up root)
    else if is_directory test_path
    then next_root (update_root_down input root)
    else at root

-- The loop goes on from the path that a round leaves.
infixl 5 ◌>>=◌
abbrev pub ◌>>=◌ : Next → (Bytes → Next) → Next
at root >>= f = f root
quits >>= f = quits
overflows >>= f = overflows

-- The loop of `main` over the words that are read, up to their end or to "q".
unfoldable pub browse_all : (Bytes → Bool) → List Bytes → Bytes → Next
browse_all is_directory [] root = at root
browse_all is_directory (input ∷ inputs) root = do
  next ← browse is_directory input root
  browse_all is_directory inputs next
