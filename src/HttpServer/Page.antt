-- ===== src/HttpServer/Page.antt =====
-- multithreading-http-server.c, the use that `scan_directory` makes of `snprintf` (lines 82 to 130):
-- each call writes behind the last one, and its result, the length that the text would have had,
-- moves `ptr` and is taken from `remaining`, a `size_t`.
pub mod Bounds
use network_programming_lab.Prelude.{
  ℕ, ◌+◌, ◌-◌, ◌%◌, ◌^◌, Bool, true, false, List, [], ◌∷◌, ◌++◌, Option, none, some, Bytes, length,
  take, leb, ◌==◌, if◌then◌else◌, ◌>>=◌,
}

pub record Page : Type 0 where
  pub text : Bytes  -- the string in the buffer, without its NUL
  pub offset : ℕ  -- ptr - html_buffer
  pub remaining : ℕ  -- size_t

abbrev pub blank : ℕ → Page
blank buffer_size = record { text = []; offset = 0; remaining = buffer_size }

abbrev pub size_mod : ℕ
size_mod = 2 ^ 64

-- `written = snprintf(ptr, remaining, ...); ptr += written; remaining -= written;` for the text
-- `line`. With `remaining` 0 nothing is written; else at most `remaining - 1` bytes and a NUL, and
-- `none` is a write that does not stay inside the buffer.
unfoldable pub print : ℕ → Bytes → Page → Option Page
print buffer_size line p =
    let written = length line in
    let shown = take (p.remaining - 1) line in
    let moved = record p {
      offset = p.offset + written;
      remaining = (p.remaining + size_mod - written) % size_mod;
    } in
    if p.remaining == 0
    then some moved
    else if leb (p.offset + length shown + 1) buffer_size
    then some (record moved { text = p.text ++ shown })
    else none

-- The calls one after the other.
unfoldable pub print_all : ℕ → List Bytes → Page → Option Page
print_all buffer_size [] p = some p
print_all buffer_size (line ∷ lines) p = do
  q ← print buffer_size line p
  print_all buffer_size lines q
