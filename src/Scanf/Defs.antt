-- ===== src/Scanf/Defs.antt =====
-- Texts in buffers, and `%s` of `sscanf` as multithreading-http-server.c (line 188) and np20.c (line
-- 192) use it: skip white space, then take what is not white space.
use network_programming_lab.Prelude.{
  ◌+◌, ◌-◌, ◌*◌, ℕ, Bool, ◌&&◌, ◌||◌, [], ◌∷◌, Bytes, leb, ◌==◌, if◌then◌else◌,
}

abbrev pub is_space : ℕ → Bool
is_space c = c == b' ' || leb 9 c && leb c 13

unfoldable pub skip_spaces : Bytes → Bytes
skip_spaces [] = []
skip_spaces (c ∷ cs) = let onward = skip_spaces cs in if is_space c then onward else c ∷ cs

unfoldable pub word : Bytes → Bytes
word [] = []
word (c ∷ cs) = let onward = word cs in if is_space c then [] else c ∷ onward

unfoldable pub behind_word : Bytes → Bytes
behind_word [] = []
behind_word (c ∷ cs) = let onward = behind_word cs in if is_space c then c ∷ cs else onward

-- A buffer as a text: up to the first NUL.
unfoldable pub c_string : Bytes → Bytes
c_string [] = []
c_string (c ∷ cs) = let onward = c_string cs in if c == 0 then [] else c ∷ onward

-- The digits in front of a text, behind a number already read.
unfoldable pub read_digits : ℕ → Bytes → ℕ
read_digits n [] = n
read_digits n (c ∷ cs) =
    let onward = read_digits (n * 10 + (c - b'0')) cs in
    if leb b'0' c && leb c b'9' then onward else n
