-- ===== src/FileServer/Text.antt =====
-- `strstr` and `strchr` of the C library, as np20.c calls them.
use network_programming_lab.Prelude.{
  ℕ, Bool, true, false, ◌&&◌, [], ◌∷◌, ◌++◌, ◌≡◌, refl, arith, Option, none, some, Bytes, ◌==◌,
  if◌then◌else◌,
}

abbrev pub starts_with : Bytes → Bytes → Bool
starts_with text [] = true
starts_with [] (p ∷ ps) = false
starts_with (c ∷ cs) (p ∷ ps) = c == p && starts_with cs ps

-- The text from the first place on where `pattern` stands.
unfoldable pub strstr : Bytes → Bytes → Option Bytes
strstr [] pattern = if starts_with [] pattern then some [] else none
strstr (c ∷ cs) pattern =
    let onward = strstr cs pattern in if starts_with (c ∷ cs) pattern then some (c ∷ cs) else onward

abbrev pub is_found : Option Bytes → Bool
is_found none = false
is_found (some text) = true

abbrev pub contains : Bytes → Bytes → Bool
contains text pattern = is_found (strstr text pattern)

-- The text in front of the first double quote.
unfoldable pub before_quote : Bytes → Option Bytes
before_quote [] = none
before_quote (c ∷ cs) = if c == b'"' then some [] else more c (before_quote cs)
  where
    more : ℕ → Option Bytes → Option Bytes
    more c none = none
    more c (some cs) = some (c ∷ cs)

starts_with-append :
    (text pattern more : Bytes)
    → starts_with text pattern ≡ true
    → starts_with (text ++ more) pattern ≡ true
starts_with-append text [] more h = refl
starts_with-append [] (p ∷ ps) more h = absurd (ground arith)
starts_with-append (c ∷ cs) (p ∷ ps) more h = ground (arith, starts_with-append cs ps more)

starts_with_refl : (pattern : Bytes) → starts_with pattern pattern ≡ true
starts_with_refl [] = refl
starts_with_refl (p ∷ ps) = ground (arith, starts_with_refl ps)

contains_of_starts :
    (text pattern : Bytes) → starts_with text pattern ≡ true → contains text pattern ≡ true
unfolding strstr
contains_of_starts [] pattern h = ground arith
contains_of_starts (c ∷ cs) pattern h = ground arith

pub contains-append :
    (text pattern more : Bytes)
    → contains text pattern ≡ true
    → contains (text ++ more) pattern ≡ true
unfolding strstr
contains-append [] [] more h = contains_of_starts more [] refl
contains-append [] (p ∷ ps) more h = absurd (ground arith)
contains-append (c ∷ cs) pattern more h =
    ground (arith, starts_with-append (c ∷ cs) pattern more, contains-append cs pattern more)

pub contains-behind : (text pattern : Bytes) → contains (text ++ pattern) pattern ≡ true
unfolding strstr
contains-behind [] pattern = contains_of_starts pattern pattern (starts_with_refl pattern)
contains-behind (c ∷ cs) pattern = ground (arith, contains-behind cs pattern)
