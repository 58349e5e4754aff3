-- ===== src/Base/Strings.antt =====
-- The operations of packages strings and unicode/utf8 that the sources call, on byte strings.
use Prim.Native.Nat.{ℕ, zero, suc}
use mathlib.Core.Bool.{Bool, true, false, ◌&&◌, ◌||◌}
use mathlib.Core.List.{List, [], ◌∷◌, reverse}
use auto_deploy.Base.Tests.{ltb, leb, ◌==◌, if◌then◌else◌, Bytes}
use Prim.Native.Char.{code}
use Prim.Native.String.{String}

-- The bytes of an ASCII text.
abbrev pub bytes : String → Bytes
bytes String.[] = []
bytes (String.◌∷◌ c s) = code c ∷ bytes s

abbrev pub in_range : ℕ → ℕ → ℕ → Bool
in_range lo hi c = leb lo c && leb c hi

-- `utf8.ValidString`: how many continuation bytes are due, and the range of the next of them.
unfoldable pub utf8_from : ℕ → ℕ → ℕ → Bytes → Bool
utf8_from due lo hi [] = due == 0
utf8_from (suc due) lo hi (c ∷ s) = in_range lo hi c && utf8_from due 0x80 0xbf s
utf8_from zero lo hi (c ∷ s) =
    (ltb c 0x80 || in_range 0xc2 0xf4 c)
    && utf8_from (if ltb c 0x80 then 0 else if ltb c 0xe0 then 1 else if ltb c 0xf0 then 2 else 3)
        (if c == 0xe0 then 0xa0 else if c == 0xf0 then 0x90 else 0x80)
        (if c == 0xed then 0x9f else if c == 0xf4 then 0x8f else 0xbf) s

unfoldable pub valid_utf8 : Bytes → Bool
unfolding utf8_from
valid_utf8 s = utf8_from 0 0x80 0xbf s

unfoldable pub contains_byte : Bytes → ℕ → Bool
contains_byte [] c = false
contains_byte (b ∷ s) c = b == c || contains_byte s c

unfoldable pub has_prefix : Bytes → Bytes → Bool
has_prefix s [] = true
has_prefix [] (p ∷ ps) = false
has_prefix (c ∷ s) (p ∷ ps) = c == p && has_prefix s ps

unfoldable pub has_suffix : Bytes → Bytes → Bool
unfolding has_prefix
has_suffix s p = has_prefix (reverse s) (reverse p)

-- `strings.Contains` with a pattern that is not empty.
unfoldable pub contains : Bytes → Bytes → Bool
unfolding has_prefix
contains [] p = false
contains (c ∷ s) p = has_prefix (c ∷ s) p || contains s p

unfoldable pub drop : ℕ → Bytes → Bytes
drop zero s = s
drop (suc n) [] = []
drop (suc n) (c ∷ s) = drop n s

unfoldable pub take : ℕ → Bytes → Bytes
take zero s = []
take (suc n) [] = []
take (suc n) (c ∷ s) = c ∷ take n s

-- `strings.Split` by one byte.
unfoldable pub cut : ℕ → Bytes → Bytes × List Bytes
cut sep [] = ([], [])
cut sep (c ∷ s) =
    let (part, rest) = cut sep s in if c == sep then ([], part ∷ rest) else (c ∷ part, rest)

unfoldable pub split : ℕ → Bytes → List Bytes
unfolding cut
split sep s = let (part, rest) = cut sep s in part ∷ rest

unfoldable pub all_bytes : (ℕ → Bool) → Bytes → Bool
all_bytes test [] = true
all_bytes test (c ∷ s) = test c && all_bytes test s
