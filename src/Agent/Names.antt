-- ===== src/Agent/Names.antt =====
-- The names of the fence files: no two environments share one, and none is the index.
use auto_deploy.Base.{
  ℕ, zero, suc, ◌+◌, ◌-◌, ◌*◌, ◌<◌, ◌≡◌, ◌≢◌, refl, sym, ap, ◌∙◌, true, [], ◌∷◌, ◌++◌, some, ltb,
  ◌==◌, if◌then◌else◌, Bytes, arith, inl, inr, Bool-cases,
}
use auto_deploy.Base.Strings.{valid_utf8, utf8_from, all_bytes}
use auto_deploy.Github.{valid_opaque_id}
use auto_deploy.Agent.State.{encode_byte, encode_name, path, file_suffix, index_file_name}

append_assoc : (s t u : Bytes) → (s ++ t) ++ u ≡ s ++ (t ++ u)
append_assoc [] t u = refl
append_assoc (c ∷ s) t u = ap (λ r. c ∷ r) (append_assoc s t u)

-- A reader of a name up to its suffix.
data Mode : Type 0 where
  plain high : Mode
  low : ℕ → Mode

hex_value : ℕ → ℕ
hex_value c = if ltb c 58 then c - 48 else c - 87

read_name : Mode → Bytes → Bytes
unfolding hex_value
read_name m [] = []
read_name plain (c ∷ s) =
    let more = read_name high s in
    let rest = c ∷ read_name plain s in if c == b'.' then [] else if c == b'%' then more else rest
read_name high (c ∷ s) = read_name (low (hex_value c)) s
read_name (low v) (c ∷ s) = (v * 16 + hex_value c) ∷ read_name plain s

read_name-encode_byte :
    (c : ℕ) (s : Bytes) → c < 256 → read_name plain (encode_byte c ++ s) ≡ c ∷ read_name plain s
unfolding read_name encode_byte
read_name-encode_byte c s h = ground arith

-- A byte of a valid text.
utf8_from-bytes :
    (due lo hi : ℕ) (s : Bytes)
    → hi < 256
    → utf8_from due lo hi s ≡ true
    → all_bytes (λ c. ltb c 256) s ≡ true
unfolding utf8_from all_bytes
utf8_from-bytes due lo hi [] b h = refl
utf8_from-bytes (suc due) lo hi (c ∷ s) b h =
    ground (arith, utf8_from-bytes due 0x80 0xbf s (omega arith))
utf8_from-bytes zero lo hi (c ∷ s) b h = ground (
  arith,
  utf8_from-bytes (if ltb c 0x80 then 0 else if ltb c 0xe0 then 1 else if ltb c 0xf0 then 2 else 3)
      (if c == 0xe0 then 0xa0 else if c == 0xf0 then 0x90 else 0x80)
      (if c == 0xed then 0x9f else if c == 0xf4 then 0x8f else 0xbf) s,
)

valid-bytes : (s : Bytes) → valid_opaque_id s ≡ true → all_bytes (λ c. ltb c 256) s ≡ true
unfolding valid_opaque_id valid_utf8
valid-bytes s h = utf8_from-bytes 0 0x80 0xbf s (omega arith) (ground arith)

read-encode_name :
    (s : Bytes)
    → all_bytes (λ c. ltb c 256) s ≡ true
    → read_name plain (encode_name s ++ file_suffix) ≡ s
unfolding encode_name all_bytes read_name
read-encode_name [] h = refl
read-encode_name (c ∷ s) h =
    ap (read_name plain) (append_assoc (encode_byte c) (encode_name s) file_suffix)
    ∙ read_name-encode_byte c (encode_name s ++ file_suffix) (ground arith)
    ∙ ap (λ r. c ∷ r) (read-encode_name s (ground arith))

-- The environment of a file is read off its name.
read-path : (s name : Bytes) → path s ≡ some name → read_name plain name ≡ s
unfolding path
read-path s name h = elim (Bool-cases (valid_opaque_id s)) [
  | inl v ↦
      let e : encode_name s ++ file_suffix ≡ name = ground arith in
      ap (read_name plain) (sym e) ∙ read-encode_name s (valid-bytes s v)
  | inr i ↦ absurd (ground arith)
]

-- Two environments never share a file, and no environment has the name of the index.
pub path-injective : (s t name : Bytes) → path s ≡ some name → path t ≡ some name → s ≡ t
path-injective s t name p q = sym (read-path s name p) ∙ read-path t name q

pub path-ne-index : (s name : Bytes) → path s ≡ some name → name ≢ index_file_name
unfolding path read_name valid_opaque_id
path-ne-index s name p e =
    let empty : s ≡ [] = sym (read-path s name p) ∙ ap (read_name plain) e in ground arith
