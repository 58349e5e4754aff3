-- ===== src/Traefik/Quoting.antt =====
-- The quoting of a value is read back.
use auto_deploy.Base.{
  ℕ, ◌+◌, ◌*◌, ◌-◌, [], ◌∷◌, ◌++◌, Option, none, some, Bytes, ltb, ◌==◌, if◌then◌else◌,
}

-- A reader of a double-quoted scalar, with the escapes of the source.
pub data Mode : Type 0 where
  plain escaped high closed : Mode
  low : ℕ → Mode

unfoldable pub hex_value : ℕ → ℕ
hex_value c = if ltb c 58 then c - 48 else c - 55

unfoldable pub read_byte : Mode → ℕ → Option (Bytes × Mode)
read_byte plain c =
    if c == b'"'
    then some ([], closed)
    else if c == b'\\'
    then some ([], escaped)
    else some (c ∷ [], plain)
read_byte escaped c =
    if c == b'n'
    then some (b'\n' ∷ [], plain)
    else if c == b'r'
    then some (b'\r' ∷ [], plain)
    else if c == b't'
    then some (b'\t' ∷ [], plain)
    else if c == b'x'
    then some ([], high)
    else some (c ∷ [], plain)
read_byte high c = some ([], low (hex_value c))
read_byte (low v) c = some ((v * 16 + hex_value c) ∷ [], plain)
read_byte closed c = none

unfoldable pub read_scalar : Mode → Bytes → Option Bytes
read_scalar closed [] = some []
read_scalar m [] = none
read_scalar m (c ∷ s) = elim (read_byte m c) [
  | none ↦ none
  | some r ↦ elim (read_scalar r.1 s) [ none ↦ none | some rest ↦ some (r.0 ++ rest) ]
]

abbrev pub push : ℕ → Option Bytes → Option Bytes
push c none = none
push c (some s) = some (c ∷ s)
