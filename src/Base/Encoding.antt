-- ===== src/Base/Encoding.antt =====
-- `strconv.AppendInt(buf, int64(n), 10)` and the length-prefixed concatenation that the digests of
-- internal/queue/job.go and internal/store/postgres/agent_lease_execution.go are taken of, with a
-- reader of it.
use Prim.Native.Nat.{ℕ, zero, suc, ◌+◌, ◌-◌, ◌*◌, ◌/◌, ◌%◌, ◌<◌}
use mathlib.Core.Path.{◌≡◌, refl, ap, sym, ◌∙◌}
use mathlib.Core.Bool.{Bool, false}
use mathlib.Core.Option.{Option, none, some}
use mathlib.Core.List.{List, [], ◌∷◌, ◌++◌}
use native.Mathlib.Omega.{arith}
use auto_deploy.Base.Tests.{ltb, ◌==◌, if◌then◌else◌, Bytes}
use auto_deploy.Base.Lists.{length}

-- The decimal digits of `n` before `rest`. The fuel is above the number.
unfoldable pub digits : ℕ → ℕ → Bytes → Bytes
digits zero n rest = rest
digits (suc f) n rest =
    let more = digits f (n / 10) ((48 + n % 10) ∷ rest) in
    if ltb n 10 then (48 + n) ∷ rest else more

unfoldable pub append_int : ℕ → Bytes → Bytes
unfolding digits
append_int n rest = digits (suc n) n rest

-- Every part, after its length and a colon.
unfoldable pub length_prefixed : List Bytes → Bytes
length_prefixed [] = []
length_prefixed (p ∷ ps) = append_int (length p) (b':' ∷ (p ++ length_prefixed ps))

-- A reader of it: the number up to the colon, then as many bytes.
read_length : ℕ → Bytes → Option (ℕ × Bytes)
read_length v [] = none
read_length v (c ∷ s) = if c == b':' then some (v, s) else read_length (v * 10 + (c - 48)) s

take_bytes : ℕ → Bytes → Bytes × Bytes
take_bytes zero s = ([], s)
take_bytes (suc n) [] = ([], [])
take_bytes (suc n) (c ∷ s) = let (p, r) = take_bytes n s in (c ∷ p, r)

read_part : Bytes → Option (Bytes × Bytes)
unfolding read_length take_bytes
read_part s = elim (read_length 0 s) [ none ↦ none | some (n, r) ↦ some (take_bytes n r) ]

read_length-digits :
    (f n : ℕ) (rest : Bytes) → n < f → read_length 0 (digits f n rest) ≡ read_length n rest
unfolding digits read_length
read_length-digits zero n rest h = elim h [ ]
read_length-digits (suc f) n rest h =
    ground (arith, read_length-digits f (n / 10) ((48 + n % 10) ∷ rest))

take_bytes-append : (p r : Bytes) → take_bytes (length p) (p ++ r) ≡ (p, r)
unfolding take_bytes
take_bytes-append [] r = refl
take_bytes-append (c ∷ p) r = ground (arith, take_bytes-append p r)

read_part-length_prefixed :
    (p : Bytes) (ps : List Bytes)
    → read_part (length_prefixed (p ∷ ps)) ≡ some (p, length_prefixed ps)
unfolding read_part length_prefixed append_int
read_part-length_prefixed p ps = ground (
  arith,
  read_length-digits (suc (length p)) (length p) (b':' ∷ (p ++ length_prefixed ps)),
  take_bytes-append p (length_prefixed ps),
)

read_part-nil : read_part (length_prefixed []) ≡ none
unfolding read_part length_prefixed read_length
read_part-nil = refl

-- No byte of a part is taken for a boundary between parts: the concatenation has one reading.
pub length_prefixed-injective :
    (ps qs : List Bytes) → length_prefixed ps ≡ length_prefixed qs → ps ≡ qs
length_prefixed-injective [] [] h = refl
length_prefixed-injective [] (q ∷ qs) h =
    absurd (cc (ap read_part h, read_part-nil, read_part-length_prefixed q qs))
length_prefixed-injective (p ∷ ps) [] h =
    absurd (cc (ap read_part h, read_part-nil, read_part-length_prefixed p ps))
length_prefixed-injective (p ∷ ps) (q ∷ qs) h =
    let both =
      sym (read_part-length_prefixed p ps) ∙ ap read_part h ∙ read_part-length_prefixed q qs in
    let heads : p ≡ q = cc both in
    let tails : ps ≡ qs = length_prefixed-injective ps qs (cc both) in cc (heads, tails)

-- The number that digits stand for.
number : ℕ → Bytes → ℕ
number v [] = v
number v (c ∷ s) = number (v * 10 + (c - 48)) s

number-digits : (f n : ℕ) (rest : Bytes) → n < f → number 0 (digits f n rest) ≡ number n rest
unfolding digits number
number-digits zero n rest h = elim h [ ]
number-digits (suc f) n rest h = ground (arith, number-digits f (n / 10) ((48 + n % 10) ∷ rest))

number-append_int : (n : ℕ) → number 0 (append_int n []) ≡ n
unfolding append_int number
number-append_int n = number-digits (suc n) n [] (omega arith)

pub append_int-injective : (m n : ℕ) → append_int m [] ≡ append_int n [] → m ≡ n
append_int-injective m n h = sym (number-append_int m) ∙ ap (number 0) h ∙ number-append_int n

-- Signed numbers, with `negsuc n` for -(n + 1).
pub data ℤ : Type 0 where
  pos : ℕ → ℤ
  negsuc : ℕ → ℤ

-- `strconv.FormatInt(n, 10)`.
unfoldable pub format_int : ℤ → Bytes
format_int (pos n) = append_int n []
format_int (negsuc n) = b'-' ∷ append_int (suc n) []

is_minus : Bytes → Bool
is_minus [] = false
is_minus (c ∷ s) = c == b'-'

tail : Bytes → Bytes
tail [] = []
tail (c ∷ s) = s

is_minus-digits : (f n : ℕ) (rest : Bytes) → n < f → is_minus (digits f n rest) ≡ false
unfolding digits is_minus
is_minus-digits zero n rest h = elim h [ ]
is_minus-digits (suc f) n rest h = ground (arith, is_minus-digits f (n / 10) ((48 + n % 10) ∷ rest))

pos-ne-negsuc : (m n : ℕ) → append_int m [] ≡ b'-' ∷ append_int (suc n) [] → ⊥
unfolding append_int is_minus
pos-ne-negsuc m n h = cc (is_minus-digits (suc m) m [] (omega arith))

pub format_int-injective : (a b : ℤ) → format_int a ≡ format_int b → a ≡ b
unfolding format_int tail
format_int-injective (pos m) (pos n) h = ap pos (append_int-injective m n h)
format_int-injective (pos m) (negsuc n) h = absurd (pos-ne-negsuc m n h)
format_int-injective (negsuc m) (pos n) h = absurd (pos-ne-negsuc n m (sym h))
format_int-injective (negsuc m) (negsuc n) h =
    let e : suc m ≡ suc n = append_int-injective (suc m) (suc n) (ap tail h) in
    ap negsuc (omega (arith, e))
