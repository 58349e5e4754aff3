-- ===== src/Base/Texts.antt =====
-- Prefixes, substrings and cuts of byte strings.
use Prim.Native.Nat.{ℕ, zero, suc, ◌≤◌}
use mathlib.Core.Path.{◌≡◌, refl, ap}
use mathlib.Core.Bool.{true}
use mathlib.Core.List.{[], ◌∷◌, ◌++◌}
use native.Mathlib.Omega.{arith}
use auto_deploy.Base.Tests.{Bytes, ==_refl}
use auto_deploy.Base.Lists.{length}
use auto_deploy.Base.Strings.{has_prefix, contains, take}

pub append_assoc : (s t u : Bytes) → (s ++ t) ++ u ≡ s ++ (t ++ u)
append_assoc [] t u = refl
append_assoc (c ∷ s) t u = ap (λ r. c ∷ r) (append_assoc s t u)

pub has_prefix-append : (p q : Bytes) → has_prefix (p ++ q) p ≡ true
unfolding has_prefix
has_prefix-append [] q = refl
has_prefix-append (c ∷ p) q = ground (arith, has_prefix-append p q, ==_refl c)

has_prefix-nil : (s : Bytes) → has_prefix s [] ≡ true
unfolding has_prefix
has_prefix-nil [] = refl
has_prefix-nil (c ∷ s) = refl

-- A longer text keeps its prefixes.
pub has_prefix-longer : (s t p : Bytes) → has_prefix s p ≡ true → has_prefix (s ++ t) p ≡ true
unfolding has_prefix
has_prefix-longer s t [] h = has_prefix-nil (s ++ t)
has_prefix-longer [] t (c ∷ p) h = absurd (cc h)
has_prefix-longer (d ∷ s) t (c ∷ p) h = ground (arith, has_prefix-longer s t p)

pub contains-append :
    (a : Bytes) (c : ℕ) (p t : Bytes) → contains (a ++ (c ∷ p ++ t)) (c ∷ p) ≡ true
unfolding contains
contains-append [] c p t = ground (arith, has_prefix-append (c ∷ p) t)
contains-append (d ∷ a) c p t = ground (arith, contains-append a c p t)

pub length-take : (n : ℕ) (s : Bytes) → length (take n s) ≤ n
unfolding take
length-take zero s = omega arith
length-take (suc n) [] = omega arith
length-take (suc n) (c ∷ s) = omega (arith, length-take n s)

-- A cut behind a part keeps the part.
pub take-append : (n : ℕ) (p s : Bytes) → length p ≤ n → (t : Bytes) × (take n (p ++ s) ≡ p ++ t)
unfolding take
take-append n [] s h = (take n s, refl)
take-append zero (c ∷ p) s h = absurd (omega arith)
take-append (suc n) (c ∷ p) s h =
    let (t, e) = take-append n p s (omega arith) in (t, ap (λ r. c ∷ r) e)
