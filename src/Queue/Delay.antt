-- ===== src/Queue/Delay.antt =====
-- The retry delay of internal/queue/retry.go against the formula of its comment.
use Prim.Native.Nat.{min}
use native.Mathlib.Nat.{one-le-pow, pow-le-pow_right}
use auto_deploy.Base.{ℕ, zero, suc, ◌-◌, ◌*◌, ◌^◌, ◌≤◌, ◌<◌, ◌≡◌, refl, arith, dec_lt}
use auto_deploy.Queue.{retry_base_delay, retry_cap_delay, second, backoff, full_jitter_delay}

-- Past the clamp of the shift the cap has long been reached.
pow_large : (n : ℕ) → 20 < n → 2 ^ 20 ≤ 2 ^ n
pow_large n h = pow-le-pow_right (omega arith) {i = 20} (omega arith)

suc-sub_one : (k : ℕ) → suc k - 1 ≡ k
suc-sub_one k = omega arith

backoff_small : (n : ℕ) → n < 21 → backoff (suc n) ≡ min retry_cap_delay (retry_base_delay * 2 ^ n)
unfolding backoff
backoff_small n h = ground (arith, one-le-pow n 2 (omega arith), suc-sub_one n)

backoff_large : (n : ℕ) → 20 < n → backoff (suc n) ≡ min retry_cap_delay (retry_base_delay * 2 ^ n)
unfolding backoff
backoff_large n h = ground (arith, pow_large n h, suc-sub_one n)

-- The bound of the random delay is 5 s * 2 ^ (attempt - 1), and at most 5 minutes, for every attempt
-- number: neither the clamp of the shift nor the overflow test ever changes it.
pub backoff_lem :
    (attempt_number : ℕ)
    → backoff attempt_number ≡ min retry_cap_delay (retry_base_delay * 2 ^ (attempt_number - 1))
unfolding backoff
backoff_lem zero = refl
backoff_lem (suc n) =
    rw (suc-sub_one n)
      (elim (dec_lt n 21) [ yes p ↦ backoff_small n p | no p ↦ backoff_large n (omega arith) ])

-- Whatever is drawn up to the bound, the delay is at most 5 minutes, and at most
-- 5 s * 2 ^ (attempt - 1).
pub full_jitter_delay_bounds :
    (draw : ℕ → ℕ) (attempt_number : ℕ)
    → ((b : ℕ) → draw b ≤ b)
    → (full_jitter_delay draw attempt_number ≤ 300 * second)
      × (full_jitter_delay draw attempt_number ≤ retry_base_delay * 2 ^ (attempt_number - 1))
unfolding full_jitter_delay
full_jitter_delay_bounds draw n h =
    (omega (arith, h (backoff n), backoff_lem n), omega (arith, h (backoff n), backoff_lem n))
