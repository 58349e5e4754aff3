-- ===== src/Lease/Sweeping.antt =====
-- `ExpireBatch` and `revokeInFlightLeases` of internal/store/postgres/agent_lease_repository.go.
use auto_deploy.Base.{
  ℕ, zero, suc, ◌+◌, Bool, not, ◌&&◌, ◌||◌, List, [], ◌∷◌, map, Option, none, some, ◌==◌, ltb,
  if◌then◌else◌, Bytes, bytes_eq, Result, ok, err,
}
use auto_deploy.Base.Sorting.{filter_rows, sort_by, bytes_ltb}
use auto_deploy.Base.Table.{exists_row}
use auto_deploy.Lease.State.{
  Store, Attempt, Slot, Job, Error, no_rows, find_job, find_attempt, find_slot, ◌>>=◌, or_fail,
}
use auto_deploy.Lease.Held.{is_leased, is_current}
use auto_deploy.Lease.Renewal.{is_requested}
use auto_deploy.Lease.Activation.{is_switch_authorized, holds_unresolved}
use auto_deploy.Lease.Closing.{expire_one, close_expired_or_revoked_attempt, is_job_leased}
use auto_deploy.Lease.Claiming.{take, least}

abbrev pub expire_batch_max_limit : ℕ
expire_batch_max_limit = 100

-- An attempt whose diversion would write nothing is not discovered.
abbrev pub is_overdue : Store → ℕ → Attempt → Bool
is_overdue st now a =
    is_leased a.state
    && not (ltb now a.authority_expires_at)
    && not (
        exists_row
          (λ o. holds_unresolved a.id a.environment_id o && not (is_switch_authorized o.state))
          st.operations)

-- `ORDER BY a.authority_expires_at, a.id`.
abbrev pub expires_before : Attempt → Attempt → Bool
expires_before a b =
    ltb a.authority_expires_at b.authority_expires_at
    || (a.authority_expires_at == b.authority_expires_at && ltb a.id b.id)

unfoldable pub overdue : Store → ℕ → ℕ → List ℕ
overdue st now limit =
    map (λ (a : Attempt). a.id)
      (take limit (sort_by expires_before (filter_rows (is_overdue st now) st.attempts)))

-- The answer of the sweep: how many attempts were closed, and the error that stopped it.
pub record Swept : Type 0 where
  pub processed : ℕ
  pub error : Option Error
  pub store : Store

-- `clock i` are the two readings of the clock in the transaction of attempt `i`.
unfoldable pub expire_all : (ℕ → ℕ) → (ℕ → ℕ × ℕ) → List ℕ → ℕ → Store → Swept
expire_all draw clock [] processed st = record { processed = processed; error = none; store = st }
expire_all draw clock (i ∷ is) processed st = elim (expire_one draw st i (clock i).0 (clock i).1) [
  | err e ↦ record { processed = processed; error = some e; store = st }
  | ok r ↦ expire_all draw clock is (if r.0 then processed + 1 else processed) r.1
]

-- A limit that is not positive is 0.
unfoldable pub expire_batch : (ℕ → ℕ) → (ℕ → ℕ × ℕ) → ℕ → ℕ → Store → Swept
expire_batch draw clock now zero st = record { processed = 0; error = none; store = st }
expire_batch draw clock now (suc n) st =
    expire_all draw clock (overdue st now (least (suc n) expire_batch_max_limit)) 0 st

-- `ORDER BY environment_id, id`.
abbrev pub visited_before : Attempt → Attempt → Bool
visited_before a b =
    bytes_ltb a.environment_id b.environment_id
    || (bytes_eq a.environment_id b.environment_id && ltb a.id b.id)

unfoldable pub in_flight : Store → Bytes → List Attempt
in_flight st server =
    sort_by visited_before
      (filter_rows (λ a. bytes_eq a.server_id server && is_leased a.state) st.attempts)

-- The rows of a candidate, with its attempt as it is now. `c` is the row that was discovered.
unfoldable pub revoke_held :
    (ℕ → ℕ) → Store → Attempt → Slot → Job → Attempt → ℕ → ℕ → Result Error Store
revoke_held draw st c s j a now block_now =
    if is_current s.current_attempt_id c.id && is_job_leased j.state && is_leased a.state
    then (close_expired_or_revoked_attempt draw st c.job_id c.id c.environment_id a.attempt_number
          j.deployment_id (is_requested j.cancel_requested_at) now block_now
        >>= λ r. ok r.1)
    else ok st

unfoldable pub revoke_one : (ℕ → ℕ) → Store → Attempt → ℕ → ℕ → Result Error Store
revoke_one draw st c now block_now = or_fail (find_slot c.environment_id st) no_rows >>= λ s.
    if not (is_current s.current_attempt_id c.id)
    then ok st
    else or_fail (find_job c.job_id st) no_rows >>= λ j.
        if not (is_job_leased j.state)
        then ok st
        else or_fail (find_attempt c.id st) no_rows >>= λ a.
            revoke_held draw st c s j a now block_now

unfoldable pub revoke_all : (ℕ → ℕ) → (ℕ → ℕ) → List Attempt → ℕ → Store → Result Error Store
revoke_all draw block_clock [] now st = ok st
revoke_all draw block_clock (c ∷ cs) now st =
    revoke_one draw st c now (block_clock c.id) >>= λ st'. revoke_all draw block_clock cs now st'

unfoldable pub revoke_in_flight_leases : (ℕ → ℕ) → (ℕ → ℕ) → Bytes → ℕ → Store → Result Error Store
revoke_in_flight_leases draw block_clock server now st =
    revoke_all draw block_clock (in_flight st server) now st
