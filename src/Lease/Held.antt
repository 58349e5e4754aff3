-- ===== src/Lease/Held.antt =====
-- The rows that an agent's call locks in internal/store/postgres/agent_lease_repository.go: the same
-- statements open Renew, Complete and AcknowledgeCancellation.
use auto_deploy.Base.{
  ℕ, ◌≡◌, Bool, true, false, ◌&&◌, Option, none, some, ◌==◌, ltb, Bytes, bytes_eq, bytes_eq_refl,
  Result, ok, arith,
}
use auto_deploy.Queue.{AttemptState}
use auto_deploy.Queue
use auto_deploy.Lease.State.{
  Store, Job, Attempt, Slot, Error, authorization_denied, no_rows, find_job, find_attempt,
  find_slot, ◌>>=◌, ◌>>◌, guard, or_fail, lock_active_server_credential,
}

pub record Held : Type 0 where
  pub attempt : Attempt
  pub slot : Slot
  pub job : Job

-- The credential, the attempt and its owner, then the slot and the job of the attempt. The attempt
-- is read once more under its lock, and its server is checked again.
unfoldable pub lock_held : Store → Bytes → Bytes → ℕ → Result Error Held
lock_held st server presented attempt_id = do
  lock_active_server_credential st.servers server presented
  located ← or_fail (find_attempt attempt_id st) authorization_denied
  guard (bytes_eq located.server_id server) authorization_denied
  slot ← or_fail (find_slot located.environment_id st) no_rows
  job ← or_fail (find_job located.job_id st) no_rows
  attempt ← or_fail (find_attempt attempt_id st) no_rows
  guard (bytes_eq attempt.server_id server) authorization_denied
  ok (record { attempt = attempt; slot = slot; job = job })

abbrev pub is_leased : AttemptState → Bool
is_leased Queue.leased = true
is_leased _ = false

abbrev pub is_current : Option ℕ → ℕ → Bool
is_current none i = false
is_current (some j) i = j == i

-- The attempt still has the authority: its fence is the call's and the slot's, it occupies the slot,
-- and its deadline lies ahead.
unfoldable pub has_authority : Held → ℕ → ℕ → ℕ → Bool
has_authority h attempt_id fence now =
    h.attempt.fence == fence
    && h.slot.fence == fence
    && is_current h.slot.current_attempt_id attempt_id
    && ltb now h.attempt.authority_expires_at

-- What a success shows of the store.
pub record IsHeld (st : Store) (server presented : Bytes) (attempt_id : ℕ) (h : Held) : Type 0 where
  pub authenticated : lock_active_server_credential st.servers server presented ≡ ok tt
  pub owned : h.attempt.server_id ≡ server
  pub attempt_found : find_attempt attempt_id st ≡ some h.attempt
  pub slot_found : find_slot h.attempt.environment_id st ≡ some h.slot
  pub job_found : find_job h.attempt.job_id st ≡ some h.job

pub lock_held-IsHeld :
    (st : Store) (server presented : Bytes) (attempt_id : ℕ) (h : Held)
    → lock_held st server presented attempt_id ≡ ok h
    → IsHeld st server presented attempt_id h
unfolding lock_held
lock_held-IsHeld st server presented attempt_id h e = ground arith

pub IsHeld-lock_held :
    (st : Store) (server presented : Bytes) (attempt_id : ℕ) (h : Held)
    → IsHeld st server presented attempt_id h
    → lock_held st server presented attempt_id ≡ ok h
unfolding lock_held
IsHeld-lock_held st server presented attempt_id h v = ground (arith, bytes_eq_refl server)
