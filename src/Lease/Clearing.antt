-- ===== src/Lease/Clearing.antt =====
-- What MarkReconciled shows and does when it succeeds.
use auto_deploy.Base.{
  ℕ, ◌≡◌, refl, Bool, true, false, ◌&&◌, Option, none, some, Bytes, bytes_eq, arith, ok,
}
use auto_deploy.Base.Table.{exists_row, find_row-update_rows, find_row-test}
use auto_deploy.Lease.State.{
  Store, Slot, Job, Attempt, find_slot, find_attempt, find_job, append_job_event,
}
use auto_deploy.Lease.Activation.{is_unresolved}
use auto_deploy.Lease.Reconciliation.{cleared, clear_slot, mark_reconciled}

cleared-slot :
    (st : Store) (e : Bytes) (job_id : ℕ) (attempt_id : Option ℕ) (now : ℕ) (s : Slot)
    → find_slot e st ≡ some s
    → find_slot e (cleared st e job_id attempt_id now) ≡ some (clear_slot now s)
unfolding cleared append_job_event
cleared-slot st e job_id attempt_id now s found = ground (
  arith,
  find_row-update_rows (λ (x : Slot). bytes_eq x.environment_id e)
      (λ x. bytes_eq x.environment_id e) (clear_slot now) st.slots (λ x. refl),
  find_row-test (λ (x : Slot). bytes_eq x.environment_id e) st.slots s found,
)

cleared-operations :
    (st : Store) (e : Bytes) (job_id : ℕ) (attempt_id : Option ℕ) (now : ℕ)
    → ((cleared st e job_id attempt_id now).operations ≡ st.operations)
      × ((cleared st e job_id attempt_id now).attempts ≡ st.attempts)
unfolding cleared append_job_event
cleared-operations st e job_id attempt_id now = (refl, refl)

mark→checked :
    (st : Store) (session_locked : Bool) (owner_id e reason : Bytes) (now : ℕ) (st' : Store)
    → mark_reconciled st session_locked owner_id e reason now ≡ ok st'
    → (s : Slot) × (i : ℕ) × (a : Attempt) × (j : Job) × (session_locked ≡ true)
      × (find_slot e st ≡ some s)
      × (s.reconciliation_attempt_id ≡ some i)
      × (find_attempt i st ≡ some a)
      × (find_job a.job_id st ≡ some j)
      × (bytes_eq j.owner_id owner_id ≡ true)
      × (exists_row (λ o. bytes_eq o.environment_id e && is_unresolved o) st.operations ≡ false)
      × (st' ≡ cleared st e a.job_id s.reconciliation_attempt_id now)
unfolding mark_reconciled
mark→checked st session_locked owner_id e reason now st' h = ground arith

-- An operator's plain reconciliation that succeeds was made in a locked session by the owner of the
-- job whose attempt the slot waits for, where no activation of the environment is unresolved. It
-- clears the flag and the reference of the slot, and leaves the fence and the occupant of the slot,
-- the attempts and the operations as they were.
pub mark_reconciled_lem :
    (st : Store) (session_locked : Bool) (owner_id e reason : Bytes) (now : ℕ) (st' : Store)
    → mark_reconciled st session_locked owner_id e reason now ≡ ok st'
    → (s : Slot) × (i : ℕ) × (a : Attempt) × (j : Job) × (session_locked ≡ true)
      × (find_slot e st ≡ some s)
      × (s.reconciliation_attempt_id ≡ some i)
      × (find_attempt i st ≡ some a)
      × (find_job a.job_id st ≡ some j)
      × (j.owner_id ≡ owner_id)
      × (exists_row (λ o. bytes_eq o.environment_id e && is_unresolved o) st.operations ≡ false)
      × (find_slot e st'
          ≡ some (record s {
            reconciliation_required = false;
            reconciliation_attempt_id = none;
            updated_at = now;
          }))
      × (st'.attempts ≡ st.attempts)
      × (st'.operations ≡ st.operations)
mark_reconciled_lem st session_locked owner_id e reason now st' h =
    let (s, i, a, j, p, slot, pending, attempt, job, owner, clear, same) =
      mark→checked st session_locked owner_id e reason now st' h in
    let (o, t) = cleared-operations st e a.job_id s.reconciliation_attempt_id now in
    (
      s,
      i,
      a,
      j,
      p,
      slot,
      pending,
      attempt,
      job,
      ground arith,
      clear,
      rw same (cleared-slot st e a.job_id s.reconciliation_attempt_id now s slot),
      rw same t,
      rw same o,
    )
