-- ===== src/Lease/Reconciliation.antt =====
-- `Reconcile` and `MarkReconciled` of internal/store/postgres/agent_lease_repository.go, with
-- `clearPlainReconciliation` of activation_resolution.go. The audit row of MarkReconciled is left out.
use auto_deploy.Base.{
  ℕ, Bool, true, false, not, ◌&&◌, ◌||◌, Option, none, some, ◌==◌, ltb, leb, Bytes, bytes_eq,
  Result, ok, err, length,
}
use auto_deploy.Base.Table.{exists_row}
use auto_deploy.Base.Strings.{valid_utf8, all_bytes}
use auto_deploy.Github.{valid_opaque_id}
use auto_deploy.Lease.State.{
  Store, Slot, Attempt, EventType, reconciled, Error, append_job_event, authorization_denied,
  invalid_input, corrupt_state, activation_unresolved, no_rows, find_job, find_attempt, find_slot,
  update_slot, lock_active_server_credential, ◌>>=◌, ◌>>◌, guard, or_fail,
}
use auto_deploy.Lease.Held.{is_leased, is_current}
use auto_deploy.Lease.Renewal.{is_requested}
use auto_deploy.Lease.Activation.{holds_unresolved, is_unresolved}

abbrev pub clear_slot : ℕ → Slot → Slot
clear_slot now s = record s {
  reconciliation_required = false;
  reconciliation_attempt_id = none;
  updated_at = now;
}

abbrev pub is_reconciled : EventType → Bool
is_reconciled reconciled = true
is_reconciled _ = false

abbrev pub already_reconciled : Store → ℕ → ℕ → Bool
already_reconciled st job_id attempt_id =
    exists_row
      (λ e. e.job_id == job_id && is_current e.attempt_id attempt_id && is_reconciled e.event_type)
      st.events

unfoldable pub cleared : Store → Bytes → ℕ → Option ℕ → ℕ → Store
cleared st environment_id job_id attempt_id now =
    append_job_event job_id attempt_id reconciled (update_slot environment_id (clear_slot now) st)

-- The attempt is this server's, of this environment, at the exact fence, and closed.
abbrev pub may_reconcile : Attempt → Bytes → Bytes → ℕ → Bool
may_reconcile a server environment_id fence =
    bytes_eq a.server_id server
    && bytes_eq a.environment_id environment_id
    && a.fence == fence
    && not (is_leased a.state)
    && is_requested a.closed_at

-- The digest of the outcome is only checked for its shape, by its type.
unfoldable pub reconcile : Store → Bytes → Bytes → Bytes → ℕ → ℕ → ℕ → Result Error Store
reconcile st server presented environment_id attempt_id fence now = do
  guard
      (valid_opaque_id server && valid_opaque_id environment_id && ltb 0 attempt_id && ltb 0 fence)
      invalid_input
  lock_active_server_credential st.servers server presented
  slot ← or_fail (find_slot environment_id st) authorization_denied
  a ← or_fail (find_attempt attempt_id st) authorization_denied
  guard (may_reconcile a server environment_id fence) authorization_denied
  guard (not (exists_row (holds_unresolved attempt_id environment_id) st.operations)) corrupt_state
  elim (is_current slot.reconciliation_attempt_id attempt_id) [
    | false ↦ guard (already_reconciled st a.job_id attempt_id) authorization_denied >> ok st
    | true ↦ ok (cleared st environment_id a.job_id (some attempt_id) now)
  ]

-- server_repository.go: a reason is bounded valid UTF-8 with no control characters.
unfoldable pub valid_reason : Bytes → Bool
valid_reason reason =
    leb (length reason) 512
    && valid_utf8 reason
    && all_bytes (λ c. not (ltb c 0x20 || c == 0x7f)) reason

abbrev pub pending : Option ℕ → Result Error ℕ
pending none = err authorization_denied
pending (some i) = ok i

unfoldable pub mark_reconciled : Store → Bool → Bytes → Bytes → Bytes → ℕ → Result Error Store
mark_reconciled st session_locked owner_id environment_id reason now = do
  guard (valid_opaque_id environment_id && valid_reason reason) authorization_denied
  guard session_locked authorization_denied
  slot ← or_fail (find_slot environment_id st) authorization_denied
  attempt_id ← pending slot.reconciliation_attempt_id
  a ← or_fail (find_attempt attempt_id st) no_rows
  job ← or_fail (find_job a.job_id st) no_rows
  guard (bytes_eq job.owner_id owner_id) authorization_denied
  guard
      (not (
        exists_row (λ o. bytes_eq o.environment_id environment_id && is_unresolved o)
          st.operations))
      activation_unresolved
  ok (cleared st environment_id a.job_id slot.reconciliation_attempt_id now)
