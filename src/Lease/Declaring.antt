-- ===== src/Lease/Declaring.antt =====
-- The two callers of the declared resolution, `ResolveActivation` of the operator and
-- `ReconcileActivation` of the agent: internal/store/postgres/activation_resolution.go.
use auto_deploy.Base.{
  ℕ, Bool, not, ◌&&◌, ◌||◌, ◌++◌, none, some, ◌==◌, ltb, Bytes, bytes_eq, Result, ok, if◌then◌else◌,
}
use auto_deploy.Base.Strings.{bytes}
use auto_deploy.Github.{valid_opaque_id}
use auto_deploy.Lease.State.{
  Store, Attempt, Slot, Error, authorization_denied, invalid_input, corrupt_state, no_rows,
  find_job, find_attempt, find_slot, lock_active_server_credential, ◌>>=◌, ◌>>◌, guard, or_fail,
}
use auto_deploy.Lease.Held.{is_leased, is_current}
use auto_deploy.Lease.Renewal.{is_requested}
use auto_deploy.Lease.Reconciliation.{valid_reason, already_reconciled}
use auto_deploy.Lease.Resolving.{
  Outcome, valid_activation_outcome, outcome_text, DeclaredResolution, resolve_declared,
  agree_resolved_outcome, confirm_resolved_outcome,
}

abbrev pub is_open_attempt : Attempt → Bool
is_open_attempt a = is_leased a.state || not (is_requested a.closed_at)

abbrev pub authorize_any : Attempt → Result Error (Unit {0})
authorize_any a = ok tt

abbrev pub operator_resolution : Bytes → ℕ → ℕ → Slot → Outcome → DeclaredResolution
operator_resolution environment_id job_id attempt_id slot outcome = record {
  environment_id = environment_id;
  job_id = job_id;
  attempt_id = attempt_id;
  slot_current_attempt_id = slot.current_attempt_id;
  outcome = outcome;
  authorize = authorize_any;
  outcome_digest = none;
  plain_attempt_refusal =
      λ a. guard (not (is_leased a.state && not (is_requested a.closed_at))) corrupt_state;
}

abbrev pub audit_reason : Outcome → Bytes → Bytes
audit_reason outcome reason = bytes "outcome=" ++ (outcome_text outcome ++ (bytes "; " ++ reason))

-- The administrator's session is an argument.
unfoldable pub resolve_activation :
    Store → Bool → Bytes → Bytes → Outcome → Bytes → ℕ → Result Error Store
resolve_activation st session_locked owner_id environment_id outcome reason now = do
  guard (valid_opaque_id environment_id) authorization_denied
  guard (valid_activation_outcome outcome) invalid_input
  guard (valid_reason (audit_reason outcome reason)) authorization_denied
  guard session_locked authorization_denied
  slot ← or_fail (find_slot environment_id st) authorization_denied
  elim (slot.reconciliation_attempt_id) [
    | none ↦ confirm_resolved_outcome st owner_id environment_id outcome >> ok st
    | some attempt_id ↦ do
      a ← or_fail (find_attempt attempt_id st) no_rows
      job ← or_fail (find_job a.job_id st) no_rows
      guard (bytes_eq job.owner_id owner_id) authorization_denied
      resolve_declared (operator_resolution environment_id a.job_id attempt_id slot outcome) now st
  ]

abbrev pub authorize_server : Bytes → Bytes → ℕ → Attempt → Result Error (Unit {0})
authorize_server server environment_id fence a =
    guard
      (bytes_eq a.server_id server && bytes_eq a.environment_id environment_id && a.fence == fence)
      authorization_denied

abbrev pub agent_resolution :
    Bytes → Bytes → ℕ → ℕ → ℕ → Slot → Outcome → Bytes → DeclaredResolution
agent_resolution server environment_id job_id attempt_id fence slot outcome digest = record {
  environment_id = environment_id;
  job_id = job_id;
  attempt_id = attempt_id;
  slot_current_attempt_id = slot.current_attempt_id;
  outcome = outcome;
  authorize = authorize_server server environment_id fence;
  outcome_digest = some digest;
  plain_attempt_refusal = λ a. guard (not (is_open_attempt a)) authorization_denied;
}

-- A repeat, anchored to the attempt that is given.
unfoldable pub confirm_reconciled :
    Store → Bytes → Bytes → ℕ → ℕ → Outcome → Bytes → Result Error Store
confirm_reconciled st server environment_id attempt_id fence outcome digest = do
  a ← or_fail (find_attempt attempt_id st) authorization_denied
  authorize_server server environment_id fence a
  guard (not (is_open_attempt a)) authorization_denied
  guard (already_reconciled st a.job_id attempt_id) authorization_denied
  agree_resolved_outcome st attempt_id outcome (some digest)
  ok st

unfoldable pub reconcile_activation :
    Store → Bytes → Bytes → Bytes → ℕ → ℕ → Outcome → Bytes → ℕ → Result Error Store
reconcile_activation st server presented environment_id attempt_id fence outcome digest now = do
  guard
      (valid_opaque_id server
        && valid_opaque_id environment_id
        && ltb 0 attempt_id
        && ltb 0 fence
        && valid_activation_outcome outcome)
      invalid_input
  lock_active_server_credential st.servers server presented
  slot ← or_fail (find_slot environment_id st) authorization_denied
  if not (is_current slot.reconciliation_attempt_id attempt_id)
      then confirm_reconciled st server environment_id attempt_id fence outcome digest
      else do
        a ← or_fail (find_attempt attempt_id st) no_rows
        authorize_server server environment_id fence a
        resolve_declared
            (agent_resolution server environment_id a.job_id attempt_id fence slot outcome digest)
            now st
