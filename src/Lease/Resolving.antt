-- ===== src/Lease/Resolving.antt =====
-- The declared resolution of a blocked activation, by the operator or by the agent:
-- internal/store/postgres/activation_resolution.go. The audit row is left out.
use auto_deploy.Base.{
  ℕ, ◌+◌, Bool, true, false, not, ◌&&◌, ◌||◌, List, [], ◌∷◌, ◌++◌, Option, none, some, ◌==◌, ltb,
  if◌then◌else◌, Bytes, bytes_eq, length, is_empty, Result, ok, err,
}
use auto_deploy.Base.Strings.{bytes}
use auto_deploy.Base.Table.{find_row, update_rows, exists_row}
use auto_deploy.Deployment.{Status, Snapshot, status_eq}
use auto_deploy.Deployment
use auto_deploy.Queue
use auto_deploy.Lease.State.{
  Store, Job, Attempt, Slot, Operation, OperationState, op_succeeded, op_failed, RouteHead,
  reconciliation_required, reconciled, job_failed, event_failed, activation_not_activated, Error,
  append_job_event, authorization_denied, corrupt_state, activation_unresolved, integrity_conflict,
  outcome_mismatch, no_rows, find_job, find_attempt, find_head, ◌>>=◌, ◌>>◌, guard, or_fail,
}
use auto_deploy.Lease.Deployments.{transition_deployment, is_deployment}
use auto_deploy.Lease.Held.{is_leased, is_current}
use auto_deploy.Lease.Renewal.{is_requested}
use auto_deploy.Lease.Activation.{is_unresolved, is_activate}
use auto_deploy.Lease.Closing.{database_time, close_attempt, close_job, is_job_leased}
use auto_deploy.Lease.Reconciliation.{cleared, is_reconciled}
use auto_deploy.Lease.Finalizing.{FinalizeInput, finalize_activation_succeeded, first_closed}
use auto_deploy.Lease.Evidence.{late_report_separator, max_outcome_summary_bytes}

pub data Outcome : Type 0 where
  outcome_activated outcome_not_activated outcome_no_activation : Outcome
  other_outcome : Bytes → Outcome

abbrev pub valid_activation_outcome : Outcome → Bool
valid_activation_outcome (other_outcome s) = false
valid_activation_outcome _ = true

abbrev pub is_no_activation : Outcome → Bool
is_no_activation outcome_no_activation = true
is_no_activation _ = false

abbrev pub is_activated : Outcome → Bool
is_activated outcome_activated = true
is_activated _ = false

abbrev pub is_not_activated : Outcome → Bool
is_not_activated outcome_not_activated = true
is_not_activated _ = false

abbrev pub outcome_text : Outcome → Bytes
outcome_text outcome_activated = bytes "activated"
outcome_text outcome_not_activated = bytes "not_activated"
outcome_text outcome_no_activation = bytes "no_activation"
outcome_text (other_outcome s) = s

unfoldable pub declared_summary : Bytes → Outcome → Bytes
declared_summary existing outcome =
    let marker =
      (if is_empty existing then [] else late_report_separator)
      ++ (bytes "declared " ++ outcome_text outcome) in
    if ltb max_outcome_summary_bytes (length existing + length marker)
    then existing
    else existing ++ marker

-- What the two callers of the resolution differ in.
pub record DeclaredResolution : Type 0 where
  pub environment_id : Bytes
  pub job_id : ℕ
  pub attempt_id : ℕ
  pub slot_current_attempt_id : Option ℕ
  pub outcome : Outcome
  pub authorize : Attempt → Result Error (Unit {0})
  pub outcome_digest : Option Bytes
  pub plain_attempt_refusal : Attempt → Result Error (Unit {0})

abbrev pub is_reconciliation_required : OperationState → Bool
is_reconciliation_required reconciliation_required = true
is_reconciliation_required _ = false

abbrev pub is_flagged : Bytes → RouteHead → Bool
is_flagged e r = bytes_eq r.environment_id e && r.reconciliation_required

abbrev pub unflag_head : ℕ → RouteHead → RouteHead
unflag_head now r = record r {
  reconciliation_required = false;
  updated_at = if ltb r.updated_at now then now else r.updated_at;
}

abbrev pub is_resolvable : ℕ → Operation → Bool
is_resolvable operation_id o = o.id == operation_id && is_reconciliation_required o.state

abbrev pub fail_operation : ℕ → Bytes → Operation → Operation
fail_operation now summary o = record o {
  state = op_failed;
  closed_at = first_closed o.closed_at now;
  outcome_summary = summary;
}

abbrev pub is_holder : Bytes → ℕ → Slot → Bool
is_holder e attempt_id s =
    bytes_eq s.environment_id e
    && is_current s.current_attempt_id attempt_id
    && is_current s.reconciliation_attempt_id attempt_id

abbrev pub free_flagged : ℕ → Slot → Slot
free_flagged now s = record s {
  current_attempt_id = none;
  reconciliation_required = false;
  reconciliation_attempt_id = none;
  updated_at = now;
}

-- The flag of the head, which `headFlagged` says is set.
unfoldable pub clear_head : Bool → Bytes → ℕ → Store → Result Error Store
clear_head false e now st = ok st
clear_head true e now st = do
  guard (exists_row (is_flagged e) st.route_heads) corrupt_state
  ok (record st { route_heads = update_rows (is_flagged e) (unflag_head now) st.route_heads })

-- The operation, the attempt, the slot and the job.
unfoldable pub fail_rows : ℕ → ℕ → ℕ → Bytes → Bytes → ℕ → Store → Result Error Store
fail_rows job_id attempt_id operation_id e summary now st = do
  guard (exists_row (is_resolvable operation_id) st.operations) corrupt_state
  guard (exists_row (λ a. a.id == attempt_id && is_leased a.state) st.attempts) corrupt_state
  guard (exists_row (is_holder e attempt_id) st.slots) corrupt_state
  guard (exists_row (λ j. j.id == job_id && is_job_leased j.state) st.jobs) corrupt_state
  ok (
      append_job_event job_id (some attempt_id) event_failed (
        append_job_event job_id (some attempt_id) activation_not_activated (record st {
          operations =
              update_rows (is_resolvable operation_id) (fail_operation now summary) st.operations;
          attempts =
              update_rows (λ a. a.id == attempt_id && is_leased a.state)
                (close_attempt Queue.expired now) st.attempts;
          slots = update_rows (is_holder e attempt_id) (free_flagged now) st.slots;
          jobs =
              update_rows (λ j. j.id == job_id && is_job_leased j.state) (close_job job_failed now)
                st.jobs;
        })))

unfoldable pub resolve_not_activated :
    ℕ → ℕ → ℕ → Bytes → Bytes → Bool → Bytes → ℕ → Store → Result Error Store
resolve_not_activated job_id attempt_id operation_id e deployment_id head_flagged summary now st =
    do
      moved ← transition_deployment st deployment_id Deployment.failed (database_time now)
      routed ← clear_head head_flagged e now moved
      fail_rows job_id attempt_id operation_id e summary now routed

-- The shape that every block of an activation leaves.
abbrev pub check_shape : DeclaredResolution → Job → Attempt → Operation → Result Error (Unit {0})
check_shape d job a o = do
  guard (is_leased a.state && not (is_requested a.closed_at)) corrupt_state
  guard (bytes_eq a.environment_id d.environment_id && a.fence == o.fence) corrupt_state
  guard (is_job_leased job.state) corrupt_state
  guard (is_current d.slot_current_attempt_id d.attempt_id) corrupt_state
  guard (length o.route_digest == 32) corrupt_state

-- The digest that the agent presents for an activated outcome.
abbrev pub agrees : Option Bytes → Bytes → Bool
agrees none digest = true
agrees (some presented) digest = bytes_eq presented digest

abbrev pub head_flag : Option RouteHead → Bool
head_flag none = false
head_flag (some r) = r.reconciliation_required

abbrev pub declared_input : DeclaredResolution → Job → Operation → ℕ → FinalizeInput
declared_input d job o now = record {
  job_id = d.job_id;
  attempt_id = d.attempt_id;
  operation_id = o.id;
  environment_id = d.environment_id;
  deployment_id = job.deployment_id;
  candidate_release_id = o.release_id;
  expected_route_revision = o.expected_route_revision;
  expected_active_release_id = o.expected_active_release_id;
  result_digest = o.route_digest;
  summary = declared_summary o.outcome_summary d.outcome;
  now = now;
  from_state = reconciliation_required;
}

-- The writes of either outcome.
unfoldable pub resolve_writes :
    DeclaredResolution → Job → Operation → ℕ → Store → Result Error Store
resolve_writes d job o now st =
    if is_activated d.outcome
    then finalize_activation_succeeded (declared_input d job o now) st
    else resolve_not_activated d.job_id d.attempt_id o.id d.environment_id job.deployment_id
        (head_flag (find_head d.environment_id st)) (declared_summary o.outcome_summary d.outcome)
        now st

unfoldable pub resolve_operation :
    DeclaredResolution → Job → Attempt → Operation → ℕ → Store → Result Error Store
resolve_operation d job a o now st = do
  guard (o.attempt_id == d.attempt_id) corrupt_state
  guard (not (is_no_activation d.outcome)) outcome_mismatch
  guard (is_reconciliation_required o.state) activation_unresolved
  check_shape d job a o
  guard (not (is_activated d.outcome) || agrees d.outcome_digest o.route_digest) integrity_conflict
  s ← or_fail (find_row (is_deployment job.deployment_id) st.deployments) no_rows
  guard (status_eq s.status Deployment.activating) corrupt_state
  st' ← resolve_writes d job o now st
  ok (append_job_event d.job_id (some d.attempt_id) reconciled st')

unfoldable pub resolve_declared : DeclaredResolution → ℕ → Store → Result Error Store
resolve_declared d now st = do
  job ← or_fail (find_job d.job_id st) no_rows
  a ← or_fail (find_attempt d.attempt_id st) no_rows
  d.authorize a
  elim (find_row (λ o. bytes_eq o.environment_id d.environment_id && is_unresolved o)
      st.operations) [
        | some o ↦ resolve_operation d job a o now st
        | none ↦
            guard (is_no_activation d.outcome) outcome_mismatch
            >> d.plain_attempt_refusal a
            >> ok (cleared st d.environment_id d.job_id (some d.attempt_id) now)
      ]

-- The row of the highest id among those that a query selects.
abbrev pub higher {ℓ} : {A : Type ℓ} → (A → ℕ) → A → Option A → Option A
higher id x none = some x
higher id x (some y) = if ltb (id x) (id y) then some y else some x

unfoldable pub newest {ℓ} : {A : Type ℓ} → (A → Bool) → (A → ℕ) → List A → Option A
newest query id [] = none
newest query id (x ∷ xs) =
    let rest = newest query id xs in if query x then higher id x rest else rest

abbrev pub state_agrees : OperationState → Outcome → Result Error (Unit {0})
state_agrees op_succeeded outcome = guard (is_activated outcome) integrity_conflict
state_agrees op_failed outcome = guard (is_not_activated outcome) integrity_conflict
state_agrees _ outcome = err corrupt_state

unfoldable pub agree_resolved_outcome : Store → ℕ → Outcome → Option Bytes → Result Error (Unit {0})
agree_resolved_outcome st attempt_id outcome digest =
    elim (newest (λ o. o.attempt_id == attempt_id && is_activate o.kind) (λ o. o.id)
      st.operations) [
        | none ↦ guard (is_no_activation outcome) integrity_conflict
        | some o ↦
            state_agrees o.state outcome
            >> guard (not (is_activated outcome) || agrees digest o.route_digest) integrity_conflict
      ]

unfoldable pub confirm_resolved_outcome : Store → Bytes → Bytes → Outcome → Result Error (Unit {0})
confirm_resolved_outcome st owner_id environment_id outcome = do
  a ←
      or_fail (newest (λ a. bytes_eq a.environment_id environment_id) (λ a. a.id) st.attempts)
        authorization_denied
  job ← or_fail (find_job a.job_id st) authorization_denied
  guard (bytes_eq job.owner_id owner_id) authorization_denied
  guard (exists_row (λ e. is_current e.attempt_id a.id && is_reconciled e.event_type) st.events)
      authorization_denied
  agree_resolved_outcome st a.id outcome none
