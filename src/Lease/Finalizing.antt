-- ===== src/Lease/Finalizing.antt =====
-- `finalizeActivationSucceeded` of internal/store/postgres/agent_lease_repository.go: the writes that
-- make a switched route the active one, inside the transaction of its caller.
use auto_deploy.Base.{
  ℕ, ◌+◌, Bool, true, false, not, ◌&&◌, [], ◌∷◌, Option, none, some, ◌==◌, ltb, if◌then◌else◌,
  Bytes, bytes_eq, Result, ok,
}
use auto_deploy.Base.Encoding.{append_int}
use auto_deploy.Base.Strings.{bytes}
use auto_deploy.Base.Table.{find_row, update_rows, exists_row}
use auto_deploy.Deployment
use auto_deploy.Queue
use auto_deploy.Lease.Runtime.{Release, ReleaseState, ready, active, retained}
use auto_deploy.Lease.State.{
  Store, Job, job_succeeded, Attempt, Slot, Operation, OperationState, switch_authorized,
  reconciliation_required, op_succeeded, RouteHead, activated, event_succeeded, Error, stale,
  corrupt_state, route_moved, invalid_from_state, find_head, append_job_event, ◌>>=◌, ◌>>◌, guard,
  or_fail,
}
use auto_deploy.Lease.Held.{is_leased, is_current}
use auto_deploy.Lease.Activation.{is_switch_authorized}
use auto_deploy.Lease.Closing.{database_time, close_job, is_job_leased}
use auto_deploy.Lease.Deployments.{transition_deployment}

pub record FinalizeInput : Type 0 where
  pub job_id : ℕ
  pub attempt_id : ℕ
  pub operation_id : ℕ
  pub environment_id : Bytes
  pub deployment_id : Bytes
  pub candidate_release_id : Bytes
  pub expected_route_revision : ℕ
  pub expected_active_release_id : Option Bytes
  pub result_digest : Bytes
  pub summary : Bytes
  pub now : ℕ
  pub from_state : OperationState

abbrev pub valid_from_state : OperationState → Bool
valid_from_state switch_authorized = true
valid_from_state reconciliation_required = true
valid_from_state _ = false

abbrev pub is_ready : ReleaseState → Bool
is_ready ready = true
is_ready _ = false

abbrev pub is_active : ReleaseState → Bool
is_active active = true
is_active _ = false

-- `sameOptionalString`.
abbrev pub same_optional : Option Bytes → Option Bytes → Bool
same_optional none none = true
same_optional (some a) (some b) = bytes_eq a b
same_optional _ _ = false

abbrev pub in_state : (ReleaseState → Bool) → Option Release → Bool
in_state test none = false
in_state test (some r) = test r.state

abbrev pub find_release : Bytes → Store → Option Release
find_release id st = find_row (λ r. bytes_eq r.id id) st.runtime.releases

-- `UPDATE releases SET state=… WHERE id=$1 AND state=…`.
unfoldable pub move_release : Bytes → (ReleaseState → Bool) → ReleaseState → Store → Store
move_release id from to st = record st {
  runtime = record st.runtime {
    releases =
        update_rows (λ r. bytes_eq r.id id && from r.state) (λ r. record r { state = to })
          st.runtime.releases;
  };
}

-- The predecessor, if there is one, is the active release and is retained.
unfoldable pub retain_predecessor : Option Bytes → Store → Result Error Store
retain_predecessor none st = ok st
retain_predecessor (some id) st = do
  guard (in_state is_active (find_release id st)) corrupt_state
  ok (move_release id is_active retained st)

abbrev pub advance_head : FinalizeInput → RouteHead → RouteHead
advance_head i r = record r {
  active_release_id = some i.candidate_release_id;
  route_revision = r.route_revision + 1;
  reconciliation_required = false;
  updated_at = if ltb r.updated_at i.now then i.now else r.updated_at;
}

abbrev pub is_expected_head : FinalizeInput → RouteHead → Bool
is_expected_head i r =
    bytes_eq r.environment_id i.environment_id && r.route_revision == i.expected_route_revision

-- The route head and its event.
unfoldable pub switch_head : FinalizeInput → Store → Result Error Store
switch_head i st = do
  guard (exists_row (is_expected_head i) st.route_heads) route_moved
  ok (record st {
    route_heads = update_rows (is_expected_head i) (advance_head i) st.route_heads;
    route_events =
        record {
          environment_id = i.environment_id;
          event_kind = bytes "activated";
          route_revision = i.expected_route_revision + 1;
          hostname = none;
          active_release_id = some i.candidate_release_id;
        }
        ∷ st.route_events;
  })

abbrev pub same_from : OperationState → OperationState → Bool
same_from switch_authorized switch_authorized = true
same_from reconciliation_required reconciliation_required = true
same_from _ _ = false

abbrev pub first_closed : Option ℕ → ℕ → Option ℕ
first_closed none now = some now
first_closed (some t) now = some t

abbrev pub succeed_operation : FinalizeInput → Operation → Operation
succeed_operation i o = record o {
  state = op_succeeded;
  closed_at = first_closed o.closed_at i.now;
  outcome_summary = i.summary;
}

abbrev pub is_finalized_operation : FinalizeInput → Operation → Bool
is_finalized_operation i o = o.id == i.operation_id && same_from o.state i.from_state

unfoldable pub close_activation : FinalizeInput → Store → Result Error Store
close_activation i st = do
  guard (exists_row (is_finalized_operation i) st.operations) stale
  ok (record st {
    operations = update_rows (is_finalized_operation i) (succeed_operation i) st.operations;
  })

abbrev pub succeed_attempt : FinalizeInput → Attempt → Attempt
succeed_attempt i a = record a {
  state = Queue.succeeded;
  closed_at = some i.now;
  failure_class = none;
  result_operation_id = some (append_int i.operation_id []);
  result_digest = some i.result_digest;
}

abbrev pub is_leased_attempt : FinalizeInput → Attempt → Bool
is_leased_attempt i a = a.id == i.attempt_id && is_leased a.state

abbrev pub is_own_flag : Option ℕ → ℕ → Bool
is_own_flag none i = true
is_own_flag (some j) i = j == i

abbrev pub is_held_slot : FinalizeInput → Slot → Bool
is_held_slot i s =
    bytes_eq s.environment_id i.environment_id
    && is_current s.current_attempt_id i.attempt_id
    && is_own_flag s.reconciliation_attempt_id i.attempt_id

abbrev pub release_slot : FinalizeInput → Slot → Slot
release_slot i s = record s {
  current_attempt_id = none;
  reconciliation_required = false;
  reconciliation_attempt_id = none;
  updated_at = i.now;
}

abbrev pub is_leased_job : FinalizeInput → Job → Bool
is_leased_job i j = j.id == i.job_id && is_job_leased j.state

-- The attempt, its slot and its job.
unfoldable pub close_lease : FinalizeInput → Store → Result Error Store
close_lease i st = do
  guard (exists_row (is_leased_attempt i) st.attempts) corrupt_state
  guard (exists_row (is_held_slot i) st.slots) corrupt_state
  guard (exists_row (is_leased_job i) st.jobs) corrupt_state
  ok (
      append_job_event i.job_id (some i.attempt_id) event_succeeded (
        append_job_event i.job_id (some i.attempt_id) activated (record st {
          attempts = update_rows (is_leased_attempt i) (succeed_attempt i) st.attempts;
          slots = update_rows (is_held_slot i) (release_slot i) st.slots;
          jobs = update_rows (is_leased_job i) (close_job job_succeeded i.now) st.jobs;
        })))

-- The route head is as it was when the switch was authorized.
unfoldable pub check_head : FinalizeInput → RouteHead → Result Error (Unit {0})
check_head i head = do
  guard
      (head.route_revision == i.expected_route_revision
        && same_optional head.active_release_id i.expected_active_release_id)
      route_moved
  guard (not (head.reconciliation_required && is_switch_authorized i.from_state)) corrupt_state

-- The releases: the candidate is ready and becomes the active one.
unfoldable pub switch_releases : FinalizeInput → Store → Result Error Store
switch_releases i st = do
  guard (in_state is_ready (find_release i.candidate_release_id st)) corrupt_state
  st' ← retain_predecessor i.expected_active_release_id st
  ok (move_release i.candidate_release_id is_ready active st')

unfoldable pub finalize_activation_succeeded : FinalizeInput → Store → Result Error Store
finalize_activation_succeeded i st = do
  guard (valid_from_state i.from_state) invalid_from_state
  moved ← transition_deployment st i.deployment_id Deployment.healthy (database_time i.now)
  head ← or_fail (find_head i.environment_id moved) corrupt_state
  check_head i head
  switched ← switch_releases i moved
  routed ← switch_head i switched
  closed ← close_activation i routed
  close_lease i closed
