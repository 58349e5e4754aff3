-- ===== src/Lease/Completion.antt =====
-- `Complete` of internal/store/postgres/agent_lease_repository.go.
use auto_deploy.Base.{
  ℕ, ◌+◌, Bool, true, false, not, ◌&&◌, ◌||◌, [], Option, none, some, ◌==◌, ltb, leb, if◌then◌else◌,
  Bytes, bytes_eq, Result, ok, err, length,
}
use auto_deploy.Base.Table.{update_rows, exists_row}
use auto_deploy.Github.{valid_opaque_id}
use auto_deploy.Deployment
use auto_deploy.Queue.{
  AttemptState, FailureClass, FailureClass-discrete, CompletionOutcome, completion_succeeded,
  completion_failed, other_outcome, valid, retryable, max_attempts, full_jitter_delay,
}
use auto_deploy.Queue
use auto_deploy.Lease.State.{
  Store, JobState, job_succeeded, job_failed, retry_wait, dead, Attempt, Slot, Error, EventType,
  event_succeeded, event_failed, retry_scheduled, event_dead, append_job_event, invalid_input,
  stale, integrity_conflict, activation_open, update_attempt, ◌>>=◌, ◌>>◌, guard,
}
use auto_deploy.Lease.Deployments.{transition_deployment}
use auto_deploy.Lease.Held.{Held, lock_held, has_authority, is_leased, is_current}
use auto_deploy.Lease.Activation.{is_unresolved}
use auto_deploy.Lease.Closing.{database_time, write_job}

abbrev pub valid_operation_id : Bytes → Bool
valid_operation_id id = leb 1 (length id) && leb (length id) 128

-- A class with a success, one that is not of the schema with a failure, and an unknown outcome are
-- refused.
unfoldable pub valid_outcome : CompletionOutcome → FailureClass → Bool
valid_outcome completion_succeeded (Queue.other []) = true
valid_outcome completion_succeeded class = false
valid_outcome completion_failed class = valid class
valid_outcome (other_outcome s) class = false

-- The class that the row keeps of this outcome, and its state.
abbrev pub class_of : CompletionOutcome → FailureClass → Option FailureClass
class_of completion_failed class = some class
class_of _ class = none

abbrev pub closed_state : CompletionOutcome → AttemptState
closed_state completion_failed = Queue.failed
closed_state _ = Queue.succeeded

abbrev pub same_state : AttemptState → AttemptState → Bool
same_state Queue.succeeded Queue.succeeded = true
same_state Queue.failed Queue.failed = true
same_state Queue.leased Queue.leased = true
same_state Queue.expired Queue.expired = true
same_state Queue.cancelled Queue.cancelled = true
same_state _ _ = false

abbrev pub same_class : Option FailureClass → Option FailureClass → Bool
same_class none none = true
same_class (some a) (some b) = elim (FailureClass-discrete a b) [ yes p ↦ true | no p ↦ false ]
same_class _ _ = false

-- `len(stored) == 32 && stored == presented`.
abbrev pub same_digest : Option Bytes → Bytes → Bool
same_digest none presented = false
same_digest (some stored) presented = length stored == 32 && bytes_eq stored presented

-- The replay branch of a closed attempt.
unfoldable pub replay_complete :
    Store → Attempt → CompletionOutcome → FailureClass → Bytes → Bytes → Result Error Store
replay_complete st a outcome class operation_id digest = elim a.result_operation_id [
  | none ↦ err stale
  | some stored ↦
      if not (same_state a.state (closed_state outcome))
        || not (bytes_eq stored operation_id)
        || not (same_digest a.result_digest digest)
        || not (same_class a.failure_class (class_of outcome class))
      then err integrity_conflict
      else ok st
]

abbrev pub has_open_activation : Store → ℕ → ℕ → Bool
has_open_activation st attempt_id fence =
    exists_row (λ o. o.attempt_id == attempt_id && o.fence == fence && is_unresolved o)
      st.operations

unfoldable pub completed_job_state : CompletionOutcome → FailureClass → ℕ → JobState
completed_job_state completion_succeeded class attempt_number = job_succeeded
completed_job_state _ class attempt_number =
    if retryable class && ltb attempt_number max_attempts
    then retry_wait
    else if retryable class
    then dead
    else job_failed

abbrev pub record_result :
    AttemptState → ℕ → Option FailureClass → Bytes → Bytes → Attempt → Attempt
record_result state now class operation_id digest a = record a {
  state = state;
  closed_at = some now;
  failure_class = class;
  result_operation_id = some operation_id;
  result_digest = some digest;
}

abbrev pub free : ℕ → Slot → Slot
free now s = record s { current_attempt_id = none; updated_at = now }

-- `UPDATE environment_slots SET current_attempt_id=NULL … AND current_attempt_id=$3`.
unfoldable pub free_slot : Bytes → ℕ → ℕ → Store → Store
free_slot environment_id attempt_id now st = record st {
  slots =
      update_rows
        (λ s.
          bytes_eq s.environment_id environment_id && is_current s.current_attempt_id attempt_id)
        (free now) st.slots;
}

abbrev pub completion_event : JobState → EventType
completion_event job_failed = event_failed
completion_event retry_wait = retry_scheduled
completion_event dead = event_dead
completion_event _ = event_succeeded

abbrev pub fail_deployment : JobState → Bytes → ℕ → Store → Result Error Store
fail_deployment job_failed deployment_id now st =
    transition_deployment st deployment_id Deployment.failed (database_time now)
fail_deployment dead deployment_id now st =
    transition_deployment st deployment_id Deployment.failed (database_time now)
fail_deployment _ deployment_id now st = ok st

-- The attempt, the slot and the job.
unfoldable pub completed_rows :
    Store → Held → ℕ → CompletionOutcome → FailureClass → JobState → Bytes → Bytes → ℕ → ℕ → Store
completed_rows st h attempt_id outcome class state operation_id digest available now =
    write_job h.attempt.job_id state available now (
      free_slot h.attempt.environment_id attempt_id now (
        update_attempt attempt_id
          (record_result (closed_state outcome) now (class_of outcome class) operation_id digest)
          st))

-- The first completion of a leased attempt.
unfoldable pub complete_held :
    (ℕ → ℕ)
    → Store
    → Held
    → ℕ
    → CompletionOutcome
    → FailureClass
    → Bytes
    → Bytes
    → ℕ
    → Result Error Store
complete_held draw st h attempt_id outcome class operation_id digest now =
    let state = completed_job_state outcome class h.attempt.attempt_number in
    let available = now + full_jitter_delay draw h.attempt.attempt_number in
    fail_deployment state h.job.deployment_id now
      (completed_rows st h attempt_id outcome class state operation_id digest available now)
    >>= λ st'. ok (append_job_event h.attempt.job_id (some attempt_id) (completion_event state) st')

unfoldable pub complete :
    (ℕ → ℕ)
    → Store
    → Bytes
    → Bytes
    → ℕ
    → ℕ
    → CompletionOutcome
    → FailureClass
    → Bytes
    → Bytes
    → ℕ
    → Result Error Store
complete draw st server presented attempt_id fence outcome class operation_id digest now = do
  guard
      (valid_opaque_id server && ltb 0 attempt_id && ltb 0 fence && valid_operation_id operation_id)
      invalid_input
  guard (valid_outcome outcome class) invalid_input
  h ← lock_held st server presented attempt_id
  elim (is_leased h.attempt.state) [
    | false ↦ replay_complete st h.attempt outcome class operation_id digest
    | true ↦ do
      guard (not (has_open_activation st attempt_id fence)) activation_open
      guard (has_authority h attempt_id fence now) stale
      complete_held draw st h attempt_id outcome class operation_id digest now
  ]
