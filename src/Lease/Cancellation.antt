-- ===== src/Lease/Cancellation.antt =====
-- `RequestCancellation` and `AcknowledgeCancellation` of
-- internal/store/postgres/agent_lease_repository.go. The administrator's session is an argument: the
-- answer of `lockAdministratorSession` and the owner of its principal.
use auto_deploy.Base.{
  ℕ, ◌+◌, ◌*◌, Bool, true, false, not, ◌&&◌, ◌||◌, none, some, ◌==◌, ltb, if◌then◌else◌, Bytes,
  bytes_eq, Result, ok, err,
}
use auto_deploy.Base.Table.{find_row}
use auto_deploy.Github.{valid_opaque_id}
use auto_deploy.Deployment.{Status, Snapshot}
use auto_deploy.Deployment
use auto_deploy.Queue.{second}
use auto_deploy.Queue
use auto_deploy.Lease.State.{
  Store, Job, JobState, job_queued, job_leased, retry_wait, job_succeeded, job_failed,
  job_cancelled, dead, Attempt, Error, event_cancelled, cancel_requested, append_job_event,
  authorization_denied, invalid_input, stale, integrity_conflict, job_terminal, job_activating,
  no_rows, find_job, update_job, update_attempt, ◌>>=◌, ◌>>◌, guard, or_fail,
}
use auto_deploy.Lease.Deployments.{transition_deployment, is_deployment}
use auto_deploy.Lease.Held.{Held, lock_held, has_authority, is_leased}
use auto_deploy.Lease.Renewal.{is_requested}
use auto_deploy.Lease.Closing.{database_time, write_job}
use auto_deploy.Lease.Completion.{valid_operation_id, same_digest, record_result, free_slot}

abbrev pub cancellation_grace : ℕ
cancellation_grace = 60 * second

abbrev pub cancel_job : ℕ → Job → Job
cancel_job now j = record j {
  state = job_cancelled;
  cancel_requested_at = some now;
  updated_at = now;
}

abbrev pub mark_cancel : ℕ → Job → Job
mark_cancel now j = record j { cancel_requested_at = some now; updated_at = now }

abbrev pub least : ℕ → ℕ → ℕ
least a b = if ltb b a then b else a

-- Both deadlines are capped together.
abbrev pub cap_deadlines : ℕ → Attempt → Attempt
cap_deadlines deadline a = record a {
  cancel_deadline_at = some deadline;
  lease_expires_at = least a.lease_expires_at deadline;
  authority_expires_at = least a.authority_expires_at deadline;
}

abbrev pub is_activating : Status → Bool
is_activating Deployment.activating = true
is_activating _ = false

-- A queued job, or one that waits for a retry, is cancelled at once.
unfoldable pub cancel_waiting : Store → ℕ → Job → ℕ → Result Error Store
cancel_waiting st job_id job now =
    transition_deployment (update_job job_id (cancel_job now) st) job.deployment_id
      Deployment.cancelled (database_time now)
    >>= λ st'. ok (append_job_event job_id none event_cancelled st')

-- A leased job is asked to stop.
unfoldable pub cancel_leased : Store → ℕ → Job → ℕ → Result Error Store
cancel_leased st job_id job now = do
  attempt ← or_fail (find_row (λ a. a.job_id == job_id && is_leased a.state) st.attempts) no_rows
  deployment ← or_fail (find_row (is_deployment job.deployment_id) st.deployments) no_rows
  guard (not (is_activating deployment.status)) job_activating
  ok (
      append_job_event job_id (some attempt.id) cancel_requested (
        update_attempt attempt.id (cap_deadlines (now + cancellation_grace))
          (update_job job_id (mark_cancel now) st)))

unfoldable pub cancel_by_state : JobState → Store → ℕ → Job → ℕ → Result Error Store
cancel_by_state job_cancelled st job_id job now = ok st
cancel_by_state job_succeeded st job_id job now = err job_terminal
cancel_by_state job_failed st job_id job now = err job_terminal
cancel_by_state dead st job_id job now = err job_terminal
cancel_by_state job_queued st job_id job now = cancel_waiting st job_id job now
cancel_by_state retry_wait st job_id job now = cancel_waiting st job_id job now
cancel_by_state job_leased st job_id job now =
    if is_requested job.cancel_requested_at then ok st else cancel_leased st job_id job now

unfoldable pub request_cancellation : Store → Bool → Bytes → ℕ → ℕ → Result Error Store
request_cancellation st session_locked owner_id job_id now = do
  guard (ltb 0 job_id) authorization_denied
  guard session_locked authorization_denied
  job ← or_fail (find_job job_id st) authorization_denied
  guard (bytes_eq job.owner_id owner_id) authorization_denied
  cancel_by_state job.state st job_id job now

abbrev pub is_cancelled : Queue.AttemptState → Bool
is_cancelled Queue.cancelled = true
is_cancelled _ = false

unfoldable pub replay_acknowledge : Store → Attempt → Bytes → Bytes → Result Error Store
replay_acknowledge st a operation_id digest = elim a.result_operation_id [
  | none ↦ err stale
  | some stored ↦
      if not (is_cancelled a.state)
        || not (bytes_eq stored operation_id)
        || not (same_digest a.result_digest digest)
      then err integrity_conflict
      else ok st
]

unfoldable pub acknowledged_rows : Store → Held → ℕ → Bytes → Bytes → ℕ → Store
acknowledged_rows st h attempt_id operation_id digest now =
    write_job h.attempt.job_id job_cancelled 0 now (
      free_slot h.attempt.environment_id attempt_id now (
        update_attempt attempt_id
          (record_result Queue.cancelled now h.attempt.failure_class operation_id digest) st))

unfoldable pub acknowledge_held : Store → Held → ℕ → Bytes → Bytes → ℕ → Result Error Store
acknowledge_held st h attempt_id operation_id digest now =
    transition_deployment (acknowledged_rows st h attempt_id operation_id digest now)
      h.job.deployment_id Deployment.cancelled (database_time now)
    >>= λ st'. ok (append_job_event h.attempt.job_id (some attempt_id) event_cancelled st')

unfoldable pub acknowledge_cancellation :
    Store → Bytes → Bytes → ℕ → ℕ → Bytes → Bytes → ℕ → Result Error Store
acknowledge_cancellation st server presented attempt_id fence operation_id digest now = do
  guard
      (valid_opaque_id server && ltb 0 attempt_id && ltb 0 fence && valid_operation_id operation_id)
      invalid_input
  h ← lock_held st server presented attempt_id
  elim (is_leased h.attempt.state) [
    | false ↦ replay_acknowledge st h.attempt operation_id digest
    | true ↦ do
      guard (is_requested h.job.cancel_requested_at) invalid_input
      guard (has_authority h attempt_id fence now) stale
      acknowledge_held st h attempt_id operation_id digest now
  ]
