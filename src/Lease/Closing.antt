-- ===== src/Lease/Closing.antt =====
-- The closing of an attempt whose authority ended (`closeAttemptOrdinary`,
-- `closeExpiredOrRevokedAttempt`, `expireOne`, `ExpireBatch` of
-- internal/store/postgres/agent_lease_repository.go).
use auto_deploy.Base.{
  ℕ, ◌+◌, Bool, true, false, not, ◌&&◌, none, some, ◌==◌, ltb, leb, if◌then◌else◌, Bytes, Result,
  ok,
}
use auto_deploy.Base.Table.{update_rows}
use auto_deploy.Base.Time.{Time, utc}
use auto_deploy.Deployment.{Status}
use auto_deploy.Deployment
use auto_deploy.Queue.{AttemptState, max_attempts, full_jitter_delay}
use auto_deploy.Queue
use auto_deploy.Lease.State.{
  Store, Job, JobState, job_leased, job_cancelled, retry_wait, dead, Attempt, Slot, Error,
  event_cancelled, event_expired, retry_scheduled, event_dead, append_job_event, find_job,
  find_attempt, find_slot, update_attempt, update_slot, ◌>>=◌,
}
use auto_deploy.Lease.Deployments.{transition_deployment}
use auto_deploy.Lease.Held.{is_leased, is_current}
use auto_deploy.Lease.Renewal.{is_requested}
use auto_deploy.Lease.Activation.{divert_unresolved_activation}

-- A timestamp of the database.
abbrev pub database_time : ℕ → Time
database_time now = record { nanos = now; location = utc }

abbrev pub is_job_leased : JobState → Bool
is_job_leased job_leased = true
is_job_leased _ = false

-- `UPDATE agent_jobs SET … WHERE id=$1 AND state='leased'`.
abbrev pub update_leased_job : ℕ → (Job → Job) → Store → Store
update_leased_job i f st = record st {
  jobs = update_rows (λ r. r.id == i && is_job_leased r.state) f st.jobs;
}

abbrev pub close_job : JobState → ℕ → Job → Job
close_job state now j = record j { state = state; updated_at = now }

abbrev pub schedule_retry : ℕ → ℕ → Job → Job
schedule_retry available now j = record j {
  state = retry_wait;
  available_at = available;
  updated_at = now;
}

abbrev pub close_attempt : AttemptState → ℕ → Attempt → Attempt
close_attempt state now a = record a { state = state; closed_at = some now }

-- The fence moves on, and nothing may use the slot until it is reconciled.
abbrev pub vacate : ℕ → ℕ → Slot → Slot
vacate attempt_id now s = record s {
  fence = s.fence + 1;
  current_attempt_id = none;
  reconciliation_required = true;
  reconciliation_attempt_id = some attempt_id;
  updated_at = now;
}

unfoldable pub closed_job_state : Bool → ℕ → JobState
closed_job_state cancel_requested attempt_number =
    if cancel_requested
    then job_cancelled
    else if leb max_attempts attempt_number
    then dead
    else retry_wait

abbrev pub is_retry_wait : JobState → Bool
is_retry_wait retry_wait = true
is_retry_wait _ = false

-- The write of the job, with its retry instant where it is retried.
unfoldable pub write_job : ℕ → JobState → ℕ → ℕ → Store → Store
write_job job_id state available now st =
    if is_retry_wait state
    then update_leased_job job_id (schedule_retry available now) st
    else update_leased_job job_id (close_job state now) st

abbrev pub closing_events : ℕ → ℕ → JobState → Store → Store
closing_events job_id attempt_id job_cancelled st =
    append_job_event job_id (some attempt_id) event_cancelled st
closing_events job_id attempt_id dead st =
    append_job_event job_id (some attempt_id) event_dead
      (append_job_event job_id (some attempt_id) event_expired st)
closing_events job_id attempt_id _ st =
    append_job_event job_id (some attempt_id) retry_scheduled
      (append_job_event job_id (some attempt_id) event_expired st)

-- The deployment follows where the job ended.
abbrev pub close_deployment : JobState → Bytes → ℕ → Store → Result Error Store
close_deployment job_cancelled deployment_id now st =
    transition_deployment st deployment_id Deployment.cancelled (database_time now)
close_deployment dead deployment_id now st =
    transition_deployment st deployment_id Deployment.failed (database_time now)
close_deployment _ deployment_id now st = ok st

-- The attempt, the slot and the job.
unfoldable pub closed_rows : Store → ℕ → ℕ → Bytes → JobState → Bool → ℕ → ℕ → Store
closed_rows st job_id attempt_id environment_id state cancel_requested available now =
    write_job job_id state available now (
      update_slot environment_id (vacate attempt_id now) (
        update_attempt attempt_id
          (close_attempt (if cancel_requested then Queue.cancelled else Queue.expired) now) st))

-- `draw` is the random draw of the retry delay.
unfoldable pub close_attempt_ordinary :
    (ℕ → ℕ) → Store → ℕ → ℕ → Bytes → ℕ → Bytes → Bool → ℕ → Result Error Store
close_attempt_ordinary draw st job_id attempt_id environment_id attempt_number deployment_id
      cancel_requested now =
    let state = closed_job_state cancel_requested attempt_number in
    let available = now + full_jitter_delay draw attempt_number in
    close_deployment state deployment_id now
      (closed_rows st job_id attempt_id environment_id state cancel_requested available now)
    >>= λ st'. ok (closing_events job_id attempt_id state st')

-- Whether the attempt was diverted. `block_now` is the clock that the diversion reads.
unfoldable pub close_expired_or_revoked_attempt :
    (ℕ → ℕ) → Store → ℕ → ℕ → Bytes → ℕ → Bytes → Bool → ℕ → ℕ → Result Error (Bool × Store)
close_expired_or_revoked_attempt draw st job_id attempt_id environment_id attempt_number
      deployment_id cancel_requested now block_now =
    divert_unresolved_activation st job_id attempt_id environment_id block_now >>= λ r.
    if r.0
    then ok (true, r.1)
    else close_attempt_ordinary draw st job_id attempt_id environment_id attempt_number
        deployment_id cancel_requested now
      >>= λ st'. ok (false, st')

-- The checks of `expireOne` on the rows that it locks; a failed one skips the candidate.
abbrev pub is_expirable : ℕ → Attempt → Slot → Job → ℕ → Bool
is_expirable attempt_id a s j now =
    is_current s.current_attempt_id attempt_id
    && is_job_leased j.state
    && is_leased a.state
    && not (ltb now a.authority_expires_at)

-- The locked rows of a candidate.
unfoldable pub expire_held :
    (ℕ → ℕ) → Store → ℕ → Attempt → Slot → Job → ℕ → ℕ → Result Error (Bool × Store)
expire_held draw st attempt_id a s j now block_now =
    if not (is_expirable attempt_id a s j now)
    then ok (false, st)
    else close_expired_or_revoked_attempt draw st a.job_id attempt_id a.environment_id
        a.attempt_number j.deployment_id (is_requested j.cancel_requested_at) now block_now
      >>= λ r. ok (not r.0, r.1)

-- Whether the attempt was closed. Rows that another transaction holds are skipped like missing ones.
unfoldable pub expire_one : (ℕ → ℕ) → Store → ℕ → ℕ → ℕ → Result Error (Bool × Store)
expire_one draw st attempt_id now block_now = elim (find_attempt attempt_id st) [
  | none ↦ ok (false, st)
  | some a ↦ elim (find_slot a.environment_id st) [
    | none ↦ ok (false, st)
    | some s ↦ elim (find_job a.job_id st) [
      | none ↦ ok (false, st)
      | some j ↦ expire_held draw st attempt_id a s j now block_now
    ]
  ]
]
