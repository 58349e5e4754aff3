-- ===== src/Lease/Acknowledging.antt =====
-- AcknowledgeCancellation as a move of the abstract contract.
use auto_deploy.Base.{ℕ, ◌≡◌, refl, ◌∙◌, true, false, ◌⊎◌, inl, inr, some, Bytes, arith, ok}
use auto_deploy.Deployment.{Status}
use auto_deploy.Deployment
use auto_deploy.Queue.{AttemptState, full_jitter_delay}
use auto_deploy.Queue
use auto_deploy.Lease.State.{
  Store, Attempt, job_cancelled, append_job_event, update_attempt, event_cancelled,
}
use auto_deploy.Lease.Deployments.{transition_deployment}
use auto_deploy.Lease.Held.{Held, IsHeld, lock_held, lock_held-IsHeld, has_authority, is_leased}
use auto_deploy.Lease.Renewal.{is_requested}
use auto_deploy.Lease.Closing.{database_time}
use auto_deploy.Lease.Completion.{free_slot, record_result}
use auto_deploy.Lease.Cancellation.{
  acknowledge_cancellation, acknowledge_held, acknowledged_rows, replay_acknowledge,
}
use auto_deploy.Lease.Fencing.{stays}
use auto_deploy.Lease.Views.{Moves}
use auto_deploy.Lease.Keeping.{SameRows, transition_deployment-SameRows, write_job-SameRows}
use auto_deploy.Lease.Endings.{ended-Moves, append_job_event-SameRows}

pub acknowledge→held :
    (st : Store) (server presented : Bytes) (attempt_id fence : ℕ) (operation_id digest : Bytes)
    (now : ℕ) (st' : Store)
    → acknowledge_cancellation st server presented attempt_id fence operation_id digest now ≡ ok st'
    → (h : Held) × (lock_held st server presented attempt_id ≡ ok h)
      × (((is_leased h.attempt.state ≡ false)
            × (replay_acknowledge st h.attempt operation_id digest ≡ ok st'))
          ⊎ ((is_leased h.attempt.state ≡ true)
              × (is_requested h.job.cancel_requested_at ≡ true)
              × (has_authority h attempt_id fence now ≡ true)
              × (acknowledge_held st h attempt_id operation_id digest now ≡ ok st')))
unfolding acknowledge_cancellation
acknowledge→held st server presented attempt_id fence operation_id digest now st' e = ground arith

replay_acknowledge-same :
    (st : Store) (a : Attempt) (operation_id digest : Bytes) (st' : Store)
    → replay_acknowledge st a operation_id digest ≡ ok st'
    → st' ≡ st
unfolding replay_acknowledge
replay_acknowledge-same st a operation_id digest st' e = ground arith

acknowledge_held→transition :
    (st : Store) (h : Held) (attempt_id : ℕ) (operation_id digest : Bytes) (now : ℕ) (st' : Store)
    → acknowledge_held st h attempt_id operation_id digest now ≡ ok st'
    → (mid : Store) × (transition_deployment
          (acknowledged_rows st h attempt_id operation_id digest now)
          h.job.deployment_id
          Deployment.cancelled
          (database_time now)
        ≡ ok mid)
      × (st' ≡ append_job_event h.attempt.job_id (some attempt_id) event_cancelled mid)
unfolding acknowledge_held
acknowledge_held→transition st h attempt_id operation_id digest now st' e = ground arith

acknowledge_held-SameRows :
    (st : Store) (h : Held) (attempt_id : ℕ) (operation_id digest : Bytes) (now : ℕ) (st' : Store)
    → acknowledge_held st h attempt_id operation_id digest now ≡ ok st'
    → SameRows (acknowledged_rows st h attempt_id operation_id digest now) st'
acknowledge_held-SameRows st h attempt_id operation_id digest now st' e =
    let (mid, moved, last) =
      acknowledge_held→transition st h attempt_id operation_id digest now st' e in
    let (a, s) =
      transition_deployment-SameRows (acknowledged_rows st h attempt_id operation_id digest now)
        h.job.deployment_id Deployment.cancelled (database_time now) mid moved in
    let (a', s') =
      append_job_event-SameRows h.attempt.job_id (some attempt_id) event_cancelled mid in
    rw last (a' ∙ a, s' ∙ s)

pub acknowledge-Moves :
    (st : Store) (server presented : Bytes) (attempt_id fence : ℕ) (operation_id digest : Bytes)
    (now : ℕ) (st' : Store)
    → acknowledge_cancellation st server presented attempt_id fence operation_id digest now ≡ ok st'
    → Moves st st'
unfolding acknowledged_rows
acknowledge-Moves st server presented attempt_id fence operation_id digest now st' e =
    let (h, held, cases) =
      acknowledge→held st server presented attempt_id fence operation_id digest now st' e in
    go h (lock_held-IsHeld st server presented attempt_id h held) cases
  where
    go :
        (h : Held)
        → IsHeld st server presented attempt_id h
        → (((is_leased h.attempt.state ≡ false)
              × (replay_acknowledge st h.attempt operation_id digest ≡ ok st'))
            ⊎ ((is_leased h.attempt.state ≡ true)
                × (is_requested h.job.cancel_requested_at ≡ true)
                × (has_authority h attempt_id fence now ≡ true)
                × (acknowledge_held st h attempt_id operation_id digest now ≡ ok st')))
        → Moves st st'
    go h held (inl (closed, replay)) =
        rw (replay_acknowledge-same st h.attempt operation_id digest st' replay) stays
    go h held (inr (leased, asked, may, did)) =
        let (a, s) = acknowledge_held-SameRows st h attempt_id operation_id digest now st' did in
        let freed = free_slot h.attempt.environment_id attempt_id now (
          update_attempt attempt_id
            (record_result Queue.cancelled now h.attempt.failure_class operation_id digest) st) in
        let (a', s') = write_job-SameRows h.attempt.job_id job_cancelled 0 now freed in
        ended-Moves st server presented attempt_id fence Queue.cancelled h.attempt.failure_class
          operation_id digest now h st' refl held may (a ∙ a', s ∙ s')
