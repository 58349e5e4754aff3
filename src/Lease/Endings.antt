-- ===== src/Lease/Endings.antt =====
-- Complete as a move of the abstract contract.
use auto_deploy.Base.{
  ℕ, ◌+◌, ◌≡◌, refl, ◌∙◌, true, false, ◌⊎◌, inl, inr, Option, some, Bytes, arith, ok,
}
use auto_deploy.Deployment
use auto_deploy.Queue.{
  AttemptState, FailureClass, CompletionOutcome, completion_failed, full_jitter_delay,
}
use auto_deploy.Lease.State.{
  Store, EventType, Attempt, JobState, job_failed, dead, append_job_event, update_attempt,
}
use auto_deploy.Lease.Held.{Held, IsHeld, lock_held, lock_held-IsHeld, has_authority, is_leased}
use auto_deploy.Lease.Closing.{database_time}
use auto_deploy.Lease.Completion.{
  complete, complete_held, completed_rows, completed_job_state, replay_complete, fail_deployment,
  free_slot, record_result, closed_state, class_of, has_open_activation, completion_event,
}
use auto_deploy.Lease.Fencing.{stays}
use auto_deploy.Lease.Views.{Moves}
use auto_deploy.Lease.Keeping.{
  SameRows, transition_deployment-SameRows, write_job-SameRows, held-occupancy, Closes-Moves,
  result-Closes,
}

-- A completion that succeeds found the attempt closed, and replayed its result, or open.
pub complete→held :
    (draw : ℕ → ℕ) (st : Store) (server presented : Bytes) (attempt_id fence : ℕ)
    (outcome : CompletionOutcome) (class : FailureClass) (operation_id digest : Bytes) (now : ℕ)
    (st' : Store)
    → complete draw st server presented attempt_id fence outcome class operation_id digest now
      ≡ ok st'
    → (h : Held) × (lock_held st server presented attempt_id ≡ ok h)
      × (((is_leased h.attempt.state ≡ false)
            × (replay_complete st h.attempt outcome class operation_id digest ≡ ok st'))
          ⊎ ((is_leased h.attempt.state ≡ true)
              × (has_open_activation st attempt_id fence ≡ false)
              × (has_authority h attempt_id fence now ≡ true)
              × (complete_held draw st h attempt_id outcome class operation_id digest now
                  ≡ ok st')))
unfolding complete
complete→held draw st server presented attempt_id fence outcome class operation_id digest now st'
      e =
    ground arith

pub replay_complete-same :
    (st : Store) (a : Attempt) (outcome : CompletionOutcome) (class : FailureClass)
    (operation_id digest : Bytes) (st' : Store)
    → replay_complete st a outcome class operation_id digest ≡ ok st'
    → st' ≡ st
unfolding replay_complete
replay_complete-same st a outcome class operation_id digest st' e = ground arith

fail_deployment-SameRows :
    (state : JobState) (id : Bytes) (now : ℕ) (st st' : Store)
    → fail_deployment state id now st ≡ ok st'
    → SameRows st st'
fail_deployment-SameRows job_failed id now st st' e =
    transition_deployment-SameRows st id Deployment.failed (database_time now) st' e
fail_deployment-SameRows dead id now st st' e =
    transition_deployment-SameRows st id Deployment.failed (database_time now) st' e
fail_deployment-SameRows _ id now st st' e = ground arith

-- The store that the deployment's write leaves, and the event after it.
pub complete_held→failed :
    (draw : ℕ → ℕ) (st : Store) (h : Held) (attempt_id : ℕ) (outcome : CompletionOutcome)
    (class : FailureClass) (operation_id digest : Bytes) (now : ℕ) (st' : Store)
    → complete_held draw st h attempt_id outcome class operation_id digest now ≡ ok st'
    → let state = completed_job_state outcome class h.attempt.attempt_number in
      (mid : Store) × (fail_deployment state h.job.deployment_id now (
          completed_rows st h attempt_id outcome class state operation_id digest
            (now + full_jitter_delay draw h.attempt.attempt_number)
            now)
        ≡ ok mid)
      × (st' ≡ append_job_event h.attempt.job_id (some attempt_id) (completion_event state) mid)
unfolding complete_held
complete_held→failed draw st h attempt_id outcome class operation_id digest now st' e = ground arith

pub closed_state-open : (outcome : CompletionOutcome) → is_leased (closed_state outcome) ≡ false
closed_state-open completion_failed = refl
closed_state-open _ = refl

pub append_job_event-SameRows :
    (job : ℕ) (attempt : Option ℕ) (type : EventType) (st : Store)
    → SameRows st (append_job_event job attempt type st)
unfolding append_job_event
append_job_event-SameRows job attempt type st = (refl, refl)

-- The writes of a result, then of the job, the deployment and the event, which the view does not see.
pub ended-Moves :
    (st : Store) (server presented : Bytes) (attempt_id fence : ℕ) (state : AttemptState)
    (class : Option FailureClass) (operation_id digest : Bytes) (now : ℕ) (h : Held) (st' : Store)
    → is_leased state ≡ false
    → IsHeld st server presented attempt_id h
    → has_authority h attempt_id fence now ≡ true
    → SameRows
        (free_slot h.attempt.environment_id attempt_id now
          (update_attempt attempt_id (record_result state now class operation_id digest) st))
        st'
    → Moves st st'
unfolding has_authority
ended-Moves st server presented attempt_id fence state class operation_id digest now h st' closed
      held may (a, s) =
    let (occ, same) = held-occupancy st server presented attempt_id fence now h held may in
    let (c, d) =
      result-Closes st attempt_id h.attempt h.slot state class operation_id digest now closed
        held.attempt_found held.slot_found (ground arith) in
    Closes-Moves st attempt_id h.attempt h.slot.fence st' (ground arith, ground arith)
      (ground arith) (omega arith)

pub complete-Moves :
    (draw : ℕ → ℕ) (st : Store) (server presented : Bytes) (attempt_id fence : ℕ)
    (outcome : CompletionOutcome) (class : FailureClass) (operation_id digest : Bytes) (now : ℕ)
    (st' : Store)
    → complete draw st server presented attempt_id fence outcome class operation_id digest now
      ≡ ok st'
    → Moves st st'
unfolding completed_rows
complete-Moves draw st server presented attempt_id fence outcome class operation_id digest now st'
      e =
    let (h, held, cases) =
      complete→held draw st server presented attempt_id fence outcome class operation_id digest now
        st' e in
    go h (lock_held-IsHeld st server presented attempt_id h held) cases
  where
    go :
        (h : Held)
        → IsHeld st server presented attempt_id h
        → (((is_leased h.attempt.state ≡ false)
              × (replay_complete st h.attempt outcome class operation_id digest ≡ ok st'))
            ⊎ ((is_leased h.attempt.state ≡ true)
                × (has_open_activation st attempt_id fence ≡ false)
                × (has_authority h attempt_id fence now ≡ true)
                × (complete_held draw st h attempt_id outcome class operation_id digest now
                    ≡ ok st')))
        → Moves st st'
    go h held (inl (closed, replay)) =
        rw (replay_complete-same st h.attempt outcome class operation_id digest st' replay) stays
    go h held (inr (leased, resolved, may, did)) =
        let (mid, fails, last) =
          complete_held→failed draw st h attempt_id outcome class operation_id digest now st' did in
        let state = completed_job_state outcome class h.attempt.attempt_number in
        let available = now + full_jitter_delay draw h.attempt.attempt_number in
        let (a, s) =
          fail_deployment-SameRows state h.job.deployment_id now
            (completed_rows st h attempt_id outcome class state operation_id digest available now)
            mid fails in
        let (a', s') = write_job-SameRows h.attempt.job_id state available now (
          free_slot h.attempt.environment_id attempt_id now (
            update_attempt attempt_id
              (record_result (closed_state outcome) now (class_of outcome class) operation_id
                digest)
              st)) in
        let (a'', s'') =
          append_job_event-SameRows h.attempt.job_id (some attempt_id) (completion_event state)
            mid in
        ended-Moves st server presented attempt_id fence (closed_state outcome)
          (class_of outcome class) operation_id digest now h st' (closed_state-open outcome) held
          may (rw last (a'' ∙ a ∙ a', s'' ∙ s ∙ s'))
