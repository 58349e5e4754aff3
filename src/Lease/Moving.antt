-- ===== src/Lease/Moving.antt =====
-- The sweep, the request of a cancellation, the reconciliation and the report as moves of the
-- abstract contract, and what their success shows.
use auto_deploy.Base.{
  ℕ, ◌+◌, ◌≡◌, refl, ◌∙◌, Bool, true, false, not, ◌&&◌, ◌⊎◌, inl, inr, none, some, ◌==◌, Bytes,
  arith, Bool-cases, Option-cases, ok,
}
use auto_deploy.Base.Table.{find_row}
use auto_deploy.Deployment.{Status, Snapshot}
use auto_deploy.Deployment
use auto_deploy.Lease.State.{
  Store, Attempt, Slot, Job, JobState, job_queued, job_leased, retry_wait, job_cancelled,
  find_attempt, find_slot, find_job, append_job_event, update_attempt, update_job, event_cancelled,
}
use auto_deploy.Lease.Deployments.{transition_deployment, is_deployment}
use auto_deploy.Lease.Held.{is_leased}
use auto_deploy.Lease.Renewal.{is_requested}
use auto_deploy.Lease.Closing.{
  database_time, is_expirable, expire_held, expire_one, close_expired_or_revoked_attempt,
}
use auto_deploy.Lease.Cancellation.{
  request_cancellation, cancel_by_state, cancel_waiting, cancel_leased, cap_deadlines, cancel_job,
  cancellation_grace,
}
use auto_deploy.Lease.Reconciliation.{reconcile, mark_reconciled, cleared}
use auto_deploy.Lease.Progress.{report_progress, advance_phase}
use auto_deploy.Lease.Fencing.{stays}
use auto_deploy.Lease.Views.{Moves, Fenced, authority, occupancy, authority-kept}
use auto_deploy.Lease.Keeping.{SameRows, Moves-SameRows, transition_deployment-SameRows}
use auto_deploy.Lease.Endings.{append_job_event-SameRows}
use auto_deploy.Lease.Expiries.{close_expired-Moves, cleared-Moves}

expire_held→ :
    (draw : ℕ → ℕ) (st : Store) (attempt_id : ℕ) (a : Attempt) (s : Slot) (j : Job)
    (now block_now : ℕ) (closed : Bool) (st' : Store)
    → expire_held draw st attempt_id a s j now block_now ≡ ok (closed, st')
    → is_expirable attempt_id a s j now ≡ true
    → close_expired_or_revoked_attempt draw st a.job_id attempt_id a.environment_id a.attempt_number
        j.deployment_id
        (is_requested j.cancel_requested_at)
        now
        block_now
      ≡ ok (not closed, st')
unfolding expire_held
expire_held→ draw st attempt_id a s j now block_now closed st' h e = ground arith

expire_held_skip :
    (draw : ℕ → ℕ) (st : Store) (attempt_id : ℕ) (a : Attempt) (s : Slot) (j : Job)
    (now block_now : ℕ) (closed : Bool) (st' : Store)
    → expire_held draw st attempt_id a s j now block_now ≡ ok (closed, st')
    → is_expirable attempt_id a s j now ≡ false
    → st' ≡ st
unfolding expire_held
expire_held_skip draw st attempt_id a s j now block_now closed st' h e = ground arith

-- An occupant that is leased has the fence of its slot, by the discipline.
occupant-fence :
    (st : Store) (attempt_id : ℕ) (a : Attempt) (s : Slot)
    → Fenced st
    → find_attempt attempt_id st ≡ some a
    → find_slot a.environment_id st ≡ some s
    → is_leased a.state ≡ true
    → (occupancy st.slots a.environment_id ≡ some (a.fence, some attempt_id)) × (a.fence ≡ s.fence)
unfolding occupancy authority
occupant-fence st attempt_id a s v found slot leased =
    ground (arith, v.exclusive attempt_id a.environment_id a.fence)

expire_held-Moves :
    (draw : ℕ → ℕ) (st : Store) (attempt_id : ℕ) (a : Attempt) (s : Slot) (j : Job)
    (now block_now : ℕ) (closed : Bool) (st' : Store)
    → find_attempt attempt_id st ≡ some a
    → find_slot a.environment_id st ≡ some s
    → expire_held draw st attempt_id a s j now block_now ≡ ok (closed, st')
    → Fenced st
    → Moves st st'
expire_held-Moves draw st attempt_id a s j now block_now closed st' found slot h v =
    elim (Bool-cases (is_expirable attempt_id a s j now)) [
      | inl due ↦
          let (occ, same) = occupant-fence st attempt_id a s v found slot (ground arith) in
          close_expired-Moves draw st a.job_id attempt_id a.attempt_number a s j.deployment_id
            (is_requested j.cancel_requested_at) now block_now (not closed) st'
            (expire_held→ draw st attempt_id a s j now block_now closed st' h due) found slot occ
            same
      | inr skip ↦
          rw (expire_held_skip draw st attempt_id a s j now block_now closed st' h skip) stays
    ]

expire_one→held :
    (draw : ℕ → ℕ) (st : Store) (attempt_id now block_now : ℕ) (closed : Bool) (st' : Store)
    → expire_one draw st attempt_id now block_now ≡ ok (closed, st')
    → (a : Attempt) (s : Slot) (j : Job) → find_attempt attempt_id st ≡ some a
    → find_slot a.environment_id st ≡ some s
    → find_job a.job_id st ≡ some j
    → expire_held draw st attempt_id a s j now block_now ≡ ok (closed, st')
unfolding expire_one
expire_one→held draw st attempt_id now block_now closed st' h a s j p q r = ground arith

expire_one_skip :
    (draw : ℕ → ℕ) (st : Store) (attempt_id now block_now : ℕ) (closed : Bool) (st' : Store)
    → expire_one draw st attempt_id now block_now ≡ ok (closed, st')
    → (find_attempt attempt_id st ≡ none)
      ⊎ ((a : Attempt) × (find_attempt attempt_id st ≡ some a)
          × ((find_slot a.environment_id st ≡ none) ⊎ (find_job a.job_id st ≡ none)))
    → st' ≡ st
unfolding expire_one
expire_one_skip draw st attempt_id now block_now closed st' h missing = ground arith

pub expire_one-Moves :
    (draw : ℕ → ℕ) (st : Store) (attempt_id now block_now : ℕ) (closed : Bool) (st' : Store)
    → expire_one draw st attempt_id now block_now ≡ ok (closed, st')
    → Fenced st
    → Moves st st'
expire_one-Moves draw st attempt_id now block_now closed st' h v =
    elim (Option-cases (find_attempt attempt_id st)) [
      | inl missing ↦
          rw (expire_one_skip draw st attempt_id now block_now closed st' h (inl missing)) stays
      | inr (a, p) ↦ elim (Option-cases (find_slot a.environment_id st)) [
        | inl missing ↦
            rw
              (expire_one_skip draw st attempt_id now block_now closed st' h
                (inr (a, p, inl missing)))
              stays
        | inr (s, q) ↦ elim (Option-cases (find_job a.job_id st)) [
          | inl missing ↦
              rw
                (expire_one_skip draw st attempt_id now block_now closed st' h
                  (inr (a, p, inr missing)))
                stays
          | inr (j, r) ↦
              expire_held-Moves draw st attempt_id a s j now block_now closed st' p q
                (expire_one→held draw st attempt_id now block_now closed st' h a s j p q r) v
        ]
      ]
    ]

cap-Moves :
    (st : Store) (i deadline : ℕ) (st' : Store)
    → SameRows (update_attempt i (cap_deadlines deadline) st) st'
    → Moves st st'
cap-Moves st i deadline st' (p, q) =
    rw (p, q, authority-kept (λ x. x.id == i) (cap_deadlines deadline) st.attempts (λ x. refl))
      stays

cancel_leased→ :
    (st : Store) (job_id : ℕ) (job : Job) (now : ℕ) (st' : Store)
    → cancel_leased st job_id job now ≡ ok st'
    → (a : Attempt) × (find_row (λ x. x.job_id == job_id && is_leased x.state) st.attempts ≡ some a)
      × SameRows (update_attempt a.id (cap_deadlines (now + cancellation_grace)) st) st'
unfolding cancel_leased append_job_event
cancel_leased→ st job_id job now st' h = ground arith

cancel_waiting→ :
    (st : Store) (job_id : ℕ) (job : Job) (now : ℕ) (st' : Store)
    → cancel_waiting st job_id job now ≡ ok st'
    → (mid : Store) × (transition_deployment
          (update_job job_id (cancel_job now) st)
          job.deployment_id
          Deployment.cancelled
          (database_time now)
        ≡ ok mid)
      × (st' ≡ append_job_event job_id none event_cancelled mid)
unfolding cancel_waiting
cancel_waiting→ st job_id job now st' h = ground arith

cancel_leased-Moves :
    (st : Store) (job_id : ℕ) (job : Job) (now : ℕ) (st' : Store)
    → cancel_leased st job_id job now ≡ ok st'
    → Moves st st'
cancel_leased-Moves st job_id job now st' h =
    let (a, found, same) = cancel_leased→ st job_id job now st' h in
    cap-Moves st a.id (now + cancellation_grace) st' same

cancel_waiting-SameRows :
    (st : Store) (job_id : ℕ) (job : Job) (now : ℕ) (st' : Store)
    → cancel_waiting st job_id job now ≡ ok st'
    → SameRows st st'
cancel_waiting-SameRows st job_id job now st' h =
    let (mid, moved, last) = cancel_waiting→ st job_id job now st' h in
    let (p, q) =
      transition_deployment-SameRows (update_job job_id (cancel_job now) st) job.deployment_id
        Deployment.cancelled (database_time now) mid moved in
    let (p', q') = append_job_event-SameRows job_id none event_cancelled mid in
    rw last (p' ∙ p, q' ∙ q)

pub cancel_by_state-Moves :
    (state : JobState) (st : Store) (job_id : ℕ) (job : Job) (now : ℕ) (st' : Store)
    → cancel_by_state state st job_id job now ≡ ok st'
    → Moves st st'
unfolding cancel_by_state
cancel_by_state-Moves job_cancelled st job_id job now st' h = Moves-SameRows st st' (ground arith)
cancel_by_state-Moves job_queued st job_id job now st' h =
    Moves-SameRows st st' (cancel_waiting-SameRows st job_id job now st' h)
cancel_by_state-Moves retry_wait st job_id job now st' h =
    Moves-SameRows st st' (cancel_waiting-SameRows st job_id job now st' h)
cancel_by_state-Moves job_leased st job_id job now st' h =
    elim (Bool-cases (is_requested job.cancel_requested_at)) [
      | inl before ↦ Moves-SameRows st st' (ground arith)
      | inr first ↦ cancel_leased-Moves st job_id job now st' (ground arith)
    ]
cancel_by_state-Moves _ st job_id job now st' h = absurd (cc h)

pub request→state :
    (st : Store) (session_locked : Bool) (owner_id : Bytes) (job_id now : ℕ) (st' : Store)
    → request_cancellation st session_locked owner_id job_id now ≡ ok st'
    → (job : Job) × (find_job job_id st ≡ some job)
      × (cancel_by_state job.state st job_id job now ≡ ok st')
unfolding request_cancellation
request→state st session_locked owner_id job_id now st' h = ground arith

pub reconcile→ :
    (st : Store) (server presented e : Bytes) (attempt_id fence now : ℕ) (st' : Store)
    → reconcile st server presented e attempt_id fence now ≡ ok st'
    → (a : Attempt) × (find_attempt attempt_id st ≡ some a)
      × ((st' ≡ st) ⊎ (st' ≡ cleared st e a.job_id (some attempt_id) now))
unfolding reconcile
reconcile→ st server presented e attempt_id fence now st' h = ground arith

pub mark→ :
    (st : Store) (session_locked : Bool) (owner_id e reason : Bytes) (now : ℕ) (st' : Store)
    → mark_reconciled st session_locked owner_id e reason now ≡ ok st'
    → (s : Slot) × (i : ℕ) × (a : Attempt) × (find_slot e st ≡ some s)
      × (s.reconciliation_attempt_id ≡ some i)
      × (find_attempt i st ≡ some a)
      × (st' ≡ cleared st e a.job_id s.reconciliation_attempt_id now)
unfolding mark_reconciled
mark→ st session_locked owner_id e reason now st' h = ground arith

pub report→ :
    (st : Store) (server presented : Bytes) (attempt_id fence : ℕ) (phase : Status) (now : ℕ)
    (st' : Store)
    → report_progress st server presented attempt_id fence phase now ≡ ok st'
    → (located : Attempt) × (j : Job) × (d : Snapshot) × (find_attempt attempt_id st ≡ some located)
      × (find_job located.job_id st ≡ some j)
      × (find_row (is_deployment j.deployment_id) st.deployments ≡ some d)
      × (advance_phase st j.deployment_id d.status phase now ≡ ok st')
unfolding report_progress
report→ st server presented attempt_id fence phase now st' h = ground arith

pub advance_phase-SameRows :
    (st : Store) (id : Bytes) (current phase : Status) (now : ℕ) (st' : Store)
    → advance_phase st id current phase now ≡ ok st'
    → SameRows st st'
unfolding advance_phase
advance_phase-SameRows st id current phase now st' h =
    ground (arith, transition_deployment-SameRows st id phase (database_time now) st')

pub reconciled-Moves :
    (st : Store) (e : Bytes) (attempt_id now : ℕ) (st' : Store)
    → ((a : Attempt) × (find_attempt attempt_id st ≡ some a)
        × ((st' ≡ st) ⊎ (st' ≡ cleared st e a.job_id (some attempt_id) now)))
    → Moves st st'
reconciled-Moves st e attempt_id now st' (a, found, inl same) = rw same stays
reconciled-Moves st e attempt_id now st' (a, found, inr same) =
    rw same (cleared-Moves st e a.job_id (some attempt_id) now)
