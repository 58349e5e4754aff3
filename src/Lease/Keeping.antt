-- ===== src/Lease/Keeping.antt =====
-- The deployment write, Renew and the writes of a result as moves of the abstract contract.
use auto_deploy.Base.{
  ℕ, ◌≤◌, ◌≡◌, refl, true, false, ◌&&◌, inl, inr, Option, none, some, ◌==◌, Bytes, bytes_eq, arith,
  Bool-cases, ok,
}
use auto_deploy.Base.Table.{find_row-test}
use auto_deploy.Base.Time.{Time}
use auto_deploy.Deployment.{Status, Deployment}
use auto_deploy.Queue.{AttemptState, FailureClass}
use auto_deploy.Lease.State.{
  Store, Attempt, Slot, JobState, find_attempt, find_slot, update_attempt,
}
use auto_deploy.Lease.Deployments.{save, transition_deployment, transition_deployment→save}
use auto_deploy.Lease.Held.{Held, IsHeld, has_authority, is_leased, is_current}
use auto_deploy.Lease.Renewal.{RenewalResult, renew, renew_held, extended, set_renewal}
use auto_deploy.Lease.Renewals.{renew→held}
use auto_deploy.Lease.Closing.{write_job}
use auto_deploy.Lease.Completion.{free_slot, free, record_result}
use auto_deploy.Lease.Fencing.{stays, leaves, set_occupancy, set_authority}
use auto_deploy.Lease.Views.{
  Moves, occupancy, authority, authority-kept, authority-closed, occupancy-vacated,
}

-- The tables of the view are those of the other store.
abbrev pub SameRows : Store → Store → Type 0
SameRows st st' = (st'.attempts ≡ st.attempts) × (st'.slots ≡ st.slots)

pub Moves-SameRows : (st st' : Store) → SameRows st st' → Moves st st'
Moves-SameRows st st' (a, s) = rw (a, s) stays

save-SameRows :
    (st : Store) (value : Deployment) (st' : Store) → save st value ≡ ok st' → SameRows st st'
unfolding save
save-SameRows st value st' e = ground arith

pub transition_deployment-SameRows :
    (st : Store) (id : Bytes) (target : Status) (at : Time) (st' : Store)
    → transition_deployment st id target at ≡ ok st'
    → SameRows st st'
transition_deployment-SameRows st id target at st' e =
    let (s, current, next, a, b, c, d) = transition_deployment→save st id target at st' e in
    elim (Bool-cases (next.revision == current.revision)) [
      | inl same ↦ ground arith
      | inr other ↦ save-SameRows st next st' (ground arith)
    ]

pub write_job-SameRows :
    (job_id : ℕ) (state : JobState) (available now : ℕ) (st : Store)
    → SameRows st (write_job job_id state available now st)
unfolding write_job
write_job-SameRows job_id state available now st = ground arith

-- Renewal.

renew_held-authority :
    (st : Store) (h : Held) (attempt_id sequence now : ℕ) (r : RenewalResult) (st' : Store)
    → renew_held st h attempt_id sequence now ≡ ok (r, st')
    → (authority st'.attempts ≡ authority st.attempts) × (st'.slots ≡ st.slots)
unfolding renew_held
renew_held-authority st h attempt_id sequence now r st' e = ground (
  arith,
  authority-kept (λ (x : Attempt). x.id == attempt_id)
      (set_renewal sequence (extended h.attempt.cancel_deadline_at now)) st.attempts (λ x. refl),
)

pub renew-Moves :
    (st : Store) (server presented : Bytes) (attempt_id fence sequence now : ℕ) (r : RenewalResult)
    (st' : Store)
    → renew st server presented attempt_id fence sequence now ≡ ok (r, st')
    → Moves st st'
renew-Moves st server presented attempt_id fence sequence now r st' e =
    let (h, held, may, did) =
      renew→held st server presented attempt_id fence sequence now (r, st') e in
    let (a, s) = renew_held-authority st h attempt_id sequence now r st' did in rw (a, s) stays

-- The rows of a held attempt as the specification sees them.
pub held-occupancy :
    (st : Store) (server presented : Bytes) (attempt_id fence now : ℕ) (h : Held)
    → IsHeld st server presented attempt_id h
    → has_authority h attempt_id fence now ≡ true
    → (occupancy st.slots h.attempt.environment_id ≡ some (h.slot.fence, some attempt_id))
      × (h.attempt.fence ≡ h.slot.fence)
unfolding has_authority occupancy
held-occupancy st server presented attempt_id fence now h v may = ground (arith, v.slot_found)

-- The two statements that close an attempt and leave its slot.
abbrev pub Closes : Store → ℕ → Attempt → ℕ → Store → Type 0
Closes st attempt_id a m st' =
    (authority st'.attempts
      ≡ set_authority attempt_id a.environment_id a.fence false (authority st.attempts))
    × (occupancy st'.slots ≡ set_occupancy a.environment_id m none (occupancy st.slots))

pub Closes-Moves :
    (st : Store) (attempt_id : ℕ) (a : Attempt) (m : ℕ) (st' : Store)
    → Closes st attempt_id a m st'
    → occupancy st.slots a.environment_id ≡ some (a.fence, some attempt_id)
    → a.fence ≤ m
    → Moves st st'
Closes-Moves st attempt_id a m st' (c, d) occ le =
    rw (c, d) (leaves a.environment_id a.fence m attempt_id occ le)

-- `record_result` and `free_slot`, of Complete and AcknowledgeCancellation.
pub result-Closes :
    (st : Store) (attempt_id : ℕ) (a : Attempt) (s : Slot) (state : AttemptState)
    (class : Option FailureClass) (operation_id digest : Bytes) (now : ℕ)
    → is_leased state ≡ false
    → find_attempt attempt_id st ≡ some a
    → find_slot a.environment_id st ≡ some s
    → is_current s.current_attempt_id attempt_id ≡ true
    → Closes st attempt_id a s.fence (
        free_slot a.environment_id attempt_id now
          (update_attempt attempt_id (record_result state now class operation_id digest) st))
unfolding free_slot
result-Closes st attempt_id a s state class operation_id digest now closed found slot current = (
  authority-closed attempt_id (record_result state now class operation_id digest) st.attempts a
      (λ x. ground arith) found,
  occupancy-vacated a.environment_id
      (λ x.
        bytes_eq x.environment_id a.environment_id && is_current x.current_attempt_id attempt_id)
      (free now) st.slots s s.fence (λ x. refl) (λ x t. ground arith) slot
      (ground (
        arith,
        find_row-test (λ (x : Slot). bytes_eq x.environment_id a.environment_id) st.slots s slot,
      ))
      refl,
)
