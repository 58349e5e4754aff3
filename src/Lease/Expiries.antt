-- ===== src/Lease/Expiries.antt =====
-- The block of an unresolved activation, the clearing of a slot and the close of an attempt whose
-- authority ended, as moves of the abstract contract.
use auto_deploy.Base.{
  ap, ℕ, ◌+◌, ◌≡◌, refl, ◌∙◌, Bool, true, false, ◌⊎◌, inl, inr, Option, none, some, if◌then◌else◌,
  Bytes, bytes_eq, arith, Bool-cases, Option-cases, ok,
}
use auto_deploy.Base.Table.{find_row, find_row-test}
use auto_deploy.Deployment.{Status}
use auto_deploy.Deployment
use auto_deploy.Queue.{AttemptState, full_jitter_delay}
use auto_deploy.Queue
use auto_deploy.Lease.State.{
  Store, Attempt, Slot, JobState, job_cancelled, dead, Operation, find_attempt, find_slot,
  append_job_event, update_attempt, update_slot,
}
use auto_deploy.Lease.Activation.{
  block_activation_for_reconciliation, blocked_store, flag_route_head, flag_slot,
  divert_unresolved_activation, holds_unresolved, activation_blocked_by_authority_end_summary,
  is_switch_authorized,
}
use auto_deploy.Lease.Closing.{
  database_time, closed_job_state, closed_rows, close_attempt, vacate, close_deployment,
  closing_events, close_attempt_ordinary, close_expired_or_revoked_attempt,
}
use auto_deploy.Lease.Reconciliation.{cleared, clear_slot}
use auto_deploy.Lease.Fencing.{stays}
use auto_deploy.Lease.Views.{
  authority, Moves, occupancy, authority-closed, occupancy-vacated, occupancy-kept,
}
use auto_deploy.Lease.Keeping.{
  SameRows, transition_deployment-SameRows, write_job-SameRows, Closes, Closes-Moves,
}

-- The block of an activation flags the slot, and leaves its occupant and its fence.
pub blocked-Moves :
    (st : Store) (job_id attempt_id operation_id : ℕ) (e summary : Bytes) (now : ℕ)
    → Moves st (blocked_store st job_id attempt_id operation_id e summary now)
unfolding blocked_store append_job_event flag_route_head
blocked-Moves st job_id attempt_id operation_id e summary now =
    rw
      (occupancy-kept (λ s. bytes_eq s.environment_id e) (flag_slot attempt_id now) st.slots
        (λ s. refl))
      stays

pub cleared-Moves :
    (st : Store) (e : Bytes) (job_id : ℕ) (attempt_id : Option ℕ) (now : ℕ)
    → Moves st (cleared st e job_id attempt_id now)
unfolding cleared append_job_event
cleared-Moves st e job_id attempt_id now =
    rw (occupancy-kept (λ s. bytes_eq s.environment_id e) (clear_slot now) st.slots (λ s. refl))
      stays

-- The close of an attempt whose authority ended.
close_deployment-SameRows :
    (state : JobState) (id : Bytes) (now : ℕ) (st st' : Store)
    → close_deployment state id now st ≡ ok st'
    → SameRows st st'
close_deployment-SameRows job_cancelled id now st st' e =
    transition_deployment-SameRows st id Deployment.cancelled (database_time now) st' e
close_deployment-SameRows dead id now st st' e =
    transition_deployment-SameRows st id Deployment.failed (database_time now) st' e
close_deployment-SameRows _ id now st st' e = ground arith

closing_events-SameRows :
    (job_id attempt_id : ℕ) (state : JobState) (st : Store)
    → SameRows st (closing_events job_id attempt_id state st)
unfolding append_job_event
closing_events-SameRows job_id attempt_id job_cancelled st = (refl, refl)
closing_events-SameRows job_id attempt_id dead st = (refl, refl)
closing_events-SameRows job_id attempt_id _ st = (refl, refl)

-- `vacate` moves the fence on, and `close_attempt` ends the lease.
vacated-Closes :
    (st : Store) (attempt_id : ℕ) (a : Attempt) (s : Slot) (asked : Bool) (now : ℕ)
    → find_attempt attempt_id st ≡ some a
    → find_slot a.environment_id st ≡ some s
    → Closes st attempt_id a (s.fence + 1) (
        update_slot a.environment_id (vacate attempt_id now) (
          update_attempt attempt_id
            (close_attempt (if asked then Queue.cancelled else Queue.expired) now)
            st))
vacated-Closes st attempt_id a s asked now found slot = (
  authority-closed attempt_id (close_attempt (if asked then Queue.cancelled else Queue.expired) now)
      st.attempts a (λ x. ground arith) found,
  occupancy-vacated a.environment_id (λ x. bytes_eq x.environment_id a.environment_id)
      (vacate attempt_id now) st.slots s (s.fence + 1) (λ x. refl) (λ x t. ground arith) slot
      (find_row-test (λ (x : Slot). bytes_eq x.environment_id a.environment_id) st.slots s slot)
      refl,
)

close_ordinary-SameRows :
    (draw : ℕ → ℕ) (st : Store) (job_id attempt_id : ℕ) (e : Bytes) (number : ℕ)
    (deployment_id : Bytes) (asked : Bool) (now : ℕ) (st' : Store)
    → close_attempt_ordinary draw st job_id attempt_id e number deployment_id asked now ≡ ok st'
    → let state = closed_job_state asked number in
      (mid : Store) × (close_deployment state deployment_id now
          (closed_rows st job_id attempt_id e state asked (now + full_jitter_delay draw number) now)
        ≡ ok mid)
      × (st' ≡ closing_events job_id attempt_id state mid)
unfolding close_attempt_ordinary
close_ordinary-SameRows draw st job_id attempt_id e number deployment_id asked now st' h =
    ground arith

close_ordinary-Moves :
    (draw : ℕ → ℕ) (st : Store) (job_id attempt_id number : ℕ) (a : Attempt) (s : Slot)
    (deployment_id : Bytes) (asked : Bool) (now : ℕ) (st' : Store)
    → close_attempt_ordinary draw st job_id attempt_id a.environment_id number deployment_id asked
        now
      ≡ ok st'
    → find_attempt attempt_id st ≡ some a
    → find_slot a.environment_id st ≡ some s
    → occupancy st.slots a.environment_id ≡ some (a.fence, some attempt_id)
    → a.fence ≡ s.fence
    → Moves st st'
unfolding closed_rows
close_ordinary-Moves draw st job_id attempt_id number a s deployment_id asked now st' h found slot
      occ same =
    let state = closed_job_state asked number in
    let available = now + full_jitter_delay draw number in
    let (mid, closes, last) =
      close_ordinary-SameRows draw st job_id attempt_id a.environment_id number deployment_id asked
        now st' h in
    let vacated = update_slot a.environment_id (vacate attempt_id now) (
      update_attempt attempt_id
        (close_attempt (if asked then Queue.cancelled else Queue.expired) now) st) in
    let (p, q) =
      close_deployment-SameRows state deployment_id now
        (closed_rows st job_id attempt_id a.environment_id state asked available now) mid closes in
    let (p', q') = write_job-SameRows job_id state available now vacated in
    let (p'', q'') = closing_events-SameRows job_id attempt_id state mid in
    let (c, d) = vacated-Closes st attempt_id a s asked now found slot in
    Closes-Moves st attempt_id a (s.fence + 1) st'
      (
        ap authority (ap (λ (x : Store). x.attempts) last ∙ p'' ∙ p ∙ p') ∙ c,
        ap occupancy (ap (λ (x : Store). x.slots) last ∙ q'' ∙ q ∙ q') ∙ d,
      )
      occ (omega arith)

clear_divert :
    (st : Store) (job_id attempt_id : ℕ) (e : Bytes) (now : ℕ) (diverted : Bool) (st' : Store)
    → divert_unresolved_activation st job_id attempt_id e now ≡ ok (diverted, st')
    → find_row (holds_unresolved attempt_id e) st.operations ≡ none
    → st' ≡ st
unfolding divert_unresolved_activation
clear_divert st job_id attempt_id e now diverted st' h clear = ground arith

past_divert :
    (st : Store) (job_id attempt_id : ℕ) (e : Bytes) (now : ℕ) (diverted : Bool) (st' : Store)
    (o : Operation)
    → divert_unresolved_activation st job_id attempt_id e now ≡ ok (diverted, st')
    → find_row (holds_unresolved attempt_id e) st.operations ≡ some o
    → is_switch_authorized o.state ≡ false
    → st' ≡ st
unfolding divert_unresolved_activation
past_divert st job_id attempt_id e now diverted st' o h held past = ground arith

block_divert :
    (st : Store) (job_id attempt_id : ℕ) (e : Bytes) (now : ℕ) (diverted : Bool) (st' : Store)
    (o : Operation)
    → divert_unresolved_activation st job_id attempt_id e now ≡ ok (diverted, st')
    → find_row (holds_unresolved attempt_id e) st.operations ≡ some o
    → is_switch_authorized o.state ≡ true
    → st'
      ≡ blocked_store st job_id attempt_id o.id e activation_blocked_by_authority_end_summary now
unfolding divert_unresolved_activation block_activation_for_reconciliation
block_divert st job_id attempt_id e now diverted st' o h held switching = ground arith

divert→cases :
    (st : Store) (job_id attempt_id : ℕ) (e : Bytes) (now : ℕ) (diverted : Bool) (st' : Store)
    → divert_unresolved_activation st job_id attempt_id e now ≡ ok (diverted, st')
    → (st' ≡ st)
      ⊎ ((o : Operation) × (st'
            ≡ blocked_store st job_id attempt_id o.id e activation_blocked_by_authority_end_summary
                now))
divert→cases st job_id attempt_id e now diverted st' h =
    elim (Option-cases (find_row (holds_unresolved attempt_id e) st.operations)) [
      | inl clear ↦ inl (clear_divert st job_id attempt_id e now diverted st' h clear)
      | inr (o, held) ↦ elim (Bool-cases (is_switch_authorized o.state)) [
        | inl switching ↦
            inr (o, block_divert st job_id attempt_id e now diverted st' o h held switching)
        | inr past ↦ inl (past_divert st job_id attempt_id e now diverted st' o h held past)
      ]
    ]

divert-Moves :
    (st : Store) (job_id attempt_id : ℕ) (e : Bytes) (now : ℕ) (diverted : Bool) (st' : Store)
    → divert_unresolved_activation st job_id attempt_id e now ≡ ok (diverted, st')
    → Moves st st'
divert-Moves st job_id attempt_id e now diverted st' h =
    go (divert→cases st job_id attempt_id e now diverted st' h)
  where
    go :
        (st' ≡ st)
          ⊎ ((o : Operation) × (st'
                ≡ blocked_store st job_id attempt_id o.id e
                    activation_blocked_by_authority_end_summary now))
        → Moves st st'
    go (inl same) = rw same stays
    go (inr (o, same)) =
        rw same (
          blocked-Moves st job_id attempt_id o.id e activation_blocked_by_authority_end_summary now)

pub close_expired→ :
    (draw : ℕ → ℕ) (st : Store) (job_id attempt_id : ℕ) (e : Bytes) (number : ℕ)
    (deployment_id : Bytes) (asked : Bool) (now block_now : ℕ) (diverted : Bool) (st' : Store)
    → close_expired_or_revoked_attempt draw st job_id attempt_id e number deployment_id asked now
        block_now
      ≡ ok (diverted, st')
    → (r : Bool × Store) × (divert_unresolved_activation st job_id attempt_id e block_now ≡ ok r)
      × (((r.0 ≡ true) × (st' ≡ r.1))
          ⊎ ((r.0 ≡ false)
              × (close_attempt_ordinary draw st job_id attempt_id e number deployment_id asked now
                  ≡ ok st')))
unfolding close_expired_or_revoked_attempt
close_expired→ draw st job_id attempt_id e number deployment_id asked now block_now diverted st' h =
    ground arith

pub close_expired-Moves :
    (draw : ℕ → ℕ) (st : Store) (job_id attempt_id number : ℕ) (a : Attempt) (s : Slot)
    (deployment_id : Bytes) (asked : Bool) (now block_now : ℕ) (diverted : Bool) (st' : Store)
    → close_expired_or_revoked_attempt draw st job_id attempt_id a.environment_id number
        deployment_id asked now block_now
      ≡ ok (diverted, st')
    → find_attempt attempt_id st ≡ some a
    → find_slot a.environment_id st ≡ some s
    → occupancy st.slots a.environment_id ≡ some (a.fence, some attempt_id)
    → a.fence ≡ s.fence
    → Moves st st'
close_expired-Moves draw st job_id attempt_id number a s deployment_id asked now block_now diverted
      st' h found slot occ same =
    let (r, diverts, rest) =
      close_expired→ draw st job_id attempt_id a.environment_id number deployment_id asked now
        block_now diverted st' h in
    go r diverts rest
  where
    go :
        (r : Bool × Store)
        → divert_unresolved_activation st job_id attempt_id a.environment_id block_now ≡ ok r
        → ((r.0 ≡ true) × (st' ≡ r.1))
          ⊎ ((r.0 ≡ false)
              × (close_attempt_ordinary draw st job_id attempt_id a.environment_id number
                    deployment_id asked now
                  ≡ ok st'))
        → Moves st st'
    go r diverts (inl (left, same)) =
        rw same (divert-Moves st job_id attempt_id a.environment_id block_now r.0 r.1 diverts)
    go r diverts (inr (closes, did)) =
        close_ordinary-Moves draw st job_id attempt_id number a s deployment_id asked now st' did
          found slot occ same
