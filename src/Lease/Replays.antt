-- ===== src/Lease/Replays.antt =====
-- A result that is sent twice: the replay of Complete.
use auto_deploy.Base.{
  ℕ, ◌+◌, ◌≡◌, refl, ◌∙◌, ap, Bool, true, false, ◌&&◌, ◌⊎◌, inl, inr, List, Option, none, some,
  ◌==◌, ltb, Bytes, bytes_eq, bytes_eq_refl, arith, ok, length,
}
use auto_deploy.Base.Table.{find_row, update_rows, find_row-update_rows, find_row-test}
use auto_deploy.Github.{valid_opaque_id}
use auto_deploy.Queue.{
  AttemptState, FailureClass, FailureClass-discrete, CompletionOutcome, completion_failed,
  full_jitter_delay,
}
use auto_deploy.Lease.State.{
  Store, Attempt, Slot, Job, JobState, find_job, append_job_event, update_attempt, ◌>>=◌,
}
use auto_deploy.Lease.Held.{
  Held, IsHeld, lock_held, lock_held-IsHeld, IsHeld-lock_held, has_authority, is_leased, is_current,
}
use auto_deploy.Lease.Completion.{
  complete, has_open_activation, complete_held, completed_rows, completed_job_state, free,
  free_slot, record_result, replay_complete, closed_state, class_of, same_state, same_class,
  valid_operation_id, valid_outcome,
}
use auto_deploy.Lease.Endings.{
  complete→held, complete_held→failed, replay_complete-same, closed_state-open,
}
use auto_deploy.Lease.Keeping.{write_job-SameRows}
use auto_deploy.Lease.Frames.{
  fail-OnlyDeployments, found-update_rows, found-write_job, write_job-servers,
}

-- The row that a first completion leaves.
recorded-found :
    (i : ℕ) (xs : List Attempt) (a : Attempt) (state : AttemptState) (now : ℕ)
    (class : Option FailureClass) (operation_id digest : Bytes)
    → find_row (λ x. x.id == i) xs ≡ some a
    → find_row
        (λ x. x.id == i)
        (update_rows (λ x. x.id == i) (record_result state now class operation_id digest) xs)
      ≡ some (record_result state now class operation_id digest a)
recorded-found i xs a state now class operation_id digest found = ground (
  arith,
  find_row-update_rows (λ (x : Attempt). x.id == i) (λ x. x.id == i)
      (record_result state now class operation_id digest) xs (λ x. refl),
  find_row-test (λ (x : Attempt). x.id == i) xs a found,
)

same_class_refl : (c : Option FailureClass) → same_class c c ≡ true
same_class_refl none = refl
same_class_refl (some c) =
    elim (FailureClass-discrete c c)
      as (λ d. elim d as (λ x. Bool) [ yes p ↦ true | no p ↦ false ] ≡ true) [
        | yes p ↦ refl
        | no p ↦ absurd (p refl)
      ]

same_state_closed : (o : CompletionOutcome) → same_state (closed_state o) (closed_state o) ≡ true
same_state_closed completion_failed = refl
same_state_closed _ = refl

replay_of_recorded :
    (st : Store) (a : Attempt) (outcome : CompletionOutcome) (class : FailureClass)
    (operation_id digest : Bytes) (now : ℕ)
    → length digest ≡ 32
    → replay_complete st
        (record_result (closed_state outcome) now (class_of outcome class) operation_id digest a)
        outcome
        class
        operation_id
        digest
      ≡ ok st
unfolding replay_complete
replay_of_recorded st a outcome class operation_id digest now size = ground (
  arith,
  same_class_refl (class_of outcome class),
  same_state_closed outcome,
  bytes_eq_refl operation_id,
  bytes_eq_refl digest,
)

-- What the replay reads of the store that a first completion leaves.
abbrev Recorded : Store → Held → ℕ → (Attempt → Attempt) → ℕ → Store → Type 0
Recorded st h attempt_id f now st' =
    (st'.servers ≡ st.servers)
    × (st'.attempts ≡ update_rows (λ (x : Attempt). x.id == attempt_id) f st.attempts)
    × (st'.slots ≡ (free_slot h.attempt.environment_id attempt_id now st).slots)
    × ((j : Job) × (find_job h.attempt.job_id st' ≡ some j))

completed_rows-Recorded :
    (st : Store) (h : Held) (attempt_id : ℕ) (outcome : CompletionOutcome) (class : FailureClass)
    (state : JobState) (operation_id digest : Bytes) (available now : ℕ)
    → find_job h.attempt.job_id st ≡ some h.job
    → Recorded st h attempt_id
        (record_result (closed_state outcome) now (class_of outcome class) operation_id digest)
        now
        (completed_rows st h attempt_id outcome class state operation_id digest available now)
unfolding completed_rows free_slot
completed_rows-Recorded st h attempt_id outcome class state operation_id digest available now
      found =
    let freed = free_slot h.attempt.environment_id attempt_id now (
      update_attempt attempt_id
        (record_result (closed_state outcome) now (class_of outcome class) operation_id digest)
        st) in
    let (a, s) = write_job-SameRows h.attempt.job_id state available now freed in
    (
      write_job-servers h.attempt.job_id state available now freed,
      a,
      s,
      found-write_job h.attempt.job_id h.attempt.job_id state available now freed h.job found,
    )

complete_held-Recorded :
    (draw : ℕ → ℕ) (st : Store) (h : Held) (attempt_id : ℕ) (outcome : CompletionOutcome)
    (class : FailureClass) (operation_id digest : Bytes) (now : ℕ) (st' : Store)
    → find_job h.attempt.job_id st ≡ some h.job
    → complete_held draw st h attempt_id outcome class operation_id digest now ≡ ok st'
    → Recorded st h attempt_id
        (record_result (closed_state outcome) now (class_of outcome class) operation_id digest)
        now
        st'
unfolding append_job_event
complete_held-Recorded draw st h attempt_id outcome class operation_id digest now st' found e =
    let (mid, fails, last) =
      complete_held→failed draw st h attempt_id outcome class operation_id digest now st' e in
    let state = completed_job_state outcome class h.attempt.attempt_number in
    let available = now + full_jitter_delay draw h.attempt.attempt_number in
    let rows =
      completed_rows st h attempt_id outcome class state operation_id digest available now in
    let (servers, jobs, attempts, slots, ops) =
      fail-OnlyDeployments state h.job.deployment_id now rows mid fails in
    let (servers', attempts', slots', (j, job')) =
      completed_rows-Recorded st h attempt_id outcome class state operation_id digest available now
        found in
    rw last (
      servers ∙ servers',
      attempts ∙ attempts',
      slots ∙ slots',
      (j, ap (find_row (λ (r : Job). r.id == h.attempt.job_id)) jobs ∙ job'),
    )

-- The locks of the second call find the recorded row.
Recorded-IsHeld :
    (st : Store) (server presented : Bytes) (attempt_id : ℕ) (h : Held) (state : AttemptState)
    (now : ℕ) (class : Option FailureClass) (operation_id digest : Bytes) (st' : Store)
    → IsHeld st server presented attempt_id h
    → Recorded st h attempt_id (record_result state now class operation_id digest) now st'
    → (s : Slot) × (j : Job) × IsHeld st' server presented attempt_id (record {
      attempt = record_result state now class operation_id digest h.attempt;
      slot = s;
      job = j;
    })
unfolding free_slot
Recorded-IsHeld st server presented attempt_id h state now class operation_id digest st' v
      (servers, attempts, slots, (j, found)) =
    let (s, slot) =
      found-update_rows (λ (x : Slot). bytes_eq x.environment_id h.attempt.environment_id)
        (λ x.
          bytes_eq x.environment_id h.attempt.environment_id
          && is_current x.current_attempt_id attempt_id)
        (free now) st.slots h.slot (λ x. refl) v.slot_found in
    (
      s,
      j,
      record {
        authenticated = rw servers v.authenticated;
        owned = v.owned;
        attempt_found = rw attempts (
            recorded-found attempt_id st.attempts h.attempt state now class operation_id digest
              v.attempt_found);
        slot_found = rw slots slot;
        job_found = found;
      },
    )

complete_guards :
    (draw : ℕ → ℕ) (st : Store) (server presented : Bytes) (attempt_id fence : ℕ)
    (outcome : CompletionOutcome) (class : FailureClass) (operation_id digest : Bytes) (now : ℕ)
    (st' : Store)
    → complete draw st server presented attempt_id fence outcome class operation_id digest now
      ≡ ok st'
    → ((valid_opaque_id server
          && ltb 0 attempt_id
          && ltb 0 fence
          && valid_operation_id operation_id)
        ≡ true)
      × (valid_outcome outcome class ≡ true)
unfolding complete
complete_guards draw st server presented attempt_id fence outcome class operation_id digest now st'
      e =
    ground arith

complete_of_closed :
    (draw : ℕ → ℕ) (st : Store) (server presented : Bytes) (attempt_id fence : ℕ)
    (outcome : CompletionOutcome) (class : FailureClass) (operation_id digest : Bytes) (now : ℕ)
    (h : Held)
    → (valid_opaque_id server && ltb 0 attempt_id && ltb 0 fence && valid_operation_id operation_id)
      ≡ true
    → valid_outcome outcome class ≡ true
    → lock_held st server presented attempt_id ≡ ok h
    → is_leased h.attempt.state ≡ false
    → complete draw st server presented attempt_id fence outcome class operation_id digest now
      ≡ replay_complete st h.attempt outcome class operation_id digest
unfolding complete
complete_of_closed draw st server presented attempt_id fence outcome class operation_id digest now h
      g v held closed =
    rw g (rw v (rw held (rw (closed, ◌>>=◌) refl)))

-- A result whose answer was lost is sent again safely: after a completion that succeeded, the same
-- call at any later time, with any random draw, succeeds and leaves the store as the first one left
-- it. The digest has its 32 bytes.
pub complete_replay :
    (draw : ℕ → ℕ) (st : Store) (server presented : Bytes) (attempt_id fence : ℕ)
    (outcome : CompletionOutcome) (class : FailureClass) (operation_id digest : Bytes) (now : ℕ)
    (st' : Store) (draw' : ℕ → ℕ) (later : ℕ)
    → length digest ≡ 32
    → complete draw st server presented attempt_id fence outcome class operation_id digest now
      ≡ ok st'
    → complete draw' st' server presented attempt_id fence outcome class operation_id digest later
      ≡ ok st'
complete_replay draw st server presented attempt_id fence outcome class operation_id digest now st'
      draw' later size e =
    let (h, held, cases) =
      complete→held draw st server presented attempt_id fence outcome class operation_id digest now
        st' e in
    let (g, v) =
      complete_guards draw st server presented attempt_id fence outcome class operation_id digest
        now st' e in
    go h held g v cases
  where
    go :
        (h : Held)
        → lock_held st server presented attempt_id ≡ ok h
        → (valid_opaque_id server
            && ltb 0 attempt_id
            && ltb 0 fence
            && valid_operation_id operation_id)
          ≡ true
        → valid_outcome outcome class ≡ true
        → (((is_leased h.attempt.state ≡ false)
              × (replay_complete st h.attempt outcome class operation_id digest ≡ ok st'))
            ⊎ ((is_leased h.attempt.state ≡ true)
                × (has_open_activation st attempt_id fence ≡ false)
                × (has_authority h attempt_id fence now ≡ true)
                × (complete_held draw st h attempt_id outcome class operation_id digest now
                    ≡ ok st')))
        → complete draw' st' server presented attempt_id fence outcome class operation_id digest
            later
          ≡ ok st'
    go h held g v (inl (closed, replay)) =
        rw (replay_complete-same st h.attempt outcome class operation_id digest st' replay) (
          complete_of_closed draw' st server presented attempt_id fence outcome class operation_id
            digest later h g v held closed
          ∙ replay
          ∙ ap ok (replay_complete-same st h.attempt outcome class operation_id digest st' replay))
    go h held g v (inr (leased, resolved, may, did)) =
        let is_held = lock_held-IsHeld st server presented attempt_id h held in
        let (s, j, again) =
          Recorded-IsHeld st server presented attempt_id h (closed_state outcome) now
            (class_of outcome class) operation_id digest st' is_held
            (complete_held-Recorded draw st h attempt_id outcome class operation_id digest now st'
              is_held.job_found did) in
        let recorded =
          record_result (closed_state outcome) now (class_of outcome class) operation_id digest
            h.attempt in
        complete_of_closed draw' st' server presented attempt_id fence outcome class operation_id
          digest later (record { attempt = recorded; slot = s; job = j }) g v
          (IsHeld-lock_held st' server presented attempt_id
            (record { attempt = recorded; slot = s; job = j }) again)
          (closed_state-open outcome)
        ∙ replay_of_recorded st' h.attempt outcome class operation_id digest now size
