-- ===== src/Lease/Renewals.antt =====
-- What `Renew` promises: bounded deadlines and idempotent replays.
use auto_deploy.Github.{valid_opaque_id}
use auto_deploy.Base.{
  ltb, ◌&&◌, ◌∙◌, ℕ, ◌+◌, ◌≤◌, ◌<◌, ◌≡◌, refl, true, List, ◌==◌, ◌⊎◌, Option, none, some, arith,
  Bytes, ok,
}
use auto_deploy.Base.Table.{find_row, find_row-test, update_rows, find_row-update_rows}
use auto_deploy.Lease.State.{Store, Attempt, find_attempt}
use auto_deploy.Lease.Held.{
  Held, IsHeld, lock_held, lock_held-IsHeld, IsHeld-lock_held, has_authority,
}
use auto_deploy.Lease.Renewal.{
  RenewalResult, renew, renew_held, extended, may_renew, set_renewal, lease_duration,
}

pub renew→held :
    (st : Store) (server presented : Bytes) (attempt_id fence sequence now : ℕ)
    (r : RenewalResult × Store)
    → renew st server presented attempt_id fence sequence now ≡ ok r
    → (h : Held) × (lock_held st server presented attempt_id ≡ ok h)
      × (may_renew h attempt_id fence now ≡ true)
      × (renew_held st h attempt_id sequence now ≡ ok r)
unfolding renew
renew→held st server presented attempt_id fence sequence now r e = ground arith

abbrev pub renewed : Attempt → ℕ → RenewalResult → Attempt
renewed a sequence r = record a {
  renewal_sequence = sequence;
  lease_expires_at = r.lease_expires_at;
  authority_expires_at = r.authority_expires_at;
}

abbrev pub WithinDeadline : Option ℕ → ℕ → Type 0
WithinDeadline none t = Unit
WithinDeadline (some deadline) t = t ≤ deadline

-- A replay changes nothing; a new sequence is the next one, and both deadlines are its result.
abbrev pub Extends : Store → Attempt → ℕ → ℕ → RenewalResult → Store → Type 0
Extends st a sequence now r st' =
    ((sequence ≡ a.renewal_sequence) × (st' ≡ st))
    ⊎ ((sequence ≡ a.renewal_sequence + 1)
        × (r.lease_expires_at ≡ r.authority_expires_at)
        × (r.lease_expires_at ≤ now + lease_duration)
        × WithinDeadline a.cancel_deadline_at r.lease_expires_at)

find-set_renewal :
    (i sequence deadline : ℕ) (xs : List Attempt) (a : Attempt)
    → find_row (λ x. x.id == i) xs ≡ some a
    → find_row (λ x. x.id == i) (update_rows (λ x. x.id == i) (set_renewal sequence deadline) xs)
      ≡ some (set_renewal sequence deadline a)
find-set_renewal i sequence deadline xs a e = ground (
  arith,
  find_row-update_rows (λ (x : Attempt). x.id == i) (λ x. x.id == i) (set_renewal sequence deadline)
      xs (λ x. refl),
  find_row-test (λ (x : Attempt). x.id == i) xs a e,
)

pub renew_held_row :
    (st : Store) (h : Held) (attempt_id sequence now : ℕ) (r : RenewalResult) (st' : Store)
    → find_attempt attempt_id st ≡ some h.attempt
    → renew_held st h attempt_id sequence now ≡ ok (r, st')
    → (find_attempt attempt_id st' ≡ some (renewed h.attempt sequence r))
      × Extends st h.attempt sequence now r st'
unfolding renew_held extended
renew_held_row st h attempt_id sequence now r st' found e = ground (
  arith,
  find-set_renewal attempt_id sequence (extended h.attempt.cancel_deadline_at now) st.attempts
      h.attempt found,
)

-- A renewal writes no other table.
abbrev pub OnlyAttempts : Store → Store → Type 0
OnlyAttempts st st' =
    (st'.servers ≡ st.servers)
    × (st'.jobs ≡ st.jobs)
    × (st'.slots ≡ st.slots)
    × (st'.operations ≡ st.operations)
    × (st'.route_heads ≡ st.route_heads)
    × (st'.route_events ≡ st.route_events)
    × (st'.deployments ≡ st.deployments)
    × (st'.events ≡ st.events)
    × (st'.runtime ≡ st.runtime)
    × (st'.enqueued ≡ st.enqueued)

pub renew_held_frame :
    (st : Store) (h : Held) (attempt_id sequence now : ℕ) (r : RenewalResult) (st' : Store)
    → renew_held st h attempt_id sequence now ≡ ok (r, st')
    → OnlyAttempts st st'
unfolding renew_held
renew_held_frame st h attempt_id sequence now r st' e = ground arith

-- A renewal that succeeds held the fence of the attempt before its deadline. It leaves in the row the
-- sequence and the deadlines that it returns, and writes no other table. Either the sequence was the
-- accepted one and nothing changed, or it is the next one, and the deadlines are equal, at most 90 s
-- ahead and not past a cancellation's deadline.
pub renew_lem :
    (st : Store) (server presented : Bytes) (attempt_id fence sequence now : ℕ) (r : RenewalResult)
    (st' : Store)
    → renew st server presented attempt_id fence sequence now ≡ ok (r, st')
    → (a : Attempt) × (find_attempt attempt_id st ≡ some a)
      × (a.fence ≡ fence)
      × (now < a.authority_expires_at)
      × (find_attempt attempt_id st' ≡ some (renewed a sequence r))
      × Extends st a sequence now r st'
      × OnlyAttempts st st'
unfolding has_authority
renew_lem st server presented attempt_id fence sequence now r st' e =
    let (h, held, may, did) =
      renew→held st server presented attempt_id fence sequence now (r, st') e in
    let v = lock_held-IsHeld st server presented attempt_id h held in
    let (row, ext) = renew_held_row st h attempt_id sequence now r st' v.attempt_found did in
    (
      h.attempt,
      v.attempt_found,
      ground arith,
      ground arith,
      row,
      ext,
      renew_held_frame st h attempt_id sequence now r st' did,
    )

unfoldable pub renewed_held : Held → ℕ → RenewalResult → Held
renewed_held h sequence r = record h { attempt = renewed h.attempt sequence r }

pub renewed-IsHeld :
    (st st' : Store) (server presented : Bytes) (attempt_id sequence : ℕ) (r : RenewalResult)
    (h : Held)
    → IsHeld st server presented attempt_id h
    → OnlyAttempts st st'
    → find_attempt attempt_id st' ≡ some (renewed h.attempt sequence r)
    → IsHeld st' server presented attempt_id (renewed_held h sequence r)
unfolding renewed_held
renewed-IsHeld st st' server presented attempt_id sequence r h v
      (servers, jobs, slots, o, heads, es, d, e, rt, q) row =
    record {
      authenticated = rw servers v.authenticated;
      owned = v.owned;
      attempt_found = row;
      slot_found = rw slots v.slot_found;
      job_found = rw jobs v.job_found;
    }

pub renew_of_held :
    (st : Store) (server presented : Bytes) (attempt_id fence sequence now : ℕ) (h : Held)
    → (valid_opaque_id server && ltb 0 attempt_id && ltb 0 fence) ≡ true
    → lock_held st server presented attempt_id ≡ ok h
    → may_renew h attempt_id fence now ≡ true
    → renew st server presented attempt_id fence sequence now
      ≡ renew_held st h attempt_id sequence now
unfolding renew
renew_of_held st server presented attempt_id fence sequence now h g held may =
    rw (renew, g) (rw held (rw may refl))

renew_guard :
    (st : Store) (server presented : Bytes) (attempt_id fence sequence now : ℕ)
    (r : RenewalResult × Store)
    → renew st server presented attempt_id fence sequence now ≡ ok r
    → (valid_opaque_id server && ltb 0 attempt_id && ltb 0 fence) ≡ true
unfolding renew
renew_guard st server presented attempt_id fence sequence now r e = ground arith

replayed :
    (st : Store) (h : Held) (attempt_id sequence now : ℕ) (r : RenewalResult) (st' : Store)
    (later : ℕ)
    → renew_held st h attempt_id sequence now ≡ ok (r, st')
    → renew_held st' (renewed_held h sequence r) attempt_id sequence later ≡ ok (r, st')
unfolding renew_held renewed_held
replayed st h attempt_id sequence now r st' later e = ground arith

-- A lost response is replayed safely: the same call again, at any later time before the deadline that
-- the first one returned, returns the same deadlines and changes nothing.
pub renew_replay :
    (st : Store) (server presented : Bytes) (attempt_id fence sequence now : ℕ) (r : RenewalResult)
    (st' : Store) (later : ℕ)
    → renew st server presented attempt_id fence sequence now ≡ ok (r, st')
    → later < r.authority_expires_at
    → renew st' server presented attempt_id fence sequence later ≡ ok (r, st')
unfolding has_authority renewed_held
renew_replay st server presented attempt_id fence sequence now r st' later e le =
    let (h, held, may, did) =
      renew→held st server presented attempt_id fence sequence now (r, st') e in
    let v = lock_held-IsHeld st server presented attempt_id h held in
    let row = renew_held_row st h attempt_id sequence now r st' v.attempt_found did in
    let v' =
      renewed-IsHeld st st' server presented attempt_id sequence r h v
        (renew_held_frame st h attempt_id sequence now r st' did) row.0 in
    renew_of_held st' server presented attempt_id fence sequence later (renewed_held h sequence r)
      (renew_guard st server presented attempt_id fence sequence now (r, st') e)
      (IsHeld-lock_held st' server presented attempt_id (renewed_held h sequence r) v')
      (ground arith)
    ∙ replayed st h attempt_id sequence now r st' later did
