-- ===== src/Lease/Revoking.antt =====
-- The revocation of a server's leases as moves of the abstract contract.
use auto_deploy.Base.{
  ℕ, ◌≡◌, sym, Bool, true, ◌⊎◌, inl, inr, some, Bytes, arith, Bool-cases, Option-cases, ok,
}
use auto_deploy.Lease.State.{Store, Attempt, Slot, Job, find_slot, find_attempt, find_job}
use auto_deploy.Lease.Held.{is_current}
use auto_deploy.Lease.Renewal.{is_requested}
use auto_deploy.Lease.Closing.{close_expired_or_revoked_attempt, is_job_leased}
use auto_deploy.Lease.Sweeping.{revoke_one, revoke_held}
use auto_deploy.Lease.Fencing.{stays}
use auto_deploy.Lease.Views.{Moves, Fenced, occupancy, authority}
use auto_deploy.Lease.Expiries.{close_expired-Moves}

revoke_held→ :
    (draw : ℕ → ℕ) (st : Store) (c : Attempt) (s : Slot) (j : Job) (a : Attempt) (now block_now : ℕ)
    (st' : Store)
    → revoke_held draw st c s j a now block_now ≡ ok st'
    → is_current s.current_attempt_id c.id ≡ true
    → (st' ≡ st)
      ⊎ ((r : Bool × Store) × (st' ≡ r.1)
          × (close_expired_or_revoked_attempt draw st c.job_id c.id c.environment_id
                a.attempt_number j.deployment_id
                (is_requested j.cancel_requested_at)
                now
                block_now
              ≡ ok r))
unfolding revoke_held
revoke_held→ draw st c s j a now block_now st' h current = ground arith

revoke_one→ :
    (draw : ℕ → ℕ) (st : Store) (c : Attempt) (now block_now : ℕ) (st' : Store)
    → revoke_one draw st c now block_now ≡ ok st'
    → (st' ≡ st)
      ⊎ ((s : Slot) × (j : Job) × (a : Attempt) × (find_slot c.environment_id st ≡ some s)
          × (find_attempt c.id st ≡ some a)
          × (is_current s.current_attempt_id c.id ≡ true)
          × (revoke_held draw st c s j a now block_now ≡ ok st'))
unfolding revoke_one
revoke_one→ draw st c now block_now st' h = elim (Option-cases (find_slot c.environment_id st)) [
  | inl missing ↦ absurd (ground arith)
  | inr (s, p) ↦ elim (Bool-cases (is_current s.current_attempt_id c.id)) [
    | inr other ↦ inl (ground arith)
    | inl current ↦ elim (Option-cases (find_job c.job_id st)) [
      | inl missing ↦ absurd (ground arith)
      | inr (j, q) ↦ elim (Bool-cases (is_job_leased j.state)) [
        | inr other ↦ inl (ground arith)
        | inl leased ↦ elim (Option-cases (find_attempt c.id st)) [
          | inl missing ↦ absurd (ground arith)
          | inr (a, r) ↦ inr (s, j, a, p, r, current, ground arith)
        ]
      ]
    ]
  ]
]

occupant-rows :
    (st : Store) (e : Bytes) (i : ℕ) (a : Attempt) (s : Slot)
    → Fenced st
    → find_attempt i st ≡ some a
    → find_slot e st ≡ some s
    → is_current s.current_attempt_id i ≡ true
    → (e ≡ a.environment_id) × (a.fence ≡ s.fence) × (occupancy st.slots e ≡ some (a.fence, some i))
unfolding occupancy authority
occupant-rows st e i a s v found slot current = ground (arith, v.occupant e s.fence i)

revoked-Moves :
    (draw : ℕ → ℕ) (st : Store) (c a : Attempt) (s : Slot) (deployment_id : Bytes) (asked : Bool)
    (e : Bytes) (now block_now : ℕ) (r : Bool × Store)
    → close_expired_or_revoked_attempt draw st c.job_id c.id e a.attempt_number deployment_id asked
        now block_now
      ≡ ok r
    → Fenced st
    → find_attempt c.id st ≡ some a
    → find_slot e st ≡ some s
    → is_current s.current_attempt_id c.id ≡ true
    → Moves st r.1
revoked-Moves draw st c a s deployment_id asked e now block_now r h v found slot current =
    let (there, fence, occ) = occupant-rows st e c.id a s v found slot current in
    close_expired-Moves draw st c.job_id c.id a.attempt_number a s deployment_id asked now block_now
      r.0 r.1 (rw (sym there) h) found (rw (sym there) slot) (rw (sym there) occ) fence

pub revoke_one-Moves :
    (draw : ℕ → ℕ) (st : Store) (c : Attempt) (now block_now : ℕ) (st' : Store)
    → revoke_one draw st c now block_now ≡ ok st'
    → Fenced st
    → Moves st st'
revoke_one-Moves draw st c now block_now st' h v =
    elim (revoke_one→ draw st c now block_now st' h) [
      | inl same ↦ rw same stays
      | inr (s, j, a, slot, found, current, h1) ↦
          elim (revoke_held→ draw st c s j a now block_now st' h1 current) [
            | inl same ↦ rw same stays
            | inr (r, same, closed) ↦ rw same (
                revoked-Moves draw st c a s j.deployment_id (is_requested j.cancel_requested_at)
                  c.environment_id now block_now r closed v found slot current)
          ]
    ]
