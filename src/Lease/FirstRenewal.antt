-- ===== src/Lease/FirstRenewal.antt =====
-- The first renewal of a lease that `tryClaim` granted.
use auto_deploy.Base.{
  ℕ, ◌+◌, ◌<◌, ◌≡◌, refl, ap, ◌∙◌, true, ◌&&◌, List, some, ltb, Bytes, arith, ok,
}
use auto_deploy.Github.{valid_opaque_id}
use auto_deploy.Lease.State.{
  Store, Attempt, Slot, Job, update_attempt, lock_active_server_credential,
}
use auto_deploy.Lease.Held.{Held, IsHeld, IsHeld-lock_held, has_authority}
use auto_deploy.Lease.Renewal.{
  RenewalResult, renew, renew_held, lease_duration, extended, may_renew, set_renewal, is_requested,
}
use auto_deploy.Lease.Renewals.{renew_of_held}
use auto_deploy.Lease.Claim.{ClaimedLease, advance_fence, occupy, new_attempt, lease_job, try_claim}
use auto_deploy.Lease.Granting.{IsOpened, write_claim-lease, granted-IsOpened, try_claim→granted}

first_guard :
    (server : Bytes) (i fence : ℕ)
    → valid_opaque_id server ≡ true
    → 0 < i
    → 0 < fence
    → (valid_opaque_id server && ltb 0 i && ltb 0 fence) ≡ true
first_guard server i fence valid p q = ground arith

opened_held : ℕ → Slot → Job → ℕ → ℕ → Held
opened_held i s j now expires_at = record {
  attempt = new_attempt i s j expires_at;
  slot = occupy i now (advance_fence now s);
  job = lease_job now j;
}

opened-IsHeld :
    (st' : Store) (server presented : Bytes) (i : ℕ) (s : Slot) (j : Job) (now expires_at : ℕ)
    → IsOpened st' i s j now expires_at
    → lock_active_server_credential st'.servers server presented ≡ ok tt
    → j.server_id ≡ server
    → IsHeld st' server presented i (opened_held i s j now expires_at)
unfolding opened_held
opened-IsHeld st' server presented i s j now expires_at v seen owner = record {
  authenticated = seen;
  owned = owner;
  attempt_found = v.attempt_found;
  slot_found = v.slot_found;
  job_found = v.job_found;
}

opened-may_renew :
    (i : ℕ) (s : Slot) (j : Job) (now expires_at later : ℕ)
    → later < expires_at
    → may_renew (opened_held i s j now expires_at) i (s.fence + 1) later ≡ true
unfolding opened_held has_authority
opened-may_renew i s j now expires_at later le = ground arith

opened-renew_held :
    (st' : Store) (i : ℕ) (s : Slot) (j : Job) (now expires_at later : ℕ)
    → (r : RenewalResult) × (st'' : Store) × (renew_held st'
          (opened_held i s j now expires_at)
          i
          1
          later
        ≡ ok (r, st''))
      × (r.authority_expires_at ≡ later + lease_duration)
      × (r.lease_expires_at ≡ later + lease_duration)
unfolding opened_held renew_held extended
opened-renew_held st' i s j now expires_at later = (
  record {
    lease_expires_at = later + lease_duration;
    authority_expires_at = later + lease_duration;
    cancel_requested = is_requested j.cancel_requested_at;
  },
  update_attempt i (set_renewal 1 (later + lease_duration)) st',
  refl,
  refl,
  refl,
)

opened-renew :
    (st' : Store) (server presented : Bytes) (i : ℕ) (s : Slot) (j : Job) (now expires_at later : ℕ)
    → IsOpened st' i s j now expires_at
    → lock_active_server_credential st'.servers server presented ≡ ok tt
    → j.server_id ≡ server
    → (valid_opaque_id server && ltb 0 i && ltb 0 (s.fence + 1)) ≡ true
    → later < expires_at
    → (r : RenewalResult) × (st'' : Store) × (renew st' server presented i (s.fence + 1) 1 later
        ≡ ok (r, st''))
      × (r.authority_expires_at ≡ later + lease_duration)
      × (r.lease_expires_at ≡ later + lease_duration)
opened-renew st' server presented i s j now expires_at later v seen owner guarded le =
    let held = opened_held i s j now expires_at in
    let (r, st'', did, a, l) = opened-renew_held st' i s j now expires_at later in
    (
      r,
      st'',
      renew_of_held st' server presented i (s.fence + 1) 1 later held guarded
            (IsHeld-lock_held st' server presented i held
              (opened-IsHeld st' server presented i s j now expires_at v seen owner))
            (opened-may_renew i s j now expires_at later le)
          ∙ did,
      a,
      l,
    )

-- The same credential that the claim was granted under renews the lease at once: the first renewal
-- before the deadline of the granted lease succeeds, and its deadlines are 90 s after it.
pub claim-renew :
    (sum256 : Bytes → Bytes) (new_id : List Attempt → ℕ) (st : Store) (server presented : Bytes)
    (job_id : ℕ) (e : Bytes) (now expires_at : ℕ) (lease : ClaimedLease) (st' : Store) (later : ℕ)
    → try_claim sum256 new_id st server job_id e now expires_at ≡ ok (some lease, st')
    → lock_active_server_credential st.servers server presented ≡ ok tt
    → valid_opaque_id server ≡ true
    → 0 < lease.attempt_id
    → later < lease.authority_expires_at
    → (r : RenewalResult) × (st'' : Store) × (renew st' server presented lease.attempt_id
          lease.fence 1 later
        ≡ ok (r, st''))
      × (r.authority_expires_at ≡ later + lease_duration)
      × (r.lease_expires_at ≡ later + lease_duration)
claim-renew sum256 new_id st server presented job_id e now expires_at lease st' later h seen valid
      positive early =
    let g = try_claim→granted sum256 new_id st server job_id e now expires_at lease st' h in
    let (opened, servers) =
      granted-IsOpened sum256 new_id st server job_id e now expires_at lease st' g in
    let (few, _, id, number, fence, _, l, a) =
      write_claim-lease sum256 st (new_id st.attempts) g.plan g.slot g.job g.source now expires_at
        lease st' g.written in
    rw (id, fence)
      (opened-renew st' server presented (new_id st.attempts) g.slot g.job now expires_at later
        opened (ap (λ k. lock_active_server_credential k server presented) servers ∙ seen)
        (ground (arith, g.claimable))
        (first_guard server (new_id st.attempts) (g.slot.fence + 1) valid (ground arith)
          (ground arith))
        (ground arith))
