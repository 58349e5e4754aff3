-- ===== src/Lease/Granting.antt =====
-- What `tryClaim` promises of a lease that it grants: the rows that the later calls of the agent look
-- for.
use auto_deploy.Base.{
  ◌≤◌, ◌⊎◌, Option, none, ℕ, ◌+◌, ◌<◌, ◌≡◌, refl, sym, ap, ◌∙◌, Bool, true, false, inl, inr, List,
  some, ◌==◌, Bytes, bytes_eq, arith, Bool-cases, ok,
}
use mathlib.Core.Path.{subst}
use auto_deploy.Base.Table.{find_row, update_rows, find_row-update_rows, find_row-test}
use auto_deploy.Lease.State.{
  Store, Attempt, Slot, Job, Enqueued, find_slot, find_attempt, find_job, append_job_event,
}
use auto_deploy.Lease.State.{JobState, job_queued, job_leased, retry_wait}
use auto_deploy.Lease.Renewal.{is_requested}
use auto_deploy.Queue
use auto_deploy.Lease.Closing.{database_time}
use auto_deploy.Deployment
use auto_deploy.Lease.Frames.{OnlyDeployments, transition-OnlyDeployments}
use auto_deploy.Lease.Claim.{
  Plan, ClaimedLease, advance_fence, occupy, new_attempt, occupied_rows, assign_deployment,
  lease_job, write_claim, try_claim, is_taken, is_claimable, is_runnable,
}
use auto_deploy.Lease.Entering.{IsGranted, try_claim-cases}

assign-OnlyDeployments :
    (st : Store) (j : Job) (now : ℕ) (st' : Store)
    → assign_deployment st j now ≡ ok st'
    → OnlyDeployments st st'
assign-OnlyDeployments st j now st' h = elim (Bool-cases (j.attempt_count == 0)) [
  | inl first ↦
      transition-OnlyDeployments st j.deployment_id Deployment.assigned (database_time now) st'
        (ground arith)
  | inr later ↦ ground arith
]

-- The tables of the other store, but for the deployments and the releases.
write_claim-OnlyDeployments :
    (sum256 : Bytes → Bytes) (st : Store) (i : ℕ) (p : Plan) (s : Slot) (j : Job)
    (source : Enqueued) (now expires_at : ℕ) (lease : ClaimedLease) (st' : Store)
    → write_claim sum256 st i p s j source now expires_at ≡ ok (lease, st')
    → (mid : Store) × (assign_deployment (occupied_rows st i s j now expires_at) j now ≡ ok mid)
      × OnlyDeployments mid st'
unfolding write_claim append_job_event
write_claim-OnlyDeployments sum256 st i p s j source now expires_at lease st' h = ground arith

pub write_claim-lease :
    (sum256 : Bytes → Bytes) (st : Store) (i : ℕ) (p : Plan) (s : Slot) (j : Job)
    (source : Enqueued) (now expires_at : ℕ) (lease : ClaimedLease) (st' : Store)
    → write_claim sum256 st i p s j source now expires_at ≡ ok (lease, st')
    → (j.attempt_count < 5)
      × (lease.job_id ≡ j.id)
      × (lease.attempt_id ≡ i)
      × (lease.attempt_number ≡ j.attempt_count + 1)
      × (lease.fence ≡ s.fence + 1)
      × (lease.environment_id ≡ s.environment_id)
      × (lease.lease_expires_at ≡ expires_at)
      × (lease.authority_expires_at ≡ expires_at)
unfolding write_claim
write_claim-lease sum256 st i p s j source now expires_at lease st' h = ground arith

found-updated {ℓ} :
    {A : Type ℓ} (test : A → Bool) (f : A → A) (xs : List A) (x : A)
    → ((y : A) → test (f y) ≡ test y)
    → find_row test xs ≡ some x
    → find_row test (update_rows test f xs) ≡ some (f x)
found-updated test f xs x keeps found =
    ground (arith, find_row-update_rows test test f xs keeps, find_row-test test xs x found)

-- The rows that the writes of a claim leave.
pub record IsOpened (st' : Store) (i : ℕ) (s : Slot) (j : Job) (now expires_at : ℕ) : Type 0 where
  pub attempt_found : find_attempt i st' ≡ some (new_attempt i s j expires_at)
  pub slot_found : find_slot s.environment_id st' ≡ some (occupy i now (advance_fence now s))
  pub job_found : find_job j.id st' ≡ some (lease_job now j)

occupied_rows-IsOpened :
    (st : Store) (i : ℕ) (s : Slot) (j : Job) (now expires_at : ℕ)
    → find_slot s.environment_id st ≡ some s
    → find_job j.id st ≡ some j
    → IsOpened (occupied_rows st i s j now expires_at) i s j now expires_at
unfolding occupied_rows find_row
occupied_rows-IsOpened st i s j now expires_at slot job = record {
  attempt_found = ground arith;
  slot_found =
      let e = s.environment_id in
      found-updated (λ x. bytes_eq x.environment_id e) (occupy i now)
        (update_rows (λ x. bytes_eq x.environment_id e) (advance_fence now) st.slots)
        (advance_fence now s) (λ x. refl)
        (found-updated (λ x. bytes_eq x.environment_id e) (advance_fence now) st.slots s (λ x. refl)
          slot);
  job_found = found-updated (λ x. x.id == j.id) (lease_job now) st.jobs j (λ x. refl) job;
}

OnlyDeployments-IsOpened :
    (st st' : Store) (i : ℕ) (s : Slot) (j : Job) (now expires_at : ℕ)
    → OnlyDeployments st st'
    → IsOpened st i s j now expires_at
    → IsOpened st' i s j now expires_at
OnlyDeployments-IsOpened st st' i s j now expires_at (servers, jobs, attempts, slots, operations)
      v =
    record {
      attempt_found = rw attempts v.attempt_found;
      slot_found = rw slots v.slot_found;
      job_found = rw jobs v.job_found;
    }

-- The slot and the job of a grant are rows of their own keys.
granted-keys :
    (sum256 : Bytes → Bytes) (new_id : List Attempt → ℕ) (st : Store) (server : Bytes) (job_id : ℕ)
    (e : Bytes) (now expires_at : ℕ) (lease : ClaimedLease) (st' : Store)
    → (g : IsGranted sum256 new_id st server job_id e now expires_at lease st')
    → (e ≡ g.slot.environment_id) × (job_id ≡ g.job.id)
granted-keys sum256 new_id st server job_id e now expires_at lease st' g = (
  ground (
    arith,
    find_row-test (λ (x : Slot). bytes_eq x.environment_id e) st.slots g.slot g.slot_found,
  ),
  ground (arith, find_row-test (λ (x : Job). x.id == job_id) st.jobs g.job g.job_found),
)

pub granted-IsOpened :
    (sum256 : Bytes → Bytes) (new_id : List Attempt → ℕ) (st : Store) (server : Bytes) (job_id : ℕ)
    (e : Bytes) (now expires_at : ℕ) (lease : ClaimedLease) (st' : Store)
    → (g : IsGranted sum256 new_id st server job_id e now expires_at lease st')
    → IsOpened st' (new_id st.attempts) g.slot g.job now expires_at × (st'.servers ≡ st.servers)
unfolding occupied_rows
granted-IsOpened sum256 new_id st server job_id e now expires_at lease st' g =
    let i = new_id st.attempts in
    let (env, key) = granted-keys sum256 new_id st server job_id e now expires_at lease st' g in
    let opened = occupied_rows st i g.slot g.job now expires_at in
    let (mid, assigned, same') =
      write_claim-OnlyDeployments sum256 st i g.plan g.slot g.job g.source now expires_at lease st'
        g.written in
    let same = assign-OnlyDeployments opened g.job now mid assigned in
    (
      OnlyDeployments-IsOpened mid st' i g.slot g.job now expires_at same' (
          OnlyDeployments-IsOpened opened mid i g.slot g.job now expires_at same (
            occupied_rows-IsOpened st i g.slot g.job now expires_at
              (ap (λ k. find_slot k st) (sym env) ∙ g.slot_found)
              (ap (λ k. find_job k st) (sym key) ∙ g.job_found))),
      same'.0 ∙ same.0,
    )

pub try_claim→granted :
    (sum256 : Bytes → Bytes) (new_id : List Attempt → ℕ) (st : Store) (server : Bytes) (job_id : ℕ)
    (e : Bytes) (now expires_at : ℕ) (lease : ClaimedLease) (st' : Store)
    → try_claim sum256 new_id st server job_id e now expires_at ≡ ok (some lease, st')
    → IsGranted sum256 new_id st server job_id e now expires_at lease st'
try_claim→granted sum256 new_id st server job_id e now expires_at lease st' h =
    elim (try_claim-cases sum256 new_id st server job_id e now expires_at (some lease) st' h) [
      | inl (skip, _) ↦ absurd (cc skip)
      | inr (lease', is, g) ↦
          subst (λ l. IsGranted sum256 new_id st server job_id e now expires_at l st') (cc is) g
    ]

free→vacant :
    (s : Slot)
    → is_taken s ≡ false
    → (s.current_attempt_id ≡ none) × (s.reconciliation_required ≡ false)
free→vacant s h = ground arith

pub runnable→waiting :
    (state : JobState) → is_runnable state ≡ true → (state ≡ job_queued) ⊎ (state ≡ retry_wait)
runnable→waiting job_queued h = inl refl
runnable→waiting retry_wait h = inr refl
runnable→waiting _ h = absurd (ground arith)

not_requested : (o : Option ℕ) → is_requested o ≡ false → o ≡ none
not_requested none h = refl
not_requested (some t) h = absurd (ground arith)

claimable→due :
    (j : Job) (server e : Bytes) (now : ℕ)
    → is_claimable j server e now ≡ true
    → (j.environment_id ≡ e)
      × (j.server_id ≡ server)
      × (is_runnable j.state ≡ true)
      × (j.available_at ≤ now)
      × (is_requested j.cancel_requested_at ≡ false)
claimable→due j server e now h = ground arith

-- What a grant found, and what it left.
abbrev pub IsClaimed : Store → Bytes → ℕ → Bytes → ℕ → ℕ → ClaimedLease → Store → Type 0
IsClaimed st server job_id e now expires_at lease st' =
    (s : Slot) × (j : Job) × (find_slot e st ≡ some s)
    × (s.current_attempt_id ≡ none)
    × (s.reconciliation_required ≡ false)
    × (find_job job_id st ≡ some j)
    × (j.environment_id ≡ e)
    × (j.server_id ≡ server)
    × ((j.state ≡ job_queued) ⊎ (j.state ≡ retry_wait))
    × (j.available_at ≤ now)
    × (j.cancel_requested_at ≡ none)
    × (j.attempt_count < 5)
    × (lease.job_id ≡ job_id)
    × (lease.environment_id ≡ e)
    × (lease.attempt_number ≡ j.attempt_count + 1)
    × (lease.fence ≡ s.fence + 1)
    × (lease.lease_expires_at ≡ expires_at)
    × (lease.authority_expires_at ≡ expires_at)
    × (find_attempt lease.attempt_id st'
        ≡ some (record {
          id = lease.attempt_id;
          job_id = job_id;
          attempt_number = j.attempt_count + 1;
          server_id = server;
          environment_id = e;
          fence = s.fence + 1;
          state = Queue.leased;
          renewal_sequence = 0;
          lease_expires_at = expires_at;
          authority_expires_at = expires_at;
          cancel_deadline_at = none;
          failure_class = none;
          result_operation_id = none;
          result_digest = none;
          closed_at = none;
        }))
    × (find_slot e st'
        ≡ some (record s {
          fence = s.fence + 1;
          current_attempt_id = some lease.attempt_id;
          updated_at = now;
        }))
    × (find_job job_id st'
        ≡ some (record j {
          state = job_leased;
          attempt_count = j.attempt_count + 1;
          updated_at = now;
        }))

-- A lease is granted only in a slot that no attempt occupies and that awaits no reconciliation, for a
-- job of that environment and server that waits, is due, was not asked to be cancelled and was
-- attempted fewer than five times. The store then has an attempt under the lease's id, leased to the
-- server under the next fence of the slot and with the lease's number and deadlines; it is the slot's
-- occupant, and the job is leased and counts one attempt more.
pub try_claim_lem :
    (sum256 : Bytes → Bytes) (new_id : List Attempt → ℕ) (st : Store) (server : Bytes) (job_id : ℕ)
    (e : Bytes) (now expires_at : ℕ) (lease : ClaimedLease) (st' : Store)
    → try_claim sum256 new_id st server job_id e now expires_at ≡ ok (some lease, st')
    → IsClaimed st server job_id e now expires_at lease st'
try_claim_lem sum256 new_id st server job_id e now expires_at lease st' h =
    let g = try_claim→granted sum256 new_id st server job_id e now expires_at lease st' h in
    let s = g.slot in
    let j = g.job in
    let (env, key) = granted-keys sum256 new_id st server job_id e now expires_at lease st' g in
    let (opened, servers) =
      granted-IsOpened sum256 new_id st server job_id e now expires_at lease st' g in
    let (few, job, id, number, fence, environment, l, a) =
      write_claim-lease sum256 st (new_id st.attempts) g.plan s j g.source now expires_at lease st'
        g.written in
    let (vacant, clear) = free→vacant s g.free in
    let (there, own, runnable, due, wanted) =
      claimable→due j server e now (ap (λ k. is_claimable j server k now) env ∙ g.claimable) in
    (
      s,
      j,
      g.slot_found,
      vacant,
      clear,
      g.job_found,
      there,
      own,
      runnable→waiting j.state runnable,
      due,
      not_requested j.cancel_requested_at wanted,
      few,
      job ∙ sym key,
      environment ∙ sym env,
      number,
      fence,
      l,
      a,
      ap (λ k. find_attempt k st') id ∙ opened.attempt_found ∙ ground (arith, id, key, own, env),
      ap (λ k. find_slot k st') env
          ∙ opened.slot_found
          ∙ ap (λ k. some (occupy k now (advance_fence now s))) (sym id),
      ap (λ k. find_job k st') key ∙ opened.job_found,
    )
