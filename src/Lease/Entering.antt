-- ===== src/Lease/Entering.antt =====
-- A claim and the creation of a slot as moves of the abstract contract.
use auto_deploy.Base.{
  ℕ, ◌+◌, ◌≡◌, refl, sym, ap, ◌∙◌, true, false, ◌⊎◌, inl, inr, List, [], ◌∷◌, Option, none, some,
  ◌==◌, Bytes, bytes_eq, arith, Bool-cases, Option-cases, ok, err, Result, Result-cases,
}
use mathlib.Core.Path.{fun_ext}
use auto_deploy.Base.Table.{find_row, update_rows, find_row-update_rows, find_row-test, exists_row}
use auto_deploy.Lease.Runtime.{FrozenExecution, lock_environment_runtime_config}
use auto_deploy.Lease.State.{
  Store, Attempt, Slot, Job, Enqueued, find_slot, find_attempt, find_job, append_job_event, Error,
  ◌>>=◌,
}
use auto_deploy.Lease.Closing.{database_time}
use auto_deploy.Deployment
use auto_deploy.Lease.Held.{is_leased}
use auto_deploy.Lease.Claim.{
  Plan, ClaimedLease, advance_fence, occupy, new_attempt, occupied_rows, assign_deployment,
  write_claim, claim_locked, claim_checked, try_claim, is_taken, is_claimable, plan_claim,
}
use auto_deploy.Lease.Claiming.{ensure_slot, new_slot}
use auto_deploy.Lease.Fencing.{set_occupancy, set_authority, stays, enters, creates}
use auto_deploy.Lease.Views.{occupancy, authority, Moves}
use auto_deploy.Lease.Keeping.{SameRows, transition_deployment-SameRows}

-- The identity column hands out an id that no row has.
abbrev pub IsFresh : (List Attempt → ℕ) → Type 0
IsFresh new_id = (xs : List Attempt) → find_row (λ a. a.id == new_id xs) xs ≡ none

-- The two statements on the slot.
occupancy-occupied :
    (e : Bytes) (i now : ℕ) (xs : List Slot) (s : Slot)
    → find_row (λ x. bytes_eq x.environment_id e) xs ≡ some s
    → occupancy (
        update_rows
          (λ x. bytes_eq x.environment_id e)
          (occupy i now)
          (update_rows (λ x. bytes_eq x.environment_id e) (advance_fence now) xs))
      ≡ set_occupancy e (s.fence + 1) (some i) (occupancy xs)
unfolding occupancy
occupancy-occupied e i now xs s found = fun_ext λ e'.
    let first =
      find_row-update_rows (λ x. bytes_eq x.environment_id e') (λ x. bytes_eq x.environment_id e)
        (advance_fence now) xs (λ x. refl) in
    let second =
      find_row-update_rows (λ x. bytes_eq x.environment_id e') (λ x. bytes_eq x.environment_id e)
        (occupy i now) (update_rows (λ x. bytes_eq x.environment_id e) (advance_fence now) xs)
        (λ x. refl) in
    elim (Option-cases (find_row (λ x. bytes_eq x.environment_id e') xs)) [
      | inl missing ↦ ground (arith, found, first, second)
      | inr (x, got) ↦ ground (
        arith,
        first,
        second,
        find_row-test (λ (x : Slot). bytes_eq x.environment_id e') xs x got,
        found,
      )
    ]

authority-inserted :
    (a : Attempt) (xs : List Attempt)
    → authority (a ∷ xs)
      ≡ set_authority a.id a.environment_id a.fence (is_leased a.state) (authority xs)
unfolding authority find_row
authority-inserted a xs = fun_ext λ i. ground arith

assign_deployment-SameRows :
    (st : Store) (j : Job) (now : ℕ) (st' : Store)
    → assign_deployment st j now ≡ ok st'
    → SameRows st st'
assign_deployment-SameRows st j now st' h = elim (Bool-cases (j.attempt_count == 0)) [
  | inl first ↦
      transition_deployment-SameRows st j.deployment_id Deployment.assigned (database_time now) st'
        (ground arith)
  | inr later ↦ ground arith
]

pub write_claim→ :
    (sum256 : Bytes → Bytes) (st : Store) (i : ℕ) (p : Plan) (s : Slot) (j : Job)
    (source : Enqueued) (now expires_at : ℕ) (lease : ClaimedLease) (st' : Store)
    → write_claim sum256 st i p s j source now expires_at ≡ ok (lease, st')
    → (mid : Store) × (assign_deployment (occupied_rows st i s j now expires_at) j now ≡ ok mid)
      × SameRows mid st'
unfolding write_claim append_job_event
write_claim→ sum256 st i p s j source now expires_at lease st' h = ground arith

write_claim-Moves :
    (sum256 : Bytes → Bytes) (st : Store) (i : ℕ) (p : Plan) (s : Slot) (j : Job)
    (source : Enqueued) (now expires_at : ℕ) (lease : ClaimedLease) (st' : Store)
    → write_claim sum256 st i p s j source now expires_at ≡ ok (lease, st')
    → find_slot s.environment_id st ≡ some s
    → s.current_attempt_id ≡ none
    → find_attempt i st ≡ none
    → Moves st st'
unfolding occupied_rows occupancy authority
write_claim-Moves sum256 st i p s j source now expires_at lease st' h found free fresh =
    let (mid, assigned, (p', q')) =
      write_claim→ sum256 st i p s j source now expires_at lease st' h in
    let (p, q) =
      assign_deployment-SameRows (occupied_rows st i s j now expires_at) j now mid assigned in
    rw
      (
        ap authority (p' ∙ p) ∙ authority-inserted (new_attempt i s j expires_at) st.attempts,
        ap occupancy (q' ∙ q) ∙ occupancy-occupied s.environment_id i now st.slots s found,
      )
      (enters s.environment_id s.fence i (ground arith) (ground arith))

-- What a granted claim found.
pub record IsGranted (sum256 : Bytes → Bytes) (new_id : List Attempt → ℕ) (st : Store)
    (server : Bytes) (job_id : ℕ) (environment_id : Bytes) (now expires_at : ℕ)
    (lease : ClaimedLease) (st' : Store) : Type 0 where
  pub config : FrozenExecution
  pub slot : Slot
  pub job : Job
  pub source : Enqueued
  pub plan : Plan
  pub config_found : lock_environment_runtime_config st.runtime environment_id ≡ some config
  pub slot_found : find_slot environment_id st ≡ some slot
  pub job_found : find_job job_id st ≡ some job
  pub source_found : find_row (λ q. q.job_id == job_id) st.enqueued ≡ some source
  pub free : is_taken slot ≡ false
  pub claimable : is_claimable job server slot.environment_id now ≡ true
  pub planned : plan_claim st job config ≡ ok (some plan)
  pub written :
      write_claim sum256 st (new_id st.attempts) plan slot job source now expires_at
      ≡ ok (lease, st')

bind_some→ :
    (m : Result Error (ClaimedLease × Store)) (r : Option ClaimedLease) (st' : Store)
    → ◌>>=◌ {B = Option ClaimedLease × Store} m (λ w. ok (some w.0, w.1)) ≡ ok (r, st')
    → (w : ClaimedLease × Store) × (m ≡ ok w) × (r ≡ some w.0) × (st' ≡ w.1)
bind_some→ (ok w) r st' h = (w, refl, cc h, cc h)
bind_some→ (err e) r st' h = absurd (cc h)

claim_locked→ :
    (sum256 : Bytes → Bytes) (new_id : List Attempt → ℕ) (st : Store) (config : FrozenExecution)
    (s : Slot) (j : Job) (source : Enqueued) (now expires_at : ℕ) (r : Option ClaimedLease)
    (st' : Store)
    → claim_locked sum256 new_id st config s j source now expires_at ≡ ok (r, st')
    → ((r ≡ none) × (st' ≡ st))
      ⊎ ((p : Plan) × (w : ClaimedLease × Store) × (r ≡ some w.0)
          × (st' ≡ w.1)
          × (plan_claim st j config ≡ ok (some p))
          × (write_claim sum256 st (new_id st.attempts) p s j source now expires_at ≡ ok w))
unfolding claim_locked
claim_locked→ sum256 new_id st config s j source now expires_at r st' h =
    elim (Result-cases (plan_claim st j config)) [
      | inl (none, planned) ↦ inl (ground arith)
      | inl (some p, planned) ↦
          let (w, written, is, same) =
            bind_some→ (write_claim sum256 st (new_id st.attempts) p s j source now expires_at) r
              st' (ground arith) in
          inr (p, w, is, same, planned, written)
      | inr (e, failed) ↦ absurd (ground arith)
    ]

claim_checked→ :
    (sum256 : Bytes → Bytes) (new_id : List Attempt → ℕ) (st : Store) (server : Bytes)
    (config : FrozenExecution) (s : Slot) (j : Job) (source : Enqueued) (now expires_at : ℕ)
    (r : Option ClaimedLease) (st' : Store)
    → claim_checked sum256 new_id st server config s j source now expires_at ≡ ok (r, st')
    → ((r ≡ none) × (st' ≡ st))
      ⊎ ((is_taken s ≡ false)
          × (is_claimable j server s.environment_id now ≡ true)
          × (claim_locked sum256 new_id st config s j source now expires_at ≡ ok (r, st')))
unfolding claim_checked
claim_checked→ sum256 new_id st server config s j source now expires_at r st' h =
    elim (Bool-cases (is_taken s)) [
      | inl taken ↦ inl (ground arith)
      | inr free ↦ elim (Bool-cases (is_claimable j server s.environment_id now)) [
        | inl may ↦ inr (ground arith)
        | inr may ↦ inl (ground arith)
      ]
    ]

try_claim→ :
    (sum256 : Bytes → Bytes) (new_id : List Attempt → ℕ) (st : Store) (server : Bytes) (job_id : ℕ)
    (e : Bytes) (now expires_at : ℕ) (r : Option ClaimedLease) (st' : Store)
    → try_claim sum256 new_id st server job_id e now expires_at ≡ ok (r, st')
    → ((r ≡ none) × (st' ≡ st))
      ⊎ ((config : FrozenExecution) × (s : Slot) × (j : Job) × (source : Enqueued)
          × (lock_environment_runtime_config st.runtime e ≡ some config)
          × (find_slot e st ≡ some s)
          × (find_job job_id st ≡ some j)
          × (find_row (λ q. q.job_id == job_id) st.enqueued ≡ some source)
          × (claim_checked sum256 new_id st server config s j source now expires_at ≡ ok (r, st')))
unfolding try_claim
try_claim→ sum256 new_id st server job_id e now expires_at r st' h =
    elim (Option-cases (lock_environment_runtime_config st.runtime e)) [
      | inl a ↦ inl (ground arith)
      | inr (config, a) ↦ elim (Option-cases (find_slot e st)) [
        | inl b ↦ inl (ground arith)
        | inr (s, b) ↦ elim (Option-cases (find_job job_id st)) [
          | inl c ↦ inl (ground arith)
          | inr (j, c) ↦ elim (Option-cases (find_row (λ q. q.job_id == job_id) st.enqueued)) [
            | inl d ↦ inl (ground arith)
            | inr (source, d) ↦ inr (config, s, j, source, a, b, c, d, ground arith)
          ]
        ]
      ]
    ]

-- A success grants nothing and changes nothing, or grants one lease.
pub try_claim-cases :
    (sum256 : Bytes → Bytes) (new_id : List Attempt → ℕ) (st : Store) (server : Bytes) (job_id : ℕ)
    (e : Bytes) (now expires_at : ℕ) (r : Option ClaimedLease) (st' : Store)
    → try_claim sum256 new_id st server job_id e now expires_at ≡ ok (r, st')
    → ((r ≡ none) × (st' ≡ st))
      ⊎ ((lease : ClaimedLease) × (r ≡ some lease)
          × IsGranted sum256 new_id st server job_id e now expires_at lease st')
try_claim-cases sum256 new_id st server job_id e now expires_at r st' h =
    elim (try_claim→ sum256 new_id st server job_id e now expires_at r st' h) [
      | inl skip ↦ inl skip
      | inr (config, s, j, source, a, b, c, d, h1) ↦
          elim (claim_checked→ sum256 new_id st server config s j source now expires_at r st' h1) [
            | inl skip ↦ inl skip
            | inr (free, may, h2) ↦
                elim (claim_locked→ sum256 new_id st config s j source now expires_at r st' h2) [
                  | inl skip ↦ inl skip
                  | inr (p, w, is, same, planned, written) ↦ inr (
                    w.0,
                    is,
                    record {
                      config = config;
                      slot = s;
                      job = j;
                      source = source;
                      plan = p;
                      config_found = a;
                      slot_found = b;
                      job_found = c;
                      source_found = d;
                      free = free;
                      claimable = may;
                      planned = planned;
                      written = written ∙ ap (λ x. ok (w.0, x)) (sym same);
                    },
                  )
                ]
          ]
    ]

pub IsGranted-Moves :
    (sum256 : Bytes → Bytes) (new_id : List Attempt → ℕ) (st : Store) (server : Bytes) (job_id : ℕ)
    (e : Bytes) (now expires_at : ℕ) (lease : ClaimedLease) (st' : Store)
    → IsGranted sum256 new_id st server job_id e now expires_at lease st'
    → IsFresh new_id
    → Moves st st'
IsGranted-Moves sum256 new_id st server job_id e now expires_at lease st' g fresh =
    write_claim-Moves sum256 st (new_id st.attempts) g.plan g.slot g.job g.source now expires_at
      lease st' g.written
      (ground (
        arith,
        g.slot_found,
        find_row-test (λ (x : Slot). bytes_eq x.environment_id e) st.slots g.slot g.slot_found,
      ))
      (ground (arith, g.free)) (fresh st.attempts)

pub try_claim-Moves :
    (sum256 : Bytes → Bytes) (new_id : List Attempt → ℕ) (st : Store) (server : Bytes) (job_id : ℕ)
    (e : Bytes) (now expires_at : ℕ) (r : Option ClaimedLease) (st' : Store)
    → try_claim sum256 new_id st server job_id e now expires_at ≡ ok (r, st')
    → IsFresh new_id
    → Moves st st'
try_claim-Moves sum256 new_id st server job_id e now expires_at r st' h fresh =
    elim (try_claim-cases sum256 new_id st server job_id e now expires_at r st' h) [
      | inl (_, same) ↦ rw same stays
      | inr (lease, _, g) ↦
          IsGranted-Moves sum256 new_id st server job_id e now expires_at lease st' g fresh
    ]

occupancy-created :
    (e : Bytes) (now : ℕ) (xs : List Slot)
    → occupancy (new_slot e now ∷ xs) ≡ set_occupancy e 0 none (occupancy xs)
unfolding occupancy find_row
occupancy-created e now xs = fun_ext λ e'. ground arith

occupancy-missing :
    (e : Bytes) (xs : List Slot)
    → exists_row (λ s. bytes_eq s.environment_id e) xs ≡ false
    → occupancy xs e ≡ none
unfolding occupancy find_row exists_row
occupancy-missing e [] h = refl
occupancy-missing e (x ∷ xs) h = ground (arith, occupancy-missing e xs)

pub ensure_slot-Moves : (e : Bytes) (now : ℕ) (st : Store) → Moves st (ensure_slot e now st)
unfolding ensure_slot
ensure_slot-Moves e now st =
    elim (Bool-cases (exists_row (λ s. bytes_eq s.environment_id e) st.slots)) [
      | inl there ↦ rw there stays
      | inr missing ↦
          rw missing (
            rw (occupancy-created e now st.slots)
              (creates e (occupancy-missing e st.slots missing)))
    ]
