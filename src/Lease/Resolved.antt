-- ===== src/Lease/Resolved.antt =====
-- A declared resolution as a move of the contract of fences.
use auto_deploy.Base.{
  ℕ, ◌≡◌, refl, ap, ◌∙◌, Bool, true, ◌⊎◌, inl, inr, ◌&&◌, none, some, ◌==◌, Bytes, bytes_eq, arith,
  Bool-cases, Option-cases, Result-cases, ok,
}
use auto_deploy.Base.Table.{find_row, update_rows, exists_row}
use auto_deploy.Deployment
use auto_deploy.Queue
use auto_deploy.Lease.State.{
  Store, Attempt, Slot, Job, Operation, reconciled, find_attempt, find_slot, find_job,
  append_job_event,
}
use auto_deploy.Lease.Held.{is_leased, is_current}
use auto_deploy.Lease.Activation.{is_unresolved}
use auto_deploy.Lease.Closing.{database_time, close_attempt}
use auto_deploy.Lease.Deployments.{transition_deployment}
use auto_deploy.Lease.Reconciliation.{cleared}
use auto_deploy.Lease.Views.{
  Fenced, Moves, authority, occupancy, authority-ended, occupancy-vacated,
}
use auto_deploy.Lease.Keeping.{Moves-SameRows, Closes-Moves}
use auto_deploy.Lease.Finalized.{leased-occupies}
use auto_deploy.Lease.Frames.{transition-OnlyDeployments}
use auto_deploy.Lease.Resolving.{is_resolvable, fail_operation}
use auto_deploy.Lease.Expiries.{cleared-Moves}
use auto_deploy.Lease.State.{find_head}
use auto_deploy.Lease.Resolving.{head_flag, declared_summary, is_reconciliation_required}
use auto_deploy.Lease.Recording.{IsKeyed, keyed-found, finalized-Moves}
use auto_deploy.Lease.Resolving.{
  Outcome, is_activated, DeclaredResolution, is_holder, free_flagged, clear_head, fail_rows,
  resolve_not_activated, declared_input, resolve_writes, resolve_operation, resolve_declared,
}
use auto_deploy.Lease.Declaring.{
  resolve_activation, reconcile_activation, confirm_reconciled, operator_resolution,
  agent_resolution,
}

abbrev pub is_unresolved_in : Bytes → Operation → Bool
is_unresolved_in e o = bytes_eq o.environment_id e && is_unresolved o

-- What a declared failure writes.
pub not_activated_lem :
    (job_id i operation_id : ℕ) (e deployment_id : Bytes) (flagged : Bool) (summary : Bytes)
    (now : ℕ) (st st' : Store)
    → resolve_not_activated job_id i operation_id e deployment_id flagged summary now st ≡ ok st'
    → (st'.attempts
        ≡ update_rows
            (λ a. a.id == i && is_leased a.state)
            (close_attempt Queue.expired now)
            st.attempts)
      × (st'.slots ≡ update_rows (is_holder e i) (free_flagged now) st.slots)
      × (st'.operations
          ≡ update_rows (is_resolvable operation_id) (fail_operation now summary) st.operations)
      × (exists_row (is_holder e i) st.slots ≡ true)
unfolding resolve_not_activated clear_head fail_rows append_job_event
not_activated_lem job_id i operation_id e deployment_id flagged summary now st st' h =
    elim (Result-cases
      (transition_deployment st deployment_id Deployment.failed (database_time now))) [
        | inr (x, failed) ↦ absurd (ground arith)
        | inl (moved, p) ↦
            let (_, _, attempts, slots, operations) =
              transition-OnlyDeployments st deployment_id Deployment.failed (database_time now)
                moved p in
            elim (Bool-cases flagged) [
              | inl set ↦ ground (arith, attempts, slots, operations, set)
              | inr unset ↦ ground (arith, attempts, slots, operations, unset)
            ]
      ]

-- Both outcomes take the attempt out of the slot, under the same fence.
writes-Moves :
    (d : DeclaredResolution) (job : Job) (o : Operation) (now : ℕ) (st st' : Store) (a : Attempt)
    (s : Slot)
    → resolve_writes d job o now st ≡ ok st'
    → Fenced st
    → IsKeyed st.slots
    → find_attempt d.attempt_id st ≡ some a
    → is_leased a.state ≡ true
    → a.environment_id ≡ d.environment_id
    → find_slot d.environment_id st ≡ some s
    → Moves st st'
unfolding resolve_writes
writes-Moves d job o now st st' a s h v key found leased there slot =
    let i = declared_input d job o now in
    elim (Bool-cases (is_activated d.outcome)) [
      | inl switched ↦ finalized-Moves i st st' a s (ground arith) v key found leased there slot
      | inr refused ↦
          let (attempts, slots, operations, held) =
            not_activated_lem d.job_id d.attempt_id o.id d.environment_id job.deployment_id
              (head_flag (find_head d.environment_id st))
              (declared_summary o.outcome_summary d.outcome) now st st' (ground arith) in
          let (occ, fence, current) = leased-occupies i st a s v found leased there slot in
          let hit =
            keyed-found d.environment_id (is_holder d.environment_id d.attempt_id) st.slots s key
              (λ x t. ground arith) held slot in
          Closes-Moves st d.attempt_id a s.fence st'
            (
              ap authority attempts
                  ∙ authority-ended d.attempt_id (close_attempt Queue.expired now) st.attempts a
                      (λ x. refl) found leased,
              ap occupancy slots
                  ∙ occupancy-vacated a.environment_id (is_holder d.environment_id d.attempt_id)
                      (free_flagged now) st.slots s s.fence (λ x. refl)
                      (λ x t. ground (arith, there)) (rw there slot) hit refl,
            )
            occ (ground (arith, fence))
    ]

pub resolve_operation→ :
    (d : DeclaredResolution) (job : Job) (a : Attempt) (o : Operation) (now : ℕ) (st st' : Store)
    → resolve_operation d job a o now st ≡ ok st'
    → (is_leased a.state ≡ true)
      × (a.environment_id ≡ d.environment_id)
      × (is_reconciliation_required o.state ≡ true)
      × ((mid : Store) × (resolve_writes d job o now st ≡ ok mid)
          × (st' ≡ append_job_event d.job_id (some d.attempt_id) reconciled mid))
unfolding resolve_operation
resolve_operation→ d job a o now st st' h = ground arith

event-Moves :
    (st mid : Store) (job_id attempt_id : ℕ)
    → Moves st mid
    → Moves st (append_job_event job_id (some attempt_id) reconciled mid)
unfolding append_job_event
event-Moves st mid job_id attempt_id m = m

pub resolve_declared→ :
    (d : DeclaredResolution) (now : ℕ) (st st' : Store)
    → resolve_declared d now st ≡ ok st'
    → (job : Job) × (a : Attempt) × (find_attempt d.attempt_id st ≡ some a)
      × (((find_row (is_unresolved_in d.environment_id) st.operations ≡ none)
            × (st' ≡ cleared st d.environment_id d.job_id (some d.attempt_id) now))
          ⊎ ((o : Operation) × (find_row (is_unresolved_in d.environment_id) st.operations ≡ some o)
              × (resolve_operation d job a o now st ≡ ok st')))
unfolding resolve_declared
resolve_declared→ d now st st' h = elim (Option-cases (find_job d.job_id st)) [
  | inl n ↦ absurd (ground arith)
  | inr (job, p) ↦ elim (Option-cases (find_attempt d.attempt_id st)) [
    | inl n ↦ absurd (ground arith)
    | inr (a, q) ↦
        elim (Option-cases (find_row (is_unresolved_in d.environment_id) st.operations)) [
          | inl plain ↦ (job, a, q, inl (plain, ground arith))
          | inr (o, r) ↦ (job, a, q, inr (o, r, ground arith))
        ]
  ]
]

resolve-Moves :
    (d : DeclaredResolution) (now : ℕ) (st st' : Store) (s : Slot)
    → resolve_declared d now st ≡ ok st'
    → find_slot d.environment_id st ≡ some s
    → Fenced st
    → IsKeyed st.slots
    → Moves st st'
resolve-Moves d now st st' s h slot v key =
    let (job, a, found, by) = resolve_declared→ d now st st' h in
    elim by [
      | inl (plain, same) ↦
          rw same (cleared-Moves st d.environment_id d.job_id (some d.attempt_id) now)
      | inr (o, unresolved, r) ↦
          let (leased, there, at, (mid, w, same)) = resolve_operation→ d job a o now st st' r in
          rw same (
            event-Moves st mid d.job_id d.attempt_id
              (writes-Moves d job o now st mid a s w v key found leased there slot))
    ]

confirm_reconciled-same :
    (st : Store) (server e : Bytes) (i fence : ℕ) (outcome : Outcome) (digest : Bytes) (st' : Store)
    → confirm_reconciled st server e i fence outcome digest ≡ ok st'
    → st' ≡ st
unfolding confirm_reconciled
confirm_reconciled-same st server e i fence outcome digest st' h = ground arith

resolve_activation→ :
    (st : Store) (locked : Bool) (owner e : Bytes) (outcome : Outcome) (reason : Bytes) (now : ℕ)
    (st' : Store)
    → resolve_activation st locked owner e outcome reason now ≡ ok st'
    → (s : Slot) × (find_slot e st ≡ some s)
      × ((st' ≡ st)
          ⊎ ((job_id : ℕ) × (i : ℕ) × (resolve_declared
                  (operator_resolution e job_id i s outcome)
                  now
                  st
                ≡ ok st')))
unfolding resolve_activation
resolve_activation→ st locked owner e outcome reason now st' h =
    elim (Option-cases (find_slot e st)) [
      | inl n ↦ absurd (ground arith)
      | inr (s, p) ↦ elim (Option-cases s.reconciliation_attempt_id) [
        | inl n ↦ (s, p, inl (ground arith))
        | inr (i, q) ↦ elim (Option-cases (find_attempt i st)) [
          | inl n ↦ absurd (ground arith)
          | inr (a, r) ↦ (s, p, inr (a.job_id, i, ground arith))
        ]
      ]
    ]

reconcile_activation→ :
    (st : Store) (server presented e : Bytes) (i fence : ℕ) (outcome : Outcome) (digest : Bytes)
    (now : ℕ) (st' : Store)
    → reconcile_activation st server presented e i fence outcome digest now ≡ ok st'
    → (s : Slot) × (find_slot e st ≡ some s)
      × ((confirm_reconciled st server e i fence outcome digest ≡ ok st')
          ⊎ ((job_id : ℕ) × (resolve_declared
                  (agent_resolution server e job_id i fence s outcome digest)
                  now
                  st
                ≡ ok st')))
unfolding reconcile_activation
reconcile_activation→ st server presented e i fence outcome digest now st' h =
    elim (Option-cases (find_slot e st)) [
      | inl n ↦ absurd (ground arith)
      | inr (s, p) ↦ elim (Bool-cases (is_current s.reconciliation_attempt_id i)) [
        | inr other ↦ (s, p, inl (ground arith))
        | inl own ↦ elim (Option-cases (find_attempt i st)) [
          | inl n ↦ absurd (ground arith)
          | inr (a, r) ↦ (s, p, inr (a.job_id, ground arith))
        ]
      ]
    ]

pub resolve_activation-Moves :
    (st : Store) (locked : Bool) (owner e : Bytes) (outcome : Outcome) (reason : Bytes) (now : ℕ)
    (st' : Store)
    → resolve_activation st locked owner e outcome reason now ≡ ok st'
    → Fenced st
    → IsKeyed st.slots
    → Moves st st'
resolve_activation-Moves st locked owner e outcome reason now st' h v key =
    let (s, slot, by) = resolve_activation→ st locked owner e outcome reason now st' h in
    elim by [
      | inl same ↦ Moves-SameRows st st' (rw same (refl, refl))
      | inr (job_id, i, r) ↦
          resolve-Moves (operator_resolution e job_id i s outcome) now st st' s r slot v key
    ]

pub reconcile_activation-Moves :
    (st : Store) (server presented e : Bytes) (i fence : ℕ) (outcome : Outcome) (digest : Bytes)
    (now : ℕ) (st' : Store)
    → reconcile_activation st server presented e i fence outcome digest now ≡ ok st'
    → Fenced st
    → IsKeyed st.slots
    → Moves st st'
reconcile_activation-Moves st server presented e i fence outcome digest now st' h v key =
    let (s, slot, by) =
      reconcile_activation→ st server presented e i fence outcome digest now st' h in
    elim by [
      | inl c ↦
          Moves-SameRows st st'
            (rw (confirm_reconciled-same st server e i fence outcome digest st' c) (refl, refl))
      | inr (job_id, r) ↦
          resolve-Moves (agent_resolution server e job_id i fence s outcome digest) now st st' s r
            slot v key
    ]
