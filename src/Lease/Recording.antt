-- ===== src/Lease/Recording.antt =====
-- The evidence of a late report, and the block in a fresh transaction, as moves of the contract of
-- fences; the finalization under the primary key of the slots.
use auto_deploy.Base.{
  ℕ, ◌≡◌, refl, Bool, true, false, ◌&&◌, inl, inr, List, [], ◌∷◌, Option, some, ◌==◌, Bytes,
  bytes_eq, arith, Bool-cases, Option-cases, Result-cases, ok,
}
use auto_deploy.Base.Table.{find_row, exists_row}
use auto_deploy.Lease.State.{
  Store, Attempt, Slot, Operation, OperationState, switch_authorized, reconciliation_required,
  op_succeeded, op_failed, started, Error, find_attempt, find_slot, append_job_event,
}
use auto_deploy.Lease.Held.{Held, is_leased}
use auto_deploy.Lease.Activation.{block_activation_for_reconciliation, blocked_store}
use auto_deploy.Lease.Finalizing.{FinalizeInput, finalize_activation_succeeded, is_held_slot}
use auto_deploy.Lease.Evidence.{ActivationReport}
use auto_deploy.Lease.LateReports.{
  BlockOutcome, leased_occupant, trace_declared_contradiction, write_late_evidence,
  record_late_report, record_block_locked, record_block_in_fresh_transaction,
}
use auto_deploy.Lease.Activating.{is_activation_of}
use auto_deploy.Lease.Views.{Moves, Fenced}
use auto_deploy.Lease.Keeping.{SameRows, Moves-SameRows}
use auto_deploy.Lease.Expiries.{blocked-Moves}
use auto_deploy.Lease.Finalized.{finalize-Moves, finalize-held}

-- The primary key of the slots: no two rows have one environment.
abbrev pub IsKeyed : List Slot → Type 0
IsKeyed [] = Unit
IsKeyed (s ∷ ss) =
    (exists_row (λ x. bytes_eq x.environment_id s.environment_id) ss ≡ false) × IsKeyed ss

exists-imp :
    (test other : Slot → Bool) (ss : List Slot)
    → ((x : Slot) → test x ≡ true → other x ≡ true)
    → exists_row test ss ≡ true
    → exists_row other ss ≡ true
unfolding exists_row
exists-imp test other [] imp h = cc
exists-imp test other (s ∷ ss) imp h = ground (arith, imp s, exists-imp test other ss imp)

-- The row that an update finds is the one that the query of the environment returns.
pub keyed-found :
    (e : Bytes) (test : Slot → Bool) (ss : List Slot) (s : Slot)
    → IsKeyed ss
    → ((x : Slot) → test x ≡ true → bytes_eq x.environment_id e ≡ true)
    → exists_row test ss ≡ true
    → find_row (λ x. bytes_eq x.environment_id e) ss ≡ some s
    → test s ≡ true
unfolding exists_row find_row
keyed-found e test [] s key only h found = cc
keyed-found e test (x ∷ ss) s (alone, key) only h found = elim (Bool-cases (test x)) [
  | inl hit ↦ ground (arith, only x hit)
  | inr miss ↦ elim (Bool-cases (bytes_eq x.environment_id e)) [
    | inr other ↦ keyed-found e test ss s key only (ground arith) (ground arith)
    | inl same ↦ absurd (
        ground (
          arith,
          exists-imp test (λ y. bytes_eq y.environment_id x.environment_id) ss
              (λ y t. ground (arith, only y t)),
        ))
  ]
]

pub finalized-Moves :
    (i : FinalizeInput) (st st' : Store) (a : Attempt) (s : Slot)
    → finalize_activation_succeeded i st ≡ ok st'
    → Fenced st
    → IsKeyed st.slots
    → find_attempt i.attempt_id st ≡ some a
    → is_leased a.state ≡ true
    → a.environment_id ≡ i.environment_id
    → find_slot i.environment_id st ≡ some s
    → Moves st st'
finalized-Moves i st st' a s h v key found leased there slot =
    let held =
      keyed-found i.environment_id (is_held_slot i) st.slots s key (λ x t. ground arith)
        (finalize-held i st st' h) slot in
    finalize-Moves i st st' a s h v found leased there slot (ground arith)

pub trace-SameRows :
    (st : Store) (job_id attempt_id : ℕ) (e : Option Error) (st' : Store)
    → trace_declared_contradiction st job_id attempt_id ≡ (e, st')
    → SameRows st st'
unfolding trace_declared_contradiction append_job_event
trace-SameRows st job_id attempt_id e st' h = ground arith

pub block-Moves :
    (st st' : Store) (job_id attempt_id operation_id : ℕ) (e summary : Bytes) (now : ℕ)
    → block_activation_for_reconciliation st job_id attempt_id operation_id e summary now ≡ ok st'
    → Moves st st'
unfolding block_activation_for_reconciliation
block-Moves st st' job_id attempt_id operation_id e summary now h =
    let same : st' ≡ blocked_store st job_id attempt_id operation_id e summary now = ground arith in
    rw same (blocked-Moves st job_id attempt_id operation_id e summary now)

module _ (sum256 clean : Bytes → Bytes) where
  write_late-SameRows :
      (st : Store) (job_id attempt_id operation_id : ℕ) (existing : Bytes) (r : ActivationReport)
      (done : Bool) (st' : Store)
      → write_late_evidence sum256 clean st job_id attempt_id operation_id existing r
        ≡ ok (done, st')
      → SameRows st st'
  unfolding write_late_evidence append_job_event
  write_late-SameRows st job_id attempt_id operation_id existing r done st' h = ground arith

  pub late-SameRows :
      (st : Store) (h : Held) (attempt_id fence : ℕ) (o : Operation) (r : ActivationReport)
      (e : Option Error) (st' : Store)
      → record_late_report sum256 clean st h attempt_id fence o r ≡ (e, st')
      → SameRows st st'
  unfolding record_late_report
  late-SameRows st h attempt_id fence o r e st' eq =
      elim (Result-cases (
        write_late_evidence sum256 clean st h.attempt.job_id attempt_id o.id o.outcome_summary r)) [
          | inr (x, w) ↦ ground arith
          | inl ((done, late), w) ↦ ground (
            arith,
            write_late-SameRows st h.attempt.job_id attempt_id o.id o.outcome_summary r done late w,
          )
        ]

  record_block_locked-Moves :
      (state : OperationState) (st : Store) (a : Attempt) (s : Slot) (o : Operation)
      (attempt_id fence : ℕ) (evidence : Bytes) (r : ActivationReport) (now : ℕ) (commits : Bool)
      (outcome : BlockOutcome) (st' : Store)
      → o.state ≡ state
      → record_block_locked sum256 clean st a s o attempt_id fence evidence r now commits
        ≡ ok (outcome, st')
      → Moves st st'
  unfolding record_block_locked
  record_block_locked-Moves op_succeeded st a s o i n evidence r now commits outcome st' e h =
      Moves-SameRows st st' (ground arith)
  record_block_locked-Moves op_failed st a s o i n evidence r now commits outcome st' e h =
      Moves-SameRows st st' (ground arith)
  record_block_locked-Moves started st a s o i n evidence r now commits outcome st' e h =
      Moves-SameRows st st' (ground arith)
  record_block_locked-Moves reconciliation_required st a s o i n evidence r now commits outcome st'
        e h =
      elim (Result-cases
        (write_late_evidence sum256 clean st a.job_id i o.id o.outcome_summary r)) [
          | inr (x, w) ↦ Moves-SameRows st st' (ground arith)
          | inl ((done, late), w) ↦ Moves-SameRows st st' (
              ground
                (arith, write_late-SameRows st a.job_id i o.id o.outcome_summary r done late w))
        ]
  record_block_locked-Moves switch_authorized st a s o i n evidence r now commits outcome st' e h =
      elim (Result-cases
        (block_activation_for_reconciliation st a.job_id i o.id a.environment_id evidence now)) [
          | inr (x, b) ↦ Moves-SameRows st st' (ground arith)
          | inl (blocked, b) ↦ elim (Bool-cases (leased_occupant a s n i)) [
            | inr gone ↦ Moves-SameRows st st' (ground arith)
            | inl here ↦
                let same : st' ≡ blocked = ground arith in
                rw same (block-Moves st blocked a.job_id i o.id a.environment_id evidence now b)
          ]
        ]

  record_block→locked :
      (st : Store) (server : Bytes) (attempt_id fence operation_id : ℕ) (evidence : Bytes)
      (r : ActivationReport) (now : ℕ) (commits : Bool) (outcome : BlockOutcome × Store)
      → record_block_in_fresh_transaction sum256 clean st server attempt_id fence operation_id
          evidence r now commits
        ≡ ok outcome
      → (a : Attempt) × (s : Slot) × (o : Operation) × (record_block_locked sum256 clean st a s o
            attempt_id fence evidence r now commits
          ≡ ok outcome)
  unfolding record_block_in_fresh_transaction
  record_block→locked st server attempt_id fence operation_id evidence r now commits outcome h =
      elim (Option-cases
        (find_row (λ x. x.id == attempt_id && bytes_eq x.server_id server) st.attempts)) [
          | inl n ↦ absurd (ground arith)
          | inr (a, p) ↦ elim (Option-cases (find_slot a.environment_id st)) [
            | inl n ↦ absurd (ground arith)
            | inr (s, q) ↦
                elim (Option-cases (
                  find_row (λ x. x.id == operation_id && is_activation_of attempt_id fence x)
                    st.operations)) [
                      | inl n ↦ absurd (ground arith)
                      | inr (o, t) ↦ (a, s, o, ground arith)
                    ]
          ]
        ]

  -- The block of a fresh transaction.
  pub record_block-Moves :
      (st : Store) (server : Bytes) (attempt_id fence operation_id : ℕ) (evidence : Bytes)
      (r : ActivationReport) (now : ℕ) (commits : Bool) (o : BlockOutcome) (st' : Store)
      → record_block_in_fresh_transaction sum256 clean st server attempt_id fence operation_id
          evidence r now commits
        ≡ ok (o, st')
      → Moves st st'
  record_block-Moves st server attempt_id fence operation_id evidence r now commits o st' h =
      let (a, s, op, locked) =
        record_block→locked st server attempt_id fence operation_id evidence r now commits (o, st')
          h in
      record_block_locked-Moves op.state st a s op attempt_id fence evidence r now commits o st'
        refl locked
