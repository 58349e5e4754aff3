-- ===== src/Lease/LateReports.antt =====
-- The evidence that a report of an activation leaves once its operation is blocked or resolved, and the
-- block that a fresh transaction records: internal/store/postgres/activation_late_report.go and
-- `recordBlockInFreshTransaction` of agent_lease_repository.go.
use auto_deploy.Base.{
  ℕ, Bool, true, false, not, ◌&&◌, ◌||◌, [], ◌∷◌, List, Option, none, some, ◌==◌, if◌then◌else◌,
  Bytes, bytes_eq, Result, ok, err,
}
use auto_deploy.Base.Table.{find_row, update_rows, exists_row}
use auto_deploy.Lease.State.{
  Store, Attempt, Slot, Operation, switch_authorized, reconciliation_required, op_succeeded,
  JobEvent, EventType, reconciled, activation_late_report, Error, stale, integrity_conflict,
  block_unrecorded, late_report_recorded, not_updated, find_slot, append_job_event, ◌>>=◌, ◌>>◌,
  guard, or_fail,
}
use auto_deploy.Lease.Held.{Held, is_leased, is_current}
use auto_deploy.Lease.Activation.{is_activate, block_activation_for_reconciliation}
use auto_deploy.Lease.Activating.{is_activation_of}
use auto_deploy.Lease.Evidence.{
  ActivationReport, is_original_block_replay, late_report_fingerprint, late_body,
  append_late_evidence, appended,
}

-- The error that is returned, if any, and the store that is committed.
abbrev pub Reported : Type 0
Reported = Option Error × Store

unfoldable pub leased_occupant : Attempt → Slot → ℕ → ℕ → Bool
leased_occupant a s fence attempt_id =
    is_leased a.state && s.fence == fence && is_current s.current_attempt_id attempt_id

abbrev pub is_blocked_operation : ℕ → Operation → Bool
is_blocked_operation operation_id o =
    o.id == operation_id
    && is_activate o.kind
    && elim (o.state) [ reconciliation_required ↦ true | _ ↦ false ]

abbrev pub set_summary : Bytes → Operation → Operation
set_summary summary o = record o { outcome_summary = summary }

-- The events of an attempt since the latest `reconciled` one: whether there is one, and whether a late
-- report follows it. The latest event comes first.
abbrev pub is_late_report : EventType → Bool
is_late_report activation_late_report = true
is_late_report _ = false

abbrev pub is_reconciled : EventType → Bool
is_reconciled reconciled = true
is_reconciled _ = false

abbrev pub is_attempt : Option ℕ → ℕ → Bool
is_attempt none i = false
is_attempt (some j) i = j == i

abbrev pub is_event_of : ℕ → ℕ → (EventType → Bool) → JobEvent → Bool
is_event_of job_id attempt_id test e =
    e.job_id == job_id && is_attempt e.attempt_id attempt_id && test e.event_type

unfoldable pub is_declared : ℕ → ℕ → List JobEvent → Bool
unfolding exists_row
is_declared job_id attempt_id events =
    exists_row (is_event_of job_id attempt_id is_reconciled) events

unfoldable pub is_traced : ℕ → ℕ → List JobEvent → Bool
is_traced job_id attempt_id [] = false
is_traced job_id attempt_id (e ∷ es) =
    if is_event_of job_id attempt_id is_reconciled e
    then false
    else if is_event_of job_id attempt_id is_late_report e
    then is_declared job_id attempt_id es
    else is_traced job_id attempt_id es

unfoldable pub trace_declared_contradiction : Store → ℕ → ℕ → Reported
trace_declared_contradiction st job_id attempt_id =
    if not (is_declared job_id attempt_id st.events) || is_traced job_id attempt_id st.events
    then (some integrity_conflict, st)
    else (
      some integrity_conflict,
      append_job_event job_id (some attempt_id) activation_late_report st,
    )

-- The outcomes of a block in a fresh transaction.
pub data BlockOutcome : Type 0 where
  recorded noop_succeeded noop_other late_recorded block_stale : BlockOutcome

-- How the commit goes: a deferred trigger may refuse it. The block is then recorded on the store that
-- the fresh transaction finds, whose own commit may fail.
pub data Commit : Type 0 where
  committed : Commit
  refused : Store → Bool → Commit

module _ (sum256 clean : Bytes → Bytes) where
  -- Whether the evidence was appended, and the store.
  unfoldable pub write_late_evidence :
      Store → ℕ → ℕ → ℕ → Bytes → ActivationReport → Result Error (Bool × Store)
  write_late_evidence st job_id attempt_id operation_id existing r =
      let (updated, outcome) =
        append_late_evidence clean existing (late_report_fingerprint sum256 r) (late_body r)
          r.succeeded in
      elim outcome [
        | appended ↦ do
          guard (exists_row (is_blocked_operation operation_id) st.operations) not_updated
          ok (
            true,
            append_job_event job_id (some attempt_id) activation_late_report (record st {
              operations =
                  update_rows (is_blocked_operation operation_id) (set_summary updated)
                    st.operations;
            }),
          )
        | _ ↦ ok (false, st)
      ]

  unfoldable pub record_late_report : Store → Held → ℕ → ℕ → Operation → ActivationReport → Reported
  record_late_report st h attempt_id fence o r =
      if not (leased_occupant h.attempt h.slot fence attempt_id)
      then (some stale, st)
      else elim (write_late_evidence st h.attempt.job_id attempt_id o.id o.outcome_summary r) [
        | err e ↦ (some e, st)
        | ok (done, st') ↦ (some late_report_recorded, st')
      ]

  abbrev pub finish : Bool → BlockOutcome × Store → Result Error (BlockOutcome × Store)
  finish true r = ok r
  finish false r = err block_unrecorded

  abbrev unrecorded : Result Error Store → Result Error Store
  unrecorded (ok st) = ok st
  unrecorded (err e) = err block_unrecorded

  -- The fresh transaction, after its locks. `commits` is whether its commit succeeds.
  unfoldable pub record_block_locked :
      Store
      → Attempt
      → Slot
      → Operation
      → ℕ
      → ℕ
      → Bytes
      → ActivationReport
      → ℕ
      → Bool
      → Result Error (BlockOutcome × Store)
  record_block_locked st a s o attempt_id fence evidence r now commits = elim (o.state) [
    | op_succeeded ↦ ok (noop_succeeded, st)
    | reconciliation_required ↦
        if not r.succeeded && is_original_block_replay o.outcome_summary r.failure_summary
        then ok (recorded, st)
        else if not (leased_occupant a s fence attempt_id)
        then ok (block_stale, st)
        else elim (write_late_evidence st a.job_id attempt_id o.id o.outcome_summary r) [
          | err e ↦ err block_unrecorded
          | ok (true, st') ↦ finish commits (late_recorded, st')
          | ok (false, st') ↦ ok (late_recorded, st)
        ]
    | switch_authorized ↦
        if not (leased_occupant a s fence attempt_id)
        then ok (noop_other, st)
        else elim (block_activation_for_reconciliation st a.job_id attempt_id o.id a.environment_id
            evidence now) [ err e ↦ err block_unrecorded | ok st' ↦ finish commits (recorded, st') ]
    | _ ↦ ok (noop_other, st)
  ]

  unfoldable pub record_block_in_fresh_transaction :
      Store
      → Bytes
      → ℕ
      → ℕ
      → ℕ
      → Bytes
      → ActivationReport
      → ℕ
      → Bool
      → Result Error (BlockOutcome × Store)
  record_block_in_fresh_transaction st server attempt_id fence operation_id evidence r now commits =
      do
        a ←
            or_fail (find_row (λ x. x.id == attempt_id && bytes_eq x.server_id server) st.attempts)
              block_unrecorded
        s ← or_fail (find_slot a.environment_id st) block_unrecorded
        o ←
            or_fail
              (find_row (λ x. x.id == operation_id && is_activation_of attempt_id fence x)
                st.operations)
              block_unrecorded
        record_block_locked st a s o attempt_id fence evidence r now commits
