-- ===== src/Lease/Reported.antt =====
-- A report of an activation as a move of the contract of fences.
use mathlib.Core.Path.{subst}
use auto_deploy.Base.{
  ℕ, ◌≡◌, refl, Bool, true, not, ◌||◌, inl, inr, ◌++◌, Option, none, if◌then◌else◌, some, ◌==◌,
  Bytes, arith, Bool-cases, Option-cases, Result-cases, ok,
}
use auto_deploy.Lease.State.{
  Store, Attempt, Slot, Operation, OperationState, switch_authorized, reconciliation_required,
  op_succeeded, op_failed, started, Error, find_attempt, find_slot, find_head, append_job_event,
}
use auto_deploy.Lease.State
use auto_deploy.Lease.Held.{IsHeld, lock_held, lock_held-IsHeld, is_leased}
use auto_deploy.Lease.Activation.{block_activation_for_reconciliation}
use auto_deploy.Lease.Finalizing.{finalize_activation_succeeded, same_optional}
use auto_deploy.Lease.Evidence.{sanitize_outcome_summary, ActivationReport}
use auto_deploy.Lease.LateReports.{Reported, BlockOutcome, committed, leased_occupant}
use auto_deploy.Lease.Reporting.{
  aborted_answer, failure_answer, or_else, late_outcome_error, refuse_ambiguous, mismatch_text,
  missing_text, moved_text, classified, Located, locate, block_and_commit, commit_or_block,
  finalize_input, finalize_or_block, report_success, report_open, report_located, report_of,
  report_activation_result,
}
use auto_deploy.Base.Strings.{bytes}
use auto_deploy.Lease.State.{RouteHead}
use auto_deploy.Lease.Views.{Moves, Fenced}
use auto_deploy.Lease.Keeping.{Moves-SameRows}
use auto_deploy.Lease.Recording.{
  IsKeyed, finalized-Moves, trace-SameRows, block-Moves, late-SameRows,
}

occupant-leased :
    (a : Attempt) (s : Slot) (fence attempt_id : ℕ)
    → leased_occupant a s fence attempt_id ≡ true
    → is_leased a.state ≡ true
unfolding leased_occupant
occupant-leased a s fence attempt_id h = ground arith

module _ (sum256 clean : Bytes → Bytes) (error_text : Error → Bytes) where
  block_and_commit-Moves :
      (st : Store) (l : Located) (server : Bytes) (attempt_id fence : ℕ) (evidence : Bytes)
      (r : ActivationReport) (now : ℕ) (answer : Option Error) (late : BlockOutcome → Option Error)
      (e : Option Error) (st' : Store)
      → block_and_commit sum256 clean error_text committed st l server attempt_id fence evidence r
          now answer late
        ≡ (e, st')
      → Moves st st'
  unfolding block_and_commit commit_or_block
  block_and_commit-Moves st l server attempt_id fence evidence r now answer late e st' h =
      elim (Result-cases (
        block_activation_for_reconciliation st l.held.attempt.job_id attempt_id l.operation.id
          l.held.attempt.environment_id evidence now)) [
            | inr (x, b) ↦ Moves-SameRows st st' (ground arith)
            | inl (blocked, b) ↦
                let same : st' ≡ blocked = ground arith in
                rw same (
                  block-Moves st blocked l.held.attempt.job_id attempt_id l.operation.id
                    l.held.attempt.environment_id evidence now b)
          ]

  -- The attempt and the slot of what is located, for a store that keeps the discipline.
  record IsLocated (st : Store) (l : Located) (attempt_id : ℕ) : Type 0 where
    attempt_found : find_attempt attempt_id st ≡ some l.held.attempt
    slot_found : find_slot l.held.attempt.environment_id st ≡ some l.held.slot
    leased : is_leased l.held.attempt.state ≡ true

  finalize_or_block-Moves :
      (st : Store) (l : Located) (server : Bytes) (attempt_id fence : ℕ) (r : ActivationReport)
      (now block_now : ℕ) (e : Option Error) (st' : Store)
      → finalize_or_block sum256 clean error_text committed st l server attempt_id fence r now
          block_now
        ≡ (e, st')
      → IsLocated st l attempt_id
      → Fenced st
      → IsKeyed st.slots
      → Moves st st'
  unfolding finalize_or_block commit_or_block
  finalize_or_block-Moves st l server attempt_id fence r now block_now e st' h w v key =
      let i = finalize_input l attempt_id r.observed_route_digest now in
      elim (Result-cases (finalize_activation_succeeded i st)) [
        | inl (done, f) ↦
            let same : st' ≡ done = ground arith in
            rw same (
              finalized-Moves i st done l.held.attempt l.held.slot f v key w.attempt_found w.leased
                refl w.slot_found)
        | inr (cause, f) ↦
            block_and_commit-Moves st l server attempt_id fence
              (sanitize_outcome_summary clean
                (bytes "activation finalize failed: " ++ error_text cause))
              r block_now (some cause) (λ o. aborted_answer o cause) e st' (ground arith)
      ]

  refuse_ambiguous-Moves :
      (st : Store) (l : Located) (server : Bytes) (attempt_id fence : ℕ) (r : ActivationReport)
      (now : ℕ) (evidence : Bytes) (refusal : Error) (e : Option Error) (st' : Store)
      → refuse_ambiguous sum256 clean error_text committed st l server attempt_id fence r now
          evidence refusal
        ≡ (e, st')
      → Moves st st'
  refuse_ambiguous-Moves st l server attempt_id fence r now evidence refusal e st' h =
      block_and_commit-Moves st l server attempt_id fence (sanitize_outcome_summary clean evidence)
        r now (some refusal) (λ o. some (or_else (late_outcome_error o) refusal)) e st' h

  report_success-Moves :
      (st : Store) (l : Located) (server : Bytes) (attempt_id fence : ℕ) (r : ActivationReport)
      (now block_now : ℕ) (e : Option Error) (st' : Store)
      → report_success sum256 clean error_text committed st l server attempt_id fence r now
          block_now
        ≡ (e, st')
      → IsLocated st l attempt_id
      → Fenced st
      → IsKeyed st.slots
      → Moves st st'
  unfolding report_success
  report_success-Moves st l server attempt_id fence r now block_now e st' h w v key =
      let o = l.operation in
      elim (Bool-cases r.digest_matches) [
        | inr differs ↦
            refuse_ambiguous-Moves st l server attempt_id fence r block_now
              (mismatch_text sum256 clean error_text o r.observed_route_digest)
              State.integrity_conflict e st' (ground arith)
        | inl matches ↦ elim (Option-cases (find_head l.held.attempt.environment_id st)) [
          | inl missing ↦
              refuse_ambiguous-Moves st l server attempt_id fence r block_now
                (missing_text sum256 clean error_text l.held.attempt.environment_id)
                State.corrupt_state e st' (ground arith)
          | inr (head, found) ↦
              elim (Bool-cases (
                not (same_optional head.active_release_id o.expected_active_release_id)
                || not (head.route_revision == o.expected_route_revision))) [
                  | inl moved ↦
                      refuse_ambiguous-Moves st l server attempt_id fence r block_now
                        (moved_text sum256 clean error_text o head) State.route_moved e st'
                        (ground arith)
                  | inr there ↦
                      finalize_or_block-Moves st l server attempt_id fence r now block_now e st'
                        (ground arith) w v key
                ]
        ]
      ]

  classified-store :
      (r : Reported) (e : Option Error) (st' : Store)
      → classified sum256 clean error_text r ≡ (e, st')
      → r.1 ≡ st'
  classified-store (none, st) e st' h = cc h
  classified-store (some x, st) e st' h = cc h

  answer-Moves :
      (st : Store) (l : Located) (server : Bytes) (attempt_id fence : ℕ) (r : ActivationReport)
      (now block_now : ℕ) (e : Option Error) (st' : Store)
      → (if not r.succeeded
          then block_and_commit sum256 clean error_text committed st l server attempt_id fence
              r.failure_summary r block_now none failure_answer
          else report_success sum256 clean error_text committed st l server attempt_id fence r now
              block_now)
        ≡ (e, st')
      → IsLocated st l attempt_id
      → Fenced st
      → IsKeyed st.slots
      → Moves st st'
  answer-Moves st l server attempt_id fence r now block_now e st' h w v key =
      elim (Bool-cases r.succeeded) [
        | inl success ↦
            report_success-Moves st l server attempt_id fence r now block_now e st' (ground arith) w
              v key
        | inr failure ↦
            block_and_commit-Moves st l server attempt_id fence r.failure_summary r block_now none
              failure_answer e st' (ground arith)
      ]

  report_open-Moves :
      (st : Store) (l : Located) (server presented : Bytes) (attempt_id fence : ℕ)
      (r : ActivationReport) (now block_now : ℕ) (e : Option Error) (st' : Store)
      → report_open sum256 clean error_text committed st l server attempt_id fence r now block_now
        ≡ (e, st')
      → IsHeld st server presented attempt_id l.held
      → Fenced st
      → IsKeyed st.slots
      → Moves st st'
  unfolding report_open
  report_open-Moves st l server presented attempt_id fence r now block_now e st' h w v key =
      let answer : Reported =
        if not r.succeeded
        then block_and_commit sum256 clean error_text committed st l server attempt_id fence
            r.failure_summary r block_now none failure_answer
        else report_success sum256 clean error_text committed st l server attempt_id fence r now
            block_now in
      elim (Bool-cases (leased_occupant l.held.attempt l.held.slot fence attempt_id)) [
        | inr gone ↦ Moves-SameRows st st' (ground arith)
        | inl here ↦ subst (Moves st) (classified-store answer e st' (ground arith)) (
            answer-Moves st l server attempt_id fence r now block_now answer.0 answer.1 refl
              (record {
                attempt_found = w.attempt_found;
                slot_found = w.slot_found;
                leased = occupant-leased l.held.attempt l.held.slot fence attempt_id here;
              })
              v key)
      ]

  report_located-Moves :
      (state : OperationState) (st : Store) (l : Located) (server presented : Bytes)
      (attempt_id fence : ℕ) (r : ActivationReport) (now block_now : ℕ) (e : Option Error)
      (st' : Store)
      → l.operation.state ≡ state
      → report_located sum256 clean error_text committed st l server attempt_id fence r now
          block_now
        ≡ (e, st')
      → IsHeld st server presented attempt_id l.held
      → Fenced st
      → IsKeyed st.slots
      → Moves st st'
  unfolding report_located
  report_located-Moves op_succeeded st l server presented i fence r now block_now e st' at h w v
        key =
      Moves-SameRows st st' (ground (arith, trace-SameRows st l.held.attempt.job_id i e st'))
  report_located-Moves op_failed st l server presented i fence r now block_now e st' at h w v key =
      Moves-SameRows st st' (ground (arith, trace-SameRows st l.held.attempt.job_id i e st'))
  report_located-Moves started st l server presented i fence r now block_now e st' at h w v key =
      Moves-SameRows st st' (ground arith)
  report_located-Moves reconciliation_required st l server presented i fence r now block_now e st'
        at h w v key =
      Moves-SameRows st st'
        (ground (arith, late-SameRows sum256 clean st l.held i fence l.operation r e st'))
  report_located-Moves switch_authorized st l server presented i fence r now block_now e st' at h w
        v key =
      report_open-Moves st l server presented i fence r now block_now e st' (ground arith) w v key

  locate→held :
      (st : Store) (server presented : Bytes) (attempt_id fence : ℕ) (operation_id : Bytes)
      (l : Located)
      → locate st server presented attempt_id fence operation_id ≡ ok l
      → lock_held st server presented attempt_id ≡ ok l.held
  unfolding locate
  locate→held st server presented attempt_id fence operation_id l h = ground arith

  -- A report of an activation that commits is a move of the contract, also where it is refused.
  pub report-Moves :
      (st : Store) (server presented : Bytes) (attempt_id fence : ℕ) (operation_id : Bytes)
      (succeeded : Bool) (observed failure_summary : Bytes) (now block_now : ℕ) (e : Option Error)
      (st' : Store)
      → report_activation_result sum256 clean error_text committed st server presented attempt_id
          fence operation_id succeeded observed failure_summary now block_now
        ≡ (e, st')
      → Fenced st
      → IsKeyed st.slots
      → Moves st st'
  unfolding report_activation_result
  report-Moves st server presented attempt_id fence operation_id succeeded observed failure_summary
        now block_now e st' h v key =
      elim (Result-cases (locate st server presented attempt_id fence operation_id)) [
        | inr (x, p) ↦ Moves-SameRows st st' (ground arith)
        | inl (l, p) ↦
            report_located-Moves l.operation.state st l server presented attempt_id fence
              (report_of sum256 clean error_text l succeeded observed failure_summary) now block_now
              e st' refl (ground arith)
              (lock_held-IsHeld st server presented attempt_id l.held
                (locate→held st server presented attempt_id fence operation_id l p))
              v key
      ]
