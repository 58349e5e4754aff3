-- ===== src/Lease/Agreeing.antt =====
-- The answers of `ReportActivationResult` that are no error, and what they leave.
use auto_deploy.Base.{
  ℕ, ◌≡◌, refl, Bool, true, false, not, ◌||◌, inl, inr, ◌++◌, Option, none, some, ◌==◌, Bytes,
  bytes_eq_refl, arith, Bool-cases, Option-cases, Result-cases, ok,
}
use auto_deploy.Lease.State.{
  Store, Attempt, Slot, Operation, OperationState, switch_authorized, reconciliation_required,
  op_succeeded, op_failed, started, Error, find_attempt, find_slot, find_job, find_head,
  append_job_event,
}
use auto_deploy.Lease.Held.{Held}
use auto_deploy.Lease.Activation.{block_activation_for_reconciliation}
use auto_deploy.Lease.Evidence.{ActivationReport, is_original_block_replay}
use auto_deploy.Lease.LateReports.{Reported, Commit, committed}
use auto_deploy.Lease.Reporting.{Located, report_located, report_of, report_activation_result}
use auto_deploy.Lease.State.{Job, job_succeeded}
use auto_deploy.Lease.Finalizing.{finalize_activation_succeeded}
use auto_deploy.Lease.Finalizing.{same_optional}
use auto_deploy.Lease.LateReports.{
  BlockOutcome, leased_occupant, trace_declared_contradiction, record_late_report,
}
use auto_deploy.Base.Strings.{bytes}
use auto_deploy.Lease.Finalizing.{finalize_activation_succeeded}
use auto_deploy.Lease.Held.{is_leased}
use auto_deploy.Lease.State
use auto_deploy.Lease.Reporting.{
  report_open, report_success, classified, finalize_input, finalize_or_block, refuse_ambiguous,
  block_and_commit, commit_or_block, failure_answer, mismatch_text, missing_text, moved_text,
  or_else, late_outcome_error, aborted_answer,
}
use auto_deploy.Lease.Evidence.{sanitize_outcome_summary}
use auto_deploy.Lease.Locating.{IsLocate, IsLocate-locate, blocked_located, block_of}

is_original_self : (s : Bytes) → is_original_block_replay s s ≡ true
unfolding is_original_block_replay
is_original_self s = ground (arith, bytes_eq_refl s)

pub blocked_located_state :
    (l : Located) (attempt_id : ℕ) (summary : Bytes) (now : ℕ)
    → (blocked_located l attempt_id summary now).operation.state ≡ reconciliation_required
unfolding blocked_located
blocked_located_state l attempt_id summary now = refl

pub blocked_located_summary :
    (l : Located) (attempt_id : ℕ) (summary : Bytes) (now : ℕ)
    → is_original_block_replay
        (blocked_located l attempt_id summary now).operation.outcome_summary
        summary
      ≡ true
unfolding blocked_located
blocked_located_summary l attempt_id summary now = is_original_self summary

module _ (sum256 clean : Bytes → Bytes) (error_text : Error → Bytes) where
  -- The report of a located operation.
  pub report_at :
      (c : Commit) (st : Store) (server presented : Bytes) (attempt_id fence : ℕ)
      (operation_id : Bytes) (succeeded : Bool) (observed failure_summary : Bytes)
      (now block_now : ℕ) (l : Located)
      → IsLocate st server presented attempt_id fence operation_id l
      → report_activation_result sum256 clean error_text c st server presented attempt_id fence
          operation_id succeeded observed failure_summary now block_now
        ≡ report_located sum256 clean error_text c st l server attempt_id fence
            (report_of sum256 clean error_text l succeeded observed failure_summary)
            now
            block_now
  unfolding report_activation_result
  report_at c st server presented attempt_id fence operation_id succeeded observed failure_summary
        now block_now l v =
      ground (arith, IsLocate-locate st server presented attempt_id fence operation_id l v)

  -- The answers that are no error, by the state of the operation.
  pub report_succeeded :
      (c : Commit) (st : Store) (l : Located) (server : Bytes) (attempt_id fence : ℕ)
      (r : ActivationReport) (now block_now : ℕ)
      → l.operation.state ≡ op_succeeded
      → r.succeeded ≡ true
      → r.digest_matches ≡ true
      → report_located sum256 clean error_text c st l server attempt_id fence r now block_now
        ≡ (none, st)
  unfolding report_located
  report_succeeded c st l server attempt_id fence r now block_now at s m = ground arith

  pub report_replayed :
      (c : Commit) (st : Store) (l : Located) (server : Bytes) (attempt_id fence : ℕ)
      (r : ActivationReport) (now block_now : ℕ)
      → l.operation.state ≡ reconciliation_required
      → r.succeeded ≡ false
      → is_original_block_replay l.operation.outcome_summary r.failure_summary ≡ true
      → report_located sum256 clean error_text c st l server attempt_id fence r now block_now
        ≡ (none, st)
  unfolding report_located
  report_replayed c st l server attempt_id fence r now block_now at s m = ground arith

  classified-none :
      (r : Reported) (st' : Store)
      → classified sum256 clean error_text r ≡ (none, st')
      → r ≡ (none, st')
  classified-none (none, st) st' h = h
  classified-none (some x, st) st' h = absurd (cc h)

  block_none :
      (st : Store) (l : Located) (server : Bytes) (attempt_id fence : ℕ) (evidence : Bytes)
      (r : ActivationReport) (now : ℕ) (late : BlockOutcome → Option Error) (answer : Option Error)
      (st' : Store)
      → block_and_commit sum256 clean error_text committed st l server attempt_id fence evidence r
          now answer late
        ≡ (none, st')
      → (answer ≡ none) × (st' ≡ block_of st l attempt_id evidence now)
  unfolding block_and_commit commit_or_block block_activation_for_reconciliation
  block_none st l server attempt_id fence evidence r now late answer st' h = ground arith

  refused_none :
      (st : Store) (l : Located) (server : Bytes) (attempt_id fence : ℕ) (evidence : Bytes)
      (r : ActivationReport) (now : ℕ) (late : BlockOutcome → Option Error) (refusal : Error)
      (st' : Store)
      → ¬ (
          block_and_commit sum256 clean error_text committed st l server attempt_id fence evidence r
            now
            (some refusal)
            late
          ≡ (none, st'))
  refused_none st l server attempt_id fence evidence r now late refusal st' h =
      cc (block_none st l server attempt_id fence evidence r now late (some refusal) st' h).0

  finalize_none :
      (st : Store) (l : Located) (server : Bytes) (attempt_id fence : ℕ) (r : ActivationReport)
      (now block_now : ℕ) (st' : Store)
      → finalize_or_block sum256 clean error_text committed st l server attempt_id fence r now
          block_now
        ≡ (none, st')
      → finalize_activation_succeeded (finalize_input l attempt_id r.observed_route_digest now) st
        ≡ ok st'
  unfolding finalize_or_block commit_or_block
  finalize_none st l server attempt_id fence r now block_now st' h =
      let i = finalize_input l attempt_id r.observed_route_digest now in
      elim (Result-cases (finalize_activation_succeeded i st)) [
        | inl (done, f) ↦ ground arith
        | inr (cause, f) ↦ absurd (
            refused_none st l server attempt_id fence
              (sanitize_outcome_summary clean
                (bytes "activation finalize failed: " ++ error_text cause))
              r block_now (λ o. aborted_answer o cause) cause st' (ground arith))
      ]

  ambiguous_none :
      (st : Store) (l : Located) (server : Bytes) (attempt_id fence : ℕ) (r : ActivationReport)
      (now : ℕ) (evidence : Bytes) (refusal : Error) (st' : Store)
      → ¬ (
          refuse_ambiguous sum256 clean error_text committed st l server attempt_id fence r now
            evidence refusal
          ≡ (none, st'))
  ambiguous_none st l server attempt_id fence r now evidence refusal st' h =
      refused_none st l server attempt_id fence (sanitize_outcome_summary clean evidence) r now
        (λ o. some (or_else (late_outcome_error o) refusal)) refusal st' h

  -- An answer without an error to a success report is that of a finalization.
  pub success_none :
      (st : Store) (l : Located) (server : Bytes) (attempt_id fence : ℕ) (r : ActivationReport)
      (now block_now : ℕ) (st' : Store)
      → report_success sum256 clean error_text committed st l server attempt_id fence r now
          block_now
        ≡ (none, st')
      → (r.digest_matches ≡ true)
        × (finalize_activation_succeeded
              (finalize_input l attempt_id r.observed_route_digest now)
              st
            ≡ ok st')
  unfolding report_success
  success_none st l server attempt_id fence r now block_now st' h =
      let o = l.operation in
      elim (Bool-cases r.digest_matches) [
        | inr differs ↦ absurd (
            ambiguous_none st l server attempt_id fence r block_now
              (mismatch_text sum256 clean error_text o r.observed_route_digest)
              State.integrity_conflict st' (ground arith))
        | inl matches ↦ elim (Option-cases (find_head l.held.attempt.environment_id st)) [
          | inl missing ↦ absurd (
              ambiguous_none st l server attempt_id fence r block_now
                (missing_text sum256 clean error_text l.held.attempt.environment_id)
                State.corrupt_state st' (ground arith))
          | inr (head, found) ↦
              elim (Bool-cases (
                not (same_optional head.active_release_id o.expected_active_release_id)
                || not (head.route_revision == o.expected_route_revision))) [
                  | inl moved ↦ absurd (
                      ambiguous_none st l server attempt_id fence r block_now
                        (moved_text sum256 clean error_text o head) State.route_moved st'
                        (ground arith))
                  | inr there ↦ (
                    matches,
                    finalize_none st l server attempt_id fence r now block_now st' (ground arith),
                  )
                ]
        ]
      ]

  pub late_none :
      (st : Store) (h : Held) (attempt_id fence : ℕ) (o : Operation) (r : ActivationReport)
      (st' : Store)
      → ¬ (record_late_report sum256 clean st h attempt_id fence o r ≡ (none, st'))
  unfolding record_late_report
  late_none st h attempt_id fence o r st' e = ground arith

  pub trace_none :
      (st : Store) (job_id attempt_id : ℕ) (st' : Store)
      → ¬ (trace_declared_contradiction st job_id attempt_id ≡ (none, st'))
  unfolding trace_declared_contradiction
  trace_none st job_id attempt_id st' e = ground arith

  pub failure_none :
      (st : Store) (l : Located) (server : Bytes) (attempt_id fence : ℕ) (r : ActivationReport)
      (now block_now : ℕ) (st' : Store)
      → report_open sum256 clean error_text committed st l server attempt_id fence r now block_now
        ≡ (none, st')
      → r.succeeded ≡ false
      → st' ≡ block_of st l attempt_id r.failure_summary block_now
  unfolding report_open
  failure_none st l server attempt_id fence r now block_now st' h f =
      (block_none st l server attempt_id fence r.failure_summary r block_now failure_answer none st'
        (classified-none
          (block_and_commit sum256 clean error_text committed st l server attempt_id fence
            r.failure_summary r block_now none failure_answer)
          st' (ground arith))).1

  pub open_none :
      (st : Store) (l : Located) (server : Bytes) (attempt_id fence : ℕ) (r : ActivationReport)
      (now block_now : ℕ) (st' : Store)
      → report_open sum256 clean error_text committed st l server attempt_id fence r now block_now
        ≡ (none, st')
      → r.succeeded ≡ true
      → (is_leased l.held.attempt.state ≡ true)
        × (report_success sum256 clean error_text committed st l server attempt_id fence r now
              block_now
            ≡ (none, st'))
  unfolding report_open leased_occupant
  open_none st l server attempt_id fence r now block_now st' h s = (
    ground arith,
    classified-none
        (report_success sum256 clean error_text committed st l server attempt_id fence r now
          block_now)
        st' (ground arith),
  )
