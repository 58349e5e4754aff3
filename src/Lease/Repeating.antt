-- ===== src/Lease/Repeating.antt =====
-- A report of an activation that is sent again after it was answered without an error.
use auto_deploy.Base.{
  ℕ, ◌≡◌, refl, sym, ◌∙◌, Bool, true, false, not, ◌&&◌, ◌||◌, inl, inr, none, Bytes, bytes_eq,
  arith, Bool-cases, Result-cases,
}
use auto_deploy.Lease.State.{
  Store, OperationState, switch_authorized, reconciliation_required, op_succeeded, op_failed,
  started, Error,
}
use auto_deploy.Lease.Evidence.{ActivationReport, is_original_block_replay}
use auto_deploy.Lease.LateReports.{Reported, Commit, committed}
use auto_deploy.Lease.Reporting.{
  Located, locate, report_located, report_of, report_activation_result,
}
use auto_deploy.Lease.Reporting.{report_open, finalize_input}
use auto_deploy.Lease.Locating.{
  IsLocate, locate→, blocked_located, block_of, blocked-IsLocate, finalized_located,
  finalized-IsLocate,
}
use auto_deploy.Lease.Agreeing.{
  report_at, report_succeeded, report_replayed, success_none, late_none, trace_none, failure_none,
  open_none, blocked_located_state, blocked_located_summary,
}

module _ (sum256 clean : Bytes → Bytes) (error_text : Error → Bytes) where
  -- The same report, sent again.
  module _ (server presented : Bytes) (attempt_id fence : ℕ) (operation_id : Bytes)
      (succeeded : Bool) (observed failure_summary : Bytes) (c : Commit)
      (later block_later : ℕ) where
    again : Store → Reported
    again st =
        report_activation_result sum256 clean error_text c st server presented attempt_id fence
          operation_id succeeded observed failure_summary later block_later

    abbrev report_for : Located → ActivationReport
    report_for l = report_of sum256 clean error_text l succeeded observed failure_summary

    again_succeeded :
        (st : Store) (l : Located)
        → IsLocate st server presented attempt_id fence operation_id l
        → l.operation.state ≡ op_succeeded
        → succeeded ≡ true
        → bytes_eq l.operation.route_digest observed ≡ true
        → again st ≡ (none, st)
    unfolding again
    again_succeeded st l v at s m =
        report_at sum256 clean error_text c st server presented attempt_id fence operation_id
          succeeded observed failure_summary later block_later l v
        ∙ report_succeeded sum256 clean error_text c st l server attempt_id fence (report_for l)
            later block_later at s m

    again_blocked :
        (st : Store) (l : Located)
        → IsLocate st server presented attempt_id fence operation_id l
        → l.operation.state ≡ reconciliation_required
        → succeeded ≡ false
        → is_original_block_replay l.operation.outcome_summary (report_for l).failure_summary ≡ true
        → again st ≡ (none, st)
    unfolding again
    again_blocked st l v at s m =
        report_at sum256 clean error_text c st server presented attempt_id fence operation_id
          succeeded observed failure_summary later block_later l v
        ∙ report_replayed sum256 clean error_text c st l server attempt_id fence (report_for l)
            later block_later at s m

    open-again :
        (st : Store) (l : Located) (now block_now : ℕ) (st' : Store)
        → IsLocate st server presented attempt_id fence operation_id l
        → l.operation.state ≡ switch_authorized
        → report_open sum256 clean error_text committed st l server attempt_id fence
            (report_for l)
            now
            block_now
          ≡ (none, st')
        → again st' ≡ (none, st')
    open-again st l now block_now st' v at h = elim (Bool-cases succeeded) [
      | inl success ↦
          let (leased, answer) =
            open_none sum256 clean error_text st l server attempt_id fence (report_for l) now
              block_now st' h success in
          let (matches, done) =
            success_none sum256 clean error_text st l server attempt_id fence (report_for l) now
              block_now st' answer in
          let (s, j, v') =
            finalized-IsLocate st server presented attempt_id fence operation_id l observed now st'
              v at leased done in
          again_succeeded st' (finalized_located (finalize_input l attempt_id observed now) l s j)
            v' refl success matches
      | inr failure ↦
          let same =
            failure_none sum256 clean error_text st l server attempt_id fence (report_for l) now
              block_now st' h failure in
          let summary = (report_for l).failure_summary in
          rw same (
            again_blocked (block_of st l attempt_id summary block_now)
              (blocked_located l attempt_id summary block_now)
              (blocked-IsLocate st server presented attempt_id fence operation_id l summary
                block_now v at)
              (blocked_located_state l attempt_id summary block_now) failure
              (blocked_located_summary l attempt_id summary block_now))
    ]

    located-again :
        (state : OperationState) (st : Store) (l : Located) (now block_now : ℕ) (st' : Store)
        → l.operation.state ≡ state
        → IsLocate st server presented attempt_id fence operation_id l
        → report_located sum256 clean error_text committed st l server attempt_id fence
            (report_for l)
            now
            block_now
          ≡ (none, st')
        → again st' ≡ (none, st')
    unfolding report_located
    located-again op_succeeded st l now block_now st' at v h =
        elim (Bool-cases (not succeeded || not (bytes_eq l.operation.route_digest observed))) [
          | inl against ↦ absurd (
              trace_none sum256 clean error_text st l.held.attempt.job_id attempt_id st'
                (ground arith))
          | inr agreed ↦
              let same : st ≡ st' = ground arith in
              rw (sym same) (again_succeeded st l v at (ground arith) (ground arith))
        ]
    located-again op_failed st l now block_now st' at v h =
        absurd (
          trace_none sum256 clean error_text st l.held.attempt.job_id attempt_id st' (ground arith))
    located-again started st l now block_now st' at v h = absurd (ground arith)
    located-again reconciliation_required st l now block_now st' at v h =
        let summary = (report_for l).failure_summary in
        elim (Bool-cases
          (not succeeded && is_original_block_replay l.operation.outcome_summary summary)) [
            | inl replay ↦
                let same : st ≡ st' = ground arith in
                rw (sym same) (again_blocked st l v at (ground arith) (ground arith))
            | inr late ↦ absurd (
                late_none sum256 clean error_text st l.held attempt_id fence l.operation
                  (report_for l) st' (ground arith))
          ]
    located-again switch_authorized st l now block_now st' at v h =
        open-again st l now block_now st' v at (ground arith)

    -- A report of an activation that was answered without an error, and whose transaction committed, is
    -- safe to send again: at any later time, and whether or not its transaction could commit, the same
    -- report gets the same answer and changes nothing.
    pub report_replay :
        (st : Store) (now block_now : ℕ) (st' : Store)
        → report_activation_result sum256 clean error_text committed st server presented attempt_id
            fence operation_id succeeded observed failure_summary now block_now
          ≡ (none, st')
        → report_activation_result sum256 clean error_text c st' server presented attempt_id fence
            operation_id succeeded observed failure_summary later block_later
          ≡ (none, st')
    unfolding report_activation_result again
    report_replay st now block_now st' h =
        elim (Result-cases (locate st server presented attempt_id fence operation_id)) [
          | inr (x, p) ↦ absurd (ground arith)
          | inl (l, p) ↦
              located-again l.operation.state st l now block_now st' refl
                (locate→ st server presented attempt_id fence operation_id l p) (ground arith)
        ]
