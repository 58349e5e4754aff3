-- ===== src/Lease/Reporting.antt =====
-- `ReportActivationResult` of internal/store/postgres/agent_lease_repository.go, the second
-- transaction of an activation. A report that is refused may still write.
use auto_deploy.Base.{
  ℕ, ◌+◌, ◌-◌, ◌*◌, ◌^◌, Bool, not, ◌&&◌, ◌||◌, [], ◌∷◌, ◌++◌, Option, none, some, ltb, ◌==◌,
  if◌then◌else◌, Bytes, bytes_eq, length, Result, ok, err,
}
use auto_deploy.Base.Encoding.{append_int}
use auto_deploy.Base.Strings.{bytes, in_range, all_bytes}
use auto_deploy.Base.Table.{find_row}
use auto_deploy.Github.{valid_opaque_id}
use auto_deploy.Traefik.{hex_encode}
use auto_deploy.Lease.State.{
  Store, Operation, switch_authorized, reconciliation_required, op_succeeded, op_failed, Error,
  invalid_input, stale, integrity_conflict, corrupt_state, route_moved, block_unrecorded,
  late_report_recorded, constraint_violation, not_found, revision_conflict, revision_overflow,
  domain, RouteHead, find_head, ◌>>=◌, ◌>>◌, guard, or_fail,
}
use auto_deploy.Lease.Held.{Held, lock_held}
use auto_deploy.Lease.Activation.{block_activation_for_reconciliation}
use auto_deploy.Lease.Completion.{valid_operation_id}
use auto_deploy.Lease.Activating.{is_activation_of}
use auto_deploy.Lease.Finalizing.{FinalizeInput, finalize_activation_succeeded, same_optional}
use auto_deploy.Lease.Evidence.{
  ActivationReport, failure_outcome_summary, sanitize_outcome_summary, is_original_block_replay,
}
use auto_deploy.Lease.LateReports.{
  Reported, BlockOutcome, recorded, noop_succeeded, late_recorded, block_stale, Commit, committed,
  refused, leased_occupant, trace_declared_contradiction, record_late_report,
  record_block_in_fresh_transaction,
}

abbrev pub number_of : ℕ → Bytes → ℕ
number_of v [] = v
number_of v (c ∷ s) = number_of (v * 10 + (c - 48)) s

abbrev pub unsigned : Bytes → Bytes
unsigned [] = []
unsigned (c ∷ s) = if c == b'+' then s else c ∷ s

-- `strconv.ParseInt(s, 10, 64)` with a positive result.
unfoldable pub parse_positive : Bytes → Option ℕ
unfolding all_bytes
parse_positive s =
    let digits = unsigned s in
    let v = number_of 0 digits in
    if ltb 0 (length digits) && all_bytes (in_range b'0' b'9') digits && ltb 0 v && ltb v (2 ^ 63)
    then some v
    else none

-- What a report locks and reads.
pub record Located : Type 0 where
  pub held : Held
  pub operation : Operation

unfoldable pub locate : Store → Bytes → Bytes → ℕ → ℕ → Bytes → Result Error Located
locate st server presented attempt_id fence operation_id = do
  guard
      (valid_opaque_id server && ltb 0 attempt_id && ltb 0 fence && valid_operation_id operation_id)
      invalid_input
  parsed ← or_fail (parse_positive operation_id) invalid_input
  h ← lock_held st server presented attempt_id
  guard (h.attempt.fence == fence) stale
  o ← or_fail (find_row (is_activation_of attempt_id fence) st.operations) stale
  guard (o.id == parsed) integrity_conflict
  guard (length o.route_digest == 32) corrupt_state
  ok (record { held = h; operation = o })

-- `classifyActivationResultError` on the errors that an open operation may meet.
unfoldable pub classify : Error → Error
classify (domain x) = corrupt_state
classify not_found = corrupt_state
classify revision_conflict = corrupt_state
classify revision_overflow = corrupt_state
classify e = e

-- `lateOutcomeError`
unfoldable pub late_outcome_error : BlockOutcome → Option Error
late_outcome_error late_recorded = some late_report_recorded
late_outcome_error block_stale = some stale
late_outcome_error _ = none

abbrev pub or_else : Option Error → Error → Error
or_else none e = e
or_else (some x) e = x

-- The answer of a failure report whose block was recorded in a fresh transaction.
abbrev pub failure_answer : BlockOutcome → Option Error
failure_answer recorded = none
failure_answer noop_succeeded = some integrity_conflict
failure_answer late_recorded = some late_report_recorded
failure_answer _ = some stale

abbrev pub aborted_answer : BlockOutcome → Error → Option Error
aborted_answer noop_succeeded cause = none
aborted_answer o cause = some (or_else (late_outcome_error o) cause)

abbrev pub optional_for_summary : Option Bytes → Bytes
optional_for_summary none = bytes "<none>"
optional_for_summary (some v) = v

abbrev pub finalize_input : Located → ℕ → Bytes → ℕ → FinalizeInput
finalize_input l attempt_id observed now = record {
  job_id = l.held.attempt.job_id;
  attempt_id = attempt_id;
  operation_id = l.operation.id;
  environment_id = l.held.attempt.environment_id;
  deployment_id = l.held.job.deployment_id;
  candidate_release_id = l.operation.release_id;
  expected_route_revision = l.operation.expected_route_revision;
  expected_active_release_id = l.operation.expected_active_release_id;
  result_digest = observed;
  summary = bytes "activated route_digest=sha256:" ++ hex_encode observed;
  now = now;
  from_state = switch_authorized;
}

module _ (sum256 clean : Bytes → Bytes) (error_text : Error → Bytes) where
  abbrev pub answer_of_block :
      Result Error (BlockOutcome × Store) → Store → (BlockOutcome → Option Error) → Reported
  answer_of_block (ok (o, st')) fresh answer = (answer o, st')
  answer_of_block (err e) fresh answer = (some e, fresh)

  -- Where the commit is refused, the block is recorded on the store that is found then.
  unfoldable pub commit_or_block :
      Commit
      → Store
      → Option Error
      → Bytes
      → ℕ
      → ℕ
      → ℕ
      → Bytes
      → ActivationReport
      → ℕ
      → (BlockOutcome → Option Error)
      → Reported
  commit_or_block committed st answer server attempt_id fence operation_id evidence r now late =
      (answer, st)
  commit_or_block (refused fresh commits) st answer server attempt_id fence operation_id evidence r
        now late =
      answer_of_block
        (record_block_in_fresh_transaction sum256 clean fresh server attempt_id fence operation_id
          evidence r now commits)
        fresh late

  -- The block of the caller's transaction, and its commit.
  unfoldable pub block_and_commit :
      Commit
      → Store
      → Located
      → Bytes
      → ℕ
      → ℕ
      → Bytes
      → ActivationReport
      → ℕ
      → Option Error
      → (BlockOutcome → Option Error)
      → Reported
  block_and_commit c st l server attempt_id fence evidence r now answer late =
      elim (block_activation_for_reconciliation st l.held.attempt.job_id attempt_id l.operation.id
        l.held.attempt.environment_id evidence now) [
          | err e ↦ (some block_unrecorded, st)
          | ok st' ↦
              commit_or_block c st' answer server attempt_id fence l.operation.id evidence r now
                late
        ]

  -- `refuseAmbiguous`
  abbrev pub refuse_ambiguous :
      Commit → Store → Located → Bytes → ℕ → ℕ → ActivationReport → ℕ → Bytes → Error → Reported
  refuse_ambiguous c st l server attempt_id fence r now evidence refusal =
      block_and_commit c st l server attempt_id fence (sanitize_outcome_summary clean evidence) r
        now (some refusal) (λ o. some (or_else (late_outcome_error o) refusal))

  abbrev pub moved_text : Operation → RouteHead → Bytes
  moved_text o head =
      bytes "route head moved since authorization: expected revision "
      ++ append_int o.expected_route_revision (
          bytes " active "
          ++ (optional_for_summary o.expected_active_release_id
              ++ (bytes ", found revision "
                  ++ append_int head.route_revision
                      (bytes " active " ++ optional_for_summary head.active_release_id))))

  abbrev pub mismatch_text : Operation → Bytes → Bytes
  mismatch_text o observed =
      bytes "route digest mismatch: expected sha256:"
      ++ (hex_encode o.route_digest ++ (bytes " observed sha256:" ++ hex_encode observed))

  abbrev pub missing_text : Bytes → Bytes
  missing_text environment_id =
      bytes "environment " ++ (environment_id ++ bytes " has no route head at activation result")

  -- A success report that agrees with the operation and with the route head. A failure goes back to
  -- the savepoint, where only locks were taken, and is recorded there.
  unfoldable pub finalize_or_block :
      Commit → Store → Located → Bytes → ℕ → ℕ → ActivationReport → ℕ → ℕ → Reported
  finalize_or_block c st l server attempt_id fence r now block_now =
      elim (finalize_activation_succeeded (finalize_input l attempt_id r.observed_route_digest now)
        st) [
          | ok st' ↦
              commit_or_block c st' none server attempt_id fence l.operation.id
                (sanitize_outcome_summary clean (
                  bytes "activation finalize failed at commit: "
                  ++ error_text constraint_violation))
                r block_now (λ o. aborted_answer o constraint_violation)
          | err cause ↦
              block_and_commit c st l server attempt_id fence
                (sanitize_outcome_summary clean
                  (bytes "activation finalize failed: " ++ error_text cause))
                r block_now (some cause) (λ o. aborted_answer o cause)
        ]

  unfoldable pub report_success :
      Commit → Store → Located → Bytes → ℕ → ℕ → ActivationReport → ℕ → ℕ → Reported
  report_success c st l server attempt_id fence r now block_now =
      if not r.digest_matches
      then refuse_ambiguous c st l server attempt_id fence r block_now
          (mismatch_text l.operation r.observed_route_digest) integrity_conflict
      else elim (find_head l.held.attempt.environment_id st) [
        | none ↦
            refuse_ambiguous c st l server attempt_id fence r block_now
              (missing_text l.held.attempt.environment_id) corrupt_state
        | some head ↦
            if not (same_optional head.active_release_id l.operation.expected_active_release_id)
              || not (head.route_revision == l.operation.expected_route_revision)
            then refuse_ambiguous c st l server attempt_id fence r block_now
                (moved_text l.operation head) route_moved
            else finalize_or_block c st l server attempt_id fence r now block_now
      ]

  abbrev pub classified : Reported → Reported
  classified (none, st) = (none, st)
  classified (some e, st) = (some (classify e), st)

  -- The operation is open: the attempt is still the leased occupant, whatever its deadline.
  unfoldable pub report_open :
      Commit → Store → Located → Bytes → ℕ → ℕ → ActivationReport → ℕ → ℕ → Reported
  report_open c st l server attempt_id fence r now block_now =
      if not (leased_occupant l.held.attempt l.held.slot fence attempt_id)
      then (some stale, st)
      else classified (
          if not r.succeeded
          then block_and_commit c st l server attempt_id fence r.failure_summary r block_now none
              failure_answer
          else report_success c st l server attempt_id fence r now block_now)

  unfoldable pub report_located :
      Commit → Store → Located → Bytes → ℕ → ℕ → ActivationReport → ℕ → ℕ → Reported
  report_located c st l server attempt_id fence r now block_now = elim (l.operation.state) [
    | op_succeeded ↦
        if not r.succeeded || not r.digest_matches
        then trace_declared_contradiction st l.held.attempt.job_id attempt_id
        else (none, st)
    | op_failed ↦
        if not r.succeeded
        then (some integrity_conflict, st)
        else trace_declared_contradiction st l.held.attempt.job_id attempt_id
    | reconciliation_required ↦
        if not r.succeeded && is_original_block_replay l.operation.outcome_summary r.failure_summary
        then (none, st)
        else record_late_report sum256 clean st l.held attempt_id fence l.operation r
    | switch_authorized ↦ report_open c st l server attempt_id fence r now block_now
    | _ ↦ (some corrupt_state, st)
  ]

  abbrev pub report_of : Located → Bool → Bytes → Bytes → ActivationReport
  report_of l succeeded observed failure_summary = record {
    succeeded = succeeded;
    digest_matches = bytes_eq l.operation.route_digest observed;
    observed_route_digest = observed;
    failure_summary = failure_outcome_summary clean failure_summary;
  }

  -- `now` is the clock of the finalization, `block_now` that of a block.
  unfoldable pub report_activation_result :
      Commit → Store → Bytes → Bytes → ℕ → ℕ → Bytes → Bool → Bytes → Bytes → ℕ → ℕ → Reported
  report_activation_result c st server presented attempt_id fence operation_id succeeded observed
        failure_summary now block_now =
      elim (locate st server presented attempt_id fence operation_id) [
        | err e ↦ (some e, st)
        | ok l ↦
            report_located c st l server attempt_id fence
              (report_of l succeeded observed failure_summary) now block_now
      ]
