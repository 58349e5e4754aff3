-- ===== src/Lease/ReportTests.antt =====
-- Runs of the reports of an activation.
use auto_deploy.Base.{
  ℕ, ◌≡◌, refl, ◌≤◌, Bool, true, false, [], ◌∷◌, ◌++◌, none, some, Bytes, length, Bytes-discrete,
  ℕ_discrete,
}
use auto_deploy.Base.Strings.{bytes, has_prefix}
use auto_deploy.Traefik.{hex_encode}
use auto_deploy.Lease.State.{Store, Error, late_report_recorded, integrity_conflict}
use auto_deploy.Lease.Finalizing.{succeed_operation}
use auto_deploy.Lease.Evidence.{
  append_late_evidence, appended, replayed, max_outcome_summary_bytes, is_original_block_replay,
}
use auto_deploy.Lease.LateReports.{Reported, Commit, committed, refused}
use auto_deploy.Lease.Reporting.{report_activation_result}
use auto_deploy.Lease.Ledger.{append_late_evidence_lem}
use auto_deploy.Lease.Repeating.{report_replay}
use auto_deploy.Lease.ActivationSamples.{sum, activating_store, healthy_store, input, authorized}
use auto_deploy.Base.Encoding
use auto_deploy.Base.Strings
use auto_deploy.Base.Table
use auto_deploy.Base.Time
use auto_deploy.Deployment
use auto_deploy.Github
use auto_deploy.Lease.Activation
use auto_deploy.Lease.Deployments
use auto_deploy.Lease.Evidence
use auto_deploy.Lease.Finalizing
use auto_deploy.Lease.Held
use auto_deploy.Lease.LateReports
use auto_deploy.Lease.Reporting
use auto_deploy.Lease.State
use auto_deploy.Traefik

abbrev clean : Bytes → Bytes
clean s = s

abbrev error_text : Error → Bytes
error_text e = bytes "error"

abbrev reported : Commit → Store → Bool → ℕ → Reported
reported c st succeeded now =
    report_activation_result sum clean error_text c st (bytes "s1") (1 ∷ 2 ∷ []) 5 2 (bytes "9")
      succeeded (sum []) (bytes "boom") now now

abbrev switched_store : Store
switched_store = record healthy_store {
  operations =
      record (succeed_operation input authorized) {
        outcome_summary = bytes "activated route_digest=sha256:" ++ hex_encode (sum []);
      }
      ∷ [];
}

first_report : reported committed activating_store true 8000 ≡ (none, switched_store)
unfolding report_activation_result Reporting.locate Github.valid_opaque_id Reporting.parse_positive
    Held.lock_held State.lock_active_server_credential Table.find_row Bytes-discrete ℕ_discrete
    Reporting.report_located Reporting.report_open LateReports.leased_occupant Strings.all_bytes
    Reporting.report_success Reporting.finalize_or_block Reporting.commit_or_block
    Finalizing.finalize_activation_succeeded Finalizing.check_head Finalizing.switch_releases
    Finalizing.retain_predecessor Finalizing.move_release Finalizing.switch_head
    Finalizing.close_activation Finalizing.close_lease Encoding.append_int Encoding.digits
    Deployments.transition_deployment Deployments.read_snapshot Deployment.rehydrate
    Deployment.validate Deployment.validate_identity Deployment.validate_fields
    Deployment.validate_trail Deployment.validate_events Deployment.is_known_status
    Deployment.status_eq Deployment.restored Time.canonical_time Deployment.transition
    Deployment.is_terminal Deployment.can_transition Deployment.advanced Deployment.snapshot
    Deployment.saved Deployments.save Deployments.checked_snapshot Deployments.same_identity
    Deployments.matching_prefix Deployments.saved_row Deployments.drop_events State.append_job_event
    Table.update_rows Table.exists_row Traefik.hex_encode
first_report = refl

report_replay_example :
    reported (refused activating_store true) switched_store true 95000 ≡ (none, switched_store)
report_replay_example =
    report_replay sum clean error_text (bytes "s1") (1 ∷ 2 ∷ []) 5 2 (bytes "9") true (sum [])
      (bytes "boom") (refused activating_store true) 95000 95000 activating_store 8000 8000
      switched_store first_report

-- A failure blocks the activation, and a success that comes later is recorded and refused.
blocked_then_late :
    (reported committed (reported committed activating_store false 8000).1 true 9000).0
    ≡ some late_report_recorded
unfolding report_activation_result Reporting.locate Github.valid_opaque_id Reporting.parse_positive
    Held.lock_held State.lock_active_server_credential Table.find_row Bytes-discrete ℕ_discrete
    Reporting.report_located Reporting.report_open LateReports.leased_occupant Strings.all_bytes
    Reporting.block_and_commit Activation.block_activation_for_reconciliation
    Reporting.commit_or_block Activation.blocked_store State.append_job_event
    Activation.flag_route_head Table.update_rows Table.exists_row LateReports.record_late_report
    LateReports.write_late_evidence Evidence.append_late_evidence Evidence.late_report_fingerprint
    Evidence.late_body Strings.take Traefik.hex_encode Strings.contains
    Evidence.failure_outcome_summary Evidence.sanitize_bounded_text
    Evidence.truncate_on_rune_boundary Evidence.is_original_block_replay Strings.has_prefix
blocked_then_late = refl

abbrev ledger : Bytes
ledger = bytes "boom | late report #0011: twice"

entry :
    append_late_evidence clean (bytes "boom") (bytes "0011") (bytes "twice") false
    ≡ (ledger, appended)
unfolding append_late_evidence Strings.contains Evidence.truncate_on_rune_boundary
    Evidence.sanitize_bounded_text
entry = refl

append_late_evidence_lem_example :
    (length ledger ≤ max_outcome_summary_bytes)
    × (has_prefix ledger (bytes "boom") ≡ true)
    × ((more : Bytes)
        → append_late_evidence clean (ledger ++ more) (bytes "0011") (bytes "twice") false
          ≡ (ledger ++ more, replayed))
    × ((f : Bytes)
        → is_original_block_replay (bytes "boom") f ≡ true
        → is_original_block_replay ledger f ≡ true)
append_late_evidence_lem_example =
    append_late_evidence_lem clean (bytes "boom") (bytes "0011") (bytes "twice") false ledger entry
