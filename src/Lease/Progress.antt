-- ===== src/Lease/Progress.antt =====
-- `ReportProgress` of internal/store/postgres/agent_lease_materialize.go.
use auto_deploy.Base.{
  ℕ, ◌+◌, not, ◌&&◌, ◌==◌, ltb, leb, if◌then◌else◌, Bytes, bytes_eq, Result, ok, err,
}
use auto_deploy.Base.Table.{find_row}
use auto_deploy.Github.{valid_opaque_id}
use auto_deploy.Deployment.{Status, agent_reportable_phase, execution_order}
use auto_deploy.Lease.State.{
  Store, Error, authorization_denied, invalid_input, no_rows, find_job, find_attempt, find_slot,
  lock_active_server_credential, ◌>>=◌, ◌>>◌, guard, or_fail,
}
use auto_deploy.Lease.Deployments.{transition_deployment, is_deployment}
use auto_deploy.Lease.Held.{is_leased, is_current}
use auto_deploy.Lease.Renewal.{is_requested}
use auto_deploy.Lease.Closing.{database_time}

-- The positions of the current status and of the reported phase on the execution path.
unfoldable pub advance_phase : Store → Bytes → Status → Status → ℕ → Result Error Store
advance_phase st deployment_id current phase now =
    if not (execution_order current).1
    then err authorization_denied
    else if leb (execution_order phase).0 (execution_order current).0
    then ok st
    else if ltb ((execution_order current).0 + 1) (execution_order phase).0
    then err invalid_input
    else transition_deployment st deployment_id phase (database_time now)

unfoldable pub report_progress : Store → Bytes → Bytes → ℕ → ℕ → Status → ℕ → Result Error Store
report_progress st server presented attempt_id fence phase now = do
  guard (valid_opaque_id server && ltb 0 attempt_id && ltb 0 fence && agent_reportable_phase phase)
      invalid_input
  lock_active_server_credential st.servers server presented
  located ← or_fail (find_attempt attempt_id st) authorization_denied
  guard (bytes_eq located.server_id server) authorization_denied
  slot ← or_fail (find_slot located.environment_id st) no_rows
  guard
      (slot.fence == fence
        && not slot.reconciliation_required
        && is_current slot.current_attempt_id attempt_id)
      authorization_denied
  job ← or_fail (find_job located.job_id st) no_rows
  guard (not (is_requested job.cancel_requested_at)) authorization_denied
  a ← or_fail (find_attempt attempt_id st) no_rows
  guard (is_leased a.state && a.fence == fence && ltb now a.authority_expires_at)
      authorization_denied
  d ← or_fail (find_row (is_deployment job.deployment_id) st.deployments) no_rows
  advance_phase st job.deployment_id d.status phase now
