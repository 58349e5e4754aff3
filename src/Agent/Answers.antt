-- ===== src/Agent/Answers.antt =====
-- How an error of a lease operation reaches the agent: `mapError` of internal/agent/http/handler.go
-- and `mapStatus` of internal/agent/client/httpclient.go.
use auto_deploy.Base.{
  ℕ, ◌≡◌, ◌==◌, if◌then◌else◌, Bytes, bytes_eq, Bytes-discrete, arith, ◌↔◌, ◌||◌,
}
use auto_deploy.Base.Strings.{bytes}
use auto_deploy.Lease.State.{Error}
use auto_deploy.Lease.State as Rows

-- A status with the code of its body.
pub record Response : Type 0 where
  pub status : ℕ
  pub code : Bytes

abbrev response : ℕ → Bytes → Response
response status code = record { status = status; code = code }

unfoldable pub map_error : Error → Response
map_error Rows.block_unrecorded = response 503 (bytes "service_unavailable")
map_error Rows.authorization_denied = response 401 (bytes "unauthorized")
map_error Rows.stale = response 409 (bytes "stale_lease")
map_error Rows.integrity_conflict = response 409 (bytes "integrity_conflict")
map_error Rows.candidate_not_ready = response 409 (bytes "candidate_not_ready")
map_error Rows.no_route_head = response 409 (bytes "no_route_head")
map_error Rows.activation_open = response 409 (bytes "activation_open")
map_error Rows.environment_blocked = response 409 (bytes "environment_activation_blocked")
map_error Rows.late_report_recorded = response 409 (bytes "late_report_recorded")
map_error Rows.route_moved = response 409 (bytes "route_moved")
map_error Rows.outcome_mismatch = response 409 (bytes "outcome_mismatch")
map_error Rows.activation_unresolved = response 409 (bytes "activation_unresolved")
map_error Rows.corrupt_state = response 409 (bytes "corrupt_state")
map_error Rows.constraint_violation = response 409 (bytes "constraint_violation")
map_error Rows.invalid_input = response 400 (bytes "invalid_request")
map_error _ = response 503 (bytes "service_unavailable")

pub data ClientError : Type 0 where
  unauthorized stale_lease integrity_conflict invalid_request : ClientError
  service_unavailable transport_failure : ClientError

-- The code is read from the body, which is empty where it does not decode.
unfoldable pub map_status : ℕ → Bytes → ClientError
unfolding Bytes-discrete
map_status status code =
    if status == 401
    then unauthorized
    else if status == 409
    then (if bytes_eq code (bytes "stale_lease") then stale_lease else integrity_conflict)
    else if status == 400 || status == 413
    then invalid_request
    else if status == 503
    then service_unavailable
    else transport_failure

-- The client's view of an error of the repository.
abbrev pub client_error : Error → ClientError
client_error x = map_status (map_error x).status (map_error x).code

-- Only a stale lease is taken for one.
pub stale_lease_iff : (x : Error) → (client_error x ≡ stale_lease) ↔ (x ≡ Rows.stale)
unfolding map_status map_error Bytes-discrete
stale_lease_iff x = ground arith
