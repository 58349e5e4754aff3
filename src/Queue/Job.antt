-- ===== src/Queue/Job.antt =====
-- internal/queue/job.go: the logical job that is enqueued. `sha256.Sum256` and the formatting of an
-- instant by `time.RFC3339Nano` are arguments.
use auto_deploy.Base.{
  ℕ, Bool, true, false, not, ◌&&◌, List, [], ◌∷◌, ltb, leb, ◌==◌, Bytes, bytes_eq, Result, ok, err,
}
use auto_deploy.Base.Encoding.{append_int, length_prefixed, ℤ, pos, negsuc, format_int}
use auto_deploy.Base.Strings.{bytes}
use auto_deploy.Base.Time.{
  Time, canonical_time, is_zero, equal, truncate, microsecond, Location, utc, fixed_zone,
}
use auto_deploy.Github.{valid_opaque_id, valid_branch_ref, valid_commit_sha}

pub record Job : Type 0 where
  pub version : ℕ
  pub kind : Bytes
  pub owner_id : Bytes
  pub project_id : Bytes
  pub environment_id : Bytes
  pub server_id : Bytes
  pub deployment_id : Bytes
  pub repository_id : ℕ  -- a negative one is refused as 0 is
  pub ref : Bytes
  pub commit_sha : Bytes
  pub priority : ℤ
  pub available_at : Time
  pub idempotency_key : Bytes
  pub payload_digest : Bytes
  pub state : Bytes

abbrev pub current_schema_version : ℕ
current_schema_version = 1

abbrev pub state_queued : Bytes
state_queued = bytes "queued"

abbrev pub kind_deployment_execution : Bytes
kind_deployment_execution = bytes "deployment_execution"

abbrev pub is_utc : Location → Bool
is_utc utc = true
is_utc (fixed_zone n) = false

-- `-100 <= priority && priority <= 100`.
abbrev pub valid_priority : ℤ → Bool
valid_priority (pos n) = leb n 100
valid_priority (negsuc n) = ltb n 100

unfoldable pub payload_parts : (Time → Bytes) → Job → List Bytes
payload_parts format j =
    append_int j.version []
    ∷ j.kind
    ∷ j.owner_id
    ∷ j.project_id
    ∷ j.environment_id
    ∷ j.server_id
    ∷ j.deployment_id
    ∷ append_int j.repository_id []
    ∷ j.ref
    ∷ j.commit_sha
    ∷ format_int j.priority
    ∷ format j.available_at
    ∷ j.idempotency_key
    ∷ j.state
    ∷ []

unfoldable pub payload_digest : (Bytes → Bytes) → (Time → Bytes) → Job → Bytes
payload_digest sum256 format j = sum256 (length_prefixed (payload_parts format j))

unfoldable pub validate : (Bytes → Bytes) → (Time → Bytes) → Job → Bool
validate sum256 format j =
    j.version == current_schema_version
    && bytes_eq j.kind kind_deployment_execution
    && valid_opaque_id j.owner_id
    && valid_opaque_id j.project_id
    && valid_opaque_id j.environment_id
    && valid_opaque_id j.server_id
    && valid_opaque_id j.deployment_id
    && ltb 0 j.repository_id
    && valid_branch_ref j.ref
    && valid_commit_sha j.commit_sha
    && valid_priority j.priority
    && not (is_zero j.available_at)
    && is_utc j.available_at.location
    && equal j.available_at (truncate j.available_at microsecond)
    && valid_opaque_id j.idempotency_key
    && bytes_eq j.state state_queued
    && bytes_eq j.payload_digest (payload_digest sum256 format j)

pub data Error : Type 0 where
  invalid_job : Error

-- The arguments of the constructor, without the digest.
pub record Fields : Type 0 where
  pub owner_id : Bytes
  pub project_id : Bytes
  pub environment_id : Bytes
  pub server_id : Bytes
  pub deployment_id : Bytes
  pub repository_id : ℕ
  pub ref : Bytes
  pub commit_sha : Bytes
  pub idempotency_key : Bytes
  pub priority : ℤ
  pub available_at : Time

abbrev pub undigested : Fields → Job
undigested f = record {
  version = current_schema_version;
  kind = kind_deployment_execution;
  owner_id = f.owner_id;
  project_id = f.project_id;
  environment_id = f.environment_id;
  server_id = f.server_id;
  deployment_id = f.deployment_id;
  repository_id = f.repository_id;
  ref = f.ref;
  commit_sha = f.commit_sha;
  priority = f.priority;
  available_at = canonical_time f.available_at;
  idempotency_key = f.idempotency_key;
  payload_digest = [];
  state = state_queued;
}

unfoldable pub new_deployment_execution_job :
    (Bytes → Bytes) → (Time → Bytes) → Fields → Result Error Job
new_deployment_execution_job sum256 format f =
    let j = record (undigested f) {
      payload_digest = payload_digest sum256 format (undigested f);
    } in
    elim (validate sum256 format j) [ true ↦ ok j | false ↦ err invalid_job ]
