-- ===== src/Queue/Payload.antt =====
-- What the payload of a job determines, and which jobs the constructor returns.
use auto_deploy.Base.{◌-◌, ◌%◌, ◌<◌, ◌≤◌, ◌≡◌, refl, ◌↔◌, true, arith, Bytes, ok}
use auto_deploy.Base.Strings.{bytes}
use auto_deploy.Base.Encoding.{
  length_prefixed, length_prefixed-injective, append_int-injective, format_int-injective,
}
use auto_deploy.Base.Time.{Time, utc, canonical_time, microsecond}
use auto_deploy.Github.{valid_opaque_id, valid_branch_ref, valid_commit_sha}
use auto_deploy.Queue.Job.{
  Job, Fields, undigested, payload_parts, payload_digest, validate, valid_priority,
  new_deployment_execution_job,
}

-- Two jobs with instants in UTC, as every valid job has, and with one payload agree in every field
-- that the digest is taken of, whatever bytes the fields hold, where the formatting of instants tells
-- those in UTC apart.
pub payload_parts-injective :
    (format : Time → Bytes) (j k : Job)
    → ((s t : Time) → s.location ≡ utc → t.location ≡ utc → format s ≡ format t → s ≡ t)
    → j.available_at.location ≡ utc
    → k.available_at.location ≡ utc
    → length_prefixed (payload_parts format j) ≡ length_prefixed (payload_parts format k)
    → record j { payload_digest = k.payload_digest } ≡ k
unfolding payload_parts
payload_parts-injective format j k tells u v h =
    let parts = length_prefixed-injective (payload_parts format j) (payload_parts format k) h in
    ground (
      arith,
      parts,
      append_int-injective j.version k.version,
      append_int-injective j.repository_id k.repository_id,
      format_int-injective j.priority k.priority,
      tells j.available_at k.available_at u v,
    )

-- What the constructor asks of its arguments.
pub record IsAcceptable (f : Fields) : Type 0 where
  pub owner : valid_opaque_id f.owner_id ≡ true
  pub project : valid_opaque_id f.project_id ≡ true
  pub environment : valid_opaque_id f.environment_id ≡ true
  pub server : valid_opaque_id f.server_id ≡ true
  pub deployment : valid_opaque_id f.deployment_id ≡ true
  pub repository : 0 < f.repository_id
  pub branch : valid_branch_ref f.ref ≡ true
  pub commit : valid_commit_sha f.commit_sha ≡ true
  pub key : valid_opaque_id f.idempotency_key ≡ true
  pub bounded : valid_priority f.priority ≡ true
  pub available : microsecond ≤ f.available_at.nanos

abbrev pub digested : (Bytes → Bytes) → (Time → Bytes) → Fields → Job
digested sum256 format f = record (undigested f) {
  payload_digest = payload_digest sum256 format (undigested f);
}

acceptable→validate :
    (sum256 : Bytes → Bytes) (format : Time → Bytes) (f : Fields)
    → IsAcceptable f
    → validate sum256 format (digested sum256 format f) ≡ true
unfolding validate canonical_time payload_digest payload_parts
acceptable→validate sum256 format f v = ground arith

validate→acceptable :
    (sum256 : Bytes → Bytes) (format : Time → Bytes) (f : Fields)
    → validate sum256 format (digested sum256 format f) ≡ true
    → IsAcceptable f
unfolding validate canonical_time payload_digest payload_parts
validate→acceptable sum256 format f h = ground arith

new_job→ :
    (sum256 : Bytes → Bytes) (format : Time → Bytes) (f : Fields) (j : Job)
    → new_deployment_execution_job sum256 format f ≡ ok j
    → (validate sum256 format (digested sum256 format f) ≡ true) × (j ≡ digested sum256 format f)
unfolding new_deployment_execution_job
new_job→ sum256 format f j h = ground arith

new_job_of :
    (sum256 : Bytes → Bytes) (format : Time → Bytes) (f : Fields)
    → validate sum256 format (digested sum256 format f) ≡ true
    → new_deployment_execution_job sum256 format f ≡ ok (digested sum256 format f)
unfolding new_deployment_execution_job
new_job_of sum256 format f h = ground (arith, h)

-- What the constructor makes of its arguments.
pub record IsJob (sum256 : Bytes → Bytes) (format : Time → Bytes) (f : Fields) (j : Job)
    : Type 0 where
  pub versioned : j.version ≡ 1
  pub kind : j.kind ≡ bytes "deployment_execution"
  pub owner : j.owner_id ≡ f.owner_id
  pub project : j.project_id ≡ f.project_id
  pub environment : j.environment_id ≡ f.environment_id
  pub server : j.server_id ≡ f.server_id
  pub deployment : j.deployment_id ≡ f.deployment_id
  pub repository : j.repository_id ≡ f.repository_id
  pub branch : j.ref ≡ f.ref
  pub commit : j.commit_sha ≡ f.commit_sha
  pub ranked : j.priority ≡ f.priority
  pub available :
      j.available_at
      ≡ record { nanos = f.available_at.nanos - f.available_at.nanos % 1000; location = utc }
  pub key : j.idempotency_key ≡ f.idempotency_key
  pub digest : j.payload_digest ≡ payload_digest sum256 format j
  pub state : j.state ≡ bytes "queued"

digested-IsJob :
    (sum256 : Bytes → Bytes) (format : Time → Bytes) (f : Fields)
    → IsJob sum256 format f (digested sum256 format f)
unfolding canonical_time payload_digest payload_parts
digested-IsJob sum256 format f = record {
  versioned = refl;
  kind = refl;
  owner = refl;
  project = refl;
  environment = refl;
  server = refl;
  deployment = refl;
  repository = refl;
  branch = refl;
  commit = refl;
  ranked = refl;
  available = ground arith;
  key = refl;
  digest = refl;
  state = refl;
}

IsJob-digested :
    (sum256 : Bytes → Bytes) (format : Time → Bytes) (f : Fields) (j : Job)
    → IsJob sum256 format f j
    → j ≡ digested sum256 format f
unfolding canonical_time payload_digest payload_parts
IsJob-digested sum256 format f j v = ground (
  arith, v.versioned, v.kind, v.owner, v.project, v.environment, v.server, v.deployment,
  v.repository, v.branch, v.commit, v.ranked, v.available, v.key, v.digest, v.state,
)

-- The constructor succeeds exactly on acceptable arguments, at an instant at least a microsecond
-- after the zero time, and then returns a queued job of version 1 with each argument in its own
-- field, the instant in UTC and cut to a microsecond, and the digest of its payload.
pub new_job_iff :
    (sum256 : Bytes → Bytes) (format : Time → Bytes) (f : Fields) (j : Job)
    → (new_deployment_execution_job sum256 format f ≡ ok j)
      ↔ (IsAcceptable f × IsJob sum256 format f j)
new_job_iff sum256 format f j = (
  λ h.
      let (v, e) = new_job→ sum256 format f j h in
      (validate→acceptable sum256 format f v, rw e (digested-IsJob sum256 format f)),
  λ h.
      rw (IsJob-digested sum256 format f j h.1)
        (new_job_of sum256 format f (acceptable→validate sum256 format f h.0)),
)
