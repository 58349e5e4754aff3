-- ===== src/Queue/Tests.antt =====
-- The theorems of Queue at concrete attempts.
use auto_deploy.Base.{◌≡◌, refl, ◌↔◌, [], ◌∷◌, Bytes, arith, ok}
use auto_deploy.Base.Strings.{bytes}
use auto_deploy.Base.Time.{Time, utc, canonical_time}
use auto_deploy.Base.Encoding.{
  append_int, append_int-injective, length_prefixed, length_prefixed-injective, negsuc,
}
use auto_deploy.Queue.Job.{
  Job, Fields, new_deployment_execution_job, validate, payload_digest, payload_parts,
}
use auto_deploy.Queue.Payload.{IsAcceptable, IsJob, digested, new_job_iff, payload_parts-injective}
use auto_deploy.Base.{ℕ, ◌*◌, ◌/◌, ◌≤◌, ◌≡◌, refl, arith}
use auto_deploy.Queue.{second, backoff}
use auto_deploy.Queue.Delay.{backoff_lem}
use Prim.Native.Nat.{◌-◌, ◌^◌, min}
use auto_deploy.Queue.{retry_base_delay, retry_cap_delay}

backoff_third : backoff 3 ≡ 20 * second
unfolding backoff
backoff_third = refl

backoff_lem_example : backoff 7 ≡ min retry_cap_delay (retry_base_delay * 2 ^ (7 - 1))
backoff_lem_example = backoff_lem 7

abbrev half : ℕ → ℕ
half b = b / 2

half-le : (b : ℕ) → half b ≤ b
half-le b = omega arith

-- A formatting of instants that, like `time.RFC3339Nano`, tells those in UTC apart, and does not tell
-- UTC from a zone without an offset.
abbrev format : Time → Bytes
format t = append_int t.nanos []

format-injective : (s t : Time) → s.location ≡ utc → t.location ≡ utc → format s ≡ format t → s ≡ t
format-injective s t u v h = ground (arith, u, v, append_int-injective s.nanos t.nanos h)

abbrev fields : Fields
fields = record {
  owner_id = bytes "o";
  project_id = bytes "p";
  environment_id = bytes "e";
  server_id = bytes "s";
  deployment_id = bytes "d";
  repository_id = 7;
  ref = bytes "refs/heads/main";
  commit_sha = bytes "00000000000000000000000000000000000000ab";
  idempotency_key = bytes "k";
  priority = negsuc 4;
  available_at = record { nanos = 5123; location = utc };
}

abbrev job : Job
job = digested (λ b. b) format fields

new-job : new_deployment_execution_job (λ b. b) format fields ≡ ok job
unfolding new_deployment_execution_job validate auto_deploy.Base.Bytes-discrete
    auto_deploy.Base.ℕ_discrete auto_deploy.Github.valid_opaque_id
    auto_deploy.Github.valid_branch_ref auto_deploy.Github.valid_commit_sha canonical_time
    payload_digest length_prefixed payload_parts append_int auto_deploy.Base.Encoding.format_int
new-job = refl

new_job_iff_example :
    (new_deployment_execution_job (λ b. b) format fields ≡ ok job)
    ↔ (IsAcceptable fields × IsJob (λ b. b) format fields job)
new_job_iff_example = new_job_iff (λ b. b) format fields job

payload_parts-injective_example : record job { payload_digest = job.payload_digest } ≡ job
unfolding canonical_time
payload_parts-injective_example =
    payload_parts-injective format job job format-injective refl refl refl
