-- ===== src/Lease/ClaimTests.antt =====
-- A job that is claimed again after a failed attempt; the theorems of the claim at it.
use auto_deploy.Base.{
  ℕ, ◌+◌, ◌<◌, ◌≤◌, ◌≡◌, refl, true, false, List, [], ◌∷◌, none, some, Bytes, arith, ok,
  Bytes-discrete, ℕ_discrete, ◌==◌, length,
}
use auto_deploy.Base.Encoding.{pos}
use auto_deploy.Base.Sorting.{sort_by, insert_by, filter_rows}
use auto_deploy.Base.Strings.{bytes}
use auto_deploy.Base.Table.{find_row, update_rows, exists_row}
use auto_deploy.Github.{valid_opaque_id}
use auto_deploy.Queue
use auto_deploy.Lease.Runtime.{
  Runtime, FrozenExecution, candidate, frozen_of, insert_frozen, lock_environment_runtime_config,
  insert_attempt_execution, insert_frozen_secret_versions, insert_frozen_literal_values,
}
use auto_deploy.Lease.Freeze.{
  Snapshot, copy_snapshot, copy_previous_attempt_execution, copy_previous_frozen_secret_versions,
  copy_previous_frozen_literal_values, ensure_release, compute_config_digest,
}
use auto_deploy.Lease.State.{
  Store, Job, retry_wait, Attempt, Slot, Enqueued, claimed, append_job_event,
  lock_active_server_credential, match_server_credential,
}
use auto_deploy.Lease.Renewal.{RenewalResult, renew, lease_duration}
use auto_deploy.Lease.Claim.{
  ClaimedLease, freeze, try_claim, claim_checked, claim_locked, plan_claim, write_claim,
  occupied_rows, lease_job, new_attempt, occupy, advance_fence,
}
use auto_deploy.Lease.Claiming.{
  Candidate, claim, claim_transaction, claim_candidates, discover, runs_before, job_rows, take,
  sorted_distinct_environments, distinct_environments, ensure_slots, ensure_slot,
  authenticate_server_candidate,
}
use auto_deploy.Lease.Sweeping.{expire_batch}
use auto_deploy.Lease.Closing.{schedule_retry, close_attempt, vacate}
use auto_deploy.Queue.{full_jitter_delay}
use auto_deploy.Lease.State.{retry_scheduled, event_expired}
use auto_deploy.Lease.Entering.{IsFresh}
use auto_deploy.Lease.Granting.{IsClaimed, try_claim_lem}
use auto_deploy.Lease.FirstRenewal.{claim-renew}
use auto_deploy.Lease.Limits.{length-claim}
use auto_deploy.Lease.Claims.{IsClaimAnswer, claim_lem}
use auto_deploy.Lease.Batches.{IsSweep, expire_batch_lem}

-- An identity column that hands out more than the sum of the ids before.
unfoldable next_id : List Attempt → ℕ
next_id [] = 1
next_id (a ∷ xs) = a.id + next_id xs

next_id-positive : (xs : List Attempt) → 0 < next_id xs
unfolding next_id
next_id-positive [] = omega arith
next_id-positive (a ∷ xs) = omega (arith, next_id-positive xs)

above-next_id : (k : ℕ) (xs : List Attempt) → next_id xs ≤ k → find_row (λ a. a.id == k) xs ≡ none
unfolding next_id find_row
above-next_id k [] le = refl
above-next_id k (a ∷ xs) le = ground (arith, above-next_id k xs, next_id-positive xs)

next_id-IsFresh : IsFresh next_id
next_id-IsFresh xs = above-next_id (next_id xs) xs (omega arith)

abbrev server_id : Bytes
server_id = 7 ∷ []

abbrev pub env_id : Bytes
env_id = 9 ∷ []

abbrev pub execution : FrozenExecution
execution = record {
  container_port = 80;
  container_scheme = 104 ∷ [];
  release_strategy = 98 ∷ [];
  drain_seconds = 5;
  health_policy_revision = 1;
  cpu_millis = 2;
  memory_bytes = 3;
  restart_policy = 110 ∷ [];
  health_gate_path = 47 ∷ [];
  health_gate_host = [];
  config_revision = 1;
}

abbrev pub runtime : Runtime
runtime = record {
  configs =
      record { environment_id = env_id; execution = record execution { config_revision = 2 } } ∷ [];
  bindings = [];
  secret_heads = [];
  secret_versions = [];
  executions = record { attempt_id = 3; frozen = execution } ∷ [];
  frozen_secrets = [];
  frozen_literals = [];
  releases = [];
}

abbrev pub job : Job
job = record {
  id = 4;
  owner_id = 1 ∷ [];
  environment_id = env_id;
  server_id = server_id;
  deployment_id = 3 ∷ [];
  state = retry_wait;
  available_at = 60;
  cancel_requested_at = none;
  attempt_count = 1;
  updated_at = 10;
}

abbrev enqueued : Enqueued
enqueued = record {
  job_id = 4;
  project_id = 2 ∷ [];
  repository_id = 7;
  full_ref = bytes "refs/heads/main";
  commit_sha = bytes "ab";
  priority = pos 0;
  created_at = 0;
}

abbrev earlier : Attempt
earlier = record {
  id = 3;
  job_id = 4;
  attempt_number = 1;
  server_id = server_id;
  environment_id = env_id;
  fence = 1;
  state = Queue.failed;
  renewal_sequence = 0;
  lease_expires_at = 50;
  authority_expires_at = 50;
  cancel_deadline_at = none;
  failure_class = none;
  result_operation_id = some (8 ∷ []);
  result_digest = none;
  closed_at = some 40;
}

abbrev slot : Slot
slot = record {
  environment_id = env_id;
  fence = 1;
  current_attempt_id = none;
  reconciliation_required = false;
  reconciliation_attempt_id = none;
  updated_at = 40;
}

abbrev pub store : Store
store = record {
  servers = record { id = server_id; is_active = true; credential_digest = some (1 ∷ 2 ∷ []) } ∷ [];
  jobs = job ∷ [];
  attempts = earlier ∷ [];
  slots = slot ∷ [];
  operations = [];
  route_heads = [];
  route_events = [];
  deployments = [];
  runtime = runtime;
  enqueued = enqueued ∷ [];
  events = [];
}

abbrev pub frozen : Snapshot
frozen = record { execution = execution; bindings = []; literals = [] }

abbrev lease : ClaimedLease
lease = record {
  job_id = 4;
  attempt_id = 4;
  attempt_number = 2;
  fence = 2;
  owner_id = 1 ∷ [];
  environment_id = env_id;
  deployment_id = 3 ∷ [];
  source = enqueued;
  lease_expires_at = 1000;
  authority_expires_at = 1000;
  execution = execution;
  release_id = 3 ∷ [];
  secret_bindings = [];
  literal_bindings = [];
}

abbrev claimed_store : Store
claimed_store = record store {
  jobs = lease_job 100 job ∷ [];
  attempts = new_attempt 4 slot job 1000 ∷ earlier ∷ [];
  slots = occupy 4 100 (advance_fence 100 slot) ∷ [];
  runtime = record runtime {
    executions = record { attempt_id = 4; frozen = execution } ∷ runtime.executions;
    releases =
        record {
          id = 3 ∷ [];
          deployment_id = 3 ∷ [];
          environment_id = env_id;
          image_digest = none;
          config_digest = 5 ∷ [];
          commit_sha = bytes "ab";
          strategy = 98 ∷ [];
          state = candidate;
        }
        ∷ [];
  };
  events = record { job_id = 4; attempt_id = some 4; event_type = claimed } ∷ [];
}

second_claim :
    try_claim (λ b. 5 ∷ []) next_id store server_id 4 env_id 100 1000
    ≡ ok (some lease, claimed_store)
unfolding try_claim claim_checked claim_locked plan_claim write_claim occupied_rows freeze
    copy_snapshot copy_previous_attempt_execution copy_previous_frozen_secret_versions
    copy_previous_frozen_literal_values ensure_release insert_attempt_execution
    insert_frozen_secret_versions insert_frozen_literal_values frozen_of insert_frozen
    compute_config_digest lock_environment_runtime_config append_job_event next_id find_row
    update_rows Bytes-discrete ℕ_discrete sort_by
second_claim = refl

try_claim_lem_example : IsClaimed store server_id 4 env_id 100 1000 lease claimed_store
try_claim_lem_example =
    try_claim_lem (λ b. 5 ∷ []) next_id store server_id 4 env_id 100 1000 lease claimed_store
      second_claim

authenticated : lock_active_server_credential store.servers server_id (1 ∷ 2 ∷ []) ≡ ok tt
unfolding lock_active_server_credential find_row Bytes-discrete ℕ_discrete
authenticated = refl

valid_server : valid_opaque_id server_id ≡ true
unfolding valid_opaque_id
valid_server = refl

claim-renew_example :
    (r : RenewalResult) × (st'' : Store) × (renew claimed_store server_id (1 ∷ 2 ∷ []) 4 2 1 500
      ≡ ok (r, st''))
    × (r.authority_expires_at ≡ 500 + lease_duration)
    × (r.lease_expires_at ≡ 500 + lease_duration)
claim-renew_example =
    claim-renew (λ b. 5 ∷ []) next_id store server_id (1 ∷ 2 ∷ []) 4 env_id 100 1000 lease
      claimed_store 500 second_claim authenticated valid_server (omega arith) (omega arith)

abbrev long_lease : ClaimedLease
long_lease = record lease {
  lease_expires_at = 100 + lease_duration;
  authority_expires_at = 100 + lease_duration;
}

whole_claim :
    (claim (λ b. 5 ∷ []) next_id server_id (1 ∷ 2 ∷ []) 3 90 95 100 store).0 ≡ ok (long_lease ∷ [])
unfolding claim claim_transaction claim_candidates discover runs_before job_rows take
    sorted_distinct_environments distinct_environments ensure_slots ensure_slot
    authenticate_server_candidate match_server_credential lock_active_server_credential
    valid_opaque_id sort_by insert_by filter_rows exists_row try_claim claim_checked claim_locked
    plan_claim write_claim occupied_rows freeze copy_snapshot copy_previous_attempt_execution
    copy_previous_frozen_secret_versions copy_previous_frozen_literal_values ensure_release
    insert_attempt_execution insert_frozen_secret_versions insert_frozen_literal_values frozen_of
    insert_frozen compute_config_digest lock_environment_runtime_config append_job_event next_id
    find_row update_rows Bytes-discrete ℕ_discrete
whole_claim = refl

length-claim_example : (length (long_lease ∷ []) ≤ 3) × (length (long_lease ∷ []) ≤ 50)
length-claim_example =
    length-claim (λ b. 5 ∷ []) next_id server_id (1 ∷ 2 ∷ []) 3 90 95 100 store (long_lease ∷ [])
      whole_claim

claim_lem_example :
    IsClaimAnswer
      (λ b. 5 ∷ [])
      next_id
      server_id
      (1 ∷ 2 ∷ [])
      3
      90
      100
      store
      (claim (λ b. 5 ∷ []) next_id server_id (1 ∷ 2 ∷ []) 3 90 95 100 store).0
      (claim (λ b. 5 ∷ []) next_id server_id (1 ∷ 2 ∷ []) 3 90 95 100 store).1
claim_lem_example =
    claim_lem (λ b. 5 ∷ []) next_id server_id (1 ∷ 2 ∷ []) 3 90 95 100 store (omega arith)

expire_batch_lem_example :
    IsSweep
      (λ b. 0)
      (λ i. (2000, 2000))
      2000
      5
      claimed_store
      (expire_batch (λ b. 0) (λ i. (2000, 2000)) 2000 5 claimed_store)
expire_batch_lem_example = expire_batch_lem (λ b. 0) (λ i. (2000, 2000)) 2000 5 claimed_store

abbrev revoked_store : Store
revoked_store = record claimed_store {
  jobs = schedule_retry (200 + full_jitter_delay (λ b. 0) 2) 200 (lease_job 100 job) ∷ [];
  attempts = close_attempt Queue.expired 200 (new_attempt 4 slot job 1000) ∷ earlier ∷ [];
  slots = vacate 4 200 (occupy 4 100 (advance_fence 100 slot)) ∷ [];
  events =
      record { job_id = 4; attempt_id = some 4; event_type = retry_scheduled }
      ∷ record { job_id = 4; attempt_id = some 4; event_type = event_expired }
      ∷ record { job_id = 4; attempt_id = some 4; event_type = claimed }
      ∷ [];
}

abbrev candidates : List Candidate
candidates =
    record { job_id = 4; environment_id = 9 ∷ [] }
    ∷ record { job_id = 5; environment_id = 8 ∷ 1 ∷ [] }
    ∷ record { job_id = 6; environment_id = 9 ∷ [] }
    ∷ []
