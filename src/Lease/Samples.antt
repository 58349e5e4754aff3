-- ===== src/Lease/Samples.antt =====
-- A store with one leased attempt, for the tests.
use auto_deploy.Base.{true, false, [], ◌∷◌, none, some, Bytes}
use auto_deploy.Queue.{completion_succeeded, full_jitter_delay, backoff}
use auto_deploy.Queue
use auto_deploy.Base.Encoding.{pos}
use auto_deploy.Lease.Runtime.{Runtime}
use auto_deploy.Lease.State.{Enqueued}
use auto_deploy.Lease.State.{Store, Server, Job, job_leased, Attempt, Slot}
use auto_deploy.Queue.{full_jitter_delay, completion_succeeded}
use auto_deploy.Base.Strings.{bytes}
use auto_deploy.Base.{true, false}

abbrev pub server_id : Bytes
server_id = 7 ∷ []

abbrev pub env_id : Bytes
env_id = 9 ∷ []

abbrev pub server : Server
server = record { id = server_id; is_active = true; credential_digest = some (1 ∷ 2 ∷ []) }

abbrev pub enqueued : Enqueued
enqueued = record {
  job_id = 4;
  project_id = 2 ∷ [];
  repository_id = 7;
  full_ref = bytes "refs/heads/main";
  commit_sha = bytes "00000000000000000000000000000000000000ab";
  priority = pos 0;
  created_at = 0;
}

abbrev pub job : Job
job = record {
  id = 4;
  owner_id = 1 ∷ [];
  environment_id = env_id;
  server_id = server_id;
  deployment_id = 3 ∷ [];
  state = job_leased;
  available_at = 0;
  cancel_requested_at = none;
  attempt_count = 1;
  updated_at = 10;
}

abbrev pub attempt : Attempt
attempt = record {
  id = 5;
  job_id = 4;
  attempt_number = 1;
  server_id = server_id;
  environment_id = env_id;
  fence = 2;
  state = Queue.leased;
  renewal_sequence = 0;
  lease_expires_at = 1000;
  authority_expires_at = 1000;
  cancel_deadline_at = none;
  failure_class = none;
  result_operation_id = none;
  result_digest = none;
  closed_at = none;
}

-- The attempt before it, which failed.
abbrev pub earlier : Attempt
earlier = record attempt {
  id = 3;
  fence = 1;
  state = Queue.failed;
  result_operation_id = some (8 ∷ []);
  closed_at = some 4;
}

abbrev pub slot : Slot
slot = record {
  environment_id = env_id;
  fence = 2;
  current_attempt_id = some 5;
  reconciliation_required = false;
  reconciliation_attempt_id = none;
  updated_at = 10;
}

abbrev pub runtime : Runtime
runtime = record {
  configs = [];
  bindings = [];
  secret_heads = [];
  secret_versions = [];
  executions = [];
  frozen_secrets = [];
  frozen_literals = [];
  releases = [];
}

abbrev pub store : Store
store = record {
  servers = server ∷ [];
  jobs = job ∷ [];
  attempts = attempt ∷ earlier ∷ [];
  slots = slot ∷ [];
  operations = [];
  route_heads = [];
  route_events = [];
  deployments = [];
  runtime = runtime;
  enqueued = enqueued ∷ [];
  events = [];
}
