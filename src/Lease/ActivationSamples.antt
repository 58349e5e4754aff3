-- ===== src/Lease/ActivationSamples.antt =====
-- A store whose attempt is ready for its switch, and the store after it, for the tests.
use auto_deploy.Base.{ℕ, true, false, [], ◌∷◌, ◌++◌, none, some, Bytes}
use auto_deploy.Base.Strings.{bytes}
use auto_deploy.Base.Time.{Time, utc}
use auto_deploy.Deployment.{Status, Event, Identity, Snapshot}
use auto_deploy.Deployment
use auto_deploy.Queue
use auto_deploy.Traefik.{
  hex_encode, digest_prefix, default_entrypoint_name, default_cert_resolver_name,
}
use auto_deploy.Lease.Runtime.{Runtime, FrozenExecution, Release, candidate, ready}
use auto_deploy.Lease.State.{
  Store, Job, job_leased, Attempt, Slot, RouteHead, activation_authorized,
}
use auto_deploy.Lease.Activating.{ActivationResult, authorized_operation}
use auto_deploy.Lease.State.{
  Operation, switch_authorized, job_succeeded, event_succeeded, activated,
}
use auto_deploy.Lease.Runtime.{active}
use auto_deploy.Lease.Closing.{close_job}
use auto_deploy.Lease.Finalizing.{
  FinalizeInput, succeed_attempt, release_slot, succeed_operation, advance_head,
}

abbrev pub moment : ℕ → Time
moment n = record { nanos = n; location = utc }

abbrev pub event : Status → Status → ℕ → Event
event from to n = record { from = from; to = to; at = moment n }

abbrev pub deployment : Snapshot
deployment = record {
  version = 1;
  identity = record {
    deployment_id = bytes "d1";
    project_id = 2 ∷ [];
    environment_id = bytes "env1";
    server_id = bytes "s1";
    commit_sha = bytes "ab";
  };
  status = Deployment.health_checking;
  created_at = moment 1000;
  updated_at = moment 6000;
  revision = 6;
  events =
      event (Deployment.other []) Deployment.queued 1000
      ∷ event Deployment.queued Deployment.assigned 2000
      ∷ event Deployment.assigned Deployment.fetching 3000
      ∷ event Deployment.fetching Deployment.building 4000
      ∷ event Deployment.building Deployment.starting 5000
      ∷ event Deployment.starting Deployment.health_checking 6000
      ∷ [];
}

abbrev pub job : Job
job = record {
  id = 4;
  owner_id = 1 ∷ [];
  environment_id = bytes "env1";
  server_id = bytes "s1";
  deployment_id = bytes "d1";
  state = job_leased;
  available_at = 0;
  cancel_requested_at = none;
  attempt_count = 1;
  updated_at = 1500;
}

abbrev pub attempt : Attempt
attempt = record {
  id = 5;
  job_id = 4;
  attempt_number = 1;
  server_id = bytes "s1";
  environment_id = bytes "env1";
  fence = 2;
  state = Queue.leased;
  renewal_sequence = 0;
  lease_expires_at = 90000;
  authority_expires_at = 90000;
  cancel_deadline_at = none;
  failure_class = none;
  result_operation_id = none;
  result_digest = none;
  closed_at = none;
}

abbrev pub slot : Slot
slot = record {
  environment_id = bytes "env1";
  fence = 2;
  current_attempt_id = some 5;
  reconciliation_required = false;
  reconciliation_attempt_id = none;
  updated_at = 1500;
}

abbrev pub execution : FrozenExecution
execution = record {
  container_port = 8080;
  container_scheme = bytes "http";
  release_strategy = bytes "candidate_first";
  drain_seconds = 5;
  health_policy_revision = 1;
  cpu_millis = 2;
  memory_bytes = 3;
  restart_policy = bytes "no";
  health_gate_path = bytes "/";
  health_gate_host = [];
  config_revision = 1;
}

abbrev pub image : Bytes
image = bytes "0123456789abcdef0123456789abcdef"

abbrev pub sum : Bytes → Bytes
sum s = bytes "fedcba9876543210fedcba9876543210"

abbrev pub release : Release
release = record {
  id = bytes "d1";
  deployment_id = bytes "d1";
  environment_id = bytes "env1";
  image_digest = none;
  config_digest = image;
  commit_sha = bytes "ab";
  strategy = bytes "candidate_first";
  state = candidate;
}

abbrev pub runtime : Runtime
runtime = record {
  configs = [];
  bindings = [];
  secret_heads = [];
  secret_versions = [];
  executions = record { attempt_id = 5; frozen = execution } ∷ [];
  frozen_secrets = [];
  frozen_literals = [];
  releases = release ∷ [];
}

abbrev pub head : RouteHead
head = record {
  environment_id = bytes "env1";
  hostname = bytes "app.example.com";
  route_revision = 7;
  active_release_id = none;
  reconciliation_required = false;
  updated_at = 1500;
}

abbrev pub store : Store
store = record {
  servers =
      record { id = bytes "s1"; is_active = true; credential_digest = some (1 ∷ 2 ∷ []) } ∷ [];
  jobs = job ∷ [];
  attempts = attempt ∷ [];
  slots = slot ∷ [];
  operations = [];
  route_heads = head ∷ [];
  route_events = [];
  deployments = deployment ∷ [];
  runtime = runtime;
  enqueued = [];
  events = [];
}

abbrev pub answer : ActivationResult
answer = record {
  operation_id = bytes "9";
  route_revision = 8;
  hostname = bytes "app.example.com";
  entrypoint_name = default_entrypoint_name;
  cert_resolver_name = default_cert_resolver_name;
  backend_runtime_instance_id = bytes "5";
  route_digest = digest_prefix ++ hex_encode (sum []);
}

abbrev pub activating_store : Store
activating_store = record store {
  operations = authorized_operation 9 4 5 2 (bytes "env1") head (bytes "d1") image (sum []) ∷ [];
  deployments =
      record deployment {
        status = Deployment.activating;
        updated_at = moment 7000;
        revision = 7;
        events =
            deployment.events ++ event Deployment.health_checking Deployment.activating 7000 ∷ [];
      }
      ∷ [];
  runtime = record runtime {
    releases = record release { image_digest = some image; state = ready } ∷ [];
  };
  events = record { job_id = 4; attempt_id = some 5; event_type = activation_authorized } ∷ [];
}

abbrev pub input : FinalizeInput
input = record {
  job_id = 4;
  attempt_id = 5;
  operation_id = 9;
  environment_id = bytes "env1";
  deployment_id = bytes "d1";
  candidate_release_id = bytes "d1";
  expected_route_revision = 7;
  expected_active_release_id = none;
  result_digest = sum [];
  summary = bytes "activated";
  now = 8000;
  from_state = switch_authorized;
}

abbrev pub authorized : Operation
authorized = authorized_operation 9 4 5 2 (bytes "env1") head (bytes "d1") image (sum [])

abbrev pub healthy_store : Store
healthy_store = record activating_store {
  jobs = close_job job_succeeded 8000 job ∷ [];
  attempts = succeed_attempt input attempt ∷ [];
  slots = release_slot input slot ∷ [];
  operations = succeed_operation input authorized ∷ [];
  route_heads = advance_head input head ∷ [];
  route_events =
      record {
        environment_id = bytes "env1";
        event_kind = bytes "activated";
        route_revision = 8;
        hostname = none;
        active_release_id = some (bytes "d1");
      }
      ∷ [];
  deployments =
      record deployment {
        status = Deployment.healthy;
        updated_at = moment 8000;
        revision = 8;
        events =
            deployment.events
            ++ event Deployment.health_checking Deployment.activating 7000
              ∷ event Deployment.activating Deployment.healthy 8000
              ∷ [];
      }
      ∷ [];
  runtime = record runtime {
    releases = record release { image_digest = some image; state = active } ∷ [];
  };
  events =
      record { job_id = 4; attempt_id = some 5; event_type = event_succeeded }
      ∷ record { job_id = 4; attempt_id = some 5; event_type = activated }
      ∷ record { job_id = 4; attempt_id = some 5; event_type = activation_authorized }
      ∷ [];
}
