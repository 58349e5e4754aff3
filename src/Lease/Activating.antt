-- ===== src/Lease/Activating.antt =====
-- `Activate` of internal/store/postgres/agent_lease_repository.go: the authorization to switch the
-- route of an environment. `new_id` is the identity column of release_operations, `sum256` is
-- `sha256.Sum256`. The instant of a release's last update is not kept.
use auto_deploy.Base.{
  ℕ, ◌+◌, Bool, not, ◌&&◌, ◌||◌, List, [], ◌∷◌, ◌++◌, Option, none, some, ◌==◌, ltb, if◌then◌else◌,
  Bytes, bytes_eq, length, Result, ok, err,
}
use auto_deploy.Base.Encoding.{append_int}
use auto_deploy.Base.Strings.{has_prefix, drop}
use auto_deploy.Base.Table.{find_row, update_rows, exists_row}
use auto_deploy.Github.{valid_opaque_id}
use auto_deploy.Deployment
use auto_deploy.Traefik.{
  EnvironmentRoute, render, attempt_runtime_instance_id, default_entrypoint_name,
  default_cert_resolver_name, digest_prefix, hex_decode, hex_encode,
}
use auto_deploy.Lease.Runtime.{Release, FrozenExecution, candidate, ready}
use auto_deploy.Lease.State.{
  Store, Operation, activate, switch_authorized, RouteHead, activation_authorized, Error,
  invalid_input, stale, integrity_conflict, corrupt_state, no_rows, environment_blocked,
  no_route_head, candidate_not_ready, invalid_route, find_head, append_job_event, ◌>>=◌, ◌>>◌,
  guard, or_fail,
}
use auto_deploy.Lease.Held.{Held, lock_held}
use auto_deploy.Lease.Renewal.{may_renew, is_requested}
use auto_deploy.Lease.Activation.{
  is_activate, is_unresolved, is_switch_authorized, unresolved_activation,
}
use auto_deploy.Lease.Closing.{database_time}
use auto_deploy.Lease.Deployments.{transition_deployment}

pub record ActivationResult : Type 0 where
  pub operation_id : Bytes
  pub route_revision : ℕ
  pub hostname : Bytes
  pub entrypoint_name : Bytes
  pub cert_resolver_name : Bytes
  pub backend_runtime_instance_id : Bytes
  pub route_digest : Bytes

abbrev pub activation_result : ℕ → ℕ → Bytes → ℕ → Bytes → ActivationResult
activation_result operation_id route_revision hostname attempt_id route_digest = record {
  operation_id = append_int operation_id [];
  route_revision = route_revision;
  hostname = hostname;
  entrypoint_name = default_entrypoint_name;
  cert_resolver_name = default_cert_resolver_name;
  backend_runtime_instance_id = attempt_runtime_instance_id attempt_id;
  route_digest = route_digest;
}

-- The operation of this attempt and fence, if Activate was answered before.
abbrev pub is_activation_of : ℕ → ℕ → Operation → Bool
is_activation_of attempt_id fence o =
    o.attempt_id == attempt_id && o.fence == fence && is_activate o.kind

-- A replay returns what the operation recorded.
unfoldable pub replay_activate :
    Store → Operation → ℕ → Bytes → Bytes → Result Error (ActivationResult × Store)
replay_activate st o attempt_id environment_id image_digest =
    if not (is_switch_authorized o.state)
    then err (if unresolved_activation o.state then environment_blocked else stale)
    else if not (length o.digest == 32) || not (bytes_eq o.digest image_digest)
    then err integrity_conflict
    else or_fail (find_head environment_id st) no_rows >>= λ head. ok (
      activation_result o.id (o.expected_route_revision + 1) head.hostname attempt_id
          (digest_prefix ++ hex_encode o.route_digest),
      st,
    )

-- A candidate becomes ready with the image; a ready release is the one of this very image.
unfoldable pub ready_release : Store → Release → Bytes → Result Error Store
ready_release st r image_digest = elim r.state [
  | candidate ↦ ok (record st {
    runtime = record st.runtime {
      releases =
          update_rows (λ x. bytes_eq x.id r.id)
            (λ x. record x { image_digest = some image_digest; state = ready }) st.runtime.releases;
    };
  })
  | ready ↦ elim r.image_digest [
    | none ↦ err integrity_conflict
    | some d ↦
        if not (length d == 32) || not (bytes_eq d image_digest)
        then err integrity_conflict
        else ok st
  ]
  | _ ↦ err candidate_not_ready
]

abbrev pub route_of : ℕ → ℕ → Bytes → RouteHead → Bytes → FrozenExecution → EnvironmentRoute
route_of attempt_id fence environment_id head release_id execution = record {
  environment_id = environment_id;
  route_revision = head.route_revision + 1;
  hostname = head.hostname;
  entrypoint_name = default_entrypoint_name;
  cert_resolver_name = default_cert_resolver_name;
  backend_runtime_instance_id = attempt_runtime_instance_id attempt_id;
  backend_port = execution.container_port;
  backend_scheme = execution.container_scheme;
  release_id = release_id;
  fence_id = append_int fence [];
}

-- The digest of the document, as text and as its 32 bytes.
unfoldable pub decode_route_digest : Bytes → Result Error Bytes
decode_route_digest text = do
  raw ←
      or_fail (hex_decode (if has_prefix text digest_prefix then drop 7 text else text))
        invalid_route
  guard (length raw == 32) invalid_route
  ok raw

-- An empty release id stands for no active release.
abbrev pub expected_release : Option Bytes → Option Bytes
expected_release none = none
expected_release (some id) = if length id == 0 then none else some id

abbrev pub authorized_operation :
    ℕ → ℕ → ℕ → ℕ → Bytes → RouteHead → Bytes → Bytes → Bytes → Operation
authorized_operation id job_id attempt_id fence environment_id head release_id image_digest raw =
    record {
      id = id;
      attempt_id = attempt_id;
      environment_id = environment_id;
      fence = fence;
      kind = activate;
      state = switch_authorized;
      outcome_summary = [];
      closed_at = none;
      release_id = release_id;
      job_id = job_id;
      digest = image_digest;
      route_digest = raw;
      expected_active_release_id = expected_release head.active_release_id;
      expected_route_revision = head.route_revision;
    }

-- The insert of the operation and its event.
unfoldable pub authorize : Store → ℕ → ℕ → ℕ → ℕ → Bytes → RouteHead → Bytes → Bytes → Bytes → Store
authorize st id job_id attempt_id fence environment_id head release_id image_digest raw =
    append_job_event job_id (some attempt_id) activation_authorized (record st {
      operations =
          authorized_operation id job_id attempt_id fence environment_id head release_id
            image_digest raw
          ∷ st.operations;
    })

-- The document of the new route, and the operation that authorizes the switch to it.
unfoldable pub authorize_route :
    (Bytes → Bytes)
    → (List Operation → ℕ)
    → Store
    → ℕ
    → ℕ
    → ℕ
    → Bytes
    → RouteHead
    → Bytes
    → Bytes
    → Result Error (ActivationResult × Store)
authorize_route sum256 new_id st job_id attempt_id fence e head release_id image_digest = do
  frozen ← or_fail (find_row (λ r. r.attempt_id == attempt_id) st.runtime.executions) no_rows
  rendered ←
      or_fail (render sum256 (route_of attempt_id fence e head release_id frozen.frozen))
        invalid_route
  raw ← decode_route_digest rendered.1
  ok (
    activation_result (new_id st.operations) (head.route_revision + 1) head.hostname attempt_id
        rendered.1,
    authorize st (new_id st.operations) job_id attempt_id fence e head release_id image_digest raw,
  )

-- After the deployment has moved to activating.
unfoldable pub authorize_switch :
    (Bytes → Bytes)
    → (List Operation → ℕ)
    → Store
    → ℕ
    → Bytes
    → ℕ
    → ℕ
    → Bytes
    → Bytes
    → Result Error (ActivationResult × Store)
authorize_switch sum256 new_id st job_id deployment_id attempt_id fence e image_digest = do
  head ← or_fail (find_head e st) no_route_head
  guard (not head.reconciliation_required) stale
  release ←
      or_fail (find_row (λ r. bytes_eq r.deployment_id deployment_id) st.runtime.releases)
        corrupt_state
  st' ← ready_release st release image_digest
  authorize_route sum256 new_id st' job_id attempt_id fence e head release.id image_digest

-- An environment with an unresolved activation is blocked for every attempt.
unfoldable pub activate_first :
    (Bytes → Bytes)
    → (List Operation → ℕ)
    → Store
    → Held
    → ℕ
    → ℕ
    → Bytes
    → ℕ
    → Result Error (ActivationResult × Store)
activate_first sum256 new_id st h attempt_id fence image_digest now = do
  guard
      (not (
        exists_row (λ o. bytes_eq o.environment_id h.attempt.environment_id && is_unresolved o)
          st.operations))
      environment_blocked
  st' ← transition_deployment st h.job.deployment_id Deployment.activating (database_time now)
  authorize_switch sum256 new_id st' h.attempt.job_id h.job.deployment_id attempt_id fence
      h.attempt.environment_id image_digest

unfoldable pub activate_held :
    (Bytes → Bytes)
    → (List Operation → ℕ)
    → Store
    → Held
    → ℕ
    → ℕ
    → Bytes
    → ℕ
    → Result Error (ActivationResult × Store)
activate_held sum256 new_id st h attempt_id fence image_digest now =
    elim (find_row (is_activation_of attempt_id fence) st.operations) [
      | some o ↦ replay_activate st o attempt_id h.attempt.environment_id image_digest
      | none ↦ activate_first sum256 new_id st h attempt_id fence image_digest now
    ]

unfoldable pub activate_lease :
    (Bytes → Bytes)
    → (List Operation → ℕ)
    → Store
    → Bytes
    → Bytes
    → ℕ
    → ℕ
    → Bytes
    → ℕ
    → Result Error (ActivationResult × Store)
activate_lease sum256 new_id st server presented attempt_id fence image_digest now = do
  guard (valid_opaque_id server && ltb 0 attempt_id && ltb 0 fence) invalid_input
  h ← lock_held st server presented attempt_id
  guard (may_renew h attempt_id fence now) stale
  guard (not (is_requested h.job.cancel_requested_at)) stale
  activate_held sum256 new_id st h attempt_id fence image_digest now
