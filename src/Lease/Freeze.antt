-- ===== src/Lease/Freeze.antt =====
-- The claim-time freeze of internal/store/postgres/agent_lease_execution.go: a first attempt freezes
-- what it resolved, a retry copies the frozen rows of the attempt before it, and the deployment has
-- one release, whose digest is that of the frozen values. `sha256.Sum256` is an argument.
use auto_deploy.Base.{
  ℕ, Bool, not, ◌||◌, List, [], ◌∷◌, ◌++◌, none, some, ◌==◌, if◌then◌else◌, Bytes, bytes_eq, length,
  Result, ok, err,
}
use auto_deploy.Base.Encoding.{append_int, length_prefixed}
use auto_deploy.Base.Sorting.{sort_by, bytes_ltb}
use auto_deploy.Base.Strings.{bytes}
use auto_deploy.Base.Table.{find_row}
use auto_deploy.Lease.Runtime.{
  Runtime, FrozenExecution, FrozenBinding, FrozenLiteral, candidate, frozen_of,
  insert_attempt_execution, insert_frozen_secret_versions, insert_frozen_literal_values,
}
use auto_deploy.Lease.State.{Error, corrupt_state, no_rows, ◌>>=◌, or_fail}

-- What an attempt executes with.
pub record Snapshot : Type 0 where
  pub execution : FrozenExecution
  pub bindings : List FrozenBinding
  pub literals : List FrozenLiteral

-- `ORDER BY variable_name`.
abbrev pub by_secret_name : FrozenBinding → FrozenBinding → Bool
by_secret_name a b = bytes_ltb a.variable_name b.variable_name

abbrev pub by_literal_name : FrozenLiteral → FrozenLiteral → Bool
by_literal_name a b = bytes_ltb a.variable_name b.variable_name

-- The three inserts of a first attempt.
unfoldable pub insert_snapshot : Runtime → ℕ → Snapshot → Runtime
unfolding insert_attempt_execution insert_frozen_secret_versions insert_frozen_literal_values
insert_snapshot rt attempt_id s =
    insert_frozen_literal_values
      (insert_frozen_secret_versions (insert_attempt_execution rt attempt_id s.execution) attempt_id
        s.bindings)
      attempt_id s.literals

unfoldable pub copy_previous_attempt_execution :
    Runtime → ℕ → ℕ → Result Error (FrozenExecution × Runtime)
copy_previous_attempt_execution rt new_id prev_id = do
  row ← or_fail (find_row (λ r. r.attempt_id == prev_id) rt.executions) no_rows
  ok (row.frozen, insert_attempt_execution rt new_id row.frozen)

unfoldable pub copy_previous_frozen_secret_versions : Runtime → ℕ → ℕ → List FrozenBinding × Runtime
copy_previous_frozen_secret_versions rt new_id prev_id =
    let bindings = sort_by by_secret_name (frozen_of prev_id rt.frozen_secrets) in
    (bindings, insert_frozen_secret_versions rt new_id bindings)

unfoldable pub copy_previous_frozen_literal_values : Runtime → ℕ → ℕ → List FrozenLiteral × Runtime
copy_previous_frozen_literal_values rt new_id prev_id =
    let literals = sort_by by_literal_name (frozen_of prev_id rt.frozen_literals) in
    (literals, insert_frozen_literal_values rt new_id literals)

-- The three copies of a retry.
unfoldable pub copy_snapshot : Runtime → ℕ → ℕ → Result Error (Snapshot × Runtime)
copy_snapshot rt new_id prev_id = do
  a ← copy_previous_attempt_execution rt new_id prev_id
  let b = copy_previous_frozen_secret_versions a.1 new_id prev_id
  let c = copy_previous_frozen_literal_values b.1 new_id prev_id
  ok (record { execution = a.0; bindings = b.0; literals = c.0 }, c.1)

unfoldable pub binding_parts : List FrozenBinding → List Bytes
binding_parts [] = []
binding_parts (b ∷ bs) = b.variable_name ∷ b.delivery_scope ∷ b.secret_version_id ∷ binding_parts bs

unfoldable pub literal_parts : List FrozenLiteral → List Bytes
literal_parts [] = []
literal_parts (l ∷ ls) = l.variable_name ∷ l.delivery_scope ∷ l.literal_value ∷ literal_parts ls

-- The parts of the digest, of sorted lists.
unfoldable pub config_parts : FrozenExecution → List FrozenBinding → List FrozenLiteral → List Bytes
config_parts c bs ls =
    bytes "3"
    ∷ append_int c.container_port []
    ∷ c.container_scheme
    ∷ c.release_strategy
    ∷ append_int c.drain_seconds []
    ∷ append_int c.health_policy_revision []
    ∷ append_int c.cpu_millis []
    ∷ append_int c.memory_bytes []
    ∷ c.restart_policy
    ∷ c.health_gate_path
    ∷ c.health_gate_host
    ∷ append_int c.config_revision []
    ∷ append_int (length bs) []
    ∷ (binding_parts bs ++ append_int (length ls) [] ∷ literal_parts ls)

unfoldable pub compute_config_digest : (Bytes → Bytes) → Snapshot → Bytes
compute_config_digest sum256 s = sum256 (
    length_prefixed (
      config_parts s.execution (sort_by by_secret_name s.bindings)
        (sort_by by_literal_name s.literals)))

-- The release of the deployment: created as a candidate, or found with this very digest.
unfoldable pub ensure_release :
    Runtime → Bytes → Bytes → Bytes → Bytes → Bytes → Result Error (Bytes × Runtime)
ensure_release rt deployment_id environment_id commit_sha strategy digest =
    elim (find_row (λ r. bytes_eq r.deployment_id deployment_id) rt.releases) [
      | none ↦ ok (
        deployment_id,
        record rt {
          releases =
              record {
                id = deployment_id;
                deployment_id = deployment_id;
                environment_id = environment_id;
                image_digest = none;
                config_digest = digest;
                commit_sha = commit_sha;
                strategy = strategy;
                state = candidate;
              }
              ∷ rt.releases;
        },
      )
      | some r ↦
          if not (length r.config_digest == 32) || not (bytes_eq r.config_digest digest)
          then err corrupt_state
          else ok (deployment_id, rt)
    ]
