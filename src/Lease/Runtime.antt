-- ===== src/Lease/Runtime.antt =====
-- The configuration that a claim freezes: the rows of the runtime configuration, the bindings, the
-- secret heads and versions, and the frozen copies, with the statements of
-- internal/store/postgres/agent_lease_execution.go on them.
use auto_deploy.Base.{
  ℕ, Bool, true, false, ◌&&◌, List, [], ◌∷◌, ◌++◌, Option, none, some, ◌==◌, if◌then◌else◌, Bytes,
  bytes_eq, length,
}
use auto_deploy.Base.Table.{find_row}
use auto_deploy.Base.Sorting.{filter_rows, sort_by, bytes_ltb}

-- `frozenExecutionSnapshot`. Every number is positive by the constraints of its column.
pub record FrozenExecution : Type 0 where
  pub container_port : ℕ
  pub container_scheme : Bytes
  pub release_strategy : Bytes
  pub drain_seconds : ℕ
  pub health_policy_revision : ℕ
  pub cpu_millis : ℕ
  pub memory_bytes : ℕ
  pub restart_policy : Bytes
  pub health_gate_path : Bytes
  pub health_gate_host : Bytes
  pub config_revision : ℕ

pub record FrozenBinding : Type 0 where
  pub variable_name : Bytes
  pub delivery_scope : Bytes
  pub secret_version_id : Bytes

pub record FrozenLiteral : Type 0 where
  pub variable_name : Bytes
  pub delivery_scope : Bytes
  pub literal_value : Bytes

pub record RuntimeConfig : Type 0 where
  pub environment_id : Bytes
  pub execution : FrozenExecution

pub data BindingKind : Type 0 where
  secret literal_nonsecret : BindingKind

pub record Binding : Type 0 where
  pub environment_id : Bytes
  pub variable_name : Bytes
  pub kind : BindingKind
  pub secret_head_id : Option Bytes
  pub delivery_scope : Bytes
  pub literal_value : Option Bytes

pub record SecretHead : Type 0 where
  pub id : Bytes
  pub current_version_id : Option Bytes

pub record SecretVersion : Type 0 where
  pub id : Bytes
  pub is_active : Bool

-- A frozen row belongs to an attempt.
pub record Frozen {ℓ} (A : Type ℓ) : Type ℓ where
  pub attempt_id : ℕ
  pub frozen : A

pub data ReleaseState : Type 0 where
  candidate ready release_failed removing removed active retained : ReleaseState

pub record Release : Type 0 where
  pub id : Bytes
  pub deployment_id : Bytes
  pub environment_id : Bytes
  pub image_digest : Option Bytes
  pub config_digest : Bytes
  pub commit_sha : Bytes
  pub strategy : Bytes
  pub state : ReleaseState

pub record Runtime : Type 0 where
  pub configs : List RuntimeConfig
  pub bindings : List Binding
  pub secret_heads : List SecretHead
  pub secret_versions : List SecretVersion
  pub executions : List (Frozen FrozenExecution)
  pub frozen_secrets : List (Frozen FrozenBinding)
  pub frozen_literals : List (Frozen FrozenLiteral)
  pub releases : List Release

unfoldable pub lock_environment_runtime_config : Runtime → Bytes → Option FrozenExecution
lock_environment_runtime_config rt environment_id =
    elim (find_row (λ r. bytes_eq r.environment_id environment_id) rt.configs) [
      | none ↦ none
      | some r ↦ some r.execution
    ]

abbrev pub is_secret : BindingKind → Bool
is_secret secret = true
is_secret literal_nonsecret = false

abbrev pub is_literal : BindingKind → Bool
is_literal secret = false
is_literal literal_nonsecret = true

-- The joins of a binding with its head and the head's current active version.
abbrev pub active_version : Runtime → Option Bytes → Option Bytes
active_version rt none = none
active_version rt (some head_id) = elim (find_row (λ h. bytes_eq h.id head_id) rt.secret_heads) [
  | none ↦ none
  | some h ↦ elim h.current_version_id [
    | none ↦ none
    | some version_id ↦
        elim (find_row (λ v. bytes_eq v.id version_id && v.is_active) rt.secret_versions) [
          | none ↦ none
          | some v ↦ some v.id
        ]
  ]
]

-- The rows of the join, in the order of the bindings.
unfoldable pub join_secrets : Runtime → List Binding → List FrozenBinding
join_secrets rt [] = []
join_secrets rt (b ∷ bs) =
    let rest = join_secrets rt bs in
    elim (active_version rt b.secret_head_id) [
      | none ↦ rest
      | some v ↦
          record {
            variable_name = b.variable_name;
            delivery_scope = b.delivery_scope;
            secret_version_id = v;
          }
          ∷ rest
    ]

-- `ORDER BY variable_name`, in the order of the bytes.
abbrev pub by_variable : Binding → Binding → Bool
by_variable a b = bytes_ltb a.variable_name b.variable_name

abbrev pub bindings_of : (BindingKind → Bool) → Runtime → Bytes → List Binding
bindings_of test rt environment_id =
    sort_by by_variable
      (filter_rows (λ b. bytes_eq b.environment_id environment_id && test b.kind) rt.bindings)

-- `none` where some binding has no active version.
unfoldable pub resolve_runtime_secret_bindings : Runtime → Bytes → Option (List FrozenBinding)
resolve_runtime_secret_bindings rt environment_id =
    let total = bindings_of is_secret rt environment_id in
    let resolved = join_secrets rt total in
    if length resolved == length total then some resolved else none

-- `none` where some literal is NULL.
unfoldable pub scan_literals : List Binding → Option (List FrozenLiteral)
scan_literals [] = some []
scan_literals (b ∷ bs) = elim b.literal_value [
  | none ↦ none
  | some value ↦ elim (scan_literals bs) [
    | none ↦ none
    | some rest ↦ some (
        record {
          variable_name = b.variable_name;
          delivery_scope = b.delivery_scope;
          literal_value = value;
        }
        ∷ rest)
  ]
]

unfoldable pub resolve_runtime_literal_bindings : Runtime → Bytes → Option (List FrozenLiteral)
resolve_runtime_literal_bindings rt environment_id =
    scan_literals (bindings_of is_literal rt environment_id)

-- `INSERT` of one row for each value, in the order of the values.
unfoldable pub insert_frozen {ℓ} : {A : Type ℓ} → ℕ → List A → List (Frozen A) → List (Frozen A)
insert_frozen attempt_id [] rows = rows
insert_frozen attempt_id (x ∷ xs) rows =
    insert_frozen attempt_id xs (record { attempt_id = attempt_id; frozen = x } ∷ rows)

-- The rows of an attempt, in the order of their insertion, which keeps the latest first. The queries
-- put them in their order by `sort_by`.
unfoldable pub frozen_of {ℓ} : {A : Type ℓ} → ℕ → List (Frozen A) → List A
frozen_of attempt_id [] = []
frozen_of attempt_id (r ∷ rows) =
    if r.attempt_id == attempt_id
    then frozen_of attempt_id rows ++ r.frozen ∷ []
    else frozen_of attempt_id rows

unfoldable pub insert_attempt_execution : Runtime → ℕ → FrozenExecution → Runtime
insert_attempt_execution rt attempt_id config = record rt {
  executions = record { attempt_id = attempt_id; frozen = config } ∷ rt.executions;
}

unfoldable pub insert_frozen_secret_versions : Runtime → ℕ → List FrozenBinding → Runtime
insert_frozen_secret_versions rt attempt_id bindings = record rt {
  frozen_secrets = insert_frozen attempt_id bindings rt.frozen_secrets;
}

unfoldable pub insert_frozen_literal_values : Runtime → ℕ → List FrozenLiteral → Runtime
insert_frozen_literal_values rt attempt_id literals = record rt {
  frozen_literals = insert_frozen attempt_id literals rt.frozen_literals;
}
