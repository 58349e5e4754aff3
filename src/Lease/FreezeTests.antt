-- ===== src/Lease/FreezeTests.antt =====
-- The freeze of a claim and the release of a deployment, at concrete inputs.
use auto_deploy.Base.{
  ℕ, ◌≡◌, refl, true, false, List, [], ◌∷◌, none, some, Bytes, bytes_eq, ok, err, Bytes-discrete,
  ℕ_discrete, ◌==◌, if◌then◌else◌,
}
use auto_deploy.Base.Sorting.{bytes_ltb, sort_by, insert_by, filter_rows}
use auto_deploy.Base.Strings.{bytes}
use auto_deploy.Base.Table.{find_row}
use auto_deploy.Lease.Runtime.{Runtime, candidate, frozen_of}
use auto_deploy.Lease.Freeze.{Snapshot, ensure_release}
use auto_deploy.Lease.State.{corrupt_state}
use auto_deploy.Lease.Claim.{freeze, fresh, retry, plan_claim}
use auto_deploy.Lease.Digests.{config_parts-injective}
use auto_deploy.Lease.Runtime.{FrozenBinding, FrozenLiteral}
use auto_deploy.Lease.Freezing.{HasFrozen, IsUnfrozen, freeze_again, ensure_release-pinned}
use auto_deploy.Lease.ClaimTests.{env_id, execution, runtime, job, store, frozen}
use auto_deploy.Lease.Claim.{plan_claim}
use auto_deploy.Lease.Runtime.{
  Binding, secret, literal_nonsecret, resolve_runtime_secret_bindings,
  resolve_runtime_literal_bindings, join_secrets, scan_literals,
}
use auto_deploy.Base.Sorting.{bytes_ltb, insert_by, filter_rows}

abbrev secret_row : Bytes → FrozenBinding
secret_row name = record {
  variable_name = name;
  delivery_scope = bytes "runtime";
  secret_version_id = bytes "v1";
}

-- The rows of the bindings, in another order than that of the names.
abbrev secret_binding : Bytes → Binding
secret_binding name = record {
  environment_id = env_id;
  variable_name = name;
  kind = secret;
  secret_head_id = some (bytes "head");
  delivery_scope = bytes "runtime";
  literal_value = none;
}

abbrev literal_binding : Binding
literal_binding = record {
  environment_id = env_id;
  variable_name = bytes "MODE";
  kind = literal_nonsecret;
  secret_head_id = none;
  delivery_scope = bytes "runtime";
  literal_value = some (bytes "on");
}

abbrev bound_runtime : Runtime
bound_runtime = record runtime {
  bindings = secret_binding (bytes "B") ∷ literal_binding ∷ secret_binding (bytes "A") ∷ [];
  secret_heads = record { id = bytes "head"; current_version_id = some (bytes "v1") } ∷ [];
  secret_versions = record { id = bytes "v1"; is_active = true } ∷ [];
}

abbrev two_secrets : Snapshot
two_secrets = record frozen {
  bindings = secret_row (bytes "A") ∷ secret_row (bytes "B") ∷ [];
  literals =
      record {
        variable_name = bytes "MODE";
        delivery_scope = bytes "runtime";
        literal_value = bytes "on";
      }
      ∷ [];
}

unfrozen : (i : ℕ) → (3 == i) ≡ false → IsUnfrozen bound_runtime i
unfolding frozen_of
unfrozen i ne = record { bindings = refl; literals = refl }

first_plan :
    plan_claim
      (record store { runtime = bound_runtime })
      (record job { attempt_count = 0 })
      execution
    ≡ ok (some (fresh two_secrets))
unfolding plan_claim resolve_runtime_secret_bindings resolve_runtime_literal_bindings join_secrets
    scan_literals sort_by insert_by filter_rows bytes_ltb find_row Bytes-discrete ℕ_discrete
first_plan = refl

freeze_again_example :
    (rt₁ rt₂ : Runtime) × (freeze bound_runtime 5 (fresh two_secrets) ≡ ok (two_secrets, rt₁))
    × (freeze rt₁ 6 (retry 5) ≡ ok (two_secrets, rt₂))
    × HasFrozen rt₂ 6 two_secrets
freeze_again_example =
    freeze_again (record store { runtime = bound_runtime }) (record job { attempt_count = 0 })
      execution 5 6 two_secrets first_plan refl (unfrozen 5 refl) (unfrozen 6 refl)

abbrev digest : Bytes
digest = bytes "0123456789abcdef0123456789abcdef"

abbrev released : Runtime
released = record runtime {
  releases =
      record {
        id = 3 ∷ [];
        deployment_id = 3 ∷ [];
        environment_id = env_id;
        image_digest = none;
        config_digest = digest;
        commit_sha = bytes "ab";
        strategy = 98 ∷ [];
        state = candidate;
      }
      ∷ [];
}

first_release :
    ensure_release runtime (3 ∷ []) env_id (bytes "ab") (98 ∷ []) digest ≡ ok (3 ∷ [], released)
unfolding ensure_release find_row
first_release = refl

ensure_release-pinned_example :
    ensure_release released (3 ∷ []) env_id (bytes "ab") (98 ∷ []) (1 ∷ [])
    ≡ (if bytes_eq digest (1 ∷ []) then ok (3 ∷ [], released) else err corrupt_state)
ensure_release-pinned_example =
    ensure_release-pinned runtime (3 ∷ []) env_id (bytes "ab") (98 ∷ []) digest (3 ∷ []) released
      first_release refl env_id (bytes "ab") (98 ∷ []) (1 ∷ [])

abbrev bound : List FrozenBinding
bound =
    record {
      variable_name = bytes "TOKEN";
      delivery_scope = bytes "runtime";
      secret_version_id = 5 ∷ [];
    }
    ∷ []

config_parts-injective_example :
    (execution ≡ execution) × (bound ≡ bound) × (◌≡◌ {A = List FrozenLiteral} [] [])
config_parts-injective_example = config_parts-injective execution execution bound bound [] [] refl
