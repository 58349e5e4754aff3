-- ===== src/Lease/ResolutionTests.antt =====
-- Runs of the declared resolution of a blocked activation.
use auto_deploy.Base.{◌≡◌, refl, [], ◌∷◌, some, ok, err, Bytes-discrete, ℕ_discrete}
use auto_deploy.Base.Strings.{bytes}
use auto_deploy.Base.Strings
use auto_deploy.Base.Table
use auto_deploy.Base.Time
use auto_deploy.Deployment
use auto_deploy.Github
use auto_deploy.Lease.State
use auto_deploy.Lease.State.{
  Store, Slot, activation_authorized, activation_reconciliation_required, find_slot,
}
use auto_deploy.Lease.Activation.{close_operation, flag_slot, flag_head, unresolved_activation}
use auto_deploy.Lease.Deployments
use auto_deploy.Lease.Recording.{IsKeyed}
use auto_deploy.Lease.Resolving
use auto_deploy.Lease.Resolving.{DeclaredResolution, outcome_not_activated, resolve_declared}
use auto_deploy.Lease.Declaring
use auto_deploy.Lease.Declaring.{agent_resolution, reconcile_activation}
use auto_deploy.Lease.Resolved.{is_unresolved_in}
use auto_deploy.Lease.Settled.{IsSole, IsSettled, resolve-IsSettled}
use auto_deploy.Lease.ActivationSamples.{sum, slot, head, activating_store, authorized}

abbrev flagged_slot : Slot
flagged_slot = flag_slot 5 8000 slot

-- The store that a failure report left.
abbrev blocked : Store
blocked = record activating_store {
  operations = close_operation 8000 (bytes "boom") authorized ∷ [];
  slots = flagged_slot ∷ [];
  route_heads = flag_head 8000 head ∷ [];
  events =
      record { job_id = 4; attempt_id = some 5; event_type = activation_reconciliation_required }
      ∷ record { job_id = 4; attempt_id = some 5; event_type = activation_authorized }
      ∷ [];
}

abbrev declared : DeclaredResolution
declared =
    agent_resolution (bytes "s1") (bytes "env1") 4 5 2 flagged_slot outcome_not_activated (sum [])

abbrev resolved : Store
resolved = elim (resolve_declared declared 9000 blocked) [ ok st ↦ st | err e ↦ blocked ]

resolution : resolve_declared declared 9000 blocked ≡ ok resolved
unfolding resolve_declared Resolving.resolve_operation Resolving.resolve_writes
    Resolving.resolve_not_activated Resolving.clear_head Resolving.fail_rows
    Resolving.declared_summary Table.find_row Bytes-discrete ℕ_discrete
    Deployments.transition_deployment Deployments.read_snapshot Deployment.rehydrate
    Deployment.validate Deployment.validate_identity Deployment.validate_fields
    Deployment.validate_trail Deployment.validate_events Deployment.is_known_status
    Deployment.status_eq Deployment.restored Time.canonical_time Deployment.transition
    Deployment.is_terminal Deployment.can_transition Deployment.advanced Deployment.snapshot
    Deployment.saved Deployments.save Deployments.checked_snapshot Deployments.same_identity
    Deployments.matching_prefix Deployments.saved_row Deployments.drop_events State.append_job_event
    Table.update_rows Table.exists_row unresolved_activation
resolution = refl

-- The agent's call, and the same call again.
first_call :
    reconcile_activation blocked
      (bytes "s1")
      (1 ∷ 2 ∷ [])
      (bytes "env1")
      5
      2
      outcome_not_activated
      (sum [])
      9000
    ≡ ok resolved
unfolding reconcile_activation resolve_declared Github.valid_opaque_id
    State.lock_active_server_credential Strings.all_bytes Resolving.resolve_operation
    Resolving.resolve_writes Resolving.resolve_not_activated Resolving.clear_head
    Resolving.fail_rows Resolving.declared_summary Table.find_row Bytes-discrete ℕ_discrete
    Deployments.transition_deployment Deployments.read_snapshot Deployment.rehydrate
    Deployment.validate Deployment.validate_identity Deployment.validate_fields
    Deployment.validate_trail Deployment.validate_events Deployment.is_known_status
    Deployment.status_eq Deployment.restored Time.canonical_time Deployment.transition
    Deployment.is_terminal Deployment.can_transition Deployment.advanced Deployment.snapshot
    Deployment.saved Deployments.save Deployments.checked_snapshot Deployments.same_identity
    Deployments.matching_prefix Deployments.saved_row Deployments.drop_events State.append_job_event
    Table.update_rows Table.exists_row unresolved_activation
first_call = refl

repeated_call :
    reconcile_activation resolved
      (bytes "s1")
      (1 ∷ 2 ∷ [])
      (bytes "env1")
      5
      2
      outcome_not_activated
      (sum [])
      9500
    ≡ ok resolved
unfolding reconcile_activation resolve_declared Github.valid_opaque_id
    State.lock_active_server_credential Strings.all_bytes Resolving.resolve_operation
    Resolving.resolve_writes Resolving.resolve_not_activated Resolving.clear_head
    Resolving.fail_rows Resolving.declared_summary Table.find_row Bytes-discrete ℕ_discrete
    Deployments.transition_deployment Deployments.read_snapshot Deployment.rehydrate
    Deployment.validate Deployment.validate_identity Deployment.validate_fields
    Deployment.validate_trail Deployment.validate_events Deployment.is_known_status
    Deployment.status_eq Deployment.restored Time.canonical_time Deployment.transition
    Deployment.is_terminal Deployment.can_transition Deployment.advanced Deployment.snapshot
    Deployment.saved Deployments.save Deployments.checked_snapshot Deployments.same_identity
    Deployments.matching_prefix Deployments.saved_row Deployments.drop_events State.append_job_event
    Table.update_rows Table.exists_row unresolved_activation Declaring.confirm_reconciled
    Resolving.agree_resolved_outcome Resolving.newest
repeated_call = refl

one_unresolved : IsSole (is_unresolved_in (bytes "env1")) blocked.operations
unfolding Table.exists_row
one_unresolved = (λ h. refl, tt)

one_slot : IsKeyed blocked.slots
unfolding Table.exists_row
one_slot = (refl, tt)

slot_found : find_slot (bytes "env1") blocked ≡ some flagged_slot
unfolding Table.find_row Bytes-discrete ℕ_discrete
slot_found = refl

resolve-IsSettled_example : IsSettled (bytes "env1") resolved
resolve-IsSettled_example =
    resolve-IsSettled declared 9000 blocked resolved flagged_slot resolution one_unresolved one_slot
      slot_found
