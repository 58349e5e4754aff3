-- ===== src/Lease/Activation.antt =====
-- The rule of an unresolved activation (internal/store/postgres/activation_state.go) and the block
-- that records it for reconciliation (`blockActivationForReconciliation`,
-- `divertUnresolvedActivation` of agent_lease_repository.go). Messages are left out.
use auto_deploy.Base.{
  ℕ, Bool, true, false, not, ◌&&◌, Option, none, some, ◌==◌, ltb, if◌then◌else◌, Bytes, bytes_eq,
  Result, ok,
}
use auto_deploy.Base.Table.{find_row, update_rows, exists_row}
use auto_deploy.Base.Strings.{bytes}
use auto_deploy.Lease.State.{
  Store, Slot, Operation, OperationState, OperationKind, activate, switch_authorized,
  reconciliation_required, op_succeeded, op_failed, RouteHead, Error, stale, corrupt_state,
  activation_reconciliation_required, append_job_event, find_slot, update_slot, ◌>>=◌, ◌>>◌, guard,
}

-- The terminal states alone resolve an activation.
unfoldable pub unresolved_activation : OperationState → Bool
unresolved_activation op_succeeded = false
unresolved_activation op_failed = false
unresolved_activation _ = true

abbrev pub is_activate : OperationKind → Bool
is_activate activate = true
is_activate _ = false

-- `unresolvedActivationSQL`.
abbrev pub is_unresolved : Operation → Bool
is_unresolved o = is_activate o.kind && unresolved_activation o.state

abbrev pub is_switch_authorized : OperationState → Bool
is_switch_authorized switch_authorized = true
is_switch_authorized _ = false

abbrev pub holds_unresolved : ℕ → Bytes → Operation → Bool
holds_unresolved attempt_id environment_id o =
    o.attempt_id == attempt_id && bytes_eq o.environment_id environment_id && is_unresolved o

abbrev pub flag_head : ℕ → RouteHead → RouteHead
flag_head now r = record r {
  reconciliation_required = true;
  updated_at = if ltb r.updated_at now then now else r.updated_at;
}

-- A missing route head is tolerated, and one that is flagged already is not written.
unfoldable pub flag_route_head : Bytes → ℕ → Store → Store
flag_route_head environment_id now st = record st {
  route_heads =
      update_rows (λ r. bytes_eq r.environment_id environment_id && not r.reconciliation_required)
        (flag_head now) st.route_heads;
}

abbrev pub close_operation : ℕ → Bytes → Operation → Operation
close_operation now summary o = record o {
  state = reconciliation_required;
  closed_at = some now;
  outcome_summary = summary;
}

abbrev pub is_open_operation : ℕ → Operation → Bool
is_open_operation operation_id o = o.id == operation_id && is_switch_authorized o.state

abbrev pub flag_slot : ℕ → ℕ → Slot → Slot
flag_slot attempt_id now s = record s {
  reconciliation_required = true;
  reconciliation_attempt_id = some attempt_id;
  updated_at = now;
}

-- The writes of the block, in their order.
unfoldable pub blocked_store : Store → ℕ → ℕ → ℕ → Bytes → Bytes → ℕ → Store
blocked_store st job_id attempt_id operation_id environment_id summary now =
    let closed = record st {
      operations =
          update_rows (is_open_operation operation_id) (close_operation now summary) st.operations;
    } in
    append_job_event job_id (some attempt_id) activation_reconciliation_required (
      update_slot environment_id (flag_slot attempt_id now)
        (flag_route_head environment_id now closed))

abbrev is_found {ℓ} : {A : Type ℓ} → Option A → Bool
is_found none = false
is_found (some a) = true

-- `now` is the clock that the block reads itself, after its locks.
unfoldable pub block_activation_for_reconciliation :
    Store → ℕ → ℕ → ℕ → Bytes → Bytes → ℕ → Result Error Store
block_activation_for_reconciliation st job_id attempt_id operation_id environment_id summary now =
    do
      guard (exists_row (is_open_operation operation_id) st.operations) stale
      guard (is_found (find_slot environment_id st)) corrupt_state
      ok (blocked_store st job_id attempt_id operation_id environment_id summary now)

abbrev pub activation_blocked_by_authority_end_summary : Bytes
activation_blocked_by_authority_end_summary =
    bytes
      "attempt authority ended (expired or server revoked) while the activation was unresolved; live traffic may already have switched; operator reconciliation required"

-- Whether the attempt was diverted, and the store after.
unfoldable pub divert_unresolved_activation :
    Store → ℕ → ℕ → Bytes → ℕ → Result Error (Bool × Store)
divert_unresolved_activation st job_id attempt_id environment_id now =
    elim (find_row (holds_unresolved attempt_id environment_id) st.operations) [
      | none ↦ ok (false, st)
      | some o ↦
          if not (is_switch_authorized o.state)
          then ok (true, st)
          else block_activation_for_reconciliation st job_id attempt_id o.id environment_id
              activation_blocked_by_authority_end_summary now
            >>= λ st'. ok (true, st')
    ]
