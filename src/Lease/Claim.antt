-- ===== src/Lease/Claim.antt =====
-- `Claim` and `tryClaim` of internal/store/postgres/agent_lease_repository.go. `new_id` is the
-- identity column of the attempts: the id that the next inserted row gets.
use auto_deploy.Base.{
  ℕ, ◌+◌, Bool, true, false, not, ◌&&◌, ◌||◌, List, ◌∷◌, map, Option, none, some, ◌==◌, ltb,
  if◌then◌else◌, Bytes, bytes_eq, Result, ok, err,
}
use auto_deploy.Base.Table.{find_row}
use auto_deploy.Deployment
use auto_deploy.Queue
use auto_deploy.Lease.Runtime.{
  Runtime, FrozenExecution, FrozenBinding, FrozenLiteral, lock_environment_runtime_config,
  resolve_runtime_secret_bindings, resolve_runtime_literal_bindings,
}
use auto_deploy.Lease.State.{
  Store, Job, JobState, job_queued, job_leased, retry_wait, Attempt, Slot, Enqueued, Error, claimed,
  corrupt_state, transaction_aborted, find_job, find_slot, update_job, update_slot,
  append_job_event, ◌>>=◌, ◌>>◌, guard,
}
use auto_deploy.Lease.Deployments.{transition_deployment}
use auto_deploy.Lease.Freeze.{
  Snapshot, insert_snapshot, copy_snapshot, compute_config_digest, ensure_release,
}
use auto_deploy.Lease.Renewal.{is_requested}
use auto_deploy.Lease.Closing.{database_time}

pub record SecretBinding : Type 0 where
  pub variable_name : Bytes
  pub delivery_scope : Bytes
  pub secret_version_id : Bytes

pub record LiteralBinding : Type 0 where
  pub variable_name : Bytes
  pub delivery_scope : Bytes
  pub value : Bytes

abbrev pub to_queue_secret_bindings : List FrozenBinding → List SecretBinding
to_queue_secret_bindings = map (λ b. record {
  variable_name = b.variable_name;
  delivery_scope = b.delivery_scope;
  secret_version_id = b.secret_version_id;
})

abbrev pub to_queue_literal_bindings : List FrozenLiteral → List LiteralBinding
to_queue_literal_bindings = map (λ l. record {
  variable_name = l.variable_name;
  delivery_scope = l.delivery_scope;
  value = l.literal_value;
})

-- The frozen execution columns, which the source lists one by one, stand in one field.
pub record ClaimedLease : Type 0 where
  pub job_id : ℕ
  pub attempt_id : ℕ
  pub attempt_number : ℕ
  pub fence : ℕ
  pub owner_id : Bytes
  pub environment_id : Bytes
  pub deployment_id : Bytes
  pub source : Enqueued
  pub lease_expires_at : ℕ
  pub authority_expires_at : ℕ
  pub execution : FrozenExecution
  pub release_id : Bytes
  pub secret_bindings : List SecretBinding
  pub literal_bindings : List LiteralBinding

-- Where the frozen rows come from: resolved now, or the attempt before.
pub data Plan : Type 0 where
  fresh : Snapshot → Plan
  retry : ℕ → Plan

abbrev pub is_taken : Slot → Bool
is_taken s = elim s.current_attempt_id [ none ↦ s.reconciliation_required | some i ↦ true ]

abbrev pub is_runnable : JobState → Bool
is_runnable job_queued = true
is_runnable retry_wait = true
is_runnable _ = false

-- The locked row against the candidate.
abbrev pub is_claimable : Job → Bytes → Bytes → ℕ → Bool
is_claimable j server environment_id now =
    bytes_eq j.environment_id environment_id
    && bytes_eq j.server_id server
    && is_runnable j.state
    && not (ltb now j.available_at)
    && not (is_requested j.cancel_requested_at)

abbrev pub lease_job : ℕ → Job → Job
lease_job now j = record j {
  state = job_leased;
  attempt_count = j.attempt_count + 1;
  updated_at = now;
}

abbrev pub advance_fence : ℕ → Slot → Slot
advance_fence now s = record s { fence = s.fence + 1; updated_at = now }

abbrev pub occupy : ℕ → ℕ → Slot → Slot
occupy attempt_id now s = record s { current_attempt_id = some attempt_id; updated_at = now }

abbrev pub new_attempt : ℕ → Slot → Job → ℕ → Attempt
new_attempt attempt_id s j expires_at = record {
  id = attempt_id;
  job_id = j.id;
  attempt_number = j.attempt_count + 1;
  server_id = j.server_id;
  environment_id = s.environment_id;
  fence = s.fence + 1;
  state = Queue.leased;
  renewal_sequence = 0;
  lease_expires_at = expires_at;
  authority_expires_at = expires_at;
  cancel_deadline_at = none;
  failure_class = none;
  result_operation_id = none;
  result_digest = none;
  closed_at = none;
}

-- The fence, the job, the attempt and the slot, in the order that the triggers ask for.
unfoldable pub occupied_rows : Store → ℕ → Slot → Job → ℕ → ℕ → Store
occupied_rows st attempt_id s j now expires_at =
    let fenced =
      update_job j.id (lease_job now) (update_slot s.environment_id (advance_fence now) st) in
    update_slot s.environment_id (occupy attempt_id now)
      (record fenced { attempts = new_attempt attempt_id s j expires_at ∷ fenced.attempts })

abbrev pub assign_deployment : Store → Job → ℕ → Result Error Store
assign_deployment st j now =
    if j.attempt_count == 0
    then transition_deployment st j.deployment_id Deployment.assigned (database_time now)
    else ok st

unfoldable pub freeze : Runtime → ℕ → Plan → Result Error (Snapshot × Runtime)
freeze rt attempt_id (fresh s) = ok (s, insert_snapshot rt attempt_id s)
freeze rt attempt_id (retry prev_id) = copy_snapshot rt attempt_id prev_id

abbrev pub lease_of : ℕ → Slot → Job → Enqueued → Snapshot → Bytes → ℕ → ClaimedLease
lease_of attempt_id s j source frozen release_id expires_at = record {
  job_id = j.id;
  attempt_id = attempt_id;
  attempt_number = j.attempt_count + 1;
  fence = s.fence + 1;
  owner_id = j.owner_id;
  environment_id = s.environment_id;
  deployment_id = j.deployment_id;
  source = source;
  lease_expires_at = expires_at;
  authority_expires_at = expires_at;
  execution = frozen.execution;
  release_id = release_id;
  secret_bindings = to_queue_secret_bindings frozen.bindings;
  literal_bindings = to_queue_literal_bindings frozen.literals;
}

-- The writes of a claim. The CHECK of agent_jobs.attempt_count is `BETWEEN 0 AND 5`.
unfoldable pub write_claim :
    (Bytes → Bytes)
    → Store
    → ℕ
    → Plan
    → Slot
    → Job
    → Enqueued
    → ℕ
    → ℕ
    → Result Error (ClaimedLease × Store)
write_claim sum256 st attempt_id plan s j source now expires_at = do
  guard (ltb j.attempt_count 5) transaction_aborted
  st' ← assign_deployment (occupied_rows st attempt_id s j now expires_at) j now
  frozen ← freeze st'.runtime attempt_id plan
  release ←
      ensure_release frozen.1 j.deployment_id s.environment_id source.commit_sha
        frozen.0.execution.release_strategy (compute_config_digest sum256 frozen.0)
  ok (
    lease_of attempt_id s j source frozen.0 release.0 expires_at,
    append_job_event j.id (some attempt_id) claimed (record st' { runtime = release.1 }),
  )

-- What is to be frozen, or `none` where a binding of a first attempt cannot be resolved.
unfoldable pub plan_claim : Store → Job → FrozenExecution → Result Error (Option Plan)
plan_claim st j config =
    if j.attempt_count == 0
    then elim (resolve_runtime_secret_bindings st.runtime j.environment_id) [
      | none ↦ ok none
      | some bindings ↦ elim (resolve_runtime_literal_bindings st.runtime j.environment_id) [
        | none ↦ ok none
        | some literals ↦
            ok (
              some
                (fresh (record { execution = config; bindings = bindings; literals = literals })))
      ]
    ]
    else elim (find_row (λ a. a.job_id == j.id && a.attempt_number == j.attempt_count)
        st.attempts) [ none ↦ err corrupt_state | some a ↦ ok (some (retry a.id)) ]

-- After the checks on the locked rows.
unfoldable pub claim_locked :
    (Bytes → Bytes)
    → (List Attempt → ℕ)
    → Store
    → FrozenExecution
    → Slot
    → Job
    → Enqueued
    → ℕ
    → ℕ
    → Result Error (Option ClaimedLease × Store)
claim_locked sum256 new_id st config s j source now expires_at = plan_claim st j config >>= λ plan.
    elim plan [
      | none ↦ ok (none, st)
      | some p ↦ write_claim sum256 st (new_id st.attempts) p s j source now expires_at >>= λ r.
          ok (some r.0, r.1)
    ]

-- The locked slot and job of a candidate.
unfoldable pub claim_checked :
    (Bytes → Bytes)
    → (List Attempt → ℕ)
    → Store
    → Bytes
    → FrozenExecution
    → Slot
    → Job
    → Enqueued
    → ℕ
    → ℕ
    → Result Error (Option ClaimedLease × Store)
claim_checked sum256 new_id st server config s j source now expires_at =
    if is_taken s || not (is_claimable j server s.environment_id now)
    then ok (none, st)
    else claim_locked sum256 new_id st config s j source now expires_at

-- `none` where the candidate turns out not to be claimable. Rows that another transaction holds are
-- skipped like missing ones.
unfoldable pub try_claim :
    (Bytes → Bytes)
    → (List Attempt → ℕ)
    → Store
    → Bytes
    → ℕ
    → Bytes
    → ℕ
    → ℕ
    → Result Error (Option ClaimedLease × Store)
try_claim sum256 new_id st server job_id environment_id now expires_at =
    elim (lock_environment_runtime_config st.runtime environment_id) [
      | none ↦ ok (none, st)
      | some config ↦ elim (find_slot environment_id st) [
        | none ↦ ok (none, st)
        | some s ↦ elim (find_job job_id st) [
          | none ↦ ok (none, st)
          | some j ↦ elim (find_row (λ q. q.job_id == job_id) st.enqueued) [
            | none ↦ ok (none, st)
            | some source ↦ claim_checked sum256 new_id st server config s j source now expires_at
          ]
        ]
      ]
    ]
