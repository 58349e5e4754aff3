-- ===== src/Lease/Tests.antt =====
-- One leased attempt, renewed, completed, expired and cancelled; the theorems of Lease at it.
use auto_deploy.Base.{
  ℕ, ◌<◌, ◌≡◌, refl, true, false, [], ◌∷◌, none, some, Bytes, arith, ok, err, Bytes-discrete,
  ℕ_discrete,
}
use auto_deploy.Base.Table.{find_row, update_rows}
use auto_deploy.Github.{valid_opaque_id}
use auto_deploy.Queue.{completion_succeeded, full_jitter_delay, backoff}
use auto_deploy.Queue
use auto_deploy.Lease.State.{
  Store, Job, Attempt, Slot, stale, find_attempt, lock_active_server_credential,
}
use auto_deploy.Lease.Held.{lock_held, has_authority}
use auto_deploy.Lease.Renewal.{RenewalResult, renew, renew_held, extended}
use auto_deploy.Lease.Renewals.{renewed, Extends, OnlyAttempts, renew_lem, renew_replay}
use auto_deploy.Lease.Views.{Fenced, occupancy, authority}
use auto_deploy.Base.Table.{exists_row}
use auto_deploy.Lease.Completion.{
  complete, complete_held, completed_rows, completed_job_state, free_slot, valid_outcome, free,
  record_result,
}
use auto_deploy.Lease.Closing.{write_job, close_job}
use auto_deploy.Lease.Views.{Moves}
use auto_deploy.Queue.{full_jitter_delay, completion_succeeded}
use auto_deploy.Lease.State.{append_job_event, job_succeeded, event_succeeded}
use auto_deploy.Lease.Replays.{complete_replay}
use auto_deploy.Base.{length}
use auto_deploy.Base.Strings.{bytes}
use auto_deploy.Base.Strings.{all_bytes}
use auto_deploy.Lease.Clearing.{mark_reconciled_lem}
use auto_deploy.Lease.Reconciliation.{mark_reconciled, cleared, clear_slot, valid_reason}
use auto_deploy.Lease.Activation.{is_unresolved}
use auto_deploy.Lease.State.{reconciled, find_job, find_slot}
use auto_deploy.Base.{Bool, true, false, bytes_eq, ◌&&◌}
use auto_deploy.Base.Table.{exists_row}
use auto_deploy.Lease.Steps.{
  completes, Steps, Step-Fenced, Step-Moves, Steps-closed, Step, renews, here, next, Steps-Fenced,
  Steps-one_occupant,
}
use auto_deploy.Lease.Samples.{server_id, env_id, job, attempt, earlier, slot, store}

abbrev deadline : ℕ
deadline = 90000000500

abbrev renewal : RenewalResult
renewal = record {
  lease_expires_at = deadline;
  authority_expires_at = deadline;
  cancel_requested = false;
}

abbrev renewed_store : Store
renewed_store = record store { attempts = renewed attempt 1 renewal ∷ earlier ∷ [] }

first_renewal : renew store server_id (1 ∷ 2 ∷ []) 5 2 1 500 ≡ ok (renewal, renewed_store)
unfolding renew renew_held extended lock_held has_authority find_row update_rows ℕ_discrete
    lock_active_server_credential Bytes-discrete valid_opaque_id
first_renewal = refl

-- The fence of an earlier attempt is refused.
stale_renewal : renew store server_id (1 ∷ 2 ∷ []) 5 1 1 500 ≡ err stale
unfolding renew renew_held extended lock_held has_authority find_row update_rows ℕ_discrete
    lock_active_server_credential Bytes-discrete valid_opaque_id
stale_renewal = refl

store-Fenced : Fenced store
unfolding occupancy authority find_row
store-Fenced = record {
  occupant = λ e n i h. ground arith;
  exclusive = λ i e n h. ground arith;
  bounded = λ i e n b h. (2, some 5, ground arith, ground arith);
}

renewing : Step store renewed_store
renewing = renews store server_id (1 ∷ 2 ∷ []) 5 2 1 500 renewal renewed_store first_renewal

abbrev digest : Bytes
digest = bytes "0123456789abcdef0123456789abcdef"

abbrev completed_store : Store
completed_store = record renewed_store {
  attempts =
      record_result Queue.succeeded 600 none (6 ∷ []) digest (renewed attempt 1 renewal)
      ∷ earlier
      ∷ [];
  slots = free 600 slot ∷ [];
  jobs = close_job job_succeeded 600 job ∷ [];
  events = record { job_id = 4; attempt_id = some 5; event_type = event_succeeded } ∷ [];
}

first_completion :
    complete
      (λ b. b)
      renewed_store
      server_id
      (1 ∷ 2 ∷ [])
      5
      2
      completion_succeeded
      (Queue.other [])
      (6 ∷ [])
      digest
      600
    ≡ ok completed_store
unfolding complete complete_held completed_rows completed_job_state free_slot valid_outcome
    write_job full_jitter_delay append_job_event lock_held has_authority find_row update_rows
    exists_row lock_active_server_credential Bytes-discrete valid_opaque_id ℕ_discrete
first_completion = refl

completing : Step renewed_store completed_store
completing =
    completes (λ b. b) renewed_store server_id (1 ∷ 2 ∷ []) 5 2 completion_succeeded
      (Queue.other []) (6 ∷ []) digest 600 completed_store first_completion

run : Steps store completed_store
run = next (next here renewing) completing

renewed_store-Fenced : Fenced renewed_store
renewed_store-Fenced = Step-Fenced store renewed_store renewing store-Fenced

Steps-Fenced_example : Fenced completed_store
Steps-Fenced_example = Steps-Fenced store completed_store run store-Fenced

Step-Moves_example : Moves renewed_store completed_store
Step-Moves_example = Step-Moves renewed_store completed_store completing renewed_store-Fenced

Steps-closed_example : authority completed_store.attempts 3 ≡ some (env_id, 1, false)
unfolding authority find_row
Steps-closed_example = Steps-closed store completed_store run store-Fenced 3 env_id 1 refl

Steps-one_occupant_example : (◌≡◌ {A = ℕ} 5 5) × (◌≡◌ {A = ℕ} 2 2)
unfolding authority find_row
Steps-one_occupant_example =
    Steps-one_occupant store renewed_store (next here renewing) store-Fenced 5 5 env_id 2 2 refl
      refl

renew_lem_example :
    (a : Attempt) × (find_attempt 5 store ≡ some a)
    × (a.fence ≡ 2)
    × (500 < a.authority_expires_at)
    × (find_attempt 5 renewed_store ≡ some (renewed a 1 renewal))
    × Extends store a 1 500 renewal renewed_store
    × OnlyAttempts store renewed_store
renew_lem_example =
    renew_lem store server_id (1 ∷ 2 ∷ []) 5 2 1 500 renewal renewed_store first_renewal

renew_replay_example :
    renew renewed_store server_id (1 ∷ 2 ∷ []) 5 2 1 700 ≡ ok (renewal, renewed_store)
renew_replay_example =
    renew_replay store server_id (1 ∷ 2 ∷ []) 5 2 1 500 renewal renewed_store 700 first_renewal
      (omega arith)

digest-length : length digest ≡ 32
digest-length = refl

complete_replay_example :
    complete
      (λ b. 0)
      completed_store
      server_id
      (1 ∷ 2 ∷ [])
      5
      2
      completion_succeeded
      (Queue.other [])
      (6 ∷ [])
      digest
      99000000000
    ≡ ok completed_store
complete_replay_example =
    complete_replay (λ b. b) renewed_store server_id (1 ∷ 2 ∷ []) 5 2 completion_succeeded
      (Queue.other []) (6 ∷ []) digest 600 completed_store (λ b. 0) 99000000000 digest-length
      first_completion

abbrev blocked_slot : Slot
blocked_slot = record slot {
  current_attempt_id = none;
  reconciliation_required = true;
  reconciliation_attempt_id = some 3;
}

abbrev flagged_store : Store
flagged_store = record store { slots = blocked_slot ∷ [] }

abbrev cleared_store : Store
cleared_store = record flagged_store {
  slots = clear_slot 700 blocked_slot ∷ [];
  events = record { job_id = 4; attempt_id = some 3; event_type = reconciled } ∷ [];
}

first_clearing : mark_reconciled flagged_store true (1 ∷ []) env_id [] 700 ≡ ok cleared_store
unfolding mark_reconciled cleared valid_reason append_job_event find_row update_rows exists_row
    Bytes-discrete valid_opaque_id ℕ_discrete all_bytes
first_clearing = refl

mark_reconciled_lem_example :
    (s : Slot) × (i : ℕ) × (a : Attempt) × (j : Job) × (◌≡◌ {A = Bool} true true)
    × (find_slot env_id flagged_store ≡ some s)
    × (s.reconciliation_attempt_id ≡ some i)
    × (find_attempt i flagged_store ≡ some a)
    × (find_job a.job_id flagged_store ≡ some j)
    × (j.owner_id ≡ 1 ∷ [])
    × (exists_row
          (λ o. bytes_eq o.environment_id env_id && is_unresolved o)
          flagged_store.operations
        ≡ false)
    × (find_slot env_id cleared_store
        ≡ some (record s {
          reconciliation_required = false;
          reconciliation_attempt_id = none;
          updated_at = 700;
        }))
    × (cleared_store.attempts ≡ flagged_store.attempts)
    × (cleared_store.operations ≡ flagged_store.operations)
mark_reconciled_lem_example =
    mark_reconciled_lem flagged_store true (1 ∷ []) env_id [] 700 cleared_store first_clearing
