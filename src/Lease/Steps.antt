-- ===== src/Lease/Steps.antt =====
-- Any sequence of calls on the lease store, in any order and interleaving: each transaction is one
-- step. A call that fails leaves the store as it was, and is no step, but for the report of
-- an activation, which may write where it is refused.
use auto_deploy.Base.{ℕ, ◌≡◌, Bool, true, false, List, Option, some, Bytes, ok}
use auto_deploy.Deployment.{Status}
use auto_deploy.Queue.{FailureClass, CompletionOutcome}
use auto_deploy.Lease.State.{Store, Attempt, Operation, Error}
use auto_deploy.Lease.Evidence.{ActivationReport}
use auto_deploy.Lease.LateReports.{BlockOutcome, committed, record_block_in_fresh_transaction}
use auto_deploy.Lease.Reporting.{report_activation_result}
use auto_deploy.Lease.Resolving.{Outcome}
use auto_deploy.Lease.Declaring.{resolve_activation, reconcile_activation}
use auto_deploy.Lease.Resolved.{resolve_activation-Moves, reconcile_activation-Moves}
use auto_deploy.Lease.Recording.{IsKeyed, record_block-Moves}
use auto_deploy.Lease.Reported.{report-Moves}
use auto_deploy.Lease.Renewal.{RenewalResult, renew}
use auto_deploy.Lease.Closing.{expire_one}
use auto_deploy.Lease.Completion.{complete}
use auto_deploy.Lease.Cancellation.{acknowledge_cancellation, request_cancellation}
use auto_deploy.Lease.Reconciliation.{reconcile, mark_reconciled}
use auto_deploy.Lease.Progress.{report_progress}
use auto_deploy.Lease.Claim.{ClaimedLease, try_claim}
use auto_deploy.Lease.Claiming.{ensure_slot}
use auto_deploy.Lease.Sweeping.{revoke_one}
use auto_deploy.Lease.Fencing.{one_occupant}
use auto_deploy.Lease.Entering.{IsFresh, try_claim-Moves, ensure_slot-Moves}
use auto_deploy.Lease.Activating.{ActivationResult, activate_lease}
use auto_deploy.Lease.Activations.{activate-Moves}
use auto_deploy.Lease.Revoking.{revoke_one-Moves}
use auto_deploy.Lease.Views.{Moves, Fenced, authority, occupancy}
use auto_deploy.Lease.Keeping.{Moves-SameRows, renew-Moves}
use auto_deploy.Lease.Endings.{complete-Moves}
use auto_deploy.Lease.Acknowledging.{acknowledge-Moves}
use auto_deploy.Lease.Expiries.{cleared-Moves}
use auto_deploy.Lease.Fencing.{Below, Move-IsFenced, Move-fence_le, Move-closed}
use auto_deploy.Lease.Moving.{
  cancel_by_state-Moves, request→state, reconcile→, mark→, report→, advance_phase-SameRows,
  reconciled-Moves, expire_one-Moves,
}

pub data Step : Store → Store → Type 0 where
  renews :
      (st : Store) (server presented : Bytes) (attempt_id fence sequence now : ℕ)
      (r : RenewalResult) (st' : Store)
      → renew st server presented attempt_id fence sequence now ≡ ok (r, st')
      → Step st st'
  completes :
      (draw : ℕ → ℕ) (st : Store) (server presented : Bytes) (attempt_id fence : ℕ)
      (outcome : CompletionOutcome) (class : FailureClass) (operation_id digest : Bytes) (now : ℕ)
      (st' : Store)
      → complete draw st server presented attempt_id fence outcome class operation_id digest now
        ≡ ok st'
      → Step st st'
  acknowledges :
      (st : Store) (server presented : Bytes) (attempt_id fence : ℕ) (operation_id digest : Bytes)
      (now : ℕ) (st' : Store)
      → acknowledge_cancellation st server presented attempt_id fence operation_id digest now
        ≡ ok st'
      → Step st st'
  cancels :
      (st : Store) (session_locked : Bool) (owner_id : Bytes) (job_id now : ℕ) (st' : Store)
      → request_cancellation st session_locked owner_id job_id now ≡ ok st'
      → Step st st'
  expires :
      (draw : ℕ → ℕ) (st : Store) (attempt_id now block_now : ℕ) (closed : Bool) (st' : Store)
      → expire_one draw st attempt_id now block_now ≡ ok (closed, st')
      → Step st st'
  reconciles :
      (st : Store) (server presented environment_id : Bytes) (attempt_id fence now : ℕ)
      (st' : Store)
      → reconcile st server presented environment_id attempt_id fence now ≡ ok st'
      → Step st st'
  marks :
      (st : Store) (session_locked : Bool) (owner_id environment_id reason : Bytes) (now : ℕ)
      (st' : Store)
      → mark_reconciled st session_locked owner_id environment_id reason now ≡ ok st'
      → Step st st'
  reports :
      (st : Store) (server presented : Bytes) (attempt_id fence : ℕ) (phase : Status) (now : ℕ)
      (st' : Store)
      → report_progress st server presented attempt_id fence phase now ≡ ok st'
      → Step st st'
  claims :
      (sum256 : Bytes → Bytes) (new_id : List Attempt → ℕ) (st : Store) (server : Bytes)
      (job_id : ℕ) (environment_id : Bytes) (now expires_at : ℕ) (r : Option ClaimedLease)
      (st' : Store)
      → IsFresh new_id
      → try_claim sum256 new_id st server job_id environment_id now expires_at ≡ ok (r, st')
      → Step st st'
  activates :
      (sum256 : Bytes → Bytes) (new_id : List Operation → ℕ) (st : Store) (server presented : Bytes)
      (attempt_id fence : ℕ) (image_digest : Bytes) (now : ℕ) (r : ActivationResult) (st' : Store)
      → activate_lease sum256 new_id st server presented attempt_id fence image_digest now
        ≡ ok (r, st')
      → Step st st'
  prepares :
      (environment_id : Bytes) (now : ℕ) (st : Store) → Step st (ensure_slot environment_id now st)
  revokes :
      (draw : ℕ → ℕ) (st : Store) (discovered : Attempt) (now block_now : ℕ) (st' : Store)
      → revoke_one draw st discovered now block_now ≡ ok st'
      → Step st st'
  finishes :
      (sum256 clean : Bytes → Bytes) (error_text : Error → Bytes) (st : Store)
      (server presented : Bytes) (attempt_id fence : ℕ) (operation_id : Bytes) (succeeded : Bool)
      (observed failure_summary : Bytes) (now block_now : ℕ) (e : Option Error) (st' : Store)
      → IsKeyed st.slots
      → report_activation_result sum256 clean error_text committed st server presented attempt_id
          fence operation_id succeeded observed failure_summary now block_now
        ≡ (e, st')
      → Step st st'
  records :
      (sum256 clean : Bytes → Bytes) (st : Store) (server : Bytes)
      (attempt_id fence operation_id : ℕ) (evidence : Bytes) (r : ActivationReport) (now : ℕ)
      (commits : Bool) (o : BlockOutcome) (st' : Store)
      → record_block_in_fresh_transaction sum256 clean st server attempt_id fence operation_id
          evidence r now commits
        ≡ ok (o, st')
      → Step st st'
  resolves :
      (st : Store) (session_locked : Bool) (owner_id environment_id : Bytes) (outcome : Outcome)
      (reason : Bytes) (now : ℕ) (st' : Store)
      → IsKeyed st.slots
      → resolve_activation st session_locked owner_id environment_id outcome reason now ≡ ok st'
      → Step st st'
  declares :
      (st : Store) (server presented environment_id : Bytes) (attempt_id fence : ℕ)
      (outcome : Outcome) (digest : Bytes) (now : ℕ) (st' : Store)
      → IsKeyed st.slots
      → reconcile_activation st server presented environment_id attempt_id fence outcome digest now
        ≡ ok st'
      → Step st st'

pub data Steps (st : Store) : Store → Type 0 where
  here : Steps st st
  next : {mid st' : Store} → Steps st mid → Step mid st' → Steps st st'

-- Every transaction that succeeds, and every report of an activation, on a store that keeps the
-- discipline does to its slots and attempts one of four things: nothing, or a free slot appears, or a
-- new attempt is leased in a free slot under the next fence, or the occupant of one slot leaves it,
-- under the same fence or a later one, and is no longer leased. A claim is given an id that no attempt
-- has, and a report or a resolution finds each environment in one slot at most.
pub Step-Moves : (st st' : Store) → Step st st' → Fenced st → Moves st st'
Step-Moves st st' (renews _ server presented i fence sequence now r _ h) v =
    renew-Moves st server presented i fence sequence now r st' h
Step-Moves st st' (completes draw _ server presented i fence outcome class op digest now _ h) v =
    complete-Moves draw st server presented i fence outcome class op digest now st' h
Step-Moves st st' (acknowledges _ server presented i fence op digest now _ h) v =
    acknowledge-Moves st server presented i fence op digest now st' h
Step-Moves st st' (cancels _ locked owner job_id now _ h) v =
    let (job, found, by) = request→state st locked owner job_id now st' h in
    cancel_by_state-Moves job.state st job_id job now st' by
Step-Moves st st' (expires draw _ i now block_now closed _ h) v =
    expire_one-Moves draw st i now block_now closed st' h v
Step-Moves st st' (reconciles _ server presented e i fence now _ h) v =
    reconciled-Moves st e i now st' (reconcile→ st server presented e i fence now st' h)
Step-Moves st st' (marks _ locked owner e reason now _ h) v =
    let (s, i, a, x, y, z, same) = mark→ st locked owner e reason now st' h in
    rw same (cleared-Moves st e a.job_id s.reconciliation_attempt_id now)
Step-Moves st st' (reports _ server presented i fence phase now _ h) v =
    let (a, j, d, x, y, z, moved) = report→ st server presented i fence phase now st' h in
    Moves-SameRows st st' (advance_phase-SameRows st j.deployment_id d.status phase now st' moved)
Step-Moves st st' (claims sum256 new_id _ server job_id e now expires_at r _ fresh h) v =
    try_claim-Moves sum256 new_id st server job_id e now expires_at r st' h fresh
Step-Moves st st' (activates sum256 new_id _ server presented i fence image now r _ h) v =
    activate-Moves sum256 new_id st server presented i fence image now r st' h
Step-Moves st _ (prepares e now _) v = ensure_slot-Moves e now st
Step-Moves st st' (revokes draw _ discovered now block_now _ h) v =
    revoke_one-Moves draw st discovered now block_now st' h v
Step-Moves st st'
      (finishes sum256 clean text _ server presented i fence op succeeded observed summary now
        block_now e _ key h)
      v =
    report-Moves sum256 clean text st server presented i fence op succeeded observed summary now
      block_now e st' h v key
Step-Moves st st' (records sum256 clean _ server i fence op evidence r now commits o _ h) v =
    record_block-Moves sum256 clean st server i fence op evidence r now commits o st' h
Step-Moves st st' (resolves _ locked owner e outcome reason now _ key h) v =
    resolve_activation-Moves st locked owner e outcome reason now st' h v key
Step-Moves st st' (declares _ server presented e i fence outcome digest now _ key h) v =
    reconcile_activation-Moves st server presented e i fence outcome digest now st' h v key

-- Every transaction keeps the fencing discipline.
pub Step-Fenced : (st st' : Store) → Step st st' → Fenced st → Fenced st'
Step-Fenced st st' s v =
    Move-IsFenced (occupancy st.slots) (authority st.attempts) (occupancy st'.slots)
      (authority st'.attempts) (Step-Moves st st' s v) v

-- After any sequence of transactions from a store that keeps the discipline, the store keeps it.
pub Steps-Fenced : (st st' : Store) → Steps st st' → Fenced st → Fenced st'
Steps-Fenced st st' here v = v
Steps-Fenced st st' (next {mid} r s) v = Step-Fenced mid st' s (Steps-Fenced st mid r v)

-- At most one attempt of an environment is leased, after any sequence of transactions from a store
-- that keeps the discipline: two attempts that are leased there are the same one, under the same
-- fence.
pub Steps-one_occupant :
    (st st' : Store)
    → Steps st st'
    → Fenced st
    → (i j : ℕ) (e : Bytes) (n m : ℕ) → authority st'.attempts i ≡ some (e, n, true)
    → authority st'.attempts j ≡ some (e, m, true)
    → (i ≡ j) × (n ≡ m)
Steps-one_occupant st st' r v i j e n m p q =
    one_occupant (occupancy st'.slots) (authority st'.attempts) (Steps-Fenced st st' r v) i j e n m
      p q

-- No sequence of transactions from a store that keeps the discipline lowers the fence of an
-- environment.
pub Steps-fence_le :
    (st st' : Store)
    → Steps st st'
    → Fenced st
    → (e : Bytes) (n : ℕ) → Below (occupancy st.slots) e n
    → Below (occupancy st'.slots) e n
Steps-fence_le st st' here v e n below = below
Steps-fence_le st st' (next {mid} r s) v e n below =
    Move-fence_le (occupancy mid.slots) (authority mid.attempts) (occupancy st'.slots)
      (authority st'.attempts) (Step-Moves mid st' s (Steps-Fenced st mid r v)) e n
      (Steps-fence_le st mid r v e n below)

-- An attempt that is no longer leased is never leased again, by any sequence of transactions from a
-- store that keeps the discipline: its environment, its fence and its closed state stay.
pub Steps-closed :
    (st st' : Store)
    → Steps st st'
    → Fenced st
    → (i : ℕ) (e : Bytes) (n : ℕ) → authority st.attempts i ≡ some (e, n, false)
    → authority st'.attempts i ≡ some (e, n, false)
Steps-closed st st' here v i e n closed = closed
Steps-closed st st' (next {mid} r s) v i e n closed =
    Move-closed (occupancy mid.slots) (authority mid.attempts) (occupancy st'.slots)
      (authority st'.attempts) (Step-Moves mid st' s (Steps-Fenced st mid r v))
      (Steps-Fenced st mid r v) i e n (Steps-closed st mid r v i e n closed)
