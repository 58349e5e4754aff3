-- ===== src/Agent/Leases.antt =====
-- internal/agent/client/run.go: what the agent does with a claimed lease. The executor, the ticker
-- and the control plane are the events that it waits for.
use auto_deploy.Base.{
  ℕ, ◌+◌, Bool, true, false, ◌&&◌, ◌||◌, List, [], ◌∷◌, Option, none, some, if◌then◌else◌, Bytes,
  ok, err,
}
use auto_deploy.Base.Encoding.{ℤ}
use auto_deploy.Queue.{FailureClass, CompletionOutcome, second}
use auto_deploy.Queue
use auto_deploy.Agent.State.{Fence, leb_int, Directory, WriteRun, Json, load, save}

-- The fields of a claimed lease that the loop reads.
pub record Lease : Type 0 where
  pub environment_id : Bytes
  pub attempt_id : ℕ
  pub fence : ℤ

pub record Outcome : Type 0 where
  pub succeeded : Bool
  pub failure_class : FailureClass
  pub operation_id : Bytes
  pub result_digest : Bytes

-- What a renewal is answered: its result, `ErrStaleLease`, or any other error.
pub data Answer : Type 0 where
  renewed : Bool → Answer
  stale_lease : Answer
  other_error : Answer

-- What the loop waits for: the outcome of the executor, a tick with the answer to the renewal that it
-- sends, or the end of the context.
pub data Event : Type 0 where
  result : Outcome → Event
  tick : Answer → Event
  done : Event

-- The calls to the control plane.
pub data Request : Type 0 where
  renew : ℕ → ℤ → ℕ → Request
  cancel_ack : ℕ → ℤ → Bytes → Bytes → Request
  complete : ℕ → ℤ → CompletionOutcome → Option FailureClass → Bytes → Bytes → Request

abbrev pub new_fence : Lease → Fence
new_fence lease = record {
  environment_id = lease.environment_id;
  highest_accepted_fence = lease.fence;
  reconciliation_required = false;
}

-- Whether the stored fence forbids the lease.
abbrev pub rejects : Fence × Bool → Lease → Bool
rejects (stored, existed) lease =
    existed && (stored.reconciliation_required || leb_int lease.fence stored.highest_accepted_fence)

unfoldable pub report_outcome : Lease → Outcome → Bool → Request
report_outcome lease o true = cancel_ack lease.attempt_id lease.fence o.operation_id o.result_digest
report_outcome lease o false =
    if o.succeeded
    then complete lease.attempt_id lease.fence Queue.completion_succeeded none o.operation_id
        o.result_digest
    else complete lease.attempt_id lease.fence Queue.completion_failed (some o.failure_class)
        o.operation_id o.result_digest

module _ (j : Json) where
  -- The start of runLease: whether the lease is acted on. A crash is a failing write.
  unfoldable pub accept : WriteRun → WriteRun → Directory → Lease → Directory × Bool
  accept w v d lease = elim (load j d lease.environment_id) [
    | err e ↦ (d, false)
    | ok stored ↦ if rejects stored lease then (d, false) else save j w v d (new_fence lease)
  ]

  unfoldable pub mark_reconciliation_required : WriteRun → WriteRun → Directory → Bytes → Directory
  mark_reconciliation_required w v d environment_id = elim (load j d environment_id) [
    | err e ↦ d
    | ok (stored, existed) ↦
        (save j w v d
          (record stored { environment_id = environment_id; reconciliation_required = true })).0
  ]

  -- The loop, on the events in their order: the requests that are sent, and the directory.
  unfoldable pub loop :
      WriteRun → WriteRun → Directory → Lease → ℕ → Bool → List Event → List Request × Directory
  loop w v d lease sequence cancelled [] = ([], d)
  loop w v d lease sequence cancelled (result o ∷ es) = (report_outcome lease o cancelled ∷ [], d)
  loop w v d lease sequence cancelled (done ∷ es) = ([], d)
  loop w v d lease sequence cancelled (tick stale_lease ∷ es) = (
    renew lease.attempt_id lease.fence (sequence + 1) ∷ [],
    mark_reconciliation_required w v d lease.environment_id,
  )
  loop w v d lease sequence cancelled (tick other_error ∷ es) =
      let (rest, d') = loop w v d lease sequence cancelled es in
      (renew lease.attempt_id lease.fence (sequence + 1) ∷ rest, d')
  loop w v d lease sequence cancelled (tick (renewed cancel_requested) ∷ es) =
      let (rest, d') = loop w v d lease (sequence + 1) (cancelled || cancel_requested) es in
      (renew lease.attempt_id lease.fence (sequence + 1) ∷ rest, d')

  unfoldable pub run_lease :
      WriteRun
      → WriteRun
      → WriteRun
      → WriteRun
      → Directory
      → Lease
      → List Event
      → List Request × Directory
  run_lease w v w' v' d lease events =
      let (d', accepted) = accept w v d lease in
      if accepted then loop w' v' d' lease 0 false events else ([], d')
