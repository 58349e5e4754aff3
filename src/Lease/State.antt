-- ===== src/Lease/State.antt =====
-- The rows of internal/store/postgres/agent_lease_repository.go, the lookups and the updates of its
-- SQL statements, and the check of a server's credential. A timestamp is a number of nanoseconds.
-- Ids of rows and fences are natural numbers: a negative one is refused by every guard as 0 is.
use auto_deploy.Base.{
  ℕ, Bool, true, false, ◌&&◌, List, [], ◌∷◌, Option, none, some, ◌==◌, if◌then◌else◌, Bytes,
  bytes_eq, Result, ok, err,
}
use auto_deploy.Base.Table.{find_row, update_rows}
use auto_deploy.Deployment.{Snapshot}
use auto_deploy.Deployment
use auto_deploy.Queue.{AttemptState, FailureClass}
use auto_deploy.Base.Encoding.{ℤ}
use auto_deploy.Lease.Runtime.{Runtime}

pub data JobState : Type 0 where
  job_queued job_leased retry_wait job_succeeded job_failed job_cancelled dead : JobState

-- The columns of a job that no lease operation writes: they are handed out, or ordered by.
pub record Enqueued : Type 0 where
  pub job_id : ℕ
  pub project_id : Bytes
  pub repository_id : ℕ
  pub full_ref : Bytes
  pub commit_sha : Bytes
  pub priority : ℤ
  pub created_at : ℕ

pub record Job : Type 0 where
  pub id : ℕ
  pub owner_id : Bytes
  pub environment_id : Bytes
  pub server_id : Bytes
  pub deployment_id : Bytes
  pub state : JobState
  pub available_at : ℕ
  pub cancel_requested_at : Option ℕ
  pub attempt_count : ℕ
  pub updated_at : ℕ

pub record Attempt : Type 0 where
  pub id : ℕ
  pub job_id : ℕ
  pub attempt_number : ℕ
  pub server_id : Bytes
  pub environment_id : Bytes
  pub fence : ℕ
  pub state : AttemptState
  pub renewal_sequence : ℕ
  pub lease_expires_at : ℕ
  pub authority_expires_at : ℕ
  pub cancel_deadline_at : Option ℕ
  pub failure_class : Option FailureClass
  pub result_operation_id : Option Bytes
  pub result_digest : Option Bytes
  pub closed_at : Option ℕ

pub record Slot : Type 0 where
  pub environment_id : Bytes
  pub fence : ℕ
  pub current_attempt_id : Option ℕ
  pub reconciliation_required : Bool
  pub reconciliation_attempt_id : Option ℕ
  pub updated_at : ℕ

-- The states of a row of release_operations; `started` is that of the other kinds too.
pub data OperationState : Type 0 where
  started switch_authorized reconciliation_required op_succeeded op_failed : OperationState

pub data OperationKind : Type 0 where
  prepare activate rollback retire cleanup : OperationKind

pub record Operation : Type 0 where
  pub id : ℕ
  pub attempt_id : ℕ
  pub environment_id : Bytes
  pub fence : ℕ
  pub kind : OperationKind
  pub state : OperationState
  pub outcome_summary : Bytes
  pub closed_at : Option ℕ
  pub release_id : Bytes
  pub job_id : ℕ
  pub digest : Bytes
  pub route_digest : Bytes
  pub expected_active_release_id : Option Bytes
  pub expected_route_revision : ℕ

pub record RouteHead : Type 0 where
  pub environment_id : Bytes
  pub hostname : Bytes
  pub route_revision : ℕ
  pub active_release_id : Option Bytes
  pub reconciliation_required : Bool
  pub updated_at : ℕ

pub record RouteEvent : Type 0 where
  pub environment_id : Bytes
  pub event_kind : Bytes
  pub route_revision : ℕ
  pub hostname : Option Bytes
  pub active_release_id : Option Bytes

pub data EventType : Type 0 where
  claimed cancel_requested event_cancelled event_expired retry_scheduled event_succeeded : EventType
  event_failed event_dead reconciled activation_reconciliation_required : EventType
  activation_authorized activated activation_late_report activation_not_activated : EventType

pub record JobEvent : Type 0 where
  pub job_id : ℕ
  pub attempt_id : Option ℕ
  pub event_type : EventType

-- A server row with the digest of its active credential, if it has one.
pub record Server : Type 0 where
  pub id : Bytes
  pub is_active : Bool
  pub credential_digest : Option Bytes

pub record Store : Type 0 where
  pub servers : List Server
  pub jobs : List Job
  pub attempts : List Attempt
  pub slots : List Slot
  pub operations : List Operation
  pub route_heads : List RouteHead
  pub route_events : List RouteEvent  -- the latest first
  pub deployments : List Snapshot
  pub runtime : Runtime
  pub enqueued : List Enqueued
  pub events : List JobEvent  -- the latest first; `sequence` is the position within the job

pub data Error : Type 0 where
  authorization_denied stale integrity_conflict invalid_input job_terminal job_activating : Error
  activation_open activation_unresolved corrupt_state : Error
  environment_blocked no_route_head candidate_not_ready invalid_route : Error
  route_moved invalid_from_state : Error
  block_unrecorded late_report_recorded outcome_mismatch constraint_violation : Error
  -- A row that was locked is not there to be updated.
  not_updated : Error
  -- A violated CHECK, after which PostgreSQL refuses every statement of the transaction.
  transaction_aborted : Error
  -- `pgx.ErrNoRows` of a row that the caller was to lock, wrapped.
  no_rows : Error
  not_found revision_conflict revision_overflow : Error
  domain : Deployment.Error → Error

-- Lookups by key.
abbrev pub find_job : ℕ → Store → Option Job
find_job i st = find_row (λ r. r.id == i) st.jobs

abbrev pub find_attempt : ℕ → Store → Option Attempt
find_attempt i st = find_row (λ r. r.id == i) st.attempts

abbrev pub find_slot : Bytes → Store → Option Slot
find_slot e st = find_row (λ r. bytes_eq r.environment_id e) st.slots

abbrev pub find_server : Bytes → List Server → Option Server
find_server i servers = find_row (λ r. bytes_eq r.id i) servers

abbrev pub find_head : Bytes → Store → Option RouteHead
find_head e st = find_row (λ r. bytes_eq r.environment_id e) st.route_heads

-- Updates by key.
abbrev pub update_job : ℕ → (Job → Job) → Store → Store
update_job i f st = record st { jobs = update_rows (λ r. r.id == i) f st.jobs }

abbrev pub update_attempt : ℕ → (Attempt → Attempt) → Store → Store
update_attempt i f st = record st { attempts = update_rows (λ r. r.id == i) f st.attempts }

abbrev pub update_slot : Bytes → (Slot → Slot) → Store → Store
update_slot e f st = record st { slots = update_rows (λ r. bytes_eq r.environment_id e) f st.slots }

unfoldable pub append_job_event : ℕ → Option ℕ → EventType → Store → Store
append_job_event job attempt type st = record st {
  events = record { job_id = job; attempt_id = attempt; event_type = type } ∷ st.events;
}

infixl 5 ◌>>=◌ ◌>>◌
abbrev pub ◌>>=◌ {ℓ κ} :
    {A : Type ℓ} {B : Type κ} → Result Error A → (A → Result Error B) → Result Error B
ok a >>= f = f a
err e >>= f = err e

abbrev pub ◌>>◌ {ℓ} : {B : Type ℓ} → Result Error (Unit {0}) → Result Error B → Result Error B
m >> k = m >>= λ _. k

abbrev pub guard : Bool → Error → Result Error (Unit {0})
guard true e = ok tt
guard false e = err e

abbrev pub or_fail {ℓ} : {A : Type ℓ} → Option A → Error → Result Error A
or_fail none e = err e
or_fail (some a) e = ok a

-- `match_server_credential`: the digest is compared with a dummy where no credential was found, and
-- the comparison then does not count.
unfoldable pub match_server_credential : Bytes → Bool → Bool → Bytes → Bytes → Bool
match_server_credential dummy found_server found_credential stored presented =
    found_server
    && found_credential
    && bytes_eq (if found_credential then stored else dummy) presented

abbrev digest_or : Bytes → Option Bytes → Bytes
digest_or d none = d
digest_or d (some b) = b

abbrev is_some {ℓ} : {A : Type ℓ} → Option A → Bool
is_some none = false
is_some (some a) = true

-- An absent server and one that is not active are the same denial.
unfoldable pub lock_active_server_credential : List Server → Bytes → Bytes → Result Error (Unit {0})
unfolding match_server_credential
lock_active_server_credential servers server presented = elim (find_server server servers) [
  | none ↦ guard (match_server_credential [] false false [] presented) authorization_denied
  | some row ↦
      guard
        (match_server_credential [] row.is_active (row.is_active && is_some row.credential_digest)
          (digest_or [] row.credential_digest) presented)
        authorization_denied
]
