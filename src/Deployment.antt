-- ===== src/Deployment.antt =====
-- internal/deployment/deployment.go: the deployment aggregate, its lifecycle rules, and the
-- versioned snapshot that the repositories persist. A method on the value `Deployment` is a function
-- of it; an error that wraps a sentinel is the sentinel's constructor, with what it wraps.
pub mod Trail
pub mod Valid
pub mod Transitions
pub mod Reach
mod Tests
use auto_deploy.Base.{
  ℕ, ◌+◌, ◌%◌, ◌^◌, Bool, true, false, not, ◌||◌, List, [], ◌∷◌, ◌++◌, map, Option, none, some,
  ◌==◌, if◌then◌else◌, Bytes, is_empty, length, Result, ok, err, ℕ_discrete,
}
use auto_deploy.Base.Time.{Time, canonical_time, is_zero, before, equal}

-- The type is a Go string: `other s` is any value `s` that is none of the twelve constants, the
-- empty `From` of a creation event included.
pub data Status : Type 0 where
  queued assigned fetching building starting health_checking activating healthy failed : Status
  cancelled superseded rolled_back : Status
  other : Bytes → Status

pub Status-discrete : Discrete Status
Status-discrete = hlevel ℕ_discrete

unfoldable pub status_eq : Status → Status → Bool
unfolding Status-discrete
status_eq a b = elim (Status-discrete a b) [ yes p ↦ true | no p ↦ false ]

pub record Identity : Type 0 where
  pub deployment_id : Bytes
  pub project_id : Bytes
  pub environment_id : Bytes
  pub server_id : Bytes
  pub commit_sha : Bytes

pub record Event : Type 0 where
  pub from : Status
  pub to : Status
  pub at : Time

pub record Snapshot : Type 0 where
  pub version : ℕ  -- uint16
  pub identity : Identity
  pub status : Status
  pub created_at : Time
  pub updated_at : Time
  pub revision : ℕ  -- uint64
  pub events : List Event

pub record Deployment : Type 0 where
  pub identity : Identity
  pub status : Status
  pub created_at : Time
  pub updated_at : Time
  pub revision : ℕ  -- uint64
  pub events : List Event

abbrev pub current_schema_version : ℕ
current_schema_version = 1

-- What `validate` and `validateIdentity` report.
pub data Reason : Type 0 where
  deployment_id_required project_id_required environment_id_required : Reason
  server_id_required commit_sha_required : Reason
  unknown_status_reason : Status → Reason
  invalid_timestamps revision_not_event_count creation_event_required : Reason
  invalid_creation_event : Reason
  timestamp_precedes_prior : ℕ → Reason
  invalid_event_transition : Status → Status → Reason
  disagrees_with_events : Reason

-- The package's sentinels, with what each wraps.
pub data Error : Type 0 where
  invalid_deployment : Reason → Error
  creation_timestamp_required : Error
  unsupported_schema_version : ℕ → Error
  invalid_snapshot : Reason → Error
  unknown_status : Status → Error
  invalid_transition : Status → Status → Error
  terminal_state : Status → Error
  invalid_timestamp : Status → Status → Error

unfoldable pub is_known_status : Status → Bool
is_known_status (other s) = false
is_known_status _ = true

unfoldable pub is_terminal : Status → Bool
is_terminal failed = true
is_terminal cancelled = true
is_terminal superseded = true
is_terminal rolled_back = true
is_terminal _ = false

unfoldable pub can_transition : Status → Status → Bool
unfolding status_eq
can_transition queued to =
    status_eq to assigned || status_eq to cancelled || status_eq to superseded
can_transition assigned to = status_eq to fetching || status_eq to cancelled || status_eq to failed
can_transition fetching to = status_eq to building || status_eq to cancelled || status_eq to failed
can_transition building to = status_eq to starting || status_eq to cancelled || status_eq to failed
can_transition starting to =
    status_eq to health_checking || status_eq to cancelled || status_eq to failed
can_transition health_checking to =
    status_eq to activating || status_eq to cancelled || status_eq to failed
can_transition activating to = status_eq to healthy || status_eq to failed
can_transition healthy to = status_eq to rolled_back
can_transition _ to = false

unfoldable pub agent_reportable_phase : Status → Bool
agent_reportable_phase fetching = true
agent_reportable_phase building = true
agent_reportable_phase starting = true
agent_reportable_phase health_checking = true
agent_reportable_phase _ = false

unfoldable pub execution_order : Status → ℕ × Bool
execution_order queued = (0, true)
execution_order assigned = (1, true)
execution_order fetching = (2, true)
execution_order building = (3, true)
execution_order starting = (4, true)
execution_order health_checking = (5, true)
execution_order activating = (6, true)
execution_order healthy = (7, true)
execution_order _ = (0, false)

-- `none` is the nil error.
unfoldable pub validate_identity : Identity → Option Reason
validate_identity i =
    if is_empty i.deployment_id
    then some deployment_id_required
    else if is_empty i.project_id
    then some project_id_required
    else if is_empty i.environment_id
    then some environment_id_required
    else if is_empty i.server_id
    then some server_id_required
    else if is_empty i.commit_sha
    then some commit_sha_required
    else none

-- The loop of `validate` over `d.events[1:]`, and the check after it.
unfoldable pub validate_events : Status → Time → ℕ → List Event → Status → Time → Option Reason
validate_events current previous_at index [] status updated_at =
    if not (status_eq current status) || not (equal previous_at updated_at)
    then some disagrees_with_events
    else none
validate_events current previous_at index (event ∷ events) status updated_at =
    let rest = validate_events event.to event.at (index + 1) events status updated_at in
    if is_zero event.at || before event.at previous_at
    then some (timestamp_precedes_prior (index + 1))
    else if not (status_eq event.from current)
        || not (is_known_status event.to)
        || not (can_transition current event.to)
    then some (invalid_event_transition event.from event.to)
    else rest

-- `first := d.events[0]` and what follows; the empty list was refused before.
unfoldable pub validate_trail : List Event → Status → Time → Time → Option Reason
validate_trail [] status created_at updated_at = some creation_event_required
validate_trail (first ∷ events) status created_at updated_at =
    if not (status_eq first.from (other []))
      || not (status_eq first.to queued)
      || not (equal first.at created_at)
    then some invalid_creation_event
    else validate_events queued created_at 0 events status updated_at

-- The checks of `validate` after that of the identity.
unfoldable pub validate_fields : Deployment → Option Reason
validate_fields d =
    if not (is_known_status d.status)
    then some (unknown_status_reason d.status)
    else if is_zero d.created_at || is_zero d.updated_at || before d.updated_at d.created_at
    then some invalid_timestamps
    else if d.revision == 0 || not (d.revision == length d.events % 2 ^ 64)
    then some revision_not_event_count
    else validate_trail d.events d.status d.created_at d.updated_at

unfoldable pub validate : Deployment → Option Reason
validate d = elim (validate_identity d.identity) [
  | some reason ↦ some reason
  | none ↦ validate_fields d
]

unfoldable pub new : Identity → Time → Result Error Deployment
new identity created_at = elim (validate_identity identity) [
  | some reason ↦ err (invalid_deployment reason)
  | none ↦
      if is_zero created_at
      then err creation_timestamp_required
      else (let at = canonical_time created_at in
          ok (record {
            identity = identity;
            status = queued;
            created_at = at;
            updated_at = at;
            revision = 1;
            events = record { from = other []; to = queued; at = at } ∷ [];
          }))
]

abbrev pub canonical_event : Event → Event
canonical_event e = record e { at = canonical_time e.at }

-- The aggregate that `Rehydrate` builds, before it validates it.
unfoldable pub restored : Snapshot → Deployment
restored s = record {
  identity = s.identity;
  status = s.status;
  created_at = canonical_time s.created_at;
  updated_at = canonical_time s.updated_at;
  revision = s.revision;
  events = map canonical_event s.events;
}

unfoldable pub rehydrate : Snapshot → Result Error Deployment
rehydrate s =
    if not (s.version == current_schema_version)
    then err (unsupported_schema_version s.version)
    else elim (validate (restored s)) [
      | some reason ↦ err (invalid_snapshot reason)
      | none ↦ ok (restored s)
    ]

-- What `Snapshot` returns of an aggregate that validates.
unfoldable pub saved : Deployment → Snapshot
saved d = record {
  version = current_schema_version;
  identity = d.identity;
  status = d.status;
  created_at = d.created_at;
  updated_at = d.updated_at;
  revision = d.revision;
  events = d.events;
}

unfoldable pub snapshot : Deployment → Result Error Snapshot
snapshot d = elim (validate d) [
  | some reason ↦ err (invalid_deployment reason)
  | none ↦ ok (saved d)
]

-- The value `next` of `Transition`.
unfoldable pub advanced : Deployment → Status → Time → Deployment
advanced d to at = record d {
  status = to;
  updated_at = at;
  revision = (d.revision + 1) % 2 ^ 64;
  events = d.events ++ record { from = d.status; to = to; at = at } ∷ [];
}

-- On an error the method returns `d` itself beside it.
unfoldable pub transition : Deployment → Status → Time → Result Error Deployment
transition d to requested = elim (validate d) [
  | some reason ↦ err (invalid_deployment reason)
  | none ↦
      if not (is_known_status to)
      then err (unknown_status to)
      else if status_eq to d.status
      then ok d
      else (let at = canonical_time requested in
          if is_zero at || before at d.updated_at
          then err (invalid_timestamp d.status to)
          else if is_terminal d.status
          then err (terminal_state d.status)
          else if not (can_transition d.status to)
          then err (invalid_transition d.status to)
          else ok (advanced d to at))
]
