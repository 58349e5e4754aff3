-- ===== src/Deployment/Trail.antt =====
-- The event trail of internal/deployment/deployment.go against an independent description of it: a
-- path in the transition diagram, in the order of time.
use auto_deploy.Base.{ℕ, ◌+◌, ◌≤◌, ◌<◌, ◌≡◌, true, List, [], ◌∷◌, ◌++◌, none, arith, length}
use auto_deploy.Base.Time.{Time}
use auto_deploy.Deployment.{
  Status, queued, assigned, fetching, building, starting, health_checking, activating, healthy,
  Event, status_eq, is_known_status, can_transition, validate_events,
}

pub status_eq→eq : (a b : Status) → status_eq a b ≡ true → a ≡ b
unfolding status_eq
status_eq→eq a b h = ground arith

pub status_eq_refl : (a : Status) → status_eq a a ≡ true
unfolding status_eq
status_eq_refl a = ground arith

-- How far along its life a status is: an upper bound of the events that lead to it.
abbrev pub rank : Status → ℕ
rank queued = 1
rank assigned = 2
rank fetching = 3
rank building = 4
rank starting = 5
rank health_checking = 6
rank activating = 7
rank healthy = 8
rank _ = 9

pub can_transition-rank : (a b : Status) → can_transition a b ≡ true → rank a < rank b
unfolding can_transition
can_transition-rank queued b h = ground arith
can_transition-rank _ b h = ground arith

pub can_transition-IsKnown : (a b : Status) → can_transition a b ≡ true → is_known_status b ≡ true
unfolding can_transition is_known_status
can_transition-IsKnown queued b h = ground arith
can_transition-IsKnown _ b h = ground arith

-- The events lead from a status and an instant to another, each along an edge of the diagram.
abbrev pub IsTrail : Status → Time → List Event → Status → Time → Type 0
IsTrail current previous [] status updated = (current ≡ status) × (previous.nanos ≡ updated.nanos)
IsTrail current previous (e ∷ es) status updated =
    (0 < e.at.nanos)
    × (previous.nanos ≤ e.at.nanos)
    × (e.from ≡ current)
    × (can_transition current e.to ≡ true)
    × IsTrail e.to e.at es status updated

pub validate_events→IsTrail :
    (current : Status) (previous : Time) (index : ℕ) (es : List Event) (status : Status)
    (updated : Time)
    → validate_events current previous index es status updated ≡ none
    → IsTrail current previous es status updated
unfolding validate_events
validate_events→IsTrail current previous index [] status updated h =
    ground (arith, status_eq→eq current status)
validate_events→IsTrail current previous index (e ∷ es) status updated h = ground (
  arith,
  status_eq→eq e.from current,
  validate_events→IsTrail e.to e.at (index + 1) es status updated,
)

pub IsTrail→validate_events :
    (current : Status) (previous : Time) (index : ℕ) (es : List Event) (status : Status)
    (updated : Time)
    → IsTrail current previous es status updated
    → validate_events current previous index es status updated ≡ none
unfolding validate_events
IsTrail→validate_events current previous index [] status updated h =
    ground (arith, status_eq_refl status)
IsTrail→validate_events current previous index (e ∷ es) status updated h = ground (
  arith,
  status_eq_refl current,
  can_transition-IsKnown current e.to,
  IsTrail→validate_events e.to e.at (index + 1) es status updated,
)

pub IsTrail-rank :
    (current : Status) (previous : Time) (es : List Event) (status : Status) (updated : Time)
    → IsTrail current previous es status updated
    → rank current + length es ≤ rank status
IsTrail-rank current previous [] status updated h = ground arith
IsTrail-rank current previous (e ∷ es) status updated h =
    ground (arith, can_transition-rank current e.to, IsTrail-rank e.to e.at es status updated)

pub IsTrail-time :
    (current : Status) (previous : Time) (es : List Event) (status : Status) (updated : Time)
    → IsTrail current previous es status updated
    → previous.nanos ≤ updated.nanos
IsTrail-time current previous [] status updated h = ground arith
IsTrail-time current previous (e ∷ es) status updated h =
    ground (arith, IsTrail-time e.to e.at es status updated)

-- A trail is extended at its end by one event.
pub IsTrail-append :
    (current : Status) (previous : Time) (es : List Event) (status : Status) (updated : Time)
    (to : Status) (at : Time)
    → IsTrail current previous es status updated
    → 0 < at.nanos
    → updated.nanos ≤ at.nanos
    → can_transition status to ≡ true
    → IsTrail current previous (es ++ record { from = status; to = to; at = at } ∷ []) to at
IsTrail-append current previous [] status updated to at h p le c = ground arith
IsTrail-append current previous (e ∷ es) status updated to at h p le c =
    ground (arith, IsTrail-append e.to e.at es status updated to at)
