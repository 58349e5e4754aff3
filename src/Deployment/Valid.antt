-- ===== src/Deployment/Valid.antt =====
-- What `validate` of internal/deployment/deployment.go accepts.
use auto_deploy.Base.{◌≤◌, ◌<◌, ◌≡◌, ◌≢◌, ◌↔◌, true, List, [], ◌∷◌, none, arith, length}
use auto_deploy.Base.Time.{Time}
use auto_deploy.Deployment.{
  Status, queued, other, Event, Identity, Deployment, is_known_status, validate_identity,
  validate_trail, validate_fields, validate,
}
use auto_deploy.Deployment.Trail.{
  rank, IsTrail, status_eq→eq, status_eq_refl, validate_events→IsTrail, IsTrail→validate_events,
  IsTrail-rank,
}

pub record IsScoped (i : Identity) : Type 0 where
  pub has_deployment : i.deployment_id ≢ []
  pub has_project : i.project_id ≢ []
  pub has_environment : i.environment_id ≢ []
  pub has_server : i.server_id ≢ []
  pub has_commit : i.commit_sha ≢ []

-- A creation event, and a trail from it.
abbrev pub IsHistory : List Event → Status → Time → Time → Type 0
IsHistory [] status created updated = ⊥
IsHistory (e ∷ es) status created updated =
    (e.from ≡ other [])
    × (e.to ≡ queued)
    × (e.at.nanos ≡ created.nanos)
    × IsTrail queued created es status updated

pub record IsValid (d : Deployment) : Type 0 where
  pub scoped : IsScoped d.identity
  pub known : is_known_status d.status ≡ true
  pub created_set : 0 < d.created_at.nanos
  pub ordered : d.created_at.nanos ≤ d.updated_at.nanos
  pub counted : d.revision ≡ length d.events
  pub history : IsHistory d.events d.status d.created_at d.updated_at

pub validate_identity→IsScoped : (i : Identity) → validate_identity i ≡ none → IsScoped i
unfolding validate_identity
validate_identity→IsScoped i h = ground arith

pub IsScoped→validate_identity : (i : Identity) → IsScoped i → validate_identity i ≡ none
unfolding validate_identity
IsScoped→validate_identity i h = ground arith

rank-le : (s : Status) → rank s ≤ 9
rank-le queued = omega arith
rank-le _ = omega arith

IsHistory-length :
    (es : List Event) (status : Status) (created updated : Time)
    → IsHistory es status created updated
    → length es ≤ rank status
IsHistory-length [] status created updated h = absurd h
IsHistory-length (e ∷ es) status created updated h =
    omega (arith, IsTrail-rank queued created es status updated h.3)

validate_trail→IsHistory :
    (es : List Event) (status : Status) (created updated : Time)
    → validate_trail es status created updated ≡ none
    → IsHistory es status created updated
unfolding validate_trail
validate_trail→IsHistory [] status created updated h = cc
validate_trail→IsHistory (e ∷ es) status created updated h = ground (
  arith,
  status_eq→eq e.from (other []),
  status_eq→eq e.to queued,
  validate_events→IsTrail queued created 0 es status updated,
)

IsHistory→validate_trail :
    (es : List Event) (status : Status) (created updated : Time)
    → IsHistory es status created updated
    → validate_trail es status created updated ≡ none
unfolding validate_trail
IsHistory→validate_trail [] status created updated h = absurd h
IsHistory→validate_trail (e ∷ es) status created updated h = ground (
  arith,
  status_eq_refl (other []),
  status_eq_refl queued,
  IsTrail→validate_events queued created 0 es status updated,
)

pub IsValid-revision_le : (d : Deployment) → IsValid d → d.revision ≤ 9
IsValid-revision_le d v = omega (
  arith,
  v.counted,
  IsHistory-length d.events d.status d.created_at d.updated_at v.history,
  rank-le d.status,
)

validate_fields→IsValid :
    (d : Deployment) → IsScoped d.identity → validate_fields d ≡ none → IsValid d
unfolding validate_fields
validate_fields→IsValid d s h = ground (
  arith,
  validate_trail→IsHistory d.events d.status d.created_at d.updated_at,
  IsHistory-length d.events d.status d.created_at d.updated_at,
  rank-le d.status,
)

IsValid→validate_fields : (d : Deployment) → IsValid d → validate_fields d ≡ none
unfolding validate_fields
IsValid→validate_fields d v = ground (
  arith,
  IsHistory→validate_trail d.events d.status d.created_at d.updated_at v.history,
  IsHistory-length d.events d.status d.created_at d.updated_at v.history,
  rank-le d.status,
)

validate→IsValid : (d : Deployment) → validate d ≡ none → IsValid d
unfolding validate
validate→IsValid d h = ground (
  arith,
  validate_identity→IsScoped d.identity,
  λ (s : IsScoped d.identity). validate_fields→IsValid d s,
)

IsValid→validate : (d : Deployment) → IsValid d → validate d ≡ none
unfolding validate
IsValid→validate d v =
    rw (IsScoped→validate_identity d.identity v.scoped, validate) (IsValid→validate_fields d v)

-- `validate` accepts exactly the aggregates with a complete scope whose events are a creation event
-- and a path of the transition diagram, in the order of time, that ends at the status and the
-- update instant, and whose revision is the exact number of events, with no wrap-around.
pub validate_iff : (d : Deployment) → (validate d ≡ none) ↔ IsValid d
validate_iff d = (validate→IsValid d, IsValid→validate d)
