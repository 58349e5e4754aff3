-- ===== src/Deployment/Tests.antt =====
-- Runs of internal/deployment/deployment.go, and its theorems at concrete deployments.
use auto_deploy.Base.{ℕ, ◌≤◌, ◌≡◌, refl, ◌↔◌, ◌⊎◌, ◌<◌, [], ◌∷◌, none, ok, err, arith}
use auto_deploy.Base.Time.{Time, utc, fixed_zone, canonical_time}
use auto_deploy.Deployment.{
  queued, assigned, building, healthy, other, Identity, Deployment, status_eq, is_known_status,
  is_terminal, can_transition, execution_order, validate_identity, validate_events, validate_trail,
  validate_fields, validate, new, advanced, transition, invalid_transition, invalid_timestamp,
  unknown_status,
}
use auto_deploy.Deployment.Valid.{IsValid, validate_iff}
use auto_deploy.Deployment.Transitions.{Advances, transition_iff, on_path-history, along, targets}
use auto_deploy.Deployment.Reach.{
  newborn, Reach, created, moved, new_valid_iff, Reach-validate, attempts, Extends,
  attempts-Extends,
}

abbrev scope : Identity
scope = record {
  deployment_id = 1 ∷ [];
  project_id = 2 ∷ [];
  environment_id = 3 ∷ [];
  server_id = 4 ∷ [];
  commit_sha = 5 ∷ [];
}

abbrev at : ℕ → Time
at n = record { nanos = n; location = fixed_zone 60 }

abbrev moment : ℕ → Time
moment n = record { nanos = n; location = utc }

abbrev start : Deployment
start = record {
  identity = scope;
  status = queued;
  created_at = moment 5000;
  updated_at = moment 5000;
  revision = 1;
  events = record { from = other []; to = queued; at = moment 5000 } ∷ [];
}

new-start : new scope (at 5123) ≡ ok start
unfolding new validate_identity canonical_time
new-start = refl

start_validates : validate start ≡ none
unfolding validate validate_fields validate_trail validate_events validate_identity is_known_status
    status_eq
start_validates = refl

abbrev given : Deployment
given = record start {
  status = assigned;
  updated_at = moment 7000;
  revision = 2;
  events =
      record { from = other []; to = queued; at = moment 5000 }
      ∷ record { from = queued; to = assigned; at = moment 7000 }
      ∷ [];
}

start_assigned : transition start assigned (at 7999) ≡ ok given
unfolding transition validate validate_fields validate_trail validate_events validate_identity
    is_known_status status_eq canonical_time is_terminal can_transition advanced
start_assigned = refl

-- A phase cannot be skipped.
start_building : transition start building (at 7999) ≡ err (invalid_transition queued building)
unfolding transition validate validate_fields validate_trail validate_events validate_identity
    is_known_status status_eq canonical_time is_terminal can_transition
start_building = refl

start_early : transition start assigned (at 4999) ≡ err (invalid_timestamp queued assigned)
unfolding transition validate validate_fields validate_trail validate_events validate_identity
    is_known_status status_eq canonical_time is_terminal can_transition
start_early = refl

start_unknown : transition start (other (9 ∷ [])) (at 7999) ≡ err (unknown_status (other (9 ∷ [])))
unfolding transition validate validate_fields validate_trail validate_events validate_identity
    is_known_status status_eq canonical_time is_terminal can_transition
start_unknown = refl

start-Reach : Reach start
start-Reach = created scope (at 5123) start (omega arith) new-start

given-Reach : Reach given
given-Reach = moved start assigned (at 7999) given start-Reach start_assigned

validate_iff_example : (validate given ≡ none) ↔ IsValid given
validate_iff_example = validate_iff given

-- An instant in the first microsecond: `New` returns an aggregate that is not valid.
abbrev early : Deployment
early = newborn scope (at 500)

new-early : new scope (at 500) ≡ ok early
unfolding new validate_identity
new-early = refl

scope_validates : validate_identity scope ≡ none
unfolding validate_identity
scope_validates = refl

new_valid_iff_example :
    ((new scope (at 500) ≡ ok early) ↔ ((0 < 500) × (early ≡ newborn scope (at 500))))
    × ((validate early ≡ none) ↔ (1000 ≤ 500))
new_valid_iff_example = new_valid_iff scope (at 500) early scope_validates

early_not_valid : ¬ (validate early ≡ none)
early_not_valid h = omega (arith, ((new_valid_iff scope (at 500) early scope_validates).1).0 h)

transition_iff_example : (transition start assigned (at 7999) ≡ ok given) ↔ (
    (validate start ≡ none)
    × (((assigned ≡ queued) × (given ≡ start)) ⊎ Advances start assigned (at 7999) given))
transition_iff_example = transition_iff start assigned (at 7999) given

on_path-history_example : (targets given.events ≡ queued ∷ along queued 1) × (given.revision ≡ 2)
unfolding execution_order
on_path-history_example = on_path-history given 1 (Reach-validate given given-Reach) refl

Reach-validate_example : validate given ≡ none
Reach-validate_example = Reach-validate given given-Reach

attempts-Extends_example :
    Extends start (attempts start ((assigned, at 7999) ∷ (healthy, at 9000) ∷ []))
attempts-Extends_example = attempts-Extends start ((assigned, at 7999) ∷ (healthy, at 9000) ∷ [])
