-- ===== src/Deployment/Reach.antt =====
-- The aggregates that the exported functions of internal/deployment/deployment.go can return, and
-- the persistence round trip.
use auto_deploy.Base.{
  ◌≤◌, ◌<◌, ◌≡◌, refl, sym, ◌∙◌, ◌↔◌, ◌⊎◌, inl, inr, true, List, [], ◌∷◌, ◌++◌, none, arith, All,
  ok, err,
}
use mathlib.Core.List.{append-nil, append_assoc}
use auto_deploy.Base.Time.{Time, IsCanonical, canonical_time, microsecond}
use auto_deploy.Deployment.{
  Status, queued, failed, other, Event, Identity, Snapshot, Deployment, is_terminal,
  is_known_status, can_transition, validate, validate_identity, advanced, new, restored, rehydrate,
  transition,
}
use auto_deploy.Deployment.Valid.{IsValid, validate_iff, validate_identity→IsScoped}
use auto_deploy.Deployment.Transitions.{transition-IsValid, transition_iff, Advances}

pub record IsCanonicalDeployment (d : Deployment) : Type 0 where
  pub created : IsCanonical d.created_at
  pub updated : IsCanonical d.updated_at
  pub trail : All (λ e. IsCanonical e.at) d.events

-- `New` with a creation instant in the first microsecond after the zero time is the one way to an
-- invalid aggregate, `new_valid_iff`: it is left out.
pub data Reach : Deployment → Type 0 where
  created :
      (i : Identity) (t : Time) (d : Deployment) → microsecond ≤ t.nanos → new i t ≡ ok d → Reach d
  rehydrated : (s : Snapshot) (d : Deployment) → rehydrate s ≡ ok d → Reach d
  moved :
      (d : Deployment) (to : Status) (at : Time) (d' : Deployment)
      → Reach d
      → transition d to at ≡ ok d'
      → Reach d'

abbrev pub newborn : Identity → Time → Deployment
newborn i t = record {
  identity = i;
  status = queued;
  created_at = canonical_time t;
  updated_at = canonical_time t;
  revision = 1;
  events = record { from = other []; to = queued; at = canonical_time t } ∷ [];
}

new→newborn :
    (i : Identity) (t : Time) (d : Deployment)
    → new i t ≡ ok d
    → (validate_identity i ≡ none) × (d ≡ newborn i t)
unfolding new
new→newborn i t d h = ground arith

newborn-IsValid :
    (i : Identity) (t : Time)
    → validate_identity i ≡ none
    → microsecond ≤ t.nanos
    → IsValid (newborn i t)
unfolding canonical_time is_known_status
newborn-IsValid i t s le = record {
  scoped = validate_identity→IsScoped i s;
  known = refl;
  created_set = omega arith;
  ordered = omega arith;
  counted = refl;
  history = (refl, refl, refl, (refl, refl));
}

newborn_valid_iff :
    (i : Identity) (t : Time)
    → validate_identity i ≡ none
    → (validate (newborn i t) ≡ none) ↔ (microsecond ≤ t.nanos)
unfolding canonical_time
newborn_valid_iff i t s = (
  λ v. omega (arith, ((validate_iff (newborn i t)).0 v).created_set),
  λ le. (validate_iff (newborn i t)).1 (newborn-IsValid i t s le),
)

newborn→new :
    (i : Identity) (t : Time)
    → validate_identity i ≡ none
    → 0 < t.nanos
    → new i t ≡ ok (newborn i t)
unfolding new
newborn→new i t s p = ground arith

new-positive : (i : Identity) (t : Time) (d : Deployment) → new i t ≡ ok d → 0 < t.nanos
unfolding new
new-positive i t d h = ground arith

-- `New` checks that its instant is not zero before it truncates it: for a valid identity it returns
-- an aggregate exactly if the instant is after the zero time, with revision one, the truncated
-- instant and one event, but that aggregate is valid exactly if the instant is at least a microsecond
-- after the zero time.
pub new_valid_iff :
    (i : Identity) (t : Time) (d : Deployment)
    → validate_identity i ≡ none
    → ((new i t ≡ ok d) ↔ ((0 < t.nanos) × (d ≡ newborn i t)))
      × ((validate (newborn i t) ≡ none) ↔ (1000 ≤ t.nanos))
new_valid_iff i t d s = (
  (λ h. (new-positive i t d h, (new→newborn i t d h).1), λ h. rw (h.1) (newborn→new i t s h.0)),
  newborn_valid_iff i t s,
)

rehydrate→restored :
    (s : Snapshot) (d : Deployment) → rehydrate s ≡ ok d → (validate d ≡ none) × (d ≡ restored s)
unfolding rehydrate
rehydrate→restored s d h = ground arith

-- Every aggregate that the exported functions return validates.
pub Reach-validate : (d : Deployment) → Reach d → validate d ≡ none
Reach-validate d (created i t _ le h) =
    let (s, e) = new→newborn i t d h in rw e ((newborn_valid_iff i t s).1 le)
Reach-validate d (rehydrated s _ h) = (rehydrate→restored s d h).0
Reach-validate d (moved c to at _ r h) = (validate_iff d).1 (transition-IsValid c to at d h)

-- A caller that keeps its aggregate where a call fails.
pub attempt : Deployment → Status × Time → Deployment
attempt d (to, at) = elim (transition d to at) [ ok d' ↦ d' | err _ ↦ d ]

pub attempts : Deployment → List (Status × Time) → Deployment
attempts d [] = d
attempts d (c ∷ cs) = attempts (attempt d c) cs

-- The trail is a prefix of what any calls make of it.
abbrev pub Extends : Deployment → Deployment → Type 0
Extends d d' =
    (more : List Event) × (d'.events ≡ d.events ++ more)
    × (d'.identity ≡ d.identity)
    × (d'.created_at ≡ d.created_at)
    × (d.updated_at.nanos ≤ d'.updated_at.nanos)

transition-Extends :
    (d : Deployment) (to : Status) (at : Time) (d' : Deployment)
    → transition d to at ≡ ok d'
    → Extends d d'
unfolding advanced
transition-Extends d to at d' h = go ((transition_iff d to at d').0 h).1
  where
    go : ((to ≡ d.status) × (d' ≡ d)) ⊎ Advances d to at d' → Extends d d'
    go (inl (e, same)) = rw same ([], sym (append-nil d.events), refl, refl, omega arith)
    go (inr (c, p, le, next)) = rw next (_, refl, refl, refl, le)

attempt-Extends : (d : Deployment) (c : Status × Time) → Extends d (attempt d c)
unfolding attempt
attempt-Extends d (to, at) =
    elim (transition d to at)
        as (λ r. transition d to at ≡ r → Extends d (elim r [ ok d' ↦ d' | err _ ↦ d ])) [
          | ok d' ↦ λ e. transition-Extends d to at d' e
          | err x ↦ λ e. ([], sym (append-nil d.events), refl, refl, omega arith)
        ]
      refl

Extends-trans : (a b c : Deployment) → Extends a b → Extends b c → Extends a c
Extends-trans a b c (m, e, i, t, le) (m', e', i', t', le') =
    (m ++ m', rw (e', e) (append_assoc a.events m m'), i' ∙ i, t' ∙ t, omega arith)

-- Whatever calls are made, in whatever order and failing or not, the recorded events are never
-- changed or dropped, the identity and the creation instant stay, and the update instant never
-- goes back.
pub attempts-Extends : (d : Deployment) (cs : List (Status × Time)) → Extends d (attempts d cs)
unfolding attempts
attempts-Extends d [] = ([], sym (append-nil d.events), refl, refl, omega arith)
attempts-Extends d (c ∷ cs) =
    Extends-trans d (attempt d c) (attempts (attempt d c) cs) (attempt-Extends d c)
      (attempts-Extends (attempt d c) cs)

not_from_terminal : (a b : Status) → is_terminal a ≡ true → can_transition a b ≡ true → ⊥
unfolding is_terminal can_transition
not_from_terminal failed b h c = ground arith
not_from_terminal _ b h c = ground arith

attempt_terminal :
    (d : Deployment) (c : Status × Time) → is_terminal d.status ≡ true → attempt d c ≡ d
unfolding attempt
attempt_terminal d (to, at) h =
    elim (transition d to at)
        as (λ r. transition d to at ≡ r → elim r [ ok d' ↦ d' | err _ ↦ d ] ≡ d) [
          | ok d' ↦ λ e. go d' ((transition_iff d to at d').0 e).1
          | err x ↦ λ e. refl
        ]
      refl
  where
    go : (d' : Deployment) → ((to ≡ d.status) × (d' ≡ d)) ⊎ Advances d to at d' → d' ≡ d
    go d' (inl (e, same)) = same
    go d' (inr (c, p, le, next)) = absurd (not_from_terminal d.status to h c)

-- A failed, cancelled, superseded or rolled back deployment is never changed again by any calls.
attempts_terminal :
    (d : Deployment) (cs : List (Status × Time)) → is_terminal d.status ≡ true → attempts d cs ≡ d
unfolding attempts
attempts_terminal d [] h = refl
attempts_terminal d (c ∷ cs) h = rw (attempt_terminal d c h) (attempts_terminal d cs h)
