-- ===== src/Deployment/Transitions.antt =====
-- `Transition` of internal/deployment/deployment.go: what it accepts, what it keeps, and the order
-- of the phases that it enforces.
use auto_deploy.Base.{
  ℕ, zero, suc, ◌+◌, ◌-◌, ◌%◌, ◌^◌, ◌≤◌, ◌<◌, ◌≡◌, ◌≢◌, refl, ◌↔◌, ◌⊎◌, inl, inr, true, false, List,
  [], ◌∷◌, ◌++◌, none, arith, length, length-append, ok, map,
}
use auto_deploy.Base.Time.{Time, canonical_time}
use auto_deploy.Deployment.{
  Status, queued, assigned, fetching, building, starting, health_checking, activating, healthy,
  failed, Event, Deployment, status_eq, is_known_status, is_terminal, can_transition,
  execution_order, validate, advanced, transition,
}
use auto_deploy.Deployment.Trail.{
  rank, IsTrail, status_eq→eq, status_eq_refl, can_transition-IsKnown, IsTrail-append, IsTrail-rank,
}
use auto_deploy.Deployment.Valid.{IsValid, IsHistory, validate_iff, IsValid-revision_le}

-- The trail and the revision both grow by one where the status changes.
abbrev pub Advances : Deployment → Status → Time → Deployment → Type 0
Advances d to at d' =
    (can_transition d.status to ≡ true)
    × (0 < (canonical_time at).nanos)
    × (d.updated_at.nanos ≤ (canonical_time at).nanos)
    × (d' ≡ record {
      identity = d.identity;
      status = to;
      created_at = d.created_at;
      updated_at = canonical_time at;
      revision = (d.revision + 1) % 2 ^ 64;
      events = d.events ++ record { from = d.status; to = to; at = canonical_time at } ∷ [];
    })

can_transition-not_terminal : (a b : Status) → can_transition a b ≡ true → is_terminal a ≡ false
unfolding can_transition is_terminal
can_transition-not_terminal queued b h = ground arith
can_transition-not_terminal _ b h = ground arith

can_transition_irreflexive : (a b : Status) → can_transition a b ≡ true → status_eq b a ≡ false
unfolding can_transition status_eq
can_transition_irreflexive queued b h = ground arith
can_transition_irreflexive _ b h = ground arith

transition→cases :
    (d : Deployment) (to : Status) (at : Time) (d' : Deployment)
    → transition d to at ≡ ok d'
    → (validate d ≡ none) × (((to ≡ d.status) × (d' ≡ d)) ⊎ Advances d to at d')
unfolding transition advanced
transition→cases d to at d' h = ground (arith, status_eq→eq to d.status)

repeat_lem :
    (d : Deployment)
    → validate d ≡ none
    → is_known_status d.status ≡ true
    → (at : Time) → transition d d.status at ≡ ok d
unfolding transition
repeat_lem d v k at = ground (arith, status_eq_refl d.status)

advance_lem :
    (d : Deployment) (to : Status) (at : Time)
    → validate d ≡ none
    → can_transition d.status to ≡ true
    → 0 < (canonical_time at).nanos
    → d.updated_at.nanos ≤ (canonical_time at).nanos
    → transition d to at ≡ ok (advanced d to (canonical_time at))
unfolding transition
advance_lem d to at v c p le = ground (
  arith,
  can_transition-IsKnown d.status to,
  can_transition-not_terminal d.status to,
  can_transition_irreflexive d.status to,
)

-- A call succeeds exactly on a valid aggregate, where the requested status is the current one, with
-- the aggregate unchanged, or where the diagram has an edge to it and the canonical instant is set
-- and not before the last update. It then has the new status and update instant, a revision one
-- higher as an unsigned number of 64 bits, and at the end of its trail the event from the old status
-- to the new one; the identity and the creation instant stay.
pub transition_iff :
    (d : Deployment) (to : Status) (at : Time) (d' : Deployment)
    → (transition d to at ≡ ok d')
      ↔ ((validate d ≡ none) × (((to ≡ d.status) × (d' ≡ d)) ⊎ Advances d to at d'))
unfolding advanced
transition_iff d to at d' = (transition→cases d to at d', back)
  where
    back :
        (validate d ≡ none) × (((to ≡ d.status) × (d' ≡ d)) ⊎ Advances d to at d')
        → transition d to at ≡ ok d'
    back (v, inl (e, same)) = rw (e, same) (repeat_lem d v ((validate_iff d).0 v).known at)
    back (v, inr (c, p, le, next)) = rw next (advance_lem d to at v c p le)

IsHistory-append :
    (es : List Event) (status : Status) (created updated : Time) (to : Status) (at : Time)
    → IsHistory es status created updated
    → 0 < at.nanos
    → updated.nanos ≤ at.nanos
    → can_transition status to ≡ true
    → IsHistory (es ++ record { from = status; to = to; at = at } ∷ []) to created at
IsHistory-append [] status created updated to at h p le c = absurd h
IsHistory-append (e ∷ es) status created updated to at h p le c =
    (h.0, h.1, h.2, IsTrail-append queued created es status updated to at h.3 p le c)

advanced-IsValid :
    (d : Deployment) (to : Status) (at : Time)
    → IsValid d
    → 0 < at.nanos
    → d.updated_at.nanos ≤ at.nanos
    → can_transition d.status to ≡ true
    → IsValid (advanced d to at)
unfolding advanced
advanced-IsValid d to at v p le c = record {
  scoped = v.scoped;
  known = can_transition-IsKnown d.status to c;
  created_set = v.created_set;
  ordered = omega (arith, v.ordered);
  counted = omega (
    arith,
    v.counted,
    IsValid-revision_le d v,
    length-append d.events (record { from = d.status; to = to; at = at } ∷ []),
  );
  history = IsHistory-append d.events d.status d.created_at d.updated_at to at v.history p le c;
}

-- Whatever a call of `Transition` returns without an error is a valid aggregate.
pub transition-IsValid :
    (d : Deployment) (to : Status) (at : Time) (d' : Deployment)
    → transition d to at ≡ ok d'
    → IsValid d'
unfolding advanced
transition-IsValid d to at d' h = go (transition→cases d to at d' h)
  where
    go : (validate d ≡ none) × (((to ≡ d.status) × (d' ≡ d)) ⊎ Advances d to at d') → IsValid d'
    go (v, inl (e, same)) = rw same ((validate_iff d).0 v)
    go (v, inr (c, p, le, next)) =
        rw next (advanced-IsValid d to (canonical_time at) ((validate_iff d).0 v) p le c)

can_transition-execution_order :
    (a b : Status) (n : ℕ)
    → can_transition a b ≡ true
    → execution_order b ≡ (n, true)
    → execution_order a ≡ (n - 1, true) × (0 < n)
unfolding can_transition execution_order
can_transition-execution_order queued b n h k = ground arith
can_transition-execution_order _ b n h k = ground arith

-- A call that changes the status to one on the execution path started from the phase just before it:
-- no phase is skipped, repeated or gone back to.
pub transition-no_skip :
    (d : Deployment) (to : Status) (at : Time) (d' : Deployment) (n : ℕ)
    → transition d to at ≡ ok d'
    → to ≢ d.status
    → execution_order to ≡ (n, true)
    → (0 < n) × (execution_order d.status ≡ (n - 1, true)) × (d'.status ≡ to)
unfolding advanced
transition-no_skip d to at d' n h fresh order = go (transition→cases d to at d' h).1
  where
    go :
        ((to ≡ d.status) × (d' ≡ d)) ⊎ Advances d to at d'
        → (0 < n) × (execution_order d.status ≡ (n - 1, true)) × (d'.status ≡ to)
    go (inl (e, same)) = absurd (fresh e)
    go (inr (c, p, le, next)) =
        let (before, pos) = can_transition-execution_order d.status to n c order in
        (pos, before, rw next refl)

-- The execution path.
abbrev pub phases : List Status
phases =
    queued ∷ assigned ∷ fetching ∷ building ∷ starting ∷ health_checking ∷ activating ∷ healthy ∷ []

-- A run of the path that starts at the given status, of the given number of phases after it.
abbrev pub along : Status → ℕ → List Status
along s zero = []
along s (suc n) = elim s [
  | queued ↦ assigned ∷ along assigned n
  | assigned ↦ fetching ∷ along fetching n
  | fetching ↦ building ∷ along building n
  | building ↦ starting ∷ along starting n
  | starting ↦ health_checking ∷ along health_checking n
  | health_checking ↦ activating ∷ along activating n
  | activating ↦ healthy ∷ along healthy n
  | _ ↦ []
]

abbrev pub targets : List Event → List Status
targets = map λ e. e.to

step_along :
    (a b : Status) (n m : ℕ)
    → can_transition a b ≡ true
    → execution_order a ≡ (n, true)
    → execution_order b ≡ (m, true)
    → (rest : List Status) (k : ℕ) → rest ≡ along b k
    → b ∷ rest ≡ along a (suc k)
unfolding can_transition execution_order
step_along queued b n m h p q rest k e = ground arith
step_along _ b n m h p q rest k e = ground arith

execution_order-rank : (s : Status) (n : ℕ) → execution_order s ≡ (n, true) → rank s ≡ n + 1
unfolding execution_order
execution_order-rank queued n h = ground arith
execution_order-rank _ n h = ground arith

execution_order-le : (s : Status) (n : ℕ) → execution_order s ≡ (n, true) → n ≤ 7
unfolding execution_order
execution_order-le queued n h = ground arith
execution_order-le _ n h = ground arith

path_cases : (s : Status) → (rank s ≡ 9) ⊎ ((n : ℕ) × (execution_order s ≡ (n, true)))
unfolding execution_order
path_cases queued = inr (0, refl)
path_cases assigned = inr (1, refl)
path_cases fetching = inr (2, refl)
path_cases building = inr (3, refl)
path_cases starting = inr (4, refl)
path_cases health_checking = inr (5, refl)
path_cases activating = inr (6, refl)
path_cases healthy = inr (7, refl)
path_cases failed = inl refl
path_cases _ = inl refl

next_order :
    (a b : Status) (n k : ℕ)
    → can_transition a b ≡ true
    → execution_order a ≡ (n, true)
    → execution_order b ≡ (k, true)
    → (l m : ℕ) → k + l ≡ m
    → n + suc l ≡ m
next_order a b n k c p q l m e = ground (arith, can_transition-execution_order a b k c q)

IsTrail-along :
    (current : Status) (previous : Time) (es : List Event) (status : Status) (updated : Time)
    (n m : ℕ)
    → IsTrail current previous es status updated
    → execution_order current ≡ (n, true)
    → execution_order status ≡ (m, true)
    → (targets es ≡ along current (length es)) × (n + length es ≡ m)
IsTrail-along current previous [] status updated n m h p q = ground arith
IsTrail-along current previous (e ∷ es) status updated n m h p q = elim (path_cases e.to) [
  | inl dead ↦ absurd (
      omega (
        arith,
        IsTrail-rank e.to e.at es status updated h.4,
        dead,
        execution_order-rank status m q,
        execution_order-le status m q,
      ))
  | inr (k, on) ↦
      let rest = IsTrail-along e.to e.at es status updated k m h.4 on q in
      (
        step_along current e.to n k h.3 p on (targets es) (length es) rest.0,
        next_order current e.to n k h.3 p on (length es) m rest.1,
      )
]

IsHistory-along :
    (es : List Event) (status : Status) (created updated : Time) (m : ℕ)
    → IsHistory es status created updated
    → execution_order status ≡ (m, true)
    → (targets es ≡ queued ∷ along queued m) × (length es ≡ m + 1)
unfolding execution_order
IsHistory-along [] status created updated m h q = absurd h
IsHistory-along (e ∷ es) status created updated m h q =
    ground (arith, IsTrail-along queued created es status updated 0 m h.3 refl q)

-- A valid aggregate at position `m` of the execution path has been through every phase before it, in
-- order and once each, and through no other status; its revision is `m + 1`.
pub on_path-history :
    (d : Deployment) (m : ℕ)
    → validate d ≡ none
    → execution_order d.status ≡ (m, true)
    → (targets d.events ≡ queued ∷ along queued m) × (d.revision ≡ m + 1)
on_path-history d m h q =
    let v = (validate_iff d).0 h in
    let r = IsHistory-along d.events d.status d.created_at d.updated_at m v.history q in
    (r.0, omega (arith, r.1, v.counted))
