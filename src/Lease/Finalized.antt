-- ===== src/Lease/Finalized.antt =====
-- What a finalized activation leaves: the head of the route, and the lease.
use auto_deploy.Queue
use auto_deploy.Base.Encoding.{append_int}
use auto_deploy.Base.{
  ◌+◌, ◌&&◌, Option, none, ltb, if◌then◌else◌, ◌≡◌, refl, sym, ap, ◌∙◌, true, false, inl, inr, List,
  [], ◌∷◌, some, ◌==◌, Bytes, bytes_eq, arith, Bool-cases, Option-cases, Result-cases, ok,
}
use auto_deploy.Base.Table.{find_row, update_rows, exists_row, find_row-update_rows, find_row-test}
use auto_deploy.Base.Time.{Time}
use auto_deploy.Deployment.{Status, Deployment}
use auto_deploy.Deployment
use auto_deploy.Lease.State.{
  Store, Attempt, Slot, Operation, RouteHead, find_head, find_attempt, find_slot, append_job_event,
}
use auto_deploy.Lease.Held.{is_leased, is_current}
use auto_deploy.Lease.Closing.{database_time}
use auto_deploy.Lease.Deployments.{save, transition_deployment, transition_deployment→save}
use auto_deploy.Lease.Finalizing.{
  FinalizeInput, same_optional, retain_predecessor, move_release, switch_releases, is_expected_head,
  advance_head, switch_head, is_finalized_operation, succeed_operation, close_activation,
  is_leased_attempt, succeed_attempt, is_held_slot, is_own_flag, release_slot, close_lease,
  check_head, finalize_activation_succeeded,
}
use auto_deploy.Lease.Frames.{transition-OnlyDeployments}
use auto_deploy.Lease.Views.{
  Fenced, Moves, authority, occupancy, occupancy-vacated, authority-ended,
}
use auto_deploy.Lease.Keeping.{SameRows, transition_deployment-SameRows, Closes-Moves}

-- The rows of the leases and the heads of the routes.
SameTables : Store → Store → Type 0
SameTables st st' =
    SameRows st st' × (st'.route_heads ≡ st.route_heads) × (st'.operations ≡ st.operations)

save-route_heads :
    (st : Store) (value : Deployment) (st' : Store)
    → save st value ≡ ok st'
    → st'.route_heads ≡ st.route_heads
unfolding save
save-route_heads st value st' h = ground arith

transition-SameTables :
    (st : Store) (id : Bytes) (target : Status) (at : Time) (st' : Store)
    → transition_deployment st id target at ≡ ok st'
    → SameTables st st'
unfolding SameTables
transition-SameTables st id target at st' h =
    let (s, current, next, a, b, c, d) = transition_deployment→save st id target at st' h in
    (
      transition_deployment-SameRows st id target at st' h,
      elim (Bool-cases (next.revision == current.revision)) [
        | inl same ↦ ground arith
        | inr other ↦ save-route_heads st next st' (ground arith)
      ],
      (transition-OnlyDeployments st id target at st' h).4,
    )

switch_releases-SameTables :
    (i : FinalizeInput) (st st' : Store) → switch_releases i st ≡ ok st' → SameTables st st'
unfolding switch_releases retain_predecessor move_release SameTables
switch_releases-SameTables i st st' h = elim (Option-cases i.expected_active_release_id) [
  | inl first ↦ ground arith
  | inr (id, before) ↦ ground arith
]

-- The steps of a success.
pub record IsFinalized (i : FinalizeInput) (st st' : Store) : Type 0 where
  pub moved : Store
  pub head : RouteHead
  pub switched : Store
  pub routed : Store
  pub closed : Store
  pub transition :
      transition_deployment st i.deployment_id Deployment.healthy (database_time i.now) ≡ ok moved
  pub head_found : find_head i.environment_id moved ≡ some head
  pub head_checked : check_head i head ≡ ok tt
  pub releases : switch_releases i moved ≡ ok switched
  pub routes : switch_head i switched ≡ ok routed
  pub operation : close_activation i routed ≡ ok closed
  pub lease : close_lease i closed ≡ ok st'

pub finalize→ :
    (i : FinalizeInput) (st st' : Store)
    → finalize_activation_succeeded i st ≡ ok st'
    → IsFinalized i st st'
unfolding finalize_activation_succeeded
finalize→ i st st' h =
    elim (Result-cases
      (transition_deployment st i.deployment_id Deployment.healthy (database_time i.now))) [
        | inr (e, failed) ↦ absurd (ground arith)
        | inl (moved, p) ↦ elim (Option-cases (find_head i.environment_id moved)) [
          | inl missing ↦ absurd (ground arith)
          | inr (head, q) ↦ elim (Result-cases (check_head i head)) [
            | inr (e, failed) ↦ absurd (ground arith)
            | inl (u, r) ↦ elim (Result-cases (switch_releases i moved)) [
              | inr (e, failed) ↦ absurd (ground arith)
              | inl (switched, s) ↦ elim (Result-cases (switch_head i switched)) [
                | inr (e, failed) ↦ absurd (ground arith)
                | inl (routed, t) ↦ elim (Result-cases (close_activation i routed)) [
                  | inr (e, failed) ↦ absurd (ground arith)
                  | inl (closed, v) ↦ record {
                    moved = moved;
                    head = head;
                    switched = switched;
                    routed = routed;
                    closed = closed;
                    transition = p;
                    head_found = q;
                    head_checked = r;
                    releases = s;
                    routes = t;
                    operation = v;
                    lease = ground arith;
                  }
                ]
              ]
            ]
          ]
        ]
      ]

switch_head_lem :
    (i : FinalizeInput) (st st' : Store) (head : RouteHead)
    → switch_head i st ≡ ok st'
    → find_head i.environment_id st ≡ some head
    → head.route_revision ≡ i.expected_route_revision
    → (find_head i.environment_id st' ≡ some (advance_head i head))
      × SameRows st st'
      × (st'.operations ≡ st.operations)
unfolding switch_head
switch_head_lem i st st' head h found same =
    let step =
      find_row-update_rows (λ r. bytes_eq r.environment_id i.environment_id) (is_expected_head i)
        (advance_head i) st.route_heads (λ r. refl) in
    ground (
      arith,
      step,
      find_row-test (λ (r : RouteHead). bytes_eq r.environment_id i.environment_id) st.route_heads
          head found,
    )

none-succeed_operation :
    (i : FinalizeInput) (xs : List Operation)
    → exists_row
        (is_finalized_operation i)
        (update_rows (is_finalized_operation i) (succeed_operation i) xs)
      ≡ false
unfolding exists_row update_rows
none-succeed_operation i [] = refl
none-succeed_operation i (o ∷ xs) = ground (arith, none-succeed_operation i xs)

close_activation_lem :
    (i : FinalizeInput) (st st' : Store)
    → close_activation i st ≡ ok st'
    → SameRows st st'
      × (st'.route_heads ≡ st.route_heads)
      × (exists_row (is_finalized_operation i) st.operations ≡ true)
      × (exists_row (is_finalized_operation i) st'.operations ≡ false)
unfolding close_activation
close_activation_lem i st st' h = ground (arith, none-succeed_operation i st.operations)

close_lease_frame :
    (i : FinalizeInput) (st st' : Store)
    → close_lease i st ≡ ok st'
    → (st'.route_heads ≡ st.route_heads)
      × (st'.operations ≡ st.operations)
      × (st'.attempts ≡ update_rows (is_leased_attempt i) (succeed_attempt i) st.attempts)
      × (st'.slots ≡ update_rows (is_held_slot i) (release_slot i) st.slots)
unfolding close_lease append_job_event
close_lease_frame i st st' h = ground arith

check_head_lem :
    (i : FinalizeInput) (head : RouteHead)
    → check_head i head ≡ ok tt
    → (head.route_revision ≡ i.expected_route_revision)
      × (same_optional head.active_release_id i.expected_active_release_id ≡ true)
unfolding check_head
check_head_lem i head h = ground arith

same_optional→eq : (a b : Option Bytes) → same_optional a b ≡ true → a ≡ b
same_optional→eq none none h = refl
same_optional→eq (some a) (some b) h = ground arith
same_optional→eq none (some b) h = absurd (ground arith)
same_optional→eq (some a) none h = absurd (ground arith)

-- What a finalized activation found, and what it left of the head of the route, the attempt and the
-- slot.
abbrev pub IsSwitched : FinalizeInput → Store → Store → Type 0
IsSwitched i st st' =
    (head : RouteHead) × (find_head i.environment_id st ≡ some head)
    × (head.route_revision ≡ i.expected_route_revision)
    × (head.active_release_id ≡ i.expected_active_release_id)
    × (find_head i.environment_id st'
        ≡ some (record {
          environment_id = head.environment_id;
          hostname = head.hostname;
          route_revision = i.expected_route_revision + 1;
          active_release_id = some i.candidate_release_id;
          reconciliation_required = false;
          updated_at = if ltb head.updated_at i.now then i.now else head.updated_at;
        }))
    × (st'.attempts
        ≡ update_rows (λ a. a.id == i.attempt_id && is_leased a.state)
            (λ a. record a {
              state = Queue.succeeded;
              closed_at = some i.now;
              failure_class = none;
              result_operation_id = some (append_int i.operation_id []);
              result_digest = some i.result_digest;
            })
            st.attempts)
    × (st'.slots
        ≡ update_rows
            (λ s.
              bytes_eq s.environment_id i.environment_id
              && is_current s.current_attempt_id i.attempt_id
              && is_own_flag s.reconciliation_attempt_id i.attempt_id)
            (λ s. record s {
              current_attempt_id = none;
              reconciliation_required = false;
              reconciliation_attempt_id = none;
              updated_at = i.now;
            })
            st.slots)

-- An activation that is finalized switched the route head it was authorized for: the head had the
-- expected revision and the expected active release, and it has the next revision, the candidate as
-- its active release and no flag. The attempts and the slots are those of before, with the leased
-- attempt succeeded and its slot freed.
pub finalize_lem :
    (i : FinalizeInput) (st st' : Store)
    → finalize_activation_succeeded i st ≡ ok st'
    → IsSwitched i st st'
unfolding SameTables
finalize_lem i st st' h =
    let v = finalize→ i st st' h in
    let ((a1, s1), h1, o1) =
      transition-SameTables st i.deployment_id Deployment.healthy (database_time i.now) v.moved
        v.transition in
    let (expected, same) = check_head_lem i v.head v.head_checked in
    let ((a2, s2), h2, o2) = switch_releases-SameTables i v.moved v.switched v.releases in
    let by_key =
      λ (hs : List RouteHead). find_row (λ r. bytes_eq r.environment_id i.environment_id) hs in
    let (now_found, (a3, s3), o3) =
      switch_head_lem i v.switched v.routed v.head v.routes (ap by_key h2 ∙ v.head_found)
        expected in
    let ((a4, s4), h4, was, is) = close_activation_lem i v.routed v.closed v.operation in
    let (h5, o5, a5, s5) = close_lease_frame i v.closed st' v.lease in
    (
      v.head,
      sym (ap by_key h1) ∙ v.head_found,
      expected,
      same_optional→eq v.head.active_release_id i.expected_active_release_id same,
      ap by_key (h5 ∙ h4)
          ∙ now_found
          ∙ ap (λ n. some (record (advance_head i v.head) { route_revision = n + 1 })) expected,
      a5 ∙ ap (update_rows (is_leased_attempt i) (succeed_attempt i)) (a4 ∙ a3 ∙ a2 ∙ a1),
      s5 ∙ ap (update_rows (is_held_slot i) (release_slot i)) (s4 ∙ s3 ∙ s2 ∙ s1),
    )

-- The operation is open before a finalization, and not after it.
finalize-operations :
    (i : FinalizeInput) (st st' : Store)
    → finalize_activation_succeeded i st ≡ ok st'
    → (exists_row (is_finalized_operation i) st.operations ≡ true)
      × (exists_row (is_finalized_operation i) st'.operations ≡ false)
unfolding SameTables
finalize-operations i st st' h =
    let v = finalize→ i st st' h in
    let (r1, h1, o1) =
      transition-SameTables st i.deployment_id Deployment.healthy (database_time i.now) v.moved
        v.transition in
    let (expected, same) = check_head_lem i v.head v.head_checked in
    let (r2, h2, o2) = switch_releases-SameTables i v.moved v.switched v.releases in
    let by_key =
      λ (hs : List RouteHead). find_row (λ r. bytes_eq r.environment_id i.environment_id) hs in
    let (now_found, r3, o3) =
      switch_head_lem i v.switched v.routed v.head v.routes (ap by_key h2 ∙ v.head_found)
        expected in
    let (r4, h4, was, is) = close_activation_lem i v.routed v.closed v.operation in
    let (h5, o5, a5, s5) = close_lease_frame i v.closed st' v.lease in
    (
      sym (ap (exists_row (is_finalized_operation i)) (o3 ∙ o2 ∙ o1)) ∙ was,
      ap (exists_row (is_finalized_operation i)) o5 ∙ is,
    )

-- An activation is finalized at most once: where it was, it cannot be finalized again.
finalize_once :
    (i : FinalizeInput) (st st' st'' : Store)
    → finalize_activation_succeeded i st ≡ ok st'
    → ¬ (finalize_activation_succeeded i st' ≡ ok st'')
finalize_once i st st' st'' h again =
    cc ((finalize-operations i st st' h).1, (finalize-operations i st' st'' again).0)

pub leased-occupies :
    (i : FinalizeInput) (st : Store) (a : Attempt) (s : Slot)
    → Fenced st
    → find_attempt i.attempt_id st ≡ some a
    → is_leased a.state ≡ true
    → a.environment_id ≡ i.environment_id
    → find_slot i.environment_id st ≡ some s
    → (occupancy st.slots a.environment_id ≡ some (a.fence, some i.attempt_id))
      × (a.fence ≡ s.fence)
      × (is_current s.current_attempt_id i.attempt_id ≡ true)
unfolding occupancy authority
leased-occupies i st a s v found leased there slot =
    ground (arith, v.exclusive i.attempt_id a.environment_id a.fence)

-- Under the fencing discipline, the finalization of a leased attempt that occupies its slot is a move
-- of the contract: the attempt leaves its slot, under the same fence, and is no longer leased.
pub finalize-Moves :
    (i : FinalizeInput) (st st' : Store) (a : Attempt) (s : Slot)
    → finalize_activation_succeeded i st ≡ ok st'
    → Fenced st
    → find_attempt i.attempt_id st ≡ some a
    → is_leased a.state ≡ true
    → a.environment_id ≡ i.environment_id
    → find_slot i.environment_id st ≡ some s
    → is_own_flag s.reconciliation_attempt_id i.attempt_id ≡ true
    → Moves st st'
finalize-Moves i st st' a s h v found leased there slot flag =
    let (head, p, q, r, u, attempts, slots) = finalize_lem i st st' h in
    let (occ, fence, current) = leased-occupies i st a s v found leased there slot in
    Closes-Moves st i.attempt_id a s.fence st'
      (
        ap authority attempts
            ∙ authority-ended i.attempt_id (succeed_attempt i) st.attempts a (λ x. refl) found
                leased,
        ap occupancy slots
            ∙ occupancy-vacated a.environment_id (is_held_slot i) (release_slot i) st.slots s
                s.fence (λ x. refl) (λ x t. ground (arith, there)) (rw there slot)
                (ground (
                  arith,
                  current,
                  flag,
                  slot,
                  find_row-test (λ (x : Slot). bytes_eq x.environment_id i.environment_id) st.slots
                      s slot,
                ))
                refl,
      )
      occ (ground (arith, fence))

close_lease_held :
    (i : FinalizeInput) (st st' : Store)
    → close_lease i st ≡ ok st'
    → exists_row (is_held_slot i) st.slots ≡ true
unfolding close_lease
close_lease_held i st st' h = ground arith

-- A finalization that succeeds found the slot of the attempt.
pub finalize-held :
    (i : FinalizeInput) (st st' : Store)
    → finalize_activation_succeeded i st ≡ ok st'
    → exists_row (is_held_slot i) st.slots ≡ true
unfolding SameTables
finalize-held i st st' h =
    let f = finalize→ i st st' h in
    let (moved, _, _) =
      transition-SameTables st i.deployment_id Deployment.healthy (database_time i.now) f.moved
        f.transition in
    let (switched, heads, _) = switch_releases-SameTables i f.moved f.switched f.releases in
    let (head, routed, _) =
      switch_head_lem i f.switched f.routed f.head f.routes (ground (arith, f.head_found))
        (check_head_lem i f.head f.head_checked).0 in
    let (closed, _, _, _) = close_activation_lem i f.routed f.closed f.operation in
    ap (λ xs. exists_row (is_held_slot i) xs) (sym (closed.1 ∙ routed.1 ∙ switched.1 ∙ moved.1))
    ∙ close_lease_held i f.closed st' f.lease
