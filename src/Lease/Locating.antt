-- ===== src/Lease/Locating.antt =====
-- What a report of an activation locates, before its write and after it.
use mathlib.Core.Path.{subst}
use auto_deploy.Base.{
  ℕ, ◌≡◌, refl, ap, ◌∙◌, true, ◌&&◌, inl, inr, some, ◌==◌, ltb, Bytes, bytes_eq, length, arith,
  Option-cases, Result-cases, ok,
}
use auto_deploy.Base.Table.{find_row, find_row-test, update_rows, find_row-update_rows}
use auto_deploy.Github.{valid_opaque_id}
use auto_deploy.Lease.State.{Store, Attempt, Slot, switch_authorized, append_job_event}
use auto_deploy.Lease.Held.{IsHeld, lock_held, lock_held-IsHeld, IsHeld-lock_held}
use auto_deploy.Lease.Activation.{
  blocked_store, flag_route_head, flag_slot, close_operation, is_open_operation,
}
use auto_deploy.Lease.Completion.{valid_operation_id}
use auto_deploy.Lease.Activating.{is_activation_of}
use auto_deploy.Lease.Reporting.{Located, finalize_input, locate, parse_positive}
use auto_deploy.Lease.State.{Job, job_succeeded, lock_active_server_credential}
use auto_deploy.Lease.Held.{is_leased}
use auto_deploy.Lease.Closing.{close_job, database_time}
use auto_deploy.Lease.Frames.{transition-OnlyDeployments, found-update_rows}
use auto_deploy.Deployment
use auto_deploy.Lease.Finalizing.{
  FinalizeInput, finalize_activation_succeeded, succeed_attempt, succeed_operation, is_leased_job,
  is_leased_attempt, is_held_slot, release_slot, is_finalized_operation, switch_releases,
  retain_predecessor, move_release, switch_head, close_activation, close_lease,
}
use auto_deploy.Lease.Finalized.{finalize→, finalize_lem}

-- What was located.
pub record IsLocate (st : Store) (server presented : Bytes) (attempt_id fence : ℕ)
    (operation_id : Bytes) (l : Located) : Type 0 where
  pub guarded :
      (valid_opaque_id server && ltb 0 attempt_id && ltb 0 fence && valid_operation_id operation_id)
      ≡ true
  pub parsed : parse_positive operation_id ≡ some l.operation.id
  pub held : IsHeld st server presented attempt_id l.held
  pub fenced : l.held.attempt.fence ≡ fence
  pub found : find_row (is_activation_of attempt_id fence) st.operations ≡ some l.operation
  pub digest : length l.operation.route_digest ≡ 32

pub locate→ :
    (st : Store) (server presented : Bytes) (attempt_id fence : ℕ) (operation_id : Bytes)
    (l : Located)
    → locate st server presented attempt_id fence operation_id ≡ ok l
    → IsLocate st server presented attempt_id fence operation_id l
unfolding locate
locate→ st server presented attempt_id fence operation_id l h =
    elim (Option-cases (parse_positive operation_id)) [
      | inl n ↦ absurd (ground arith)
      | inr (parsed, p) ↦ elim (Result-cases (lock_held st server presented attempt_id)) [
        | inr (x, q) ↦ absurd (ground arith)
        | inl (held, q) ↦ record {
          guarded = ground arith;
          parsed = ground arith;
          held =
              subst (IsHeld st server presented attempt_id) (ground arith)
                (lock_held-IsHeld st server presented attempt_id held q);
          fenced = ground arith;
          found = ground arith;
          digest = ground arith;
        }
      ]
    ]

pub IsLocate-locate :
    (st : Store) (server presented : Bytes) (attempt_id fence : ℕ) (operation_id : Bytes)
    (l : Located)
    → IsLocate st server presented attempt_id fence operation_id l
    → locate st server presented attempt_id fence operation_id ≡ ok l
unfolding locate
IsLocate-locate st server presented attempt_id fence operation_id l v = ground (
  arith,
  IsHeld-lock_held st server presented attempt_id l.held v.held,
  v.guarded,
  v.parsed,
  v.found,
)

unfoldable pub blocked_located : Located → ℕ → Bytes → ℕ → Located
blocked_located l attempt_id summary now = record {
  held = record l.held { slot = flag_slot attempt_id now l.held.slot };
  operation = close_operation now summary l.operation;
}

abbrev pub block_of : Store → Located → ℕ → Bytes → ℕ → Store
block_of st l attempt_id summary now =
    blocked_store st l.held.attempt.job_id attempt_id l.operation.id l.held.attempt.environment_id
      summary now

pub blocked-IsLocate :
    (st : Store) (server presented : Bytes) (attempt_id fence : ℕ) (operation_id : Bytes)
    (l : Located) (summary : Bytes) (now : ℕ)
    → IsLocate st server presented attempt_id fence operation_id l
    → l.operation.state ≡ switch_authorized
    → IsLocate
        (block_of st l attempt_id summary now)
        server
        presented
        attempt_id
        fence
        operation_id
        (blocked_located l attempt_id summary now)
unfolding blocked_store flag_route_head append_job_event blocked_located
blocked-IsLocate st server presented attempt_id fence operation_id l summary now v unresolved =
    let e = l.held.attempt.environment_id in
    record {
      guarded = v.guarded;
      parsed = v.parsed;
      held = record {
        authenticated = v.held.authenticated;
        owned = v.held.owned;
        attempt_found = v.held.attempt_found;
        slot_found = ground (
          arith,
          find_row-update_rows (λ (s : Slot). bytes_eq s.environment_id e)
              (λ s. bytes_eq s.environment_id e) (flag_slot attempt_id now) st.slots (λ s. refl),
          find_row-test (λ (s : Slot). bytes_eq s.environment_id e) st.slots l.held.slot
              v.held.slot_found,
          v.held.slot_found,
        );
        job_found = v.held.job_found;
      };
      fenced = v.fenced;
      found = ground (
        arith,
        find_row-update_rows (is_activation_of attempt_id fence) (is_open_operation l.operation.id)
            (close_operation now summary) st.operations (λ o. refl),
        v.found,
        unresolved,
      );
      digest = v.digest;
    }

abbrev pub finalized_located : FinalizeInput → Located → Slot → Job → Located
finalized_located i l s j = record {
  held = record { attempt = succeed_attempt i l.held.attempt; slot = s; job = j };
  operation = succeed_operation i l.operation;
}

pub finalize_frame :
    (i : FinalizeInput) (st st' : Store)
    → finalize_activation_succeeded i st ≡ ok st'
    → (st'.servers ≡ st.servers)
      × (st'.jobs ≡ update_rows (is_leased_job i) (close_job job_succeeded i.now) st.jobs)
      × (st'.operations
          ≡ update_rows (is_finalized_operation i) (succeed_operation i) st.operations)
unfolding switch_releases retain_predecessor move_release switch_head close_activation close_lease
    append_job_event
finalize_frame i st st' h =
    let v = finalize→ i st st' h in
    let (servers, jobs, attempts, slots, operations) =
      transition-OnlyDeployments st i.deployment_id Deployment.healthy (database_time i.now) v.moved
        v.transition in
    let moved : (v.switched.servers ≡ v.moved.servers)
        × (v.switched.jobs ≡ v.moved.jobs)
        × (v.switched.operations ≡ v.moved.operations) =
      elim (Option-cases i.expected_active_release_id) [
        | inl first ↦ ground (arith, v.releases)
        | inr (id, before) ↦ ground (arith, v.releases)
      ] in
    let routed : (v.routed.servers ≡ v.switched.servers)
        × (v.routed.jobs ≡ v.switched.jobs)
        × (v.routed.operations ≡ v.switched.operations) =
      ground (arith, v.routes) in
    let closed : (v.closed.servers ≡ v.routed.servers)
        × (v.closed.jobs ≡ v.routed.jobs)
        × (v.closed.operations
            ≡ update_rows (is_finalized_operation i) (succeed_operation i) v.routed.operations) =
      ground (arith, v.operation) in
    let ended : (st'.servers ≡ v.closed.servers)
        × (st'.jobs ≡ update_rows (is_leased_job i) (close_job job_succeeded i.now) v.closed.jobs)
        × (st'.operations ≡ v.closed.operations) =
      ground (arith, v.lease) in
    (
      ended.0 ∙ closed.0 ∙ routed.0 ∙ moved.0 ∙ servers,
      ended.1
          ∙ ap (λ js. update_rows (is_leased_job i) (close_job job_succeeded i.now) js)
              (closed.1 ∙ routed.1 ∙ moved.1 ∙ jobs),
      ended.2
          ∙ closed.2
          ∙ ap (λ os. update_rows (is_finalized_operation i) (succeed_operation i) os)
              (routed.2 ∙ moved.2 ∙ operations),
    )

-- The same call finds the rows of a finalized activation.
pub finalized-IsLocate :
    (st : Store) (server presented : Bytes) (attempt_id fence : ℕ) (operation_id : Bytes)
    (l : Located) (observed : Bytes) (now : ℕ) (st' : Store)
    → IsLocate st server presented attempt_id fence operation_id l
    → l.operation.state ≡ switch_authorized
    → is_leased l.held.attempt.state ≡ true
    → finalize_activation_succeeded (finalize_input l attempt_id observed now) st ≡ ok st'
    → (s : Slot) × (j : Job) × IsLocate st' server presented attempt_id fence operation_id
        (finalized_located (finalize_input l attempt_id observed now) l s j)
finalized-IsLocate st server presented attempt_id fence operation_id l observed now st' v unresolved
      leased h =
    let i = finalize_input l attempt_id observed now in
    let e = l.held.attempt.environment_id in
    let (servers, jobs, operations) = finalize_frame i st st' h in
    let (head, _, _, _, _, attempts, slots) = finalize_lem i st st' h in
    let (s, slot_found) =
      found-update_rows (λ (x : Slot). bytes_eq x.environment_id e) (is_held_slot i)
        (release_slot i) st.slots l.held.slot (λ x. refl) v.held.slot_found in
    let (j, job_found) =
      found-update_rows (λ (x : Job). x.id == l.held.attempt.job_id) (is_leased_job i)
        (close_job job_succeeded now) st.jobs l.held.job (λ x. refl) v.held.job_found in
    (
      s,
      j,
      record {
        guarded = v.guarded;
        parsed = v.parsed;
        held = record {
          authenticated =
              ap (λ xs. lock_active_server_credential xs server presented) servers
              ∙ v.held.authenticated;
          owned = v.held.owned;
          attempt_found = ground (
            arith,
            attempts,
            find_row-update_rows (λ (a : Attempt). a.id == attempt_id) (is_leased_attempt i)
                (succeed_attempt i) st.attempts (λ a. refl),
            find_row-test (λ (a : Attempt). a.id == attempt_id) st.attempts l.held.attempt
                v.held.attempt_found,
            v.held.attempt_found,
          );
          slot_found = ap (find_row (λ (x : Slot). bytes_eq x.environment_id e)) slots ∙ slot_found;
          job_found = ap (find_row (λ (x : Job). x.id == l.held.attempt.job_id)) jobs ∙ job_found;
        };
        fenced = v.fenced;
        found =
            ap (find_row (is_activation_of attempt_id fence)) operations
            ∙ ground (
              arith,
              find_row-update_rows (is_activation_of attempt_id fence) (is_finalized_operation i)
                  (succeed_operation i) st.operations (λ o. refl),
              v.found,
              unresolved,
            );
        digest = v.digest;
      },
    )
