-- ===== src/Lease/Activations.antt =====
-- `Activate` as a call of the lease store: it moves no slot and no attempt, and its answer is replayed.
use auto_deploy.Base.{
  ℕ, ◌<◌, ◌≡◌, refl, ap, ◌∙◌, true, false, ◌&&◌, inl, inr, List, some, ltb, Bytes, length, arith,
  ok,
}
use auto_deploy.Base.Strings.{all_bytes}
use auto_deploy.Base.Table.{find_row}
use auto_deploy.Github.{valid_opaque_id}
use auto_deploy.Deployment
use auto_deploy.Lease.State.{Store, Attempt, Operation, find_attempt, append_job_event}
use auto_deploy.Lease.Held.{
  Held, IsHeld, lock_held, lock_held-IsHeld, IsHeld-lock_held, has_authority,
}
use auto_deploy.Lease.Renewal.{may_renew, is_requested}
use auto_deploy.Lease.Closing.{database_time}
use auto_deploy.Lease.Activating.{
  ActivationResult, is_activation_of, replay_activate, authorize, authorize_switch, activate_held,
  activate_lease,
}
use auto_deploy.Lease.Authorizing.{
  authorize_switch-IsAuthorized, authorize_switch→, authorize_route→, activate_held→, activate→held,
  replay_activate_same, replay_of, ready_release-SameRows,
}
use auto_deploy.Lease.Fencing.{stays}
use auto_deploy.Lease.Views.{Moves}
use auto_deploy.Lease.Keeping.{SameRows, Moves-SameRows, transition_deployment-SameRows}
use auto_deploy.Lease.Frames.{transition-OnlyDeployments}

-- The rows of the attempt are as before.
SameHeld : Store → Store → Type 0
SameHeld st st' =
    (st'.servers ≡ st.servers)
    × (st'.jobs ≡ st.jobs)
    × (st'.attempts ≡ st.attempts)
    × (st'.slots ≡ st.slots)

SameHeld-IsHeld :
    (st st' : Store) (server presented : Bytes) (attempt_id : ℕ) (h : Held)
    → SameHeld st st'
    → IsHeld st server presented attempt_id h
    → IsHeld st' server presented attempt_id h
unfolding SameHeld
SameHeld-IsHeld st st' server presented attempt_id h (servers, jobs, attempts, slots) v = record {
  authenticated = rw servers v.authenticated;
  owned = v.owned;
  attempt_found = rw attempts v.attempt_found;
  slot_found = rw slots v.slot_found;
  job_found = rw jobs v.job_found;
}

activate_of_held :
    (sum256 : Bytes → Bytes) (new_id : List Operation → ℕ) (st : Store) (server presented : Bytes)
    (attempt_id fence : ℕ) (image_digest : Bytes) (now : ℕ) (h : Held)
    → (valid_opaque_id server && ltb 0 attempt_id && ltb 0 fence) ≡ true
    → lock_held st server presented attempt_id ≡ ok h
    → may_renew h attempt_id fence now ≡ true
    → is_requested h.job.cancel_requested_at ≡ false
    → activate_lease sum256 new_id st server presented attempt_id fence image_digest now
      ≡ activate_held sum256 new_id st h attempt_id fence image_digest now
unfolding activate_lease
activate_of_held sum256 new_id st server presented attempt_id fence image_digest now h g held may
      wanted =
    rw (activate_lease, g) (rw held (rw may (rw wanted refl)))

later-may_renew :
    (h : Held) (attempt_id fence now later : ℕ)
    → may_renew h attempt_id fence now ≡ true
    → later < h.attempt.authority_expires_at
    → may_renew h attempt_id fence later ≡ true
unfolding has_authority
later-may_renew h attempt_id fence now later may le = ground arith

held_replay :
    (sum256 : Bytes → Bytes) (new_id : List Operation → ℕ) (st : Store) (h : Held)
    (attempt_id fence : ℕ) (image_digest : Bytes) (later : ℕ) (o : Operation)
    → find_row (is_activation_of attempt_id fence) st.operations ≡ some o
    → activate_held sum256 new_id st h attempt_id fence image_digest later
      ≡ replay_activate st o attempt_id h.attempt.environment_id image_digest
unfolding activate_held
held_replay sum256 new_id st h attempt_id fence image_digest later o found =
    rw (activate_held, found) refl

-- What any success leaves: the rows of the attempt, and an operation that replays the answer.
activated :
    (sum256 : Bytes → Bytes) (new_id : List Operation → ℕ) (st : Store) (h : Held)
    (attempt_id fence : ℕ) (image_digest : Bytes) (now : ℕ) (w : ActivationResult × Store)
    → ((s : Bytes) → all_bytes (λ c. ltb c 256) (sum256 s) ≡ true)
    → length image_digest ≡ 32
    → activate_held sum256 new_id st h attempt_id fence image_digest now ≡ ok w
    → SameHeld st w.1
      × ((later : ℕ) → activate_held sum256 new_id w.1 h attempt_id fence image_digest later ≡ ok w)
unfolding SameHeld
activated sum256 new_id st h attempt_id fence image_digest now w octets size did =
    elim (activate_held→ sum256 new_id st h attempt_id fence image_digest now w did) [
      | inl (o, there, again) ↦
          let same =
            replay_activate_same st o attempt_id h.attempt.environment_id image_digest w again in
          (
            (
              ap (λ (x : Store). x.servers) same,
              ap (λ (x : Store). x.jobs) same,
              ap (λ (x : Store). x.attempts) same,
              ap (λ (x : Store). x.slots) same,
            ),
            λ later.
                ap (λ x. activate_held sum256 new_id x h attempt_id fence image_digest later) same
                ∙ held_replay sum256 new_id st h attempt_id fence image_digest later o there
                ∙ again,
          )
      | inr (mid, moved, did', fresh) ↦
          let e = h.attempt.environment_id in
          let v =
            authorize_switch-IsAuthorized sum256 new_id mid h.attempt.job_id h.job.deployment_id
              attempt_id fence e image_digest w octets did' in
          let (servers, jobs, attempts, slots, ops) =
            transition-OnlyDeployments st h.job.deployment_id Deployment.activating
              (database_time now) mid moved in
          (
            (v.servers ∙ servers, v.jobs ∙ jobs, v.attempts ∙ attempts, v.slots ∙ slots),
            λ later.
                held_replay sum256 new_id w.1 h attempt_id fence image_digest later v.operation
                  v.recorded
                ∙ replay_of mid attempt_id fence e image_digest w v size,
          )
    ]

-- A lost answer of Activate is replayed safely: the same call again, at any later time before the
-- deadline of the attempt, returns the same answer and changes nothing. The image digest has its 32
-- bytes, and SHA-256 returns bytes.
pub activate_replay :
    (sum256 : Bytes → Bytes) (new_id : List Operation → ℕ) (st : Store) (server presented : Bytes)
    (attempt_id fence : ℕ) (image_digest : Bytes) (now : ℕ) (r : ActivationResult) (st' : Store)
    (a : Attempt) (later : ℕ)
    → ((s : Bytes) → all_bytes (λ c. ltb c 256) (sum256 s) ≡ true)
    → length image_digest ≡ 32
    → activate_lease sum256 new_id st server presented attempt_id fence image_digest now
      ≡ ok (r, st')
    → find_attempt attempt_id st ≡ some a
    → later < a.authority_expires_at
    → activate_lease sum256 new_id st' server presented attempt_id fence image_digest later
      ≡ ok (r, st')
activate_replay sum256 new_id st server presented attempt_id fence image_digest now r st' a later
      octets size did found early =
    let (h, held, may, wanted, guarded, did') =
      activate→held sum256 new_id st server presented attempt_id fence image_digest now (r, st')
        did in
    let v = lock_held-IsHeld st server presented attempt_id h held in
    let (same, again) =
      activated sum256 new_id st h attempt_id fence image_digest now (r, st') octets size did' in
    activate_of_held sum256 new_id st' server presented attempt_id fence image_digest later h
      guarded
      (IsHeld-lock_held st' server presented attempt_id h
        (SameHeld-IsHeld st st' server presented attempt_id h same v))
      (later-may_renew h attempt_id fence now later may (ground (arith, v.attempt_found))) wanted
    ∙ again later

authorize_switch-SameRows :
    (sum256 : Bytes → Bytes) (new_id : List Operation → ℕ) (st : Store) (job_id : ℕ)
    (deployment_id : Bytes) (attempt_id fence : ℕ) (e image_digest : Bytes)
    (w : ActivationResult × Store)
    → authorize_switch sum256 new_id st job_id deployment_id attempt_id fence e image_digest ≡ ok w
    → SameRows st w.1
unfolding authorize append_job_event
authorize_switch-SameRows sum256 new_id st job_id deployment_id attempt_id fence e image_digest w
      did =
    let (head, release, mid, found, made, did') =
      authorize_switch→ sum256 new_id st job_id deployment_id attempt_id fence e image_digest w
        did in
    let ((servers, jobs, attempts, slots, ops), heads) =
      ready_release-SameRows st release image_digest mid made in
    let (frozen, rendered, raw, q, decoded, is) =
      authorize_route→ sum256 new_id mid job_id attempt_id fence e head release.id image_digest w
        did' in
    (
      ap (λ (k : ActivationResult × Store). k.1.attempts) is ∙ attempts,
      ap (λ (k : ActivationResult × Store). k.1.slots) is ∙ slots,
    )

pub activate-Moves :
    (sum256 : Bytes → Bytes) (new_id : List Operation → ℕ) (st : Store) (server presented : Bytes)
    (attempt_id fence : ℕ) (image_digest : Bytes) (now : ℕ) (r : ActivationResult) (st' : Store)
    → activate_lease sum256 new_id st server presented attempt_id fence image_digest now
      ≡ ok (r, st')
    → Moves st st'
activate-Moves sum256 new_id st server presented attempt_id fence image_digest now r st' did =
    let (h, held, may, wanted, guarded, did') =
      activate→held sum256 new_id st server presented attempt_id fence image_digest now (r, st')
        did in
    elim (activate_held→ sum256 new_id st h attempt_id fence image_digest now (r, st') did') [
      | inl (o, there, again) ↦
          rw
            (replay_activate_same st o attempt_id h.attempt.environment_id image_digest (r, st')
              again)
            stays
      | inr (mid, moved, switched, fresh) ↦
          let (p, q) =
            transition_deployment-SameRows st h.job.deployment_id Deployment.activating
              (database_time now) mid moved in
          let (p', q') =
            authorize_switch-SameRows sum256 new_id mid h.attempt.job_id h.job.deployment_id
              attempt_id fence h.attempt.environment_id image_digest (r, st') switched in
          Moves-SameRows st st' (p' ∙ p, q' ∙ q)
    ]
