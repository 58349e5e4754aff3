-- ===== src/Lease/Authorizing.antt =====
-- What `Activate` promises: it moves no slot and no attempt, and its answer is replayed.
use auto_deploy.Base.{
  ℕ, ◌+◌, ◌≡◌, refl, sym, ap, ◌∙◌, true, false, ◌&&◌, ◌⊎◌, inl, inr, List, ◌++◌, none, some, ◌==◌,
  ltb, Bytes, bytes_eq, bytes_eq_refl, ==_refl, length, arith, Option-cases, Result-cases, ok,
}
use mathlib.Core.Path.{subst}
use auto_deploy.Base.Strings.{all_bytes, has_prefix, drop}
use auto_deploy.Base.Table.{find_row}
use auto_deploy.Github.{valid_opaque_id}
use auto_deploy.Deployment
use auto_deploy.Traefik.{EnvironmentRoute, render, digest, digest_prefix, hex_encode}
use auto_deploy.Traefik.Hexadecimal.{hex_decode-hex_encode}
use auto_deploy.Lease.Runtime.{Release, Frozen, FrozenExecution}
use auto_deploy.Lease.State.{Store, Operation, RouteHead, find_head, append_job_event}
use auto_deploy.Lease.Held.{Held, lock_held}
use auto_deploy.Lease.Renewal.{may_renew, is_requested}
use auto_deploy.Lease.Activation.{is_switch_authorized}
use auto_deploy.Lease.Closing.{database_time}
use auto_deploy.Lease.Deployments.{transition_deployment}
use auto_deploy.Lease.Activating.{
  ActivationResult, activation_result, is_activation_of, replay_activate, ready_release, route_of,
  decode_route_digest, authorized_operation, authorize, authorize_route, authorize_switch,
  activate_first, activate_held, activate_lease,
}
use auto_deploy.Lease.Frames.{OnlyDeployments}

decode-digest :
    (sum256 : Bytes → Bytes) (doc raw : Bytes)
    → all_bytes (λ c. ltb c 256) (sum256 doc) ≡ true
    → decode_route_digest (digest sum256 doc) ≡ ok raw
    → raw ≡ sum256 doc
unfolding decode_route_digest digest has_prefix drop
decode-digest sum256 doc raw bound h = ground (arith, hex_decode-hex_encode (sum256 doc) bound)

pub ready_release-SameRows :
    (st : Store) (r : Release) (image_digest : Bytes) (st' : Store)
    → ready_release st r image_digest ≡ ok st'
    → OnlyDeployments st st' × (st'.route_heads ≡ st.route_heads)
unfolding ready_release
ready_release-SameRows st r image_digest st' h = ground arith

-- What a first authorization wrote.
pub authorize_route→ :
    (sum256 : Bytes → Bytes) (new_id : List Operation → ℕ) (st : Store)
    (job_id attempt_id fence : ℕ) (e : Bytes) (head : RouteHead) (release_id image_digest : Bytes)
    (w : ActivationResult × Store)
    → authorize_route sum256 new_id st job_id attempt_id fence e head release_id image_digest ≡ ok w
    → (frozen : Frozen FrozenExecution) × (rendered : Bytes × Bytes) × (raw : Bytes) × (render
          sum256
          (route_of attempt_id fence e head release_id frozen.frozen)
        ≡ some rendered)
      × (decode_route_digest rendered.1 ≡ ok raw)
      × (w ≡ (
        activation_result
            (new_id st.operations)
            (head.route_revision + 1)
            head.hostname
            attempt_id
            rendered.1,
        authorize st
            (new_id st.operations)
            job_id
            attempt_id
            fence
            e
            head
            release_id
            image_digest
            raw,
      ))
unfolding authorize_route
authorize_route→ sum256 new_id st job_id attempt_id fence e head release_id image_digest w did =
    elim (Option-cases (find_row (λ r. r.attempt_id == attempt_id) st.runtime.executions)) [
      | inl missing ↦ absurd (ground arith)
      | inr (frozen, p) ↦
          elim (Option-cases
            (render sum256 (route_of attempt_id fence e head release_id frozen.frozen))) [
              | inl invalid ↦ absurd (ground arith)
              | inr (rendered, q) ↦ elim (Result-cases (decode_route_digest rendered.1)) [
                | inr (bad, failed) ↦ absurd (ground arith)
                | inl (raw, u) ↦ (frozen, rendered, raw, q, u, ground arith)
              ]
            ]
    ]

pub authorize_switch→ :
    (sum256 : Bytes → Bytes) (new_id : List Operation → ℕ) (st : Store) (job_id : ℕ)
    (deployment_id : Bytes) (attempt_id fence : ℕ) (e image_digest : Bytes)
    (w : ActivationResult × Store)
    → authorize_switch sum256 new_id st job_id deployment_id attempt_id fence e image_digest ≡ ok w
    → (head : RouteHead) × (release : Release) × (mid : Store) × (find_head e st ≡ some head)
      × (ready_release st release image_digest ≡ ok mid)
      × (authorize_route sum256 new_id mid job_id attempt_id fence e head release.id image_digest
          ≡ ok w)
unfolding authorize_switch
authorize_switch→ sum256 new_id st job_id deployment_id attempt_id fence e image_digest w did =
    elim (Option-cases (find_head e st)) [
      | inl missing ↦ absurd (ground arith)
      | inr (head, p) ↦
          elim (Option-cases
            (find_row (λ r. bytes_eq r.deployment_id deployment_id) st.runtime.releases)) [
              | inl missing ↦ absurd (ground arith)
              | inr (release, q) ↦ elim (Result-cases (ready_release st release image_digest)) [
                | inr (bad, failed) ↦ absurd (ground arith)
                | inl (mid, u) ↦ (head, release, mid, p, u, ground arith)
              ]
            ]
    ]

-- The two ways to succeed.
pub activate_held→ :
    (sum256 : Bytes → Bytes) (new_id : List Operation → ℕ) (st : Store) (h : Held)
    (attempt_id fence : ℕ) (image_digest : Bytes) (now : ℕ) (w : ActivationResult × Store)
    → activate_held sum256 new_id st h attempt_id fence image_digest now ≡ ok w
    → ((o : Operation) × (find_row (is_activation_of attempt_id fence) st.operations ≡ some o)
        × (replay_activate st o attempt_id h.attempt.environment_id image_digest ≡ ok w))
      ⊎ ((mid : Store) × (transition_deployment st h.job.deployment_id Deployment.activating
              (database_time now)
            ≡ ok mid)
          × (authorize_switch sum256 new_id mid h.attempt.job_id h.job.deployment_id attempt_id
                fence h.attempt.environment_id image_digest
              ≡ ok w)
          × (find_row (is_activation_of attempt_id fence) st.operations ≡ none))
unfolding activate_held activate_first
activate_held→ sum256 new_id st h attempt_id fence image_digest now w did =
    elim (Option-cases (find_row (is_activation_of attempt_id fence) st.operations)) [
      | inr (o, there) ↦ inl (o, there, ground arith)
      | inl fresh ↦
          elim (Result-cases (
            transition_deployment st h.job.deployment_id Deployment.activating
              (database_time now))) [
                | inr (bad, failed) ↦ absurd (ground arith)
                | inl (mid, moved) ↦ inr (mid, moved, ground arith, fresh)
              ]
    ]

pub activate→held :
    (sum256 : Bytes → Bytes) (new_id : List Operation → ℕ) (st : Store) (server presented : Bytes)
    (attempt_id fence : ℕ) (image_digest : Bytes) (now : ℕ) (w : ActivationResult × Store)
    → activate_lease sum256 new_id st server presented attempt_id fence image_digest now ≡ ok w
    → (h : Held) × (lock_held st server presented attempt_id ≡ ok h)
      × (may_renew h attempt_id fence now ≡ true)
      × (is_requested h.job.cancel_requested_at ≡ false)
      × ((valid_opaque_id server && ltb 0 attempt_id && ltb 0 fence) ≡ true)
      × (activate_held sum256 new_id st h attempt_id fence image_digest now ≡ ok w)
unfolding activate_lease
activate→held sum256 new_id st server presented attempt_id fence image_digest now w did =
    ground arith

pub replay_activate_same :
    (st : Store) (o : Operation) (attempt_id : ℕ) (e image_digest : Bytes)
    (w : ActivationResult × Store)
    → replay_activate st o attempt_id e image_digest ≡ ok w
    → w.1 ≡ st
unfolding replay_activate
replay_activate_same st o attempt_id e image_digest w did = elim (Option-cases (find_head e st)) [
  | inl missing ↦ absurd (ground arith)
  | inr (head, found) ↦ ground arith
]

render-digest :
    (sum256 : Bytes → Bytes) (route : EnvironmentRoute) (rendered : Bytes × Bytes)
    → render sum256 route ≡ some rendered
    → rendered.1 ≡ digest sum256 rendered.0
unfolding render
render-digest sum256 route rendered h = ground arith

-- The rows after a first authorization.
pub record IsAuthorized (st : Store) (attempt_id fence : ℕ) (e image_digest : Bytes)
    (w : ActivationResult × Store) : Type 0 where
  pub operation : Operation
  pub head : RouteHead
  pub servers : w.1.servers ≡ st.servers
  pub jobs : w.1.jobs ≡ st.jobs
  pub attempts : w.1.attempts ≡ st.attempts
  pub slots : w.1.slots ≡ st.slots
  pub recorded : find_row (is_activation_of attempt_id fence) w.1.operations ≡ some operation
  pub authorized : is_switch_authorized operation.state ≡ true
  pub image : operation.digest ≡ image_digest
  pub head_found : find_head e w.1 ≡ some head
  pub answer :
      w.0
      ≡ activation_result operation.id
          (operation.expected_route_revision + 1)
          head.hostname
          attempt_id
          (digest_prefix ++ hex_encode operation.route_digest)

authorize_lem :
    (st : Store) (id job_id attempt_id fence : ℕ) (e : Bytes) (head : RouteHead)
    (release_id image_digest raw : Bytes)
    → find_head e st ≡ some head
    → IsAuthorized st attempt_id fence e image_digest (
      activation_result id
          (head.route_revision + 1)
          head.hostname
          attempt_id
          (digest_prefix ++ hex_encode raw),
      authorize st id job_id attempt_id fence e head release_id image_digest raw,
    )
unfolding authorize append_job_event find_row
authorize_lem st id job_id attempt_id fence e head release_id image_digest raw found = record {
  operation = authorized_operation id job_id attempt_id fence e head release_id image_digest raw;
  head = head;
  servers = refl;
  jobs = refl;
  attempts = refl;
  slots = refl;
  recorded = ground (arith, ==_refl attempt_id, ==_refl fence);
  authorized = refl;
  image = refl;
  head_found = found;
  answer = refl;
}

IsAuthorized-frame :
    (st mid : Store) (attempt_id fence : ℕ) (e image_digest : Bytes) (w : ActivationResult × Store)
    → OnlyDeployments st mid
    → IsAuthorized mid attempt_id fence e image_digest w
    → IsAuthorized st attempt_id fence e image_digest w
IsAuthorized-frame st mid attempt_id fence e image_digest w (servers, jobs, attempts, slots, ops)
      v =
    record {
      operation = v.operation;
      head = v.head;
      servers = v.servers ∙ servers;
      jobs = v.jobs ∙ jobs;
      attempts = v.attempts ∙ attempts;
      slots = v.slots ∙ slots;
      recorded = v.recorded;
      authorized = v.authorized;
      image = v.image;
      head_found = v.head_found;
      answer = v.answer;
    }

-- The text of the digest is that of the bytes which the operation keeps.
rendered-decoded :
    (sum256 : Bytes → Bytes) (route : EnvironmentRoute) (rendered : Bytes × Bytes) (raw : Bytes)
    → ((s : Bytes) → all_bytes (λ c. ltb c 256) (sum256 s) ≡ true)
    → render sum256 route ≡ some rendered
    → decode_route_digest rendered.1 ≡ ok raw
    → rendered.1 ≡ digest_prefix ++ hex_encode raw
unfolding digest
rendered-decoded sum256 route rendered raw octets h decoded =
    let is = render-digest sum256 route rendered h in
    let sum =
      decode-digest sum256 rendered.0 raw (octets rendered.0)
        (ap decode_route_digest (sym is) ∙ decoded) in
    is ∙ ap (λ s. digest_prefix ++ hex_encode s) (sym sum)

pub authorize_switch-IsAuthorized :
    (sum256 : Bytes → Bytes) (new_id : List Operation → ℕ) (st : Store) (job_id : ℕ)
    (deployment_id : Bytes) (attempt_id fence : ℕ) (e image_digest : Bytes)
    (w : ActivationResult × Store)
    → ((s : Bytes) → all_bytes (λ c. ltb c 256) (sum256 s) ≡ true)
    → authorize_switch sum256 new_id st job_id deployment_id attempt_id fence e image_digest ≡ ok w
    → IsAuthorized st attempt_id fence e image_digest w
authorize_switch-IsAuthorized sum256 new_id st job_id deployment_id attempt_id fence e image_digest
      w octets did =
    let (head, release, mid, found, made, did') =
      authorize_switch→ sum256 new_id st job_id deployment_id attempt_id fence e image_digest w
        did in
    let (same, heads) = ready_release-SameRows st release image_digest mid made in
    let (frozen, rendered, raw, q, decoded, is) =
      authorize_route→ sum256 new_id mid job_id attempt_id fence e head release.id image_digest w
        did' in
    let text =
      rendered-decoded sum256 (route_of attempt_id fence e head release.id frozen.frozen) rendered
        raw octets q decoded in
    let written =
      authorize mid (new_id mid.operations) job_id attempt_id fence e head release.id image_digest
        raw in
    subst (λ k. IsAuthorized st attempt_id fence e image_digest k)
      (sym (
        is
        ∙ ap
            (λ d. (
              activation_result (new_id mid.operations) (head.route_revision + 1) head.hostname
                  attempt_id d,
              written,
            ))
            text))
      (IsAuthorized-frame st mid attempt_id fence e image_digest
        (
          activation_result (new_id mid.operations) (head.route_revision + 1) head.hostname
              attempt_id (digest_prefix ++ hex_encode raw),
          written,
        )
        same
        (authorize_lem mid (new_id mid.operations) job_id attempt_id fence e head release.id
          image_digest raw
          (ap (λ (hs : List RouteHead). find_row (λ r. bytes_eq r.environment_id e) hs) heads
            ∙ found)))

pub replay_of :
    (st : Store) (attempt_id fence : ℕ) (e image_digest : Bytes) (w : ActivationResult × Store)
    (v : IsAuthorized st attempt_id fence e image_digest w)
    → length image_digest ≡ 32
    → replay_activate w.1 v.operation attempt_id e image_digest ≡ ok w
unfolding replay_activate
replay_of st attempt_id fence e image_digest w v size =
    ground (arith, v.authorized, v.image, v.head_found, v.answer, size, bytes_eq_refl image_digest)
