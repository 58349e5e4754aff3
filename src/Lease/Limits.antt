-- ===== src/Lease/Limits.antt =====
-- How many leases one call of `Claim` grants.
use auto_deploy.Base.{
  ℕ, zero, suc, ◌+◌, ◌*◌, ◌≤◌, ◌≡◌, inl, inr, List, [], ◌∷◌, none, some, Bytes, arith, Bool-cases,
  ok, Result-cases, length,
}
use auto_deploy.Github.{valid_opaque_id}
use auto_deploy.Lease.State.{Store, Attempt}
use auto_deploy.Lease.Renewal.{lease_duration}
use auto_deploy.Lease.Claim.{ClaimedLease, try_claim}
use auto_deploy.Lease.Claiming.{
  Candidate, ensure_slots, claim_candidates, claim_transaction, claim, least, claim_limit_max,
  claim_discovery_per_job, claim_discovery_max, discover, sorted_distinct_environments,
  authenticate_server_candidate,
}
use auto_deploy.Lease.Calls.{more_granted, claim_transaction→}

claim_candidates-length :
    (sum256 : Bytes → Bytes) (new_id : List Attempt → ℕ) (server : Bytes) (now left : ℕ)
    (cs : List Candidate) (st : Store) (w : List ClaimedLease × Store)
    → claim_candidates sum256 new_id server now left cs st ≡ ok w
    → length w.0 ≤ left
unfolding claim_candidates
claim_candidates-length sum256 new_id server now left [] st w h = ground arith
claim_candidates-length sum256 new_id server now zero (c ∷ cs) st w h = ground arith
claim_candidates-length sum256 new_id server now (suc left) (c ∷ cs) st w h =
    elim (Result-cases
      (try_claim sum256 new_id st server c.job_id c.environment_id now (now + lease_duration))) [
        | inr (e, failed) ↦ absurd (ground arith)
        | inl ((none, mid), did) ↦
            claim_candidates-length sum256 new_id server now (suc left) cs mid w (ground arith)
        | inl ((some lease, mid), did) ↦
            let (more, rest, granted, same) =
              more_granted lease (claim_candidates sum256 new_id server now left cs mid) w
                (ground arith) in
            rw granted (
              omega (arith, claim_candidates-length sum256 new_id server now left cs mid more rest))
      ]

claim→transaction :
    (sum256 : Bytes → Bytes) (new_id : List Attempt → ℕ) (server presented : Bytes)
    (n discovery_now slot_now now : ℕ) (st : Store) (leases : List ClaimedLease)
    → (claim sum256 new_id server presented (suc n) discovery_now slot_now now st).0 ≡ ok leases
    → (cs : List Candidate) × (prepared : Store) × (w : List ClaimedLease × Store)
      × (claim_transaction sum256 new_id server presented
            (least (suc n) claim_limit_max)
            now
            cs
            prepared
          ≡ ok w)
      × (leases ≡ w.0)
unfolding claim
claim→transaction sum256 new_id server presented n discovery_now slot_now now st leases h =
    elim (Bool-cases (valid_opaque_id server)) [
      | inr other ↦ absurd (ground arith)
      | inl valid ↦
          elim (Result-cases (authenticate_server_candidate st.servers server presented)) [
            | inr (e, failed) ↦ absurd (ground arith)
            | inl (_, seen) ↦
                let limit = least (suc n) claim_limit_max in
                let cs =
                  discover st server discovery_now
                    (least (limit * claim_discovery_per_job) claim_discovery_max) in
                let prepared = ensure_slots (sorted_distinct_environments cs) slot_now st in
                elim (Result-cases
                  (claim_transaction sum256 new_id server presented limit now cs prepared)) [
                    | inr (e, failed) ↦ absurd (ground arith)
                    | inl (w, did) ↦ (cs, prepared, w, did, ground arith)
                  ]
          ]
    ]

-- A call grants at most as many leases as it was asked for, and at most 50.
pub length-claim :
    (sum256 : Bytes → Bytes) (new_id : List Attempt → ℕ) (server presented : Bytes)
    (limit discovery_now slot_now now : ℕ) (st : Store) (leases : List ClaimedLease)
    → (claim sum256 new_id server presented limit discovery_now slot_now now st).0 ≡ ok leases
    → (length leases ≤ limit) × (length leases ≤ 50)
unfolding claim
length-claim sum256 new_id server presented zero discovery_now slot_now now st leases h =
    ground arith
length-claim sum256 new_id server presented (suc n) discovery_now slot_now now st leases h =
    let (cs, prepared, w, did, same) =
      claim→transaction sum256 new_id server presented n discovery_now slot_now now st leases h in
    let bound =
      claim_candidates-length sum256 new_id server now (least (suc n) claim_limit_max) cs prepared w
        (claim_transaction→ sum256 new_id server presented (least (suc n) claim_limit_max) now cs
          prepared w did) in
    rw same (ground (arith, bound))
