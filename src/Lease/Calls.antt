-- ===== src/Lease/Calls.antt =====
-- The calls of agent_lease_repository.go that are several transactions, or one over several leases,
-- as sequences of the steps of Steps.
use auto_deploy.Base.{
  ℕ, zero, suc, ◌+◌, ◌≡◌, refl, sym, ◌*◌, inl, inr, List, [], ◌∷◌, none, some, Bytes, arith,
  Bool-cases, Result, ok, err, Result-cases, if◌then◌else◌,
}
use auto_deploy.Github.{valid_opaque_id}
use auto_deploy.Lease.State.{Store, Attempt, Error, ◌>>=◌}
use auto_deploy.Lease.Renewal.{lease_duration}
use auto_deploy.Lease.Closing.{expire_one}
use auto_deploy.Lease.Claim.{ClaimedLease, try_claim}
use auto_deploy.Lease.Claiming.{
  Candidate, ensure_slot, ensure_slots, claim_candidates, claim_transaction, claim, least,
  claim_limit_max, claim_discovery_per_job, claim_discovery_max, discover,
  sorted_distinct_environments, authenticate_server_candidate,
}
use auto_deploy.Lease.Sweeping.{
  revoke_one, revoke_all, revoke_in_flight_leases, in_flight, expire_all, expire_batch, overdue,
  expire_batch_max_limit,
}
use auto_deploy.Lease.Entering.{IsFresh}
use auto_deploy.Lease.Steps.{Step, Steps, here, next, claims, prepares, revokes, expires}

Steps-trans : {st : Store} (mid st' : Store) → Steps st mid → Steps mid st' → Steps st st'
Steps-trans mid _ r here = r
Steps-trans mid st' r (next {mid = last} q s) = next (Steps-trans mid last r q) s

first : {st mid : Store} (st' : Store) → Step st mid → Steps mid st' → Steps st st'
first {st} {mid} st' s r = Steps-trans mid st' (next here s) r

ensure_slots-Steps : (es : List Bytes) (now : ℕ) (st : Store) → Steps st (ensure_slots es now st)
unfolding ensure_slots
ensure_slots-Steps [] now st = here
ensure_slots-Steps (e ∷ es) now st =
    first (ensure_slots es now (ensure_slot e now st)) (prepares e now st)
      (ensure_slots-Steps es now (ensure_slot e now st))

expire_all-Steps :
    (draw : ℕ → ℕ) (clock : ℕ → ℕ × ℕ) (is : List ℕ) (processed : ℕ) (st : Store)
    → Steps st (expire_all draw clock is processed st).store
unfolding expire_all
expire_all-Steps draw clock [] processed st = here
expire_all-Steps draw clock (i ∷ is) processed st =
    elim (Result-cases (expire_one draw st i (clock i).0 (clock i).1)) [
      | inr (e, h) ↦ rw (expire_all, h) here
      | inl ((closed, st'), h) ↦
          let count = if closed then processed + 1 else processed in
          rw (expire_all, h)
            (first (expire_all draw clock is count st').store
              (expires draw st i (clock i).0 (clock i).1 closed st' h)
              (expire_all-Steps draw clock is count st'))
    ]

ok_injective : (st st' : Store) → ◌≡◌ {A = Result Error Store} (ok st) (ok st') → st ≡ st'
ok_injective st st' h = cc h

revoke_all-Steps :
    (draw block_clock : ℕ → ℕ) (cs : List Attempt) (now : ℕ) (st st' : Store)
    → revoke_all draw block_clock cs now st ≡ ok st'
    → Steps st st'
unfolding revoke_all
revoke_all-Steps draw block_clock [] now st st' h = rw (ok_injective st' st (sym h)) here
revoke_all-Steps draw block_clock (c ∷ cs) now st st' h =
    elim (Result-cases (revoke_one draw st c now (block_clock c.id))) [
      | inr (e, failed) ↦ absurd (ground arith)
      | inl (mid, did) ↦
          first st' (revokes draw st c now (block_clock c.id) mid did)
            (revoke_all-Steps draw block_clock cs now mid st' (ground arith))
    ]

-- `ExpireBatch` is a sequence of the transactions of single attempts, also where it stops at an error.
pub expire_batch-Steps :
    (draw : ℕ → ℕ) (clock : ℕ → ℕ × ℕ) (now limit : ℕ) (st : Store)
    → Steps st (expire_batch draw clock now limit st).store
unfolding expire_batch
expire_batch-Steps draw clock now zero st = here
expire_batch-Steps draw clock now (suc n) st =
    expire_all-Steps draw clock (overdue st now (least (suc n) expire_batch_max_limit)) 0 st

-- A revocation of a server's leases that succeeds is a sequence of revocations of single leases.
pub revoke_in_flight_leases-Steps :
    (draw block_clock : ℕ → ℕ) (server : Bytes) (now : ℕ) (st st' : Store)
    → revoke_in_flight_leases draw block_clock server now st ≡ ok st'
    → Steps st st'
unfolding revoke_in_flight_leases
revoke_in_flight_leases-Steps draw block_clock server now st st' h =
    revoke_all-Steps draw block_clock (in_flight st server) now st st' h

none_granted :
    (st : Store) (w : List ClaimedLease × Store)
    → ◌≡◌ {A = Result Error (List ClaimedLease × Store)} (ok w) (ok ([], st))
    → w.1 ≡ st
none_granted st w h = cc h

pub more_granted :
    (lease : ClaimedLease) (m : Result Error (List ClaimedLease × Store))
    (w : List ClaimedLease × Store)
    → ◌>>=◌ {B = List ClaimedLease × Store} m (λ more. ok (lease ∷ more.0, more.1)) ≡ ok w
    → (more : List ClaimedLease × Store) × (m ≡ ok more) × (w.0 ≡ lease ∷ more.0) × (w.1 ≡ more.1)
more_granted lease (ok more) w h = (more, refl, cc h, cc h)
more_granted lease (err e) w h = absurd (cc h)

claim_candidates-Steps :
    (sum256 : Bytes → Bytes) (new_id : List Attempt → ℕ) (server : Bytes) (now left : ℕ)
    (cs : List Candidate) (st : Store) (w : List ClaimedLease × Store)
    → claim_candidates sum256 new_id server now left cs st ≡ ok w
    → IsFresh new_id
    → Steps st w.1
unfolding claim_candidates
claim_candidates-Steps sum256 new_id server now left [] st w h fresh =
    rw (none_granted st w (sym h)) here
claim_candidates-Steps sum256 new_id server now zero (c ∷ cs) st w h fresh =
    rw (none_granted st w (sym h)) here
claim_candidates-Steps sum256 new_id server now (suc left) (c ∷ cs) st w h fresh =
    elim (Result-cases
      (try_claim sum256 new_id st server c.job_id c.environment_id now (now + lease_duration))) [
        | inr (e, failed) ↦ absurd (ground arith)
        | inl ((none, mid), did) ↦
            first w.1
              (claims sum256 new_id st server c.job_id c.environment_id now (now + lease_duration)
                none mid fresh did)
              (claim_candidates-Steps sum256 new_id server now (suc left) cs mid w (ground arith)
                fresh)
        | inl ((some lease, mid), did) ↦
            let (more, rest, granted, same) =
              more_granted lease (claim_candidates sum256 new_id server now left cs mid) w
                (ground arith) in
            rw same (
              first more.1
                (claims sum256 new_id st server c.job_id c.environment_id now (now + lease_duration)
                  (some lease) mid fresh did)
                (claim_candidates-Steps sum256 new_id server now left cs mid more rest fresh))
      ]

pub claim_transaction→ :
    (sum256 : Bytes → Bytes) (new_id : List Attempt → ℕ) (server presented : Bytes) (limit now : ℕ)
    (cs : List Candidate) (st : Store) (w : List ClaimedLease × Store)
    → claim_transaction sum256 new_id server presented limit now cs st ≡ ok w
    → claim_candidates sum256 new_id server now limit cs st ≡ ok w
unfolding claim_transaction
claim_transaction→ sum256 new_id server presented limit now cs st w h = ground arith

-- Whatever `Claim` answers, the store it leaves is reached by creations of slots and claims of single
-- candidates, where every new attempt gets an id that no attempt has.
pub claim-Steps :
    (sum256 : Bytes → Bytes) (new_id : List Attempt → ℕ) (server presented : Bytes)
    (limit discovery_now slot_now now : ℕ) (st : Store)
    → IsFresh new_id
    → Steps st (claim sum256 new_id server presented limit discovery_now slot_now now st).1
unfolding claim
claim-Steps sum256 new_id server presented zero discovery_now slot_now now st fresh = here
claim-Steps sum256 new_id server presented (suc n) discovery_now slot_now now st fresh =
    elim (Bool-cases (valid_opaque_id server)) [
      | inr other ↦ rw (claim, other) here
      | inl valid ↦
          elim (Result-cases (authenticate_server_candidate st.servers server presented)) [
            | inr (e, failed) ↦ rw (claim, valid, failed) here
            | inl (_, seen) ↦
                let limit = least (suc n) claim_limit_max in
                let cs =
                  discover st server discovery_now
                    (least (limit * claim_discovery_per_job) claim_discovery_max) in
                let prepared = ensure_slots (sorted_distinct_environments cs) slot_now st in
                let made = ensure_slots-Steps (sorted_distinct_environments cs) slot_now st in
                elim (Result-cases
                  (claim_transaction sum256 new_id server presented limit now cs prepared)) [
                    | inr (e, failed) ↦ rw (claim, valid, seen, failed) made
                    | inl (w, did) ↦
                        rw (claim, valid, seen, did)
                          (Steps-trans prepared w.1 made (
                            claim_candidates-Steps sum256 new_id server now limit cs prepared w
                              (claim_transaction→ sum256 new_id server presented limit now cs
                                prepared w did)
                              fresh))
                  ]
          ]
    ]
