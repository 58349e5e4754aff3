-- ===== src/Lease/Runs.antt =====
-- The transaction of Claim of agent_lease_repository.go as a run of claims of single candidates.
use auto_deploy.Base.{
  ℕ, zero, suc, ◌+◌, ◌≡◌, sym, inl, inr, true, List, [], ◌∷◌, none, some, Bytes, arith,
  Option-cases, Result, ok, Result-cases,
}
use auto_deploy.Lease.State.{
  Store, Attempt, Server, Error, find_server, lock_active_server_credential,
  match_server_credential,
}
use auto_deploy.Lease.Renewal.{lease_duration}
use auto_deploy.Lease.Claim.{ClaimedLease, try_claim}
use auto_deploy.Lease.Claiming.{Candidate, claim_candidates, claim_transaction}
use auto_deploy.Lease.Calls.{more_granted, claim_transaction→}

-- The credential of an active server.
abbrev pub IsCredential : List Server → Bytes → Bytes → Type 0
IsCredential servers server presented =
    (row : Server) × (find_server server servers ≡ some row)
    × (row.is_active ≡ true)
    × (row.credential_digest ≡ some presented)

lock→IsCredential :
    (servers : List Server) (server presented : Bytes)
    → lock_active_server_credential servers server presented ≡ ok tt
    → IsCredential servers server presented
unfolding lock_active_server_credential match_server_credential
lock→IsCredential servers server presented h = elim (Option-cases (find_server server servers)) [
  | inl missing ↦ absurd (ground arith)
  | inr (row, found) ↦ elim (Option-cases row.credential_digest) [
    | inl unset ↦ absurd (ground arith)
    | inr (stored, set) ↦ (row, found, ground arith, ground arith)
  ]
]

nothing_granted :
    (st : Store) (w : List ClaimedLease × Store)
    → ◌≡◌ {A = Result Error (List ClaimedLease × Store)} (ok w) (ok ([], st))
    → w ≡ ([], st)
nothing_granted st w h = cc h

-- Claims of the candidates for a server, in turn, with the leases that they grant, until as many are
-- granted as are left. Every lease expires 90 seconds after the clock of the transaction.
pub data ClaimRun (sum256 : Bytes → Bytes) (new_id : List Attempt → ℕ) (server : Bytes) (now : ℕ)
    : ℕ → List Candidate → Store → List ClaimedLease → Store → Type 0 where
  exhausted : {left : ℕ} {st : Store} → ClaimRun sum256 new_id server now left [] st [] st
  filled : {cs : List Candidate} {st : Store} → ClaimRun sum256 new_id server now 0 cs st [] st
  passes :
      {left : ℕ} {cs : List Candidate} {st mid st' : Store} {ls : List ClaimedLease} (c : Candidate)
      → try_claim sum256 new_id st server c.job_id c.environment_id now (now + 90000000000)
        ≡ ok (none, mid)
      → ClaimRun sum256 new_id server now (suc left) cs mid ls st'
      → ClaimRun sum256 new_id server now (suc left) (c ∷ cs) st ls st'
  grants :
      {left : ℕ} {cs : List Candidate} {st mid st' : Store} {ls : List ClaimedLease}
      (l : ClaimedLease) (c : Candidate)
      → try_claim sum256 new_id st server c.job_id c.environment_id now (now + 90000000000)
        ≡ ok (some l, mid)
      → ClaimRun sum256 new_id server now left cs mid ls st'
      → ClaimRun sum256 new_id server now (suc left) (c ∷ cs) st (l ∷ ls) st'

claim_candidates-ClaimRun :
    (sum256 : Bytes → Bytes) (new_id : List Attempt → ℕ) (server : Bytes) (now left : ℕ)
    (cs : List Candidate) (st : Store) (w : List ClaimedLease × Store)
    → claim_candidates sum256 new_id server now left cs st ≡ ok w
    → ClaimRun sum256 new_id server now left cs st w.0 w.1
unfolding claim_candidates
claim_candidates-ClaimRun sum256 new_id server now left [] st w h =
    rw (nothing_granted st w (sym h)) exhausted
claim_candidates-ClaimRun sum256 new_id server now zero (c ∷ cs) st w h =
    rw (nothing_granted st w (sym h)) filled
claim_candidates-ClaimRun sum256 new_id server now (suc left) (c ∷ cs) st w h =
    elim (Result-cases
      (try_claim sum256 new_id st server c.job_id c.environment_id now (now + lease_duration))) [
        | inr (e, failed) ↦ absurd (ground arith)
        | inl ((none, mid), did) ↦
            passes c did (
              claim_candidates-ClaimRun sum256 new_id server now (suc left) cs mid w (ground arith))
        | inl ((some lease, mid), did) ↦
            let (more, rest, granted, same) =
              more_granted lease (claim_candidates sum256 new_id server now left cs mid) w
                (ground arith) in
            rw (granted, same)
              (grants lease c did
                (claim_candidates-ClaimRun sum256 new_id server now left cs mid more rest))
      ]

pub claim_transaction-ClaimRun :
    (sum256 : Bytes → Bytes) (new_id : List Attempt → ℕ) (server presented : Bytes) (limit now : ℕ)
    (cs : List Candidate) (st : Store) (w : List ClaimedLease × Store)
    → claim_transaction sum256 new_id server presented limit now cs st ≡ ok w
    → IsCredential st.servers server presented
      × ClaimRun sum256 new_id server now limit cs st w.0 w.1
unfolding claim_transaction
claim_transaction-ClaimRun sum256 new_id server presented limit now cs st w h = (
  lock→IsCredential st.servers server presented (ground arith),
  claim_candidates-ClaimRun sum256 new_id server now limit cs st w
      (claim_transaction→ sum256 new_id server presented limit now cs st w h),
)
