-- ===== src/Lease/Claims.antt =====
-- Claim of agent_lease_repository.go: the jobs that it discovers, the slots that it adds, and the run
-- of claims that it answers.
use mathlib.Core.List.{append_assoc}
use mathlib.Core.Path.{subst}
use auto_deploy.Base.{
  ℕ, zero, suc, ◌≡◌, refl, sym, ap, ◌∙◌, ◌⊎◌, inl, inr, true, false, List, [], ◌∷◌, ◌++◌, All,
  All-append, ◌*◌, ◌<◌, none, Bytes, bytes_eq, arith, Bool-cases, Result, ok, err, Result-cases,
  if◌then◌else◌,
}
use auto_deploy.Base.Table.{find_row, exists_row}
use auto_deploy.Github.{valid_opaque_id}
use auto_deploy.Lease.State.{Store, Attempt, Slot, Error, JobState, job_queued, retry_wait}
use auto_deploy.Lease.Claim.{ClaimedLease, is_runnable}
use auto_deploy.Lease.Chosen.{IsChosen, query-IsChosen, least-min}
use auto_deploy.Lease.Granting.{runnable→waiting}
use auto_deploy.Base.{not, ltb, ◌&&◌, ◌≤◌, map}
use auto_deploy.Base.Sorting.{filter_rows, sort_by}
use Prim.Native.Nat.{min}
use auto_deploy.Lease.Claiming.{
  new_slot, ensure_slot, ensure_slots, claim_transaction, claim, least, claim_limit_max,
  claim_discovery_per_job, claim_discovery_max, discover, JobRow, job_rows, runs_before,
  candidate_of, take, sorted_distinct_environments, authenticate_server_candidate,
}
use auto_deploy.Lease.Runs.{IsCredential, ClaimRun, claim_transaction-ClaimRun}

-- A slot that is free, under no fence yet.
abbrev pub IsNew : Slot → Type 0
IsNew s =
    (s.fence ≡ 0)
    × (s.current_attempt_id ≡ none)
    × (s.reconciliation_required ≡ false)
    × (s.reconciliation_attempt_id ≡ none)

ensure_slots_lem :
    (es : List Bytes) (now : ℕ) (st : Store)
    → (new : List Slot) × All IsNew new
      × (ensure_slots es now st ≡ record st { slots = new ++ st.slots })
unfolding ensure_slots ensure_slot
ensure_slots_lem [] now st = ([], tt, refl)
ensure_slots_lem (e ∷ es) now st =
    elim (Bool-cases (exists_row (λ s. bytes_eq s.environment_id e) st.slots)) [
      | inl there ↦
          let (new, free, same) = ensure_slots_lem es now st in
          (
            new,
            free,
            ap (λ x. ensure_slots es now x)
                  (ap (λ b. if b then st else record st { slots = new_slot e now ∷ st.slots })
                    there)
                ∙ same,
          )
      | inr missing ↦
          let s = new_slot e now in
          let (new, free, same) = ensure_slots_lem es now (record st { slots = s ∷ st.slots }) in
          (
            new ++ s ∷ [],
            All-append IsNew new (s ∷ []) free ((refl, refl, refl, refl), tt),
            ap (λ x. ensure_slots es now x)
                  (ap (λ b. if b then st else record st { slots = s ∷ st.slots }) missing)
                ∙ same
                ∙ ap (λ xs. record st { slots = xs }) (sym (append_assoc new (s ∷ []) st.slots)),
          )
    ]

-- A job of a server that waits for a lease, and is due.
abbrev pub IsWaiting : Bytes → ℕ → JobRow → Type 0
IsWaiting server now (j, q) =
    (j.server_id ≡ server)
    × ((j.state ≡ job_queued) ⊎ (j.state ≡ retry_wait))
    × (j.available_at ≤ now)

waiting→runnable :
    (state : JobState) → (state ≡ job_queued) ⊎ (state ≡ retry_wait) → is_runnable state ≡ true
waiting→runnable state (inl e) = ap is_runnable e
waiting→runnable state (inr e) = ap is_runnable e

-- The rows that `discover` makes into candidates.
discovered : Store → Bytes → ℕ → ℕ → List JobRow
discovered st server now n = take n (
    sort_by runs_before (
      filter_rows
        (λ r.
          bytes_eq r.0.server_id server && is_runnable r.0.state && not (ltb now r.0.available_at))
        (job_rows st.enqueued st.jobs)))

discovered-IsChosen :
    (st : Store) (server : Bytes) (now n : ℕ)
    → IsChosen (IsWaiting server now) n (job_rows st.enqueued st.jobs) (discovered st server now n)
unfolding discovered
discovered-IsChosen st server now n =
    query-IsChosen (IsWaiting server now) _ runs_before n (job_rows st.enqueued st.jobs) (λ (j, q).
      (
        λ h. (ground arith, runnable→waiting j.state (ground arith), ground arith),
        λ (mine, waits, due). ground (arith, waiting→runnable j.state waits),
      ))

-- A run of claims, until as many are granted as are left, over at most `bound` jobs that wait.
abbrev pub IsDiscoveryRun :
    (Bytes → Bytes)
    → (List Attempt → ℕ)
    → Bytes
    → ℕ
    → ℕ
    → ℕ
    → ℕ
    → Store
    → Store
    → List ClaimedLease
    → Store
    → Type 0
IsDiscoveryRun sum256 new_id server discovery_now now left bound found st ls st' =
    (rows : List JobRow) × IsChosen (IsWaiting server discovery_now) bound
      (job_rows found.enqueued found.jobs) rows
    × ClaimRun sum256 new_id server now left (map candidate_of rows) st ls st'

discover-IsDiscoveryRun :
    (sum256 : Bytes → Bytes) (new_id : List Attempt → ℕ) (server : Bytes)
    (discovery_now now limit : ℕ) (found st : Store) (ls : List ClaimedLease) (st' : Store)
    → ClaimRun sum256 new_id server now
        (least limit 50)
        (discover found server discovery_now (least (least limit 50 * 5) 200))
        st
        ls
        st'
    → IsDiscoveryRun sum256 new_id server discovery_now now
        (min limit 50)
        (min (min limit 50 * 5) 200)
        found
        st
        ls
        st'
unfolding discover discovered
discover-IsDiscoveryRun sum256 new_id server discovery_now now limit found st ls st' run =
    let bound = least (least limit 50 * 5) 200 in
    let widen =
      subst
        (λ b.
          IsDiscoveryRun sum256 new_id server discovery_now now (least limit 50) b found st ls st')
        (least-min (least limit 50 * 5) 200 ∙ ap (λ l. min (l * 5) 200) (least-min limit 50))
        (
          discovered found server discovery_now bound,
          discovered-IsChosen found server discovery_now bound,
          run,
        ) in
    subst
      (λ l.
        IsDiscoveryRun sum256 new_id server discovery_now now l (min (min limit 50 * 5) 200) found
          st ls st')
      (least-min limit 50) widen

-- What `Claim` answers, and what it leaves: free slots are added first; then it fails, or the
-- credential is locked and the leases of its answer are those that a run of claims granted.
abbrev pub IsClaimAnswer :
    (Bytes → Bytes)
    → (List Attempt → ℕ)
    → Bytes
    → Bytes
    → ℕ
    → ℕ
    → ℕ
    → Store
    → Result Error (List ClaimedLease)
    → Store
    → Type 0
IsClaimAnswer sum256 new_id server presented limit discovery_now now st answer st' =
    (new : List Slot) × All IsNew new
    × (((e : Error) × (answer ≡ err e) × (st' ≡ record st { slots = new ++ st.slots }))
        ⊎ ((ls : List ClaimedLease) × (answer ≡ ok ls)
            × IsCredential st.servers server presented
            × IsDiscoveryRun sum256 new_id server discovery_now now (min limit 50)
                (min (min limit 50 * 5) 200) st (record st { slots = new ++ st.slots }) ls st'))

-- A call of Claim with a positive limit adds free slots at most, and then fails and changes nothing
-- else, or answers exactly the leases that a run of claims of single candidates granted, in turn until
-- the limit, and at most 50, is reached, each with a deadline 90 seconds after the clock. Then the
-- server was active when its row was locked, under the credential that was presented, and the
-- candidates were jobs of this server that were due and queued or waiting for a retry at the
-- discovery: all of those, or five for each lease of the limit, and at most 200.
pub claim_lem :
    (sum256 : Bytes → Bytes) (new_id : List Attempt → ℕ) (server presented : Bytes)
    (limit discovery_now slot_now now : ℕ) (st : Store)
    → 0 < limit
    → IsClaimAnswer sum256 new_id server presented limit discovery_now now st
        (claim sum256 new_id server presented limit discovery_now slot_now now st).0
        (claim sum256 new_id server presented limit discovery_now slot_now now st).1
unfolding claim find_row
claim_lem sum256 new_id server presented zero discovery_now slot_now now st p = absurd (omega arith)
claim_lem sum256 new_id server presented (suc n) discovery_now slot_now now st p =
    elim (Bool-cases (valid_opaque_id server)) [
      | inr other ↦ rw (claim, other) ([], tt, inl (_, refl, refl))
      | inl valid ↦
          elim (Result-cases (authenticate_server_candidate st.servers server presented)) [
            | inr (e, failed) ↦ rw (claim, valid, failed) ([], tt, inl (e, refl, refl))
            | inl (_, seen) ↦
                let limit = least (suc n) claim_limit_max in
                let cs =
                  discover st server discovery_now
                    (least (limit * claim_discovery_per_job) claim_discovery_max) in
                let es = sorted_distinct_environments cs in
                let (new, free, made) = ensure_slots_lem es slot_now st in
                elim (Result-cases (
                  claim_transaction sum256 new_id server presented limit now cs
                    (ensure_slots es slot_now st))) [
                      | inr (e, failed) ↦
                          rw (claim, valid, seen, failed) (new, free, inl (e, refl, made))
                      | inl (w, did) ↦
                          let (credential, run) =
                            claim_transaction-ClaimRun sum256 new_id server presented limit now cs
                              (record st { slots = new ++ st.slots }) w
                              (ap
                                  (λ x.
                                    claim_transaction sum256 new_id server presented limit now cs x)
                                  (sym made)
                                ∙ did) in
                          rw (claim, valid, seen, did)
                            (
                              new,
                              free,
                              inr (
                                w.0,
                                refl,
                                credential,
                                discover-IsDiscoveryRun sum256 new_id server discovery_now now
                                    (suc n) st (record st { slots = new ++ st.slots }) w.0 w.1 run,
                              ),
                            )
                    ]
          ]
    ]
