-- ===== src/Lease/Claiming.antt =====
-- `Claim` of internal/store/postgres/agent_lease_repository.go: the discovery of candidates, the
-- creation of their slots, and the transaction that tries the candidates in turn.
use auto_deploy.Base.{
  ℕ, zero, suc, ◌+◌, ◌*◌, Bool, true, false, not, ◌&&◌, List, [], ◌∷◌, map, none, some, ◌==◌, ltb,
  if◌then◌else◌, Bytes, bytes_eq, Result, ok, err,
}
use auto_deploy.Base.Encoding.{ℤ, pos, negsuc}
use auto_deploy.Base.Sorting.{filter_rows, sort_by, bytes_ltb}
use auto_deploy.Base.Table.{find_row, exists_row}
use auto_deploy.Github.{valid_opaque_id}
use auto_deploy.Lease.State.{
  Store, Job, Attempt, Slot, Error, authorization_denied, Enqueued, Server, find_server,
  match_server_credential, lock_active_server_credential, ◌>>=◌, ◌>>◌, guard,
}
use auto_deploy.Lease.Renewal.{lease_duration}
use auto_deploy.Lease.Claim.{ClaimedLease, try_claim, is_runnable}

pub record Candidate : Type 0 where
  pub job_id : ℕ
  pub environment_id : Bytes

abbrev pub claim_discovery_per_job : ℕ
claim_discovery_per_job = 5

abbrev pub claim_discovery_max : ℕ
claim_discovery_max = 200

abbrev pub claim_limit_max : ℕ
claim_limit_max = 50

abbrev pub int_ltb : ℤ → ℤ → Bool
int_ltb (pos a) (pos b) = ltb a b
int_ltb (pos a) (negsuc b) = false
int_ltb (negsuc a) (pos b) = true
int_ltb (negsuc a) (negsuc b) = ltb b a

-- The columns of a row of agent_jobs together.
abbrev pub JobRow : Type 0
JobRow = Job × Enqueued

-- `ORDER BY priority DESC, available_at, created_at, id`.
unfoldable pub runs_before : JobRow → JobRow → Bool
runs_before (a, p) (b, q) =
    if int_ltb q.priority p.priority
    then true
    else if int_ltb p.priority q.priority
    then false
    else if not (a.available_at == b.available_at)
    then ltb a.available_at b.available_at
    else if not (p.created_at == q.created_at)
    then ltb p.created_at q.created_at
    else ltb a.id b.id

unfoldable pub job_rows : List Enqueued → List Job → List JobRow
job_rows columns [] = []
job_rows columns (j ∷ js) =
    let rest = job_rows columns js in
    elim (find_row (λ q. q.job_id == j.id) columns) [ none ↦ rest | some q ↦ (j, q) ∷ rest ]

-- `LIMIT n`.
unfoldable pub take {ℓ} : {A : Type ℓ} → ℕ → List A → List A
take zero xs = []
take (suc n) [] = []
take (suc n) (x ∷ xs) = x ∷ take n xs

abbrev pub candidate_of : JobRow → Candidate
candidate_of (j, q) = record { job_id = j.id; environment_id = j.environment_id }

unfoldable pub discover : Store → Bytes → ℕ → ℕ → List Candidate
unfolding runs_before job_rows
discover st server now n = map candidate_of (
    take n (
      sort_by runs_before (
        filter_rows
          (λ r.
            bytes_eq r.0.server_id server
            && is_runnable r.0.state
            && not (ltb now r.0.available_at))
          (job_rows st.enqueued st.jobs))))

unfoldable pub distinct_environments : List Bytes → List Candidate → List Bytes
distinct_environments seen [] = []
distinct_environments seen (c ∷ cs) =
    if exists_row (bytes_eq c.environment_id) seen
    then distinct_environments seen cs
    else c.environment_id ∷ distinct_environments (c.environment_id ∷ seen) cs

unfoldable pub sorted_distinct_environments : List Candidate → List Bytes
unfolding distinct_environments
sorted_distinct_environments cs = sort_by bytes_ltb (distinct_environments [] cs)

abbrev pub new_slot : Bytes → ℕ → Slot
new_slot environment_id now = record {
  environment_id = environment_id;
  fence = 0;
  current_attempt_id = none;
  reconciliation_required = false;
  reconciliation_attempt_id = none;
  updated_at = now;
}

-- `INSERT … ON CONFLICT DO NOTHING`, of one row.
unfoldable pub ensure_slot : Bytes → ℕ → Store → Store
ensure_slot environment_id now st =
    if exists_row (λ s. bytes_eq s.environment_id environment_id) st.slots
    then st
    else record st { slots = new_slot environment_id now ∷ st.slots }

unfoldable pub ensure_slots : List Bytes → ℕ → Store → Store
ensure_slots [] now st = st
ensure_slots (e ∷ es) now st = ensure_slots es now (ensure_slot e now st)

-- The candidates in turn, until `left` more leases are granted.
unfoldable pub claim_candidates :
    (Bytes → Bytes)
    → (List Attempt → ℕ)
    → Bytes
    → ℕ
    → ℕ
    → List Candidate
    → Store
    → Result Error (List ClaimedLease × Store)
claim_candidates sum256 new_id server now left [] st = ok ([], st)
claim_candidates sum256 new_id server now zero (c ∷ cs) st = ok ([], st)
claim_candidates sum256 new_id server now (suc left) (c ∷ cs) st =
    try_claim sum256 new_id st server c.job_id c.environment_id now (now + lease_duration) >>= λ r.
    elim r.0 [
      | none ↦ claim_candidates sum256 new_id server now (suc left) cs r.1
      | some lease ↦ claim_candidates sum256 new_id server now left cs r.1 >>= λ more.
          ok (lease ∷ more.0, more.1)
    ]

unfoldable pub claim_transaction :
    (Bytes → Bytes)
    → (List Attempt → ℕ)
    → Bytes
    → Bytes
    → ℕ
    → ℕ
    → List Candidate
    → Store
    → Result Error (List ClaimedLease × Store)
claim_transaction sum256 new_id server presented limit now cs st = do
  lock_active_server_credential st.servers server presented
  claim_candidates sum256 new_id server now limit cs st

-- The read without locks that precedes everything else.
unfoldable pub authenticate_server_candidate : List Server → Bytes → Bytes → Result Error (Unit {0})
authenticate_server_candidate servers server presented = elim (find_server server servers) [
  | none ↦ guard (match_server_credential [] false false [] presented) authorization_denied
  | some row ↦ elim row.credential_digest [
    | none ↦
        guard (match_server_credential [] row.is_active false [] presented) authorization_denied
    | some stored ↦
        guard (match_server_credential [] row.is_active row.is_active stored presented)
          authorization_denied
  ]
]

abbrev pub least : ℕ → ℕ → ℕ
least a b = if ltb b a then b else a

-- The whole call where nothing runs between its statements. The slots stay where the transaction
-- fails. A limit that is not positive is 0. The instants are those of the three reads of the clock.
unfoldable pub claim :
    (Bytes → Bytes)
    → (List Attempt → ℕ)
    → Bytes
    → Bytes
    → ℕ
    → ℕ
    → ℕ
    → ℕ
    → Store
    → Result Error (List ClaimedLease) × Store
claim sum256 new_id server presented zero discovery_now slot_now now st = (ok [], st)
claim sum256 new_id server presented (suc n) discovery_now slot_now now st =
    if not (valid_opaque_id server)
    then (err authorization_denied, st)
    else elim (authenticate_server_candidate st.servers server presented) [
      | err e ↦ (err e, st)
      | ok _ ↦
          let limit = least (suc n) claim_limit_max in
          let cs =
            discover st server discovery_now
              (least (limit * claim_discovery_per_job) claim_discovery_max) in
          let prepared = ensure_slots (sorted_distinct_environments cs) slot_now st in
          elim (claim_transaction sum256 new_id server presented limit now cs prepared) [
            | err e ↦ (err e, prepared)
            | ok r ↦ (ok r.0, r.1)
          ]
    ]
