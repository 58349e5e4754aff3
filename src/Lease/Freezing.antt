-- ===== src/Lease/Freezing.antt =====
-- What the freeze of a claim promises: a retry executes with what the first attempt froze, and the
-- release of a deployment is pinned to one digest.
use mathlib.Core.Path.{subst}
use auto_deploy.Base.{
  ◌&&◌, Bool-cases, Option-cases, inl, inr, ℕ, ◌≡◌, refl, sym, ap, ◌∙◌, false, List, [], ◌∷◌, ◌++◌,
  Option, none, some, ◌==◌, Bytes, bytes_eq, bytes_eq_refl, ==_refl, arith, ok, err, length,
  if◌then◌else◌,
}
use auto_deploy.Base.Sorting.{IsOrdered, sort_by-IsOrdered, sort_by, bytes_ltb}
use auto_deploy.Base.Table.{find_row}
use auto_deploy.Lease.State.{corrupt_state, Store, Job, Attempt}
use auto_deploy.Lease.Runtime.{
  Runtime, Frozen, FrozenExecution, frozen_of, insert_frozen, resolve_runtime_secret_bindings,
  resolve_runtime_literal_bindings, insert_attempt_execution, insert_frozen_secret_versions,
  insert_frozen_literal_values,
}
use auto_deploy.Lease.Freeze.{
  Snapshot, insert_snapshot, copy_snapshot, copy_previous_attempt_execution,
  copy_previous_frozen_secret_versions, copy_previous_frozen_literal_values, ensure_release,
  by_secret_name, by_literal_name,
}
use auto_deploy.Lease.Claim.{freeze, fresh, retry, plan_claim}
use auto_deploy.Lease.Ordered.{
  resolve_runtime_secret_bindings-IsOrdered, resolve_runtime_literal_bindings-IsOrdered,
}

module _ {ℓ} {A : Type ℓ} where
  append_assoc : (xs ys zs : List A) → (xs ++ ys) ++ zs ≡ xs ++ (ys ++ zs)
  append_assoc [] ys zs = refl
  append_assoc (x ∷ xs) ys zs = ap (λ r. x ∷ r) (append_assoc xs ys zs)

  append_nil : (xs : List A) → xs ++ [] ≡ xs
  append_nil [] = refl
  append_nil (x ∷ xs) = ap (λ r. x ∷ r) (append_nil xs)

  -- The rows of an attempt come back in the order of their insertion.
  frozen_of-insert_frozen :
      (i : ℕ) (xs : List A) (rows : List (Frozen A))
      → frozen_of i (insert_frozen i xs rows) ≡ frozen_of i rows ++ xs
  unfolding frozen_of insert_frozen
  frozen_of-insert_frozen i [] rows = sym (append_nil (frozen_of i rows))
  frozen_of-insert_frozen i (x ∷ xs) rows =
      frozen_of-insert_frozen i xs (record { attempt_id = i; frozen = x } ∷ rows)
      ∙ ap (λ t. (if t then frozen_of i rows ++ x ∷ [] else frozen_of i rows) ++ xs) (==_refl i)
      ∙ append_assoc (frozen_of i rows) (x ∷ []) xs

  frozen_of-other :
      (i k : ℕ) (xs : List A) (rows : List (Frozen A))
      → (i == k) ≡ false
      → frozen_of k (insert_frozen i xs rows) ≡ frozen_of k rows
  unfolding frozen_of insert_frozen
  frozen_of-other i k [] rows ne = refl
  frozen_of-other i k (x ∷ xs) rows ne =
      frozen_of-other i k xs (record { attempt_id = i; frozen = x } ∷ rows) ne
      ∙ ap (λ t. if t then frozen_of k rows ++ x ∷ [] else frozen_of k rows) ne

abbrev pub frozen_execution : Option (Frozen FrozenExecution) → Option FrozenExecution
frozen_execution none = none
frozen_execution (some r) = some r.frozen

-- The frozen rows of an attempt are those of the snapshot.
pub record HasFrozen (rt : Runtime) (i : ℕ) (s : Snapshot) : Type 0 where
  pub execution :
      frozen_execution (find_row (λ r. r.attempt_id == i) rt.executions) ≡ some s.execution
  pub bindings : frozen_of i rt.frozen_secrets ≡ s.bindings
  pub literals : frozen_of i rt.frozen_literals ≡ s.literals

-- An attempt without frozen bindings.
pub record IsUnfrozen (rt : Runtime) (i : ℕ) : Type 0 where
  pub bindings : frozen_of i rt.frozen_secrets ≡ []
  pub literals : frozen_of i rt.frozen_literals ≡ []

insert_snapshot-HasFrozen :
    (rt : Runtime) (i : ℕ) (s : Snapshot) → IsUnfrozen rt i → HasFrozen (insert_snapshot rt i s) i s
unfolding insert_snapshot insert_attempt_execution insert_frozen_secret_versions
    insert_frozen_literal_values find_row
insert_snapshot-HasFrozen rt i s v = record {
  execution = ground arith;
  bindings =
      frozen_of-insert_frozen i s.bindings rt.frozen_secrets ∙ ap (λ r. r ++ s.bindings) v.bindings;
  literals =
      frozen_of-insert_frozen i s.literals rt.frozen_literals
      ∙ ap (λ r. r ++ s.literals) v.literals;
}

insert_snapshot-IsUnfrozen :
    (rt : Runtime) (i k : ℕ) (s : Snapshot)
    → (i == k) ≡ false
    → IsUnfrozen rt k
    → IsUnfrozen (insert_snapshot rt i s) k
unfolding insert_snapshot insert_attempt_execution insert_frozen_secret_versions
    insert_frozen_literal_values
insert_snapshot-IsUnfrozen rt i k s ne v = record {
  bindings = frozen_of-other i k s.bindings rt.frozen_secrets ne ∙ v.bindings;
  literals = frozen_of-other i k s.literals rt.frozen_literals ne ∙ v.literals;
}

-- The rows of a snapshot are in the order of the names of their variables.
pub record IsInOrder (s : Snapshot) : Type 0 where
  pub secrets : IsOrdered (λ a b. bytes_ltb a.variable_name b.variable_name) s.bindings
  pub literals : IsOrdered (λ a b. bytes_ltb a.variable_name b.variable_name) s.literals

-- A copy reads the snapshot of the attempt before and inserts it as that of the new attempt.
copy_snapshot_lem :
    (rt : Runtime) (k i : ℕ) (s : Snapshot)
    → HasFrozen rt i s
    → IsInOrder s
    → copy_snapshot rt k i ≡ ok (s, insert_snapshot rt k s)
unfolding copy_snapshot copy_previous_attempt_execution copy_previous_frozen_secret_versions
    copy_previous_frozen_literal_values insert_snapshot insert_attempt_execution
    insert_frozen_secret_versions insert_frozen_literal_values
copy_snapshot_lem rt k i s v o = ground (
  arith,
  v.execution,
  ap (sort_by by_secret_name) v.bindings ∙ sort_by-IsOrdered by_secret_name s.bindings o.secrets,
  ap (sort_by by_literal_name) v.literals ∙ sort_by-IsOrdered by_literal_name s.literals o.literals,
)

-- A retry executes with exactly what the attempt before it froze, where that is in the order of the
-- names: its snapshot is the frozen one, and the rows that the retry leaves are frozen for the next
-- retry alike, where the new attempt has no frozen rows yet.
pub freeze-retry :
    (rt : Runtime) (prev new : ℕ) (s : Snapshot)
    → HasFrozen rt prev s
    → IsUnfrozen rt new
    → IsInOrder s
    → (rt' : Runtime) × (freeze rt new (retry prev) ≡ ok (s, rt')) × HasFrozen rt' new s
unfolding freeze
freeze-retry rt prev new s v u o = (
  insert_snapshot rt new s,
  copy_snapshot_lem rt new prev s v o,
  insert_snapshot-HasFrozen rt new s u,
)

-- The plan of a first attempt is what its queries resolve, in the order of the names.
plan_claim-IsInOrder :
    (st : Store) (j : Job) (config : FrozenExecution) (s : Snapshot)
    → plan_claim st j config ≡ ok (some (fresh s))
    → IsInOrder s
unfolding plan_claim
plan_claim-IsInOrder st j config s h = elim (Bool-cases (j.attempt_count == 0)) [
  | inr later ↦
      elim (Option-cases (
        find_row (λ (a : Attempt). a.job_id == j.id && a.attempt_number == j.attempt_count)
          st.attempts)) [
            | inl missing ↦ absurd (ground arith)
            | inr (a, found) ↦ absurd (ground arith)
          ]
  | inl first ↦ elim (Option-cases (resolve_runtime_secret_bindings st.runtime j.environment_id)) [
    | inl missing ↦ absurd (ground arith)
    | inr (bs, secrets) ↦
        elim (Option-cases (resolve_runtime_literal_bindings st.runtime j.environment_id)) [
          | inl missing ↦ absurd (ground arith)
          | inr (ls, literals) ↦
              let planned : Snapshot = record {
                execution = config;
                bindings = bs;
                literals = ls;
              } in
              let same : planned ≡ s = ground arith in
              subst IsInOrder same (record {
                secrets =
                    resolve_runtime_secret_bindings-IsOrdered st.runtime j.environment_id bs
                      secrets;
                literals =
                    resolve_runtime_literal_bindings-IsOrdered st.runtime j.environment_id ls
                      literals;
              })
        ]
  ]
]

-- A first attempt freezes what it resolved, and a retry of it executes with that: the freeze of a
-- first attempt by its plan and then of a retry, both without frozen rows before, return the snapshot
-- that the plan resolved, which is then frozen for the retry too.
pub freeze_again :
    (st : Store) (j : Job) (config : FrozenExecution) (first second : ℕ) (s : Snapshot)
    → plan_claim st j config ≡ ok (some (fresh s))
    → (first == second) ≡ false
    → IsUnfrozen st.runtime first
    → IsUnfrozen st.runtime second
    → (rt₁ rt₂ : Runtime) × (freeze st.runtime first (fresh s) ≡ ok (s, rt₁))
      × (freeze rt₁ second (retry first) ≡ ok (s, rt₂))
      × HasFrozen rt₂ second s
unfolding freeze
freeze_again st j config first second s plan ne u v =
    let rt₁ = insert_snapshot st.runtime first s in
    let (rt₂, did, frozen) =
      freeze-retry rt₁ first second s (insert_snapshot-HasFrozen st.runtime first s u)
        (insert_snapshot-IsUnfrozen st.runtime first second s ne v)
        (plan_claim-IsInOrder st j config s plan) in
    (rt₁, rt₂, refl, did, frozen)

-- Once a deployment has its release, with a digest of 32 bytes, any later claim finds that release and
-- changes nothing where its digest is the same, and fails where it is another.
pub ensure_release-pinned :
    (rt : Runtime) (deployment_id environment_id commit_sha strategy digest id : Bytes)
    (rt' : Runtime)
    → ensure_release rt deployment_id environment_id commit_sha strategy digest ≡ ok (id, rt')
    → length digest ≡ 32
    → (e c k later : Bytes)
    → ensure_release rt' deployment_id e c k later
      ≡ (if bytes_eq digest later then ok (deployment_id, rt') else err corrupt_state)
unfolding ensure_release find_row
ensure_release-pinned rt deployment_id environment_id commit_sha strategy digest id rt' h size e c k
      later =
    ground (arith, bytes_eq_refl deployment_id)
