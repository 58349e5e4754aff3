-- ===== src/Lease/Settled.antt =====
-- What a declared resolution leaves of the activation and of the slot.
use auto_deploy.Base.{
  ℕ, ◌≡◌, refl, ap, ◌∙◌, Bool, true, false, inl, inr, List, [], ◌∷◌, Option, none, some, Bytes,
  bytes_eq, arith, Bool-cases, ok,
}
use auto_deploy.Base.Table.{find_row, update_rows, exists_row, find_row-test, find_row-update_rows}
use auto_deploy.Lease.State.{
  Store, Slot, Job, Operation, reconciled, find_slot, find_head, append_job_event,
}
use auto_deploy.Lease.Activation.{unresolved_activation}
use auto_deploy.Lease.Finalizing.{
  is_held_slot, release_slot, is_finalized_operation, succeed_operation,
  finalize_activation_succeeded,
}
use auto_deploy.Lease.Finalized.{finalize_lem, finalize-held}
use auto_deploy.Lease.Locating.{finalize_frame}
use auto_deploy.Lease.Recording.{IsKeyed, keyed-found}
use auto_deploy.Lease.Resolved.{
  not_activated_lem, is_unresolved_in, resolve_declared→, resolve_operation→,
}
use auto_deploy.Lease.Reconciliation.{cleared, clear_slot}
use auto_deploy.Lease.Resolving.{
  is_activated, DeclaredResolution, is_holder, free_flagged, is_resolvable, fail_operation,
  is_reconciliation_required, declared_input, resolve_writes, resolve_declared, head_flag,
  declared_summary,
}

module _ {ℓ} {A : Type ℓ} (query : A → Bool) where
  -- At most one row is selected, as under a unique index.
  abbrev pub IsSole : List A → Type 0
  IsSole [] = Unit
  IsSole (x ∷ xs) = (query x ≡ true → exists_row query xs ≡ false) × IsSole xs

  -- An update that selects nothing new keeps a selection empty.
  none-update_rows :
      (test : A → Bool) (f : A → A) (xs : List A)
      → ((x : A) → query (f x) ≡ false)
      → exists_row query xs ≡ false
      → exists_row query (update_rows test f xs) ≡ false
  unfolding exists_row update_rows
  none-update_rows test f [] out h = refl
  none-update_rows test f (x ∷ xs) out h = ground (arith, out x, none-update_rows test f xs out)

  -- An update that takes the selected row out of the selection leaves it empty.
  sole-update_rows :
      (test : A → Bool) (f : A → A) (xs : List A) (o : A)
      → IsSole xs
      → find_row query xs ≡ some o
      → test o ≡ true
      → ((x : A) → query (f x) ≡ false)
      → exists_row query (update_rows test f xs) ≡ false
  unfolding exists_row update_rows find_row
  sole-update_rows test f [] o sole found hit out = cc
  sole-update_rows test f (x ∷ xs) o (alone, sole) found hit out = elim (Bool-cases (query x)) [
    | inl first ↦ ground (arith, out x, none-update_rows test f xs out (alone first))
    | inr other ↦ ground (arith, out x, sole-update_rows test f xs o sole (ground arith) hit out)
  ]

  none-exists_row : (xs : List A) → find_row query xs ≡ none → exists_row query xs ≡ false
  unfolding exists_row find_row
  none-exists_row [] h = refl
  none-exists_row (x ∷ xs) h = ground (arith, none-exists_row xs)

-- A slot that waits for no reconciliation.
abbrev pub IsClear : Slot → Type 0
IsClear s = (s.reconciliation_required ≡ false) × (s.reconciliation_attempt_id ≡ none)

abbrev pub IsSettled : Bytes → Store → Type 0
IsSettled e st =
    (exists_row (is_unresolved_in e) st.operations ≡ false)
    × ((s : Slot) × (find_slot e st ≡ some s) × IsClear s)

-- The row of a slot that an update frees.
freed-IsClear :
    (e : Bytes) (test : Slot → Bool) (f : Slot → Slot) (ss : List Slot) (s : Slot)
    → IsKeyed ss
    → ((x : Slot) → test x ≡ true → bytes_eq x.environment_id e ≡ true)
    → ((x : Slot) → (f x).environment_id ≡ x.environment_id)
    → ((x : Slot) → IsClear (f x))
    → exists_row test ss ≡ true
    → find_row (λ x. bytes_eq x.environment_id e) ss ≡ some s
    → (s' : Slot) × (find_row (λ x. bytes_eq x.environment_id e) (update_rows test f ss) ≡ some s')
      × IsClear s'
freed-IsClear e test f ss s key only keeps clear held slot =
    let hit = keyed-found e test ss s key only held slot in
    let step =
      find_row-update_rows (λ (x : Slot). bytes_eq x.environment_id e) test f ss
        (λ x. ap (λ (k : Bytes). bytes_eq k e) (keeps x)) in
    (f s, ground (arith, step, slot, hit), clear s)

writes-IsSettled :
    (d : DeclaredResolution) (job : Job) (o : Operation) (now : ℕ) (st st' : Store) (s : Slot)
    → resolve_writes d job o now st ≡ ok st'
    → is_reconciliation_required o.state ≡ true
    → find_row (is_unresolved_in d.environment_id) st.operations ≡ some o
    → IsSole (is_unresolved_in d.environment_id) st.operations
    → find_slot d.environment_id st ≡ some s
    → IsKeyed st.slots
    → IsSettled d.environment_id st'
unfolding resolve_writes unresolved_activation
writes-IsSettled d job o now st st' s h at found sole slot key =
    let e = d.environment_id in
    let i = declared_input d job o now in
    elim (Bool-cases (is_activated d.outcome)) [
      | inl switched ↦
          let done : finalize_activation_succeeded i st ≡ ok st' = ground arith in
          let (servers, jobs, operations) = finalize_frame i st st' done in
          let (head, _, _, _, _, attempts, slots) = finalize_lem i st st' done in
          let (s', there, clear) =
            freed-IsClear e (is_held_slot i) (release_slot i) st.slots s key (λ x t. ground arith)
              (λ x. refl) (λ x. (refl, refl)) (finalize-held i st st' done) slot in
          (
            ap (exists_row (is_unresolved_in e)) operations
                ∙ sole-update_rows (is_unresolved_in e) (is_finalized_operation i)
                    (succeed_operation i) st.operations o sole found (ground arith)
                    (λ x. ground arith),
            (s', ap (find_row (λ (x : Slot). bytes_eq x.environment_id e)) slots ∙ there, clear),
          )
      | inr refused ↦
          let summary = declared_summary o.outcome_summary d.outcome in
          let (attempts, slots, operations, held) =
            not_activated_lem d.job_id d.attempt_id o.id e job.deployment_id
              (head_flag (find_head e st)) summary now st st' (ground arith) in
          let (s', there, clear) =
            freed-IsClear e (is_holder e d.attempt_id) (free_flagged now) st.slots s key
              (λ x t. ground arith) (λ x. refl) (λ x. (refl, refl)) held slot in
          (
            ap (exists_row (is_unresolved_in e)) operations
                ∙ sole-update_rows (is_unresolved_in e) (is_resolvable o.id)
                    (fail_operation now summary) st.operations o sole found (ground arith)
                    (λ x. ground arith),
            (s', ap (find_row (λ (x : Slot). bytes_eq x.environment_id e)) slots ∙ there, clear),
          )
    ]

event-IsSettled :
    (e : Bytes) (st : Store) (job_id attempt_id : ℕ)
    → IsSettled e st
    → IsSettled e (append_job_event job_id (some attempt_id) reconciled st)
unfolding append_job_event
event-IsSettled e st job_id attempt_id h = h

cleared-IsSettled :
    (st : Store) (e : Bytes) (job_id : ℕ) (attempt_id : Option ℕ) (now : ℕ) (s : Slot)
    → find_row (is_unresolved_in e) st.operations ≡ none
    → find_slot e st ≡ some s
    → IsSettled e (cleared st e job_id attempt_id now)
unfolding cleared append_job_event
cleared-IsSettled st e job_id attempt_id now s none_there slot =
    let step =
      find_row-update_rows (λ (x : Slot). bytes_eq x.environment_id e)
        (λ x. bytes_eq x.environment_id e) (clear_slot now) st.slots (λ x. refl) in
    (
      none-exists_row (is_unresolved_in e) st.operations none_there,
      (
        clear_slot now s,
        ground (
          arith,
          step,
          slot,
          find_row-test (λ (x : Slot). bytes_eq x.environment_id e) st.slots s slot,
        ),
        (refl, refl),
      ),
    )

-- A block is cleared with its activation only: a declared resolution that succeeds leaves no
-- unresolved activation in its environment, and a slot that waits for no reconciliation. The
-- environment has one unresolved activation and one slot at most before.
pub resolve-IsSettled :
    (d : DeclaredResolution) (now : ℕ) (st st' : Store) (s : Slot)
    → resolve_declared d now st ≡ ok st'
    → IsSole (is_unresolved_in d.environment_id) st.operations
    → IsKeyed st.slots
    → find_slot d.environment_id st ≡ some s
    → IsSettled d.environment_id st'
resolve-IsSettled d now st st' s h sole key slot =
    let (job, a, found, by) = resolve_declared→ d now st st' h in
    elim by [
      | inl (plain, same) ↦
          rw same
            (cleared-IsSettled st d.environment_id d.job_id (some d.attempt_id) now s plain slot)
      | inr (o, unresolved, r) ↦
          let (leased, there, at, (mid, w, same)) = resolve_operation→ d job a o now st st' r in
          rw same (
            event-IsSettled d.environment_id mid d.job_id d.attempt_id
              (writes-IsSettled d job o now st mid s w at unresolved sole slot key))
    ]
