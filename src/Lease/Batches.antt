-- ===== src/Lease/Batches.antt =====
-- ExpireBatch and revokeInFlightLeases of agent_lease_repository.go as runs of their own transactions
-- over chosen rows.
use mathlib.Core.Path.{subst}
use auto_deploy.Base.{
  ℕ, zero, suc, ◌+◌, ◌≤◌, ◌≡◌, refl, sym, ◌↔◌, inl, inr, true, false, ◌&&◌, List, [], ◌∷◌, map,
  Option, none, some, Bytes, arith, ok, err, Result-cases,
}
use auto_deploy.Base.Sorting.{filter_rows, sort_by}
use auto_deploy.Queue
use auto_deploy.Queue.{AttemptState}
use auto_deploy.Lease.State.{Store, Attempt, Error}
use auto_deploy.Lease.Closing.{expire_one}
use auto_deploy.Lease.Claiming.{least, take}
use auto_deploy.Lease.Sweeping.{
  revoke_one, expire_all, expire_batch, overdue, expire_batch_max_limit, is_overdue, expires_before,
  Swept,
}
use Prim.Native.Nat.{min}
use auto_deploy.Lease.Activation.{holds_unresolved, is_switch_authorized}
use auto_deploy.Base.{not}
use auto_deploy.Base.Table.{exists_row}
use auto_deploy.Lease.Chosen.{In, IsChosen, query-IsChosen, least-min, is_leased→leased}

-- Revocations of single leases, in turn.
pub data RevokeRun (draw block_clock : ℕ → ℕ) (now : ℕ)
    : List Attempt → Store → Store → Type 0 where
  done : {st : Store} → RevokeRun draw block_clock now [] st st
  revokes :
      {st mid st' : Store} (c : Attempt) {cs : List Attempt}
      → revoke_one draw st c now (block_clock c.id) ≡ ok mid
      → RevokeRun draw block_clock now cs mid st'
      → RevokeRun draw block_clock now (c ∷ cs) st st'

abbrev pub IsRevocation : (ℕ → ℕ) → (ℕ → ℕ) → Bytes → ℕ → Store → Store → Type 0
IsRevocation draw block_clock server now st st' =
    (cs : List Attempt) × RevokeRun draw block_clock now cs st st'
    × ((c : Attempt)
        → In c cs ↔ (In c st.attempts × (c.server_id ≡ server) × (c.state ≡ Queue.leased)))

-- The transactions of single attempts, in turn: how many were closed, and the error that stopped them.
pub data ExpireRun (draw : ℕ → ℕ) (clock : ℕ → ℕ × ℕ)
    : List ℕ → Store → ℕ → Option Error → Store → Type 0 where
  done : {st : Store} → ExpireRun draw clock [] st 0 none st
  stops :
      {st : Store} (i : ℕ) {is : List ℕ} (e : Error)
      → expire_one draw st i (clock i).0 (clock i).1 ≡ err e
      → ExpireRun draw clock (i ∷ is) st 0 (some e) st
  closes :
      {st mid st' : Store} (i : ℕ) {is : List ℕ} {n : ℕ} {e : Option Error}
      → expire_one draw st i (clock i).0 (clock i).1 ≡ ok (true, mid)
      → ExpireRun draw clock is mid n e st'
      → ExpireRun draw clock (i ∷ is) st (suc n) e st'
  passes :
      {st mid st' : Store} (i : ℕ) {is : List ℕ} {n : ℕ} {e : Option Error}
      → expire_one draw st i (clock i).0 (clock i).1 ≡ ok (false, mid)
      → ExpireRun draw clock is mid n e st'
      → ExpireRun draw clock (i ∷ is) st n e st'

-- What `expire_all` answers, with the count of its own transactions alone.
ExpiresTo : (ℕ → ℕ) → (ℕ → ℕ × ℕ) → List ℕ → ℕ → Store → Swept → Type 0
ExpiresTo draw clock is processed st r =
    (n : ℕ) × ExpireRun draw clock is st n r.error r.store × (r.processed ≡ processed + n)

expire_all-ExpiresTo :
    (draw : ℕ → ℕ) (clock : ℕ → ℕ × ℕ) (is : List ℕ) (processed : ℕ) (st : Store)
    → ExpiresTo draw clock is processed st (expire_all draw clock is processed st)
unfolding expire_all ExpiresTo
expire_all-ExpiresTo draw clock [] processed st = (0, done, omega arith)
expire_all-ExpiresTo draw clock (i ∷ is) processed st =
    elim (Result-cases (expire_one draw st i (clock i).0 (clock i).1)) [
      | inr (e, h) ↦ rw (expire_all, h) (0, stops i e h, omega arith)
      | inl ((true, mid), h) ↦
          let (n, run, count) = expire_all-ExpiresTo draw clock is (processed + 1) mid in
          rw (expire_all, h) (suc n, closes i h run, omega (arith, count))
      | inl ((false, mid), h) ↦
          let (n, run, count) = expire_all-ExpiresTo draw clock is processed mid in
          rw (expire_all, h) (n, passes i h run, count)
    ]

-- An attempt is leased past its deadline, and holds no activation that is blocked already.
abbrev pub IsOverdue : Store → ℕ → Attempt → Type 0
IsOverdue st now a =
    (a.state ≡ Queue.leased)
    × (a.authority_expires_at ≤ now)
    × (exists_row
          (λ o. holds_unresolved a.id a.environment_id o && not (is_switch_authorized o.state))
          st.operations
        ≡ false)

is_overdue_iff :
    (st : Store) (now : ℕ) (a : Attempt) → (is_overdue st now a ≡ true) ↔ IsOverdue st now a
is_overdue_iff st now a = (
  λ h. (is_leased→leased a.state (ground arith), ground arith, ground arith),
  λ (leased, due, clear). ground arith,
)

abbrev pub ids : List Attempt → List ℕ
ids = map (λ (a : Attempt). a.id)

abbrev pub IsSweep : (ℕ → ℕ) → (ℕ → ℕ × ℕ) → ℕ → ℕ → Store → Swept → Type 0
IsSweep draw clock now limit st r =
    (xs : List Attempt) × ExpireRun draw clock (ids xs) st r.processed r.error r.store
    × IsChosen (IsOverdue st now) (min limit 100) st.attempts xs

-- A sweep runs the transactions of single attempts over at most the limit of attempts, and at most
-- 100, that are leased past their deadline when it begins and hold no activation that is blocked
-- already: over all of those, or as many as the limit. It stops at the first error, keeps what was done
-- before, and answers how many attempts were closed.
pub expire_batch_lem :
    (draw : ℕ → ℕ) (clock : ℕ → ℕ × ℕ) (now limit : ℕ) (st : Store)
    → IsSweep draw clock now limit st (expire_batch draw clock now limit st)
unfolding expire_batch ExpiresTo overdue
expire_batch_lem draw clock now zero st = ([], done, (omega arith, λ a i. absurd i, inl refl))
expire_batch_lem draw clock now (suc n) st =
    let bound = least (suc n) expire_batch_max_limit in
    let xs = take bound (sort_by expires_before (filter_rows (is_overdue st now) st.attempts)) in
    let (count, run, same) = expire_all-ExpiresTo draw clock (ids xs) 0 st in
    let r = expire_all draw clock (ids xs) 0 st in
    let counted : r.processed ≡ count = omega (arith, same) in
    (
      xs,
      subst (λ k. ExpireRun draw clock (ids xs) st k r.error r.store) (sym counted) run,
      subst (λ b. IsChosen (IsOverdue st now) b st.attempts xs) (least-min (suc n) 100)
          (query-IsChosen (IsOverdue st now) (is_overdue st now) expires_before bound st.attempts
            (is_overdue_iff st now)),
    )
