-- ===== src/Agent/Acting.antt =====
-- The fences that an agent acts on, over any sequence of what it does, with crashes and restarts.
use mathlib.Core.Path.{subst}
use auto_deploy.Base.{
  ◌≡◌, refl, sym, ap, ◌∙◌, Bool, true, false, List, arith, inl, inr, Bool-cases, Result-cases, ok,
}
use auto_deploy.Base.Encoding.{ℤ}
use auto_deploy.Agent.State.{Fence, leb_int, Directory, WriteRun, Json, IsLawful, load, save}
use auto_deploy.Agent.Leases.{Lease, new_fence, rejects, accept}
use auto_deploy.Agent.Crashes.{load-save_done}
use auto_deploy.Agent.Runs.{
  Run, runs, accept_refused, accept_loaded, Stored, loaded-Stored, runs-Stored,
}

leb_int_trans : (a b c : ℤ) → leb_int a b ≡ true → leb_int b c ≡ true → leb_int a c ≡ true
leb_int_trans a b c h k = ground arith

leb_int_total : (a b : ℤ) → leb_int a b ≡ false → leb_int b a ≡ true
leb_int_total a b h = ground arith

leb_int_refl : (a : ℤ) → leb_int a a ≡ true
leb_int_refl a = ground arith

-- The fence is at least `n`.
abbrev AtLeast : ℤ → Fence → Type 0
AtLeast n f = leb_int n f.highest_accepted_fence ≡ true

-- A lease that is accepted was not rejected, and its fence is loaded.
accept→stored :
    (j : Json) (w v : WriteRun) (d : Directory) (lease : Lease)
    → IsLawful j
    → (accept j w v d lease).1 ≡ true
    → (stored : Fence × Bool) × (load j d lease.environment_id ≡ ok stored)
      × (rejects stored lease ≡ false)
      × (load j (accept j w v d lease).0 lease.environment_id ≡ ok (new_fence lease, true))
accept→stored j w v d lease lawful h = elim (Result-cases (load j d lease.environment_id)) [
  | inr (x, l) ↦ absurd (cc (ap (λ r. r.1) (accept_refused j w v d lease x l)))
  | inl (stored, l) ↦ elim (Bool-cases (rejects stored lease)) [
    | inl no_lease ↦ absurd (cc (h, rw no_lease at (accept_loaded j w v d lease stored l)))
    | inr goes ↦
        let same : accept j w v d lease ≡ save j w v d (new_fence lease) =
          rw goes at (accept_loaded j w v d lease stored l) in
        (
          stored,
          l,
          goes,
          rw same
              (load-save_done j w v d (new_fence lease) stored lawful l
                (ap (λ r. r.1) (sym same) ∙ h)).0,
        )
  ]
]

accepted-AtLeast :
    (n : ℤ) (g : Fence) (lease : Lease)
    → AtLeast n g
    → rejects (g, true) lease ≡ false
    → AtLeast n (new_fence lease)
accepted-AtLeast n g lease h k =
    leb_int_trans n g.highest_accepted_fence lease.fence h
      (leb_int_total lease.fence g.highest_accepted_fence (ground arith))

later_increases :
    (j : Json) (w v : WriteRun) (d : Directory) (n : ℤ) (lease : Lease)
    → IsLawful j
    → Stored (AtLeast n) j lease.environment_id d
    → (accept j w v d lease).1 ≡ true
    → leb_int lease.fence n ≡ false
later_increases j w v d n lease lawful s k =
    let (stored, l, goes, now) = accept→stored j w v d lease lawful k in
    let (above, existed) = loaded-Stored j lawful lease.environment_id (AtLeast n) d stored l s in
    elim (Bool-cases (leb_int lease.fence n)) [
      | inr lower ↦ lower
      | inl le ↦ absurd (
          ground (
            arith,
            leb_int_trans lease.fence n stored.0.highest_accepted_fence le above,
            goes,
            existed,
          ))
    ]

-- An agent never acts twice on a fence, nor on a lower one, across crashes, failed writes and
-- restarts: between a lease that it accepted and a later one of the same environment that it accepts,
-- whatever runs are made of any leases, the fence has grown.
pub accept-increases :
    (j : Json) (w v w' v' : WriteRun) (d : Directory) (first later : Lease) (rs : List Run)
    → IsLawful j
    → later.environment_id ≡ first.environment_id
    → (accept j w v d first).1 ≡ true
    → (accept j w' v' (runs j rs (accept j w v d first).0) later).1 ≡ true
    → leb_int later.fence first.fence ≡ false
accept-increases j w v w' v' d first later rs lawful same h k =
    let d' = (accept j w v d first).0 in
    let (stored, l, goes, now) = accept→stored j w v d first lawful h in
    let after =
      runs-Stored j lawful first.environment_id (AtLeast first.fence) (accepted-AtLeast first.fence)
        (λ g p. p) rs d' (inr (new_fence first, now, leb_int_refl first.fence)) in
    later_increases j w' v' (runs j rs d') first.fence later lawful
      (subst (λ e. Stored (AtLeast first.fence) j e (runs j rs d')) (sym same) after) k

-- Once a lost lease was recorded for an environment, no run clears the record: the agent never acts
-- on a lease of it again, whatever was reconciled.
pub marked-refused :
    (j : Json) (w v : WriteRun) (d : Directory) (g : Fence) (lease : Lease) (rs : List Run)
    → IsLawful j
    → load j d lease.environment_id ≡ ok (g, true)
    → g.reconciliation_required ≡ true
    → (accept j w v (runs j rs d) lease).1 ≡ false
marked-refused j w v d g lease rs lawful h m =
    let after =
      runs-Stored j lawful lease.environment_id (λ f. f.reconciliation_required ≡ true)
        (λ f l p k. absurd (ground arith)) (λ f p. refl) rs d (inr (g, h, m)) in
    elim (Bool-cases (accept j w v (runs j rs d) lease).1) [
      | inr refused ↦ refused
      | inl acts ↦
          let (stored, l, goes, now) = accept→stored j w v (runs j rs d) lease lawful acts in
          let (flag, existed) =
            loaded-Stored j lawful lease.environment_id (λ f. f.reconciliation_required ≡ true)
              (runs j rs d) stored l after in
          absurd (ground arith)
    ]
