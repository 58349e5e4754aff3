-- ===== src/Agent/Runs.antt =====
-- What any sequence of runs, with crashes and restarts, leaves known of an environment's fence.
use mathlib.Core.Path.{subst}
use auto_deploy.Base.{
  ℕ, ◌+◌, ◌≡◌, sym, ap, ◌∙◌, Bool, true, false, ◌||◌, List, [], ◌∷◌, if◌then◌else◌, Bytes, arith,
  inl, inr, ◌⊎◌, Bool-cases, Result-cases, ok, err,
}
use auto_deploy.Agent.State.{Error, corrupt, Fence, Directory, WriteRun, Json, IsLawful, load, save}
use auto_deploy.Agent.Leases.{
  Lease, Event, Answer, new_fence, rejects, accept, mark_reconciliation_required, loop, run_lease,
}
use auto_deploy.Agent.Crashes.{load-save}

-- What an agent does to its directory: it runs a lease, for which it may be accepted or not, and
-- which may end anywhere. A process that crashes and starts again goes on with the next run.
pub record Run : Type 0 where
  pub file_run : WriteRun
  pub index_run : WriteRun
  pub mark_file_run : WriteRun
  pub mark_index_run : WriteRun
  pub lease : Lease
  pub events : List Event

abbrev pub run_one : Json → Run → Directory → Directory
run_one j r d =
    (run_lease j r.file_run r.index_run r.mark_file_run r.mark_index_run d r.lease r.events).1

unfoldable pub runs : Json → List Run → Directory → Directory
runs j [] d = d
runs j (r ∷ rs) d = runs j rs (run_one j r d)

pub accept_refused :
    (j : Json) (w v : WriteRun) (d : Directory) (lease : Lease) (x : Error)
    → load j d lease.environment_id ≡ err x
    → accept j w v d lease ≡ (d, false)
unfolding accept
accept_refused j w v d lease x h = ground arith

pub accept_loaded :
    (j : Json) (w v : WriteRun) (d : Directory) (lease : Lease) (stored : Fence × Bool)
    → load j d lease.environment_id ≡ ok stored
    → accept j w v d lease
      ≡ (if rejects stored lease then (d, false) else save j w v d (new_fence lease))
unfolding accept
accept_loaded j w v d lease stored h = ground arith

abbrev marked : Fence → Bytes → Fence
marked g i = record g { environment_id = i; reconciliation_required = true }

mark_refused :
    (j : Json) (w v : WriteRun) (d : Directory) (i : Bytes) (x : Error)
    → load j d i ≡ err x
    → mark_reconciliation_required j w v d i ≡ d
unfolding mark_reconciliation_required
mark_refused j w v d i x h = ground arith

mark_loaded :
    (j : Json) (w v : WriteRun) (d : Directory) (i : Bytes) (g : Fence) (existed : Bool)
    → load j d i ≡ ok (g, existed)
    → mark_reconciliation_required j w v d i ≡ (save j w v d (marked g i)).0
unfolding mark_reconciliation_required
mark_loaded j w v d i g existed h = ground arith

run_one_lem :
    (j : Json) (r : Run) (d : Directory)
    → run_one j r d ≡ (
        let accepted = accept j r.file_run r.index_run d r.lease in
        if accepted.1
        then (loop j r.mark_file_run r.mark_index_run accepted.0 r.lease 0 false r.events).1
        else accepted.0)
unfolding run_lease
run_one_lem j r d = ground arith

-- The environment is refused, or has a stored fence that fits.
abbrev pub Stored : (Fence → Type 0) → Json → Bytes → Directory → Type 0
Stored P j e d = (load j d e ≡ err corrupt) ⊎ ((f : Fence) × (load j d e ≡ ok (f, true)) × P f)

module _ (j : Json) (lawful : IsLawful j) (e : Bytes) where
  -- A Save that keeps what is known of the environment, where it is a Save of that environment.
  save-Stored :
      (P : Fence → Type 0) (w v : WriteRun) (d : Directory) (f : Fence) (r : Fence × Bool)
      → load j d f.environment_id ≡ ok r
      → (e ≡ f.environment_id → P f)
      → Stored P j e d
      → Stored P j e (save j w v d f).0
  save-Stored P w v d f r h keeps s = elim (load-save j w v d f r e lawful h) [
    | inr (same, now) ↦ inr (f, now, keeps same)
    | inl (inr lost) ↦ inl lost
    | inl (inl as_before) ↦ elim s [
      | inl lost ↦ inl (as_before ∙ lost)
      | inr (g, l, p) ↦ inr (g, as_before ∙ l, p)
    ]
  ]

  -- Where the environment is loaded, it is the stored fence.
  pub loaded-Stored :
      (P : Fence → Type 0) (d : Directory) (r : Fence × Bool)
      → load j d e ≡ ok r
      → Stored P j e d
      → P r.0 × (r.1 ≡ true)
  loaded-Stored P d r h (inl lost) = absurd (cc (sym h ∙ lost))
  loaded-Stored P d (g, existed) h (inr (f, l, p)) =
      let same : f ≡ g = cc (sym l ∙ h) in (subst P same p, cc (sym l ∙ h))

  -- What the rules of accepting and of marking keep holds of the environment after every run.
  module _ (P : Fence → Type 0)
      (on_accept : (g : Fence) (lease : Lease)
        → P g
        → rejects (g, true) lease ≡ false
        → P (new_fence lease))
      (on_mark : (g : Fence)
        → P g
        → P (record g { environment_id = e; reconciliation_required = true })) where
    accept-Stored :
        (w v : WriteRun) (d : Directory) (lease : Lease)
        → Stored P j e d
        → Stored P j e (accept j w v d lease).0
    accept-Stored w v d lease s = elim (Result-cases (load j d lease.environment_id)) [
      | inr (x, h) ↦ rw (accept_refused j w v d lease x h) s
      | inl ((g, existed), h) ↦ elim (Bool-cases (rejects (g, existed) lease)) [
        | inl no_lease ↦ rw (accept_loaded j w v d lease (g, existed) h) (rw no_lease s)
        | inr goes ↦ rw (accept_loaded j w v d lease (g, existed) h) (
            rw goes (
              save-Stored P w v d (new_fence lease) (g, existed) h
                (λ same.
                  let (p, here) = loaded-Stored P d (g, existed) (ap (load j d) same ∙ h) s in
                  on_accept g lease p (ground arith))
                s))
      ]
    ]

    mark-Stored :
        (w v : WriteRun) (d : Directory) (i : Bytes)
        → Stored P j e d
        → Stored P j e (mark_reconciliation_required j w v d i)
    mark-Stored w v d i s = elim (Result-cases (load j d i)) [
      | inr (x, h) ↦ rw (mark_refused j w v d i x h) s
      | inl ((g, existed), h) ↦ rw (mark_loaded j w v d i g existed h) (
          save-Stored P w v d (marked g i) (g, existed) h
            (λ same.
              subst (λ k. P (marked g k)) same
                (on_mark g (loaded-Stored P d (g, existed) (ap (load j d) same ∙ h) s).0))
            s)
    ]

    loop-Stored :
        (w v : WriteRun) (d : Directory) (lease : Lease) (sequence : ℕ) (cancelled : Bool)
        (events : List Event)
        → Stored P j e d
        → Stored P j e (loop j w v d lease sequence cancelled events).1
    unfolding loop
    loop-Stored w v d lease sequence cancelled [] s = s
    loop-Stored w v d lease sequence cancelled (Event.result o ∷ es) s = s
    loop-Stored w v d lease sequence cancelled (Event.done ∷ es) s = s
    loop-Stored w v d lease sequence cancelled (Event.tick Answer.stale_lease ∷ es) s =
        mark-Stored w v d lease.environment_id s
    loop-Stored w v d lease sequence cancelled (Event.tick Answer.other_error ∷ es) s =
        loop-Stored w v d lease sequence cancelled es s
    loop-Stored w v d lease sequence cancelled (Event.tick (Answer.renewed c) ∷ es) s =
        loop-Stored w v d lease (sequence + 1) (cancelled || c) es s

    run_one-Stored : (r : Run) (d : Directory) → Stored P j e d → Stored P j e (run_one j r d)
    run_one-Stored r d s =
        let s' = accept-Stored r.file_run r.index_run d r.lease s in
        elim (Bool-cases (accept j r.file_run r.index_run d r.lease).1) [
          | inl acts ↦ rw (run_one_lem j r d) (
              rw acts (
                loop-Stored r.mark_file_run r.mark_index_run
                  (accept j r.file_run r.index_run d r.lease).0 r.lease 0 false r.events s'))
          | inr none_done ↦ rw (run_one_lem j r d) (rw none_done s')
        ]

    pub runs-Stored : (rs : List Run) (d : Directory) → Stored P j e d → Stored P j e (runs j rs d)
    unfolding runs
    runs-Stored [] d s = s
    runs-Stored (r ∷ rs) d s = runs-Stored rs (run_one j r d) (run_one-Stored r d s)
