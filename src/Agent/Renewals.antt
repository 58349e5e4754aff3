-- ===== src/Agent/Renewals.antt =====
-- The renewals of the agent against those of the control plane: internal/agent/client/run.go with
-- internal/store/postgres/agent_lease_repository.go, over a network that loses requests and answers.
use mathlib.Core.Path.{subst}
use auto_deploy.Base.{
  ℕ, ◌+◌, ◌<◌, ◌≡◌, ◌≢◌, refl, ap, ◌∙◌, Bool, true, ◌&&◌, ◌||◌, List, [], ◌∷◌, map, some, ltb,
  Bytes, arith, inl, inr, ◌⊎◌, Result, ok, err,
}
use auto_deploy.Base.Encoding.{ℤ, pos}
use auto_deploy.Github.{valid_opaque_id}
use auto_deploy.Lease.State.{Store, Attempt, update_attempt, find_attempt}
use auto_deploy.Lease.State as Rows
use auto_deploy.Lease.Held.{Held, IsHeld, IsHeld-lock_held, has_authority, is_leased, is_current}
use auto_deploy.Lease.Renewal.{
  RenewalResult, renew, renew_held, is_requested, extended, set_renewal,
}
use auto_deploy.Agent.Answers.{ClientError, client_error}
use auto_deploy.Lease.Renewals.{
  renewed_held, renewed-IsHeld, renew_of_held, renew_held_row, renew_held_frame,
}
use auto_deploy.Agent.State.{Directory, WriteRun, Json}
use auto_deploy.Agent.Leases.{
  Lease, Answer, renewed, stale_lease, other_error, Event, tick, Request, loop,
}
use auto_deploy.Agent.Leases as Calls

-- What the renewal loop makes of a result.
abbrev pub seen : ClientError → Answer
seen ClientError.stale_lease = stale_lease
seen _ = other_error

abbrev pub answer_of : Result Rows.Error (RenewalResult × Store) → Answer
answer_of (ok (r, st)) = renewed r.cancel_requested
answer_of (err x) = seen (client_error x)

abbrev after : Store → Result Rows.Error (RenewalResult × Store) → Store
after st (ok (r, st')) = st'
after st (err x) = st

-- Whether the request arrives, and the answer; a request that arrives does so at an instant.
pub data Delivery : Type 0 where
  request_lost : Delivery
  answer_lost delivered : ℕ → Delivery

abbrev next_sequence : ℕ → Answer → ℕ
next_sequence n (renewed c) = n + 1
next_sequence n _ = n

-- The requests of renewals, and the ticks that see their answers.
abbrev pub sent : ℕ → ℤ → List (ℕ × Answer) → List Request
sent attempt_id fence xs = map (λ x. Calls.renew attempt_id fence x.0) xs

abbrev pub ticks : List (ℕ × Answer) → List Event
ticks xs = map (λ x. tick x.1) xs

module _ (server presented : Bytes) (attempt_id fence : ℕ) where
  -- One renewal: what the agent sees of it, and the store.
  unfoldable pub exchange : Store → ℕ → Delivery → Answer × Store
  exchange st sequence request_lost = (other_error, st)
  exchange st sequence (answer_lost now) =
      (other_error, after st (renew st server presented attempt_id fence sequence now))
  exchange st sequence (delivered now) =
      let r = renew st server presented attempt_id fence sequence now in (answer_of r, after st r)

  -- The renewals of an agent that has `n` of them confirmed, each with its sequence and its answer.
  unfoldable pub exchanges : Store → ℕ → List Delivery → List (ℕ × Answer)
  unfolding exchange
  exchanges st n [] = []
  exchanges st n (x ∷ xs) =
      let (a, st') = exchange st (n + 1) x in (n + 1, a) ∷ exchanges st' (next_sequence n a) xs

  exchanges-cons :
      (st st' : Store) (n : ℕ) (x : Delivery) (xs : List Delivery) (a : Answer)
      → exchange st (n + 1) x ≡ (a, st')
      → exchanges st n (x ∷ xs) ≡ (n + 1, a) ∷ exchanges st' (next_sequence n a) xs
  unfolding exchanges
  exchanges-cons st st' n x xs a e = ground arith

  -- The agent holds the lease, and the row has the confirmed sequence or the next one.
  pub record Alive (st : Store) (h : Held) (n : ℕ) : Type 0 where
    pub held : IsHeld st server presented attempt_id h
    pub leased : is_leased h.attempt.state ≡ true
    pub attempt_fence : h.attempt.fence ≡ fence
    pub slot_fence : h.slot.fence ≡ fence
    pub current : is_current h.slot.current_attempt_id attempt_id ≡ true
    pub sequence : (h.attempt.renewal_sequence ≡ n) ⊎ (h.attempt.renewal_sequence ≡ n + 1)

  renew_held_ok :
      (st : Store) (h : Held) (n now : ℕ)
      → (h.attempt.renewal_sequence ≡ n) ⊎ (h.attempt.renewal_sequence ≡ n + 1)
      → (r : RenewalResult) × (st' : Store) × (renew_held st h attempt_id (n + 1) now ≡ ok (r, st'))
  unfolding renew_held
  renew_held_ok st h n now (inr same) = (
    record {
      lease_expires_at = h.attempt.lease_expires_at;
      authority_expires_at = h.attempt.authority_expires_at;
      cancel_requested = is_requested h.job.cancel_requested_at;
    },
    st,
    ground arith,
  )
  renew_held_ok st h n now (inl next) =
      let deadline = extended h.attempt.cancel_deadline_at now in
      (
        record {
          lease_expires_at = deadline;
          authority_expires_at = deadline;
          cancel_requested = is_requested h.job.cancel_requested_at;
        },
        update_attempt attempt_id (set_renewal (n + 1) deadline) st,
        ground arith,
      )

  -- A renewal that arrives before the deadline succeeds, and the row has its sequence.
  renew-Alive :
      (st : Store) (h : Held) (n now : ℕ)
      → Alive st h n
      → (valid_opaque_id server && ltb 0 attempt_id && ltb 0 fence) ≡ true
      → now < h.attempt.authority_expires_at
      → (r : RenewalResult) × (st' : Store) × (renew st server presented attempt_id fence
            (n + 1)
            now
          ≡ ok (r, st'))
        × IsHeld st' server presented attempt_id (renewed_held h (n + 1) r)
  unfolding has_authority
  renew-Alive st h n now alive g early =
      let (r, st', did) = renew_held_ok st h n now alive.sequence in
      let (row, _) =
        renew_held_row st h attempt_id (n + 1) now r st' alive.held.attempt_found did in
      (
        r,
        st',
        renew_of_held st server presented attempt_id fence (n + 1) now h g
              (IsHeld-lock_held st server presented attempt_id h alive.held) (ground arith)
            ∙ did,
        renewed-IsHeld st st' server presented attempt_id (n + 1) r h alive.held
            (renew_held_frame st h attempt_id (n + 1) now r st' did) row,
      )

  renewed-Alive :
      (st st' : Store) (h : Held) (n m : ℕ) (r : RenewalResult)
      → Alive st h n
      → IsHeld st' server presented attempt_id (renewed_held h (n + 1) r)
      → (n + 1 ≡ m) ⊎ (n + 1 ≡ m + 1)
      → Alive st' (renewed_held h (n + 1) r) m
  unfolding renewed_held
  renewed-Alive st st' h n m r alive held at = record {
    held = held;
    leased = alive.leased;
    attempt_fence = alive.attempt_fence;
    slot_fence = alive.slot_fence;
    current = alive.current;
    sequence = at;
  }

  -- Every request that arrives does so before the deadline that the row then has.
  abbrev pub Before : Store → ℕ → Type 0
  Before st now = (a : Attempt) → find_attempt attempt_id st ≡ some a → now < a.authority_expires_at

  abbrev pub Arrives : Store → Delivery → Type 0
  Arrives st request_lost = Unit
  Arrives st (answer_lost now) = Before st now
  Arrives st (delivered now) = Before st now

  abbrev pub InTime : Store → ℕ → List Delivery → Type 0
  InTime st n [] = Unit
  InTime st n (x ∷ xs) =
      Arrives st x × InTime (exchange st (n + 1) x).1 (next_sequence n (exchange st (n + 1) x).0) xs

  -- What one exchange leaves: it is not refused as stale.
  abbrev Goes : Store → ℕ → Delivery → Type 0
  Goes st n x =
      (a : Answer) × (st' : Store) × (h' : Held) × (exchange st (n + 1) x ≡ (a, st'))
      × (a ≢ stale_lease)
      × Alive st' h' (next_sequence n a)

  exchange-Goes :
      (st : Store) (h : Held) (n : ℕ) (x : Delivery)
      → Alive st h n
      → (valid_opaque_id server && ltb 0 attempt_id && ltb 0 fence) ≡ true
      → Arrives st x
      → Goes st n x
  unfolding exchange
  exchange-Goes st h n request_lost alive g t = (other_error, st, h, refl, λ e. cc, alive)
  exchange-Goes st h n (answer_lost now) alive g t =
      let (r, st', did, held) =
        renew-Alive st h n now alive g (t h.attempt alive.held.attempt_found) in
      (
        other_error,
        st',
        renewed_held h (n + 1) r,
        rw did,
        λ e. cc,
        renewed-Alive st st' h n n r alive held (inr refl),
      )
  exchange-Goes st h n (delivered now) alive g t =
      let (r, st', did, held) =
        renew-Alive st h n now alive g (t h.attempt alive.held.attempt_found) in
      (
        renewed r.cancel_requested,
        st',
        renewed_held h (n + 1) r,
        rw did,
        λ e. cc,
        renewed-Alive st st' h n (n + 1) r alive held (inl refl),
      )

  module _ (j : Json) (w v : WriteRun) (d : Directory) (lease : Lease) where
    loop-tick :
        (n : ℕ) (a : Answer) (xs : List (ℕ × Answer))
        → a ≢ stale_lease
        → ((c : Bool)
            → loop j w v d lease (next_sequence n a) c (ticks xs)
              ≡ (sent lease.attempt_id lease.fence xs, d))
        → (c : Bool)
        → loop j w v d lease n c (ticks ((n + 1, a) ∷ xs))
          ≡ (sent lease.attempt_id lease.fence ((n + 1, a) ∷ xs), d)
    unfolding loop
    loop-tick n (renewed b) xs ne ih c = ground (arith, ih (c || b))
    loop-tick n stale_lease xs ne ih c = absurd (ne refl)
    loop-tick n other_error xs ne ih c = ground (arith, ih c)

    loop-nil :
        (st : Store) (n : ℕ) (c : Bool)
        → loop j w v d lease n c (ticks (exchanges st n []))
          ≡ (sent lease.attempt_id lease.fence (exchanges st n []), d)
    unfolding loop exchanges
    loop-nil st n c = refl

    loop-exchanges :
        (st : Store) (h : Held) (n : ℕ) (xs : List Delivery)
        → Alive st h n
        → (valid_opaque_id server && ltb 0 attempt_id && ltb 0 fence) ≡ true
        → InTime st n xs
        → (c : Bool)
        → loop j w v d lease n c (ticks (exchanges st n xs))
          ≡ (sent lease.attempt_id lease.fence (exchanges st n xs), d)
    loop-exchanges st h n [] alive g t c = loop-nil st n c
    loop-exchanges st h n (x ∷ xs) alive g (t, ts) c =
        let (a, st', h', e, ne, alive') = exchange-Goes st h n x alive g t in
        rw (exchanges-cons st st' n x xs a e) (
          loop-tick n a (exchanges st' (next_sequence n a) xs) ne
            (loop-exchanges st' h' (next_sequence n a) xs alive' g
              (subst (λ p. InTime p.1 (next_sequence n p.0) xs) e ts))
            c)

-- While nothing else touches the attempt, the agent's numbering of its renewals and that of the
-- control plane agree: whatever requests and answers are lost, where every request that arrives does
-- so before the deadline of the lease, none is refused as stale. The loop sends a renewal for every
-- tick, and the lease is never given up.
pub loop_never_stale :
    (j : Json) (w v : WriteRun) (d : Directory) (lease : Lease) (server presented : Bytes)
    (attempt_id fence : ℕ) (st : Store) (h : Held) (n : ℕ) (xs : List Delivery) (c : Bool)
    → lease.attempt_id ≡ attempt_id
    → lease.fence ≡ pos fence
    → Alive server presented attempt_id fence st h n
    → (valid_opaque_id server && ltb 0 attempt_id && ltb 0 fence) ≡ true
    → InTime server presented attempt_id fence st n xs
    → loop j w v d lease n c (ticks (exchanges server presented attempt_id fence st n xs))
      ≡ (sent attempt_id (pos fence) (exchanges server presented attempt_id fence st n xs), d)
loop_never_stale j w v d lease server presented attempt_id fence st h n xs c same_id same alive g
      t =
    loop-exchanges server presented attempt_id fence j w v d lease st h n xs alive g t c
    ∙ ap (λ i. (sent i lease.fence (exchanges server presented attempt_id fence st n xs), d))
        same_id
    ∙ ap (λ e. (sent attempt_id e (exchanges server presented attempt_id fence st n xs), d)) same
