-- ===== src/Lease/Views.antt =====
-- The lease store seen as the specification of Fencing sees it, and what each kind of statement does
-- to that view.
use auto_deploy.Base.{
  ◌&&◌, ℕ, ◌≡◌, refl, ap, Bool, true, false, List, [], ◌∷◌, Option, none, some, ◌==◌, Bytes,
  bytes_eq, arith, Option-cases, inl, inr,
}
use mathlib.Core.Path.{fun_ext}
use auto_deploy.Base.Table.{find_row, update_rows, find_row-update_rows, find_row-test}
use auto_deploy.Lease.State.{Store, Attempt, Slot}
use auto_deploy.Lease.Held.{is_leased}
use auto_deploy.Lease.Fencing.{Occupancy, Authority, IsFenced, Move, set_occupancy, set_authority}

abbrev pub occupancy_row : Option Slot → Option (ℕ × Option ℕ)
occupancy_row none = none
occupancy_row (some s) = some (s.fence, s.current_attempt_id)

abbrev pub authority_row : Option Attempt → Option (Bytes × ℕ × Bool)
authority_row none = none
authority_row (some a) = some (a.environment_id, a.fence, is_leased a.state)

unfoldable pub occupancy : List Slot → Occupancy
occupancy slots e = occupancy_row (find_row (λ s. bytes_eq s.environment_id e) slots)

unfoldable pub authority : List Attempt → Authority
authority attempts i = authority_row (find_row (λ a. a.id == i) attempts)

-- The invariant of the store.
abbrev pub Fenced : Store → Type 0
Fenced st = IsFenced (occupancy st.slots) (authority st.attempts)

-- A transaction as a move of the specification.
abbrev pub Moves : Store → Store → Type 0
Moves st st' =
    Move (occupancy st.slots) (authority st.attempts) (occupancy st'.slots) (authority st'.attempts)

abbrev pub attempt_key : Attempt → ℕ × Bytes × ℕ × Bool
attempt_key a = (a.id, a.environment_id, a.fence, is_leased a.state)

abbrev pub slot_key : Slot → Bytes × ℕ × Option ℕ
slot_key s = (s.environment_id, s.fence, s.current_attempt_id)

-- A statement that keeps the keys of every row keeps the view.
pub authority-kept :
    (test : Attempt → Bool) (f : Attempt → Attempt) (xs : List Attempt)
    → ((a : Attempt) → attempt_key (f a) ≡ attempt_key a)
    → authority (update_rows test f xs) ≡ authority xs
unfolding authority update_rows find_row
authority-kept test f xs keep = fun_ext (λ i. go i xs)
  where
    go : (i : ℕ) (ys : List Attempt) → authority (update_rows test f ys) i ≡ authority ys i
    go i [] = refl
    go i (a ∷ ys) = ground (arith, keep a, go i ys)

pub occupancy-kept :
    (test : Slot → Bool) (f : Slot → Slot) (xs : List Slot)
    → ((s : Slot) → slot_key (f s) ≡ slot_key s)
    → occupancy (update_rows test f xs) ≡ occupancy xs
unfolding occupancy update_rows find_row
occupancy-kept test f xs keep = fun_ext (λ e. go e xs)
  where
    go : (e : Bytes) (ys : List Slot) → occupancy (update_rows test f ys) e ≡ occupancy ys e
    go e [] = refl
    go e (s ∷ ys) = ground (arith, keep s, go e ys)

-- The statement that closes one attempt.
pub authority-closed :
    (i : ℕ) (f : Attempt → Attempt) (xs : List Attempt) (a : Attempt)
    → ((x : Attempt) → attempt_key (f x) ≡ (x.id, x.environment_id, x.fence, false))
    → find_row (λ x. x.id == i) xs ≡ some a
    → authority (update_rows (λ x. x.id == i) f xs)
      ≡ set_authority i a.environment_id a.fence false (authority xs)
unfolding authority
authority-closed i f xs a closes found = fun_ext λ j.
    let step =
      find_row-update_rows (λ x. x.id == j) (λ x. x.id == i) f xs
        (λ x. ap (λ (k : ℕ × Bytes × ℕ × Bool). k.0 == j) (closes x)) in
    elim (Option-cases (find_row (λ x. x.id == j) xs)) [
      | inl missing ↦ ground (arith, found, step)
      | inr (x, hit) ↦
          ground (arith, step, find_row-test (λ (x : Attempt). x.id == j) xs x hit, closes x, found)
    ]

-- The same for a statement that closes the attempt only where it is leased.
pub authority-ended :
    (i : ℕ) (f : Attempt → Attempt) (xs : List Attempt) (a : Attempt)
    → ((x : Attempt) → attempt_key (f x) ≡ (x.id, x.environment_id, x.fence, false))
    → find_row (λ x. x.id == i) xs ≡ some a
    → is_leased a.state ≡ true
    → authority (update_rows (λ x. x.id == i && is_leased x.state) f xs)
      ≡ set_authority i a.environment_id a.fence false (authority xs)
unfolding authority
authority-ended i f xs a closes found leased = fun_ext λ j.
    let step =
      find_row-update_rows (λ x. x.id == j) (λ x. x.id == i && is_leased x.state) f xs
        (λ x. ap (λ (k : ℕ × Bytes × ℕ × Bool). k.0 == j) (closes x)) in
    elim (Option-cases (find_row (λ x. x.id == j) xs)) [
      | inl missing ↦ ground (arith, found, step)
      | inr (x, hit) ↦ ground (
        arith,
        step,
        find_row-test (λ (x : Attempt). x.id == j) xs x hit,
        closes x,
        found,
        leased,
      )
    ]

-- The statement that closes one slot's occupation: it is the row that the query of the environment
-- returns.
pub occupancy-vacated :
    (e : Bytes) (test : Slot → Bool) (f : Slot → Slot) (xs : List Slot) (s : Slot) (m : ℕ)
    → ((x : Slot) → (f x).environment_id ≡ x.environment_id)
    → ((x : Slot) → test x ≡ true → x.environment_id ≡ e)
    → find_row (λ x. bytes_eq x.environment_id e) xs ≡ some s
    → test s ≡ true
    → slot_key (f s) ≡ (s.environment_id, m, none)
    → occupancy (update_rows test f xs) ≡ set_occupancy e m none (occupancy xs)
unfolding occupancy
occupancy-vacated e test f xs s m keep only found hit closes = fun_ext λ e'.
    let step =
      find_row-update_rows (λ x. bytes_eq x.environment_id e') test f xs
        (λ x. ap (λ (k : Bytes). bytes_eq k e') (keep x)) in
    elim (Option-cases (find_row (λ x. bytes_eq x.environment_id e') xs)) [
      | inl missing ↦ ground (arith, found, step)
      | inr (x, got) ↦ ground (
        arith,
        step,
        find_row-test (λ (x : Slot). bytes_eq x.environment_id e') xs x got,
        only x,
        found,
      )
    ]
