-- ===== src/Base/Table.antt =====
-- A database table as the list of its rows, and the statements that the repositories issue on it.
use mathlib.Core.Path.{◌≡◌, refl}
use mathlib.Core.Bool.{Bool, true, false}
use mathlib.Core.Option.{Option, none, some}
use mathlib.Core.List.{List, [], ◌∷◌}
use native.Mathlib.Omega.{arith}
use auto_deploy.Base.Tests.{if◌then◌else◌}

module _ {ℓ} {A : Type ℓ} where
  -- `SELECT … WHERE test`, where at most one row passes it.
  unfoldable pub find_row : (A → Bool) → List A → Option A
  find_row test [] = none
  find_row test (x ∷ xs) = if test x then some x else find_row test xs

  -- `UPDATE … WHERE test`.
  unfoldable pub update_rows : (A → Bool) → (A → A) → List A → List A
  update_rows test f [] = []
  update_rows test f (x ∷ xs) = (if test x then f x else x) ∷ update_rows test f xs

  -- `EXISTS (SELECT 1 … WHERE test)`.
  unfoldable pub exists_row : (A → Bool) → List A → Bool
  exists_row test [] = false
  exists_row test (x ∷ xs) = if test x then true else exists_row test xs

  -- A row that a query returns passes its test.
  pub find_row-test :
      (test : A → Bool) (xs : List A) (x : A) → find_row test xs ≡ some x → test x ≡ true
  unfolding find_row
  find_row-test test [] x h = cc
  find_row-test test (y ∷ xs) x h = ground (arith, find_row-test test xs x)

  -- A query of rows that an update does not move in or out of it.
  pub find_row-update_rows :
      (query test : A → Bool) (f : A → A) (xs : List A)
      → ((x : A) → query (f x) ≡ query x)
      → find_row query (update_rows test f xs)
        ≡ elim (find_row query xs) [ none ↦ none | some x ↦ some (if test x then f x else x) ]
  unfolding find_row update_rows
  find_row-update_rows query test f [] keeps = refl
  find_row-update_rows query test f (x ∷ xs) keeps =
      ground (arith, keeps x, find_row-update_rows query test f xs keeps)

  pub exists_row-update_rows :
      (query test : A → Bool) (f : A → A) (xs : List A)
      → ((x : A) → query (f x) ≡ query x)
      → exists_row query (update_rows test f xs) ≡ exists_row query xs
  unfolding exists_row update_rows
  exists_row-update_rows query test f [] keeps = refl
  exists_row-update_rows query test f (x ∷ xs) keeps =
      ground (arith, keeps x, exists_row-update_rows query test f xs keeps)
