-- ===== src/Base/Sorting.antt =====
-- `ORDER BY` and `sort.Slice`: an insertion sort by a strict order, and the selection of rows.
use mathlib.Core.Path.{◌≡◌, refl, ap, ◌∙◌}
use mathlib.Core.Bool.{Bool, true, false, ◌&&◌, ◌||◌}
use mathlib.Core.List.{List, [], ◌∷◌}
use auto_deploy.Base.Tests.{ltb, ◌==◌, if◌then◌else◌, Bytes}

-- `a < b` on strings.
unfoldable pub bytes_ltb : Bytes → Bytes → Bool
bytes_ltb s [] = false
bytes_ltb [] (d ∷ t) = true
bytes_ltb (c ∷ s) (d ∷ t) = ltb c d || (c == d && bytes_ltb s t)

module _ {ℓ} {A : Type ℓ} where
  unfoldable pub filter_rows : (A → Bool) → List A → List A
  filter_rows test [] = []
  filter_rows test (x ∷ xs) = if test x then x ∷ filter_rows test xs else filter_rows test xs

  unfoldable pub insert_by : (A → A → Bool) → A → List A → List A
  insert_by less x [] = x ∷ []
  insert_by less x (y ∷ ys) = if less y x then y ∷ insert_by less x ys else x ∷ y ∷ ys

  unfoldable pub sort_by : (A → A → Bool) → List A → List A
  unfolding insert_by
  sort_by less [] = []
  sort_by less (x ∷ xs) = insert_by less x (sort_by less xs)

  -- No entry is less than the one before it.
  abbrev pub IsOrdered : (A → A → Bool) → List A → Type 0
  IsOrdered less [] = Unit
  IsOrdered less (x ∷ []) = Unit
  IsOrdered less (x ∷ y ∷ ys) = (less y x ≡ false) × IsOrdered less (y ∷ ys)

  -- A list in order is left as it is.
  pub sort_by-IsOrdered :
      (less : A → A → Bool) (xs : List A) → IsOrdered less xs → sort_by less xs ≡ xs
  unfolding sort_by insert_by
  sort_by-IsOrdered less [] h = refl
  sort_by-IsOrdered less (x ∷ []) h = refl
  sort_by-IsOrdered less (x ∷ y ∷ ys) (le, h) =
      ap (λ r. insert_by less x r) (sort_by-IsOrdered less (y ∷ ys) h)
      ∙ ap (λ b. if b then y ∷ insert_by less x ys else x ∷ y ∷ ys) le
