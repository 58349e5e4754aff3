-- ===== src/Base/Order.antt =====
-- The order of byte strings is strict and total, and the insertion sort by it keeps the entries and
-- puts distinct ones in ascending order.
use mathlib.Core.Path.{◌≡◌, refl, ◌∙◌}
use mathlib.Core.Logic.{inl, inr}
use mathlib.Core.Bool.{Bool, true, false, ◌||◌}
use mathlib.Core.List.{List, [], ◌∷◌}
use native.Mathlib.Omega.{arith}
use auto_deploy.Base.Tests.{Bytes, Bool-cases, bytes_eq, bytes_eq_refl}
use auto_deploy.Base.Table.{exists_row}
use auto_deploy.Base.Sorting.{bytes_ltb, insert_by, sort_by}

pub bytes_ltb_total : (s t : Bytes) → bytes_ltb s t ≡ false → bytes_ltb t s ≡ false → s ≡ t
unfolding bytes_ltb
bytes_ltb_total [] [] h k = refl
bytes_ltb_total [] (d ∷ t) h k = absurd (cc h)
bytes_ltb_total (c ∷ s) [] h k = absurd (cc k)
bytes_ltb_total (c ∷ s) (d ∷ t) h k = ground (arith, bytes_ltb_total s t)

pub bytes_ltb_trans :
    (s t u : Bytes) → bytes_ltb s t ≡ true → bytes_ltb t u ≡ true → bytes_ltb s u ≡ true
unfolding bytes_ltb
bytes_ltb_trans s t [] h k = absurd (ground arith)
bytes_ltb_trans s [] (e ∷ u) h k = absurd (ground arith)
bytes_ltb_trans [] (d ∷ t) (e ∷ u) h k = refl
bytes_ltb_trans (c ∷ s) (d ∷ t) (e ∷ u) h k = ground (arith, bytes_ltb_trans s t u)

-- Every entry comes before every later one.
abbrev pub BelowAll : Bytes → List Bytes → Type 0
BelowAll s [] = Unit
BelowAll s (t ∷ ts) = (bytes_ltb s t ≡ true) × BelowAll s ts

abbrev pub IsAscending : List Bytes → Type 0
IsAscending [] = Unit
IsAscending (s ∷ ss) = BelowAll s ss × IsAscending ss

-- Whether an entry occurs.
abbrev pub occurs : Bytes → List Bytes → Bool
occurs s ss = exists_row (bytes_eq s) ss

insert_by-occurs :
    (s t : Bytes) (ss : List Bytes)
    → occurs s (insert_by bytes_ltb t ss) ≡ (bytes_eq s t || occurs s ss)
unfolding insert_by exists_row
insert_by-occurs s t [] = ground arith
insert_by-occurs s t (u ∷ ss) = ground (arith, insert_by-occurs s t ss)

pub sort_by-occurs : (s : Bytes) (ss : List Bytes) → occurs s (sort_by bytes_ltb ss) ≡ occurs s ss
unfolding sort_by exists_row
sort_by-occurs s [] = refl
sort_by-occurs s (t ∷ ss) =
    ground (arith, insert_by-occurs s t (sort_by bytes_ltb ss), sort_by-occurs s ss)

BelowAll-trans :
    (s t : Bytes) (ss : List Bytes) → bytes_ltb s t ≡ true → BelowAll t ss → BelowAll s ss
BelowAll-trans s t [] h k = tt
BelowAll-trans s t (u ∷ ss) h (k, ks) = (bytes_ltb_trans s t u h k, BelowAll-trans s t ss h ks)

BelowAll-insert_by :
    (s t : Bytes) (ss : List Bytes)
    → bytes_ltb s t ≡ true
    → BelowAll s ss
    → BelowAll s (insert_by bytes_ltb t ss)
unfolding insert_by
BelowAll-insert_by s t [] h k = (h, tt)
BelowAll-insert_by s t (u ∷ ss) h (k, ks) = elim (Bool-cases (bytes_ltb u t)) [
  | inl before ↦ rw before (k, BelowAll-insert_by s t ss h ks)
  | inr after ↦ rw after (h, (k, ks))
]

-- An entry that is there is not the head of what it comes after.
insert_by-IsAscending :
    (t : Bytes) (ss : List Bytes)
    → occurs t ss ≡ false
    → IsAscending ss
    → IsAscending (insert_by bytes_ltb t ss)
unfolding insert_by exists_row
insert_by-IsAscending t [] new v = (tt, tt)
insert_by-IsAscending t (u ∷ ss) new (below, v) = elim (Bool-cases (bytes_ltb u t)) [
  | inl before ↦
      rw before
        (BelowAll-insert_by u t ss before below, insert_by-IsAscending t ss (ground arith) v)
  | inr after ↦ elim (Bool-cases (bytes_ltb t u)) [
    | inl first ↦ rw after ((first, BelowAll-trans t u ss first below), (below, v))
    | inr same ↦ absurd (ground (arith, bytes_ltb_total t u same after, bytes_eq_refl t, new))
  ]
]

abbrev pub IsDistinct : List Bytes → Type 0
IsDistinct [] = Unit
IsDistinct (s ∷ ss) = (occurs s ss ≡ false) × IsDistinct ss

pub sort_by-IsAscending : (ss : List Bytes) → IsDistinct ss → IsAscending (sort_by bytes_ltb ss)
unfolding sort_by
sort_by-IsAscending [] v = tt
sort_by-IsAscending (s ∷ ss) (new, v) =
    insert_by-IsAscending s (sort_by bytes_ltb ss) (sort_by-occurs s ss ∙ new)
      (sort_by-IsAscending ss v)
