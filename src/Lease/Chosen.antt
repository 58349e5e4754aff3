-- ===== src/Lease/Chosen.antt =====
-- The rows that a query with an order and a limit chooses.
use mathlib.Core.Path.{subst}
use auto_deploy.Base.{
  ℕ, zero, suc, ◌≤◌, ◌≡◌, refl, sym, ap, ◌∙◌, ◌↔◌, ◌⊎◌, inl, inr, Bool, true, List, [], ◌∷◌, length,
  arith, Bool-cases,
}
use auto_deploy.Base.Sorting.{filter_rows, insert_by, sort_by}
use auto_deploy.Queue
use auto_deploy.Queue.{AttemptState}
use auto_deploy.Lease.Held.{is_leased}
use auto_deploy.Lease.Claiming.{least, take}
use Prim.Native.Nat.{min}

-- A row of the table.
abbrev pub In : {A : Type 0} → A → List A → Type 0
In x [] = ⊥
In x (y ∷ ys) = (x ≡ y) ⊎ In x ys

pub In-filter_rows :
    {A : Type 0} (test : A → Bool) (x : A) (xs : List A)
    → In x (filter_rows test xs) ↔ (In x xs × (test x ≡ true))
unfolding filter_rows
In-filter_rows test x [] = (λ h. absurd h, λ h. absurd h.0)
In-filter_rows test x (y ∷ ys) =
    let rest = In-filter_rows test x ys in
    elim (Bool-cases (test y)) [
      | inl keep ↦ rw keep (
        λ h. elim h [
          | inl e ↦ (inl e, ap test e ∙ keep)
          | inr r ↦ (inr ((rest.0 r).0), (rest.0 r).1)
        ],
        λ h. elim (h.0) [ inl e ↦ inl e | inr r ↦ inr (rest.1 (r, h.1)) ],
      )
      | inr drop ↦ rw drop (
        λ h. (inr ((rest.0 h).0), (rest.0 h).1),
        λ h. elim (h.0) [ inl e ↦ absurd (cc (ap test e, drop, h.1)) | inr r ↦ rest.1 (r, h.1) ],
      )
    ]

In-insert_by :
    {A : Type 0} (less : A → A → Bool) (x y : A) (ys : List A)
    → In x (insert_by less y ys) ↔ In x (y ∷ ys)
unfolding insert_by
In-insert_by less x y [] = (λ h. h, λ h. h)
In-insert_by less x y (z ∷ zs) = elim (Bool-cases (less z y)) [
  | inl before ↦ rw before (
    λ h. elim h [
      | inl e ↦ inr (inl e)
      | inr r ↦ elim ((In-insert_by less x y zs).0 r) [ inl e ↦ inl e | inr q ↦ inr (inr q) ]
    ],
    λ h. elim h [
      | inl e ↦ inr ((In-insert_by less x y zs).1 (inl e))
      | inr r ↦ elim r [ inl e ↦ inl e | inr q ↦ inr ((In-insert_by less x y zs).1 (inr q)) ]
    ],
  )
  | inr after ↦ rw after (λ h. h, λ h. h)
]

pub In-sort_by :
    {A : Type 0} (less : A → A → Bool) (x : A) (xs : List A) → In x (sort_by less xs) ↔ In x xs
unfolding sort_by
In-sort_by less x [] = (λ h. h, λ h. h)
In-sort_by less x (y ∷ ys) = (
  λ h. elim ((In-insert_by less x y (sort_by less ys)).0 h) [
    | inl e ↦ inl e
    | inr r ↦ inr ((In-sort_by less x ys).0 r)
  ],
  λ h.
      (In-insert_by less x y (sort_by less ys)).1
        (elim h [ inl e ↦ inl e | inr r ↦ inr ((In-sort_by less x ys).1 r) ]),
)

pub In-take : {A : Type 0} (n : ℕ) (x : A) (xs : List A) → In x (take n xs) → In x xs
unfolding take
In-take zero x xs h = absurd h
In-take (suc n) x [] h = h
In-take (suc n) x (y ∷ ys) h = elim h [ inl e ↦ inl e | inr r ↦ inr (In-take n x ys r) ]

pub length-take : {A : Type 0} (n : ℕ) (xs : List A) → length (take n xs) ≤ n
unfolding take
length-take zero xs = omega arith
length-take (suc n) [] = omega arith
length-take (suc n) (x ∷ xs) = omega (arith, length-take n xs)

pub take_full : {A : Type 0} (n : ℕ) (xs : List A) → (length (take n xs) ≡ n) ⊎ (take n xs ≡ xs)
unfolding take
take_full zero xs = inl refl
take_full (suc n) [] = inr refl
take_full (suc n) (x ∷ xs) = elim (take_full n xs) [
  | inl full ↦ inl (omega (arith, full))
  | inr all ↦ inr (ap (λ r. x ∷ r) all)
]

-- At most `n` rows of `xs`, of which `P` holds: all of those, unless there are `n`.
abbrev pub IsChosen : {A : Type 0} → (A → Type 0) → ℕ → List A → List A → Type 0
IsChosen P n xs chosen =
    (length chosen ≤ n)
    × ((x : _) → In x chosen → In x xs × P x)
    × ((length chosen ≡ n) ⊎ ((x : _) → In x xs → P x → In x chosen))

pub query-IsChosen :
    {A : Type 0} (P : A → Type 0) (test : A → Bool) (less : A → A → Bool) (n : ℕ) (xs : List A)
    → ((x : A) → (test x ≡ true) ↔ P x)
    → IsChosen P n xs (take n (sort_by less (filter_rows test xs)))
query-IsChosen P test less n xs means =
    let rows = filter_rows test xs in
    let sorted = sort_by less rows in
    (
      length-take n sorted,
      λ x i.
          let (row, t) =
            (In-filter_rows test x xs).0 ((In-sort_by less x rows).0 (In-take n x sorted i)) in
          (row, (means x).0 t),
      elim (take_full n sorted) [
        | inl full ↦ inl full
        | inr all ↦ inr (λ x row holds.
            subst (In x) (sym all)
              ((In-sort_by less x rows).1 ((In-filter_rows test x xs).1 (row, (means x).1 holds))))
      ],
    )

pub least-min : (a b : ℕ) → least a b ≡ min a b
least-min a b = grind arith

pub is_leased→leased : (state : AttemptState) → is_leased state ≡ true → state ≡ Queue.leased
is_leased→leased Queue.leased h = refl
is_leased→leased _ h = absurd (ground arith)
