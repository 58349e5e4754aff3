-- ===== src/Lease/Ordered.antt =====
-- The order in which agent_lease_execution.go resolves the bindings of a first attempt.
use mathlib.Core.Path.{subst}
use auto_deploy.Base.{
  ◌≤◌, ◌≡◌, refl, sym, ap, ◌∙◌, inl, inr, true, false, List, [], ◌∷◌, map, some, Bytes, arith,
  Bool-cases, Option-cases, length, if◌then◌else◌,
}
use auto_deploy.Base.Sorting.{IsOrdered, bytes_ltb, insert_by, sort_by}
use auto_deploy.Lease.Runtime.{
  Runtime, Binding, FrozenBinding, FrozenLiteral, active_version, join_secrets, by_variable,
  bindings_of, is_secret, is_literal, scan_literals, resolve_runtime_secret_bindings,
  resolve_runtime_literal_bindings,
}

bytes_ltb_asym : (s t : Bytes) → bytes_ltb s t ≡ true → bytes_ltb t s ≡ false
unfolding bytes_ltb
bytes_ltb_asym s [] h = absurd (ground arith)
bytes_ltb_asym [] (d ∷ t) h = refl
bytes_ltb_asym (c ∷ s) (d ∷ t) h = ground (arith, bytes_ltb_asym s t)

insert_by-IsOrdered :
    (x : Binding) (ys : List Binding)
    → IsOrdered by_variable ys
    → IsOrdered by_variable (insert_by by_variable x ys)
unfolding insert_by
insert_by-IsOrdered x [] h = tt
insert_by-IsOrdered x (y ∷ []) h = elim (Bool-cases (by_variable y x)) [
  | inl before ↦ rw before (bytes_ltb_asym y.variable_name x.variable_name before, tt)
  | inr after ↦ rw after (after, tt)
]
insert_by-IsOrdered x (y ∷ z ∷ zs) (h, hs) = elim (Bool-cases (by_variable y x)) [
  | inr after ↦ rw after (after, (h, hs))
  | inl before ↦
      let rest = insert_by-IsOrdered x (z ∷ zs) hs in
      elim (Bool-cases (by_variable z x)) [
        | inl far ↦
            rw (before, far)
              (
                h,
                subst
                    (λ b.
                      IsOrdered by_variable
                        (if b then z ∷ insert_by by_variable x zs else x ∷ z ∷ zs))
                    far rest,
              )
        | inr near ↦
            rw (before, near) (bytes_ltb_asym y.variable_name x.variable_name before, (near, hs))
      ]
]

sort_by_lem : (xs : List Binding) → IsOrdered by_variable (sort_by by_variable xs)
unfolding sort_by
sort_by_lem [] = tt
sort_by_lem (x ∷ xs) = insert_by-IsOrdered x (sort_by by_variable xs) (sort_by_lem xs)

-- Whether a list is in the order of its names depends on the names alone.
names-IsOrdered :
    {A : Type 0} (name : A → Bytes) (bs : List Binding) (xs : List A)
    → map name xs ≡ map (λ (b : Binding). b.variable_name) bs
    → IsOrdered by_variable bs
    → IsOrdered (λ a b. bytes_ltb (name a) (name b)) xs
names-IsOrdered name bs [] same h = tt
names-IsOrdered name bs (x ∷ []) same h = tt
names-IsOrdered name [] (x ∷ y ∷ xs) same h = absurd (cc same)
names-IsOrdered name (b ∷ []) (x ∷ y ∷ xs) same h = absurd (cc same)
names-IsOrdered name (b ∷ c ∷ bs) (x ∷ y ∷ xs) same (h, hs) =
    (cc (same, h), names-IsOrdered name (c ∷ bs) (y ∷ xs) (cc same) hs)

length-join_secrets : (rt : Runtime) (bs : List Binding) → length (join_secrets rt bs) ≤ length bs
unfolding join_secrets
length-join_secrets rt [] = omega arith
length-join_secrets rt (b ∷ bs) = ground (arith, length-join_secrets rt bs)

-- A join that keeps the number of the rows keeps their names.
join_secrets-names :
    (rt : Runtime) (bs : List Binding)
    → length (join_secrets rt bs) ≡ length bs
    → map (λ (b : FrozenBinding). b.variable_name) (join_secrets rt bs)
      ≡ map (λ (b : Binding). b.variable_name) bs
unfolding join_secrets
join_secrets-names rt [] h = refl
join_secrets-names rt (b ∷ bs) h = elim (Option-cases (active_version rt b.secret_head_id)) [
  | inl missing ↦ absurd (ground (arith, length-join_secrets rt bs))
  | inr (v, found) ↦
      rw (map, join_secrets, found)
        (ap (λ r. b.variable_name ∷ r) (join_secrets-names rt bs (ground arith)))
]

scan_literals-names :
    (bs : List Binding) (ls : List FrozenLiteral)
    → scan_literals bs ≡ some ls
    → map (λ (l : FrozenLiteral). l.variable_name) ls ≡ map (λ (b : Binding). b.variable_name) bs
unfolding scan_literals
scan_literals-names [] [] h = refl
scan_literals-names [] (l ∷ ls) h = absurd (cc h)
scan_literals-names (b ∷ bs) ls h = elim (Option-cases b.literal_value) [
  | inl missing ↦ absurd (ground arith)
  | inr (value, set) ↦ elim (Option-cases (scan_literals bs)) [
    | inl refused ↦ absurd (ground arith)
    | inr (rest, scanned) ↦
        let row : FrozenLiteral = record {
          variable_name = b.variable_name;
          delivery_scope = b.delivery_scope;
          literal_value = value;
        } in
        let same : some (row ∷ rest) ≡ some ls = ground arith in
        let whole : row ∷ rest ≡ ls = cc same in
        ap (map (λ (l : FrozenLiteral). l.variable_name)) (sym whole)
        ∙ ap (λ r. b.variable_name ∷ r) (scan_literals-names bs rest scanned)
  ]
]

-- A first attempt resolves its secrets in the order of the names of the variables.
pub resolve_runtime_secret_bindings-IsOrdered :
    (rt : Runtime) (environment_id : Bytes) (bs : List FrozenBinding)
    → resolve_runtime_secret_bindings rt environment_id ≡ some bs
    → IsOrdered (λ a b. bytes_ltb a.variable_name b.variable_name) bs
unfolding resolve_runtime_secret_bindings
resolve_runtime_secret_bindings-IsOrdered rt environment_id bs h =
    let total = bindings_of is_secret rt environment_id in
    let size : length (join_secrets rt total) ≡ length total = ground (arith, h) in
    let same : join_secrets rt total ≡ bs = ground (arith, h) in
    names-IsOrdered (λ (b : FrozenBinding). b.variable_name) total bs
      (ap (map (λ (b : FrozenBinding). b.variable_name)) (sym same)
        ∙ join_secrets-names rt total size)
      (sort_by_lem _)

-- And its literals.
pub resolve_runtime_literal_bindings-IsOrdered :
    (rt : Runtime) (environment_id : Bytes) (ls : List FrozenLiteral)
    → resolve_runtime_literal_bindings rt environment_id ≡ some ls
    → IsOrdered (λ a b. bytes_ltb a.variable_name b.variable_name) ls
unfolding resolve_runtime_literal_bindings
resolve_runtime_literal_bindings-IsOrdered rt environment_id ls h =
    let total = bindings_of is_literal rt environment_id in
    names-IsOrdered (λ (l : FrozenLiteral). l.variable_name) total ls
      (scan_literals-names total ls h) (sort_by_lem _)
