-- ===== src/Lease/Fencing.antt =====
-- The fencing discipline of the lease store as an abstract specification: which attempt occupies
-- which environment, under which fence.
use auto_deploy.Base.{
  ℕ, ◌+◌, ◌≤◌, ◌≡◌, Bool, true, false, Option, none, some, ◌==◌, if◌then◌else◌, Bytes,
  Bytes-discrete, bytes_eq, arith, ap, inl, inr, Bool-cases,
}

-- An environment's fence and occupant.
abbrev pub Occupancy : Type 0
Occupancy = Bytes → Option (ℕ × Option ℕ)

-- An attempt's environment and fence, and whether it is leased.
abbrev pub Authority : Type 0
Authority = ℕ → Option (Bytes × ℕ × Bool)

pub record IsFenced (occ : Occupancy) (auth : Authority) : Type 0 where
  -- The occupant of a slot is leased there, under the slot's own fence.
  pub occupant : (e : Bytes) (n i : ℕ) → occ e ≡ some (n, some i) → auth i ≡ some (e, n, true)
  -- A leased attempt occupies the slot of its environment, under its own fence.
  pub exclusive :
      (i : ℕ) (e : Bytes) (n : ℕ) → auth i ≡ some (e, n, true) → occ e ≡ some (n, some i)
  -- No attempt, open or closed, has a fence above its environment's.
  pub bounded :
      (i : ℕ) (e : Bytes) (n : ℕ) (b : Bool)
      → auth i ≡ some (e, n, b)
      → (m : ℕ) × (c : Option ℕ) × (occ e ≡ some (m, c)) × (n ≤ m)

-- Two leased attempts of one environment are one.
pub one_occupant :
    (occ : Occupancy) (auth : Authority)
    → IsFenced occ auth
    → (i j : ℕ) (e : Bytes) (n m : ℕ) → auth i ≡ some (e, n, true)
    → auth j ≡ some (e, m, true)
    → (i ≡ j) × (n ≡ m)
one_occupant occ auth v i j e n m p q = ground (arith, v.exclusive i e n p, v.exclusive j e m q)

abbrev pub set_occupancy : Bytes → ℕ → Option ℕ → Occupancy → Occupancy
set_occupancy e n c occ e' = if bytes_eq e' e then some (n, c) else occ e'

abbrev pub set_authority : ℕ → Bytes → ℕ → Bool → Authority → Authority
set_authority i e n b auth i' = if i' == i then some (e, n, b) else auth i'

abbrev pub Below : Occupancy → Bytes → ℕ → Type 0
Below occ e n = (m : ℕ) × (c : Option ℕ) × (occ e ≡ some (m, c)) × (n ≤ m)

-- A write of one slot that does not lower its fence.
Below-set_occupancy :
    (occ : Occupancy) (e e' : Bytes) (n m n' : ℕ) (c c' : Option ℕ)
    → occ e ≡ some (n, c)
    → n ≤ m
    → Below occ e' n'
    → Below (set_occupancy e m c' occ) e' n'
Below-set_occupancy occ e e' n m n' c c' p le (k, d, q, le') = elim (Bytes-discrete e' e) [
  | yes same ↦ (m, c', ground arith, ground (arith, ap occ same))
  | no other ↦ (k, d, ground arith, le')
]

-- The occupant leaves, under the same fence or a later one.
pub vacated-IsFenced :
    (occ : Occupancy) (auth : Authority) (e : Bytes) (n m i : ℕ)
    → IsFenced occ auth
    → occ e ≡ some (n, some i)
    → n ≤ m
    → IsFenced (set_occupancy e m none occ) (set_authority i e n false auth)
vacated-IsFenced occ auth e n m i v p le = record {
  occupant = λ e' n' i' h. ground (arith, v.occupant e' n' i', v.occupant e n i p);
  exclusive = λ i' e' n' h. ground (arith, v.exclusive i' e' n');
  bounded = λ i' e' n' b h.
      Below-set_occupancy occ e e' n m n' (some i) none p le (elim (Bool-cases (i' == i)) [
        | inl same ↦ (n, some i, ground arith, ground arith)
        | inr other ↦ v.bounded i' e' n' b (ground arith)
      ]);
}

-- A free slot is taken by a new attempt, under a fence above every earlier one.
pub occupied-IsFenced :
    (occ : Occupancy) (auth : Authority) (e : Bytes) (n i : ℕ)
    → IsFenced occ auth
    → occ e ≡ some (n, none)
    → auth i ≡ none
    → IsFenced (set_occupancy e (n + 1) (some i) occ) (set_authority i e (n + 1) true auth)
occupied-IsFenced occ auth e n i v p fresh = record {
  occupant = λ e' n' i' h. ground (arith, v.occupant e' n' i');
  exclusive = λ i' e' n' h. ground (arith, v.exclusive i' e' n');
  bounded = λ i' e' n' b h. elim (Bool-cases (i' == i)) [
    | inl same ↦ (n + 1, some i, ground arith, ground arith)
    | inr other ↦
        Below-set_occupancy occ e e' n (n + 1) n' none (some i) p (omega arith)
          (v.bounded i' e' n' b (ground arith))
  ];
}

-- A free slot without attempts appears.
pub created-IsFenced :
    (occ : Occupancy) (auth : Authority) (e : Bytes)
    → IsFenced occ auth
    → occ e ≡ none
    → IsFenced (set_occupancy e 0 none occ) auth
created-IsFenced occ auth e v p = record {
  occupant = λ e' n' i' h. ground (arith, v.occupant e' n' i');
  exclusive = λ i' e' n' h. elim (Bytes-discrete e' e) [
    | yes same ↦ absurd (cc (v.exclusive i' e' n' h, ap occ same, p))
    | no other ↦ ground (arith, v.exclusive i' e' n' h)
  ];
  bounded = λ i' e' n' b h.
      let (m, c, q, le) = v.bounded i' e' n' b h in
      elim (Bytes-discrete e' e) [
        | yes same ↦ absurd (cc (q, ap occ same, p))
        | no other ↦ (m, c, ground arith, le)
      ];
}

-- What a transaction does to the slots and the attempts: nothing, or a free slot is created, or a
-- new attempt takes a free slot under the next fence, or the occupant of one slot leaves it for
-- good, under the same fence or a later one.
pub data Move (occ : Occupancy) (auth : Authority) : Occupancy → Authority → Type 0 where
  stays : Move occ auth occ auth
  creates : (e : Bytes) → occ e ≡ none → Move occ auth (set_occupancy e 0 none occ) auth
  enters :
      (e : Bytes) (n i : ℕ)
      → occ e ≡ some (n, none)
      → auth i ≡ none
      → Move occ auth (set_occupancy e (n + 1) (some i) occ) (set_authority i e (n + 1) true auth)
  leaves :
      (e : Bytes) (n m i : ℕ)
      → occ e ≡ some (n, some i)
      → n ≤ m
      → Move occ auth (set_occupancy e m none occ) (set_authority i e n false auth)

pub Move-IsFenced :
    (occ : Occupancy) (auth : Authority) (occ' : Occupancy) (auth' : Authority)
    → Move occ auth occ' auth'
    → IsFenced occ auth
    → IsFenced occ' auth'
Move-IsFenced occ auth _ _ stays v = v
Move-IsFenced occ auth _ _ (creates e p) v = created-IsFenced occ auth e v p
Move-IsFenced occ auth _ _ (enters e n i p fresh) v = occupied-IsFenced occ auth e n i v p fresh
Move-IsFenced occ auth _ _ (leaves e n m i p le) v = vacated-IsFenced occ auth e n m i v p le

pub Move-fence_le :
    (occ : Occupancy) (auth : Authority) (occ' : Occupancy) (auth' : Authority)
    → Move occ auth occ' auth'
    → (e : Bytes) (n : ℕ) → Below occ e n
    → Below occ' e n
Move-fence_le occ auth _ _ stays e n below = below
Move-fence_le occ auth _ _ (creates e p) e' n' (m, c, q, le) = elim (Bytes-discrete e' e) [
  | yes same ↦ absurd (cc (q, ap occ same, p))
  | no other ↦ (m, c, ground arith, le)
]
Move-fence_le occ auth _ _ (enters e n i p fresh) e' n' below =
    Below-set_occupancy occ e e' n (n + 1) n' none (some i) p (omega arith) below
Move-fence_le occ auth _ _ (leaves e n m i p le) e' n' below =
    Below-set_occupancy occ e e' n m n' (some i) none p le below

pub Move-closed :
    (occ : Occupancy) (auth : Authority) (occ' : Occupancy) (auth' : Authority)
    → Move occ auth occ' auth'
    → IsFenced occ auth
    → (i : ℕ) (e : Bytes) (n : ℕ) → auth i ≡ some (e, n, false)
    → auth' i ≡ some (e, n, false)
Move-closed occ auth _ _ stays v i e n h = h
Move-closed occ auth _ _ (creates e p) v i' e' n' h = h
Move-closed occ auth _ _ (enters e n i p fresh) v i' e' n' h = ground (arith, fresh)
Move-closed occ auth _ _ (leaves e n m i p le) v i' e' n' h = ground (arith, v.occupant e n i p)
