-- ===== src/Agent/Crashes.antt =====
-- What Load answers after a Save that succeeded, failed, or crashed at any step.
use auto_deploy.Base.{
  ◌≡◌, ◌≢◌, refl, sym, ap, ◌∙◌, Bool, true, List, Option, none, Bytes, inl, inr, ◌⊎◌, Option-cases,
  ok, err, Bytes-discrete,
}
use auto_deploy.Base.Table.{exists_row}
use auto_deploy.Base.Order.{occurs}
use auto_deploy.Agent.State.{
  corrupt, Fence, Directory, path, Json, IsLawful, load_index, load, or_empty, save, WriteRun,
}
use auto_deploy.Agent.Saving.{
  load_invalid, load-trusted, load-filed_self, load-indexed_self, save_cases, load-filed_other,
  load-indexed_other, filed,
}

abbrev pub Kept : (j : Json) → Directory → Directory → Bytes → Type 0
Kept j d d' e = (load j d' e ≡ load j d e) ⊎ (load j d' e ≡ err corrupt)

-- Another environment, however the Save ends.
load-save_other :
    (j : Json) (w v : WriteRun) (d : Directory) (f : Fence) (r : Fence × Bool) (e : Bytes)
    → IsLawful j
    → load j d f.environment_id ≡ ok r
    → e ≢ f.environment_id
    → Kept j d (save j w v d f).0 e
load-save_other j w v d f r e lawful h ne = elim (Option-cases (path e)) [
  | inl n ↦ inl (load_invalid j (save j w v d f).0 e n ∙ sym (load_invalid j d e n))
  | inr (other, q) ↦ elim (save_cases j d f w v) [
    | inl k ↦ inl (rw k)
    | inr (name, g, p, short, rest) ↦
        let (listed, l) = load-trusted j d f.environment_id r h in
        elim rest [
          | inl (i, here) ↦ rw i (elim (load-filed_other j d f e other ne q name listed p l) [
            | inl same ↦ inl same
            | inr lost ↦ inr lost.0
          ])
          | inr i ↦ rw i (inl (load-indexed_other j d f e other ne q name listed p l lawful))
        ]
  ]
]

-- The environment of the fence, however the Save ends.
load-save_self :
    (j : Json) (w v : WriteRun) (d : Directory) (f : Fence)
    → IsLawful j
    → Kept j d (save j w v d f).0 f.environment_id
      ⊎ (load j (save j w v d f).0 f.environment_id ≡ ok (f, true))
load-save_self j w v d f lawful = elim (save_cases j d f w v) [
  | inl k ↦ inl (inl (rw k))
  | inr (name, g, p, short, inr i) ↦ inr (rw i (load-indexed_self j d f name g p short lawful))
  | inr (name, g, p, short, inl (i, here)) ↦ elim (load-filed_self j d f name g p short lawful) [
    | inl o ↦ inr (rw i o)
    | inr lost ↦ inl (inr (rw i lost.0))
  ]
]

-- Where the environment of a fence was loaded, a Save of the fence that succeeds, fails or crashes at
-- any step leaves every environment with what Load answered before, or refused as corrupt, or, for
-- the environment of the fence, with the fence.
pub load-save :
    (j : Json) (w v : WriteRun) (d : Directory) (f : Fence) (r : Fence × Bool) (e : Bytes)
    → IsLawful j
    → load j d f.environment_id ≡ ok r
    → Kept j d (save j w v d f).0 e
      ⊎ ((e ≡ f.environment_id) × (load j (save j w v d f).0 e ≡ ok (f, true)))
load-save j w v d f r e lawful h = elim (Bytes-discrete e f.environment_id) [
  | no ne ↦ inl (load-save_other j w v d f r e lawful h ne)
  | yes same ↦
      rw same (elim (load-save_self j w v d f lawful) [ inl k ↦ inl k | inr k ↦ inr (refl, k) ])
]

load-save_done_self :
    (j : Json) (w v : WriteRun) (d : Directory) (f : Fence)
    → IsLawful j
    → (save j w v d f).1 ≡ true
    → load j (save j w v d f).0 f.environment_id ≡ ok (f, true)
load-save_done_self j w v d f lawful h = elim (save_cases j d f w v) [
  | inl k ↦ absurd (cc (ap (λ x. x.1) k))
  | inr (name, g, p, short, inr i) ↦ rw i (load-indexed_self j d f name g p short lawful)
  | inr (name, g, p, short, inl (i, here)) ↦ elim (load-filed_self j d f name g p short lawful) [
    | inl o ↦ rw i o
    | inr lost ↦ absurd (cc (here h, lost.1))
  ]
]

-- An index that names an environment was read.
listed-ne-none : (e : Bytes) (o : Option (List Bytes)) → occurs e (or_empty o) ≡ true → o ≡ none → ⊥
unfolding exists_row
listed-ne-none e o h n = cc (rw n at h)

load-save_done_other :
    (j : Json) (w v : WriteRun) (d : Directory) (f : Fence) (r : Fence × Bool) (e : Bytes)
    → IsLawful j
    → load j d f.environment_id ≡ ok r
    → (save j w v d f).1 ≡ true
    → e ≢ f.environment_id
    → load j (save j w v d f).0 e ≡ load j d e
load-save_done_other j w v d f r e lawful h done ne = elim (Option-cases (path e)) [
  | inl n ↦ load_invalid j (save j w v d f).0 e n ∙ sym (load_invalid j d e n)
  | inr (other, q) ↦ elim (save_cases j d f w v) [
    | inl k ↦ absurd (cc (ap (λ x. x.1) k))
    | inr (name, g, p, short, rest) ↦
        let (listed, l) = load-trusted j d f.environment_id r h in
        elim rest [
          | inl (i, here) ↦ rw i (elim (load-filed_other j d f e other ne q name listed p l) [
            | inl same ↦ same
            | inr lost ↦ absurd (
                listed-ne-none f.environment_id (load_index j (filed j d f name)) (here done)
                  lost.1)
          ])
          | inr i ↦ rw i (load-indexed_other j d f e other ne q name listed p l lawful)
        ]
  ]
]

-- Where the environment of a fence was loaded, a Save of the fence that returns no error is a write to
-- one key: the fence is loaded back, and Load answers as before for every other environment.
pub load-save_done :
    (j : Json) (w v : WriteRun) (d : Directory) (f : Fence) (r : Fence × Bool)
    → IsLawful j
    → load j d f.environment_id ≡ ok r
    → (save j w v d f).1 ≡ true
    → (load j (save j w v d f).0 f.environment_id ≡ ok (f, true))
      × ((e : Bytes) → e ≢ f.environment_id → load j (save j w v d f).0 e ≡ load j d e)
load-save_done j w v d f r lawful h done = (
  load-save_done_self j w v d f lawful done,
  λ e ne. load-save_done_other j w v d f r e lawful h done ne,
)
