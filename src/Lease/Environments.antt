-- ===== src/Lease/Environments.antt =====
-- `sortedDistinctEnvironments`: the order in which `Claim` creates the slots.
use auto_deploy.Base.{
  ◌≡◌, ◌∙◌, ◌&&◌, not, inl, inr, List, [], ◌∷◌, Bytes, bytes_eq, bytes_eq_refl, arith, Bool-cases,
}
use auto_deploy.Base.Table.{exists_row}
use auto_deploy.Base.Order.{occurs, IsDistinct, IsAscending, sort_by-occurs, sort_by-IsAscending}
use auto_deploy.Lease.Claiming.{Candidate, distinct_environments, sorted_distinct_environments}

abbrev pub environments : List Candidate → List Bytes
environments [] = []
environments (c ∷ cs) = c.environment_id ∷ environments cs

occurs-distinct_environments :
    (e : Bytes) (seen : List Bytes) (cs : List Candidate)
    → occurs e (distinct_environments seen cs) ≡ (not (occurs e seen) && occurs e (environments cs))
unfolding distinct_environments exists_row
occurs-distinct_environments e seen [] = ground arith
occurs-distinct_environments e seen (c ∷ cs) = ground (
  arith,
  occurs-distinct_environments e seen cs,
  occurs-distinct_environments e (c.environment_id ∷ seen) cs,
)

distinct_environments-IsDistinct :
    (seen : List Bytes) (cs : List Candidate) → IsDistinct (distinct_environments seen cs)
unfolding distinct_environments exists_row
distinct_environments-IsDistinct seen [] = tt
distinct_environments-IsDistinct seen (c ∷ cs) =
    elim (Bool-cases (exists_row (bytes_eq c.environment_id) seen)) [
      | inl old ↦ rw old (distinct_environments-IsDistinct seen cs)
      | inr new ↦ rw new (
        ground (
          arith,
          occurs-distinct_environments c.environment_id (c.environment_id ∷ seen) cs,
          bytes_eq_refl c.environment_id,
        ),
        distinct_environments-IsDistinct (c.environment_id ∷ seen) cs,
      )
    ]

-- The slots are created in the ascending order of their environments, each once, and exactly those of
-- the candidates.
pub sorted_distinct_environments_lem :
    (cs : List Candidate)
    → IsAscending (sorted_distinct_environments cs)
      × ((e : Bytes) → occurs e (sorted_distinct_environments cs) ≡ occurs e (environments cs))
unfolding sorted_distinct_environments exists_row
sorted_distinct_environments_lem cs = (
  sort_by-IsAscending (distinct_environments [] cs) (distinct_environments-IsDistinct [] cs),
  λ e. sort_by-occurs e (distinct_environments [] cs) ∙ occurs-distinct_environments e [] cs,
)
