-- ===== src/Lease/Deployments.antt =====
-- The persistence of deployments inside a caller's transaction:
-- internal/store/postgres/deployment_repository.go, and `transitionDeployment` of
-- agent_lease_repository.go.
use auto_deploy.Base.{
  ℕ, zero, suc, ◌^◌, Bool, true, false, not, ◌&&◌, ◌||◌, List, [], ◌∷◌, ◌++◌, ◌==◌, if◌then◌else◌,
  Bytes, bytes_eq, Result, ok, err, ltb, arith, ◌≡◌,
}
use auto_deploy.Base.Table.{find_row, update_rows}
use auto_deploy.Base.Time.{Time, equal}
use auto_deploy.Deployment.{
  Status, Event, Identity, Snapshot, Deployment, status_eq, rehydrate, snapshot, transition,
}
use auto_deploy.Deployment
use auto_deploy.Lease.State.{
  Store, Error, not_found, revision_conflict, domain, ◌>>=◌, ◌>>◌, guard, or_fail,
  revision_overflow,
}

abbrev pub in_domain {ℓ} : {A : Type ℓ} → Result Deployment.Error A → Result Error A
in_domain (ok a) = ok a
in_domain (err e) = err (domain e)

abbrev pub is_deployment : Bytes → Snapshot → Bool
is_deployment id s = bytes_eq s.identity.deployment_id id

unfoldable pub read_snapshot : Store → Bytes → Result Error Snapshot
read_snapshot st id = or_fail (find_row (is_deployment id) st.deployments) not_found

unfoldable pub matching_prefix : List Event → List Event → Bool
matching_prefix [] candidate = true
matching_prefix (e ∷ es) [] = false
matching_prefix (e ∷ es) (c ∷ cs) =
    status_eq e.from c.from && status_eq e.to c.to && equal e.at c.at && matching_prefix es cs

unfoldable pub same_identity : Identity → Identity → Bool
same_identity a b =
    bytes_eq a.deployment_id b.deployment_id
    && bytes_eq a.project_id b.project_id
    && bytes_eq a.environment_id b.environment_id
    && bytes_eq a.server_id b.server_id
    && bytes_eq a.commit_sha b.commit_sha

unfoldable pub drop_events : ℕ → List Event → List Event
drop_events zero es = es
drop_events (suc n) [] = []
drop_events (suc n) (e ∷ es) = drop_events n es

-- The head columns that `UPDATE deployments` sets, and the events that `appendEvents` inserts.
unfoldable pub saved_row : Snapshot → Snapshot → Snapshot
saved_row s stored = record stored {
  version = s.version;
  status = s.status;
  updated_at = s.updated_at;
  revision = s.revision;
  events = stored.events ++ drop_events stored.revision s.events;
}

unfoldable pub checked_snapshot : Deployment → Result Error Snapshot
checked_snapshot value = do
  s ← in_domain (snapshot value)
  guard (ltb s.revision (2 ^ 63)) revision_overflow
  ok s

unfoldable pub save : Store → Deployment → Result Error Store
save st value = do
  s ← checked_snapshot value
  stored ← read_snapshot st s.identity.deployment_id
  guard (same_identity stored.identity s.identity) revision_conflict
  _ ← in_domain (rehydrate stored)
  guard (not (ltb s.revision stored.revision || not (matching_prefix stored.events s.events)))
      revision_conflict
  guard (not (stored.revision == s.revision)) revision_conflict
  ok (record st {
    deployments = update_rows (is_deployment s.identity.deployment_id) (saved_row s) st.deployments;
  })

-- At the status already, nothing is written.
unfoldable pub transition_deployment : Store → Bytes → Status → Time → Result Error Store
transition_deployment st id target at = do
  s ← read_snapshot st id
  current ← in_domain (rehydrate s)
  next ← in_domain (transition current target at)
  if next.revision == current.revision then ok st else save st next

pub transition_deployment→save :
    (st : Store) (id : Bytes) (target : Status) (at : Time) (st' : Store)
    → transition_deployment st id target at ≡ ok st'
    → (s : Snapshot) × (current : Deployment) × (next : Deployment) × (read_snapshot st id ≡ ok s)
      × (rehydrate s ≡ ok current)
      × (transition current target at ≡ ok next)
      × ((if next.revision == current.revision then ok st else save st next) ≡ ok st')
unfolding transition_deployment
transition_deployment→save st id target at st' e = ground arith
