-- ===== src/Lease/Frames.antt =====
-- What the writes of the deployment and of the job leave alone.
use auto_deploy.Base.{
  ℕ, ◌≡◌, refl, Bool, ◌&&◌, inl, inr, List, some, ◌==◌, Bytes, arith, Bool-cases, ok,
}
use auto_deploy.Base.Table.{find_row, update_rows, find_row-update_rows}
use auto_deploy.Base.Time.{Time}
use auto_deploy.Deployment.{Status, Snapshot, Deployment}
use auto_deploy.Deployment
use auto_deploy.Lease.State.{Store, Job, JobState, job_failed, dead, find_job}
use auto_deploy.Lease.Deployments.{save, transition_deployment, transition_deployment→save}
use auto_deploy.Lease.Closing.{
  database_time, write_job, is_retry_wait, is_job_leased, schedule_retry, close_job,
}
use auto_deploy.Lease.Completion.{fail_deployment}

-- A write of the deployment changes no other table.
abbrev pub OnlyDeployments : Store → Store → Type 0
OnlyDeployments st st' =
    (st'.servers ≡ st.servers)
    × (st'.jobs ≡ st.jobs)
    × (st'.attempts ≡ st.attempts)
    × (st'.slots ≡ st.slots)
    × (st'.operations ≡ st.operations)

save-OnlyDeployments :
    (st : Store) (value : Deployment) (st' : Store)
    → save st value ≡ ok st'
    → OnlyDeployments st st'
unfolding save
save-OnlyDeployments st value st' e = ground arith

pub transition-OnlyDeployments :
    (st : Store) (id : Bytes) (target : Status) (at : Time) (st' : Store)
    → transition_deployment st id target at ≡ ok st'
    → OnlyDeployments st st'
transition-OnlyDeployments st id target at st' e =
    let (s, current, next, a, b, c, d) = transition_deployment→save st id target at st' e in
    elim (Bool-cases (next.revision == current.revision)) [
      | inl same ↦ ground arith
      | inr other ↦ save-OnlyDeployments st next st' (ground arith)
    ]

pub fail-OnlyDeployments :
    (state : JobState) (id : Bytes) (now : ℕ) (st st' : Store)
    → fail_deployment state id now st ≡ ok st'
    → OnlyDeployments st st'
fail-OnlyDeployments job_failed id now st st' e =
    transition-OnlyDeployments st id Deployment.failed (database_time now) st' e
fail-OnlyDeployments dead id now st st' e =
    transition-OnlyDeployments st id Deployment.failed (database_time now) st' e
fail-OnlyDeployments _ id now st st' e = ground arith

-- A query still finds a row after an update that keeps its key.
pub found-update_rows {ℓ} :
    {A : Type ℓ} (query test : A → Bool) (f : A → A) (xs : List A) (x : A)
    → ((y : A) → query (f y) ≡ query y)
    → find_row query xs ≡ some x
    → (y : A) × (find_row query (update_rows test f xs) ≡ some y)
found-update_rows query test f xs x keeps found =
    ground (arith, find_row-update_rows query test f xs keeps)

-- The statement on the job keeps every job's row.
pub found-write_job :
    (i job_id : ℕ) (state : JobState) (available now : ℕ) (st : Store) (j : Job)
    → find_job i st ≡ some j
    → (j' : Job) × (find_job i (write_job job_id state available now st) ≡ some j')
unfolding write_job
found-write_job i job_id state available now st j found = elim (Bool-cases (is_retry_wait state)) [
  | inl retried ↦ rw retried (
      found-update_rows (λ r. r.id == i) (λ r. r.id == job_id && is_job_leased r.state)
        (schedule_retry available now) st.jobs j (λ r. refl) found)
  | inr closed ↦ rw closed (
      found-update_rows (λ r. r.id == i) (λ r. r.id == job_id && is_job_leased r.state)
        (close_job state now) st.jobs j (λ r. refl) found)
]

pub write_job-servers :
    (job_id : ℕ) (state : JobState) (available now : ℕ) (st : Store)
    → (write_job job_id state available now st).servers ≡ st.servers
unfolding write_job
write_job-servers job_id state available now st = ground arith
