-- ===== src/Lease/Renewal.antt =====
-- `Renew` of internal/store/postgres/agent_lease_repository.go.
use auto_deploy.Base.{
  ℕ, ◌+◌, ◌*◌, Bool, true, false, not, ◌&&◌, Option, none, some, ◌==◌, ltb, if◌then◌else◌, Bytes,
  Result, ok, err,
}
use auto_deploy.Github.{valid_opaque_id}
use auto_deploy.Queue.{second}
use auto_deploy.Lease.State.{
  Store, Attempt, Error, authorization_denied, stale, update_attempt, ◌>>=◌, ◌>>◌, guard,
}
use auto_deploy.Lease.Held.{Held, lock_held, has_authority, is_leased}

abbrev pub lease_duration : ℕ
lease_duration = 90 * second

pub record RenewalResult : Type 0 where
  pub lease_expires_at : ℕ
  pub authority_expires_at : ℕ
  pub cancel_requested : Bool

-- The new deadlines: a cancellation's earlier cleanup deadline caps them.
unfoldable pub extended : Option ℕ → ℕ → ℕ
extended none now = now + lease_duration
extended (some deadline) now =
    if ltb deadline (now + lease_duration) then deadline else now + lease_duration

abbrev pub is_requested : Option ℕ → Bool
is_requested none = false
is_requested (some t) = true

-- The first conjunct of the staleness check, and the rest of it.
abbrev pub may_renew : Held → ℕ → ℕ → ℕ → Bool
may_renew h attempt_id fence now = is_leased h.attempt.state && has_authority h attempt_id fence now

abbrev pub set_renewal : ℕ → ℕ → Attempt → Attempt
set_renewal sequence deadline a = record a {
  renewal_sequence = sequence;
  lease_expires_at = deadline;
  authority_expires_at = deadline;
}

-- After the locks: a replay of the accepted sequence, the next one, or any other.
unfoldable pub renew_held : Store → Held → ℕ → ℕ → ℕ → Result Error (RenewalResult × Store)
renew_held st h attempt_id sequence now =
    let deadline = extended h.attempt.cancel_deadline_at now in
    if sequence == h.attempt.renewal_sequence
    then ok (
      record {
        lease_expires_at = h.attempt.lease_expires_at;
        authority_expires_at = h.attempt.authority_expires_at;
        cancel_requested = is_requested h.job.cancel_requested_at;
      },
      st,
    )
    else if not (sequence == h.attempt.renewal_sequence + 1)
    then err stale
    else ok (
      record {
        lease_expires_at = deadline;
        authority_expires_at = deadline;
        cancel_requested = is_requested h.job.cancel_requested_at;
      },
      update_attempt attempt_id (set_renewal sequence deadline) st,
    )

unfoldable pub renew : Store → Bytes → Bytes → ℕ → ℕ → ℕ → ℕ → Result Error (RenewalResult × Store)
renew st server presented attempt_id fence sequence now = do
  guard (valid_opaque_id server && ltb 0 attempt_id && ltb 0 fence) authorization_denied
  h ← lock_held st server presented attempt_id
  guard (may_renew h attempt_id fence now) stale
  renew_held st h attempt_id sequence now
