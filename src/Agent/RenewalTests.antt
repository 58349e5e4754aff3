-- ===== src/Agent/RenewalTests.antt =====
-- Renewals of one leased attempt over a network that loses a request and an answer.
use auto_deploy.Base.{
  ◌&&◌, ltb, ℕ_discrete, ◌≡◌, refl, true, false, List, [], ◌∷◌, Bytes, arith, inl, Bytes-discrete,
}
use auto_deploy.Base.Encoding.{pos}
use auto_deploy.Base.Table.{find_row, update_rows}
use auto_deploy.Github.{valid_opaque_id}
use auto_deploy.Lease.State.{lock_active_server_credential}
use auto_deploy.Lease.Held.{Held, has_authority, lock_held}
use auto_deploy.Lease.Renewal.{renew, renew_held, extended}
use auto_deploy.Lease.Samples.{server_id, env_id, store, attempt, slot, job}
use auto_deploy.Agent.State.{Directory}
use auto_deploy.Agent.Leases.{Lease, loop}
use auto_deploy.Agent.Accepting.{undisturbed}
use auto_deploy.Agent.Samples.{format}
use auto_deploy.Agent.Renewals.{
  Alive, InTime, Delivery, request_lost, answer_lost, delivered, exchange, exchanges,
  loop_never_stale, sent, ticks,
}

abbrev held : Held
held = record { attempt = attempt; slot = slot; job = job }

abbrev secret : Bytes
secret = 1 ∷ 2 ∷ []

alive : Alive server_id secret 5 2 store held 0
unfolding lock_active_server_credential find_row Bytes-discrete ℕ_discrete
alive = record {
  held = record {
    authenticated = refl;
    owned = refl;
    attempt_found = refl;
    slot_found = refl;
    job_found = refl;
  };
  leased = refl;
  attempt_fence = refl;
  slot_fence = refl;
  current = refl;
  sequence = inl refl;
}

-- The answer of the first renewal is lost, then a request, and the replay arrives.
abbrev network : List Delivery
network = answer_lost 500 ∷ request_lost ∷ delivered 700 ∷ []

in_time : InTime server_id secret 5 2 store 0 network
unfolding exchange renew valid_opaque_id lock_held lock_active_server_credential find_row
    has_authority renew_held extended update_rows Bytes-discrete ℕ_discrete
in_time = (λ a e. ground arith, (tt, (λ a e. ground arith, tt)))

guarded : (valid_opaque_id server_id && ltb 0 5 && ltb 0 2) ≡ true
unfolding valid_opaque_id
guarded = refl

abbrev lease : Lease
lease = record { environment_id = env_id; attempt_id = 5; fence = pos 2 }

abbrev directory : Directory
directory = record { entries = []; listable = true }

loop_never_stale_example :
    loop format undisturbed undisturbed directory lease 0 false
      (ticks (exchanges server_id secret 5 2 store 0 network))
    ≡ (sent 5 (pos 2) (exchanges server_id secret 5 2 store 0 network), directory)
loop_never_stale_example =
    loop_never_stale format undisturbed undisturbed directory lease server_id secret 5 2 store held
      0 network false refl refl alive guarded in_time
