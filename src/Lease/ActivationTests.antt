-- ===== src/Lease/ActivationTests.antt =====
-- An activation that is authorized and asked for again; the theorem of Activations at it.
use auto_deploy.Base.{◌≡◌, refl, [], ◌∷◌, some, arith, ok}
use auto_deploy.Base.Encoding.{append_int}
use auto_deploy.Base.Strings.{bytes, all_bytes}
use auto_deploy.Base.Table.{find_row}
use auto_deploy.Deployment.{Status, Event, Identity, Snapshot}
use auto_deploy.Deployment
use auto_deploy.Traefik.{
  hex_encode, digest_prefix, default_entrypoint_name, default_cert_resolver_name,
}
use auto_deploy.Lease.State.{find_attempt}
use auto_deploy.Lease.Activating.{activate_lease}
use auto_deploy.Github.{valid_opaque_id}
use auto_deploy.Base.{Bytes-discrete, ℕ_discrete}
use auto_deploy.Base.Encoding.{digits}
use auto_deploy.Base.Strings.{split, cut, has_prefix, drop}
use auto_deploy.Base.Table.{update_rows, exists_row}
use auto_deploy.Base.Time.{canonical_time}
use auto_deploy.Healthgate.{
  is_alphanumeric, is_digit, is_lower, is_route_byte, all_labels, valid_label, valid_route_hostname,
}
use auto_deploy.Traefik.{
  is_name_byte, matches_identifier, container_name, is_container_byte, valid_backend_scheme,
  hex_digit, quote_byte, quote_bytes, quote_yaml_string, fill, render_document, backend_server_url,
  render, digest, hex_lower, hex_value, hex_decode, attempt_runtime_instance_id,
}
use auto_deploy.Traefik
use auto_deploy.Lease.State.{lock_active_server_credential, append_job_event}
use auto_deploy.Lease.Held.{lock_held, has_authority}
use auto_deploy.Lease.Deployments.{
  transition_deployment, read_snapshot, save, checked_snapshot, same_identity, matching_prefix,
  saved_row, drop_events,
}
use auto_deploy.Lease.Activating.{
  activate_held, activate_first, authorize_switch, ready_release, authorize_route,
  decode_route_digest, authorize,
}
use auto_deploy.Lease.Activations.{activate_replay}
use auto_deploy.Lease.State.{find_slot}
use auto_deploy.Lease.Views.{Fenced, occupancy, authority}
use auto_deploy.Lease.Finalizing.{
  finalize_activation_succeeded, check_head, switch_releases, retain_predecessor, move_release,
  switch_head, close_activation, close_lease,
}
use auto_deploy.Lease.Finalized.{IsSwitched, finalize_lem}
use auto_deploy.Lease.ActivationSamples.{
  attempt, slot, image, sum, store, answer, activating_store, input, healthy_store,
}

first_activation :
    activate_lease sum (λ os. 9) store (bytes "s1") (1 ∷ 2 ∷ []) 5 2 image 7000
    ≡ ok (answer, activating_store)
unfolding activate_lease valid_opaque_id lock_held lock_active_server_credential has_authority
    activate_held activate_first transition_deployment read_snapshot Deployment.rehydrate
    Deployment.validate Deployment.validate_identity Deployment.validate_fields
    Deployment.validate_trail Deployment.validate_events Deployment.is_known_status
    Deployment.status_eq Deployment.restored canonical_time Deployment.transition
    Deployment.is_terminal Deployment.can_transition Deployment.advanced save checked_snapshot
    Deployment.snapshot Deployment.saved same_identity matching_prefix saved_row drop_events
    authorize_switch ready_release authorize_route render Traefik.validate matches_identifier
    is_name_byte is_alphanumeric is_digit is_lower is_route_byte all_labels valid_label
    valid_route_hostname split cut all_bytes container_name is_container_byte valid_backend_scheme
    backend_server_url render_document fill quote_yaml_string quote_bytes quote_byte hex_digit
    digest hex_encode hex_lower hex_value hex_decode decode_route_digest has_prefix drop
    attempt_runtime_instance_id append_int digits authorize append_job_event find_row update_rows
    exists_row Bytes-discrete ℕ_discrete
first_activation = refl

found : find_attempt 5 store ≡ some attempt
unfolding find_row
found = refl

activate_replay_example :
    activate_lease sum (λ os. 9) activating_store (bytes "s1") (1 ∷ 2 ∷ []) 5 2 image 80000
    ≡ ok (answer, activating_store)
unfolding all_bytes
activate_replay_example =
    activate_replay sum (λ os. 9) store (bytes "s1") (1 ∷ 2 ∷ []) 5 2 image 7000 answer
      activating_store attempt 80000 (λ s. refl) refl first_activation found (omega arith)

finalization : finalize_activation_succeeded input activating_store ≡ ok healthy_store
unfolding finalize_activation_succeeded check_head switch_releases retain_predecessor move_release
    switch_head close_activation close_lease append_int digits transition_deployment read_snapshot
    Deployment.rehydrate Deployment.validate Deployment.validate_identity Deployment.validate_fields
    Deployment.validate_trail Deployment.validate_events Deployment.is_known_status
    Deployment.status_eq Deployment.restored canonical_time Deployment.transition
    Deployment.is_terminal Deployment.can_transition Deployment.advanced save checked_snapshot
    Deployment.snapshot Deployment.saved same_identity matching_prefix saved_row drop_events
    append_job_event find_row update_rows exists_row Bytes-discrete ℕ_discrete
finalization = refl

finalize_lem_example : IsSwitched input activating_store healthy_store
finalize_lem_example = finalize_lem input activating_store healthy_store finalization

activating_store-Fenced : Fenced activating_store
unfolding occupancy authority find_row
activating_store-Fenced = record {
  occupant = λ e n i h. ground arith;
  exclusive = λ i e n h. ground arith;
  bounded = λ i e n b h. (2, some 5, ground arith, ground arith);
}

slot_found : find_slot (bytes "env1") activating_store ≡ some slot
unfolding find_row Bytes-discrete ℕ_discrete
slot_found = refl

attempt_found : find_attempt 5 activating_store ≡ some attempt
unfolding find_row
attempt_found = refl
