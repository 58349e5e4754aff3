-- ===== src/Traefik/Tests.antt =====
-- One route, rendered; the theorems of Rendering at it.
use auto_deploy.Base.{◌≡◌, refl, true, [], ◌∷◌, some, Bytes, ◌↔◌, Bytes-discrete, ℕ_discrete}
use auto_deploy.Base.Strings.{bytes, all_bytes, split, cut}
use auto_deploy.Healthgate.{
  is_alphanumeric, is_digit, is_lower, is_route_byte, all_labels, valid_label, valid_route_hostname,
  valid_path, path_from, is_path_byte, is_hex_digit, valid_host, valid_ports, valid_port, decimal,
}
use auto_deploy.Base.Strings.{contains_byte, has_prefix}
use auto_deploy.Base.{false}
use auto_deploy.Traefik.{
  EnvironmentRoute, is_name_byte, matches_identifier, container_name, is_container_byte,
  valid_backend_scheme, validate, digest, render, default_entrypoint_name,
  default_cert_resolver_name,
}
use auto_deploy.Traefik.Rendering.{render_iff}

abbrev route : EnvironmentRoute
route = record {
  environment_id = bytes "env1";
  route_revision = 7;
  hostname = bytes "app.example.com";
  entrypoint_name = default_entrypoint_name;
  cert_resolver_name = default_cert_resolver_name;
  backend_runtime_instance_id = bytes "42";
  backend_port = 8080;
  backend_scheme = bytes "http";
  release_id = bytes "rel-1";
  fence_id = bytes "3";
}

route-valid : validate route ≡ true
unfolding validate matches_identifier is_name_byte is_alphanumeric is_digit is_lower all_bytes
    valid_route_hostname split cut all_labels valid_label is_route_byte container_name
    is_container_byte valid_backend_scheme Bytes-discrete ℕ_discrete
route-valid = refl

render_iff_example :
    ((doc : Bytes) × (render (λ b. b) route ≡ some (doc, digest (λ b. b) doc)))
    ↔ (validate route ≡ true)
render_iff_example = render_iff (λ b. b) route

-- A value with a quote, a backslash, a line break and a control byte.
abbrev value : Bytes
value = b'a' ∷ b'"' ∷ b'\\' ∷ b'\n' ∷ 1 ∷ []

abbrev quoted : Bytes
quoted = bytes "\"a\\\"\\\\\\n\\x01\""

last_label_digits : valid_route_hostname (bytes "app.10") ≡ false
unfolding valid_route_hostname split cut all_labels valid_label is_route_byte is_digit is_lower
    all_bytes
last_label_digits = refl

escaped_path : valid_path (bytes "/a%2Fb?x=1") ≡ true
unfolding valid_path path_from is_path_byte is_hex_digit is_alphanumeric is_digit is_lower
    contains_byte has_prefix
escaped_path = refl

port_out_of_range : valid_host (bytes "localhost:65536") ≡ false
unfolding valid_host valid_ports valid_port decimal all_labels valid_label is_alphanumeric is_digit
    is_lower all_bytes split cut
port_out_of_range = refl
