-- ===== src/Traefik.antt =====
-- The route document of an environment: internal/runtime/traefik/route.go, names.go and render.go,
-- and the identifiers of internal/runtime/dockerid/dockerid.go.
use auto_deploy.Base.{
  ℕ, Bool, true, false, not, ◌&&◌, ◌||◌, List, [], ◌∷◌, ◌++◌, Option, none, some, leb, ltb, ◌==◌,
  ◌/◌, ◌%◌, ◌+◌, ◌-◌, ◌*◌, if◌then◌else◌, Bytes, bytes_eq, length,
}
use auto_deploy.Base.Encoding.{append_int}
use auto_deploy.Base.Strings.{bytes, all_bytes, in_range}
use auto_deploy.Healthgate.{is_alphanumeric, first_byte, valid_route_hostname}
pub mod Quoting
pub mod Rendering
pub mod Hexadecimal
mod Tests

-- Every number is positive, or 0, and below 2 ^ 63: the columns are bigint.
pub record EnvironmentRoute : Type 0 where
  pub environment_id : Bytes
  pub route_revision : ℕ
  pub hostname : Bytes
  pub entrypoint_name : Bytes
  pub cert_resolver_name : Bytes
  pub backend_runtime_instance_id : Bytes
  pub backend_port : ℕ
  pub backend_scheme : Bytes
  pub release_id : Bytes
  pub fence_id : Bytes

unfoldable pub is_name_byte : ℕ → Bool
is_name_byte c = is_alphanumeric c || c == b'_' || c == b'-'

-- `^[A-Za-z0-9][A-Za-z0-9_-]{0,127}$`, and {0,62} for the static names.
unfoldable pub matches_identifier : ℕ → Bytes → Bool
matches_identifier limit s =
    ltb 0 (length s)
    && leb (length s) limit
    && is_alphanumeric (first_byte s)
    && all_bytes is_name_byte s

abbrev pub container_name_prefix : Bytes
container_name_prefix = bytes "autodeploy-rt-"

unfoldable pub is_container_byte : ℕ → Bool
is_container_byte c = is_alphanumeric c || c == b'_' || c == b'.' || c == b'-'

unfoldable pub container_name : Bytes → Option Bytes
container_name id =
    let name = container_name_prefix ++ id in
    if not (matches_identifier 128 id)
    then none
    else if ltb 255 (length name)
    then none
    else if not (
        ltb 1 (length name)
        && is_alphanumeric (first_byte name)
        && all_bytes is_container_byte name)
    then none
    else some name

unfoldable pub attempt_runtime_instance_id : ℕ → Bytes
attempt_runtime_instance_id attempt_id = append_int attempt_id []

unfoldable pub valid_backend_scheme : Bytes → Bool
valid_backend_scheme s = bytes_eq s (bytes "http") || bytes_eq s (bytes "https")

abbrev pub is_some {ℓ} : {A : Type ℓ} → Option A → Bool
is_some none = false
is_some (some a) = true

unfoldable pub validate : EnvironmentRoute → Bool
validate r =
    matches_identifier 128 r.environment_id
    && valid_route_hostname r.hostname
    && matches_identifier 63 r.entrypoint_name
    && matches_identifier 63 r.cert_resolver_name
    && is_some (container_name r.backend_runtime_instance_id)
    && not (ltb r.backend_port 1 || ltb 65535 r.backend_port)
    && valid_backend_scheme r.backend_scheme
    && matches_identifier 128 r.release_id
    && matches_identifier 128 r.fence_id

abbrev pub router_name : EnvironmentRoute → Bytes
router_name r = bytes "autodeploy-router-" ++ r.environment_id

abbrev pub service_name : EnvironmentRoute → Bytes
service_name r =
    bytes "autodeploy-svc-"
    ++ r.environment_id
    ++ bytes "-"
    ++ r.release_id
    ++ bytes "-"
    ++ r.fence_id

unfoldable pub backend_server_url : EnvironmentRoute → Option Bytes
backend_server_url r = elim (container_name r.backend_runtime_instance_id) [
  | none ↦ none
  | some name ↦
      some (r.backend_scheme ++ bytes "://" ++ name ++ bytes ":" ++ append_int r.backend_port [])
]

-- `%02X`.
unfoldable pub hex_digit : ℕ → ℕ
hex_digit n = if ltb n 10 then 48 + n else 55 + n

unfoldable pub quote_byte : ℕ → Option Bytes
quote_byte c =
    if not (ltb c 0x80)
    then none
    else if c == b'\\'
    then some (b'\\' ∷ b'\\' ∷ [])
    else if c == b'"'
    then some (b'\\' ∷ b'"' ∷ [])
    else if c == b'\n'
    then some (b'\\' ∷ b'n' ∷ [])
    else if c == b'\r'
    then some (b'\\' ∷ b'r' ∷ [])
    else if c == b'\t'
    then some (b'\\' ∷ b't' ∷ [])
    else if ltb c 0x20 || c == 0x7f
    then some (b'\\' ∷ b'x' ∷ hex_digit (c / 16) ∷ hex_digit (c % 16) ∷ [])
    else some (c ∷ [])

unfoldable pub quote_bytes : Bytes → Option Bytes
quote_bytes [] = some []
quote_bytes (c ∷ s) =
    let rest = quote_bytes s in
    elim (quote_byte c) [
      | none ↦ none
      | some q ↦ elim rest [ none ↦ none | some qs ↦ some (q ++ qs) ]
    ]

-- `none` on a byte outside ASCII.
unfoldable pub quote_yaml_string : Bytes → Option Bytes
quote_yaml_string s = elim (quote_bytes s) [
  | none ↦ none
  | some qs ↦ some (b'"' ∷ (qs ++ b'"' ∷ []))
]

abbrev pub rule_value : Bytes → Bytes
rule_value hostname = bytes "Host(`" ++ hostname ++ bytes "`)"

-- The texts between the quoted values, and the values in their order.
abbrev pub document_head : EnvironmentRoute → Bytes
document_head r =
    bytes "# Generated by autodeploy internal/runtime/traefik. Do not edit by hand;\n"
    ++ bytes "# this file is replaced atomically on every activation.\n"
    ++ bytes "# environment: "
    ++ r.environment_id
    ++ bytes "\n"
    ++ bytes "# route_revision: "
    ++ append_int r.route_revision []
    ++ bytes "\n"
    ++ bytes "http:\n  routers:\n    "

unfoldable pub fill : List (Bytes × Bytes) → Option Bytes
fill [] = some []
fill ((value, text) ∷ parts) =
    let rest = fill parts in
    elim (quote_yaml_string value) [
      | none ↦ none
      | some q ↦ elim rest [ none ↦ none | some doc ↦ some (q ++ text ++ doc) ]
    ]

-- A quoted value and the text after it.
abbrev pub document_parts : EnvironmentRoute → Bytes → Bytes → Bytes → List (Bytes × Bytes)
document_parts r router service backend_url =
    (router, bytes ":\n      rule: ")
    ∷ (rule_value r.hostname, bytes "\n      entryPoints:\n        - ")
    ∷ (r.entrypoint_name, bytes "\n      service: ")
    ∷ (service, bytes "\n      tls:\n        certResolver: ")
    ∷ (r.cert_resolver_name, bytes "\n  services:\n    ")
    ∷ (service, bytes ":\n      loadBalancer:\n        servers:\n          - url: ")
    ∷ (backend_url, bytes "\n")
    ∷ []

unfoldable pub render_document : EnvironmentRoute → Bytes → Bytes → Bytes → Option Bytes
render_document r router service backend_url =
    elim (fill (document_parts r router service backend_url)) [
      | none ↦ none
      | some doc ↦ some (document_head r ++ doc)
    ]

unfoldable pub hex_lower : ℕ → ℕ
hex_lower n = if ltb n 10 then 48 + n else 87 + n

-- `hex.EncodeToString`.
unfoldable pub hex_encode : Bytes → Bytes
hex_encode [] = []
hex_encode (c ∷ s) = hex_lower (c / 16) ∷ hex_lower (c % 16) ∷ hex_encode s

unfoldable pub hex_value : ℕ → Option ℕ
hex_value c =
    if in_range b'0' b'9' c
    then some (c - 48)
    else if in_range b'a' b'f' c
    then some (c - 87)
    else if in_range b'A' b'F' c
    then some (c - 55)
    else none

-- `hex.DecodeString`; `none` is its error.
unfoldable pub hex_decode : Bytes → Option Bytes
hex_decode [] = some []
hex_decode (h ∷ []) = none
hex_decode (h ∷ l ∷ s) =
    let rest = hex_decode s in
    elim (hex_value h) [
      | none ↦ none
      | some v ↦ elim (hex_value l) [
        | none ↦ none
        | some w ↦ elim rest [ none ↦ none | some bs ↦ some ((v * 16 + w) ∷ bs) ]
      ]
    ]

abbrev pub digest_prefix : Bytes
digest_prefix = bytes "sha256:"

unfoldable pub digest : (Bytes → Bytes) → Bytes → Bytes
digest sum256 doc = digest_prefix ++ hex_encode (sum256 doc)

-- The document and its digest; `none` is an invalid route. `sum256` is `sha256.Sum256`.
unfoldable pub render : (Bytes → Bytes) → EnvironmentRoute → Option (Bytes × Bytes)
render sum256 r = if not (validate r) then none else elim (backend_server_url r) [
  | none ↦ none
  | some url ↦ elim (render_document r (router_name r) (service_name r) url) [
    | none ↦ none
    | some doc ↦ some (doc, digest sum256 doc)
  ]
]

abbrev pub default_entrypoint_name : Bytes
default_entrypoint_name = bytes "websecure"

abbrev pub default_cert_resolver_name : Bytes
default_cert_resolver_name = bytes "letsencrypt-production"
