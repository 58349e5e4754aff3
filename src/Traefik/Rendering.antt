-- ===== src/Traefik/Rendering.antt =====
-- A valid route is always rendered.
use auto_deploy.Base.{
  ℕ, zero, suc, ◌+◌, ◌/◌, ◌%◌, ◌≡◌, refl, ap, ◌∙◌, ◌↔◌, inl, inr, Bool, true, ◌&&◌, ◌||◌, List, [],
  ◌∷◌, ◌++◌, some, Bytes, bytes_eq, ltb, ◌==◌, arith, Bool-cases, Option-cases,
}
use auto_deploy.Base.Encoding.{append_int, digits}
use auto_deploy.Base.Strings.{bytes, all_bytes, split, cut}
use auto_deploy.Healthgate.{
  is_alphanumeric, is_digit, is_lower, is_route_byte, all_labels, valid_label, valid_route_hostname,
}
use auto_deploy.Traefik.{
  EnvironmentRoute, is_name_byte, matches_identifier, container_name, is_container_byte,
  valid_backend_scheme, validate, router_name, service_name, backend_server_url, quote_byte,
  quote_bytes, quote_yaml_string, fill, document_head, document_parts, render_document, digest,
  render,
}

-- The texts that are quoted are ASCII.
abbrev pub is_ascii : ℕ → Bool
is_ascii c = ltb c 0x80

all_bytes-append :
    (test : ℕ → Bool) (s t : Bytes)
    → all_bytes test (s ++ t) ≡ (all_bytes test s && all_bytes test t)
unfolding all_bytes
all_bytes-append test [] t = refl
all_bytes-append test (c ∷ s) t = ground (arith, all_bytes-append test s t)

all_bytes-weaken :
    (test weaker : ℕ → Bool) (s : Bytes)
    → ((c : ℕ) → test c ≡ true → weaker c ≡ true)
    → all_bytes test s ≡ true
    → all_bytes weaker s ≡ true
unfolding all_bytes
all_bytes-weaken test weaker [] w h = refl
all_bytes-weaken test weaker (c ∷ s) w h = ground (arith, w c, all_bytes-weaken test weaker s w)

name-is_ascii : (c : ℕ) → is_name_byte c ≡ true → is_ascii c ≡ true
unfolding is_name_byte is_alphanumeric is_digit is_lower
name-is_ascii c h = ground arith

identifier-is_ascii :
    (limit : ℕ) (s : Bytes) → matches_identifier limit s ≡ true → all_bytes is_ascii s ≡ true
unfolding matches_identifier
identifier-is_ascii limit s h =
    all_bytes-weaken is_name_byte is_ascii s name-is_ascii (ground arith)

digits-is_ascii :
    (f n : ℕ) (rest : Bytes)
    → all_bytes is_ascii rest ≡ true
    → all_bytes is_ascii (digits f n rest) ≡ true
unfolding digits all_bytes
digits-is_ascii zero n rest h = h
digits-is_ascii (suc f) n rest h = ground (arith, digits-is_ascii f (n / 10) ((48 + n % 10) ∷ rest))

quote_byte-ascii : (c : ℕ) → is_ascii c ≡ true → (q : Bytes) × (quote_byte c ≡ some q)
unfolding quote_byte
quote_byte-ascii c h = elim (Option-cases (quote_byte c)) [
  | inl missing ↦ absurd (ground arith)
  | inr quoted ↦ quoted
]

quote_bytes-ascii :
    (s : Bytes) → all_bytes is_ascii s ≡ true → (qs : Bytes) × (quote_bytes s ≡ some qs)
unfolding quote_bytes all_bytes
quote_bytes-ascii [] h = ([], refl)
quote_bytes-ascii (c ∷ s) h =
    let (q, one) = quote_byte-ascii c (ground arith) in
    let (qs, more) = quote_bytes-ascii s (ground arith) in (q ++ qs, ground arith)

quote-ascii :
    (s : Bytes) → all_bytes is_ascii s ≡ true → (q : Bytes) × (quote_yaml_string s ≡ some q)
unfolding quote_yaml_string
quote-ascii s h =
    let (qs, quoted) = quote_bytes-ascii s h in (b'"' ∷ (qs ++ b'"' ∷ []), ground (arith, quoted))

-- A valid hostname is ASCII.
abbrev is_host_byte : ℕ → Bool
is_host_byte c = is_route_byte c || c == b'-' || c == b'.'

host_byte-is_ascii : (c : ℕ) → is_host_byte c ≡ true → is_ascii c ≡ true
unfolding is_route_byte is_digit is_lower
host_byte-is_ascii c h = ground arith

container_byte-is_ascii : (c : ℕ) → is_container_byte c ≡ true → is_ascii c ≡ true
unfolding is_container_byte is_alphanumeric is_digit is_lower
container_byte-is_ascii c h = ground arith

cut-all_bytes :
    (s : Bytes)
    → all_bytes (λ c. is_route_byte c || c == b'-') (cut b'.' s).0 ≡ true
    → all_labels is_route_byte (cut b'.' s).1 ≡ true
    → all_bytes is_host_byte s ≡ true
unfolding cut all_bytes all_labels valid_label
cut-all_bytes [] h k = refl
cut-all_bytes (c ∷ s) h k = ground (arith, cut-all_bytes s)

hostname-is_ascii : (s : Bytes) → valid_route_hostname s ≡ true → all_bytes is_ascii s ≡ true
unfolding valid_route_hostname split all_labels valid_label
hostname-is_ascii s h =
    all_bytes-weaken is_host_byte is_ascii s host_byte-is_ascii
      (cut-all_bytes s (ground arith) (ground arith))

bytes_eq→ : (s t : Bytes) → bytes_eq s t ≡ true → s ≡ t
bytes_eq→ s t h = ground arith

scheme-is_ascii : (s : Bytes) → valid_backend_scheme s ≡ true → all_bytes is_ascii s ≡ true
unfolding valid_backend_scheme all_bytes
scheme-is_ascii s h = elim (Bool-cases (bytes_eq s (bytes "http"))) [
  | inl same ↦ ap (all_bytes is_ascii) (bytes_eq→ s (bytes "http") same)
  | inr other ↦ ap (all_bytes is_ascii) (bytes_eq→ s (bytes "https") (ground arith))
]

container_name-ascii :
    (id name : Bytes) → container_name id ≡ some name → all_bytes is_ascii name ≡ true
unfolding container_name
container_name-ascii id name h =
    all_bytes-weaken is_container_byte is_ascii name container_byte-is_ascii (ground arith)

abbrev AllAscii : List (Bytes × Bytes) → Type 0
AllAscii [] = Unit
AllAscii (p ∷ ps) = (all_bytes is_ascii p.0 ≡ true) × AllAscii ps

fill-ascii : (ps : List (Bytes × Bytes)) → AllAscii ps → (doc : Bytes) × (fill ps ≡ some doc)
unfolding fill
fill-ascii [] v = ([], refl)
fill-ascii ((value, text) ∷ ps) (h, v) =
    let (q, quoted) = quote-ascii value h in
    let (doc, filled) = fill-ascii ps v in (q ++ text ++ doc, ground (arith, quoted, filled))

both-ascii :
    (s t : Bytes)
    → all_bytes is_ascii s ≡ true
    → all_bytes is_ascii t ≡ true
    → all_bytes is_ascii (s ++ t) ≡ true
both-ascii s t h k = all_bytes-append is_ascii s t ∙ cc (h, k)

-- What validation shows of the values.
record HasAsciiParts (r : EnvironmentRoute) (name : Bytes) : Type 0 where
  environment_id : all_bytes is_ascii r.environment_id ≡ true
  hostname : all_bytes is_ascii r.hostname ≡ true
  entrypoint_name : all_bytes is_ascii r.entrypoint_name ≡ true
  cert_resolver_name : all_bytes is_ascii r.cert_resolver_name ≡ true
  backend : container_name r.backend_runtime_instance_id ≡ some name
  scheme : all_bytes is_ascii r.backend_scheme ≡ true
  release_id : all_bytes is_ascii r.release_id ≡ true
  fence_id : all_bytes is_ascii r.fence_id ≡ true

validate-HasAsciiParts :
    (r : EnvironmentRoute) → validate r ≡ true → (name : Bytes) × HasAsciiParts r name
unfolding validate
validate-HasAsciiParts r h = elim (Option-cases (container_name r.backend_runtime_instance_id)) [
  | inl missing ↦ absurd (ground arith)
  | inr (name, found) ↦ (
    name,
    record {
      environment_id = identifier-is_ascii 128 r.environment_id (ground arith);
      hostname = hostname-is_ascii r.hostname (ground arith);
      entrypoint_name = identifier-is_ascii 63 r.entrypoint_name (ground arith);
      cert_resolver_name = identifier-is_ascii 63 r.cert_resolver_name (ground arith);
      backend = found;
      scheme = scheme-is_ascii r.backend_scheme (ground arith);
      release_id = identifier-is_ascii 128 r.release_id (ground arith);
      fence_id = identifier-is_ascii 128 r.fence_id (ground arith);
    },
  )
]

abbrev url_of : EnvironmentRoute → Bytes → Bytes
url_of r name = r.backend_scheme ++ bytes "://" ++ name ++ bytes ":" ++ append_int r.backend_port []

service-ascii :
    (r : EnvironmentRoute) (name : Bytes)
    → HasAsciiParts r name
    → all_bytes is_ascii (service_name r) ≡ true
unfolding all_bytes
service-ascii r name v =
    let head = bytes "autodeploy-svc-" ++ r.environment_id in
    both-ascii (head ++ bytes "-" ++ r.release_id ++ bytes "-") r.fence_id
      (both-ascii (head ++ bytes "-" ++ r.release_id) (bytes "-")
        (both-ascii (head ++ bytes "-") r.release_id
          (both-ascii head (bytes "-") v.environment_id refl) v.release_id)
        refl)
      v.fence_id

url-ascii :
    (r : EnvironmentRoute) (name : Bytes)
    → HasAsciiParts r name
    → all_bytes is_ascii (url_of r name) ≡ true
unfolding all_bytes append_int
url-ascii r name v =
    let head = r.backend_scheme ++ bytes "://" in
    both-ascii (head ++ name ++ bytes ":") (append_int r.backend_port [])
      (both-ascii (head ++ name) (bytes ":")
        (both-ascii head name (both-ascii r.backend_scheme (bytes "://") v.scheme refl)
          (container_name-ascii r.backend_runtime_instance_id name v.backend))
        refl)
      (digits-is_ascii (suc r.backend_port) r.backend_port [] refl)

parts-ascii :
    (r : EnvironmentRoute) (name : Bytes)
    → HasAsciiParts r name
    → AllAscii (document_parts r (router_name r) (service_name r) (url_of r name))
unfolding all_bytes
parts-ascii r name v = (
  v.environment_id,
  (
    both-ascii r.hostname (bytes "`)") v.hostname refl,
    (
      v.entrypoint_name,
      (
        service-ascii r name v,
        (v.cert_resolver_name, (service-ascii r name v, (url-ascii r name v, tt))),
      ),
    ),
  ),
)

render_of :
    (sum256 : Bytes → Bytes) (r : EnvironmentRoute) (name doc : Bytes)
    → validate r ≡ true
    → container_name r.backend_runtime_instance_id ≡ some name
    → fill (document_parts r (router_name r) (service_name r) (url_of r name)) ≡ some doc
    → render sum256 r ≡ some (document_head r ++ doc, digest sum256 (document_head r ++ doc))
unfolding render render_document backend_server_url
render_of sum256 r name doc valid found filled = ground (arith, valid, found, filled)

-- A route is rendered exactly if it validates: the quoting and the name of the backend never fail
-- after the validation. The digest is that of the rendered document.
pub render_iff :
    (sum256 : Bytes → Bytes) (r : EnvironmentRoute)
    → ((doc : Bytes) × (render sum256 r ≡ some (doc, digest sum256 doc))) ↔ (validate r ≡ true)
unfolding render
render_iff sum256 r = (
  λ (doc, h). elim (Bool-cases (validate r)) [
    | inl valid ↦ valid
    | inr invalid ↦ absurd (ground arith)
  ],
  λ valid.
      let (name, v) = validate-HasAsciiParts r valid in
      let (doc, filled) =
        fill-ascii (document_parts r (router_name r) (service_name r) (url_of r name))
          (parts-ascii r name v) in
      (document_head r ++ doc, render_of sum256 r name doc valid v.backend filled),
)
