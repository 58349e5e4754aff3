-- ===== src/Lease/Evidence.antt =====
-- The texts that record what an agent reported of an activation: the summaries of
-- internal/store/postgres/agent_lease_repository.go and the late reports of activation_late_report.go.
-- The cleaning of a text by the packages strings and unicode, and SHA-256, are arguments.
use auto_deploy.Base.{
  ℕ, zero, suc, ◌-◌, Bool, true, false, ◌||◌, [], ◌∷◌, ◌++◌, leb, ltb, if◌then◌else◌, Bytes,
  bytes_eq, length, is_empty,
}
use auto_deploy.Base.Strings.{bytes, contains, has_prefix, take}
use auto_deploy.Traefik.{hex_encode}

abbrev pub max_activation_failure_summary_bytes : ℕ
max_activation_failure_summary_bytes = 512

abbrev pub max_outcome_summary_bytes : ℕ
max_outcome_summary_bytes = 2048

abbrev pub late_success_reserve : ℕ
late_success_reserve = 512

-- `utf8.RuneStart`
abbrev pub rune_start : ℕ → Bool
rune_start c = ltb c 0x80 || leb 0xc0 c

-- `s[i]`
unfoldable pub byte_at : Bytes → ℕ → ℕ
byte_at [] i = 0
byte_at (c ∷ s) zero = c
byte_at (c ∷ s) (suc i) = byte_at s i

-- The loop that moves the cut to the start of a rune.
unfoldable pub cut_at : Bytes → ℕ → ℕ
unfolding byte_at
cut_at s zero = 0
cut_at s (suc n) = elim (rune_start (byte_at s (suc n))) [ true ↦ suc n | false ↦ cut_at s n ]

unfoldable pub truncate_on_rune_boundary : Bytes → ℕ → Bytes
unfolding cut_at take
truncate_on_rune_boundary s max_bytes =
    if leb max_bytes 0
    then []
    else if leb (length s) max_bytes
    then s
    else take (cut_at s max_bytes) s

-- `clean` is ToValidUTF8, the replacement of control characters, and TrimSpace.
unfoldable pub sanitize_bounded_text : (Bytes → Bytes) → Bytes → ℕ → Bytes
sanitize_bounded_text clean summary max_bytes = truncate_on_rune_boundary (clean summary) max_bytes

abbrev pub sanitize_outcome_summary : (Bytes → Bytes) → Bytes → Bytes
sanitize_outcome_summary clean summary =
    sanitize_bounded_text clean summary max_activation_failure_summary_bytes

abbrev pub empty_failure_summary : Bytes
empty_failure_summary = bytes "activation failure reported without detail"

unfoldable pub failure_outcome_summary : (Bytes → Bytes) → Bytes → Bytes
failure_outcome_summary clean raw =
    let summary = sanitize_outcome_summary clean raw in
    if is_empty summary then empty_failure_summary else summary

pub record ActivationReport : Type 0 where
  pub succeeded : Bool
  pub digest_matches : Bool
  pub observed_route_digest : Bytes
  pub failure_summary : Bytes

unfoldable pub late_report_fingerprint : (Bytes → Bytes) → ActivationReport → Bytes
late_report_fingerprint sum256 r = hex_encode (
    take 8 (
      sum256 (
        if r.succeeded
        then bytes "success" ++ 0 ∷ r.observed_route_digest
        else bytes "failure" ++ 0 ∷ r.failure_summary)))

abbrev pub late_report_separator : Bytes
late_report_separator = bytes " | "

abbrev pub late_report_marker_prefix : Bytes
late_report_marker_prefix = bytes "late report #"

abbrev pub late_report_marker : Bytes → Bytes
late_report_marker fingerprint = late_report_marker_prefix ++ (fingerprint ++ bytes ":")

unfoldable pub is_original_block_replay : Bytes → Bytes → Bool
is_original_block_replay existing failure_summary =
    bytes_eq existing failure_summary
    || has_prefix existing (failure_summary ++ (late_report_separator ++ late_report_marker_prefix))

pub data LateEvidence : Type 0 where
  appended replayed no_room : LateEvidence

abbrev pub format_bool : Bool → Bytes
format_bool true = bytes "true"
format_bool false = bytes "false"

unfoldable pub late_body : ActivationReport → Bytes
late_body r =
    if r.succeeded
    then bytes
        "agent reported success after the activation was blocked; matches authorized digest: "
      ++ (format_bool r.digest_matches
          ++ (bytes "; observed route digest sha256:" ++ hex_encode r.observed_route_digest))
    else bytes "agent reported failure after the activation was blocked: " ++ r.failure_summary

abbrev pub entry_of : Bytes → Bytes → Bytes
entry_of marker body = if is_empty body then marker else marker ++ b' ' ∷ body

-- What of the column an entry may use. A room below 0 is read as 0: the marker is not empty.
abbrev pub room_of : Bytes → Bool → ℕ
room_of existing success =
    let room = max_outcome_summary_bytes - length existing - length late_report_separator in
    if success then room else room - late_success_reserve

unfoldable pub append_late_evidence :
    (Bytes → Bytes) → Bytes → Bytes → Bytes → Bool → Bytes × LateEvidence
append_late_evidence clean existing fingerprint body success =
    let marker = late_report_marker fingerprint in
    let room = room_of existing success in
    let entry = entry_of marker (sanitize_bounded_text clean body max_outcome_summary_bytes) in
    if contains existing marker
    then (existing, replayed)
    else if ltb room (length marker)
    then (existing, no_room)
    else (existing ++ (late_report_separator ++ truncate_on_rune_boundary entry room), appended)
