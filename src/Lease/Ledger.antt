-- ===== src/Lease/Ledger.antt =====
-- The summary of a blocked operation as the ledger of its late reports.
use auto_deploy.Base.{
  ℕ, zero, suc, ◌+◌, ◌≤◌, ◌<◌, ◌≡◌, refl, sym, ap, ◌∙◌, Bool, true, false, inl, inr, [], ◌∷◌, ◌++◌,
  leb, Bytes, bytes_eq, length, length-append, arith, Bool-cases,
}
use auto_deploy.Base.Strings.{bytes, contains, has_prefix, take}
use auto_deploy.Base.Texts.{
  append_assoc, has_prefix-append, has_prefix-longer, contains-append, length-take, take-append,
}
use auto_deploy.Lease.Evidence.{
  rune_start, byte_at, cut_at, truncate_on_rune_boundary, sanitize_bounded_text, late_report_marker,
  late_report_marker_prefix, late_report_separator, max_outcome_summary_bytes, entry_of, room_of,
  append_late_evidence, appended, replayed, is_original_block_replay,
}

cut_at-le : (s : Bytes) (n : ℕ) → cut_at s n ≤ n
unfolding cut_at
cut_at-le s zero = omega arith
cut_at-le s (suc n) = elim (Bool-cases (rune_start (byte_at s (suc n)))) [
  | inl start ↦ ground arith
  | inr inside ↦ ground (arith, cut_at-le s n)
]

-- The cut does not go back past a place where a rune starts.
cut_at-ge : (s : Bytes) (k n : ℕ) → k ≤ n → rune_start (byte_at s k) ≡ true → k ≤ cut_at s n
unfolding cut_at
cut_at-ge s k zero h start = omega arith
cut_at-ge s k (suc n) h start = elim (Bool-cases (rune_start (byte_at s (suc n)))) [
  | inl there ↦ ground arith
  | inr inside ↦ elim (Bool-cases (leb k n)) [
    | inl below ↦ ground (arith, cut_at-ge s k n)
    | inr top ↦
        let same : k ≡ suc n = ground arith in
        absurd (cc (ap (λ i. rune_start (byte_at s i)) same, start, inside))
  ]
]

byte_at-append : (p : Bytes) (c : ℕ) (s : Bytes) → byte_at (p ++ c ∷ s) (length p) ≡ c
unfolding byte_at
byte_at-append [] c s = refl
byte_at-append (d ∷ p) c s = byte_at-append p c s

length-truncate : (s : Bytes) (m : ℕ) → length (truncate_on_rune_boundary s m) ≤ m
unfolding truncate_on_rune_boundary
length-truncate s m = ground (arith, length-take (cut_at s m) s, cut_at-le s m)

truncate_short : (s : Bytes) (m : ℕ) → length s ≤ m → truncate_on_rune_boundary s m ≡ s
unfolding truncate_on_rune_boundary
truncate_short [] m h = ground arith
truncate_short (c ∷ s) m h = ground arith

truncate_long :
    (s : Bytes) (m : ℕ)
    → leb m 0 ≡ false
    → leb (length s) m ≡ false
    → truncate_on_rune_boundary s m ≡ take (cut_at s m) s
unfolding truncate_on_rune_boundary
truncate_long s m h k = ground arith

append_nil : (s : Bytes) → s ≡ s ++ []
append_nil [] = refl
append_nil (c ∷ s) = ap (λ r. c ∷ r) (append_nil s)

truncate_empty : (s : Bytes) → truncate_on_rune_boundary s 0 ≡ []
unfolding truncate_on_rune_boundary
truncate_empty s = refl

nil_of_length : (p : Bytes) → length p ≤ 0 → p ≡ []
nil_of_length [] h = refl
nil_of_length (c ∷ p) h = absurd (omega arith)

-- A cut behind a part that ends where a rune starts keeps the part.
truncate-append :
    (p : Bytes) (c : ℕ) (s : Bytes) (room : ℕ)
    → rune_start c ≡ true
    → length p ≤ room
    → (t : Bytes) × (truncate_on_rune_boundary (p ++ c ∷ s) room ≡ p ++ t)
truncate-append p c s zero start h =
    ([], ground (arith, truncate_empty (p ++ c ∷ s), nil_of_length p h))
truncate-append p c s (suc n) start h = elim (Bool-cases (leb (length (p ++ c ∷ s)) (suc n))) [
  | inl fits ↦ (c ∷ s, truncate_short (p ++ c ∷ s) (suc n) (ground arith))
  | inr long ↦
      let kept : length p ≤ cut_at (p ++ c ∷ s) (suc n) =
        cut_at-ge (p ++ c ∷ s) (length p) (suc n) h
          (ap rune_start (byte_at-append p c s) ∙ start) in
      let (t, e) = take-append (cut_at (p ++ c ∷ s) (suc n)) p (c ∷ s) kept in
      (t, truncate_long (p ++ c ∷ s) (suc n) (ground arith) long ∙ e)
]

-- A cut behind the marker of an entry keeps the marker.
truncate-entry :
    (marker body : Bytes) (room : ℕ)
    → length marker ≤ room
    → (t : Bytes) × (truncate_on_rune_boundary (entry_of marker body) room ≡ marker ++ t)
truncate-entry marker [] room h = ([], truncate_short marker room h ∙ append_nil marker)
truncate-entry marker (c ∷ body) room h = truncate-append marker b' ' (c ∷ body) room refl h

room_lem :
    (existing : Bytes) (success : Bool)
    → 0 < room_of existing success
    → length existing + 3 + room_of existing success ≤ 2048
room_lem existing true h = omega arith
room_lem existing false h = omega arith

-- What an append that was made leaves: the old summary, a separator, the marker of the report.
appended_lem :
    (clean : Bytes → Bytes) (existing fingerprint body : Bytes) (success : Bool) (updated : Bytes)
    → append_late_evidence clean existing fingerprint body success ≡ (updated, appended)
    → (t : Bytes) × (updated
        ≡ existing ++ (late_report_separator ++ (late_report_marker fingerprint ++ t)))
      × (length updated ≤ max_outcome_summary_bytes)
unfolding append_late_evidence
appended_lem clean existing fingerprint body success updated h =
    let marker = late_report_marker fingerprint in
    let room = room_of existing success in
    let cleaned = sanitize_bounded_text clean body max_outcome_summary_bytes in
    let entry = truncate_on_rune_boundary (entry_of marker cleaned) room in
    let fits : length marker ≤ room = ground arith in
    let (t, e) = truncate-entry marker cleaned room fits in
    let same : updated ≡ existing ++ (late_report_separator ++ entry) = ground arith in
    (
      t,
      same ∙ ap (λ r. existing ++ (late_report_separator ++ r)) e,
      ground (
        arith,
        ap length same,
        length-append existing (late_report_separator ++ entry),
        length-append late_report_separator entry,
        length-truncate (entry_of marker cleaned) room,
        room_lem existing success,
        fits,
      ),
    )

abbrev rest_of_marker : Bytes → Bytes
rest_of_marker fingerprint = bytes "ate report #" ++ (fingerprint ++ bytes ":")

marker_found :
    (existing fingerprint t : Bytes)
    → contains
        (existing ++ (late_report_separator ++ (late_report_marker fingerprint ++ t)))
        (late_report_marker fingerprint)
      ≡ true
marker_found existing fingerprint t =
    ap (λ s. contains s (late_report_marker fingerprint))
      (sym (append_assoc existing late_report_separator (late_report_marker fingerprint ++ t)))
    ∙ contains-append (existing ++ late_report_separator) b'l' (rest_of_marker fingerprint) t

append_late_evidence_found :
    (clean : Bytes → Bytes) (existing fingerprint body : Bytes) (success : Bool)
    → contains existing (late_report_marker fingerprint) ≡ true
    → append_late_evidence clean existing fingerprint body success ≡ (existing, replayed)
unfolding append_late_evidence
append_late_evidence_found clean existing fingerprint body success h = rw h

after_original :
    (f fingerprint t : Bytes)
    → has_prefix
        (f ++ (late_report_separator ++ (late_report_marker fingerprint ++ t)))
        (f ++ (late_report_separator ++ late_report_marker_prefix))
      ≡ true
after_original f fingerprint t =
    ap (λ s. has_prefix s (f ++ (late_report_separator ++ late_report_marker_prefix)))
      (sym (
        append_assoc f (late_report_separator ++ late_report_marker_prefix)
          ((fingerprint ++ bytes ":") ++ t)))
    ∙ has_prefix-append (f ++ (late_report_separator ++ late_report_marker_prefix))
        ((fingerprint ++ bytes ":") ++ t)

original-longer :
    (existing t fingerprint f : Bytes)
    → is_original_block_replay existing f ≡ true
    → is_original_block_replay
        (existing ++ (late_report_separator ++ (late_report_marker fingerprint ++ t)))
        f
      ≡ true
unfolding is_original_block_replay
original-longer existing t fingerprint f h =
    let begin = f ++ (late_report_separator ++ late_report_marker_prefix) in
    let longer = existing ++ (late_report_separator ++ (late_report_marker fingerprint ++ t)) in
    let begins : has_prefix longer begin ≡ true = elim (Bool-cases (bytes_eq existing f)) [
      | inl same ↦
          let e : existing ≡ f = ground arith in
          ap
            (λ s.
              has_prefix (s ++ (late_report_separator ++ (late_report_marker fingerprint ++ t)))
                begin)
            e
          ∙ after_original f fingerprint t
      | inr other ↦
          has_prefix-longer existing
            (late_report_separator ++ (late_report_marker fingerprint ++ t)) begin (ground arith)
    ] in
    ground (arith, begins)

-- A late report is recorded at most once, and loses nothing: where its evidence was appended, the
-- summary has at most 2048 bytes and begins with the old one, the same report again finds its entry
-- and changes nothing, whatever was appended in between, and a replay of the report that made the
-- block is recognised as before.
pub append_late_evidence_lem :
    (clean : Bytes → Bytes) (existing fingerprint body : Bytes) (success : Bool) (updated : Bytes)
    → append_late_evidence clean existing fingerprint body success ≡ (updated, appended)
    → (length updated ≤ max_outcome_summary_bytes)
      × (has_prefix updated existing ≡ true)
      × ((more : Bytes)
          → append_late_evidence clean (updated ++ more) fingerprint body success
            ≡ (updated ++ more, replayed))
      × ((f : Bytes)
          → is_original_block_replay existing f ≡ true
          → is_original_block_replay updated f ≡ true)
append_late_evidence_lem clean existing fingerprint body success updated h =
    let (t, e, bound) = appended_lem clean existing fingerprint body success updated h in
    (
      bound,
      ap (λ s. has_prefix s existing) e ∙ has_prefix-append existing _,
      λ more. append_late_evidence_found clean (updated ++ more) fingerprint body success (
          ap (λ s. contains (s ++ more) (late_report_marker fingerprint)) e
          ∙ ap (λ s. contains s (late_report_marker fingerprint))
              (append_assoc existing
                  (late_report_separator ++ (late_report_marker fingerprint ++ t)) more
                ∙ ap (λ r. existing ++ (late_report_separator ++ r))
                    (append_assoc (late_report_marker fingerprint) t more))
          ∙ marker_found existing fingerprint (t ++ more)),
      λ f o. ap (λ s. is_original_block_replay s f) e ∙ original-longer existing t fingerprint f o,
    )
