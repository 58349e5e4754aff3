-- ===== src/Github.antt =====
-- internal/github: the validation of identifiers, branch refs and commit hashes (source.go).
-- A loop over a string's runes is one over its bytes: the tests accept every byte from 0x80 on, and
-- those are the bytes of the runes beyond ASCII.
use auto_deploy.Base.{
  ℕ, Bool, true, false, not, ◌&&◌, ◌||◌, List, [], ◌∷◌, ltb, leb, ◌==◌, if◌then◌else◌, Bytes,
  bytes_eq, length, Bytes-discrete,
}
use auto_deploy.Base.Strings.{
  bytes, in_range, valid_utf8, contains_byte, has_prefix, has_suffix, contains, drop, split,
  all_bytes,
}

unfoldable pub valid_opaque_id : Bytes → Bool
unfolding valid_utf8 contains_byte
valid_opaque_id value =
    ltb 0 (length value)
    && leb (length value) 128
    && valid_utf8 value
    && not (contains_byte value 0)

abbrev pub branch_prefix : Bytes
branch_prefix = bytes "refs/heads/"

unfoldable pub valid_part : Bytes → Bool
unfolding has_prefix has_suffix
valid_part part = not (
    leb (length part) 0
    || has_prefix part (bytes ".")
    || has_suffix part (bytes ".")
    || has_suffix part (bytes ".lock"))

unfoldable pub all_parts : List Bytes → Bool
unfolding valid_part
all_parts [] = true
all_parts (part ∷ parts) = valid_part part && all_parts parts

unfoldable pub valid_ref_byte : ℕ → Bool
unfolding contains_byte
valid_ref_byte c = not (leb c 0x20 || c == 0x7f || contains_byte (bytes "~^:?*[\\") c)

unfoldable pub valid_branch_ref : Bytes → Bool
unfolding has_prefix has_suffix contains all_parts all_bytes valid_ref_byte Bytes-discrete drop
    split
valid_branch_ref ref =
    if not (has_prefix ref branch_prefix)
      || leb (length ref) (length branch_prefix)
      || ltb 255 (length ref)
      || has_suffix ref (bytes "/")
      || contains ref (bytes "//")
      || contains ref (bytes "..")
      || contains ref (bytes "@{")
      || bytes_eq ref (bytes "@")
    then false
    else all_parts (split b'/' (drop (length branch_prefix) ref)) && all_bytes valid_ref_byte ref

unfoldable pub valid_sha_byte : ℕ → Bool
valid_sha_byte c = in_range b'0' b'9' c || in_range b'a' b'f' c

abbrev pub zero_sha : Bytes
zero_sha = bytes "0000000000000000000000000000000000000000"

unfoldable pub valid_commit_sha : Bytes → Bool
unfolding all_bytes valid_sha_byte Bytes-discrete
valid_commit_sha value =
    if not (length value == 40) || bytes_eq value zero_sha
    then false
    else all_bytes valid_sha_byte value
