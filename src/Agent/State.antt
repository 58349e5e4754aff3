-- ===== src/Agent/State.antt =====
-- internal/agent/state/state.go: the store of the accepted fences, in a directory that may lose or
-- damage files. What encoding/json does is an argument.
use auto_deploy.Base.{
  ℕ, ◌≡◌, Bool, true, false, not, ◌&&◌, ◌||◌, List, [], ◌∷◌, ◌++◌, ◌/◌, ◌%◌, Option, none, some,
  ltb, leb, ◌==◌, if◌then◌else◌, Bytes, bytes_eq, length, Result, ok, err,
}
use auto_deploy.Base.Encoding.{ℤ, pos, negsuc}
use auto_deploy.Base.Strings.{bytes, in_range, has_suffix}
use auto_deploy.Base.Sorting.{bytes_ltb, sort_by}
use auto_deploy.Base.Table.{exists_row}
use auto_deploy.Base.Order.{occurs}
use auto_deploy.Github.{valid_opaque_id}
use auto_deploy.Traefik.{hex_lower}

pub data Error : Type 0 where
  invalid : Error
  corrupt : Error

-- The numbers are int64; the code compares them, and nothing else.
pub record Fence : Type 0 where
  pub environment_id : Bytes
  pub highest_accepted_fence : ℤ
  pub reconciliation_required : Bool

abbrev pub leb_int : ℤ → ℤ → Bool
leb_int (pos m) (pos n) = leb m n
leb_int (pos m) (negsuc n) = false
leb_int (negsuc m) (pos n) = true
leb_int (negsuc m) (negsuc n) = leb n m

unfoldable pub valid : Fence → Bool
valid f = valid_opaque_id f.environment_id && leb_int (pos 0) f.highest_accepted_fence

-- A file of the directory, and whether the directory can be listed. A name above the limit of the
-- file system is neither read nor created. A temporary file is written and read under no name that
-- the store looks up, so that it is left out.
pub data File : Type 0 where
  content : Bytes → File
  unreadable : File

pub record Directory : Type 0 where
  pub entries : List (Bytes × File)
  pub listable : Bool

abbrev pub name_max : ℕ
name_max = 255

unfoldable pub lookup : Bytes → List (Bytes × File) → Option File
lookup name [] = none
lookup name ((n, f) ∷ es) = if bytes_eq n name then some f else lookup name es

unfoldable pub insert : Bytes → File → List (Bytes × File) → List (Bytes × File)
insert name f [] = (name, f) ∷ []
insert name f ((n, g) ∷ es) = if bytes_eq n name then (name, f) ∷ es else (n, g) ∷ insert name f es

-- `os.ReadFile`
unfoldable pub read_file : Directory → Bytes → Option File
unfolding lookup
read_file d name = if ltb name_max (length name) then some unreadable else lookup name d.entries

abbrev pub put : Bytes → Bytes → Directory → Directory
put name contents d = record d { entries = insert name (content contents) d.entries }

unfoldable pub is_safe_byte : ℕ → Bool
is_safe_byte c =
    in_range b'a' b'z' c || in_range b'A' b'Z' c || in_range b'0' b'9' c || c == b'-' || c == b'_'

unfoldable pub encode_byte : ℕ → Bytes
unfolding is_safe_byte hex_lower
encode_byte c =
    if is_safe_byte c then c ∷ [] else b'%' ∷ hex_lower (c / 16) ∷ hex_lower (c % 16) ∷ []

unfoldable pub encode_name : Bytes → Bytes
unfolding encode_byte
encode_name [] = []
encode_name (c ∷ s) = encode_byte c ++ encode_name s

abbrev pub index_file_name : Bytes
index_file_name = bytes ".fence-index.json"

abbrev pub file_suffix : Bytes
file_suffix = bytes ".json"

unfoldable pub path : Bytes → Option Bytes
unfolding encode_name valid_opaque_id
path environment_id =
    if not (valid_opaque_id environment_id)
    then none
    else some (encode_name environment_id ++ file_suffix)

unfoldable pub is_fence_file : Bytes → Bool
unfolding has_suffix
is_fence_file name = has_suffix name file_suffix && not (bytes_eq name index_file_name)

unfoldable pub any_fence_file : List (Bytes × File) → Bool
unfolding is_fence_file
any_fence_file [] = false
any_fence_file ((n, f) ∷ es) = is_fence_file n || any_fence_file es

-- `filepath.Glob` returns no names, and no error, of a directory that cannot be listed.
unfoldable pub has_any_fence_file : Directory → Bool
unfolding any_fence_file
has_any_fence_file d = d.listable && any_fence_file d.entries

-- Whether each step of an atomic write succeeds. A crash is a write whose next step fails, after
-- which nothing else is done.
pub record WriteRun : Type 0 where
  pub created : Bool
  pub written : Bool
  pub synced : Bool
  pub closed : Bool
  pub renamed : Bool
  pub opened : Bool
  pub directory_synced : Bool

-- The directory that is left, and whether the write returned no error.
unfoldable pub write_file_atomic : WriteRun → Directory → Bytes → Bytes → Directory × Bool
write_file_atomic w d name contents =
    if not w.created
    then (d, false)
    else if not w.written
    then (d, false)
    else if not w.synced
    then (d, false)
    else if not w.closed
    then (d, false)
    else if not w.renamed || ltb name_max (length name)
    then (d, false)
    else if not w.opened
    then (put name contents d, false)
    else (put name contents d, w.directory_synced)

-- `encoding/json` on the two structures of the package. Decoding may fail.
pub record Json : Type 0 where
  pub marshal_fence : Fence → Bytes
  pub unmarshal_fence : Bytes → Option Fence
  pub marshal_index : List Bytes → Bytes
  pub unmarshal_index : Bytes → Option (List Bytes)

unfoldable pub all_ids : List Bytes → Bool
all_ids [] = true
all_ids (id ∷ ids) = valid_opaque_id id && all_ids ids

-- What is marshalled is unmarshalled to the same value. A valid identifier is valid UTF-8, which a
-- JSON string keeps.
pub record IsLawful (j : Json) : Type 0 where
  pub fence_round : (f : Fence) → valid f ≡ true → j.unmarshal_fence (j.marshal_fence f) ≡ some f
  pub index_round :
      (ids : List Bytes) → all_ids ids ≡ true → j.unmarshal_index (j.marshal_index ids) ≡ some ids

-- A map from strings to true is the list of its keys.
abbrev pub add_key : Bytes → List Bytes → List Bytes
add_key id listed = if occurs id listed then listed else id ∷ listed

unfoldable pub collect : List Bytes → List Bytes → Option (List Bytes)
unfolding exists_row
collect listed [] = some listed
collect listed (id ∷ ids) =
    let rest = collect (add_key id listed) ids in if not (valid_opaque_id id) then none else rest

abbrev pub zero_fence : Bytes → Fence
zero_fence environment_id = record {
  environment_id = environment_id;
  highest_accepted_fence = pos 0;
  reconciliation_required = false;
}

abbrev pub or_empty : Option (List Bytes) → List Bytes
or_empty none = []
or_empty (some listed) = listed

module _ (j : Json) where
  -- `none` where nothing of the directory may be trusted.
  unfoldable pub load_index : Directory → Option (List Bytes)
  load_index d = elim (read_file d index_file_name) [
    | none ↦ if has_any_fence_file d then none else some []
    | some unreadable ↦ none
    | some (content b) ↦ elim (j.unmarshal_index b) [ none ↦ none | some ids ↦ collect [] ids ]
  ]

  -- After the index was read: whether the environment is listed, and its file.
  unfoldable pub load_file : Bytes → Bool → Option File → Result Error (Fence × Bool)
  load_file environment_id listed none =
      if listed then err corrupt else ok (zero_fence environment_id, false)
  load_file environment_id listed (some unreadable) = err corrupt
  load_file environment_id false (some (content b)) = err corrupt
  load_file environment_id true (some (content b)) = elim (j.unmarshal_fence b) [
    | none ↦ err corrupt
    | some f ↦
        if not (valid f) || not (bytes_eq f.environment_id environment_id)
        then err corrupt
        else ok (f, true)
  ]

  unfoldable pub load : Directory → Bytes → Result Error (Fence × Bool)
  load d environment_id = elim (path environment_id) [
    | none ↦ err invalid
    | some name ↦ elim (load_index d) [
      | none ↦ err corrupt
      | some listed ↦ load_file environment_id (occurs environment_id listed) (read_file d name)
    ]
  ]

  unfoldable pub add_to_index : WriteRun → Directory → Bytes → Directory × Bool
  add_to_index w d environment_id =
      let listed = or_empty (load_index d) in
      if occurs environment_id listed
      then (d, true)
      else write_file_atomic w d index_file_name
          (j.marshal_index (sort_by bytes_ltb (environment_id ∷ listed)))

  -- The runs are those of the two writes.
  unfoldable pub save : WriteRun → WriteRun → Directory → Fence → Directory × Bool
  save w v d f = if not (valid f) then (d, false) else elim (path f.environment_id) [
    | none ↦ (d, false)
    | some name ↦
        let saved = write_file_atomic w d name (j.marshal_fence f) in
        if not saved.1 then saved else add_to_index v saved.0 f.environment_id
  ]
