-- ===== src/Agent/Index.antt =====
-- The index of the environments: what is read back of it, and what an addition leaves.
use auto_deploy.Base.{
  ◌≡◌, ◌≢◌, refl, ◌∙◌, true, ◌&&◌, ◌||◌, List, [], ◌∷◌, ◌++◌, none, some, Bytes, arith, inl, inr,
  ◌⊎◌, Bool-cases, Option-cases,
}
use auto_deploy.Base.Sorting.{bytes_ltb, insert_by, sort_by}
use auto_deploy.Base.Table.{exists_row}
use auto_deploy.Base.Order.{occurs, sort_by-occurs}
use auto_deploy.Github.{valid_opaque_id}
use auto_deploy.Agent.State.{
  content, unreadable, Directory, read_file, put, index_file_name, all_ids, collect, add_key, Json,
  IsLawful, file_suffix, load_index, has_any_fence_file, or_empty,
}
use auto_deploy.Agent.Directory.{read_file-put_self, read_file-put_other, has_any-put}

collect-occurs :
    (x : Bytes) (acc ids listed : List Bytes)
    → collect acc ids ≡ some listed
    → occurs x listed ≡ (occurs x acc || occurs x ids)
unfolding collect exists_row
collect-occurs x acc [] listed h = ground arith
collect-occurs x acc (id ∷ ids) listed h =
    ground (arith, collect-occurs x (add_key id acc) ids listed)

collect-all_ids :
    (acc ids listed : List Bytes)
    → collect acc ids ≡ some listed
    → all_ids acc ≡ true
    → all_ids listed ≡ true
unfolding collect all_ids
collect-all_ids acc [] listed h v = ground arith
collect-all_ids acc (id ∷ ids) listed h v =
    ground (arith, collect-all_ids (add_key id acc) ids listed)

collect_total :
    (acc ids : List Bytes)
    → all_ids ids ≡ true
    → (listed : List Bytes) × (collect acc ids ≡ some listed)
unfolding collect all_ids
collect_total acc [] v = (acc, refl)
collect_total acc (id ∷ ids) v =
    let (listed, e) = collect_total (add_key id acc) ids (ground arith) in (listed, ground arith)

insert_by-all_ids :
    (id : Bytes) (ids : List Bytes)
    → all_ids (insert_by bytes_ltb id ids) ≡ (valid_opaque_id id && all_ids ids)
unfolding insert_by all_ids
insert_by-all_ids id [] = refl
insert_by-all_ids id (x ∷ ids) = ground (arith, insert_by-all_ids id ids)

sort_by-all_ids : (ids : List Bytes) → all_ids (sort_by bytes_ltb ids) ≡ all_ids ids
unfolding sort_by all_ids
sort_by-all_ids [] = refl
sort_by-all_ids (id ∷ ids) =
    ground (arith, insert_by-all_ids id (sort_by bytes_ltb ids), sort_by-all_ids ids)

module _ (j : Json) where
  pub load_index-all_ids :
      (d : Directory) (listed : List Bytes) → load_index j d ≡ some listed → all_ids listed ≡ true
  unfolding load_index all_ids
  load_index-all_ids d listed h = elim (Option-cases (read_file d index_file_name)) [
    | inl e ↦ ground arith
    | inr (unreadable, e) ↦ absurd (ground arith)
    | inr (content b, e) ↦ elim (Option-cases (j.unmarshal_index b)) [
      | inl f ↦ absurd (ground arith)
      | inr (ids, f) ↦ collect-all_ids [] ids listed (ground arith) refl
    ]
  ]

  pub or_empty-all_ids : (d : Directory) → all_ids (or_empty (load_index j d)) ≡ true
  unfolding all_ids
  or_empty-all_ids d = elim (Option-cases (load_index j d)) [
    | inl e ↦ rw e
    | inr (listed, e) ↦ rw e (load_index-all_ids d listed e)
  ]

  -- A fence file that is written leaves a present index as it was read. Without one, everything is
  -- refused, unless the directory cannot be listed, and nothing was listed before.
  pub load_index-put_file :
      (d : Directory) (s n c : Bytes)
      → n ≡ s ++ file_suffix
      → n ≢ index_file_name
      → (load_index j (put n c d) ≡ load_index j d)
        ⊎ ((load_index j (put n c d) ≡ none) × (or_empty (load_index j d) ≡ []))
  unfolding load_index has_any_fence_file
  load_index-put_file d s n c e h = elim (Bool-cases d.listable) [
    | inl l ↦ ground (arith, read_file-put_other d n index_file_name c h, has_any-put s n c d e h)
    | inr l ↦ ground (arith, read_file-put_other d n index_file_name c h)
  ]

  module _ (lawful : IsLawful j) where
    -- The index that is written is read back as the set that was written.
    pub load_index-put_index :
        (d : Directory) (ids : List Bytes)
        → all_ids ids ≡ true
        → (listed : List Bytes) × (load_index j
              (put index_file_name (j.marshal_index (sort_by bytes_ltb ids)) d)
            ≡ some listed)
          × ((x : Bytes) → occurs x listed ≡ occurs x ids)
    unfolding load_index exists_row
    load_index-put_index d ids v =
        let sorted = sort_by bytes_ltb ids in
        let (listed, e) = collect_total [] sorted (sort_by-all_ids ids ∙ v) in
        (
          listed,
          ground (
            arith,
            read_file-put_self d index_file_name (j.marshal_index sorted),
            lawful.index_round sorted (sort_by-all_ids ids ∙ v),
            e,
          ),
          λ x. collect-occurs x [] sorted listed e ∙ sort_by-occurs x ids,
        )
