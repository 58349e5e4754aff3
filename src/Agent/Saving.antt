-- ===== src/Agent/Saving.antt =====
-- The directories that a Save of internal/agent/state/state.go may leave, and what Load answers in each.
use mathlib.Core.Path.{subst}
use auto_deploy.Base.{
  ◌≡◌, ◌≢◌, sym, ap, ◌∙◌, Bool, true, false, not, List, [], ◌∷◌, ◌++◌, none, some, ltb,
  if◌then◌else◌, Bytes, bytes_eq_refl, length, arith, inl, inr, ◌⊎◌, Bool-cases, Option-cases, ok,
  err,
}
use auto_deploy.Base.Sorting.{bytes_ltb, sort_by}
use auto_deploy.Base.Table.{exists_row}
use auto_deploy.Base.Order.{occurs}
use auto_deploy.Github.{valid_opaque_id}
use auto_deploy.Agent.State.{
  corrupt, invalid, Fence, Directory, read_file, put, name_max, index_file_name, file_suffix, path,
  encode_name, all_ids, Json, IsLawful, load_index, load_file, load, valid, or_empty, save,
  add_to_index, WriteRun, write_file_atomic,
}
use auto_deploy.Agent.Names.{path-injective, path-ne-index}
use auto_deploy.Agent.Directory.{read_file-put_self, read_file-put_other, write_file_atomic_lem}
use auto_deploy.Agent.Index.{load_index-put_file, load_index-put_index, or_empty-all_ids}

path_suffix : (e name : Bytes) → path e ≡ some name → name ≡ encode_name e ++ file_suffix
unfolding path
path_suffix e name h = ground arith

path-valid : (e name : Bytes) → path e ≡ some name → valid_opaque_id e ≡ true
unfolding path
path-valid e name h = ground arith

module _ (j : Json) where
  pub load_trusted :
      (d : Directory) (e name : Bytes) (listed : List Bytes)
      → path e ≡ some name
      → load_index j d ≡ some listed
      → load j d e ≡ load_file j e (occurs e listed) (read_file d name)
  unfolding load
  load_trusted d e name listed p h = ground arith

  pub load_refused :
      (d : Directory) (e name : Bytes)
      → path e ≡ some name
      → load_index j d ≡ none
      → load j d e ≡ err corrupt
  unfolding load
  load_refused d e name p h = ground arith

  pub load_invalid : (d : Directory) (e : Bytes) → path e ≡ none → load j d e ≡ err invalid
  unfolding load
  load_invalid d e p = ground arith

  -- An environment whose state was loaded has a trusted index.
  pub load-trusted :
      (d : Directory) (e : Bytes) (r : Fence × Bool)
      → load j d e ≡ ok r
      → (listed : List Bytes) × (load_index j d ≡ some listed)
  unfolding load
  load-trusted d e r h = elim (Option-cases (path e)) [
    | inl n ↦ absurd (cc (load_invalid d e n))
    | inr (name, p) ↦ elim (Option-cases (load_index j d)) [
      | inl n ↦ absurd (cc (load_refused d e name p n))
      | inr (listed, l) ↦ (listed, l)
    ]
  ]

  module _ (d : Directory) (f : Fence) where
    abbrev pub filed : Bytes → Directory
    filed name = put name (j.marshal_fence f) d

    abbrev pub relisted : Bytes → List Bytes
    relisted name = f.environment_id ∷ or_empty (load_index j (filed name))

    abbrev pub indexed : Bytes → Directory
    indexed name =
        put index_file_name (j.marshal_index (sort_by bytes_ltb (relisted name))) (filed name)

    -- What the directory is after the file was written.
    abbrev pub Rest : Bytes → Directory × Bool → Type 0
    Rest name r =
        ((r.0 ≡ filed name)
          × (r.1 ≡ true → occurs f.environment_id (or_empty (load_index j (filed name))) ≡ true))
        ⊎ (r.0 ≡ indexed name)

    add_to_index_lem :
        (v : WriteRun) (name : Bytes) → Rest name (add_to_index j v (filed name) f.environment_id)
    unfolding add_to_index
    add_to_index_lem v name =
        let listed = or_empty (load_index j (filed name)) in
        elim (Bool-cases (occurs f.environment_id listed)) [
          | inl h ↦ inl (rw h, λ _. h)
          | inr h ↦
              let contents = j.marshal_index (sort_by bytes_ltb (relisted name)) in
              elim (write_file_atomic_lem v (filed name) index_file_name contents) [
                | inl k ↦ inl (rw (h, k), λ b. absurd (cc (rw (h, k) at b)))
                | inr k ↦ inr (rw h k.0)
              ]
        ]

    abbrev pub Filed : Directory × Bool → Type 0
    Filed r =
        (name : Bytes) × (valid f ≡ true)
        × (path f.environment_id ≡ some name)
        × (ltb name_max (length name) ≡ false)
        × Rest name r

    after_file :
        (v : WriteRun) (name : Bytes) (saved : Directory × Bool)
        → saved.0 ≡ filed name
        → Rest name (if not saved.1 then saved else add_to_index j v saved.0 f.environment_id)
    after_file v name (_, false) e = inl (e, λ b. absurd (cc b))
    after_file v name (_, true) e =
        subst (λ x. Rest name (add_to_index j v x f.environment_id)) (sym e)
          (add_to_index_lem v name)

    save_of_valid :
        (w v : WriteRun) (name : Bytes)
        → valid f ≡ true
        → path f.environment_id ≡ some name
        → save j w v d f ≡ (
            let saved = write_file_atomic w d name (j.marshal_fence f) in
            if not saved.1 then saved else add_to_index j v saved.0 f.environment_id)
    unfolding save
    save_of_valid w v name g p = ground arith

    pub save_cases : (w v : WriteRun) → (save j w v d f ≡ (d, false)) ⊎ Filed (save j w v d f)
    unfolding save
    save_cases w v = elim (Bool-cases (valid f)) [
      | inr i ↦ inl (rw i)
      | inl g ↦ elim (Option-cases (path f.environment_id)) [
        | inl n ↦ inl (rw (g, n))
        | inr (name, p) ↦ elim (write_file_atomic_lem w d name (j.marshal_fence f)) [
          | inl k ↦ inl (rw (g, p, k))
          | inr k ↦ inr (
            name,
            g,
            p,
            k.1,
            subst (Rest name) (sym (save_of_valid w v name g p)) (after_file v name _ k.0),
          )
        ]
      ]
    ]

    -- The environment of the fence, after each way that a Save may end.
    pub load-filed_self :
        (name : Bytes)
        → valid f ≡ true
        → path f.environment_id ≡ some name
        → ltb name_max (length name) ≡ false
        → IsLawful j
        → (load j (filed name) f.environment_id ≡ ok (f, true))
          ⊎ ((load j (filed name) f.environment_id ≡ err corrupt)
              × (occurs f.environment_id (or_empty (load_index j (filed name))) ≡ false))
    unfolding load_file exists_row
    load-filed_self name g p short lawful = elim (Option-cases (load_index j (filed name))) [
      | inl n ↦ inr (load_refused (filed name) f.environment_id name p n, rw n)
      | inr (listed, l) ↦ elim (Bool-cases (occurs f.environment_id listed)) [
        | inl here ↦ inl (
            ground (
              arith,
              load_trusted (filed name) f.environment_id name listed p l,
              read_file-put_self d name (j.marshal_fence f) short,
              lawful.fence_round f g,
              bytes_eq_refl f.environment_id,
            ))
        | inr gone ↦ inr (
          ground (
            arith,
            load_trusted (filed name) f.environment_id name listed p l,
            read_file-put_self d name (j.marshal_fence f) short,
          ),
          rw l gone,
        )
      ]
    ]

    pub load-indexed_self :
        (name : Bytes)
        → valid f ≡ true
        → path f.environment_id ≡ some name
        → ltb name_max (length name) ≡ false
        → IsLawful j
        → load j (indexed name) f.environment_id ≡ ok (f, true)
    unfolding load_file exists_row all_ids
    load-indexed_self name g p short lawful =
        let (listed, l, same) =
          load_index-put_index j lawful (filed name) (relisted name)
            (ground (arith, path-valid f.environment_id name p, or_empty-all_ids j (filed name))) in
        ground (
          arith,
          load_trusted (indexed name) f.environment_id name listed p l,
          same f.environment_id,
          read_file-put_other (filed name) index_file_name name
              (j.marshal_index (sort_by bytes_ltb (relisted name)))
              (λ e. path-ne-index f.environment_id name p (sym e)),
          read_file-put_self d name (j.marshal_fence f) short,
          lawful.fence_round f g,
          bytes_eq_refl f.environment_id,
        )

    -- Another environment, where the index was trusted before.
    module _ (e other : Bytes) (ne : e ≢ f.environment_id) (q : path e ≡ some other) where
      name-ne-other : (name : Bytes) → path f.environment_id ≡ some name → name ≢ other
      name-ne-other name p h =
          ne (path-injective e f.environment_id other q (p ∙ ap (λ n. some n) h))

      pub load-filed_other :
          (name : Bytes) (listed : List Bytes)
          → path f.environment_id ≡ some name
          → load_index j d ≡ some listed
          → (load j (filed name) e ≡ load j d e)
            ⊎ ((load j (filed name) e ≡ err corrupt) × (load_index j (filed name) ≡ none))
      load-filed_other name listed p l =
          elim (load_index-put_file j d (encode_name f.environment_id) name (j.marshal_fence f)
            (path_suffix f.environment_id name p) (path-ne-index f.environment_id name p)) [
              | inl same ↦ inl (
                  load_trusted (filed name) e other listed q (same ∙ l)
                  ∙ ap (load_file j e (occurs e listed))
                      (read_file-put_other d name other (j.marshal_fence f) (name-ne-other name p))
                  ∙ sym (load_trusted d e other listed q l))
              | inr lost ↦ inr (load_refused (filed name) e other q lost.0, lost.0)
            ]

      relisted-occurs :
          (name : Bytes) (listed : List Bytes)
          → path f.environment_id ≡ some name
          → load_index j d ≡ some listed
          → occurs e (relisted name) ≡ occurs e listed
      unfolding exists_row
      relisted-occurs name listed p l =
          elim (load_index-put_file j d (encode_name f.environment_id) name (j.marshal_fence f)
            (path_suffix f.environment_id name p) (path-ne-index f.environment_id name p)) [
              | inl same ↦ rw (same, l) (ground (arith, ne))
              | inr lost ↦
                  let empty : listed ≡ [] = ap or_empty (sym l) ∙ lost.1 in
                  rw (lost.0, empty) (ground (arith, ne))
            ]

      pub load-indexed_other :
          (name : Bytes) (listed : List Bytes)
          → path f.environment_id ≡ some name
          → load_index j d ≡ some listed
          → IsLawful j
          → load j (indexed name) e ≡ load j d e
      unfolding all_ids
      load-indexed_other name listed p l lawful =
          let (listed', l', same) =
            load_index-put_index j lawful (filed name) (relisted name) (
              ground
                (arith, path-valid f.environment_id name p, or_empty-all_ids j (filed name))) in
          load_trusted (indexed name) e other listed' q l'
          ∙ ap (λ b. load_file j e b (read_file (indexed name) other))
              (same e ∙ relisted-occurs name listed p l)
          ∙ ap (load_file j e (occurs e listed)) (
              read_file-put_other (filed name) index_file_name other
                (j.marshal_index (sort_by bytes_ltb (relisted name)))
                (λ h. path-ne-index e other q (sym h))
              ∙ read_file-put_other d name other (j.marshal_fence f) (name-ne-other name p))
          ∙ sym (load_trusted d e other listed q l)
