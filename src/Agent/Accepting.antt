-- ===== src/Agent/Accepting.antt =====
-- When the agent acts on a lease.
use auto_deploy.Base.{
  ◌≡◌, Bool, true, false, not, ◌&&◌, ◌||◌, ◌∷◌, some, ltb, Bytes, length, arith, ok,
}
use auto_deploy.Base.Encoding.{pos}
use auto_deploy.Base.Sorting.{bytes_ltb, sort_by}
use auto_deploy.Agent.State.{
  Fence, leb_int, valid, Directory, WriteRun, put, name_max, index_file_name, path, Json, load,
  save, write_file_atomic, add_to_index, load_index, or_empty,
}
use auto_deploy.Agent.Leases.{Lease, new_fence, accept}
use auto_deploy.Agent.Runs.{accept_loaded}

-- Every step of a write succeeds.
abbrev pub undisturbed : WriteRun
undisturbed = record {
  created = true;
  written = true;
  synced = true;
  closed = true;
  renamed = true;
  opened = true;
  directory_synced = true;
}

write_file_atomic_done :
    (d : Directory) (n c : Bytes)
    → ltb name_max (length n) ≡ false
    → write_file_atomic undisturbed d n c ≡ (put n c d, true)
unfolding write_file_atomic
write_file_atomic_done d n c h = ground arith

add_to_index_done :
    (j : Json) (d : Directory) (e : Bytes) → (add_to_index j undisturbed d e).1 ≡ true
unfolding add_to_index
add_to_index_done j d e = ground (
  arith,
  write_file_atomic_done d index_file_name
      (j.marshal_index (sort_by bytes_ltb (e ∷ or_empty (load_index j d)))),
)

save_done :
    (j : Json) (d : Directory) (f : Fence) (name : Bytes)
    → path f.environment_id ≡ some name
    → ltb name_max (length name) ≡ false
    → leb_int (pos 0) f.highest_accepted_fence ≡ true
    → (save j undisturbed undisturbed d f).1 ≡ true
unfolding save path valid
save_done j d f name p short h = ground (
  arith,
  write_file_atomic_done d name (j.marshal_fence f),
  add_to_index_done j (put name (j.marshal_fence f) d) f.environment_id,
)

-- Where the writes succeed, and the name of the file is not above the limit of the file system, the
-- agent acts on a lease of an environment that it loads exactly if the environment is new to it, or
-- awaits no reconciliation and the fence of the lease is above the stored one.
pub accept_iff :
    (j : Json) (d : Directory) (lease : Lease) (name : Bytes) (stored : Fence) (existed : Bool)
    → path lease.environment_id ≡ some name
    → ltb name_max (length name) ≡ false
    → leb_int (pos 0) lease.fence ≡ true
    → load j d lease.environment_id ≡ ok (stored, existed)
    → (accept j undisturbed undisturbed d lease).1 ≡ (
        not existed
        || (not stored.reconciliation_required
            && not (leb_int lease.fence stored.highest_accepted_fence)))
accept_iff j d lease name stored existed p short h l = ground (
  arith,
  accept_loaded j undisturbed undisturbed d lease (stored, existed) l,
  save_done j d (new_fence lease) name p short h,
)
