-- ===== src/Agent/Tests.antt =====
-- Runs at concrete inputs: the store of fences and the acceptance of leases.
use auto_deploy.Base.{
  Result, ℕ_discrete, ◌≡◌, ◌≢◌, refl, Bool, true, false, not, ◌&&◌, ◌||◌, [], ◌∷◌, ◌⊎◌, some, Bytes,
  ok, err, Bytes-discrete,
}
use auto_deploy.Base.Encoding.{pos}
use auto_deploy.Base.Strings.{bytes}
use auto_deploy.Base.Sorting.{bytes_ltb, insert_by, sort_by}
use auto_deploy.Base.Strings.{has_prefix, has_suffix}
use auto_deploy.Base.Table.{exists_row}
use auto_deploy.Github.{valid_opaque_id}
use auto_deploy.Agent.State.{
  Error, Fence, Directory, load, save, WriteRun, load_index, load_file, path, encode_name, valid,
  read_file, lookup, insert, write_file_atomic, add_to_index, collect, has_any_fence_file,
  any_fence_file, is_fence_file, corrupt, zero_fence, leb_int,
}
use auto_deploy.Agent.Leases.{
  Lease, tick, stale_lease, accept, run_lease, loop, mark_reconciliation_required,
}
use auto_deploy.Agent.Accepting.{undisturbed, accept_iff}
use auto_deploy.Agent.Crashes.{Kept, load-save, load-save_done}
use auto_deploy.Agent.Runs.{Run, runs}
use auto_deploy.Agent.Acting.{accept-increases, marked-refused}
use auto_deploy.Agent.Samples.{
  format, format-IsLawful, read_fence, write_ids, read_parts, read_flag,
}

abbrev directory : Directory
directory = record { entries = []; listable = true }

abbrev lease : Lease
lease = record { environment_id = bytes "env/1"; attempt_id = 5; fence = pos 7 }

abbrev fence : Fence
fence = record {
  environment_id = bytes "env/1";
  highest_accepted_fence = pos 7;
  reconciliation_required = false;
}

-- What is loaded after a Save; a test that unfolds it runs the store and the acceptance of leases.
load_back : Directory → Fence → Result Error (Fence × Bool)
unfolding load save path load_index read_file lookup insert has_any_fence_file any_fence_file
    is_fence_file has_suffix has_prefix load_file exists_row valid valid_opaque_id write_file_atomic
    add_to_index sort_by insert_by bytes_ltb Bytes-discrete ℕ_discrete collect read_fence read_parts
    write_ids read_flag accept run_lease loop mark_reconciliation_required runs encode_name
load_back d f = load format (save format undisturbed undisturbed d f).0 f.environment_id

name_of_env : path (bytes "env/1") ≡ some (bytes "env%2f1.json")
unfolding load_back
name_of_env = refl

first_load : load format directory (bytes "env/1") ≡ ok (zero_fence (bytes "env/1"), false)
unfolding load_back
first_load = refl

-- A crash between the two writes.
abbrev crashed : WriteRun
crashed = record undisturbed { created = false }

after_crash :
    load format (save format undisturbed crashed directory fence).0 (bytes "env/1") ≡ err corrupt
unfolding load_back
after_crash = refl

load-save_example :
    Kept format directory (save format undisturbed crashed directory fence).0 (bytes "env/2")
    ⊎ ((bytes "env/2" ≡ bytes "env/1")
        × (load format (save format undisturbed crashed directory fence).0 (bytes "env/2")
            ≡ ok (fence, true)))
load-save_example =
    load-save format undisturbed crashed directory fence (zero_fence (bytes "env/1"), false)
      (bytes "env/2") format-IsLawful first_load

saved : (save format undisturbed undisturbed directory fence).1 ≡ true
unfolding load_back
saved = refl

abbrev stored : Directory
stored = (save format undisturbed undisturbed directory fence).0

load-save_done_example :
    (load format stored (bytes "env/1") ≡ ok (fence, true))
    × ((e : Bytes) → e ≢ bytes "env/1" → load format stored e ≡ load format directory e)
load-save_done_example =
    load-save_done format undisturbed undisturbed directory fence
      (zero_fence (bytes "env/1"), false) format-IsLawful first_load saved

accepted : (accept format undisturbed undisturbed directory lease).1 ≡ true
unfolding load_back
accepted = refl

-- A run whose fence is written, and whose agent then crashes before it acts.
abbrev crashing : Run
crashing = record {
  file_run = record undisturbed { directory_synced = false };
  index_run = undisturbed;
  mark_file_run = undisturbed;
  mark_index_run = undisturbed;
  lease = record lease { fence = pos 8 };
  events = [];
}

abbrev later_lease : Lease
later_lease = record lease { fence = pos 9 }

accepted_later :
    (accept format undisturbed undisturbed
      (runs format (crashing ∷ []) (accept format undisturbed undisturbed directory lease).0)
      later_lease).1
    ≡ true
unfolding load_back
accepted_later = refl

accept-increases_example : leb_int (pos 9) (pos 7) ≡ false
accept-increases_example =
    accept-increases format undisturbed undisturbed undisturbed undisturbed directory lease
      later_lease (crashing ∷ []) format-IsLawful refl accepted accepted_later

-- The directory after a lost lease.
abbrev marked_fence : Fence
marked_fence = record fence { reconciliation_required = true }

abbrev marked_directory : Directory
marked_directory = (save format undisturbed undisturbed directory marked_fence).0

marked_load : load format marked_directory (bytes "env/1") ≡ ok (marked_fence, true)
unfolding load_back
marked_load = refl

marked-refused_example :
    (accept format undisturbed undisturbed
      (runs format (crashing ∷ []) marked_directory)
      later_lease).1
    ≡ false
marked-refused_example =
    marked-refused format undisturbed undisturbed marked_directory marked_fence later_lease
      (crashing ∷ []) format-IsLawful marked_load refl

accept_iff_example :
    (accept format undisturbed undisturbed marked_directory later_lease).1
    ≡ (not true || (not true && not (leb_int (pos 9) (pos 7))))
accept_iff_example =
    accept_iff format marked_directory later_lease (bytes "env%2f1.json") marked_fence true
      name_of_env refl refl marked_load

-- The loop gives the lease up where it is stale, and records it.
lost_lease :
    (run_lease format undisturbed undisturbed undisturbed undisturbed directory lease
      (tick stale_lease ∷ [])).1
    ≡ marked_directory
unfolding load_back
lost_lease = refl
