-- ===== src/Tests/Recoveries.antt =====
-- The removal of a runtime's files after its processes have ended
-- (sources/command/src/runtime_recovery.cpp).
use hakoniwa_core_pro.Base.{
  ℕ, suc, ◌≡◌, refl, Bool, true, false, Option, none, some, List, [], ◌∷◌, ◌==◌, if◌then◌else◌,
  Name, pos, name_eq,
}
use hakoniwa_core_pro.Recovery.{
  Layout, MasterFile, Runtime, ok, unlocked, other_cause, alive, dead, recover_runtime_files,
  read_runtime_pids, add_assets, insert_pid, all_dead, all_regular,
}
use hakoniwa_core_pro.Recovery.Files.{
  refusal, flock_bin, pdu_init_lock, remove_known_runtime_files, recovered, known, is_known,
  ordered, insert, is_flock, name_lt, remove_files, is_mmap_name, hex_bin, after_prefix,
}
use hakoniwa_core_pro.Recovery.Removal.{Removes, remove_known_runtime_files-Removes}
use hakoniwa_core_pro.Recovery.Safety.{Recovers, recover_runtime_files-Recovers}
use hakoniwa_core_pro.Probe.{
  System, delivered, mmap, probe_runtime, probe_config, probe_file, probe_master, process_status,
}
use hakoniwa_core_pro.Probe.Agree.{running_not_recovered}

-- "mmap-0xff.bin"
abbrev pub mmap_0xff : Name
mmap_0xff = 109 ∷ 109 ∷ 97 ∷ 112 ∷ 45 ∷ 48 ∷ 120 ∷ 102 ∷ 102 ∷ 46 ∷ 98 ∷ 105 ∷ 110 ∷ []

abbrev pub notes : Name
notes = 110 ∷ 111 ∷ 116 ∷ 101 ∷ []

abbrev pub files : List (Name × Bool)
files = (flock_bin, true) ∷ (notes, false) ∷ (pdu_init_lock, true) ∷ (mmap_0xff, true) ∷ []

-- A file system that counts what it removes and refuses one file.
abbrev pub remove_but : Name → Name → ℕ → ℕ × Option Name
remove_but kept path n = if name_eq path kept then (n, some []) else (suc n, none)

abbrev pub layout : Layout
layout = record { header = 16; master_data = 100; magic = 7; version = 2; max_assets = 16 }

abbrev pub stopped : Runtime
stopped = record {
  config_is_valid = true;
  root_is_directory = true;
  entries = files;
  listing_failed = false;
  flock_exists = true;
  lock = record {
    health = ok;
    state = unlocked;
    unknown_cause = other_cause;
    owner_pid = pos 0;
    owner_start_token = 0;
  };
  master_file = some (record {
    readable = true;
    size = 116;
    magic = 7;
    version = 2;
    data_size = 100;
    master_pid = pos 40;
    asset_num = 2;
    asset_pid = λ i. pos (if i == 0 then 41 else 40);
  });
  probe_process = λ pid. dead;
}

abbrev running : Runtime
running = record stopped { probe_process = λ pid. if pid == 41 then alive else dead }

removes_in_order : (recover_runtime_files layout (remove_but notes) stopped 0).1 ≡ record {
  status = recovered;
  removed = mmap_0xff ∷ pdu_init_lock ∷ flock_bin ∷ [];
  remaining = [];
  failures = [];
}
unfolding recover_runtime_files read_runtime_pids add_assets insert_pid all_dead all_regular known
    is_known is_mmap_name hex_bin after_prefix remove_known_runtime_files remove_files ordered
    insert is_flock name_lt name_eq
removes_in_order = refl

removes_nothing : (recover_runtime_files layout (remove_but notes) running 0).0 ≡ 0
unfolding recover_runtime_files read_runtime_pids add_assets insert_pid all_dead all_regular known
    is_known is_mmap_name hex_bin after_prefix name_eq
removes_nothing = refl

remove_known_runtime_files-Removes_example :
    let (w', r) = remove_known_runtime_files (remove_but pdu_init_lock) files 0 in
    Removes (remove_but pdu_init_lock) files 0 w' r
remove_known_runtime_files-Removes_example =
    remove_known_runtime_files-Removes (remove_but pdu_init_lock) files 0

recover_runtime_files-Recovers_example :
    Recovers layout
      (remove_but notes)
      stopped
      0
      (recover_runtime_files layout (remove_but notes) stopped 0)
recover_runtime_files-Recovers_example =
    recover_runtime_files-Recovers layout (remove_but notes) stopped 0

-- A system in which the master's process is there.
abbrev pub master_file : MasterFile
master_file = record {
  readable = true;
  size = 116;
  magic = 7;
  version = 2;
  data_size = 100;
  master_pid = pos 40;
  asset_num = 0;
  asset_pid = λ i. pos 0;
}

abbrev pub system : System
system = record {
  config = some (some (record { shm_type = some mmap; core_mmap_path = some notes }));
  open_file = λ path.
      some
        (record { has_size = true; reads_metadata = true; reads_pid = true; file = master_file });
  kill = λ pid. delivered;
}

running_not_recovered_example :
    recover_runtime_files layout
      (remove_but notes)
      (record stopped {
        master_file = some master_file;
        probe_process = λ n. process_status system.kill (pos n);
      })
      0
    ≡ (0, refusal)
unfolding probe_runtime probe_config probe_file probe_master process_status name_eq
running_not_recovered_example =
    running_not_recovered layout 8 mmap_0xff system (remove_but notes)
      (record stopped {
        master_file = some master_file;
        probe_process = λ n. process_status system.kill (pos n);
      })
      0 refl refl refl
