-- ===== src/Probe.antt =====
-- `hako-cmd` before it takes the master's lock: sources/command/src/runtime_probe.cpp, where WIN32 is not
-- defined. Messages are left out.
pub mod Agree
use hakoniwa_core_pro.Base.{
  ℕ, zero, suc, ◌+◌, ℤ, pos, negsuc, Bool, true, false, not, ◌&&◌, ◌||◌, Option, none, some, List,
  [], ◌∷◌, ◌++◌, ltb, ◌==◌, if◌then◌else◌, maybe, Name, name_eq,
}
use hakoniwa_core_pro.Recovery.{
  Layout, MasterFile, ProcessProbeStatus, alive, dead, unknown_process,
}

-- RuntimeProbeStatus
pub data RuntimeProbeStatus : Type 0 where
  running config_not_found unsupported_shared_memory master_memory_not_found : RuntimeProbeStatus
  invalid_master_memory master_not_running system_error : RuntimeProbeStatus

-- RuntimeProbeResult
pub record RuntimeProbeResult : Type 0 where
  pub status : RuntimeProbeStatus
  pub master_pid : ℤ
  pub master_memory_path : Name

-- What kill(pid, 0) comes to: 0, ESRCH, or another error.
pub data Kill : Type 0 where
  delivered no_such_process other_error : Kill

abbrev pub status_of_kill : Kill → ProcessProbeStatus
status_of_kill delivered = alive
status_of_kill no_such_process = dead
status_of_kill other_error = unknown_process

-- process_status, and probe_process
unfoldable pub process_status : (ℕ → Kill) → ℤ → ProcessProbeStatus
process_status kill (negsuc n) = dead
process_status kill (pos zero) = dead
process_status kill (pos (suc n)) = status_of_kill (kill (suc n))

-- The configuration, with a field `none` where it is missing or not a string.
pub record ProbeConfig : Type 0 where
  pub shm_type : Option Name
  pub core_mmap_path : Option Name

-- The master's file, with whether its size, its header and its pid can be read.
pub record ProbeFile : Type 0 where
  pub has_size : Bool
  pub reads_metadata : Bool
  pub reads_pid : Bool
  pub file : MasterFile

-- hako_config_load, with `none` where it throws; the files; and kill
pub record System : Type 0 where
  pub config : Option (Option ProbeConfig)
  pub open_file : Name → Option ProbeFile
  pub kill : ℕ → Kill

-- "mmap"
abbrev pub mmap : Name
mmap = b'm' ∷ b'm' ∷ b'a' ∷ b'p' ∷ []

abbrev pub make_result : RuntimeProbeStatus → Name → ℤ → RuntimeProbeResult
make_result status path pid = record {
  status = status;
  master_pid = pid;
  master_memory_path = path;
}

-- The end of probe_runtime: what the master's process says.
unfoldable pub probe_master : ProcessProbeStatus → Name → ℤ → RuntimeProbeResult
probe_master dead path pid = make_result master_not_running path pid
probe_master unknown_process path pid = make_result system_error path pid
probe_master alive path pid = make_result running path pid

-- What is fixed by hakoniwa-core-cpp, with the smallest data size that has a pid in it, and the name of the
-- file behind the directory.
module _ (c : Layout) (minimum_data_size : ℕ) (file_name : Name) (system : System) where
  -- probe_runtime from the opened file on
  unfoldable pub probe_file : Name → ProbeFile → RuntimeProbeResult
  probe_file path p =
      if not p.has_size || ltb p.file.size c.header
      then make_result invalid_master_memory path (pos 0)
      else if not p.reads_metadata
      then make_result system_error path (pos 0)
      else if not (p.file.magic == c.magic) || not (p.file.version == c.version)
      then make_result invalid_master_memory path (pos 0)
      else if ltb p.file.data_size minimum_data_size
          || ltb p.file.size (c.header + p.file.data_size)
      then make_result invalid_master_memory path (pos 0)
      else if not p.reads_pid
      then make_result system_error path (pos 0)
      else probe_master (process_status system.kill p.file.master_pid) path p.file.master_pid

  -- probe_runtime from the type of memory on
  unfoldable pub probe_config : ProbeConfig → RuntimeProbeResult
  probe_config config =
      if not (maybe false (λ type. name_eq type mmap) config.shm_type)
      then make_result unsupported_shared_memory [] (pos 0)
      else maybe (make_result config_not_found [] (pos 0))
          (λ directory.
            let path = directory ++ file_name in
            maybe (make_result master_memory_not_found path (pos 0)) (λ p. probe_file path p)
              (system.open_file path))
          config.core_mmap_path

  -- probe_runtime
  unfoldable pub probe_runtime : RuntimeProbeResult
  probe_runtime =
      maybe (make_result system_error [] (pos 0))
        (λ found. maybe (make_result config_not_found [] (pos 0)) probe_config found) system.config
