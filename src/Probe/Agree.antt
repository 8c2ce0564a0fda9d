-- ===== src/Probe/Agree.antt =====
-- The probe of a runtime (sources/command/src/runtime_probe.cpp) and its recovery
-- (sources/command/src/runtime_recovery.cpp) on one state of the system.
use hakoniwa_core_pro.Base.{
  ℕ, zero, suc, ℤ, pos, negsuc, ◌≡◌, refl, arith, false, not, Option, none, some, ◌++◌, maybe,
  maybe_cases, if_cases, Name, name_eq, inl, inr, subst, ap, ◌∙◌,
}
use hakoniwa_core_pro.Recovery.{
  Layout, MasterFile, ProcessProbeStatus, alive, dead, unknown_process, is_dead, Runtime,
  recover_runtime_files,
}
use hakoniwa_core_pro.Recovery.Files.{refusal}
use hakoniwa_core_pro.Recovery.Safety.{IsGone, IsCurrent, recover_runtime_files-Recovers}
use hakoniwa_core_pro.Probe.{
  running, RuntimeProbeResult, Kill, process_status, ProbeFile, System, mmap, probe_master,
  probe_file, probe_config, probe_runtime,
}

-- A file of the current layout whose master is alive.
pub record IsLive (c : Layout) (system : System) (f : MasterFile) : Type 0 where
  pub current : IsCurrent c f
  pub up : process_status system.kill f.master_pid ≡ alive

probe_master-running :
    (s : ProcessProbeStatus) (path : Name) (pid : ℤ)
    → (probe_master s path pid).status ≡ running
    → s ≡ alive
unfolding probe_master
probe_master-running alive path pid h = refl
probe_master-running dead path pid h = cc
probe_master-running unknown_process path pid h = cc

live-not_gone :
    (kill : ℕ → Kill) (pid : ℤ)
    → process_status kill pid ≡ alive
    → IsGone (λ n. process_status kill (pos n)) pid
    → ⊥
unfolding process_status
live-not_gone kill (negsuc n) up gone = cc
live-not_gone kill (pos zero) up gone = cc
live-not_gone kill (pos (suc n)) up gone = cc (ap is_dead up, gone)

module _ (c : Layout) (minimum_data_size : ℕ) (file_name : Name) (system : System) where
  probe_file-IsLive :
      (path : Name) (p : ProbeFile)
      → (probe_file c minimum_data_size file_name system path p).status ≡ running
      → IsLive c system p.file
  unfolding probe_file
  probe_file-IsLive path p h = record {
    current = (ground (arith, h), ground (arith, h));
    up = ground (
      arith,
      h,
      probe_master-running (process_status system.kill p.file.master_pid) path p.file.master_pid,
    );
  }

  probe_master-path :
      (s : ProcessProbeStatus) (path : Name) (pid : ℤ)
      → (probe_master s path pid).master_memory_path ≡ path
  unfolding probe_master
  probe_master-path alive path pid = refl
  probe_master-path dead path pid = refl
  probe_master-path unknown_process path pid = refl

  probe_file-path :
      (path : Name) (p : ProbeFile)
      → (probe_file c minimum_data_size file_name system path p).master_memory_path ≡ path
  unfolding probe_file
  probe_file-path path p = ground (
    arith,
    probe_master-path (process_status system.kill p.file.master_pid) path p.file.master_pid,
  )

  -- What a probe that finds a running master has read.
  record HasFile (result : RuntimeProbeResult) : Type 0 where
    pub probed : ProbeFile
    pub opened : system.open_file result.master_memory_path ≡ some probed
    pub live : IsLive c system probed.file

  record Found (result : RuntimeProbeResult) : Type 0 where
    pub found : result.status ≡ running → HasFile result

  probe_runtime-Found : Found (probe_runtime c minimum_data_size file_name system)
  unfolding probe_runtime probe_config
  probe_runtime-Found =
      maybe_cases Found system.config (λ e. record { found = λ h. cc })
        λ read e.
          maybe_cases Found read (λ e. record { found = λ h. cc })
            λ config e.
              if_cases Found (not (maybe false (λ type. name_eq type mmap) config.shm_type))
                (λ e. record { found = λ h. cc })
                λ e.
                  maybe_cases Found config.core_mmap_path (λ e. record { found = λ h. cc })
                    λ directory e.
                      maybe_cases Found (system.open_file (directory ++ file_name))
                        (λ e. record { found = λ h. cc })
                        λ p opened. record {
                          found = λ h. record {
                            probed = p;
                            opened = rw (probe_file-path (directory ++ file_name) p) opened;
                            live = probe_file-IsLive (directory ++ file_name) p h;
                          };
                        }

  -- If the probe finds the runtime running, then recover_runtime_files, on the same master's file and the same processes, refuses, and removes nothing,
  -- whatever else it finds.
  pub running_not_recovered :
      {W : Type 0} (remove_file : Name → W → W × Option Name) (r : Runtime) (w : W)
      → let result = probe_runtime c minimum_data_size file_name system in
        result.status ≡ running
        → r.master_file ≡ maybe none (λ p. some p.file) (system.open_file result.master_memory_path)
        → r.probe_process ≡ (λ n. process_status system.kill (pos n))
        → recover_runtime_files c remove_file r w ≡ (w, refusal)
  running_not_recovered remove_file r w up same_file same_processes =
      let found = probe_runtime-Found.found up in
      let file : r.master_file ≡ some found.probed.file =
        same_file ∙ ap (λ o. maybe none (λ p. some p.file) o) found.opened in
      elim (recover_runtime_files-Recovers c remove_file r w) [
        | inl refused ↦ refused
        | inr (safe, removes) ↦ absurd (
            live-not_gone system.kill found.probed.file.master_pid found.live.up (
              subst (λ probe. IsGone probe found.probed.file.master_pid) same_processes
                (safe.master found.probed.file file found.live.current)))
      ]
