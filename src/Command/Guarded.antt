-- ===== src/Command/Guarded.antt =====
-- What hako-cmd may change (sources/command/src/hako_cmd.cpp, with runtime_probe.cpp and runtime_recovery.cpp).
use hakoniwa_core_pro.Base.{
  ◌≡◌, ◌≢◌, ◌⊎◌, inl, inr, refl, sym, subst, arith, true, false, not, Option, none, some, List, [],
  ◌∷◌, Name, name_eq, if_cases, maybe_cases, maybe,
}
use hakoniwa_core_pro.RuntimeError.{Attempt, returns, throws, crashes}
use hakoniwa_core_pro.Lifecycle.{State, then_on}
use hakoniwa_core_pro.Polling.{find}
use hakoniwa_core_pro.Probe.{RuntimeProbeStatus, running, probe_runtime}
use hakoniwa_core_pro.Recovery.{recover_runtime_files}
use hakoniwa_core_pro.Recovery.Files.{Result, known}
use hakoniwa_core_pro.Recovery.Removal.{Removes}
use hakoniwa_core_pro.Recovery.Safety.{IsSafe, recover_runtime_files-Recovers}
use hakoniwa_core_pro.Command.{
  Command, jmeta, is_jmeta, check_name, recover_name, command_map, lines, Bytes,
}
use hakoniwa_core_pro.Command.Handlers.{Reply, reply, handle, do_jmeta, parse}
use hakoniwa_core_pro.Command.Main.{
  MainPort, Options, Ended, is_running, main, dispatch, do_recover, run_command, call, finish,
  leave, catch_code,
}

is_jmeta_sound : (c : Command) → is_jmeta c ≡ true → c ≡ jmeta
is_jmeta_sound jmeta e = refl
is_jmeta_sound c e = cc

module _ {W : Type 0} (port : MainPort W) where
  -- The status that the probe finds.
  abbrev pub probed : W → RuntimeProbeStatus
  probed w =
      (probe_runtime port.layout port.minimum_data_size port.master_file_name
        (port.system w)).status

  -- The name of the command is one of command_map, but not one of those that need no runtime.
  pub record NeedsRuntime (args : List Name) (w : W) : Type 0 where
    pub name : Name
    pub command : Command
    pub rest : List Name
    pub given : args ≡ name ∷ rest
    pub no_check : name_eq name check_name ≡ false
    pub no_recover : name_eq name recover_name ≡ false
    pub found : find name_eq name command_map ≡ some command
    pub no_jmeta : command ≢ jmeta
    pub runs : probed w ≡ running

  -- The command is `recover`, it was safe to remove the files, and files of the runtime are all that it removed.
  pub record RecoversOnly (args : List Name) (s t : State port.core) : Type 0 where
    pub name : Name
    pub rest : List Name
    pub given : args ≡ name ∷ rest
    pub is_recover : name_eq name recover_name ≡ true
    pub safe : IsSafe port.layout (port.runtime s.1)
    pub process : t.0 ≡ s.0
    pub result : Result
    pub removes : Removes port.remove_file (known (port.runtime s.1).entries) s.1 t.1 result

  abbrev pub Guards : List Name → State port.core → State port.core × Ended → Type 0
  Guards args s r = (r.0 ≡ s) ⊎ NeedsRuntime args s.1 ⊎ RecoversOnly args s r.0

  pub is_running_sound : (status : RuntimeProbeStatus) → is_running status ≡ true → status ≡ running
  is_running_sound RuntimeProbeStatus.running e = refl
  is_running_sound RuntimeProbeStatus.config_not_found e = cc
  is_running_sound RuntimeProbeStatus.unsupported_shared_memory e = cc
  is_running_sound RuntimeProbeStatus.master_memory_not_found e = cc
  is_running_sound RuntimeProbeStatus.invalid_master_memory e = cc
  is_running_sound RuntimeProbeStatus.master_not_running e = cc
  is_running_sound RuntimeProbeStatus.system_error e = cc

  finish_detached :
      (s : State port.core) (answer : Attempt Reply) → (finish port false s answer).0 ≡ s
  unfolding finish leave
  finish_detached s (returns (code, shown)) = refl
  finish_detached s (throws x) =
      maybe_cases (λ (r : State port.core × Ended). r.0 ≡ s) (catch_code port x s.1) (λ e. refl)
        (λ code e. refl)
  finish_detached s crashes = refl

  jmeta_reads : (args : List Name) (s : State port.core) → (call port false jmeta args s).0 ≡ s
  unfolding call handle do_jmeta
  jmeta_reads args (p, w) = by_content (parse port.control w)
    where
      by_content :
          (content : Attempt Bytes)
          → let (w', answer) =
              then_on (w, content) (λ bytes. reply 0 (lines (port.control.dump_json bytes ∷ []))) in
            (finish port false (p, w') answer).0 ≡ (p, w)
      by_content (returns bytes) = finish_detached (p, w) _
      by_content (throws x) = finish_detached (p, w) (throws x)
      by_content crashes = finish_detached (p, w) crashes

  run_command-Guards :
      (name : Name) (command : Command) (args : List Name) (s : State port.core)
      → name_eq name check_name ≡ false
      → name_eq name recover_name ≡ false
      → find name_eq name command_map ≡ some command
      → Guards (name ∷ args) s (run_command port command args s)
  unfolding run_command
  run_command-Guards name command args s no_check no_recover found =
      if_cases (Guards (name ∷ args) s) (is_jmeta command)
        (λ e. inl (
          subst (λ c. (call port false c args s).0 ≡ s) (sym (is_jmeta_sound command e))
            (jmeta_reads args s)))
        (λ e.
          if_cases (Guards (name ∷ args) s) (not (is_running (probed s.1))) (λ down. inl refl)
            (λ up. inr (
              inl (record {
                name = name;
                command = command;
                rest = args;
                given = refl;
                no_check = no_check;
                no_recover = no_recover;
                found = found;
                no_jmeta = λ j. cc;
                runs = is_running_sound (probed s.1) (ground (arith, up));
              }))))

  do_recover-Guards :
      (name : Name) (args : List Name) (s : State port.core)
      → name_eq name recover_name ≡ true
      → Guards (name ∷ args) s (do_recover port s)
  unfolding do_recover
  do_recover-Guards name args (p, w) is_recover =
      elim (recover_runtime_files-Recovers port.layout port.remove_file (port.runtime w) w) [
        | inl refused ↦ inl (rw refused refl)
        | inr (safe, removes) ↦ inr (
            inr (record {
              name = name;
              rest = args;
              given = refl;
              is_recover = is_recover;
              safe = safe;
              process = refl;
              result = (recover_runtime_files port.layout port.remove_file (port.runtime w) w).1;
              removes = removes;
            }))
      ]

  dispatch-Guards :
      (options : Options) (args : List Name) (s : State port.core)
      → Guards args s (dispatch port options args s)
  unfolding dispatch
  dispatch-Guards options [] s = inl refl
  dispatch-Guards options (command ∷ args) s =
      if_cases (Guards (command ∷ args) s) (name_eq command check_name) (λ e. inl refl)
        (λ no_check.
          if_cases (Guards (command ∷ args) s) (name_eq command recover_name)
            (λ is_recover. do_recover-Guards command args s is_recover)
            (λ no_recover.
              maybe_cases (Guards (command ∷ args) s) (find name_eq command command_map)
                (λ e. inl refl)
                (λ c found. run_command-Guards command c args s no_check no_recover found)))

  -- The positional arguments, where cxxopts has parsed any.
  abbrev pub positional_of : Option Options → List Name
  positional_of options = maybe [] (λ o. o.positional) options

  -- Whatever its arguments are, hako-cmd changes nothing, neither the objects of its process nor the world, with two exceptions. Either the first argument
  -- names an entry of command_map other than `jmeta`, not `check` and not `recover`, and the probe finds the runtime running in the world
  -- before the command. Or the first argument is `recover`, it is safe to remove the files of the runtime, the objects of the process stay, and the world changes by the removal of known files only, in
  -- their order and up to the first failure.
  pub main-Guards :
      (options : Option Options) (s : State port.core)
      → Guards (positional_of options) s (main port options s)
  unfolding main
  main-Guards none s = inl refl
  main-Guards (some options) s =
      if_cases (Guards options.positional s) options.help (λ e. inl refl)
        (λ e.
          if_cases (Guards options.positional s) options.version (λ e. inl refl)
            (λ e. dispatch-Guards options options.positional s))
