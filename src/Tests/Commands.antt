-- ===== src/Tests/Commands.antt =====
-- hako-cmd beside the runtime of Tests/Recoveries: sources/command/src/hako_cmd.cpp. The world is the number
-- of calls that the controller has had.
use hakoniwa_core_pro.Base.{
  ℕ, suc, ◌≡◌, ◌≤◌, ◌<◌, refl, arith, true, false, none, some, [], ◌∷◌, name_eq, pos,
}
use hakoniwa_core_pro.RuntimeError.{returns}
use hakoniwa_core_pro.Lifecycle.{
  CorePort, State, fresh_process, shm, uninitialized, load_core, make_pro_data,
  get_simevent_controller, destroy,
}
use hakoniwa_core_pro.Lifecycle.Ready.{loaded}
use hakoniwa_core_pro.Polling.{find}
use hakoniwa_core_pro.Probe.{probe_runtime, probe_config, probe_file, probe_master, process_status}
use hakoniwa_core_pro.Recovery.{ok}
use hakoniwa_core_pro.Service.{length}
use hakoniwa_core_pro.Command.{
  status, Bytes, nothing, lines, nth, stoi, skip_spaces, read_signed, read_unsigned, read_digits,
}
use hakoniwa_core_pro.Command.Handlers.{ControlPort, do_restore, handle, do_status}
use hakoniwa_core_pro.Command.Main.{
  MainPort, Options, main, dispatch, run_command, attached_call, call, finish, leave,
}
use hakoniwa_core_pro.Command.Guarded.{Guards, main-Guards}
use hakoniwa_core_pro.Command.Exits.{Served, exit_zero-Served}
use hakoniwa_core_pro.Command.Restored.{restore_writes}
use hakoniwa_core_pro.Tests.Processes.{core}
use hakoniwa_core_pro.Tests.Recoveries.{layout, stopped, system, remove_but, notes}

-- A controller that refuses to start, and whose simulation is running; channels have 4 bytes, and malloc
-- leaves 9s in a buffer.
abbrev control : ControlPort ℕ
control = record {
  start = λ w. (suc w, returns false);
  stop = λ w. (suc w, returns true);
  reset = λ w. (suc w, returns true);
  state = λ w. (w, returns 2);
  assets = λ w. (w, returns []);
  print_master_data = λ w. (w, returns tt);
  print_memory_log = λ w. (w, returns tt);
  pdu_size = λ channel w. (w, returns (some 4));
  read_pdu = λ channel n w. (w, returns (some (1 ∷ 2 ∷ 3 ∷ 4 ∷ [])));
  write_stdout = λ content w. true;
  write_pdu = λ channel content w. (suc w, returns true);
  get_pdu_channel = λ name channel w. (w, returns channel);
  malloc = λ n w. some (9 ∷ 9 ∷ 9 ∷ 9 ∷ []);
  read_file = λ name n w. some (1 ∷ 2 ∷ []);
  config = λ w. none;
  meta_size = 0;
  open_meta = λ directory w. none;
  dump_json = λ content. [];
}

-- The core of Tests/Processes for a process that is not the master.
abbrev beside_master : CorePort ℕ
beside_master = record core { is_master_process = λ w. false }

abbrev port : MainPort ℕ
port = record {
  core = beside_master;
  control = control;
  wait_error = λ x. none;
  interrupted = λ w. 0;
  inspect_master_lock = λ timeout_ms force_wait w. ok;
  layout = layout;
  minimum_data_size = 8;
  master_file_name = notes;
  system = λ w. system;
  runtime = λ w. stopped;
  remove_file = remove_but [];
}

abbrev status_options : Options
status_options = record {
  help = false;
  version = false;
  lock_timeout_ms = 3000;
  force_wait = false;
  positional = (b's' ∷ b't' ∷ b'a' ∷ b't' ∷ b'u' ∷ b's' ∷ []) ∷ [];
}

abbrev outside : State beside_master
outside = (fresh_process, 1)

abbrev inside : State beside_master
inside = (
  record (loaded beside_master (record { shm_type = some shm; asset_timeout_usec = none }) shm
      uninitialized) { simevent = true },
  1,
)

main-Guards_example :
    Guards port status_options.positional outside (main port (some status_options) outside)
main-Guards_example = main-Guards port (some status_options) outside

exit_zero-Served_example :
    Served port status []
      (lines ((b'r' ∷ b'u' ∷ b'n' ∷ b'n' ∷ b'i' ∷ b'n' ∷ b'g' ∷ []) ∷ []))
      outside
unfolding main dispatch run_command attached_call call finish leave handle do_status find name_eq
    probe_runtime probe_config probe_file probe_master process_status get_simevent_controller
    load_core make_pro_data destroy
exit_zero-Served_example =
    exit_zero-Served port status_options (b's' ∷ b't' ∷ b'a' ∷ b't' ∷ b'u' ∷ b's' ∷ []) [] status
      (lines ((b'r' ∷ b'u' ∷ b'n' ∷ b'n' ∷ b'i' ∷ b'n' ∷ b'g' ∷ []) ∷ [])) outside refl refl refl
      refl refl refl

-- Channel 7 gets the two bytes of the file, and two that malloc has left.
restore_writes_example :
    let written : Bytes = 1 ∷ 2 ∷ 9 ∷ 9 ∷ [] in
    (do_restore control ((b'7' ∷ []) ∷ notes ∷ []) 1 ≡ (2, returns (0, nothing)))
    × (length written ≡ 4)
    × ((i : ℕ) → i < 2 → nth written i ≡ nth (1 ∷ 2 ∷ []) i)
    × ((i : ℕ) → 2 ≤ i → nth written i ≡ nth (9 ∷ 9 ∷ 9 ∷ 9 ∷ []) i)
unfolding stoi skip_spaces read_signed read_unsigned read_digits
restore_writes_example =
    restore_writes control (b'7' ∷ []) notes (pos 7) (1 ∷ 2 ∷ []) (9 ∷ 9 ∷ 9 ∷ 9 ∷ []) 1 1 2 true
      refl refl refl refl (omega arith) refl
