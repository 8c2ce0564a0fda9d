-- ===== src/Command/Main.antt =====
-- main of sources/command/src/hako_cmd.cpp: over the processes' objects of Lifecycle, the probe of Probe, and
-- the recovery of Recovery.
use hakoniwa_core_pro.Base.{
  ℕ, ◌+◌, Bool, true, false, not, Option, none, some, List, [], ◌∷◌, ltb, if◌then◌else◌, maybe,
  Name, name_eq,
}
use hakoniwa_core_pro.RuntimeError.{Thrown, Attempt, returns, throws, crashes}
use hakoniwa_core_pro.Lifecycle.{CorePort, State, get_simevent_controller, destroy}
use hakoniwa_core_pro.Polling.{find}
use hakoniwa_core_pro.Probe.{System, RuntimeProbeStatus, running, probe_runtime}
use hakoniwa_core_pro.Recovery.{
  Layout, Runtime, LockHealth, ok, unknown, abort, recover_runtime_files,
}
use hakoniwa_core_pro.Recovery.Files.{RecoveryStatus, recovered, partial, refused}
use hakoniwa_core_pro.Command.{
  Command, is_jmeta, Shown, nothing, check_name, recover_name, command_map,
}
use hakoniwa_core_pro.Command.Handlers.{ControlPort, Reply, handle}

-- What cxxopts makes of the arguments.
pub record Options : Type 0 where
  pub help : Bool
  pub version : Bool
  pub lock_timeout_ms : ℕ
  pub force_wait : Bool
  pub positional : List Name

-- HakoFlockWaitErrorType, of an exception that is a HakoFlockWaitError
pub data WaitError : Type 0 where
  interrupted timed_out other_wait_error : WaitError

-- How the process ends: with an exit code, by an exception that nobody catches, or by undefined behaviour.
pub data Ended : Type 0 where
  exits : ℕ → Shown → Ended
  terminates : Ended
  undefined : Ended

-- What main calls: hako_pro.cpp over its port, the controller, which exceptions are HakoFlockWaitErrors, the
-- signal that has come (0 for none), inspect_master_lock, and what probe and recovery find.
pub record MainPort (W : Type 0) : Type 0 where
  pub core : CorePort W
  pub control : ControlPort W
  pub wait_error : Thrown → Option WaitError
  pub interrupted : W → ℕ
  pub inspect_master_lock : ℕ → Bool → W → LockHealth
  pub layout : Layout
  pub minimum_data_size : ℕ
  pub master_file_name : Name
  pub system : W → System
  pub runtime : W → Runtime
  pub remove_file : Name → W → W × Option Name

abbrev pub is_running : RuntimeProbeStatus → Bool
is_running running = true
is_running other = false

-- do_check
unfoldable pub do_check : LockHealth → ℕ
do_check ok = 0
do_check abort = 2
do_check unknown = 3

-- `value.recovered ? 0 : 4`
abbrev pub recover_code : RecoveryStatus → ℕ
recover_code recovered = 0
recover_code partial = 4
recover_code refused = 4

-- The catch clauses: `none` for an exception that they do not catch.
unfoldable pub wait_code : ℕ → WaitError → ℕ
wait_code signal interrupted = if ltb 0 signal then 128 + signal else 1
wait_code signal timed_out = 1
wait_code signal other_wait_error = 1

abbrev pub std_code : Thrown → Option ℕ
std_code Thrown.something_else = none
std_code (Thrown.std_exception what) = some 1
std_code (Thrown.master_lock_state health what) = some 1

module _ {W : Type 0} (port : MainPort W) where
  unfoldable pub catch_code : Thrown → W → Option ℕ
  catch_code x w =
      maybe (std_code x) (λ e. some (wait_code (port.interrupted w) e)) (port.wait_error x)

  -- The end of main: hako::destroy, if there is a controller.
  unfoldable pub leave : Bool → ℕ → Shown → State port.core → State port.core × Ended
  leave attached code shown s =
      if not attached
      then (s, exits code shown)
      else let (s', done) = destroy port.core s in
        (
          s',
          elim done [ returns u ↦ exits code shown | throws x ↦ terminates | crashes ↦ undefined ],
        )

  -- The try block's end.
  unfoldable pub finish : Bool → State port.core → Attempt Reply → State port.core × Ended
  finish attached s (returns (code, shown)) = leave attached code shown s
  finish attached s (throws x) =
      maybe (s, terminates) (λ code. leave attached code nothing s) (catch_code x s.1)
  finish attached s crashes = (s, undefined)

  -- A handler on its world.
  unfoldable pub call : Bool → Command → List Name → State port.core → State port.core × Ended
  call attached command args (p, w) =
      let (w', answer) = handle port.control command args w in finish attached (p, w') answer

  -- The try block for a command that needs the controller, once it has been asked for.
  unfoldable pub attached_call :
      Command → List Name → State port.core × Attempt Bool → State port.core × Ended
  attached_call command args (s, returns true) = call true command args s
  attached_call command args (s, returns false) = (s, exits 1 nothing)
  attached_call command args (s, throws x) = finish false s (throws x)
  attached_call command args (s, crashes) = (s, undefined)

  unfoldable pub run_command : Command → List Name → State port.core → State port.core × Ended
  run_command command args s =
      if is_jmeta command
      then call false command args s
      else if not (
          is_running
            (probe_runtime port.layout port.minimum_data_size port.master_file_name
              (port.system s.1)).status)
      then (s, exits 1 nothing)
      else attached_call command args (get_simevent_controller port.core s)

  -- do_recover
  unfoldable pub do_recover : State port.core → State port.core × Ended
  do_recover (p, w) =
      let (w', value) = recover_runtime_files port.layout port.remove_file (port.runtime w) w in
      ((p, w'), exits (recover_code value.status) nothing)

  -- main from the first argument on
  unfoldable pub dispatch : Options → List Name → State port.core → State port.core × Ended
  dispatch options [] s = (s, exits 0 nothing)
  dispatch options (command ∷ args) s =
      if name_eq command check_name
      then (
        s,
        exits (do_check (port.inspect_master_lock options.lock_timeout_ms options.force_wait s.1))
            nothing,
      )
      else if name_eq command recover_name
      then do_recover s
      else maybe (s, exits 1 nothing) (λ c. run_command c args s) (find name_eq command command_map)

  -- main; `none` for arguments that cannot be parsed
  unfoldable pub main : Option Options → State port.core → State port.core × Ended
  main none s = (s, exits 1 nothing)
  main (some options) s =
      if options.help
      then (s, exits 0 nothing)
      else if options.version
      then (s, exits 0 nothing)
      else dispatch options options.positional s
