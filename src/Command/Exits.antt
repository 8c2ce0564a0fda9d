-- ===== src/Command/Exits.antt =====
-- What the exit code of hako-cmd says (sources/command/src/hako_cmd.cpp).
use hakoniwa_core_pro.Base.{
  ℕ, ◌<◌, ◌≡◌, inl, inr, refl, subst, arith, Bool, true, false, Option, none, some, List, ◌∷◌, Name,
  name_eq, name_eq_sound, maybe_cases, Bool-cases,
}
use hakoniwa_core_pro.RuntimeError.{Thrown, Attempt, returns, throws, crashes}
use hakoniwa_core_pro.Lifecycle.{State, get_simevent_controller, destroy, MasterData}
use hakoniwa_core_pro.Polling.{find}
use hakoniwa_core_pro.Probe.{running}
use hakoniwa_core_pro.Command.{
  Command, start, stop, reset, is_jmeta, check_name, recover_name, command_map, Shown, nothing,
}
use hakoniwa_core_pro.Command.Handlers.{ControlPort, Reply, handle, do_start, do_stop, do_reset}
use hakoniwa_core_pro.Command.Main.{
  MainPort, Options, Ended, exits, terminates, undefined, WaitError, interrupted, timed_out,
  other_wait_error, is_running, main, dispatch, run_command, attached_call, call, finish, leave,
  catch_code, wait_code, std_code,
}
use hakoniwa_core_pro.Command.Guarded.{probed, is_running_sound}

wait_code-pos : (signal : ℕ) (e : WaitError) → 0 < wait_code signal e
unfolding wait_code
wait_code-pos signal interrupted = ground arith
wait_code-pos signal timed_out = omega arith
wait_code-pos signal other_wait_error = omega arith

std_code-pos : (x : Thrown) (k : ℕ) → std_code x ≡ some k → 0 < k
std_code-pos (Thrown.std_exception what) k e = ground arith
std_code-pos (Thrown.master_lock_state health what) k e = ground arith
std_code-pos Thrown.something_else k e = cc

-- The names that are not in command_map.
not_in_map :
    (name command : Name) (c : Command)
    → find name_eq name command_map ≡ none
    → find name_eq command command_map ≡ some c
    → name_eq command name ≡ false
not_in_map name command c missing found = elim (Bool-cases (name_eq command name)) [
  | inr differs ↦ differs
  | inl same ↦ absurd (
      let e : find name_eq name command_map ≡ some c =
        subst (λ n. find name_eq n command_map ≡ some c) (name_eq_sound command name same) found in
      cc)
]

some_inj {ℓ} : {A : Type ℓ} {a b : A} → some a ≡ some b → a ≡ b
some_inj h = cc

-- What the three commands ask the controller.
abbrev pub request_of : {W : Type 0} → ControlPort W → Command → W → Option (W × Attempt Bool)
request_of port start w = some (port.start w)
request_of port stop w = some (port.stop w)
request_of port reset w = some (port.reset w)
request_of port other w = none

check_missing : find name_eq check_name command_map ≡ none
unfolding find name_eq
check_missing = refl

recover_missing : find name_eq recover_name command_map ≡ none
unfolding find name_eq
recover_missing = refl

module _ {W : Type 0} (port : MainPort W) where
  catch_code-pos : (x : Thrown) (w : W) (k : ℕ) → catch_code port x w ≡ some k → 0 < k
  unfolding catch_code
  catch_code-pos x w k e =
      maybe_cases (λ (o : Option ℕ). o ≡ some k → 0 < k) (port.wait_error x)
        (λ none_of. std_code-pos x k)
        (λ kind of h. subst (λ n. 0 < n) (some_inj h) (wait_code-pos (port.interrupted w) kind)) e

  leave_code :
      (attached : Bool) (code : ℕ) (shown out : Shown) (s : State port.core)
      → (leave port attached code shown s).1 ≡ exits 0 out
      → (code ≡ 0) × (shown ≡ out)
  unfolding leave
  leave_code false code shown out s e = ground arith
  leave_code true code shown out s e = by_end (destroy port.core s).1 e
    where
      by_end :
          (done : Attempt Unit)
          → elim done as (λ x. Ended) [
            | returns u ↦ exits code shown
            | throws x ↦ terminates
            | crashes ↦ undefined
          ]
            ≡ exits 0 out
          → (code ≡ 0) × (shown ≡ out)
      by_end (returns u) h = ground (arith, h)
      by_end (throws x) h = cc
      by_end crashes h = cc

  finish_zero :
      (attached : Bool) (s : State port.core) (answer : Attempt Reply) (shown : Shown)
      → (finish port attached s answer).1 ≡ exits 0 shown
      → answer ≡ returns (0, shown)
  unfolding finish
  finish_zero attached s (returns (code, out)) shown e =
      let h = leave_code attached code out shown s e in rw (h.0, h.1) refl
  finish_zero attached s (throws x) shown e = absurd (
      maybe_cases (λ (r : State port.core × Ended). r.1 ≡ exits 0 shown → ⊥) (catch_code port x s.1)
        (λ uncaught h. cc)
        (λ code caught h.
          let z = leave_code attached code nothing shown s h in
          ground (arith, z.0, catch_code-pos x s.1 code caught))
        e)
  finish_zero attached s crashes shown e = cc

  -- What an exit code of 0 says of a command that needs the controller.
  abbrev pub Served : Command → List Name → Shown → State port.core → Type 0
  Served c args shown s =
      (probed port s.1 ≡ running)
      × (s1 : State port.core) × (get_simevent_controller port.core s ≡ (s1, returns true))
      × ((handle port.control c args s1.1).1 ≡ returns (0, shown))

  attached_zero :
      (c : Command) (args : List Name) (shown : Shown) (r : State port.core × Attempt Bool)
      → (attached_call port c args r).1 ≡ exits 0 shown
      → (s1 : State port.core) × (r ≡ (s1, returns true))
        × ((handle port.control c args s1.1).1 ≡ returns (0, shown))
  unfolding attached_call call
  attached_zero c args shown (s, returns true) e =
      (s, refl, finish_zero true _ (handle port.control c args s.1).1 shown e)
  attached_zero c args shown (s, returns false) e = absurd (cc)
  attached_zero c args shown (s, throws x) e = absurd (cc (finish_zero false s (throws x) shown e))
  attached_zero c args shown (s, crashes) e = absurd (cc)

  run_command-Served :
      (c : Command) (args : List Name) (shown : Shown) (s : State port.core)
      → is_jmeta c ≡ false
      → (run_command port c args s).1 ≡ exits 0 shown
      → Served c args shown s
  unfolding run_command
  run_command-Served c args shown s other e = elim (Bool-cases (is_running (probed port s.1))) [
    | inr down ↦ absurd (let h : exits 1 nothing ≡ exits 0 shown = rw (other, down) at e in cc)
    | inl up ↦
        let (s1, there, served) =
          attached_zero c args shown (get_simevent_controller port.core s) (rw (other, up) at e) in
        (is_running_sound port (probed port s.1) up, s1, there, served)
  ]

  -- If hako-cmd ends with the exit code 0 on a command of the map, other than `jmeta`, then the probe has found
  -- the runtime running, the process has got its controller, and the command's handler has returned 0, without
  -- an exception, with what hako-cmd shows.
  pub exit_zero-Served :
      (options : Options) (command : Name) (args : List Name) (c : Command) (shown : Shown)
      (s : State port.core)
      → options.help ≡ false
      → options.version ≡ false
      → options.positional ≡ command ∷ args
      → find name_eq command command_map ≡ some c
      → is_jmeta c ≡ false
      → (main port (some options) s).1 ≡ exits 0 shown
      → Served c args shown s
  unfolding main dispatch
  exit_zero-Served options command args c shown s help version positional found other e =
      run_command-Served c args shown s other (
        rw
          (
            help,
            version,
            positional,
            not_in_map check_name command c check_missing found,
            not_in_map recover_name command c recover_missing found,
            found,
          )
          at e)

  -- While the runtime is running and the process gets the controller, without being the master: `start`,
  -- `stop` and `reset` end with the exit code 0 also if the controller has refused, with `false`.
  pub refusal_unnoticed :
      (c : Command) (args : List Name) (s s1 : State port.core) (d : MasterData) (w : W)
      (answer : Bool)
      → probed port s.1 ≡ running
      → get_simevent_controller port.core s ≡ (s1, returns true)
      → request_of port.control c s1.1 ≡ some (w, returns answer)
      → s1.0.master_data ≡ some d
      → port.core.is_master_process w ≡ false
      → (run_command port c args s).1 ≡ exits 0 nothing
  unfolding run_command attached_call call handle finish leave destroy do_start do_stop do_reset
  refusal_unnoticed start args s s1 d w answer up there asked loaded other =
      rw (up, there, some_inj asked, loaded, other) refl
  refusal_unnoticed stop args s s1 d w answer up there asked loaded other =
      rw (up, there, some_inj asked, loaded, other) refl
  refusal_unnoticed reset args s s1 d w answer up there asked loaded other =
      rw (up, there, some_inj asked, loaded, other) refl
  refusal_unnoticed c args s s1 d w answer up there asked loaded other = cc
