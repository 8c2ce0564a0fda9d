-- ===== src/Conductor.antt =====
-- The conductor: sources/conductor/src/hako_conductor_impl.cpp and hako_conductor.cpp. Its thread is a step
-- of its own: one round of the loop of hako_conductor_impl_thread_run. The thread has its own RuntimeError.
pub mod Restart
use hakoniwa_core_pro.Base.{
  ℕ, zero, suc, ℤ, pos, minus_one, Bool, true, false, not, ltb, Option, none, some, if◌then◌else◌,
  maybe,
}
use hakoniwa_core_pro.RuntimeError.{
  RuntimeError, ErrorStatus, Thrown, master_lock_state, std_exception, something_else, Attempt,
  returns, throws, crashes, Outcome, Guarded, Native, capture_current_exception, guard,
  hako_runtime_last_error_status,
}
use hakoniwa_core_pro.Lifecycle.{CorePort, Process, State, then_on, init, create_master}

-- Whether `hako_conductor` is set, and `hako_conductor_cmd_stop`.
pub record Conductor : Type 0 where
  pub conductor : Bool
  pub cmd_stop : Bool

-- The process as it starts.
abbrev pub no_conductor : Conductor
no_conductor = record { conductor = false; cmd_stop = false }

-- What the master controller and the system do: set_config_simtime and execute of IHakoMasterController, with
-- true where the world time has moved; yield or a sleep of some microseconds; the wait of a stop.
pub record ConductorPort (W : Type 0) : Type 0 where
  pub set_config_simtime : ℕ → ℕ → W → W × Attempt Unit
  pub execute : W → W × Attempt Bool
  pub yield : W → W
  pub sleep_for : ℕ → W → W
  pub wait : W → W
  pub idle_sleep_usec : ℕ

-- What a round of the thread comes to: another, its end, or the end of the process by an exception that
-- nothing catches or by a null pointer.
pub data Round (A : Type 0) : Type 0 where
  goes_on ends : A → Round A
  dies : Round A

module _ {W : Type 0} (core : CorePort W) (port : ConductorPort W) where
  abbrev pub St : Type 0
  St = Conductor × (Process × W)

  -- The first part of hako_conductor_impl_start; hako::init may return false, which is not looked at.
  unfoldable pub prepare : ℕ → ℕ → Process × W → (Process × W) × Attempt Bool
  prepare delta_usec max_delay_usec s = then_on (init core s) λ done s1.
      then_on (create_master core s1) λ made s2.
        if not made
        then (s2, returns false)
        else let (w3, configured) = port.set_config_simtime max_delay_usec delta_usec s2.1 in
          then_on ((s2.0, w3), configured) λ u s4. (s4, returns true)

  abbrev pub with_conductor : Bool → Conductor → Conductor
  with_conductor b c = record c { conductor = b }

  -- The end of hako_conductor_impl_start: the thread starts, or the exception, which is taken to be a
  -- std::exception, is thrown again.
  unfoldable pub launch : Conductor → (Process × W) × Attempt Bool → St × Attempt Bool
  launch c (s, returns made) = ((with_conductor made c, s), returns made)
  launch c (s, throws x) = ((with_conductor false c, s), throws x)
  launch c (s, crashes) = ((c, s), crashes)

  -- hako_conductor_impl_start
  unfoldable pub impl_start : ℕ → ℕ → St → St × Attempt Bool
  impl_start delta_usec max_delay_usec (c, s) =
      if c.conductor
      then ((c, s), returns false)
      else launch c (prepare delta_usec max_delay_usec s)

  abbrev pub as_native : {A : Type 0} → (St → St × Attempt A) → Native St A
  as_native f e s = let (s1, a) = f s in (e, s1, a)

  -- true as 0, false as -1
  abbrev pub as_int : St × Attempt Bool → St × Attempt ℤ
  as_int r = then_on r λ ok s. (s, returns (if ok then pos 0 else minus_one))

  -- hako_conductor_start
  unfoldable pub hako_conductor_start : ℕ → ℕ → Guarded St ℤ
  hako_conductor_start delta_usec max_delay_usec =
      guard minus_one (as_native λ s. as_int (impl_start delta_usec max_delay_usec s))

  -- The pause of a round in which the world time has not moved.
  abbrev pub pause : W → W
  pause w =
      if ltb 0 port.idle_sleep_usec then port.sleep_for port.idle_sleep_usec w else port.yield w

  -- What a round makes of the outcome of execute. Only a std::exception is caught.
  unfoldable pub after_execute :
      RuntimeError → Conductor → Process → W × Attempt Bool → Round (RuntimeError × St)
  after_execute e c p (w, returns moved) = goes_on (e, (c, (p, (if moved then w else pause w))))
  after_execute e c p (w, throws something_else) = dies
  after_execute e c p (w, throws (std_exception what)) =
      ends (capture_current_exception (std_exception what), (with_conductor false c, (p, w)))
  after_execute e c p (w, throws (master_lock_state health what)) =
      ends (
        capture_current_exception (master_lock_state health what),
        (with_conductor false c, (p, w)),
      )
  after_execute e c p (w, crashes) = dies

  -- A round of the loop of hako_conductor_impl_thread_run, or its end.
  unfoldable pub thread_round : RuntimeError → St → Round (RuntimeError × St)
  thread_round e (c, (p, w)) =
      if c.cmd_stop
      then ends (e, (with_conductor false c, (p, w)))
      else if c.conductor
      then after_execute e c p (port.execute w)
      else dies

  -- The loop of hako_conductor_impl_stop, in which the thread goes on; a thread that has ended does not.
  unfoldable pub wait_end : ℕ → RuntimeError → St → Option (RuntimeError × St)
  wait_end zero e s = none
  wait_end (suc fuel) e (c, (p, w)) =
      if not c.conductor
      then some (e, (c, (p, w)))
      else elim (thread_round e (c, (p, port.wait w))) [
        | goes_on (e', s') ↦ wait_end fuel e' s'
        | ends (e', s') ↦ wait_end fuel e' s'
        | dies ↦ none
      ]

  -- hako_conductor_impl_stop; the error is that of the thread.
  unfoldable pub impl_stop : ℕ → RuntimeError → St → Option (RuntimeError × St)
  impl_stop fuel e (c, s) = wait_end fuel e (record c { cmd_stop = true }, s)
