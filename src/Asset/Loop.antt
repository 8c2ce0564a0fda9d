-- ===== src/Asset/Loop.antt =====
-- The loops of an asset (sources/assets/callback/src/hako_asset_impl.cpp). They have no bound there; here
-- each gets fuel, and `none` is the answer of one that has used it up.
use hakoniwa_core_pro.Base.{
  Name, ℕ, zero, suc, ◌+◌, ◌*◌, ltb, Bool, true, false, not, Option, none, some, List, [], ◌∷◌,
  if◌then◌else◌, ℤ, pos, negsuc,
}
use hakoniwa_core_pro.Asset.{PduIoEntry, RobotCompact}
use hakoniwa_core_pro.Asset.Instance.{
  is_running, AssetEvent, no_event, start_event, stop_event, reset_event, other_event, is_event,
  Asset, Port, St, asks, tells, calls, ForceStop, unless_forced, set_current,
}

-- HAKO_ASSET_WAIT_TIME_USEC
abbrev pub wait_time_usec : ℕ
wait_time_usec = 10000

module _ {W : Type 0} (port : Port W) where
  -- hako_asset_impl_wait_state for its one target, HakoSim_Running
  unfoldable pub wait_state : ℕ → ForceStop W → St W → St W × Option Bool
  wait_state zero force s = (s, none)
  wait_state (suc fuel) force s =
      unless_forced force s (λ s1. (s1, some false))
        λ s1. asks port.state s1 λ curr s2.
          let rest = wait_state fuel force (tells (port.usleep wait_time_usec) s2) in
          if is_running curr then (s2, some true) else rest

  -- The cases of the switch in hako_asset_impl_wait_event; `false` for the default.
  unfoldable pub handle : AssetEvent → St W → St W × Bool
  handle no_event s = (tells (port.usleep wait_time_usec) s, true)
  handle start_event s = asks port.is_pdu_created s λ created s1.
      (tells (port.start_feedback s1.0.asset_name) (calls (λ c. c.on_initialize) s1), true)
  handle stop_event s = (tells (port.stop_feedback s.0.asset_name) s, true)
  handle reset_event s =
      let s1 = set_current 0 (calls (λ c. c.on_reset) s) in
      (tells (port.reset_feedback s1.0.asset_name) s1, true)
  handle other_event s = (s, false)

  -- The body of the loop of hako_asset_impl_wait_event, once it has the event.
  unfoldable pub after_event :
      AssetEvent → (St W → St W × Option Bool) → AssetEvent → St W → St W × Option Bool
  after_event target next event s =
      let (s1, known) = handle event s in
      if not known
      then (s1, some false)
      else if is_event target event
      then (s1, some true)
      else next s1

  -- hako_asset_impl_wait_event
  unfoldable pub wait_event : ℕ → AssetEvent → ForceStop W → St W → St W × Option Bool
  wait_event zero target force s = (s, none)
  wait_event (suc fuel) target force s =
      unless_forced force s (λ s1. (s1, some false))
        λ s1.
          asks (port.asset_get_event s1.0.asset_name) s1
            λ event s2. after_event target (wait_event fuel target force) event s2

  -- hako_asset_impl_wait_pdu_created
  unfoldable pub wait_pdu_created : ℕ → St W → St W × Option Bool
  wait_pdu_created zero s = (s, none)
  wait_pdu_created (suc fuel) s = asks port.is_pdu_created s λ created s1.
      let rest = wait_pdu_created fuel (tells (port.usleep wait_time_usec) s1) in
      if created then (s1, some true) else rest

  -- To go on where a wait returned true.
  abbrev pub and_then : St W × Option Bool → (St W → St W × Option Bool) → St W × Option Bool
  and_then (s, none) k = (s, none)
  and_then (s, some false) k = (s, some false)
  and_then (s, some true) k = k s

  -- hako_asset_impl_wait_running
  unfoldable pub wait_running : ℕ → ForceStop W → St W → St W × Option Bool
  wait_running fuel force s =
      and_then (wait_event fuel start_event force s)
        λ s1. and_then (wait_state fuel force s1) λ s2. wait_pdu_created fuel s2

  -- The name that callbacks of receive events and PDU operations are called with.
  abbrev pub own_name : Asset W → Option Name
  own_name a = if a.external_use then none else some a.asset_name

  abbrev pub next_time : St W → ℕ
  next_time s = s.0.current_usec + s.0.delta_usec

  -- The end of hako_asset_impl_execute: the step itself.
  unfoldable pub simulation_step : St W → St W
  simulation_step s =
      set_current (next_time s) (
        calls (λ c. c.on_simulation_step) (tells (port.call_recv_event_callbacks (own_name s.0)) s))

  -- hako_asset_impl_execute
  unfoldable pub execute : St W → St W × Bool
  execute s =
      asks port.state (tells (port.notify_simtime s.0.asset_name s.0.current_usec) s) λ curr s1.
        if not (is_running curr)
        then (s1, false)
        else asks port.is_pdu_created s1 λ created s2.
          if not created
          then (s2, false)
          else asks (port.is_pdu_sync_mode s2.0.asset_name) s2 λ sync s3.
            if sync
            then (tells (port.notify_write_pdu_done s3.0.asset_name) s3, false)
            else asks port.is_simulation_mode s3 λ simulation s4.
              if not simulation
              then (s4, false)
              else asks port.get_worldtime s4 λ world_time s5.
                if ltb world_time (next_time s5) then (s5, false) else (simulation_step s5, true)

  -- memset to zero; a negative size has no buffer
  abbrev pub zeros : ℤ → List ℕ
  zeros (negsuc n) = []
  zeros (pos zero) = []
  zeros (pos (suc n)) = 0 ∷ zeros (pos n)

  -- hako_asset_impl_pdu_read
  unfoldable pub pdu_read : Name → ℤ → ℕ → St W → St W × Bool
  pdu_read robo_name lchannel buffer_len s =
      asks (port.read_pdu (own_name s.0) robo_name lchannel buffer_len) s λ ret s1. (s1, ret)

  -- hako_asset_impl_pdu_write
  unfoldable pub pdu_write : Name → ℤ → List ℕ → St W → St W × Bool
  pdu_write robo_name lchannel buffer s =
      asks (port.write_pdu (own_name s.0) robo_name lchannel buffer) s λ ret s1.
        if s1.0.external_use
        then (s1, ret)
        else if not ret
        then (s1, false)
        else (tells (port.notify_write_pdu_done s1.0.asset_name) s1, true)

  -- hako_asset_impl_pdus_write_done. HAKO_ASSET_ASSERT never stops the program: it asserts the negation.
  unfoldable pub write_entries : Name → List PduIoEntry → St W → St W
  write_entries robot_name [] s = s
  write_entries robot_name (e ∷ es) s =
      write_entries robot_name es (pdu_write robot_name e.io.channel_id (zeros e.io.pdu_size) s).0

  unfoldable pub pdus_write_done : List RobotCompact → St W → St W
  pdus_write_done [] s = s
  pdus_write_done (r ∷ rs) s = pdus_write_done rs (write_entries r.name r.pdus s)

  -- The end of a run in hako_asset_impl_proc: always false.
  unfoldable pub wait_restart : ℕ → ForceStop W → St W → St W × Option Bool
  wait_restart fuel force s =
      and_then (wait_event fuel stop_event force s)
        λ s1. and_then (wait_event fuel reset_event force s1) λ s2. (s2, some false)

  -- The body of the loop of hako_asset_impl_proc, after an execute that did not step and no force stop;
  -- `next` is the next round.
  unfoldable pub not_yet : ℕ → ForceStop W → (St W → St W × Option Bool) → St W → St W × Option Bool
  not_yet fuel force next s = asks port.state s λ curr s1.
      if not (is_running curr)
      then wait_restart fuel force s1
      else asks (port.is_pdu_sync_mode s1.0.asset_name) s1
          λ sync s2. next (if sync then pdus_write_done s2.0.robots_compact s2 else s2)

  -- hako_asset_impl_proc
  unfoldable pub proc : ℕ → ForceStop W → St W → St W × Option Bool
  proc zero force s = (s, none)
  proc (suc fuel) force s =
      let (s1, done) = execute s in
      let later =
        unless_forced force s1 (λ s2. (s2, some false)) (not_yet fuel force (proc fuel force)) in
      if done then (s1, some true) else later

  -- The loop of hako_asset_impl_step.
  unfoldable pub step_to : ℕ → ℕ → ForceStop W → St W → St W × Option Bool
  step_to zero target force s = (s, none)
  step_to (suc fuel) target force s =
      let rest = and_then (proc fuel force s) (step_to fuel target force) in
      if ltb s.0.current_usec target then rest else (s, some true)

  -- hako_asset_impl_step
  unfoldable pub step : ℕ → ℕ → ForceStop W → St W → St W × Option Bool
  step fuel increment_step force s =
      step_to fuel (s.0.current_usec + increment_step * s.0.delta_usec) force s
