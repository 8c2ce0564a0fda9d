-- ===== src/Asset/Api.antt =====
-- The functions of sources/assets/callback/src/hako_asset.cpp, behind their error boundary, but for those on
-- events. Their loops get fuel, as in Asset.Loop.
use hakoniwa_core_pro.Base.{
  Name, ℕ, zero, suc, ◌+◌, ◌-◌, ◌/◌, ℤ, pos, negsuc, Bool, true, false, not, ltb, ◌==◌, Option,
  none, some, List, if◌then◌else◌, maybe,
}
use hakoniwa_core_pro.Asset.Instance.{is_stopped, Callbacks, Port, St, asks, ForceStop}
use hakoniwa_core_pro.Asset.Loop.{wait_running, step, pdu_read, pdu_write}
use hakoniwa_core_pro.Asset.Setup.{
  SetupPort, impl_init, impl_attach_core, impl_initialize_for_external, impl_register_callback,
  impl_pdu_create, config_opens,
}
use hakoniwa_core_pro.Asset.Reply.{
  Reply, code, crash, out_of_fuel, success, enoent, eintr, eio, einval, failed, text,
  require_stopped_state, to_public_simulation_state, int_of,
}

-- The steps that hako_asset_usleep_no_wait makes; `none` is a division by zero.
unfoldable pub steps_of : ℕ → ℕ → Option ℕ
steps_of sleep_time_usec delta_usec =
    if sleep_time_usec == 0
    then some 1
    else if delta_usec == 0
    then none
    else some ((sleep_time_usec + (delta_usec - 1)) / delta_usec)

module _ {W : Type 0} (port : Port W) (setup : SetupPort W) where
  -- Whether both callbacks that make time pass are set.
  abbrev pub both_set : Callbacks W → Bool
  both_set c =
      maybe false (λ f. maybe false (λ g. true) c.on_manual_timing_control) c.on_simulation_step

  -- hako_asset_register from its tests of the callbacks on
  unfoldable pub register_with : Name → Name → Callbacks W → ℤ → St W → St W × Reply
  register_with name path c (negsuc n) s = (s, einval)
  register_with name path c (pos delta_usec) s =
      if both_set c
      then (s, einval)
      else if ltb delta_usec 1
      then (s, einval)
      else let (s1, done) = impl_init setup name path delta_usec s in
        if not done then (s1, eio) else ((impl_register_callback setup c s1).0, success)

  -- hako_asset_register
  unfoldable pub hako_asset_register :
      Option Name → Option Name → Option (Callbacks W) → ℤ → St W → St W × Reply
  hako_asset_register asset_name config_path callbacks delta_usec s =
      maybe (s, einval)
        (λ name.
          maybe (s, enoent)
            (λ path.
              if not (config_opens setup path s.1)
              then (s, enoent)
              else maybe (s, einval) (λ c. register_with name path c delta_usec s) callbacks)
            config_path)
        (text asset_name)

  -- hako_initialize_for_external
  unfoldable pub hako_initialize_for_external : St W → St W × Reply
  hako_initialize_for_external s =
      let (s1, done) = impl_initialize_for_external setup s in (s1, int_of done eio)

  -- hako_asset_attach_core
  unfoldable pub hako_asset_attach_core : St W → St W × Reply
  hako_asset_attach_core s =
      if s.0.is_initialized then (s, success) else hako_initialize_for_external s

  -- hako_asset_attach_core_with_name
  unfoldable pub hako_asset_attach_core_with_name : Option Name → Option Name → St W → St W × Reply
  hako_asset_attach_core_with_name asset_name config_path s =
      if s.0.is_initialized
      then (s, success)
      else maybe (s, einval)
          (λ name.
            maybe (s, enoent)
              (λ path.
                if not (config_opens setup path s.1)
                then (s, enoent)
                else let (s1, done) = impl_attach_core setup (some name) (some path) s in
                  (s1, int_of done eio))
              config_path)
          (text asset_name)

  -- hako_asset_load_pdu_data
  unfoldable pub hako_asset_load_pdu_data : St W → St W × Reply
  hako_asset_load_pdu_data s =
      if not s.0.is_initialized
      then (s, einval)
      else if not s.0.hako_asset
      then (s, eio)
      else asks port.is_pdu_created s λ created s1. (s1, int_of created enoent)

  -- hako_asset_pdu_create
  unfoldable pub hako_asset_pdu_create : Name → ℤ → ℤ → St W → St W × Reply
  hako_asset_pdu_create robo_name lchannel pdu_size s =
      let (s1, made) = impl_pdu_create setup robo_name lchannel pdu_size s in
      (s1, int_of made failed)

  -- The endless loop of hako_asset_start_no_wait.
  unfoldable pub step_on : ℕ → ForceStop W → St W → St W × Reply
  step_on zero force s = (s, out_of_fuel)
  step_on (suc fuel) force s =
      let (s1, done) = step port fuel 1 force s in
      let rest = step_on fuel force s1 in
      maybe (s1, out_of_fuel) (λ ok. if ok then rest else (s1, eintr)) done

  -- hako_asset_start_no_wait once the simulation runs
  unfoldable pub start_running : ℕ → ForceStop W → St W → St W × Reply
  start_running fuel force s =
      maybe (step_on fuel force s) (λ f. asks f s λ answer s1. (s1, code answer))
        (maybe none (λ c. c.on_manual_timing_control) s.0.callback)

  -- hako_asset_start_no_wait
  unfoldable pub hako_asset_start_no_wait : ℕ → ForceStop W → St W → St W × Reply
  hako_asset_start_no_wait fuel force s =
      if not s.0.is_initialized
      then (s, einval)
      else asks port.state s λ state s1.
        if not (is_stopped state)
        then (s1, require_stopped_state state)
        else let (s2, ran) = wait_running port fuel force s1 in
          maybe (s2, out_of_fuel) (λ ok. if not ok then (s2, eio) else start_running fuel force s2)
            ran

  -- hako_asset_pdu_read, into a buffer of some length, if there is one
  unfoldable pub hako_asset_pdu_read : Option Name → ℤ → Option ℕ → St W → St W × Reply
  hako_asset_pdu_read robo_name lchannel buffer s =
      if not s.0.is_initialized
      then (s, einval)
      else maybe (s, einval)
          (λ name.
            maybe (s, einval)
              (λ len.
                if len == 0
                then (s, einval)
                else let (s1, ok) = pdu_read port name lchannel len s in (s1, int_of ok eio))
              buffer)
          (text robo_name)

  -- hako_asset_pdu_write
  unfoldable pub hako_asset_pdu_write : Option Name → ℤ → Option (List ℕ) → St W → St W × Reply
  hako_asset_pdu_write robo_name lchannel buffer s =
      if not s.0.is_initialized
      then (s, einval)
      else maybe (s, einval)
          (λ name.
            maybe (s, einval)
              (λ bytes. let (s1, ok) = pdu_write port name lchannel bytes s in (s1, int_of ok eio))
              (text buffer))
          (text robo_name)

  -- hako_asset_simulation_time and hako_asset_min_asset_time do not test for the controller.
  abbrev pub of_controller : (W → W × ℕ) → St W → St W × Reply
  of_controller f s = if s.0.hako_asset then asks f s (λ t s1. (s1, code (pos t))) else (s, crash)

  unfoldable pub hako_asset_simulation_time : St W → St W × Reply
  hako_asset_simulation_time = of_controller port.get_worldtime

  unfoldable pub hako_asset_min_asset_time : St W → St W × Reply
  hako_asset_min_asset_time = of_controller port.get_min_asset_time

  unfoldable pub hako_asset_current_time : St W → ℕ
  hako_asset_current_time s = s.0.current_usec

  unfoldable pub hako_asset_simulation_state : St W → St W × Reply
  hako_asset_simulation_state s =
      if not s.0.is_initialized
      then (s, failed)
      else if not s.0.hako_sim
      then (s, failed)
      else asks port.state s λ state s1. (s1, code (to_public_simulation_state state))

  -- hako_asset_usleep_no_wait
  unfoldable pub hako_asset_usleep_no_wait : ℕ → ℕ → ForceStop W → St W → St W × Reply
  hako_asset_usleep_no_wait fuel sleep_time_usec force s =
      if s.0.external_use
      then (s, success)
      else maybe (s, crash)
          (λ n.
            let (s1, done) = step port fuel n force s in
            (s1, maybe out_of_fuel (λ ok. int_of ok eintr) done))
          (steps_of sleep_time_usec s.0.delta_usec)
