-- ===== src/Capi.antt =====
-- The C interface for assets that poll: sources/assets/polling/src/hako_capi.cpp, on the process of
-- sources/core/src/hako_pro.cpp (Lifecycle). Its try blocks are the error boundary of RuntimeError. C strings
-- are not null here.
pub mod Calls
pub mod Retry
pub mod Errors
use hakoniwa_core_pro.Base.{
  ℕ, ℤ, Name, Bool, true, false, not, Option, none, some, List, if◌then◌else◌, maybe,
}
use hakoniwa_core_pro.RuntimeError.{
  RuntimeError, Attempt, returns, throws, crashes, Outcome, result, crash, Native, Guarded, guard,
  caught, hako_runtime_clear_error,
}
use hakoniwa_core_pro.Lifecycle.{
  CorePort, Process, then_on, init, create_master, create_asset_controller, get_simevent_controller,
}
use hakoniwa_core_pro.Asset.Instance.{AssetEvent, other_event}

-- hako_asset_callback_t: the addresses of start, stop and reset
abbrev pub AssetCallback : Type 0
AssetCallback = ℕ × (ℕ × ℕ)

-- hako_master, hako_simevent and hako_asset: whether they are set
pub record Capi : Type 0 where
  pub master : Bool
  pub simevent : Bool
  pub asset : Bool

abbrev pub no_capi : Capi
no_capi = record { master = false; simevent = false; asset = false }

-- IHakoAssetController, IHakoSimulationEventController and IHakoMasterController of hakoniwa-core-cpp, and the
-- calls of HakoProData, where the process has it. Each may throw; data that is read is `none` where the call
-- returns false.
pub record Controllers (W : Type 0) : Type 0 where
  pub asset_register : Name → AssetCallback → W → W × Attempt Bool
  pub asset_register_polling : Name → W → W × Attempt Bool
  pub asset_get_event : Name → W → W × Attempt AssetEvent
  pub asset_unregister : Name → W → W × Attempt Bool
  pub notify_simtime : Name → ℕ → W → W × Attempt Unit
  pub get_worldtime : W → W × Attempt ℕ
  pub get_min_asset_time : W → W × Attempt ℕ
  pub start_feedback : Name → Bool → W → W × Attempt Bool
  pub stop_feedback : Name → Bool → W → W × Attempt Bool
  pub reset_feedback : Name → Bool → W → W × Attempt Bool
  pub create_pdu_channel : ℤ → ℕ → W → W × Attempt Bool
  pub create_pdu_lchannel : Name → ℤ → ℕ → W → W × Attempt Bool
  pub get_pdu_channel : Name → ℤ → W → W × Attempt ℤ
  pub is_pdu_dirty : Name → Name → ℤ → W → W × Attempt Bool
  pub write_pdu : Name → Name → ℤ → List ℕ → W → W × Attempt Bool
  pub read_pdu : Name → Name → ℤ → ℕ → W → W × Attempt (Option (List ℕ))
  pub write_pdu_nolock : Name → ℤ → List ℕ → W → W × Attempt Bool
  pub read_pdu_nolock : Name → ℤ → ℕ → W → W × Attempt (Option (List ℕ))
  pub notify_read_pdu_done : Name → W → W × Attempt Unit
  pub notify_write_pdu_done : Name → W → W × Attempt Unit
  pub is_pdu_sync_mode : Name → W → W × Attempt Bool
  pub is_simulation_mode : W → W × Attempt Bool
  pub is_pdu_created : W → W × Attempt Bool
  pub state : W → W × Attempt ℤ
  pub start : W → W × Attempt Bool
  pub stop : W → W × Attempt Bool
  pub reset : W → W × Attempt Bool
  pub execute : W → W × Attempt Bool
  pub set_config_simtime : ℕ → ℕ → W → W × Attempt Unit
  pub get_max_deltay_time_usec : W → W × Attempt ℕ
  pub get_delta_time_usec : W → W × Attempt ℕ
  pub register_data_recv_event : Name → ℤ → W → W × Attempt Bool
  pub get_recv_event : Name → Name → ℤ → W → W × Attempt Bool
  pub set_recv_event_pending : Name → ℤ → Bool → W → W × Attempt Bool

module _ {W : Type 0} (core : CorePort W) (port : Controllers W) where
  abbrev pub St : Type 0
  St = Capi × (Process × W)

  -- A call of the process, or of the world, in the state.
  abbrev pub in_process : {A : Type 0} → Capi → (Process × W) × Attempt A → St × Attempt A
  in_process c (s, a) = ((c, s), a)

  abbrev pub in_world : {A : Type 0} → Capi → Process → W × Attempt A → St × Attempt A
  in_world c p (w, a) = ((c, (p, w)), a)

  -- A function that leaves the error of its thread to the boundary.
  abbrev pub native : {A : Type 0} → (St → St × Attempt A) → Native St A
  native f e s = let (s1, a) = f s in (e, s1, a)

  abbrev pub set_asset : Bool → St → St
  set_asset b (c, s) = (record c { asset = b }, s)

  abbrev pub set_simevent : Bool → St → St
  set_simevent b (c, s) = (record c { simevent = b }, s)

  abbrev pub set_master : Bool → St → St
  set_master b (c, s) = (record c { master = b }, s)

  -- `hako_simevent = hako::get_simevent_controller()`, and whether it is set then
  unfoldable pub take_simevent : St → St × Attempt Bool
  take_simevent (c, s) =
      then_on (in_process c (get_simevent_controller core s))
        λ found s1. (set_simevent found s1, returns found)

  -- The body of hako_asset_init.
  unfoldable pub take_asset : St → St × Attempt Bool
  take_asset (c, s) =
      if c.asset
      then ((c, s), returns true)
      else then_on (in_process c (create_asset_controller core s)) λ found s1.
        if not found then (set_asset false s1, returns false) else take_simevent (set_asset true s1)

  -- hako_asset_init
  unfoldable pub hako_asset_init : Guarded St Bool
  hako_asset_init = guard false (native take_asset)

  -- hako_simevent_init
  unfoldable pub hako_simevent_init : Guarded St Bool
  hako_simevent_init = guard false (native take_simevent)

  -- hako_asset_endpoint_attach_core
  unfoldable pub hako_asset_endpoint_attach_core : Guarded St Bool
  hako_asset_endpoint_attach_core e s =
      if s.0.asset
      then (hako_runtime_clear_error, s, result true)
      else hako_asset_init hako_runtime_clear_error s

  -- hako_asset_ensure_ready and hako_simevent_ensure_ready
  unfoldable pub hako_asset_ensure_ready : Guarded St Bool
  hako_asset_ensure_ready e s =
      if s.0.asset
      then (hako_runtime_clear_error, s, result true)
      else hako_asset_endpoint_attach_core hako_runtime_clear_error s

  unfoldable pub hako_simevent_ensure_ready : Guarded St Bool
  hako_simevent_ensure_ready e s =
      if s.0.simevent
      then (hako_runtime_clear_error, s, result true)
      else hako_simevent_init hako_runtime_clear_error s

  -- The rest of a try block, once the controller is there.
  unfoldable pub when_ready :
      {A : Type 0}
      → A
      → (W → W × Attempt A)
      → RuntimeError × St × Outcome Bool
      → RuntimeError × St × Outcome A
  when_ready fail f (e, s, crash) = (e, s, crash)
  when_ready fail f (e, s, result false) = (e, s, result fail)
  when_ready fail f (e, (c, (p, w)), result true) =
      let (s1, a) = in_world c p (f w) in caught fail (e, s1, a)

  abbrev pub with_asset : {A : Type 0} → A → (W → W × Attempt A) → Guarded St A
  with_asset fail f e s = when_ready fail f (hako_asset_ensure_ready e s)

  abbrev pub with_simevent : {A : Type 0} → A → (W → W × Attempt A) → Guarded St A
  with_simevent fail f e s = when_ready fail f (hako_simevent_ensure_ready e s)

  -- The body of hako_master_init; hako::init may return false, which is not looked at.
  unfoldable pub take_master : St → St × Attempt Bool
  take_master (c, s) = then_on (in_process c (init core s)) λ done s1.
      then_on (in_process s1.0 (create_master core s1.1)) λ made s2.
        if not made
        then (set_master false s2, returns false)
        else take_simevent (set_master true s2)

  unfoldable pub hako_master_init : Guarded St Bool
  hako_master_init = guard false (native take_master)

  -- The functions on the master, which is not looked for: without one they dereference a null pointer.
  abbrev pub with_master : {A : Type 0} → A → (W → W × Attempt A) → Guarded St A
  with_master fail f =
      guard fail
        (native λ (c, (p, w)). if c.master then in_world c p (f w) else ((c, (p, w)), crashes))

  unfoldable pub hako_master_execute : Guarded St Bool
  hako_master_execute = with_master false port.execute

  unfoldable pub hako_master_set_config_simtime : ℕ → ℕ → Guarded St Unit
  hako_master_set_config_simtime max_delay delta =
      with_master tt (port.set_config_simtime max_delay delta)

  unfoldable pub hako_master_get_max_deltay_time_usec : Guarded St ℕ
  hako_master_get_max_deltay_time_usec = with_master 0 port.get_max_deltay_time_usec

  unfoldable pub hako_master_get_delta_time_usec : Guarded St ℕ
  hako_master_get_delta_time_usec = with_master 0 port.get_delta_time_usec
