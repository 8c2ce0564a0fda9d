-- ===== src/Capi/Calls.antt =====
-- The functions of sources/assets/polling/src/hako_capi.cpp that forward to a controller, or to HakoProData.
use hakoniwa_core_pro.Base.{ℕ, ℤ, minus_one, Name, Bool, true, false, Option, none, List, maybe}
use hakoniwa_core_pro.RuntimeError.{Attempt, returns, Guarded, guard}
use hakoniwa_core_pro.Lifecycle.{CorePort}
use hakoniwa_core_pro.Asset.Instance.{AssetEvent, other_event}
use hakoniwa_core_pro.Capi.{
  Controllers, AssetCallback, St, in_world, native, with_asset, with_simevent,
}

module _ {W : Type 0} (core : CorePort W) (port : Controllers W) where
  -- hako_capi_asset_register, with callbacks or not
  unfoldable pub hako_capi_asset_register :
      Name → Option AssetCallback → Guarded (St core port) Bool
  hako_capi_asset_register name callbacks =
      with_asset core port false
        (maybe (port.asset_register_polling name) (λ c. port.asset_register name c) callbacks)

  unfoldable pub hako_asset_register_polling : Name → Guarded (St core port) Bool
  hako_asset_register_polling name = hako_capi_asset_register name none

  unfoldable pub hako_asset_get_event : Name → Guarded (St core port) AssetEvent
  hako_asset_get_event name = with_asset core port other_event (port.asset_get_event name)

  unfoldable pub hako_asset_unregister : Name → Guarded (St core port) Bool
  hako_asset_unregister name = with_asset core port false (port.asset_unregister name)

  unfoldable pub hako_asset_notify_simtime : Name → ℕ → Guarded (St core port) Unit
  hako_asset_notify_simtime name n = with_asset core port tt (port.notify_simtime name n)

  unfoldable pub hako_asset_get_worldtime : Guarded (St core port) ℕ
  hako_asset_get_worldtime = with_asset core port 0 (port.get_worldtime)

  unfoldable pub hako_asset_get_min_asset_time : Guarded (St core port) ℕ
  hako_asset_get_min_asset_time = with_asset core port 0 (port.get_min_asset_time)

  unfoldable pub hako_asset_start_feedback : Name → Bool → Guarded (St core port) Bool
  hako_asset_start_feedback name is_ok = with_asset core port false (port.start_feedback name is_ok)

  unfoldable pub hako_asset_stop_feedback : Name → Bool → Guarded (St core port) Bool
  hako_asset_stop_feedback name is_ok = with_asset core port false (port.stop_feedback name is_ok)

  unfoldable pub hako_asset_reset_feedback : Name → Bool → Guarded (St core port) Bool
  hako_asset_reset_feedback name is_ok = with_asset core port false (port.reset_feedback name is_ok)

  unfoldable pub hako_asset_create_pdu_channel : ℤ → ℕ → Guarded (St core port) Bool
  hako_asset_create_pdu_channel channel_id n =
      with_asset core port false (port.create_pdu_channel channel_id n)

  unfoldable pub hako_asset_create_pdu_lchannel : Name → ℤ → ℕ → Guarded (St core port) Bool
  hako_asset_create_pdu_lchannel name channel_id n =
      with_asset core port false (port.create_pdu_lchannel name channel_id n)

  unfoldable pub hako_asset_get_pdu_channel : Name → ℤ → Guarded (St core port) ℤ
  hako_asset_get_pdu_channel name channel_id =
      with_asset core port minus_one (port.get_pdu_channel name channel_id)

  unfoldable pub hako_asset_is_pdu_dirty : Name → Name → ℤ → Guarded (St core port) Bool
  hako_asset_is_pdu_dirty name robo_name channel_id =
      with_asset core port false (port.is_pdu_dirty name robo_name channel_id)

  unfoldable pub hako_asset_write_pdu : Name → Name → ℤ → List ℕ → Guarded (St core port) Bool
  hako_asset_write_pdu name robo_name channel_id pdu_data =
      with_asset core port false (port.write_pdu name robo_name channel_id pdu_data)

  unfoldable pub hako_asset_read_pdu :
      Name → Name → ℤ → ℕ → Guarded (St core port) (Option (List ℕ))
  hako_asset_read_pdu name robo_name channel_id n =
      with_asset core port none (port.read_pdu name robo_name channel_id n)

  unfoldable pub hako_asset_write_pdu_nolock : Name → ℤ → List ℕ → Guarded (St core port) Bool
  hako_asset_write_pdu_nolock name channel_id pdu_data =
      with_asset core port false (port.write_pdu_nolock name channel_id pdu_data)

  unfoldable pub hako_asset_read_pdu_nolock :
      Name → ℤ → ℕ → Guarded (St core port) (Option (List ℕ))
  hako_asset_read_pdu_nolock name channel_id n =
      with_asset core port none (port.read_pdu_nolock name channel_id n)

  unfoldable pub hako_asset_notify_read_pdu_done : Name → Guarded (St core port) Unit
  hako_asset_notify_read_pdu_done name = with_asset core port tt (port.notify_read_pdu_done name)

  unfoldable pub hako_asset_notify_write_pdu_done : Name → Guarded (St core port) Unit
  hako_asset_notify_write_pdu_done name = with_asset core port tt (port.notify_write_pdu_done name)

  unfoldable pub hako_asset_is_pdu_sync_mode : Name → Guarded (St core port) Bool
  hako_asset_is_pdu_sync_mode name = with_asset core port false (port.is_pdu_sync_mode name)

  unfoldable pub hako_asset_is_simulation_mode : Guarded (St core port) Bool
  hako_asset_is_simulation_mode = with_asset core port false (port.is_simulation_mode)

  unfoldable pub hako_asset_is_pdu_created : Guarded (St core port) Bool
  hako_asset_is_pdu_created = with_asset core port false (port.is_pdu_created)

  unfoldable pub hako_simevent_get_state : Guarded (St core port) ℤ
  hako_simevent_get_state = with_simevent core port minus_one port.state

  unfoldable pub hako_simevent_start : Guarded (St core port) Bool
  hako_simevent_start = with_simevent core port false port.start

  unfoldable pub hako_simevent_stop : Guarded (St core port) Bool
  hako_simevent_stop = with_simevent core port false port.stop

  unfoldable pub hako_simevent_reset : Guarded (St core port) Bool
  hako_simevent_reset = with_simevent core port false port.reset

  -- The functions on receive events, on the HakoProData of the process.
  abbrev pub with_pro_data : (W → W × Attempt Bool) → Guarded (St core port) Bool
  with_pro_data f = guard false (
      native core port λ (c, (p, w)).
        maybe ((c, (p, w)), returns false) (λ d. in_world core port c p (f w)) p.pro_data)

  unfoldable pub hako_capi_asset_register_data_recv_event : Name → ℤ → Guarded (St core port) Bool
  hako_capi_asset_register_data_recv_event robo_name lchannel =
      with_pro_data (port.register_data_recv_event robo_name lchannel)

  unfoldable pub hako_capi_asset_check_data_recv_event :
      Name → Name → ℤ → Guarded (St core port) Bool
  hako_capi_asset_check_data_recv_event asset_name robo_name lchannel =
      with_pro_data (port.get_recv_event asset_name robo_name lchannel)

  unfoldable pub hako_capi_asset_set_data_recv_event_pending :
      Name → ℤ → Guarded (St core port) Bool
  hako_capi_asset_set_data_recv_event_pending robo_name lchannel =
      with_pro_data (port.set_recv_event_pending robo_name lchannel true)

  unfoldable pub hako_capi_asset_set_data_recv_event_resume : Name → ℤ → Guarded (St core port) Bool
  hako_capi_asset_set_data_recv_event_resume robo_name lchannel =
      with_pro_data (port.set_recv_event_pending robo_name lchannel false)
