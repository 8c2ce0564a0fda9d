-- ===== src/Tests/Processes.antt =====
-- A process, its tables, and the conductor (sources/core/src, sources/conductor/src and
-- sources/assets/polling/src/hako_capi.cpp).
use hakoniwa_core_pro.Base.{ℕ, ◌+◌, ◌≡◌, refl, arith, true, false, not, none, some, [], ◌==◌, pos}
use hakoniwa_core_pro.RecvEvent.{Master}
use hakoniwa_core_pro.RecvEvent.Invariant.{empty_table-IsValid}
use hakoniwa_core_pro.RuntimeError.{
  RuntimeError, returns, throws, std_exception, result, crash, no_error, hako_runtime_clear_error,
  hako_runtime_last_error_status,
}
use hakoniwa_core_pro.Session.{
  Memory, Session, Platform, empty_memory, attached, on_pdu_data_create,
}
use hakoniwa_core_pro.Session.RunStart.{StartsRun, on_pdu_data_create-StartsRun}
use hakoniwa_core_pro.Service.{index_of}
use hakoniwa_core_pro.Lifecycle.{
  Config, CorePort, Process, fresh_process, shm, uninitialized, create_asset_controller,
  get_simevent_controller, State,
}
use hakoniwa_core_pro.Lifecycle.Ready.{loaded, controllers_either_order}
use hakoniwa_core_pro.Conductor.{
  Conductor, ConductorPort, ends, impl_start, impl_stop, thread_round, with_conductor,
}
use hakoniwa_core_pro.Conductor.Restart.{restart_does_nothing}
use hakoniwa_core_pro.Capi.{no_capi, Controllers, hako_asset_init, with_asset}
use hakoniwa_core_pro.Capi.Retry.{hako_asset_init_retry}
use hakoniwa_core_pro.Capi.Errors.{Reports, with_asset-Reports}
use hakoniwa_core_pro.Asset.Instance.{no_event}

abbrev master : Master
master = record { asset_id = λ name. some 0; pdu_channel = λ name channel. none; channel_max = 100 }

abbrev pub platform : Platform
platform = record { opens_lock = true; creates_memory = true; loads_memory = true }

-- A process that has not been attached yet, beside the memory of another.
abbrev beside : Session
beside = record uninitialized { memory = some empty_memory }

on_pdu_data_create-StartsRun_example :
    let (s', started) = on_pdu_data_create platform beside in
    (started ≡ true)
    × (n : Memory) × (attached s' ≡ some n)
    × StartsRun master empty_memory n
    × (s'.service_name_to_id ≡ index_of n.service_table)
on_pdu_data_create-StartsRun_example =
    on_pdu_data_create-StartsRun master platform beside empty_memory refl refl refl
      empty_table-IsValid (omega arith)

-- The world says whether the conductor is there.
abbrev pub config : Config
config = record { shm_type = some shm; asset_timeout_usec = none }

abbrev pub core : CorePort ℕ
core = record {
  config_load = λ w. returns (some config);
  init_master = λ t w. (w, returns tt);
  load_master = λ t w. (w, returns (not (w == 0)));
  shared_memory = λ t w. returns uninitialized;
  platform = λ w. platform;
  is_master_process = λ w. true;
  destroy_pro_memory = λ w. w;
  destroy_master = λ w. w;
}

controllers_either_order_example :
    let both : State core =
      (record (loaded core config shm uninitialized) { asset = true; simevent = true }, 1) in
    let (s1, r1) = create_asset_controller core (fresh_process, 1) in
    let (s2, r2) = get_simevent_controller core (fresh_process, 1) in
    (r1 ≡ returns true)
    × (r2 ≡ returns true)
    × (get_simevent_controller core s1 ≡ (both, returns true))
    × (create_asset_controller core s2 ≡ (both, returns true))
    × (create_asset_controller core both ≡ (both, returns true))
    × (get_simevent_controller core both ≡ (both, returns true))
controllers_either_order_example =
    controllers_either_order core 1 1 config shm uninitialized refl refl refl refl

abbrev conductor_port : ConductorPort ℕ
conductor_port = record {
  set_config_simtime = λ m d w. (w, returns tt);
  execute = λ w. (w + 1, returns true);
  yield = λ w. w;
  sleep_for = λ t w. w;
  wait = λ w. w;
  idle_sleep_usec = 0;
}

restart_does_nothing_example :
    (w' : ℕ) × (let stopped : Conductor = record { conductor = false; cmd_stop = true } in
      (impl_stop core conductor_port 3 hako_runtime_clear_error
          (record { conductor = true; cmd_stop = false }, (fresh_process, 7))
        ≡ some (hako_runtime_clear_error, (stopped, (fresh_process, w'))))
      × ((c2 : Conductor) (s s2 : Process × ℕ) (e2 : RuntimeError)
          → impl_start core conductor_port 10 20 (stopped, s) ≡ ((c2, s2), returns true)
          → thread_round core conductor_port e2 (c2, s2)
            ≡ ends (e2, (with_conductor core conductor_port false c2, s2))))
restart_does_nothing_example =
    restart_does_nothing core conductor_port 1 10 20 hako_runtime_clear_error
      (record { conductor = true; cmd_stop = false }) fresh_process 7

abbrev controllers : Controllers ℕ
controllers = record {
  asset_register = λ n c w. (w, returns true);
  asset_register_polling = λ a w. (w, returns true);
  asset_get_event = λ a w. (w, returns no_event);
  asset_unregister = λ a w. (w, returns true);
  notify_simtime = λ a b w. (w, returns tt);
  get_worldtime = λ w. (w, returns 0);
  get_min_asset_time = λ w. (w, returns 0);
  start_feedback = λ a b w. (w, returns true);
  stop_feedback = λ a b w. (w, returns true);
  reset_feedback = λ a b w. (w, returns true);
  create_pdu_channel = λ a b w. (w, returns true);
  create_pdu_lchannel = λ a b c w. (w, returns true);
  get_pdu_channel = λ a b w. (w, returns (pos 0));
  is_pdu_dirty = λ a b c w. (w, returns true);
  write_pdu = λ a b c d w. (w, returns true);
  read_pdu = λ a b c d w. (w, returns none);
  write_pdu_nolock = λ a b c w. (w, returns true);
  read_pdu_nolock = λ a b c w. (w, returns none);
  notify_read_pdu_done = λ a w. (w, returns tt);
  notify_write_pdu_done = λ a w. (w, returns tt);
  is_pdu_sync_mode = λ a w. (w, returns true);
  is_simulation_mode = λ w. (w, returns true);
  is_pdu_created = λ w. (w, returns true);
  state = λ w. (w, returns (pos 0));
  start = λ w. (w, returns true);
  stop = λ w. (w, returns true);
  reset = λ w. (w, returns true);
  execute = λ w. (w, returns true);
  set_config_simtime = λ m d w. (w, returns tt);
  get_max_deltay_time_usec = λ w. (w, returns 20);
  get_delta_time_usec = λ w. (w, returns 10);
  register_data_recv_event = λ r c w. (w, returns true);
  get_recv_event = λ a r c w. (w, returns true);
  set_recv_event_pending = λ r c b w. (w, returns true);
}

hako_asset_init_retry_example :
    let (e1, s1, first) =
      hako_asset_init core controllers hako_runtime_clear_error (no_capi, (fresh_process, 0)) in
    (first ≡ result false)
    × (hako_runtime_last_error_status e1 ≡ no_error)
    × ((e2 : RuntimeError) (later : ℕ)
        → (hako_asset_init core controllers e2 (s1.0, (s1.1.0, later))).2 ≡ crash)
hako_asset_init_retry_example =
    hako_asset_init_retry core controllers hako_runtime_clear_error 0 0 config shm refl refl refl

-- A call that throws on its way through the interface.
with_asset-Reports_example :
    let (e', s', outcome) =
      with_asset core controllers {A = ℕ} 0
        (λ w. (w + 1, throws (std_exception [])))
        hako_runtime_clear_error
        (record no_capi { asset = true }, (fresh_process, 4)) in
    (s' ≡ (record no_capi { asset = true }, (fresh_process, 5)))
    × Reports {A = ℕ} 0 (throws (std_exception [])) (hako_runtime_last_error_status e', outcome)
with_asset-Reports_example =
    with_asset-Reports core controllers {A = ℕ} 0 (λ w. (w + 1, throws (std_exception [])))
      hako_runtime_clear_error (record no_capi { asset = true }) fresh_process 4 refl
