-- ===== src/Tests/Assets.antt =====
-- An asset in a world that is its own clock (sources/assets/callback/src).
use hakoniwa_core_pro.Base.{
  ℕ, ◌/◌, ◌%◌, suc, ◌+◌, ◌*◌, ◌<◌, ◌≤◌, ltb, ◌≡◌, refl, arith, Bool, true, false, Option, none,
  some, [], ◌∷◌, Name, if◌then◌else◌, ◌==◌, pos, name_eq,
}
use hakoniwa_core_pro.Asset.{PduIoEntry, add_entries}
use hakoniwa_core_pro.Asset.Unique.{add_entries-first_of_each, first_of_each, known}
use hakoniwa_core_pro.Asset.Instance.{
  stopped, running, no_event, stop_event, reset_event, Asset, Port,
}
use hakoniwa_core_pro.Asset.Loop.{
  step, step_to, proc, execute, not_yet, simulation_step, wait_restart, wait_event, after_event,
  handle,
}
use hakoniwa_core_pro.Asset.Clock.{step_exact}
use hakoniwa_core_pro.Asset.Restart.{KnownEvents, Restarted, interrupted_resets}
use hakoniwa_core_pro.Asset.Steady.{Steady, StepsWell, step_ends}
use hakoniwa_core_pro.Asset.Setup.{
  SetupPort, no_asset, get_controllers, robots_of, impl_attach_core,
}
use hakoniwa_core_pro.Asset.Config.{content, legacy, malformed, parse_robots, legacy_robots}
use hakoniwa_core_pro.Asset.Reply.{success, crash, out_of_fuel}
use hakoniwa_core_pro.Asset.Api.{
  hako_asset_attach_core_with_name, hako_asset_usleep_no_wait, step_on,
}
use hakoniwa_core_pro.Asset.Initialized.{
  HasControllers, run, attach_core, initialize_for_external, init, run-HasControllers,
}
use hakoniwa_core_pro.Asset.Misuse.{attached_has_no_period}
use hakoniwa_core_pro.Asset.Sleep.{hako_asset_usleep_no_wait-sleeps}

abbrev entry : Name → ℕ → PduIoEntry
entry name channel = record {
  io = record { type = []; channel_id = pos channel; pdu_size = pos 8 };
  name = name;
}

-- Names with the separator in them.
add_entries-first_of_each_example :
    (add_entries
      (entry (b'a' ∷ []) 12 ∷ entry (b'a' ∷ b'|' ∷ b'1' ∷ []) 2 ∷ entry (b'a' ∷ []) 12 ∷ [])
      (record { name = []; pdus = [] }, [])).0.pdus
    ≡ first_of_each
        (entry (b'a' ∷ []) 12 ∷ entry (b'a' ∷ b'|' ∷ b'1' ∷ []) 2 ∷ entry (b'a' ∷ []) 12 ∷ [])
        []
add_entries-first_of_each_example =
    add_entries-first_of_each
      (entry (b'a' ∷ []) 12 ∷ entry (b'a' ∷ b'|' ∷ b'1' ∷ []) 2 ∷ entry (b'a' ∷ []) 12 ∷ []) []

keeps_two :
    first_of_each
      (entry (b'a' ∷ []) 12 ∷ entry (b'a' ∷ b'|' ∷ b'1' ∷ []) 2 ∷ entry (b'a' ∷ []) 12 ∷ [])
      []
    ≡ entry (b'a' ∷ []) 12 ∷ entry (b'a' ∷ b'|' ∷ b'1' ∷ []) 2 ∷ []
unfolding first_of_each known name_eq
keeps_two = refl

-- The conductor moves the time on with each notification, up to 20 ahead.
abbrev running_port : Port ℕ
running_port = record {
  state = λ w. (w, running);
  asset_get_event = λ n w. (w, no_event);
  is_pdu_created = λ w. (w, true);
  is_pdu_sync_mode = λ n w. (w, false);
  is_simulation_mode = λ w. (w, true);
  get_worldtime = λ w. (w, w);
  get_min_asset_time = λ w. (w, w);
  notify_simtime = λ n t w. if ltb w (t + 20) then w + 1 else w;
  notify_write_pdu_done = λ n w. w;
  start_feedback = λ n w. w;
  stop_feedback = λ n w. w;
  reset_feedback = λ n w. w;
  call_recv_event_callbacks = λ o w. w;
  usleep = λ t w. w;
  read_pdu = λ o r c l w. (w, true);
  write_pdu = λ o r c b w. (w, true);
  start = λ w. (w, true);
  stop = λ w. (w, true);
  reset = λ w. (w, true);
}

abbrev robot : Asset ℕ
robot = record no_asset {
  is_initialized = true;
  delta_usec = 10;
  hako_asset = true;
  hako_sim = true;
}

-- Its conductor needs two notifications for each microsecond.
abbrev slow_port : Port ℕ
slow_port = record running_port { get_worldtime = λ w. (w, w / 2); notify_simtime = λ n t w. w + 1 }

slow : Steady slow_port (λ w. Unit) (λ w. w / 2) (λ w. w % 2) 1 20
slow = record {
  bounded = λ w g. omega arith;
  notifies = λ n t w g. (tt, omega arith);
  ticks = λ n t w g h. omega arith;
  runs = λ w g. (refl, tt, omega arith);
  creates = λ w g. (refl, tt, omega arith);
  syncs = λ n w g. (refl, tt, omega arith);
  simulates = λ w g. (refl, tt, omega arith);
  tells_time = λ w g. (refl, tt, omega arith);
  receives = λ o w g. (tt, omega arith);
}

step_ends_example :
    ((step slow_port 24 2 none (robot, 0)).1 ≡ some true)
    × ((step slow_port 24 2 none (robot, 0)).0.0 ≡ record robot { current_usec = 20 })
    × (20 ≤ (step slow_port 24 2 none (robot, 0)).0.1 / 2)
unfolding StepsWell
step_ends_example =
    step_ends slow_port (λ w. Unit) (λ w. w / 2) (λ w. w % 2) 1 20 slow 2 robot 0
      (λ c f none_set. cc) (omega arith) tt (omega arith)

step_exact_example :
    (record robot { current_usec = 20 }) ≡ record robot { current_usec = 0 + 2 * 10 }
unfolding step step_to proc execute not_yet simulation_step
step_exact_example =
    step_exact running_port 14 2 none (robot, 0) (record robot { current_usec = 20 }, 20) refl

-- A world in which the run has ended: the asset gets a stop, and then a reset.
abbrev ending_port : Port ℕ
ending_port = record running_port {
  state = λ w. (w, stopped);
  asset_get_event = λ n w. (w + 1, if w == 0 then stop_event else reset_event);
  notify_simtime = λ n t w. w;
}

known_events : KnownEvents ending_port
unfolding KnownEvents
known_events n w e = ground (arith, e)

abbrev stepped : Asset ℕ
stepped = record robot { current_usec = 10 }

interrupted_resets_example : Restarted ending_port (robot, 2)
unfolding step step_to proc execute not_yet wait_restart wait_event after_event handle
interrupted_resets_example =
    interrupted_resets ending_port 5 1 (stepped, 0) (robot, 2) known_events refl

abbrev setup : SetupPort ℕ
setup = record {
  open_config = λ path w. content (legacy []);
  open_types = λ w path. malformed;
  create_asset_controller = λ w. (w, true);
  get_simevent_controller = λ w. (w, true);
  asset_register_polling = λ n w. (w, true);
  has_pro_data = λ w. true;
  lock_master = λ w. w;
  unlock_master = λ w. w;
  create_pdu_lchannel = λ r c n w. (w, true);
}

abbrev attached : Asset ℕ
attached = record no_asset {
  is_initialized = true;
  asset_name = b'x' ∷ [];
  hako_asset = true;
  hako_sim = true;
}

attached_has_no_period_example :
    ((fuel t : ℕ) (force : Option (ℕ → ℕ × Bool))
      → hako_asset_usleep_no_wait running_port setup fuel (suc t) force (attached, 0)
        ≡ ((attached, 0), crash))
    × ((fuel : ℕ) (force : Option (ℕ → ℕ × Bool))
        → step_on running_port setup fuel force (attached, 0) ≡ ((attached, 0), out_of_fuel))
unfolding hako_asset_attach_core_with_name impl_attach_core robots_of parse_robots legacy_robots
    get_controllers
attached_has_no_period_example =
    attached_has_no_period running_port setup (some (b'x' ∷ [])) (some (b'c' ∷ [])) (no_asset, 0)
      (attached, 0) refl refl

hako_asset_usleep_no_wait-sleeps_example :
    (fuel : ℕ) × (let (s', reply) =
        hako_asset_usleep_no_wait slow_port setup fuel 15 none (robot, 0) in
      (reply ≡ success)
      × (0 + 15 ≤ s'.0.current_usec)
      × (s'.0.current_usec < 0 + 15 + 10)
      × (s'.0.current_usec ≤ s'.1 / 2))
unfolding StepsWell
hako_asset_usleep_no_wait-sleeps_example =
    hako_asset_usleep_no_wait-sleeps slow_port setup (λ w. Unit) (λ w. w / 2) (λ w. w % 2) 1 20 slow
      15 robot 0 (omega arith) (omega arith) refl (λ c f none_set. cc) (omega arith) tt
      (omega arith)

run-HasControllers_example :
    HasControllers
      (run setup
        ((attach_core (some (b'x' ∷ [])) none, λ w. w + 1)
          ∷ (initialize_for_external, λ w. w)
          ∷ (init (b'x' ∷ []) (b'c' ∷ []) 10, λ w. w)
          ∷ [])
        (no_asset, 0)).0
run-HasControllers_example =
    run-HasControllers setup
      ((attach_core (some (b'x' ∷ [])) none, λ w. w + 1)
        ∷ (initialize_for_external, λ w. w)
        ∷ (init (b'x' ∷ []) (b'c' ∷ []) 10, λ w. w)
        ∷ [])
      0
