-- ===== src/Asset/Instance.antt =====
-- HakoAssetType of sources/assets/callback/src/hako_asset_impl.hpp, and what the functions on it call. The
-- controllers, the clock and the other processes are in a state `W`; each call may change it, so a state that
-- is read again may be another. A hako_time_t is a natural number: times are never negative here.
use hakoniwa_core_pro.Base.{
  Name, ℕ, ℤ, Bool, true, false, Option, none, some, List, if◌then◌else◌, maybe,
}
use hakoniwa_core_pro.Asset.{RobotCompact}

-- HakoSimulationStateType, with any value that it does not define.
pub data SimState : Type 0 where
  stopped runnable running stopping resetting error terminated undefined : SimState

abbrev pub is_running : SimState → Bool
is_running running = true
is_running _ = false

abbrev pub is_stopped : SimState → Bool
is_stopped stopped = true
is_stopped _ = false

-- HakoSimulationAssetEventType
pub data AssetEvent : Type 0 where
  no_event start_event stop_event reset_event other_event : AssetEvent

-- `target == event`, for the targets that the code waits for
abbrev pub is_event : AssetEvent → AssetEvent → Bool
is_event start_event start_event = true
is_event stop_event stop_event = true
is_event reset_event reset_event = true
is_event no_event no_event = true
is_event other_event other_event = true
is_event _ _ = false

-- hako_asset_callbacks_s; the callbacks of the user are assumed not to call this interface themselves.
pub record Callbacks (W : Type 0) : Type 0 where
  pub on_initialize : Option (W → W)
  pub on_simulation_step : Option (W → W)
  pub on_manual_timing_control : Option (W → W × ℤ)
  pub on_reset : Option (W → W)

-- HakoAssetType; of the controllers it matters whether they are there.
pub record Asset (W : Type 0) : Type 0 where
  pub is_initialized : Bool
  pub external_use : Bool
  pub asset_name : Name
  pub delta_usec : ℕ
  pub current_usec : ℕ
  pub callback : Option (Callbacks W)
  pub hako_asset : Bool
  pub hako_sim : Bool
  pub robots_compact : List RobotCompact

-- IHakoAssetController and IHakoSimulationEventController of hakoniwa-core-cpp, usleep, and the
-- callbacks of receive events on the HakoProData of the process, if it has one.
pub record Port (W : Type 0) : Type 0 where
  pub state : W → W × SimState
  pub asset_get_event : Name → W → W × AssetEvent
  pub is_pdu_created : W → W × Bool
  pub is_pdu_sync_mode : Name → W → W × Bool
  pub is_simulation_mode : W → W × Bool
  pub get_worldtime : W → W × ℕ
  pub get_min_asset_time : W → W × ℕ
  pub notify_simtime : Name → ℕ → W → W
  pub notify_write_pdu_done : Name → W → W
  pub start_feedback : Name → W → W
  pub stop_feedback : Name → W → W
  pub reset_feedback : Name → W → W
  pub call_recv_event_callbacks : Option Name → W → W
  pub usleep : ℕ → W → W
  pub read_pdu : Option Name → Name → ℤ → ℕ → W → W × Bool
  pub write_pdu : Option Name → Name → ℤ → List ℕ → W → W × Bool
  pub start : W → W × Bool
  pub stop : W → W × Bool
  pub reset : W → W × Bool

abbrev pub St : Type 0 → Type 0
St W = Asset W × W

-- A call that answers, one that does not, and a callback that may be missing.
abbrev pub asks : {W A B : Type 0} → (W → W × A) → St W → (A → St W → B) → B
asks f (a, w) k = let (w', x) = f w in k x (a, w')

abbrev pub tells : {W : Type 0} → (W → W) → St W → St W
tells f (a, w) = (a, f w)

abbrev pub calls : {W : Type 0} → (Callbacks W → Option (W → W)) → St W → St W
calls which (a, w) = (a, maybe w (λ c. maybe w (λ f. f w) (which c)) a.callback)

-- is_force_stop; it may be `nullptr`.
abbrev pub ForceStop : Type 0 → Type 0
ForceStop W = Option (W → W × Bool)

abbrev pub unless_forced : {W B : Type 0} → ForceStop W → St W → (St W → B) → (St W → B) → B
unless_forced none s stop go = go s
unless_forced (some f) s stop go = asks f s λ forced s'. if forced then stop s' else go s'

abbrev pub set_current : {W : Type 0} → ℕ → St W → St W
set_current t (a, w) = (record a { current_usec = t }, w)
