-- ===== src/Asset/Events.antt =====
-- The functions of sources/assets/callback/src/hako_asset.cpp on the events of PDU data and of the simulation,
-- behind their error boundary.
use hakoniwa_core_pro.Base.{
  Name, ℕ, ℤ, pos, negsuc, Bool, true, false, not, ◌==◌, Option, none, some, if◌then◌else◌, maybe,
}
use hakoniwa_core_pro.Asset.Instance.{is_stopped, Asset, Port, St, asks}
use hakoniwa_core_pro.Asset.Reply.{Reply, enoent, eio, einval, text, require_stopped_state, int_of}

-- What the functions on receive events call: the methods of HakoProData, where the process has it. An id
-- that is registered is `some`.
pub record EventPort (W : Type 0) : Type 0 where
  pub register_data_recv_event : Name → ℤ → Option ℕ → W → W × Option ℕ
  pub get_recv_event : Option Name → Name → ℤ → W → W × Bool
  pub set_recv_event_pending : ℤ → Bool → W → W × Bool

module _ {W : Type 0} (events : EventPort W) where
  abbrev pub event_name : Asset W → Option Name
  event_name a = if a.external_use then none else some a.asset_name

  -- hako_asset_register_data_recv_event; the last argument says whether there is a place for the id.
  unfoldable pub hako_asset_register_data_recv_event :
      Option Name → ℤ → Option ℕ → Bool → St W → St W × (Reply × Option ℕ)
  hako_asset_register_data_recv_event robo_name lchannel on_recv has_place s =
      if not s.0.is_initialized
      then (s, (einval, none))
      else maybe (s, (einval, none))
          (λ name.
            if not has_place
            then (s, (einval, none))
            else if not s.0.hako_asset
            then (s, (einval, none))
            else asks (events.register_data_recv_event name lchannel on_recv) s
                λ id s1. (s1, (int_of (maybe false (λ i. true) id) einval, id)))
          (text robo_name)

  -- hako_asset_check_data_recv_event
  unfoldable pub hako_asset_check_data_recv_event : Option Name → ℤ → St W → St W × Reply
  hako_asset_check_data_recv_event robo_name lchannel s =
      if not s.0.is_initialized
      then (s, einval)
      else maybe (s, einval)
          (λ name.
            if not s.0.hako_asset
            then (s, enoent)
            else asks (events.get_recv_event (event_name s.0) name lchannel) s
                λ found s1. (s1, int_of found enoent))
          (text robo_name)

  -- hako_asset_set_data_recv_event_pending and _resume
  unfoldable pub set_pending : Bool → ℤ → St W → St W × Reply
  set_pending pending (negsuc n) s = (s, einval)
  set_pending pending (pos id) s =
      if not s.0.is_initialized
      then (s, einval)
      else if not s.0.hako_asset
      then (s, enoent)
      else asks (events.set_recv_event_pending (pos id) pending) s
          λ done s1. (s1, int_of done enoent)

module _ {W : Type 0} (port : Port W) where
  -- The switch of hako_trigger_event.
  unfoldable pub trigger : ℤ → St W → St W × Reply
  trigger (negsuc n) s = (s, einval)
  trigger (pos event) s =
      if event == 0
      then asks port.start s (λ ok s1. (s1, int_of ok eio))
      else if event == 1
      then asks port.stop s (λ ok s1. (s1, int_of ok eio))
      else if event == 2
      then asks port.reset s (λ ok s1. (s1, int_of ok eio))
      else (s, einval)

  -- hako_trigger_event
  unfoldable pub hako_trigger_event : ℤ → St W → St W × Reply
  hako_trigger_event event s =
      if not s.0.is_initialized
      then (s, einval)
      else asks port.state s λ state s1.
        if not (is_stopped state) then (s1, require_stopped_state state) else trigger event s1
