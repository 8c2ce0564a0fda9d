-- ===== src/Asset/Setup.antt =====
-- How the instance of an asset is set up (hako_asset_impl_init, hako_asset_impl_attach_core,
-- hako_asset_impl_initialize_for_external and hako_asset_impl_register_callback of
-- sources/assets/callback/src/hako_asset_impl.cpp).
use hakoniwa_core_pro.Base.{
  Name, ℕ, ℤ, Bool, true, false, not, Option, none, some, List, [], ◌∷◌, if◌then◌else◌, maybe,
}
use hakoniwa_core_pro.Asset.{PduIoEntry, RobotCompact}
use hakoniwa_core_pro.Asset.Config.{
  File, missing, malformed, content, Entries, Document, threw, refused, parsed, parse_robots,
}
use hakoniwa_core_pro.Asset.Instance.{Callbacks, Asset, St, asks, tells}

-- What the set-up calls: the controllers (sources/core/src/hako_pro.cpp), files, and hakoniwa-core-cpp.
pub record SetupPort (W : Type 0) : Type 0 where
  pub open_config : Name → W → File Document
  pub open_types : W → Name → File Entries
  pub create_asset_controller : W → W × Bool
  pub get_simevent_controller : W → W × Bool
  pub asset_register_polling : Name → W → W × Bool
  pub has_pro_data : W → Bool
  pub lock_master : W → W
  pub unlock_master : W → W
  pub create_pdu_lchannel : Name → ℤ → ℤ → W → W × Bool

-- Without an instance: the zeros of a global.
abbrev pub no_asset : {W : Type 0} → Asset W
no_asset = record {
  is_initialized = false;
  external_use = false;
  asset_name = [];
  delta_usec = 0;
  current_usec = 0;
  callback = none;
  hako_asset = false;
  hako_sim = false;
  robots_compact = [];
}

-- "None"
abbrev pub none_name : Name
none_name = b'N' ∷ b'o' ∷ b'n' ∷ b'e' ∷ []

module _ {W : Type 0} (port : SetupPort W) where
  -- The robots of a configuration file; `none` where the function returns false.
  unfoldable pub robots_of : Name → W → Option (List RobotCompact)
  robots_of config_path w = elim (port.open_config config_path w) [
    | missing ↦ none
    | malformed ↦ none
    | content document ↦ elim (parse_robots (port.open_types w) config_path document) [
      | threw ↦ none
      | refused ↦ none
      | parsed robots ↦ some robots
    ]
  ]

  -- Both controllers, in this order.
  unfoldable pub get_controllers : St W → St W × Bool
  get_controllers s = asks port.create_asset_controller s λ asset s1.
      let (a1, w1) = s1 in
      let s2 : St W = (record a1 { hako_asset = asset }, w1) in
      if not asset
      then (s2, false)
      else asks port.get_simevent_controller s2
          λ sim s3. let (a3, w3) = s3 in ((record a3 { hako_sim = sim }, w3), sim)

  unfoldable pub create_channels_of : Name → List PduIoEntry → W → W × Bool
  create_channels_of robot_name [] w = (w, true)
  create_channels_of robot_name (e ∷ es) w =
      let (w1, made) = port.create_pdu_lchannel robot_name e.io.channel_id e.io.pdu_size w in
      if not made then (w1, false) else create_channels_of robot_name es w1

  -- The loop that creates the PDU channels.
  unfoldable pub create_channels : List RobotCompact → W → W × Bool
  create_channels [] w = (w, true)
  create_channels (r ∷ rs) w =
      let (w1, made) = create_channels_of r.name r.pdus w in
      if not made then (w1, false) else create_channels rs w1

  abbrev pub initialized : St W → St W
  initialized (a, w) = (record a { is_initialized = true }, w)

  -- The end of hako_asset_impl_init, from asset_register_polling on.
  unfoldable pub register_and_create : Name → St W → St W × Bool
  register_and_create asset_name s =
      asks (port.asset_register_polling asset_name) s λ registered s1.
        if not registered
        then (s1, false)
        else if not (port.has_pro_data s1.1)
        then (s1, false)
        else asks (λ w. create_channels s1.0.robots_compact w) (tells port.lock_master s1)
            λ made s2.
              let s3 = tells port.unlock_master s2 in
              if not made then (s3, false) else (initialized s3, true)

  -- What hako_asset_impl_init sets before it opens the file: name and times stay.
  abbrev pub cleared : Asset W → Asset W
  cleared a = record a {
    is_initialized = false;
    external_use = false;
    callback = none;
    hako_asset = false;
    hako_sim = false;
    robots_compact = [];
  }

  abbrev pub config_opens : Name → W → Bool
  config_opens config_path w = elim (port.open_config config_path w) [
    | missing ↦ false
    | malformed ↦ true
    | content document ↦ true
  ]

  -- hako_asset_impl_init
  unfoldable pub impl_init : Name → Name → ℕ → St W → St W × Bool
  impl_init asset_name config_path delta_usec (a, w) =
      if not (config_opens config_path w)
      then ((cleared a, w), false)
      else let a1 = record (cleared a) {
        asset_name = asset_name;
        delta_usec = delta_usec;
        current_usec = 0;
      } in
        maybe ((a1, w), false)
          (λ robots.
            let (s2, found) = get_controllers (record a1 { robots_compact = robots }, w) in
            if not found then (s2, false) else register_and_create asset_name s2)
          (robots_of config_path w)

  -- hako_asset_impl_attach_core; `none` is a null pointer.
  unfoldable pub impl_attach_core : Option Name → Option Name → St W → St W × Bool
  impl_attach_core none config_path s = (s, false)
  impl_attach_core (some []) config_path s = (s, false)
  impl_attach_core (some (c ∷ cs)) none s = (s, false)
  impl_attach_core (some (c ∷ cs)) (some config_path) (a, w) =
      if a.is_initialized
      then ((a, w), false)
      else let a1 : Asset W = record no_asset { asset_name = c ∷ cs } in
        maybe ((a1, w), false)
          (λ robots.
            let (s2, found) = get_controllers (record a1 { robots_compact = robots }, w) in
            if not found then (s2, false) else (initialized s2, true))
          (robots_of config_path w)

  -- hako_asset_impl_initialize_for_external
  unfoldable pub impl_initialize_for_external : St W → St W × Bool
  impl_initialize_for_external (a, w) =
      if a.is_initialized
      then ((a, w), false)
      else let a1 : Asset W = record no_asset { external_use = true; asset_name = none_name } in
        let (s2, found) = get_controllers (a1, w) in
        if not found then (s2, false) else (initialized s2, true)

  -- hako_asset_impl_register_callback
  unfoldable pub impl_register_callback : Callbacks W → St W → St W × Bool
  impl_register_callback callback (a, w) =
      if a.external_use then ((a, w), false) else ((record a { callback = some callback }, w), true)

  -- hako_asset_impl_pdu_create, as an int
  unfoldable pub impl_pdu_create : Name → ℤ → ℤ → St W → St W × Bool
  impl_pdu_create robo_name lchannel pdu_size s =
      if not s.0.is_initialized
      then (s, false)
      else asks (port.create_pdu_lchannel robo_name lchannel pdu_size) s λ made s1. (s1, made)
