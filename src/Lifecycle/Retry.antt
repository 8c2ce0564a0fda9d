-- ===== src/Lifecycle/Retry.antt =====
-- A process whose first attempt to get a controller fails, and its next (sources/core/src/hako_pro.cpp).
use hakoniwa_core_pro.Base.{◌≡◌, refl, ap, true, false, none, some, Name}
use hakoniwa_core_pro.RuntimeError.{returns, crashes}
use hakoniwa_core_pro.Lifecycle.{
  Config, CorePort, fresh_process, State, load_core, register_extension, create_asset_controller,
  get_simevent_controller, new_master_data,
}

module _ {W : Type 0} (port : CorePort W) where
  -- The process after an attempt that came no further than its master data.
  abbrev pub half_made : W → State port
  half_made w = (record fresh_process { master_data = some new_master_data }, w)

  load_without_config :
      (w : W)
      → port.config_load w ≡ returns none
      → load_core port (fresh_process, w) ≡ (half_made w, returns false)
  unfolding load_core
  load_without_config w none_found = rw none_found refl

  pub load_without_master :
      (w w' : W) (c : Config) (type : Name)
      → port.config_load w ≡ returns (some c)
      → c.shm_type ≡ some type
      → port.load_master type w ≡ (w', returns false)
      → load_core port (fresh_process, w) ≡ (half_made w', returns false)
  unfolding load_core
  load_without_master w w' c type found typed unloaded =
      rw (found, typed, ap (λ x. x.1) unloaded, ap (λ x. x.0) unloaded) refl

  -- What a process that is half made does next.
  pub record IsBroken (s : State port) : Type 0 where
    pub asset_crashes : (create_asset_controller port s).1 ≡ crashes
    pub simevent_returns : (get_simevent_controller port s).1 ≡ returns true
    pub not_ready : s.0.master_data ≡ some new_master_data

  pub half_made-IsBroken : (w : W) → IsBroken (half_made w)
  unfolding create_asset_controller get_simevent_controller register_extension
  half_made-IsBroken w = record { asset_crashes = refl; simevent_returns = refl; not_ready = refl }

  pub asset_fails :
      (w w' : W)
      → load_core port (fresh_process, w) ≡ (half_made w', returns false)
      → create_asset_controller port (fresh_process, w) ≡ (half_made w', returns false)
  unfolding create_asset_controller
  asset_fails w w' h = rw h refl

  -- In a process without controllers, where the configuration names a type of memory and the master data of that type cannot be loaded,
  -- because the conductor has not been started, create_asset_controller returns no controller; but when it is
  -- called once more, it dereferences a null pointer, and get_simevent_controller returns a controller on master data
  -- that was never loaded, whatever the conductor has done meanwhile.
  pub create_asset_controller_retry :
      (w w' : W) (c : Config) (type : Name)
      → port.config_load w ≡ returns (some c)
      → c.shm_type ≡ some type
      → port.load_master type w ≡ (w', returns false)
      → let (s, r) = create_asset_controller port (fresh_process, w) in
        (r ≡ returns false)
        × ((later : W)
            → ((create_asset_controller port (s.0, later)).1 ≡ crashes)
              × ((get_simevent_controller port (s.0, later)).1 ≡ returns true)
              × (s.0.master_data ≡ some new_master_data))
  create_asset_controller_retry w w' c type found typed unloaded =
      rw (asset_fails w w' (load_without_master w w' c type found typed unloaded)) (
        refl,
        λ later.
            let b = half_made-IsBroken later in (b.asset_crashes, b.simevent_returns, b.not_ready),
      )
