-- ===== src/Lifecycle/Ready.antt =====
-- A process whose first attempt to get a controller succeeds (sources/core/src/hako_pro.cpp).
use hakoniwa_core_pro.Base.{◌≡◌, refl, ap, true, some, Name}
use hakoniwa_core_pro.RuntimeError.{returns}
use hakoniwa_core_pro.Session.{Session}
use hakoniwa_core_pro.Lifecycle.{
  Config, CorePort, Process, fresh_process, State, load_core, make_pro_data, register_extension,
  create_asset_controller, get_simevent_controller, loaded_with,
}

module _ {W : Type 0} (port : CorePort W) where
  -- The process once everything is loaded.
  abbrev pub loaded : Config → Name → Session → Process
  loaded c type session = record fresh_process {
    master_data = some (loaded_with type c);
    pro_data = some session;
  }

  load_core_lem :
      (w w' : W) (c : Config) (type : Name) (session : Session)
      → port.config_load w ≡ returns (some c)
      → c.shm_type ≡ some type
      → port.load_master type w ≡ (w', returns true)
      → port.shared_memory type w' ≡ returns session
      → load_core port (fresh_process, w) ≡ ((loaded c type session, w'), returns true)
  unfolding load_core make_pro_data
  load_core_lem w w' c type session found typed ready there =
      rw (found, typed, ap (λ x. x.1) ready, ap (λ x. x.0) ready, there)
        (ap (λ x. ((loaded c type session, x.0), returns true)) ready)

  -- With a configuration that names a type of memory, and master data and tables of that type that can be loaded, a process without controllers gets both, in
  -- either order, and comes to the same state: its master data and its tables are those that were loaded, under the configured timeout. To ask for them again changes
  -- nothing.
  pub controllers_either_order :
      (w w' : W) (c : Config) (type : Name) (session : Session)
      → port.config_load w ≡ returns (some c)
      → c.shm_type ≡ some type
      → port.load_master type w ≡ (w', returns true)
      → port.shared_memory type w' ≡ returns session
      → let both : State port =
          (record (loaded c type session) { asset = true; simevent = true }, w') in
        let (s1, r1) = create_asset_controller port (fresh_process, w) in
        let (s2, r2) = get_simevent_controller port (fresh_process, w) in
        (r1 ≡ returns true)
        × (r2 ≡ returns true)
        × (get_simevent_controller port s1 ≡ (both, returns true))
        × (create_asset_controller port s2 ≡ (both, returns true))
        × (create_asset_controller port both ≡ (both, returns true))
        × (get_simevent_controller port both ≡ (both, returns true))
  unfolding create_asset_controller get_simevent_controller register_extension
  controllers_either_order w w' c type session found typed ready there =
      rw (load_core_lem w w' c type session found typed ready there)
        (refl, refl, refl, refl, refl, refl)
