-- ===== src/Capi/Retry.antt =====
-- Two calls of sources/assets/polling/src/hako_capi.cpp before the conductor is there.
use hakoniwa_core_pro.Base.{◌≡◌, refl, false, some, Name}
use hakoniwa_core_pro.RuntimeError.{
  RuntimeError, no_error, returns, crashes, result, crash, guard, hako_runtime_clear_error,
  hako_runtime_last_error_status,
}
use hakoniwa_core_pro.Lifecycle.{Config, CorePort, Process, fresh_process, create_asset_controller}
use hakoniwa_core_pro.Lifecycle.Retry.{
  half_made, half_made-IsBroken, asset_fails, load_without_master,
}
use hakoniwa_core_pro.Capi.{no_capi, Controllers, take_asset, hako_asset_init}

module _ {W : Type 0} (core : CorePort W) (port : Controllers W) where
  init_fails :
      (e : RuntimeError) (w w' : W)
      → create_asset_controller core (fresh_process, w) ≡ (half_made core w', returns false)
      → hako_asset_init core port e (no_capi, (fresh_process, w))
        ≡ (hako_runtime_clear_error, (no_capi, half_made core w'), result false)
  unfolding hako_asset_init guard take_asset
  init_fails e w w' h = rw h refl

  init_crashes :
      (e : RuntimeError) (s : Process × W)
      → (create_asset_controller core s).1 ≡ crashes
      → (hako_asset_init core port e (no_capi, s)).2 ≡ crash
  unfolding hako_asset_init guard take_asset
  init_crashes e s h = rw h refl

  -- In a process that has called nothing yet, while the configuration names a type of memory but the conductor's master data cannot be loaded,
  -- hako_asset_init returns false and reports no error. If it is called again, to try once more, the process dereferences a null pointer, whatever the
  -- conductor has done meanwhile.
  pub hako_asset_init_retry :
      (e : RuntimeError) (w w' : W) (c : Config) (type : Name)
      → core.config_load w ≡ returns (some c)
      → c.shm_type ≡ some type
      → core.load_master type w ≡ (w', returns false)
      → let (e1, s1, first) = hako_asset_init core port e (no_capi, (fresh_process, w)) in
        (first ≡ result false)
        × (hako_runtime_last_error_status e1 ≡ no_error)
        × ((e2 : RuntimeError) (later : W)
            → (hako_asset_init core port e2 (s1.0, (s1.1.0, later))).2 ≡ crash)
  hako_asset_init_retry e w w' c type found typed unloaded =
      rw
        (init_fails e w w'
          (asset_fails core w w' (load_without_master core w w' c type found typed unloaded)))
        (refl, refl, λ e2 later. init_crashes e2 _ (half_made-IsBroken core later).asset_crashes)
