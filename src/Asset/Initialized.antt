-- ===== src/Asset/Initialized.antt =====
-- What an initialized asset has (the set-up functions of
-- sources/assets/callback/src/hako_asset_impl.cpp).
use hakoniwa_core_pro.Base.{
  Name, ℕ, ◌≡◌, refl, arith, Bool, true, false, not, Option, none, some, List, [], ◌∷◌,
  if◌then◌else◌, maybe_intro, if_intro, if_cases,
}
use hakoniwa_core_pro.Asset.Instance.{Callbacks, Asset, St}
use hakoniwa_core_pro.Asset.Setup.{
  SetupPort, none_name, no_asset, cleared, robots_of, get_controllers, register_and_create,
  config_opens, initialized, impl_init, impl_attach_core, impl_initialize_for_external,
  impl_register_callback,
}

-- A call that sets the instance up.
pub data SetupCall (W : Type 0) : Type 0 where
  init : Name → Name → ℕ → SetupCall W
  attach_core : Option Name → Option Name → SetupCall W
  initialize_for_external : SetupCall W
  register_callback : Callbacks W → SetupCall W

pub record HasControllers {W : Type 0} (a : Asset W) : Type 0 where
  pub asset : a.is_initialized ≡ true → a.hako_asset ≡ true
  pub sim : a.is_initialized ≡ true → a.hako_sim ≡ true

module _ {W : Type 0} (setup : SetupPort W) where
  unfoldable pub apply : SetupCall W → St W → St W
  apply (init name path delta_usec) s = (impl_init setup name path delta_usec s).0
  apply (attach_core name path) s = (impl_attach_core setup name path s).0
  apply initialize_for_external s = (impl_initialize_for_external setup s).0
  apply (register_callback c) s = (impl_register_callback setup c s).0

  -- Between two calls, the other processes change the world.
  unfoldable pub run : List (SetupCall W × (W → W)) → St W → St W
  run [] s = s
  run ((call, others) ∷ calls) s = let (a, w) = apply call s in run calls (a, others w)

  -- What looking for the controllers makes of an asset that is not initialized.
  pub record Looked (r : St W × Bool) : Type 0 where
    pub not_yet : r.0.0.is_initialized ≡ false
    pub asset : r.1 ≡ true → r.0.0.hako_asset ≡ true
    pub sim : r.1 ≡ true → r.0.0.hako_sim ≡ true

  get_controllers-Looked :
      (s : St W) → s.0.is_initialized ≡ false → Looked (get_controllers setup s)
  unfolding get_controllers
  get_controllers-Looked s fresh = record {
    not_yet = ground (arith, fresh);
    asset = λ h. ground (arith, h);
    sim = λ h. ground (arith, h);
  }

  uninitialized-HasControllers : (a : Asset W) → a.is_initialized ≡ false → HasControllers a
  uninitialized-HasControllers a e = record { asset = λ h. cc (e, h); sim = λ h. cc (e, h) }

  register_and_create-HasControllers :
      (name : Name) (s : St W)
      → s.0.is_initialized ≡ false
      → s.0.hako_asset ≡ true
      → s.0.hako_sim ≡ true
      → HasControllers (register_and_create setup name s).0.0
  unfolding register_and_create
  register_and_create-HasControllers name s e asset sim = record {
    asset = λ h. ground (arith, e, asset, sim, h);
    sim = λ h. ground (arith, e, asset, sim, h);
  }

  abbrev Fine : St W × Bool → Type 0
  Fine r = HasControllers r.0.0

  Looked-false : (r : St W × Bool) → Looked r → Fine (r.0, false)
  Looked-false r l = uninitialized-HasControllers r.0.0 l.not_yet

  init-HasControllers : (name path : Name) (d : ℕ) (s : St W) → Fine (impl_init setup name path d s)
  unfolding impl_init
  init-HasControllers name path d s =
      if_intro Fine (not (config_opens setup path s.1))
        (uninitialized-HasControllers (cleared setup s.0) refl)
        (maybe_intro Fine (robots_of setup path s.1) (uninitialized-HasControllers _ refl) λ robots.
          let a1 : Asset W = record (cleared setup s.0) {
            asset_name = name;
            delta_usec = d;
            current_usec = 0;
            robots_compact = robots;
          } in
          let l = get_controllers-Looked (a1, s.1) refl in
          if_cases Fine (not (get_controllers setup (a1, s.1)).1) (λ e. Looked-false _ l)
            (λ e.
              register_and_create-HasControllers name (get_controllers setup (a1, s.1)).0 l.not_yet
                (l.asset (ground (arith, e))) (l.sim (ground (arith, e)))))

  -- The end of the two other functions.
  looked-HasControllers :
      (s : St W)
      → s.0.is_initialized ≡ false
      → let (s1, found) = get_controllers setup s in
        Fine (if not found then (s1, false) else (initialized setup s1, true))
  looked-HasControllers s fresh =
      let l = get_controllers-Looked s fresh in
      if_cases Fine (not (get_controllers setup s).1) (λ e. Looked-false _ l)
        (λ e. record {
          asset = λ h. l.asset (ground (arith, e));
          sim = λ h. l.sim (ground (arith, e));
        })

  attach-HasControllers :
      (name path : Option Name) (s : St W)
      → HasControllers s.0
      → Fine (impl_attach_core setup name path s)
  unfolding impl_attach_core
  attach-HasControllers none path s h = h
  attach-HasControllers (some []) path s h = h
  attach-HasControllers (some (c ∷ cs)) none s h = h
  attach-HasControllers (some (c ∷ cs)) (some path) s h = if_intro Fine s.0.is_initialized h (
      maybe_intro Fine (robots_of setup path s.1) (uninitialized-HasControllers _ refl) λ robots.
        looked-HasControllers
          (record no_asset { asset_name = c ∷ cs; robots_compact = robots }, s.1) refl)

  apply-HasControllers :
      (call : SetupCall W) (s : St W) → HasControllers s.0 → HasControllers (apply call s).0
  unfolding apply impl_initialize_for_external impl_register_callback
  apply-HasControllers (init name path d) s h = init-HasControllers name path d s
  apply-HasControllers (attach_core name path) s h = attach-HasControllers name path s h
  apply-HasControllers initialize_for_external s h = if_intro Fine s.0.is_initialized h (
      looked-HasControllers (record no_asset { external_use = true; asset_name = none_name }, s.1)
        refl)
  apply-HasControllers (register_callback c) s h =
      if_intro Fine s.0.external_use h (record { asset = h.asset; sim = h.sim })

  run_from-HasControllers :
      (calls : List (SetupCall W × (W → W))) (s : St W)
      → HasControllers s.0
      → HasControllers (run calls s).0
  unfolding run
  run_from-HasControllers [] s h = h
  run_from-HasControllers ((call, others) ∷ calls) s h =
      run_from-HasControllers calls _ (apply-HasControllers call s h)

  -- Whatever calls set the instance of an asset up, in any order and with any outcome, and whatever other processes do between them: an instance that
  -- is initialized has both controllers.
  pub run-HasControllers :
      (calls : List (SetupCall W × (W → W))) (w : W) → HasControllers (run calls (no_asset, w)).0
  run-HasControllers calls w =
      run_from-HasControllers calls (no_asset, w) (uninitialized-HasControllers no_asset refl)
