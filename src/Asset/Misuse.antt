-- ===== src/Asset/Misuse.antt =====
-- What the interface of sources/assets/callback/src/hako_asset.cpp does in states that its user can bring about:
-- an asset that is attached by name, and a simulation that runs.
use hakoniwa_core_pro.Base.{
  Name, ℕ, zero, suc, ◌+◌, ◌*◌, ◌≡◌, refl, ap, subst, arith, ℤ, Bool, true, false, not, ltb, Option,
  some, [], ◌∷◌, maybe_intro, if_intro,
}
use hakoniwa_core_pro.Asset.Instance.{is_stopped, Asset, Port, St, ForceStop}
use hakoniwa_core_pro.Asset.Loop.{step_to, step}
use hakoniwa_core_pro.Asset.Setup.{
  SetupPort, get_controllers, robots_of, config_opens, impl_attach_core, no_asset,
}
use hakoniwa_core_pro.Asset.Reply.{
  Reply, crash, out_of_fuel, success, eio, einval, text, int_of, require_stopped_state,
}
use hakoniwa_core_pro.Asset.Api.{
  hako_asset_attach_core_with_name, steps_of, hako_asset_usleep_no_wait, step_on,
}
use hakoniwa_core_pro.Asset.Events.{hako_trigger_event}

int_of-success : (b : Bool) → int_of b eio ≡ success → b ≡ true
int_of-success true e = refl
int_of-success false e = cc

module _ {W : Type 0} (port : Port W) (setup : SetupPort W) where
  -- An asset that knows no length of a step.
  pub record NoPeriod (a : Asset W) : Type 0 where
    pub no_delta : a.delta_usec ≡ 0
    pub in_run : a.external_use ≡ false

  get_controllers-NoPeriod : (s : St W) → NoPeriod s.0 → NoPeriod (get_controllers setup s).0.0
  unfolding get_controllers
  get_controllers-NoPeriod s n = record {
    no_delta = ground (arith, n.no_delta);
    in_run = ground (arith, n.in_run);
  }

  abbrev NoPeriodOf : St W × Bool → Type 0
  NoPeriodOf r = NoPeriod r.0.0

  attach-NoPeriod :
      (name path : Name) (s : St W)
      → s.0.is_initialized ≡ false
      → (impl_attach_core setup (some name) (some path) s).1 ≡ true
      → NoPeriod (impl_attach_core setup (some name) (some path) s).0.0
  unfolding impl_attach_core
  attach-NoPeriod [] path s fresh done = cc
  attach-NoPeriod (c ∷ cs) path s fresh done = rw fresh (
      maybe_intro NoPeriodOf (robots_of setup path s.1) (record { no_delta = refl; in_run = refl })
        λ robots.
          let a1 : Asset W = record no_asset { asset_name = c ∷ cs; robots_compact = robots } in
          let kept =
            get_controllers-NoPeriod (a1, s.1) (record { no_delta = refl; in_run = refl }) in
          if_intro NoPeriodOf (not (get_controllers setup (a1, s.1)).1) kept
            (record { no_delta = kept.no_delta; in_run = kept.in_run }))

  step_to_no_time :
      (fuel : ℕ) (force : ForceStop W) (s : St W)
      → step_to port (suc fuel) s.0.current_usec force s ≡ (s, some true)
  unfolding step_to
  step_to_no_time fuel force s =
      let there : ltb s.0.current_usec s.0.current_usec ≡ false = ground arith in rw there refl

  step-NoPeriod :
      (fuel n : ℕ) (force : ForceStop W) (s : St W)
      → NoPeriod s.0
      → step port (suc fuel) n force s ≡ (s, some true)
  unfolding step
  step-NoPeriod fuel n force s h =
      let target : s.0.current_usec + n * s.0.delta_usec ≡ s.0.current_usec =
        rw h.no_delta (omega arith) in
      rw target (step_to_no_time fuel force s)

  step_on-NoPeriod :
      (fuel : ℕ) (force : ForceStop W) (s : St W)
      → NoPeriod s.0
      → step_on port setup fuel force s ≡ (s, out_of_fuel)
  unfolding step_on step step_to
  step_on-NoPeriod zero force s h = refl
  step_on-NoPeriod (suc zero) force s h = refl
  step_on-NoPeriod (suc (suc fuel)) force s h =
      rw (step-NoPeriod fuel 1 force s h) (step_on-NoPeriod (suc fuel) force s h)

  attached-NoPeriod :
      (asset_name config_path : Option Name) (s s' : St W)
      → s.0.is_initialized ≡ false
      → hako_asset_attach_core_with_name port setup asset_name config_path s ≡ (s', success)
      → NoPeriod s'.0
  unfolding hako_asset_attach_core_with_name
  attached-NoPeriod asset_name config_path s s' fresh h =
      let P : St W × Reply → Type 0 = λ r. r.1 ≡ success → NoPeriod r.0.0 in
      let outcome : P (hako_asset_attach_core_with_name port setup asset_name config_path s) =
        rw fresh (
          maybe_intro P (text asset_name) (λ e. cc)
            λ name.
              maybe_intro P config_path (λ e. cc)
                λ path.
                  if_intro P (not (config_opens setup path s.1)) (λ e. cc)
                    (λ e.
                      attach-NoPeriod name path (record s.0 { is_initialized = false }, s.1) refl
                        (int_of-success _ e))) in
      subst (λ r. NoPeriod r.0.0) h (outcome (ap (λ r. r.1) h))

  -- After hako_asset_attach_core_with_name has succeeded in a process whose asset was not initialized, the asset has no length of a step, and yet is not
  -- marked as external. So hako_asset_usleep_no_wait divides by zero for every time but 0, and the loop of hako_asset_start_no_wait makes no step,
  -- never asks whether it has to stop, and so does not end, whatever the fuel.
  pub attached_has_no_period :
      (asset_name config_path : Option Name) (s s' : St W)
      → s.0.is_initialized ≡ false
      → hako_asset_attach_core_with_name port setup asset_name config_path s ≡ (s', success)
      → ((fuel t : ℕ) (force : ForceStop W)
          → hako_asset_usleep_no_wait port setup fuel (suc t) force s' ≡ (s', crash))
        × ((fuel : ℕ) (force : ForceStop W) → step_on port setup fuel force s' ≡ (s', out_of_fuel))
  unfolding hako_asset_usleep_no_wait steps_of
  attached_has_no_period asset_name config_path s s' fresh h =
      let n = attached-NoPeriod asset_name config_path s s' fresh h in
      (
        λ fuel t force. ground (arith, n.no_delta, n.in_run),
        λ fuel force. step_on-NoPeriod fuel force s' n,
      )

  -- hako_trigger_event starts, stops or resets nothing, whichever event is asked for, unless the simulation is stopped: it only looks at the state, and returns EINVAL. So it cannot stop a simulation
  -- that runs.
  pub hako_trigger_event_needs_stopped :
      (event : ℤ) (s : St W)
      → s.0.is_initialized ≡ true
      → is_stopped (port.state s.1).1 ≡ false
      → hako_trigger_event port event s ≡ ((s.0, (port.state s.1).0), einval)
  unfolding hako_trigger_event require_stopped_state
  hako_trigger_event_needs_stopped event s ready moving = rw (ready, moving) refl
