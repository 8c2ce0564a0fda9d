-- ===== src/Asset/Sleep.antt =====
-- How long hako_asset_usleep_no_wait of sources/assets/callback/src/hako_asset.cpp sleeps.
use hakoniwa_core_pro.Base.{
  ℕ, suc, ◌+◌, ◌-◌, ◌*◌, ◌/◌, ◌<◌, ◌≤◌, ◌≡◌, refl, ap, arith, true, false, none, some,
}
use native.Mathlib.Nat.{div-mul-le_self, lt-div-mul-add}
use hakoniwa_core_pro.Asset.Instance.{Asset, Port, St}
use hakoniwa_core_pro.Asset.Loop.{step}
use hakoniwa_core_pro.Asset.Setup.{SetupPort}
use hakoniwa_core_pro.Asset.Steady.{Steady, StepsWell, step_ends}
use hakoniwa_core_pro.Asset.Reply.{success}
use hakoniwa_core_pro.Asset.Api.{steps_of, hako_asset_usleep_no_wait}

-- A positive time is rounded up to whole steps.
steps_of_lem :
    (t d : ℕ) → 0 < t → 0 < d → (n : ℕ) × (steps_of t d ≡ some n) × (t ≤ n * d) × (n * d < t + d)
unfolding steps_of
steps_of_lem t d pos_t pos_d =
    let low = div-mul-le_self (t + (d - 1)) d in
    let high = lt-div-mul-add {a = t + (d - 1)} {b = d} pos_d in
    (
      (t + (d - 1)) / d,
      ground (arith, pos_t, pos_d),
      omega (arith, high, pos_d),
      omega (arith, low, pos_d),
    )

module _ {W : Type 0} (port : Port W) (setup : SetupPort W) (Good : W → Type 0)
    (clock unmoved : W → ℕ) (patience max_delay : ℕ)
    (steady : Steady port Good clock unmoved patience max_delay) where
  usleep-step :
      (fuel t n : ℕ) (s : St W)
      → s.0.external_use ≡ false
      → steps_of t s.0.delta_usec ≡ some n
      → (step port fuel n none s).1 ≡ some true
      → hako_asset_usleep_no_wait port setup fuel t none s ≡ ((step port fuel n none s).0, success)
  unfolding hako_asset_usleep_no_wait
  usleep-step fuel t n s own e done = ground (arith, own, e, done)

  -- In a run that goes on, in which the world may get at least one step of the asset ahead, and in which the conductor, which runs on its own, moves the
  -- world time at the latest when the asset has notified its time `patience` times without effect: hako_asset_usleep_no_wait of a positive time returns 0 for an asset with a
  -- positive length of a step whose time is not ahead of the world, given enough fuel; the asset's time has then moved on by no less than the time that was asked for, and by
  -- less than one step more.
  pub hako_asset_usleep_no_wait-sleeps :
      (t : ℕ) (a : Asset W) (w : W)
      → 0 < t
      → 0 < a.delta_usec
      → a.external_use ≡ false
      → StepsWell Good clock a.callback
      → a.delta_usec ≤ max_delay
      → Good w
      → a.current_usec ≤ clock w
      → (fuel : ℕ) × (let (s', reply) = hako_asset_usleep_no_wait port setup fuel t none (a, w) in
          (reply ≡ success)
          × (a.current_usec + t ≤ s'.0.current_usec)
          × (s'.0.current_usec < a.current_usec + t + a.delta_usec)
          × (s'.0.current_usec ≤ clock s'.1))
  hako_asset_usleep_no_wait-sleeps t a w pos_t pos_d own well small g late =
      let (n, e, low, high) = steps_of_lem t a.delta_usec pos_t pos_d in
      let (done, asset, on_time) =
        step_ends port Good clock unmoved patience max_delay steady n a w well small g late in
      let time = ap (λ b. b.current_usec) asset in
      (
        n + a.delta_usec * suc patience + 2,
        rw (usleep-step (n + a.delta_usec * suc patience + 2) t n (a, w) own e done) (
          refl,
          omega (arith, time, low),
          omega (arith, time, high),
          omega (arith, time, on_time),
        ),
      )
