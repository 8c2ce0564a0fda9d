-- ===== src/Capi/Errors.antt =====
-- What a call of sources/assets/polling/src/hako_capi.cpp reports.
use hakoniwa_core_pro.Base.{◌≡◌, ◌≢◌, refl, ap, true, if◌then◌else◌}
use hakoniwa_core_pro.RuntimeError.{
  RuntimeError, ErrorStatus, no_error, ok, unknown, abort, Thrown, master_lock_state, std_exception,
  something_else, Attempt, returns, throws, crashes, Outcome, result, crash, caught,
  capture_current_exception, hako_runtime_clear_error, hako_runtime_last_error_status,
}
use hakoniwa_core_pro.Lifecycle.{CorePort, Process}
use hakoniwa_core_pro.Capi.{
  Capi, Controllers, hako_asset_endpoint_attach_core, hako_asset_ensure_ready, when_ready,
  with_asset,
}

-- What is left of a call that returns, throws, or crashes.
abbrev pub Reports : {A : Type 0} → A → Attempt A → ErrorStatus × Outcome A → Type 0
Reports fail (returns a) (status, outcome) = (outcome ≡ result a) × (status ≡ no_error)
Reports fail (throws x) (status, outcome) = (outcome ≡ result fail) × (status ≢ no_error)
Reports fail crashes (status, outcome) = outcome ≡ crash

captured : (x : Thrown) → (capture_current_exception x).status ≢ no_error
unfolding capture_current_exception
captured (master_lock_state ok what) e = cc
captured (master_lock_state unknown what) e = cc
captured (master_lock_state abort what) e = cc
captured (std_exception what) e = cc
captured something_else e = cc

-- The boundary itself.
caught-Reports :
    {S A : Type 0} (fail : A) (s : S) (a : Attempt A)
    → let (e, s', outcome) = caught fail (hako_runtime_clear_error, s, a) in
      (s' ≡ s) × Reports fail a (hako_runtime_last_error_status e, outcome)
caught-Reports fail s (returns a) = (refl, (refl, refl))
caught-Reports fail s (throws x) = (refl, (refl, captured x))
caught-Reports fail s crashes = (refl, refl)

module _ {W : Type 0} (core : CorePort W) (port : Controllers W) where
  ready :
      {A : Type 0} (fail : A) (f : W → W × Attempt A) (e : RuntimeError) (c : Capi) (p : Process)
      (w : W)
      → c.asset ≡ true
      → with_asset core port fail f e (c, (p, w))
        ≡ caught fail (hako_runtime_clear_error, (c, (p, (f w).0)), (f w).1)
  unfolding hako_asset_ensure_ready when_ready
  ready fail f e c p w up =
      ap
        (λ b. when_ready core port fail f (
          if b
          then (hako_runtime_clear_error, (c, (p, w)), result true)
          else hako_asset_endpoint_attach_core core port hako_runtime_clear_error (c, (p, w))))
        up

  -- Every function of hako_capi.cpp that forwards to the asset controller, once that is there: it forwards once, whatever error the thread had before; when the
  -- call returns, it returns the same, and the status of the thread is NONE; when the call throws, it returns its failure value, and the status is not NONE, whatever was
  -- thrown; nothing but the world changes.
  pub with_asset-Reports :
      {A : Type 0} (fail : A) (f : W → W × Attempt A) (e : RuntimeError) (c : Capi) (p : Process)
      (w : W)
      → c.asset ≡ true
      → let (e', s', outcome) = with_asset core port fail f e (c, (p, w)) in
        (s' ≡ (c, (p, (f w).0))) × Reports fail (f w).1 (hako_runtime_last_error_status e', outcome)
  with_asset-Reports fail f e c p w up =
      rw (ready fail f e c p w up) (caught-Reports fail (c, (p, (f w).0)) (f w).1)
