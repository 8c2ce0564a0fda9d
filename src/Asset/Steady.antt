-- ===== src/Asset/Steady.antt =====
-- An asset in a run that goes on: its waiting ends (hako_asset_impl_execute, hako_asset_impl_proc and
-- hako_asset_impl_step of sources/assets/callback/src/hako_asset_impl.cpp).
use hakoniwa_core_pro.Base.{
  Name, ℕ, zero, suc, ◌+◌, ◌*◌, ◌<◌, ◌≤◌, ltb, ◌≡◌, refl, ap, arith, Bool, true, false, Option,
  none, some, if◌then◌else◌, if_cases, maybe_cases, Bool-cases, inl, inr,
}
use native.Mathlib.Nat.{mul-le-mul_right}
use hakoniwa_core_pro.Asset.Instance.{running, Callbacks, Asset, Port, St}
use hakoniwa_core_pro.Asset.Loop.{
  and_then, own_name, next_time, execute, simulation_step, not_yet, proc, step_to, step,
}

-- How far a run is: the world time, and within it how often the asset has notified its time since the world time moved last.
abbrev pub progress : {W : Type 0} → (W → ℕ) → (W → ℕ) → ℕ → W → ℕ
progress clock unmoved patience w = clock w * suc patience + unmoved w

-- Worlds in which a run goes on (`Good`), with the world time. Calls do not set the time back. The conductor
-- of hakoniwa-core-cpp has a thread of its own, and waits for other assets: while the world time is less than
-- `max_delay` ahead of what the asset has notified, it moves it on at the latest when the asset has notified its time
-- `patience` times more without effect.
pub record Steady {W : Type 0} (port : Port W) (Good : W → Type 0) (clock : W → ℕ) (unmoved : W → ℕ)
    (patience : ℕ) (max_delay : ℕ) : Type 0 where
  pub bounded : (w : W) → Good w → unmoved w ≤ patience
  pub notifies :
      (n : Name) (t : ℕ) (w : W)
      → Good w
      → Good (port.notify_simtime n t w)
        × (progress clock unmoved patience w
            ≤ progress clock unmoved patience (port.notify_simtime n t w))
  pub ticks :
      (n : Name) (t : ℕ) (w : W)
      → Good w
      → clock w < t + max_delay
      → progress clock unmoved patience w
        < progress clock unmoved patience (port.notify_simtime n t w)
  pub runs :
      (w : W)
      → Good w
      → ((port.state w).1 ≡ running)
        × Good (port.state w).0
        × (progress clock unmoved patience w ≤ progress clock unmoved patience (port.state w).0)
  pub creates :
      (w : W)
      → Good w
      → ((port.is_pdu_created w).1 ≡ true)
        × Good (port.is_pdu_created w).0
        × (progress clock unmoved patience w
            ≤ progress clock unmoved patience (port.is_pdu_created w).0)
  pub syncs :
      (n : Name) (w : W)
      → Good w
      → ((port.is_pdu_sync_mode n w).1 ≡ false)
        × Good (port.is_pdu_sync_mode n w).0
        × (progress clock unmoved patience w
            ≤ progress clock unmoved patience (port.is_pdu_sync_mode n w).0)
  pub simulates :
      (w : W)
      → Good w
      → ((port.is_simulation_mode w).1 ≡ true)
        × Good (port.is_simulation_mode w).0
        × (progress clock unmoved patience w
            ≤ progress clock unmoved patience (port.is_simulation_mode w).0)
  pub tells_time :
      (w : W)
      → Good w
      → ((port.get_worldtime w).1 ≡ clock (port.get_worldtime w).0)
        × Good (port.get_worldtime w).0
        × (progress clock unmoved patience w
            ≤ progress clock unmoved patience (port.get_worldtime w).0)
  pub receives :
      (o : Option Name) (w : W)
      → Good w
      → Good (port.call_recv_event_callbacks o w)
        × (clock w ≤ clock (port.call_recv_event_callbacks o w))

-- The step callback of the user leaves the run as it is.
unfoldable pub StepsWell : {W : Type 0} → (W → Type 0) → (W → ℕ) → Option (Callbacks W) → Type 0
StepsWell {W} Good clock callback =
    (c : Callbacks W) (f : W → W)
    → callback ≡ some c
    → c.on_simulation_step ≡ some f
    → (w : W) → Good w
    → Good (f w) × (clock w ≤ clock (f w))

module _ {W : Type 0} (port : Port W) (Good : W → Type 0) (clock unmoved : W → ℕ)
    (patience max_delay : ℕ) (steady : Steady port Good clock unmoved patience max_delay) where
  abbrev far : W → ℕ
  far = progress clock unmoved patience

  -- A world that is as far as a time has reached it.
  far-clock : (t : ℕ) (w : W) → Good w → t * suc patience ≤ far w → t ≤ clock w
  far-clock t w g h = elim (Bool-cases (ltb (clock w) t)) [
    | inl early ↦
        let gt : suc (clock w) ≤ t = ground arith in
        absurd (omega (arith, steady.bounded w g, h, mul-le-mul_right (suc patience) gt))
    | inr late ↦ ground (arith, late)
  ]

  far-le : (w w' : W) → Good w' → far w ≤ far w' → clock w ≤ clock w'
  far-le w w' g h = far-clock (clock w) w' g (omega (arith, h))

  -- The world in which an attempt to step reads the time.
  asked : Asset W → W → W
  asked a w =
      let w1 = (port.state (port.notify_simtime a.asset_name a.current_usec w)).0 in
      let w2 = (port.is_pdu_sync_mode a.asset_name (port.is_pdu_created w1).0).0 in
      (port.is_simulation_mode w2).0

  -- An attempt to step comes to the comparison of the times.
  record Asks (a : Asset W) (w : W) : Type 0 where
    pub outcome : execute port (a, w) ≡ (
        if ltb (clock (port.get_worldtime (asked a w)).0) (next_time port (a, w))
        then ((a, (port.get_worldtime (asked a w)).0), false)
        else (simulation_step port (a, (port.get_worldtime (asked a w)).0), true))
    pub good : Good (port.get_worldtime (asked a w)).0
    pub later : far w ≤ far (port.get_worldtime (asked a w)).0
    pub moves :
        clock w < a.current_usec + max_delay → far w < far (port.get_worldtime (asked a w)).0

  execute-Asks : (a : Asset W) (w : W) → Good w → Asks a w
  unfolding execute asked
  execute-Asks a w g =
      let (g0, l0) = steady.notifies a.asset_name a.current_usec w g in
      let (e1, g1, l1) = steady.runs _ g0 in
      let (e2, g2, l2) = steady.creates _ g1 in
      let (e3, g3, l3) = steady.syncs a.asset_name _ g2 in
      let (e4, g4, l4) = steady.simulates _ g3 in
      let (e5, g5, l5) = steady.tells_time _ g4 in
      record {
        outcome = rw (e1, e2, e3, e4, e5) refl;
        good = g5;
        later = omega (arith, l0, l1, l2, l3, l4, l5);
        moves = λ h.
            let t0 = steady.ticks a.asset_name a.current_usec w g h in
            omega (arith, t0, l1, l2, l3, l4, l5);
      }

  -- A run of hako_asset_impl_proc that made its step, to time `t`.
  pub record Reaches (t : ℕ) (a : Asset W) (r : St W × Option Bool) : Type 0 where
    pub done : r.1 ≡ some true
    pub asset : r.0.0 ≡ record a { current_usec = t }
    pub good : Good r.0.1
    pub on_time : t ≤ clock r.0.1

  step-Reaches :
      (a : Asset W) (w : W)
      → StepsWell Good clock a.callback
      → Good w
      → a.current_usec + a.delta_usec ≤ clock w
      → Reaches (a.current_usec + a.delta_usec) a (simulation_step port (a, w), some true)
  unfolding simulation_step StepsWell
  step-Reaches a w well g late =
      let (g1, l1) = steady.receives (own_name port a) w g in
      let P : W → Type 0 = λ x. Good x × (clock w ≤ clock x) in
      let (g2, l2) =
        maybe_cases P a.callback (λ none. (g1, l1))
          (λ c has_callback.
            maybe_cases P c.on_simulation_step (λ none. (g1, l1))
              (λ f has_step.
                let (g2, l2) = well c f has_callback has_step _ g1 in
                (g2, omega (arith, l1, l2)))) in
      record { done = refl; asset = refl; good = g2; on_time = omega (arith, late, l2) }

  -- The world in which the next attempt starts.
  again : Asset W → W → W
  again a w = (port.is_pdu_sync_mode a.asset_name (port.state w).0).0

  not_yet-again :
      (fuel : ℕ) (next : St W → St W × Option Bool) (a : Asset W) (w : W)
      → Good w
      → (not_yet port fuel none next (a, w) ≡ next (a, again a w))
        × Good (again a w)
        × (far w ≤ far (again a w))
  unfolding not_yet again
  not_yet-again fuel next a w g =
      let (e1, g1, l1) = steady.runs w g in
      let (e2, g2, l2) = steady.syncs a.asset_name _ g1 in
      (rw (e1, e2) refl, g2, omega (arith, l1, l2))

  proc-Reaches :
      (fuel : ℕ) (a : Asset W) (w : W)
      → StepsWell Good clock a.callback
      → a.delta_usec ≤ max_delay
      → Good w
      → (a.current_usec + a.delta_usec) * suc patience ≤ far w + fuel
      → Reaches (a.current_usec + a.delta_usec) a (proc port (suc fuel) none (a, w))
  unfolding proc
  proc-Reaches zero a w well small g near =
      let asks = execute-Asks a w g in
      let w' = (port.get_worldtime (asked a w)).0 in
      let reached =
        far-clock (a.current_usec + a.delta_usec) w' asks.good (omega (arith, near, asks.later)) in
      let late : ltb (clock w') (a.current_usec + a.delta_usec) ≡ false = ground (arith, reached) in
      rw (asks.outcome, late) (step-Reaches a w' well asks.good reached)
  proc-Reaches (suc fuel) a w well small g near =
      let asks = execute-Asks a w g in
      let w' = (port.get_worldtime (asked a w)).0 in
      elim (Bool-cases (ltb (clock w') (a.current_usec + a.delta_usec))) [
        | inl early ↦
            let (next, good, later) =
              not_yet-again (suc fuel) (proc port (suc fuel) none) a w' asks.good in
            let moved =
              asks.moves (ground (arith, early, far-le w w' asks.good asks.later, small)) in
            rw (asks.outcome, early, next)
              (proc-Reaches fuel a (again a w') well small good (omega (arith, near, later, moved)))
        | inr late ↦
            rw (asks.outcome, late) (step-Reaches a w' well asks.good (ground (arith, late)))
      ]

  and_then-Reaches :
      (t t' : ℕ) (a : Asset W) (r : St W × Option Bool) (k : St W → St W × Option Bool)
      → Reaches t' a r
      → ((w : W)
          → Good w
          → t' ≤ clock w
          → Reaches t (record a { current_usec = t' }) (k (record a { current_usec = t' }, w)))
      → Reaches t a (and_then port r k)
  and_then-Reaches t t' a r k h next =
      let last = next r.0.1 h.good h.on_time in
      rw (h.done, h.asset)
        (record { done = last.done; asset = last.asset; good = last.good; on_time = last.on_time })

  step_to-Reaches :
      (n fuel target : ℕ) (a : Asset W) (w : W)
      → n + a.delta_usec * suc patience + 2 ≤ fuel
      → StepsWell Good clock a.callback
      → a.delta_usec ≤ max_delay
      → Good w
      → a.current_usec ≤ clock w
      → target ≡ a.current_usec + n * a.delta_usec
      → Reaches target a (step_to port fuel target none (a, w))
  unfolding step_to
  step_to-Reaches n zero target a w enough well small g late e = absurd (omega (arith, enough))
  step_to-Reaches n (suc zero) target a w enough well small g late e =
      absurd (omega (arith, enough))
  step_to-Reaches zero (suc (suc fuel)) target a w enough well small g late e =
      let there : ltb a.current_usec target ≡ false = ground (arith, e) in
      rw there (record {
        done = refl;
        asset = ap (λ t. record a { current_usec = t }) (omega (arith, e));
        good = g;
        on_time = omega (arith, e, late);
      })
  step_to-Reaches (suc n) (suc (suc fuel)) target a w enough well small g late e =
      if_cases (Reaches target a) (ltb a.current_usec target)
        (λ before.
          and_then-Reaches target (a.current_usec + a.delta_usec) a
            (proc port (suc fuel) none (a, w)) (step_to port (suc fuel) target none)
            (proc-Reaches fuel a w well small g
              (omega (arith, enough, mul-le-mul_right (suc patience) late)))
            (λ w' g' late'.
              step_to-Reaches n (suc fuel) target
                (record a { current_usec = a.current_usec + a.delta_usec }) w'
                (omega (arith, enough)) well small g' late' (omega (arith, e))))
        (λ there. record {
          done = refl;
          asset = ap (λ t. record a { current_usec = t }) (ground (arith, e, there));
          good = g;
          on_time = ground (arith, e, there, late);
        })

  -- In a run that goes on, in which the world may get at least one step of the asset ahead, and in which the conductor, which runs on its own, moves the
  -- world time at the latest when the asset has notified its time `patience` times without effect: hako_asset_impl_step ends, with
  -- true, for an asset whose time is not ahead of the world. `n` steps need no more than `n` plus `patience + 1` times the length of one step in microseconds, plus 2,
  -- rounds of any of its loops. The asset's time has then moved on by exactly `n` steps, and is again not ahead of the world.
  pub step_ends :
      (n : ℕ) (a : Asset W) (w : W)
      → StepsWell Good clock a.callback
      → a.delta_usec ≤ max_delay
      → Good w
      → a.current_usec ≤ clock w
      → let target = a.current_usec + n * a.delta_usec in
        let (s', done) = step port (n + a.delta_usec * suc patience + 2) n none (a, w) in
        (done ≡ some true) × (s'.0 ≡ record a { current_usec = target }) × (target ≤ clock s'.1)
  unfolding step
  step_ends n a w well small g late =
      let r =
        step_to-Reaches n (n + a.delta_usec * suc patience + 2) (a.current_usec + n * a.delta_usec)
          a w (omega arith) well small g late refl in
      (r.done, r.asset, r.on_time)
