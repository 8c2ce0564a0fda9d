-- ===== src/Asset/Restart.antt =====
-- How a run of an asset ends (sources/assets/callback/src/hako_asset_impl.cpp).
use hakoniwa_core_pro.Base.{
  Name, ℕ, zero, suc, ◌+◌, ◌*◌, ltb, ◌≡◌, ◌≢◌, refl, ap, sym, ◌∙◌, subst, Bool, true, false, Option,
  none, some, if◌then◌else◌, if_cases, if_intro, not,
}
use hakoniwa_core_pro.Asset.Instance.{
  AssetEvent, no_event, start_event, stop_event, reset_event, other_event, is_event, Port, St,
  calls, is_running,
}
use hakoniwa_core_pro.Asset.Loop.{
  handle, after_event, wait_event, and_then, execute, wait_restart, not_yet, proc, step_to, step,
}

-- hakoniwa-core-cpp gives an asset no event but those of HakoSimulationAssetEventType that are handled.
unfoldable pub KnownEvents : {W : Type 0} → Port W → Type 0
KnownEvents {W} port = (n : Name) (w : W) → (port.asset_get_event n w).1 ≢ other_event

module _ {W : Type 0} (port : Port W) where
  -- The next event of the asset, with what asking for it leaves.
  abbrev pub event_at : St W → W × AssetEvent
  event_at s = let (w, event) = port.asset_get_event s.0.asset_name s.1 in (w, event)

  -- The state comes from handling this event.
  abbrev Hears : AssetEvent → St W → Type 0
  Hears event s' =
      (s : St W) × ((event_at s).1 ≡ event) × (s' ≡ (handle port event (s.0, (event_at s).0)).0)

  -- How a run ends: with a stop event, that is answered by the feedback to the core; with a wait that begins
  -- there; and, as the last thing, with a reset event, at which the callback on_reset is called, the time is set
  -- to 0, and the feedback is given.
  pub record Restarted (s' : St W) : Type 0 where
    pub stop_at : St W
    pub stop_asked : (event_at stop_at).1 ≡ stop_event
    pub stopped : St W
    pub stop_answered :
        stopped ≡ (stop_at.0, port.stop_feedback stop_at.0.asset_name (event_at stop_at).0)
    pub fuel : ℕ
    pub then_waited : wait_event port fuel reset_event none stopped ≡ (s', some true)
    pub reset_at : St W
    pub reset_asked : (event_at reset_at).1 ≡ reset_event
    pub reset_answered :
        let (a, w) = calls (λ c. c.on_reset) (reset_at.0, (event_at reset_at).0) in
        s' ≡ (record a { current_usec = 0 }, port.reset_feedback a.asset_name w)

  abbrev pub Leaves : (St W → Type 0) → Option Bool → St W × Option Bool → Type 0
  Leaves P x r = r.1 ≡ x → P r.0

  abbrev pub Zeroed : Option Bool → St W × Option Bool → Type 0
  Zeroed = Leaves Restarted

  reached_or :
      (b : Bool) (s : St W) (r : St W × Option Bool)
      → r.1 ≢ some false
      → (if b then (s, some true) else r).1 ≢ some false
  reached_or true s r h e = cc
  reached_or false s r h e = h e

  after_event-ne-false :
      (target event : AssetEvent) (next : St W → St W × Option Bool) (s : St W)
      → event ≢ other_event
      → ((s1 : St W) → (next s1).1 ≢ some false)
      → (after_event port target next event s).1 ≢ some false
  unfolding after_event handle
  after_event-ne-false target no_event next s known ih e =
      reached_or (is_event target no_event) _ _ (ih _) e
  after_event-ne-false target start_event next s known ih e =
      reached_or (is_event target start_event) _ _ (ih _) e
  after_event-ne-false target stop_event next s known ih e =
      reached_or (is_event target stop_event) _ _ (ih _) e
  after_event-ne-false target reset_event next s known ih e =
      reached_or (is_event target reset_event) _ _ (ih _) e
  after_event-ne-false target other_event next s known ih e = absurd (known refl)

  is_event_sound : (target event : AssetEvent) → is_event target event ≡ true → target ≡ event
  is_event_sound no_event no_event e = refl
  is_event_sound start_event start_event e = refl
  is_event_sound stop_event stop_event e = refl
  is_event_sound reset_event reset_event e = refl
  is_event_sound other_event other_event e = refl
  is_event_sound target event e = cc

  after_event-Hears :
      (target : AssetEvent) (next : St W → St W × Option Bool) (event : AssetEvent) (s : St W)
      → (event_at s).1 ≡ event
      → ((s1 : St W) → Leaves (Hears target) (some true) (next s1))
      → Leaves (Hears target) (some true) (after_event port target next event (s.0, (event_at s).0))
  unfolding after_event
  after_event-Hears target next event s here ih =
      let P = Leaves (Hears target) (some true) in
      if_cases P (not (handle port event (s.0, (event_at s).0)).1) (λ e. λ done. cc)
        (λ e.
          if_cases P (is_event target event)
            (λ same. λ done.
              let equal = is_event_sound target event same in
              (s, here ∙ sym equal, ap (λ k. (handle port k (s.0, (event_at s).0)).0) (sym equal)))
            (λ other. ih _))

  wait_event-ne-false :
      (fuel : ℕ) (target : AssetEvent) (s : St W)
      → KnownEvents port
      → (wait_event port fuel target none s).1 ≢ some false
  unfolding wait_event KnownEvents
  wait_event-ne-false zero target s known e = cc
  wait_event-ne-false (suc fuel) target s known e =
      after_event-ne-false target (port.asset_get_event s.0.asset_name s.1).1
        (wait_event port fuel target none) (s.0, (port.asset_get_event s.0.asset_name s.1).0)
        (known s.0.asset_name s.1) (λ s1. wait_event-ne-false fuel target s1 known) e

  -- Where an event was waited for, it has been handled last.
  wait_event-Hears :
      (fuel : ℕ) (target : AssetEvent) (s : St W)
      → Leaves (Hears target) (some true) (wait_event port fuel target none s)
  unfolding wait_event
  wait_event-Hears zero target s e = cc
  wait_event-Hears (suc fuel) target s e =
      after_event-Hears target (wait_event port fuel target none) (event_at s).1 s refl
        (wait_event-Hears fuel target) e

  and_then-Zeroed :
      (r : St W × Option Bool) (k : St W → St W × Option Bool)
      → r.1 ≢ some false
      → ((s : St W) → r ≡ (s, some true) → Zeroed (some false) (k s))
      → Zeroed (some false) (and_then port r k)
  and_then-Zeroed (s, none) k ne next e = cc
  and_then-Zeroed (s, some false) k ne next e = absurd (ne refl)
  and_then-Zeroed (s, some true) k ne next e = next s refl e

  and_then-Zeroed_both :
      (r : St W × Option Bool) (k : St W → St W × Option Bool)
      → Zeroed (some false) r
      → ((s : St W) → Zeroed (some false) (k s))
      → Zeroed (some false) (and_then port r k)
  and_then-Zeroed_both (s, none) k this next e = cc
  and_then-Zeroed_both (s, some false) k this next e = this e
  and_then-Zeroed_both (s, some true) k this next e = next s e

  wait_restart-Zeroed :
      (fuel : ℕ) (s : St W) → KnownEvents port → Zeroed (some false) (wait_restart port fuel none s)
  unfolding wait_restart handle
  wait_restart-Zeroed fuel s known =
      and_then-Zeroed (wait_event port fuel stop_event none s) _
        (wait_event-ne-false fuel stop_event s known)
        λ s1 stopped.
          and_then-Zeroed (wait_event port fuel reset_event none s1) (λ s2. (s2, some false))
            (wait_event-ne-false fuel reset_event s1 known)
            λ s2 done e.
              let (a, stop_asked, left) =
                wait_event-Hears fuel stop_event s (ap (λ r. r.1) stopped) in
              let (b, reset_asked, end) =
                wait_event-Hears fuel reset_event s1 (ap (λ r. r.1) done) in
              record {
                stop_at = a;
                stop_asked = stop_asked;
                stopped = s1;
                stop_answered = sym (ap (λ r. r.0) stopped) ∙ left;
                fuel = fuel;
                then_waited = done;
                reset_at = b;
                reset_asked = reset_asked;
                reset_answered = sym (ap (λ r. r.0) done) ∙ end;
              }

  not_yet-Zeroed :
      (fuel : ℕ) (next : St W → St W × Option Bool) (s : St W)
      → KnownEvents port
      → ((s1 : St W) → Zeroed (some false) (next s1))
      → Zeroed (some false) (not_yet port fuel none next s)
  unfolding not_yet
  not_yet-Zeroed fuel next s known ih =
      if_intro (Zeroed (some false)) (not (is_running (port.state s.1).1))
        (wait_restart-Zeroed fuel (s.0, (port.state s.1).0) known) (ih _)

  proc-Zeroed :
      (fuel : ℕ) (s : St W) → KnownEvents port → Zeroed (some false) (proc port fuel none s)
  unfolding proc
  proc-Zeroed zero s known = λ e. cc
  proc-Zeroed (suc fuel) s known =
      if_intro (Zeroed (some false)) (execute port s).1 (λ e. cc)
        (not_yet-Zeroed fuel (proc port fuel none) (execute port s).0 known
          (λ s1. proc-Zeroed fuel s1 known))

  step_to-Zeroed :
      (fuel target : ℕ) (s : St W)
      → KnownEvents port
      → Zeroed (some false) (step_to port fuel target none s)
  unfolding step_to
  step_to-Zeroed zero target s known = λ e. cc
  step_to-Zeroed (suc fuel) target s known =
      if_cases (Zeroed (some false)) (ltb s.0.current_usec target)
        (λ before.
          and_then-Zeroed_both (proc port fuel none s) (step_to port fuel target none)
            (proc-Zeroed fuel s known) (λ s1. step_to-Zeroed fuel target s1 known))
        (λ there e. cc)

  -- Without a function that forces a stop, and with no event but the known ones, hako_asset_impl_step answers false only if the asset
  -- has got a stop event and answered it by its feedback, has waited for a reset from there on, and has got the reset event: the last that
  -- it did was to call its on_reset, to set its time to 0, and to give the feedback on the reset.
  pub interrupted_resets :
      (fuel n : ℕ) (s s' : St W)
      → KnownEvents port
      → step port fuel n none s ≡ (s', some false)
      → Restarted s'
  unfolding step
  interrupted_resets fuel n s s' known h =
      subst (λ r. Restarted r.0) h
        (step_to-Zeroed fuel (s.0.current_usec + n * s.0.delta_usec) s known (ap (λ r. r.1) h))
