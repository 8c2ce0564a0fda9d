-- ===== src/Asset/Clock.antt =====
-- The time of an asset: `current_usec` through hako_asset_impl_execute, hako_asset_impl_proc and
-- hako_asset_impl_step (sources/assets/callback/src/hako_asset_impl.cpp).
use hakoniwa_core_pro.Base.{
  Name, ℤ, ℕ, zero, suc, ◌+◌, ◌*◌, ltb, ◌≡◌, ◌≢◌, refl, ap, sym, ◌∙◌, arith, Bool, true, false,
  Option, none, some, List, [], ◌∷◌, if◌then◌else◌, if_cases, Bool-cases, inl, inr,
}
use hakoniwa_core_pro.Asset.{PduIoEntry, RobotCompact}
use hakoniwa_core_pro.Asset.Instance.{
  stop_event, reset_event, Asset, Port, St, ForceStop, unless_forced,
}
use hakoniwa_core_pro.Asset.Loop.{
  wait_event, and_then, execute, simulation_step, pdu_write, write_entries, pdus_write_done,
  wait_restart, not_yet, proc, step_to, step,
}

module _ {W : Type 0} (port : Port W) where
  -- What an attempt to step does to the asset: a step, or nothing.
  pub record Attempted (a : Asset W) (r : St W × Bool) : Type 0 where
    pub asset :
        r.0.0 ≡ (if r.1 then record a { current_usec = a.current_usec + a.delta_usec } else a)

  execute-Attempted : (s : St W) → Attempted s.0 (execute port s)
  unfolding execute simulation_step
  execute-Attempted s = record { asset = ground arith }

  pub record Keeps {A : Type 0} (a : Asset W) (r : St W × A) : Type 0 where
    pub kept : r.0.0 ≡ a

  pdu_write-keeps : (n : Name) (c : ℤ) (b : List ℕ) (s : St W) → (pdu_write port n c b s).0.0 ≡ s.0
  unfolding pdu_write
  pdu_write-keeps n c b s = ground arith

  write_entries-keeps :
      (n : Name) (es : List PduIoEntry) (s : St W) → (write_entries port n es s).0 ≡ s.0
  unfolding write_entries
  write_entries-keeps n [] s = refl
  write_entries-keeps n (e ∷ es) s =
      write_entries-keeps n es _ ∙ pdu_write-keeps n e.io.channel_id _ s

  pdus_write_done-keeps : (rs : List RobotCompact) (s : St W) → (pdus_write_done port rs s).0 ≡ s.0
  unfolding pdus_write_done
  pdus_write_done-keeps [] s = refl
  pdus_write_done-keeps (r ∷ rs) s =
      pdus_write_done-keeps rs _ ∙ write_entries-keeps r.name r.pdus s

  -- An outcome that is true only after exactly one step of `a`.
  Stepped : Asset W → St W × Option Bool → Type 0
  Stepped a r = r.1 ≡ some true → r.0.0 ≡ record a { current_usec = a.current_usec + a.delta_usec }

  and_then-ne-true :
      (r : St W × Option Bool) (k : St W → St W × Option Bool)
      → ((s : St W) → (k s).1 ≢ some true)
      → (and_then port r k).1 ≢ some true
  and_then-ne-true (s, none) k h e = cc
  and_then-ne-true (s, some false) k h e = cc
  and_then-ne-true (s, some true) k h e = h s e

  wait_restart-ne-true :
      (fuel : ℕ) (force : ForceStop W) (s : St W) → (wait_restart port fuel force s).1 ≢ some true
  unfolding wait_restart
  wait_restart-ne-true fuel force s =
      and_then-ne-true (wait_event port fuel stop_event force s) _ λ s1.
        and_then-ne-true (wait_event port fuel reset_event force s1) (λ s2. (s2, some false))
          (λ s2 e. cc)

  not_yet-Stepped :
      (a : Asset W) (fuel : ℕ) (force : ForceStop W) (next : St W → St W × Option Bool) (s : St W)
      → ((s1 : St W) → s1.0 ≡ a → Stepped a (next s1))
      → s.0 ≡ a
      → Stepped a (not_yet port fuel force next s)
  unfolding not_yet Stepped
  not_yet-Stepped a fuel force next s ih e h =
      let s1 : St W = (s.0, (port.state s.1).0) in
      let s2 : St W = (s.0, (port.is_pdu_sync_mode s.0.asset_name s1.1).0) in
      ground (
        arith,
        h,
        wait_restart-ne-true fuel force s1,
        ih s2 e,
        ih (pdus_write_done port s.0.robots_compact s2) (pdus_write_done-keeps _ s2 ∙ e),
      )

  unless_forced-Stepped :
      (a : Asset W) (force : ForceStop W) (s : St W) (go : St W → St W × Option Bool)
      → ((s1 : St W) → s1.0 ≡ a → Stepped a (go s1))
      → s.0 ≡ a
      → Stepped a (unless_forced force s (λ s1. (s1, some false)) go)
  unfolding Stepped
  unless_forced-Stepped a none s go ih e h = ih s e h
  unless_forced-Stepped a (some f) s go ih e h = ground (arith, h, ih (s.0, (f s.1).0) e)

  proc-Stepped :
      (fuel : ℕ) (force : ForceStop W) (a : Asset W) (s : St W)
      → s.0 ≡ a
      → Stepped a (proc port fuel force s)
  unfolding proc Stepped
  proc-Stepped zero force a s e h = cc
  proc-Stepped (suc fuel) force a s e h = elim (Bool-cases (execute port s).1) [
    | inl done ↦ ground (arith, h, e, done, (execute-Attempted s).asset)
    | inr failed ↦
        let same : (execute port s).0.0 ≡ a =
          ground (arith, e, failed, (execute-Attempted s).asset) in
        let later : Stepped a (
            unless_forced force (execute port s).0 (λ s1. (s1, some false))
              (not_yet port fuel force (proc port fuel force))) =
          unless_forced-Stepped a force (execute port s).0
            (not_yet port fuel force (proc port fuel force))
            (λ s1.
              not_yet-Stepped a fuel force (proc port fuel force) s1 (proc-Stepped fuel force a))
            same in
        ground (arith, h, failed, later)
  ]

  pub record StepsTo (target : ℕ) (a : Asset W) (r : St W × Option Bool) : Type 0 where
    pub steps_to : r.1 ≡ some true → r.0.0 ≡ record a { current_usec = target }

  and_then-Steps :
      (a b : Asset W) (target : ℕ) (r : St W × Option Bool) (k : St W → St W × Option Bool)
      → Stepped a r
      → b ≡ record a { current_usec = a.current_usec + a.delta_usec }
      → ((s : St W) → s.0 ≡ b → StepsTo target b (k s))
      → StepsTo target b (and_then port r k)
  unfolding Stepped
  and_then-Steps a b target (s, none) k done e next = record { steps_to = λ h. cc }
  and_then-Steps a b target (s, some false) k done e next = record { steps_to = λ h. cc }
  and_then-Steps a b target (s, some true) k done e next = next s (done refl ∙ sym e)

  step_to_at :
      (fuel m target : ℕ) (force : ForceStop W) (a : Asset W) (s : St W)
      → s.0 ≡ a
      → target ≡ a.current_usec + m * a.delta_usec
      → StepsTo target a (step_to port fuel target force s)
  unfolding step_to
  step_to_at zero m target force a s at e = record { steps_to = λ h. cc }
  step_to_at (suc fuel) zero target force a s at e =
      let there : ltb s.0.current_usec target ≡ false = ground (arith, at, e) in
      rw there
        (record { steps_to = λ h. at ∙ ap (λ t. record a { current_usec = t }) (omega (arith, e)) })
  step_to_at (suc fuel) (suc m) target force a s at e =
      let b : Asset W = record a { current_usec = a.current_usec + a.delta_usec } in
      if_cases (StepsTo target a) (ltb s.0.current_usec target)
        (λ before.
          let next =
            and_then-Steps a b target (proc port fuel force s) (step_to port fuel target force)
              (proc-Stepped fuel force a s at) refl
              (λ s1 at1. step_to_at fuel m target force b s1 at1 (omega (arith, e))) in
          record { steps_to = next.steps_to })
        (λ there. record {
          steps_to = λ h.
              at
              ∙ ap (λ t. record a { current_usec = t })
                  (let c : s.0.current_usec ≡ a.current_usec = ap (λ x. x.current_usec) at in
                    ground (arith, c, e, there));
        })

  -- When hako_asset_impl_step answers true, whatever the other processes and the conductor did
  -- meanwhile, the asset's time has moved on by exactly the steps that were asked for, and nothing else of the asset has changed.
  pub step_exact :
      (fuel n : ℕ) (force : ForceStop W) (s s' : St W)
      → step port fuel n force s ≡ (s', some true)
      → s'.0 ≡ record s.0 { current_usec = s.0.current_usec + n * s.0.delta_usec }
  unfolding step
  step_exact fuel n force s s' h =
      sym (ap (λ r. r.0.0) h)
      ∙ (step_to_at fuel n (s.0.current_usec + n * s.0.delta_usec) force s.0 s refl refl).steps_to
          (ap (λ r. r.1) h)
