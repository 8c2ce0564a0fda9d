-- ===== src/Conductor/Restart.antt =====
-- A conductor that is stopped, and started again (sources/conductor/src/hako_conductor_impl.cpp).
use hakoniwa_core_pro.Base.{
  ℕ, suc, ◌≡◌, refl, ap, sym, ◌∙◌, Bool, true, false, some, Bool-cases, inl, inr,
}
use hakoniwa_core_pro.RuntimeError.{RuntimeError, Attempt, returns, throws, crashes}
use hakoniwa_core_pro.Lifecycle.{CorePort, Process}
use hakoniwa_core_pro.Conductor.{
  Conductor, ConductorPort, ends, prepare, launch, impl_start, thread_round, wait_end, impl_stop,
  with_conductor,
}

module _ {W : Type 0} (core : CorePort W) (port : ConductorPort W) where
  -- The state after a stop: only the flag and the pointer differ, and the waits have gone by.
  stop_ends :
      (fuel : ℕ) (e : RuntimeError) (c : Conductor) (p : Process) (w : W)
      → (w' : W) × (impl_stop core port (suc (suc fuel)) e (c, (p, w))
          ≡ some (e, (record { conductor = false; cmd_stop = true }, (p, w'))))
  unfolding impl_stop wait_end thread_round
  stop_ends fuel e c p w = elim (Bool-cases c.conductor) [
    | inl up ↦ (port.wait w, rw up refl)
    | inr down ↦ (w, rw down refl)
  ]

  launch-keeps :
      (c c' : Conductor) (r : (Process × W) × Attempt Bool) (s' : Process × W)
      → launch core port c r ≡ ((c', s'), returns true)
      → c'.cmd_stop ≡ c.cmd_stop
  unfolding launch
  launch-keeps c c' (s, returns made) s' h = sym (ap (λ r. r.0.0.cmd_stop) h)
  launch-keeps c c' (s, throws x) s' h = cc
  launch-keeps c c' (s, crashes) s' h = cc

  start-keeps :
      (d m : ℕ) (c c' : Conductor) (s s' : Process × W)
      → impl_start core port d m (c, s) ≡ ((c', s'), returns true)
      → c'.cmd_stop ≡ c.cmd_stop
  unfolding impl_start
  start-keeps d m c c' s s' h = elim (Bool-cases c.conductor) [
    | inl up ↦
        let refused : impl_start core port d m (c, s) ≡ ((c, s), returns false) = rw up refl in
        cc (refused, h)
    | inr down ↦
        let launched : impl_start core port d m (c, s)
            ≡ launch core port c (prepare core port d m s) =
          rw down refl in
        launch-keeps c c' (prepare core port d m s) s' (sym launched ∙ h)
  ]

  stopped_round :
      (e : RuntimeError) (c : Conductor) (s : Process × W)
      → c.cmd_stop ≡ true
      → thread_round core port e (c, s) ≡ ends (e, (with_conductor core port false c, s))
  unfolding thread_round
  stopped_round e c s stop = rw stop refl

  -- hako_conductor_impl_stop returns as soon as the thread of the conductor has come to its next round. But since the request to stop stays, a conductor
  -- that is started afterwards, with success, does nothing: its thread ends before it executes the master even once, in the state that the start left, and the conductor is
  -- gone again.
  pub restart_does_nothing :
      (fuel d m : ℕ) (e : RuntimeError) (c : Conductor) (p : Process) (w : W)
      → (w' : W) × (let stopped : Conductor = record { conductor = false; cmd_stop = true } in
          (impl_stop core port (suc (suc fuel)) e (c, (p, w)) ≡ some (e, (stopped, (p, w'))))
          × ((c2 : Conductor) (s s2 : Process × W) (e2 : RuntimeError)
              → impl_start core port d m (stopped, s) ≡ ((c2, s2), returns true)
              → thread_round core port e2 (c2, s2)
                ≡ ends (e2, (with_conductor core port false c2, s2))))
  restart_does_nothing fuel d m e c p w =
      let (w', ended) = stop_ends fuel e c p w in
      (
        w',
        (ended, λ c2 s s2 e2 started. stopped_round e2 c2 s2 (start-keeps d m _ c2 s s2 started)),
      )
