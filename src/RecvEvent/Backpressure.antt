-- ===== src/RecvEvent/Backpressure.antt =====
-- An event that its process has not taken holds the channel's writers back, whatever the others do
-- (sources/core/src/hako_pro_data.cpp, sources/core/src/hako_pro_data_recv_event.cpp).
use hakoniwa_core_pro.Base.{
  Name, if_intro, maybe_intro, if_cases, maybe_cases, ℤ, pos, negsuc, ℕ, ◌<◌, ◌≡◌, ◌≢◌, Bool, true,
  false, not, Option, none, some, leb, ◌==◌, arith, first, first-some, first-hit, List, [], ◌∷◌, ap,
  ◌∙◌, maybe,
}
use hakoniwa_core_pro.RecvEvent.{
  Table, Master, watches, owned, owned_on, recv_event_max, allocate, take_over, consume, with_table,
  register_data_recv_event, update_data_recv_event, get_recv_event, get_recv_event_by_name,
}
use hakoniwa_core_pro.RecvEvent.Callbacks.{
  call_recv_event_callbacks, set_recv_event_pending, set_channel_pending, known_asset,
}
use hakoniwa_core_pro.RecvEvent.Hooks.{on_pdu_data_write, on_pdu_data_before_write, unread}
use hakoniwa_core_pro.RecvEvent.Sweeps.{
  write_sweep_at, write_sweep-SameFrame, callback_sweep_at, callback_sweep-SameFrame,
}
use hakoniwa_core_pro.RecvEvent.Trace.{
  Op, registers, updates, gets, gets_by_name, calls, pends, pends_channel, writes, clears, apply,
  run,
}

module _ (m : Master) (q c i : ℕ) where
  -- Entry `i` of process `q` holds an event of channel `c` that the process has not taken.
  abbrev pub Waiting : Table → Type 0
  Waiting t = (i < t.entry_num) × (unread t.entries c i ≡ true) × ((t.entries i).proc_id ≡ q)

  -- A call that is not made by process `q`, is no take-over on channel `c`, and starts no new run.
  abbrev pub ByOthers : Op → Type 0
  ByOthers (registers pid robot channel on_recv) = Unit {0}
  ByOthers (updates pid robot channel on_recv) = m.pdu_channel robot channel ≢ some c
  ByOthers (gets pid channel) = pid ≢ q
  ByOthers (gets_by_name pid asset robot channel) = pid ≢ q
  ByOthers (calls pid asset) = pid ≢ q
  ByOthers (pends pid id pending) = pid ≢ q
  ByOthers (pends_channel pid robot channel pending) = pid ≢ q
  ByOthers (writes channel) = Unit {0}
  ByOthers clears = ⊥

  abbrev pub AllByOthers : List Op → Type 0
  AllByOthers [] = Unit {0}
  AllByOthers (op ∷ ops) = ByOthers op × AllByOthers ops

  abbrev Waits : {A : Type 0} → Table × A → Type 0
  Waits r = Waiting r.0

  abbrev Waiting? : Option Table → Type 0
  Waiting? none = ⊥
  Waiting? (some t) = Waiting t

  abbrev Waits? : {A : Type 0} → Option Table × A → Type 0
  Waits? r = Waiting? r.0

  with_table-Waiting :
      {A : Type 0} (fail : A) (f : Table → Table × A) (ot : Option Table)
      → ((t : Table) → Waiting t → Waits (f t))
      → Waiting? ot
      → Waits? (with_table fail f ot)
  with_table-Waiting fail f none keep v = absurd v
  with_table-Waiting fail f (some t) keep v = keep t v

  allocate-Waiting :
      (pid real_id : ℕ) (on_recv : Option ℕ) (t : Table)
      → Waiting t
      → Waits (allocate pid real_id on_recv t)
  unfolding allocate
  allocate-Waiting pid real_id on_recv t v = ground arith

  take_over-Waiting :
      (pid real_id : ℕ) (on_recv : Option ℕ) (t : Table)
      → real_id ≢ c
      → Waiting t
      → Waits (take_over pid real_id on_recv t)
  unfolding take_over
  take_over-Waiting pid real_id on_recv t other v = if_intro Waits (t.entry_num == 0) v (
      maybe_cases Waits (first (watches t.entries real_id) t.entry_num 0) (λ e. v)
        (λ k e. ground (arith, first-some (watches t.entries real_id) t.entry_num 0 k e)))

  -- The entry of another process is another entry.
  get-Waiting :
      (pid channel : ℕ) (ot : Option Table)
      → pid ≢ q
      → Waiting? ot
      → Waits? (get_recv_event m pid channel ot)
  unfolding get_recv_event consume
  get-Waiting pid channel ot other = with_table-Waiting none _ ot λ t v.
      if_intro Waits (leb m.channel_max channel) v (
        if_intro Waits (t.entry_num == 0) v (
          maybe_cases Waits (first (owned_on t.entries pid channel) t.entry_num 0) (λ e. v)
            (λ k e. ground (arith, first-some (owned_on t.entries pid channel) t.entry_num 0 k e))))

  callbacks-Waiting :
      (pid : ℕ) (asset : Option Name) (ot : Option Table)
      → pid ≢ q
      → Waiting? ot
      → Waits? (call_recv_event_callbacks m pid asset ot)
  unfolding call_recv_event_callbacks
  callbacks-Waiting pid asset ot other =
      with_table-Waiting (false, []) _ ot
        λ t v. if_intro Waits (t.entry_num == 0) v (
          if_intro Waits (not (known_asset m asset)) v (
            ground (
              arith,
              callback_sweep_at pid t.entry_num t [] i,
              callback_sweep-SameFrame pid t.entry_num t [],
            )))

  pends-Waiting :
      (pid : ℕ) (id : ℤ) (pending : Bool) (ot : Option Table)
      → pid ≢ q
      → Waiting? ot
      → Waits? (set_recv_event_pending pid id pending ot)
  unfolding set_recv_event_pending
  pends-Waiting pid (negsuc k) pending ot other = with_table-Waiting false _ ot λ t v. v
  pends-Waiting pid (pos k) pending ot other = with_table-Waiting false _ ot λ t v.
      if_intro Waits (leb recv_event_max k) v
        (if_cases Waits (not (owned t.entries pid k)) (λ e. v) (λ e. ground arith))

  pends_channel-Waiting :
      (pid : ℕ) (robot : Name) (channel : ℕ) (pending : Bool) (ot : Option Table)
      → pid ≢ q
      → Waiting? ot
      → Waits? (set_channel_pending m pid robot channel pending ot)
  unfolding set_channel_pending
  pends_channel-Waiting pid robot channel pending ot other = with_table-Waiting false _ ot λ t v.
      maybe_intro Waits (m.pdu_channel robot channel) v (λ real_id.
        if_intro Waits (t.entry_num == 0) v (
          maybe_cases Waits (first (owned_on t.entries pid real_id) t.entry_num 0) (λ e. v)
            (λ k e. ground (arith, first-some (owned_on t.entries pid real_id) t.entry_num 0 k e))))

  write-Waiting :
      (channel : ℕ) (ot : Option Table) → Waiting? ot → Waits? (on_pdu_data_write channel ot)
  unfolding on_pdu_data_write
  write-Waiting channel ot = with_table-Waiting false _ ot λ t v.
      ground
        (arith, write_sweep_at channel t.entry_num t i, write_sweep-SameFrame channel t.entry_num t)

  apply-Waiting :
      (op : Op) (ot : Option Table) → ByOthers op → Waiting? ot → Waiting? (apply m op ot)
  unfolding apply register_data_recv_event update_data_recv_event get_recv_event_by_name
  apply-Waiting (registers pid robot channel on_recv) ot other h =
      with_table-Waiting none _ ot
        (λ t v.
          maybe_intro Waits (m.pdu_channel robot channel) v
            (λ real_id. allocate-Waiting pid real_id on_recv t v))
        h
  apply-Waiting (updates pid robot channel on_recv) ot other h =
      with_table-Waiting none _ ot
        (λ t v.
          maybe_cases Waits (m.pdu_channel robot channel) (λ e. v)
            (λ real_id e.
              take_over-Waiting pid real_id on_recv t (λ same. other (e ∙ ap some same)) v))
        h
  apply-Waiting (gets pid channel) ot other v = get-Waiting pid channel ot other v
  apply-Waiting (gets_by_name pid none robot channel) ot other v =
      maybe_intro Waits? (m.pdu_channel robot channel) v
        (λ real_id. get-Waiting pid real_id ot other v)
  apply-Waiting (gets_by_name pid (some asset) robot channel) ot other v =
      maybe_intro Waits? (m.asset_id asset) v (λ id.
        maybe_intro Waits? (m.pdu_channel robot channel) v
          (λ real_id. get-Waiting pid real_id ot other v))
  apply-Waiting (calls pid asset) ot other v = callbacks-Waiting pid asset ot other v
  apply-Waiting (pends pid id pending) ot other v = pends-Waiting pid id pending ot other v
  apply-Waiting (pends_channel pid robot channel pending) ot other v =
      pends_channel-Waiting pid robot channel pending ot other v
  apply-Waiting (writes channel) ot other v = write-Waiting channel ot v
  apply-Waiting clears ot other v = absurd other

  run-Waiting :
      (ops : List Op) (ot : Option Table) → AllByOthers ops → Waiting? ot → Waiting? (run m ops ot)
  unfolding run
  run-Waiting [] ot all v = v
  run-Waiting (op ∷ ops) ot all v =
      run-Waiting ops (apply m op ot) all.1 (apply-Waiting op ot all.0 v)

  Waiting-before_write : (ot : Option Table) → Waiting? ot → on_pdu_data_before_write c ot ≡ false
  unfolding on_pdu_data_before_write
  Waiting-before_write none v = absurd v
  Waiting-before_write (some t) v =
      let (k, e, le) =
        first-hit (unread t.entries c) t.entry_num 0 i (omega arith) (omega arith) v.1 in
      ap (maybe true (λ j. false)) e

  -- While process `q` does not take the event of its entry, any calls of the other processes, short of a
  -- take-over on the channel and a new run, leave the writers of the channel held back: no write can
  -- overwrite the event. If `q` has died, the channel stays blocked.
  pub untaken_blocks :
      (t : Table) (ops : List Op)
      → Waiting t
      → AllByOthers ops
      → on_pdu_data_before_write c (run m ops (some t)) ≡ false
  untaken_blocks t ops v all =
      Waiting-before_write (run m ops (some t)) (run-Waiting ops (some t) all v)
