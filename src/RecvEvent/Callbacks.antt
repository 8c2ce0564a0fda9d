-- ===== src/RecvEvent/Callbacks.antt =====
-- Callbacks and the pending flag of receive events
-- (sources/core/src/hako_pro_data_recv_event.cpp).
use hakoniwa_core_pro.Base.{
  Name, ℤ, pos, negsuc, ℕ, Bool, true, false, not, ◌&&◌, Option, none, some, List, [], ◌∷◌, ◌++◌,
  leb, ◌==◌, if◌then◌else◌, maybe, first, sweep,
}
use hakoniwa_core_pro.RecvEvent.{
  recv_event_max, Master, flag, callback, Entry, Table, lock, unlock, set_entry, with_table, owned,
  owned_on,
}

-- The calls of callbacks that a method makes, oldest first: the callback and the event id it gets.
abbrev pub Calls : Type 0
Calls = List (ℕ × ℕ)

-- One round of the loop of call_recv_event_callbacks.
unfoldable pub callback_round : ℕ → ℕ → Table × Calls → Table × Calls
callback_round pid i (t, calls) = elim (t.entries i).on_recv [
  | none ↦ (t, calls)
  | some f ↦
      if owned t.entries pid i && ((t.entries i).recv_flag && not (t.entries i).pending_flag)
      then (set_entry t i (record (t.entries i) { recv_flag = false }), calls ++ (f, i) ∷ [])
      else (t, calls)
]

abbrev pub known_asset : Master → Option Name → Bool
known_asset m none = true
known_asset m (some asset) = maybe false (λ id. true) (m.asset_id asset)

-- Callbacks are assumed to leave the table alone while the loop runs.
unfoldable pub call_recv_event_callbacks :
    Master → ℕ → Option Name → Option Table → Option Table × (Bool × Calls)
call_recv_event_callbacks m pid asset_name =
    with_table (false, [])
      λ t.
        if t.entry_num == 0
        then (t, (false, []))
        else if not (known_asset m asset_name)
        then (t, (false, []))
        else let (t', calls) = sweep (callback_round pid) t.entry_num 0 (t, []) in
          (t', (true, calls))

-- The tests of call_recv_event_callback.
abbrev pub callback_of : Entry → Option ℕ
callback_of e =
    if not e.enabled
    then none
    else elim e.type [ flag ↦ none | callback ↦ if e.pending_flag then none else e.on_recv ]

-- The call that call_recv_event_callback makes, if any; it returns true exactly if it makes one.
unfoldable pub call_recv_event_callback : ℤ → Option Table → Option (ℕ × ℕ)
call_recv_event_callback recv_event_id none = none
call_recv_event_callback (negsuc k) (some t) = none
call_recv_event_callback (pos i) (some t) =
    if leb recv_event_max i then none else maybe none (λ f. some (f, i)) (callback_of (t.entries i))

abbrev pub set_pending : Bool → Entry → Entry
set_pending pending e = record e { pending_flag = pending }

-- set_recv_event_pending by the event id.
unfoldable pub set_recv_event_pending : ℕ → ℤ → Bool → Option Table → Option Table × Bool
set_recv_event_pending pid (negsuc k) pending = with_table false λ t. (t, false)
set_recv_event_pending pid (pos i) pending = with_table false λ t.
    if leb recv_event_max i
    then (t, false)
    else if not (owned t.entries pid i)
    then (unlock (lock t), false)
    else (unlock (set_entry (lock t) i (set_pending pending (t.entries i))), true)

-- set_recv_event_pending by the robot's channel.
unfoldable pub set_channel_pending :
    Master → ℕ → Name → ℕ → Bool → Option Table → Option Table × Bool
set_channel_pending m pid robot_name channel_id pending = with_table false λ t.
    maybe (t, false)
      (λ real_id.
        if t.entry_num == 0
        then (t, false)
        else maybe (unlock (lock t), false)
            (λ i. (unlock (set_entry (lock t) i (set_pending pending (t.entries i))), true))
            (first (owned_on t.entries pid real_id) t.entry_num 0))
      (m.pdu_channel robot_name channel_id)
