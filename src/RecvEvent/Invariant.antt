-- ===== src/RecvEvent/Invariant.antt =====
-- The shape of the receive-event table, kept by every call (RecvEvent.Trace).
use hakoniwa_core_pro.Base.{
  Name, sweep, sym, if_intro, maybe_intro, ℤ, pos, negsuc, ℕ, ◌≤◌, ◌≡◌, refl, Bool, true, false,
  not, Option, none, some, ltb, leb, ◌==◌, if◌then◌else◌, arith, first, List, [], ◌∷◌,
}
use hakoniwa_core_pro.RecvEvent.{
  with_table, Entry, Table, Master, set_entry, owned, owned_on, recv_event_max, type_of, allocate,
  take_over, consume, lock, unlock, empty_table, register_data_recv_event, update_data_recv_event,
  get_recv_event, get_recv_event_by_name,
}
use hakoniwa_core_pro.RecvEvent.Callbacks.{
  known_asset, set_pending, call_recv_event_callbacks, set_recv_event_pending, set_channel_pending,
}
use hakoniwa_core_pro.RecvEvent.Hooks.{on_pdu_data_write, clear_run_flags, clear_entry, clear_round}
use hakoniwa_core_pro.RecvEvent.Sweeps.{
  raised, taken, write_sweep_at, write_sweep-SameFrame, clear_sweep_at, clear_sweep-SameFrame,
  callback_sweep_at, callback_sweep-SameFrame, SameFrame,
}
use hakoniwa_core_pro.RecvEvent.Trace.{
  Op, registers, updates, gets, gets_by_name, calls, pends, pends_channel, writes, clears, apply,
  run,
}

-- An entry is in use exactly below `entry_num`, and its type tells whether it has a callback.
pub record IsSound (n i : ℕ) (e : Entry) : Type 0 where
  pub in_use : e.enabled ≡ ltb i n
  pub typed : e.type ≡ type_of e.on_recv

pub record IsValid (t : Table) : Type 0 where
  pub within : t.entry_num ≤ recv_event_max
  pub free : t.atomic_is_busy ≡ false
  pub sound : (i : ℕ) → IsSound t.entry_num i (t.entries i)

abbrev pub ValidTable : Option Table → Type 0
ValidTable none = Unit {0}
ValidTable (some t) = IsValid t

pub empty_table-IsValid : IsValid empty_table
unfolding empty_table
empty_table-IsValid = record { within = omega arith; free = refl; sound = λ i. ground arith }

allocate-IsValid :
    (pid real_id : ℕ) (on_recv : Option ℕ) (t : Table)
    → IsValid t
    → IsValid (allocate pid real_id on_recv t).0
unfolding allocate
allocate-IsValid pid real_id on_recv t v = record {
  within = ground (arith, v.within);
  free = ground (arith, v.free);
  sound = λ i. ground (arith, v.sound i);
}

-- A change of one entry that keeps what the invariant reads of it.
set_entry-IsValid :
    (t : Table) (i : ℕ) (e : Entry) (busy : Bool)
    → IsValid t
    → e.enabled ≡ (t.entries i).enabled
    → e.type ≡ type_of e.on_recv
    → IsValid (unlock (set_entry (record t { atomic_is_busy = busy }) i e))
set_entry-IsValid t i e busy v same typed = record {
  within = v.within;
  free = refl;
  sound = λ j. ground (arith, v.sound j, v.sound i);
}

take_over-IsValid :
    (pid real_id : ℕ) (on_recv : Option ℕ) (t : Table)
    → IsValid t
    → IsValid (take_over pid real_id on_recv t).0
unfolding take_over
take_over-IsValid pid real_id on_recv t v = record {
  within = ground (arith, v.within);
  free = ground (arith, v.free);
  sound = λ i. ground (arith, v.sound i);
}

consume-IsValid : (t : Table) (i : ℕ) → IsValid t → IsValid (consume t i).0
unfolding consume
consume-IsValid t i v = record {
  within = ground (arith, v.within);
  free = ground (arith, v.free);
  sound = λ j. ground (arith, v.sound j);
}

-- So for a loop that changes each entry in a way that keeps it sound.
sweep-IsValid :
    (t u : Table) (f : Entry → Entry)
    → ((n i : ℕ) (e : Entry) → IsSound n i e → IsSound n i (f e))
    → ((j : ℕ) → u.entries j ≡ (if ltb j t.entry_num then f (t.entries j) else t.entries j))
    → SameFrame t u
    → IsValid t
    → IsValid u
sweep-IsValid t u f keep at frame v = record {
  within = ground (arith, v.within);
  free = ground (arith, v.free);
  sound = λ i. ground (arith, v.sound i, at i, keep t.entry_num i (t.entries i) (v.sound i));
}

raised-IsSound : (c n i : ℕ) (e : Entry) → IsSound n i e → IsSound n i (raised c e)
raised-IsSound c n i e v = ground arith

clear_entry-IsSound : (n i : ℕ) (e : Entry) → IsSound n i e → IsSound n i (clear_entry e)
clear_entry-IsSound n i e v = ground arith

taken-IsSound : (pid n i : ℕ) (e : Entry) → IsSound n i e → IsSound n i (taken pid e)
taken-IsSound pid n i e v = ground arith

lock-unlock-IsValid : (t : Table) → IsValid t → IsValid (unlock (lock t))
lock-unlock-IsValid t v = record { within = v.within; free = refl; sound = v.sound }

-- The table that a method returns is valid.
abbrev Ok : {A : Type 0} → Table × A → Type 0
Ok r = IsValid r.0

abbrev Ok? : {A : Type 0} → Option Table × A → Type 0
Ok? r = ValidTable r.0

-- A method on a table that may be `nullptr`.
with_table-ValidTable :
    {A : Type 0} (fail : A) (f : Table → Table × A) (ot : Option Table)
    → ((t : Table) → IsValid t → Ok (f t))
    → ValidTable ot
    → Ok? (with_table fail f ot)
with_table-ValidTable fail f none keep v = tt
with_table-ValidTable fail f (some t) keep v = keep t v

register-ValidTable :
    (m : Master) (pid : ℕ) (robot : Name) (channel : ℕ) (on_recv : Option ℕ) (ot : Option Table)
    → ValidTable ot
    → Ok? (register_data_recv_event m pid robot channel on_recv ot)
unfolding register_data_recv_event
register-ValidTable m pid robot channel on_recv ot = with_table-ValidTable none _ ot λ t v.
    maybe_intro Ok (m.pdu_channel robot channel) v
      (λ real_id. allocate-IsValid pid real_id on_recv t v)

update-ValidTable :
    (m : Master) (pid : ℕ) (robot : Name) (channel : ℕ) (on_recv : Option ℕ) (ot : Option Table)
    → ValidTable ot
    → Ok? (update_data_recv_event m pid robot channel on_recv ot)
unfolding update_data_recv_event
update-ValidTable m pid robot channel on_recv ot = with_table-ValidTable none _ ot λ t v.
    maybe_intro Ok (m.pdu_channel robot channel) v
      (λ real_id. take_over-IsValid pid real_id on_recv t v)

get_recv_event-ValidTable :
    (m : Master) (pid channel : ℕ) (ot : Option Table)
    → ValidTable ot
    → Ok? (get_recv_event m pid channel ot)
unfolding get_recv_event
get_recv_event-ValidTable m pid channel ot = with_table-ValidTable none _ ot λ t v.
    if_intro Ok (leb m.channel_max channel) v (
      if_intro Ok (t.entry_num == 0) v (
        maybe_intro Ok (first (owned_on t.entries pid channel) t.entry_num 0) v
          (λ i. consume-IsValid t i v)))

get_by_name-ValidTable :
    (m : Master) (pid : ℕ) (asset : Option Name) (robot : Name) (channel : ℕ) (ot : Option Table)
    → ValidTable ot
    → Ok? (get_recv_event_by_name m pid asset robot channel ot)
unfolding get_recv_event_by_name
get_by_name-ValidTable m pid none robot channel ot v =
    maybe_intro Ok? (m.pdu_channel robot channel) v
      (λ real_id. get_recv_event-ValidTable m pid real_id ot v)
get_by_name-ValidTable m pid (some asset) robot channel ot v =
    maybe_intro Ok? (m.asset_id asset) v (λ id.
      maybe_intro Ok? (m.pdu_channel robot channel) v
        (λ real_id. get_recv_event-ValidTable m pid real_id ot v))

callbacks-ValidTable :
    (m : Master) (pid : ℕ) (asset : Option Name) (ot : Option Table)
    → ValidTable ot
    → Ok? (call_recv_event_callbacks m pid asset ot)
unfolding call_recv_event_callbacks
callbacks-ValidTable m pid asset ot =
    with_table-ValidTable (false, []) _ ot
      λ t v. if_intro Ok (t.entry_num == 0) v (
        if_intro Ok (not (known_asset m asset)) v (
          sweep-IsValid t _ (taken pid) (taken-IsSound pid) (callback_sweep_at pid t.entry_num t [])
            (callback_sweep-SameFrame pid t.entry_num t []) v))

-- Setting the pending flag of an entry keeps the table valid.
pending-IsValid :
    (t : Table) (i : ℕ) (pending : Bool)
    → IsValid t
    → IsValid (unlock (set_entry (lock t) i (set_pending pending (t.entries i))))
pending-IsValid t i pending v =
    set_entry-IsValid t i (set_pending pending (t.entries i)) true v refl (v.sound i).typed

pends-ValidTable :
    (pid : ℕ) (id : ℤ) (pending : Bool) (ot : Option Table)
    → ValidTable ot
    → Ok? (set_recv_event_pending pid id pending ot)
unfolding set_recv_event_pending
pends-ValidTable pid (negsuc k) pending ot = with_table-ValidTable false _ ot λ t v. v
pends-ValidTable pid (pos i) pending ot = with_table-ValidTable false _ ot λ t v.
    if_intro Ok (leb recv_event_max i) v (
      if_intro Ok (not (owned t.entries pid i)) (lock-unlock-IsValid t v)
        (pending-IsValid t i pending v))

pends_channel-ValidTable :
    (m : Master) (pid : ℕ) (robot : Name) (channel : ℕ) (pending : Bool) (ot : Option Table)
    → ValidTable ot
    → Ok? (set_channel_pending m pid robot channel pending ot)
unfolding set_channel_pending
pends_channel-ValidTable m pid robot channel pending ot = with_table-ValidTable false _ ot λ t v.
    maybe_intro Ok (m.pdu_channel robot channel) v (λ real_id. if_intro Ok (t.entry_num == 0) v (
      maybe_intro Ok (first (owned_on t.entries pid real_id) t.entry_num 0)
        (lock-unlock-IsValid t v) (λ i. pending-IsValid t i pending v)))

write-ValidTable :
    (channel : ℕ) (ot : Option Table) → ValidTable ot → Ok? (on_pdu_data_write channel ot)
unfolding on_pdu_data_write
write-ValidTable channel ot = with_table-ValidTable false _ ot λ t v.
    sweep-IsValid t _ (raised channel) (raised-IsSound channel)
      (write_sweep_at channel t.entry_num t) (write_sweep-SameFrame channel t.entry_num t) v

clear-ValidTable : (ot : Option Table) → ValidTable ot → ValidTable (clear_run_flags ot)
unfolding clear_run_flags
clear-ValidTable none v = tt
clear-ValidTable (some t) v =
    sweep-IsValid t (unlock (sweep clear_round t.entry_num 0 (lock t))) clear_entry
      clear_entry-IsSound (clear_sweep_at t.entry_num (lock t))
      ((clear_sweep-SameFrame t.entry_num (lock t)).0, sym v.free) v

-- Every call of every process, the failing ones included, keeps the table valid: at most 4096 entries,
-- in use exactly below `entry_num`, their type telling whether they have a callback, the lock free.
pub apply-ValidTable :
    (m : Master) (op : Op) (ot : Option Table) → ValidTable ot → ValidTable (apply m op ot)
unfolding apply
apply-ValidTable m (registers pid robot channel on_recv) ot =
    register-ValidTable m pid robot channel on_recv ot
apply-ValidTable m (updates pid robot channel on_recv) ot =
    update-ValidTable m pid robot channel on_recv ot
apply-ValidTable m (gets pid channel) ot = get_recv_event-ValidTable m pid channel ot
apply-ValidTable m (gets_by_name pid asset robot channel) ot =
    get_by_name-ValidTable m pid asset robot channel ot
apply-ValidTable m (calls pid asset) ot = callbacks-ValidTable m pid asset ot
apply-ValidTable m (pends pid id pending) ot = pends-ValidTable pid id pending ot
apply-ValidTable m (pends_channel pid robot channel pending) ot =
    pends_channel-ValidTable m pid robot channel pending ot
apply-ValidTable m (writes channel) ot = write-ValidTable channel ot
apply-ValidTable m clears ot = clear-ValidTable ot

run_from-ValidTable :
    (m : Master) (ops : List Op) (ot : Option Table) → ValidTable ot → ValidTable (run m ops ot)
unfolding run
run_from-ValidTable m [] ot v = v
run_from-ValidTable m (op ∷ ops) ot v =
    run_from-ValidTable m ops (apply m op ot) (apply-ValidTable m op ot v)

-- After any sequence of calls on a table that create_empty_tables() made, the table is valid: at most
-- 4096 entries, in use exactly below `entry_num`, their type telling whether they have a callback, and
-- the lock free.
pub run-ValidTable : (m : Master) (ops : List Op) → ValidTable (run m ops (some empty_table))
run-ValidTable m ops = run_from-ValidTable m ops (some empty_table) empty_table-IsValid
