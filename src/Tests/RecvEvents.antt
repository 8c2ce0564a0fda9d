-- ===== src/Tests/RecvEvents.antt =====
-- Two processes on one channel: the receive-event table of sources/core/src/hako_pro_data_recv_event.cpp.
use hakoniwa_core_pro.Base.{
  ℕ, ◌+◌, ◌≡◌, ◌↔◌, refl, arith, true, false, none, some, List, [], ◌∷◌, Name, ltb, if◌then◌else◌,
  ◌&&◌, ◌<◌, sweep, first,
}
use hakoniwa_core_pro.RecvEvent.{
  Table, Master, Entry, empty_table, new_entry, zero_entry, register_data_recv_event,
  get_recv_event, allocate, consume,
}
use hakoniwa_core_pro.RecvEvent.Callbacks.{call_recv_event_callbacks}
use hakoniwa_core_pro.RecvEvent.Hooks.{
  on_pdu_data_before_write, on_pdu_data_write, unread, write_round,
}
use hakoniwa_core_pro.RecvEvent.Sweeps.{called}
use hakoniwa_core_pro.RecvEvent.Trace.{Op, registers, gets, writes, clears, apply, run}
use hakoniwa_core_pro.RecvEvent.Invariant.{IsValid, ValidTable, run-ValidTable}
use hakoniwa_core_pro.RecvEvent.Delivery.{
  before_write_iff, Delivers, get_recv_event_iff, get_recv_event-none, register_write_get,
}
use hakoniwa_core_pro.RecvEvent.Backpressure.{untaken_blocks}
use hakoniwa_core_pro.RecvEvent.Due.{due_calls, call_recv_event_callbacks_due}

abbrev robot : Name
robot = 114 ∷ 49 ∷ []

-- A PDU data that knows every channel.
abbrev master : Master
master = record {
  asset_id = λ name. some 0;
  pdu_channel = λ name channel. some (channel + 10);
  channel_max = 100;
}

-- Process 7 watches real channel 13 and holds an event; process 8 has a callback on it.
abbrev watched : Entry
watched = record (new_entry 7 13 none) { recv_flag = true }

abbrev called_back : Entry
called_back = record (new_entry 8 13 (some 500)) { recv_flag = true }

abbrev two_watchers : Table
two_watchers = record {
  entries = λ i. if ltb i 1 then watched else if ltb i 2 then called_back else zero_entry;
  entry_num = 2;
  atomic_is_busy = false;
}

abbrev history : List Op
history = registers 7 robot 3 none ∷ writes 13 ∷ gets 7 13 ∷ clears ∷ []

run_history :
    (get_recv_event master 7 13
      (run master (registers 7 robot 3 none ∷ writes 13 ∷ []) (some empty_table))).1
    ≡ some 0
unfolding run apply register_data_recv_event allocate empty_table on_pdu_data_write write_round
    sweep get_recv_event first consume
run_history = refl

run-ValidTable_example : ValidTable (run master history (some empty_table))
run-ValidTable_example = run-ValidTable master history

before_write_iff_here :
    (on_pdu_data_before_write 13 (some two_watchers) ≡ true)
    ↔ ((i : ℕ) → i < 2 → unread two_watchers.entries 13 i ≡ false)
before_write_iff_here = before_write_iff 13 two_watchers

get_recv_event_iff_here :
    ((get_recv_event master 7 13 (some two_watchers)).1 ≡ some 0)
    ↔ Delivers master 7 13 two_watchers 0
get_recv_event_iff_here = get_recv_event_iff master 7 13 two_watchers 0

get_recv_event-none_here : (get_recv_event master 9 13 (some two_watchers)).0 ≡ some two_watchers
unfolding get_recv_event first consume
get_recv_event-none_here = get_recv_event-none master 9 13 (some two_watchers) refl

register_write_get_example :
    let (t1, id) = register_data_recv_event master 9 robot 3 none (some two_watchers) in
    let (t2, heard) = on_pdu_data_write 13 t1 in
    let (t3, event) = get_recv_event master 9 13 t2 in
    (id ≡ some 2) × (heard ≡ true) × (event ≡ some 2) × ((get_recv_event master 9 13 t3).1 ≡ none)
register_write_get_example =
    register_write_get master 9 robot 3 13 none two_watchers refl (omega arith) (omega arith)
      (λ j l. ground arith)

untaken_blocks_example :
    on_pdu_data_before_write 13
      (run master (gets 8 13 ∷ writes 13 ∷ registers 9 robot 3 none ∷ []) (some two_watchers))
    ≡ false
untaken_blocks_example =
    untaken_blocks master 7 13 0 two_watchers
      (gets 8 13 ∷ writes 13 ∷ registers 9 robot 3 none ∷ []) (omega arith, refl, refl)
      ((λ e. omega arith), (tt, (tt, tt)))

two_watchers-IsValid : IsValid two_watchers
two_watchers-IsValid = record { within = omega arith; free = refl; sound = λ i. ground arith }

call_recv_event_callbacks_due_example :
    (u : Table) × (call_recv_event_callbacks master 8 none (some two_watchers)
      ≡ (some u, (true, due_calls 8 two_watchers.entries 2 0)))
    × (u.entry_num ≡ 2)
    × ((j : ℕ)
        → u.entries j ≡ (
            if ltb j 2 && called 8 (two_watchers.entries j)
            then record (two_watchers.entries j) { recv_flag = false }
            else two_watchers.entries j))
call_recv_event_callbacks_due_example =
    call_recv_event_callbacks_due master 8 none two_watchers refl (λ e. omega arith)

due_now : due_calls 8 two_watchers.entries 2 0 ≡ (500, 1) ∷ []
due_now = refl
