-- ===== src/Session/RunStart.antt =====
-- What the start of a run keeps and what it clears (on_pdu_data_create of
-- sources/core/src/hako_pro_data.cpp).
use hakoniwa_core_pro.Base.{ℕ, ◌+◌, ◌%◌, ◌^◌, ◌<◌, ◌≡◌, ◌≢◌, refl, arith, true, none, some}
use hakoniwa_core_pro.RecvEvent.{Master, get_recv_event}
use hakoniwa_core_pro.RecvEvent.Hooks.{on_pdu_data_before_write}
use hakoniwa_core_pro.RecvEvent.Invariant.{IsValid}
use hakoniwa_core_pro.RecvEvent.NewRun.{SameRegistration, clear_run_flags_lem}
use hakoniwa_core_pro.Service.{index_of, rebuild_service_name_indexes}
use hakoniwa_core_pro.Session.{
  Memory, Session, Platform, attached, rebuild, cleared_table, next_run_generation, clear_flags,
  attach_tables, on_pdu_data_create,
}

-- What a new run makes of the memory of the last one.
pub record StartsRun (p : Master) (m n : Memory) : Type 0 where
  pub services : n.service_table ≡ m.service_table
  pub entry_num : n.recv_event_table.entry_num ≡ m.recv_event_table.entry_num
  pub registrations :
      (i : ℕ) → SameRegistration (m.recv_event_table.entries i) (n.recv_event_table.entries i)
  pub new_generation : n.run_generation ≢ m.run_generation
  pub nothing_due : (pid c : ℕ) → (get_recv_event p pid c (some n.recv_event_table)).1 ≡ none
  pub writable : (c : ℕ) → on_pdu_data_before_write c (some n.recv_event_table) ≡ true

restarted : Memory → Memory
restarted m = record m {
  recv_event_table = cleared_table m.recv_event_table;
  run_generation = (m.run_generation + 1) % 2 ^ 32;
}

restarted-StartsRun :
    (p : Master) (m : Memory)
    → IsValid m.recv_event_table
    → m.run_generation < 2 ^ 32
    → StartsRun p m (restarted m)
unfolding restarted
restarted-StartsRun p m v small =
    let (u, cleared, num, free, same, due, open_) = clear_run_flags_lem p m.recv_event_table v in
    record {
      services = refl;
      entry_num = rw cleared num;
      registrations = λ i. rw cleared (same i);
      new_generation = λ e. omega (arith, e);
      nothing_due = λ pid c. rw cleared (due pid c);
      writable = λ c. rw cleared (open_ c);
    }

-- A process that is attached, or can load the memory, starts a run on what is there.
create_at :
    (f : Platform) (s : Session) (m : Memory)
    → f.opens_lock ≡ true
    → f.loads_memory ≡ true
    → s.memory ≡ some m
    → on_pdu_data_create f s
      ≡ (rebuild (record s { memory = some (restarted m); is_attached = true }), true)
unfolding on_pdu_data_create attach_tables clear_flags next_run_generation restarted
create_at f s m lock load here = ground (arith, lock, load, here)

-- With the lock file and the memory at hand, in which the receive-event table is valid, the start of a run
-- succeeds, whether or not the process was attached: it keeps the service table and every registration, changes the
-- generation, leaves no event to any process, holds back no writer, and leaves the process attached, with the names of the table's services
-- in its index.
pub on_pdu_data_create-StartsRun :
    (p : Master) (f : Platform) (s : Session) (m : Memory)
    → f.opens_lock ≡ true
    → f.loads_memory ≡ true
    → s.memory ≡ some m
    → IsValid m.recv_event_table
    → m.run_generation < 2 ^ 32
    → let (s', started) = on_pdu_data_create f s in
      (started ≡ true)
      × (n : Memory) × (attached s' ≡ some n)
      × StartsRun p m n
      × (s'.service_name_to_id ≡ index_of n.service_table)
unfolding rebuild_service_name_indexes
on_pdu_data_create-StartsRun p f s m lock load here v small =
    rw (create_at f s m lock load here)
      (refl, restarted m, refl, restarted-StartsRun p m v small, refl)
