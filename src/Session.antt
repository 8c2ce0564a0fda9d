-- ===== src/Session.antt =====
-- The tables in shared memory and how a process comes to them
-- (sources/core/src/hako_pro_data.cpp and sources/core/include/hako_pro_data.hpp). The memory is `none`
-- until a process creates it; a process that is attached has its pointers set to the tables in it.
pub mod RunStart
use hakoniwa_core_pro.Base.{
  ℕ, ◌+◌, ◌%◌, ◌^◌, Bool, true, false, not, Option, none, some, List, if◌then◌else◌, maybe, Name,
}
use hakoniwa_core_pro.RecvEvent.{Table, empty_table}
use hakoniwa_core_pro.RecvEvent.Hooks.{clear_run_flags}
use hakoniwa_core_pro.Service.{ServiceTable, ServiceConfig, ProData, rebuild_service_name_indexes}
use hakoniwa_core_pro.Service.History.{empty_services}

-- The memory HAKO_SHARED_MEMORY_ID_2: the two tables and HakoProRunInfoType.
pub record Memory : Type 0 where
  pub recv_event_table : Table
  pub service_table : ServiceTable
  pub run_generation : ℕ

-- HakoProData of a process, with the memory that it shares.
pub record Session : Type 0 where
  pub memory : Option Memory
  pub is_attached : Bool
  pub services : List ServiceConfig
  pub service_name_to_id : Name → Option ℕ

-- What the calls of hakoniwa-core-cpp answer: whether the lock file can be opened (hako_flock_create), the
-- memory created (create_memory), and memory that is there loaded (load_memory).
pub record Platform : Type 0 where
  pub opens_lock : Bool
  pub creates_memory : Bool
  pub loads_memory : Bool

-- The memory that the process sees.
abbrev pub attached : Session → Option Memory
attached s = if s.is_attached then s.memory else none

-- The same, as the HakoProData of the modules RecvEvent and Service.
abbrev pub view : Session → ProData
view s = record {
  recv_event_table = maybe none (λ m. some m.recv_event_table) (attached s);
  service_table = maybe none (λ m. some m.service_table) (attached s);
  services = s.services;
  service_name_to_id = s.service_name_to_id;
}

abbrev pub rebuild : Session → Session
rebuild s = record s {
  service_name_to_id = (rebuild_service_name_indexes (view s)).service_name_to_id;
}

abbrev pub empty_memory : Memory
empty_memory = record {
  recv_event_table = empty_table;
  service_table = empty_services;
  run_generation = 0;
}

-- create_empty_tables
unfoldable pub create_empty_tables : Platform → Session → Session × Bool
create_empty_tables f s =
    if not f.creates_memory
    then (s, false)
    else (record s { memory = some empty_memory; is_attached = true }, true)

-- create_session_memory
unfoldable pub create_session_memory : Platform → Session → Session × Bool
create_session_memory f s =
    if not f.opens_lock
    then (s, false)
    else let (s', created) = create_empty_tables f s in
      if not created then (s', false) else (rebuild s', true)

-- get_run_generation; without run info it is 0.
unfoldable pub get_run_generation : Session → ℕ
get_run_generation s = maybe 0 (λ m. m.run_generation) (attached s)

abbrev pub in_memory : (Memory → Memory) → Session → Session
in_memory f s =
    if s.is_attached then record s { memory = maybe none (λ m. some (f m)) s.memory } else s

-- next_run_generation, on a uint32_t
unfoldable pub next_run_generation : Session → Session
next_run_generation = in_memory λ m. record m { run_generation = (m.run_generation + 1) % 2 ^ 32 }

-- clear_run_flags, on the table in the memory
abbrev pub cleared_table : Table → Table
cleared_table t = maybe t (λ u. u) (clear_run_flags (some t))

unfoldable pub clear_flags : Session → Session
clear_flags = in_memory λ m. record m { recv_event_table = cleared_table m.recv_event_table }

-- The part of on_pdu_data_create that makes sure that the process has the tables.
unfoldable pub attach_tables : Platform → Session → Session × Bool
attach_tables f s =
    if s.is_attached
    then (s, true)
    else maybe (create_empty_tables f s)
        (λ m.
          if f.loads_memory
          then (record s { is_attached = true }, true)
          else create_empty_tables f s)
        s.memory

-- on_pdu_data_create: a new run.
unfoldable pub on_pdu_data_create : Platform → Session → Session × Bool
on_pdu_data_create f s =
    if not f.opens_lock
    then (s, false)
    else let (s', there) = attach_tables f s in
      if not there then (s', false) else (rebuild (clear_flags (next_run_generation s')), true)

-- on_pdu_data_load
unfoldable pub on_pdu_data_load : Platform → Session → Session × Bool
on_pdu_data_load f s =
    if not f.opens_lock
    then (s, false)
    else maybe (s, false)
        (λ m.
          if f.loads_memory then (rebuild (record s { is_attached = true }), true) else (s, false))
        s.memory

-- on_pdu_data_reset
unfoldable pub on_pdu_data_reset : Session → Session × Bool
on_pdu_data_reset s = maybe (s, false) (λ m. (rebuild (clear_flags s), true)) (attached s)
