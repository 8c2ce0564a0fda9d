-- ===== src/Service/History.antt =====
-- The service table that servers and clients of many processes share
-- (sources/core/src/service/hako_pro_data_service.cpp).
use hakoniwa_core_pro.Base.{ℕ, arith, refl, false, Option, none, some, List, [], ◌∷◌, maybe, Name}
use hakoniwa_core_pro.RecvEvent.{Table, Master}
use hakoniwa_core_pro.Service.{Slot, ServiceEntry, ServiceTable, ServiceConfig, ProData}
use hakoniwa_core_pro.Service.Create.{
  Outcome, done, out_of_bounds, create_service, create_service_client,
}
use hakoniwa_core_pro.Service.Slots.{
  Fits, ValidTable?, ValidOutcome, no_clients, create_service-ValidServices,
  create_service_client-ValidOutcome,
}

-- What a process keeps for itself: its configuration and its index of names.
pub record Process : Type 0 where
  pub pid : ℕ
  pub services : List ServiceConfig
  pub service_name_to_id : Name → Option ℕ

-- The shared memory.
abbrev pub Shared : Type 0
Shared = Option Table × Option ServiceTable

abbrev pub view : Process → Shared → ProData
view c (t, st) = record {
  recv_event_table = t;
  service_table = st;
  services = c.services;
  service_name_to_id = c.service_name_to_id;
}

abbrev pub shared : ProData → Shared
shared p = (p.recv_event_table, p.service_table)

-- A call that some process makes.
pub data Op : Type 0 where
  serves : Process → Name → Op
  attaches : Process → Name → Name → Op

-- What a client's registration leaves; after a write out of bounds nothing is known.
abbrev pub outcome : Outcome → Option Shared
outcome (done p ids) = some (shared p)
outcome out_of_bounds = none

unfoldable pub apply : Master → Op → Shared → Option Shared
apply m (serves c name) s = some (shared (create_service m c.pid name (view c s)).0)
apply m (attaches c service client) s =
    outcome (create_service_client m c.pid service client (view c s))

unfoldable pub run : Master → List Op → Option Shared → Option Shared
run m [] s = s
run m (op ∷ ops) s = run m ops (maybe none (λ s'. apply m op s') s)

-- The table that memset leaves.
abbrev pub zero_slot : Slot
zero_slot = record {
  enabled = false;
  client_name = [];
  request_channel_id = 0;
  request_recv_event_id = some 0;
  response_channel_id = 0;
  response_recv_event_id = some 0;
}

abbrev pub zero_service : ServiceEntry
zero_service = record {
  enabled = false;
  namelen = 0;
  service_name = [];
  max_clients = 0;
  next_client_id = 0;
  atomic_is_busy = false;
  pdu_size_request = 0;
  pdu_size_response = 0;
  client_channel_map = λ j. zero_slot;
}

abbrev pub empty_services : ServiceTable
empty_services = record { entry_num = 0; entries = λ i. zero_service }

abbrev pub ValidShared : Option Shared → Type 0
ValidShared s = maybe Unit (λ x. ValidTable? x.1) s

-- The arrays have room for the configuration of each process that makes a call.
abbrev pub OpFits : Op → Type 0
OpFits (serves c name) = Fits c.services
OpFits (attaches c service client) = Fits c.services

abbrev pub AllFit : List Op → Type 0
AllFit [] = Unit
AllFit (op ∷ ops) = OpFits op × AllFit ops

outcome-ValidShared : (o : Outcome) → ValidOutcome o → ValidShared (outcome o)
outcome-ValidShared (done p ids) v = v.1
outcome-ValidShared out_of_bounds v = tt

apply-ValidShared :
    (m : Master) (op : Op) (s : Shared) → OpFits op → ValidTable? s.1 → ValidShared (apply m op s)
unfolding apply
apply-ValidShared m (serves c name) s fits v =
    (create_service-ValidServices m c.pid name (view c s) (fits, v)).1
apply-ValidShared m (attaches c service client) s fits v =
    outcome-ValidShared (create_service_client m c.pid service client (view c s))
      (create_service_client-ValidOutcome m c.pid service client (view c s) (fits, v))

run_from-ValidShared :
    (m : Master) (ops : List Op) (s : Option Shared)
    → AllFit ops
    → ValidShared s
    → ValidShared (run m ops s)
unfolding run
run_from-ValidShared m [] s fits v = v
run_from-ValidShared m (op ∷ ops) none fits v = run_from-ValidShared m ops none fits.1 tt
run_from-ValidShared m (op ∷ ops) (some s) fits v =
    run_from-ValidShared m ops (apply m op s) fits.1 (apply-ValidShared m op s fits.0 v)

-- After any sequence of create_service and create_service_client by any processes, each with a
-- configuration and an index of its own, on a service table of zeros: if each configuration has at most 1024 services, each with at
-- most 256 clients, then, as long as no name was written out of bounds, the table has at most 1024 entries, each service has at most `maxClients` slots in use, these are inside
-- the array of 256 and enabled, and no two of them have the same client name.
pub run-ValidShared :
    (m : Master) (t : Option Table) (ops : List Op)
    → AllFit ops
    → ValidShared (run m ops (some (t, some empty_services)))
run-ValidShared m t ops fits =
    run_from-ValidShared m ops (some (t, some empty_services)) fits
      (omega arith, λ i. no_clients zero_service (omega arith) refl)
