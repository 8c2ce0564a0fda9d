-- ===== src/Tests/Services.antt =====
-- A service with two slots, one of them in use: the calls of
-- sources/core/src/service/hako_pro_data_service.cpp.
use hakoniwa_core_pro.Base.{
  name_eq, first, sweep, zero, suc, ℕ, ◌+◌, ◌≡◌, ◌≢◌, refl, false, arith, true, false, Option, none,
  some, List, [], ◌∷◌, ltb, if◌then◌else◌, Name, pos, write,
}
use hakoniwa_core_pro.RecvEvent.{
  take_over, update_data_recv_event, register_data_recv_event, allocate, Table, Master, new_entry,
  zero_entry,
}
use hakoniwa_core_pro.RecvEvent.Hooks.{on_pdu_data_write, on_pdu_data_before_write}
use hakoniwa_core_pro.Service.Index.{nth}
use hakoniwa_core_pro.Service.Served.{IsServed, create_service_serves}
use hakoniwa_core_pro.Service.Create.{
  create_service, serve, server_slots, set_request, done, create_service_client, attach_client,
  update_channel, register_channel,
}
use hakoniwa_core_pro.Service.{
  refresh_service_name_indexes_if_needed, rebuild_service_name_indexes, index_of, index_round,
  set_service, ServiceTable, get_service_id, Slot, ServiceEntry, ServiceConfig, ProData,
}
use hakoniwa_core_pro.Service.Return.{client_gets_slot_again}
use hakoniwa_core_pro.Service.Channels.{PduData, find_slot, get_response, put_response}
use hakoniwa_core_pro.Service.Responses.{response_delivered, response_event}
use hakoniwa_core_pro.Service.Slots.{Fits}
use hakoniwa_core_pro.Service.History.{
  Process, Op, serves, attaches, run, empty_services, ValidShared, run-ValidShared, zero_slot,
  zero_service,
}

abbrev add : Name
add = 97 ∷ 100 ∷ 100 ∷ []

abbrev client : Name
client = 99 ∷ []

-- A PDU data that knows every channel, and keeps the last packet of each.
abbrev master : Master
master = record {
  asset_id = λ name. some 0;
  pdu_channel = λ name channel. some (channel + 10);
  channel_max = 100;
}

abbrev Packets : Type 0
Packets = ℕ → Option ℕ

abbrev pdu_data : PduData Packets ℕ
pdu_data = record {
  read_pdu = λ asset real len w. (w, w real);
  write_pdu = λ real packet len t w.
      if on_pdu_data_before_write real t
      then ((write w real (some packet), (on_pdu_data_write real t).0), true)
      else ((w, t), false);
}

abbrev no_packets : Packets
no_packets real = none

-- The server's process 7 watches channel 10, the client's process 8 watches channel 11.
abbrev watchers : Table
watchers = record {
  entries = λ i.
      if ltb i 1 then new_entry 7 10 none else if ltb i 2 then new_entry 8 11 none else zero_entry;
  entry_num = 2;
  atomic_is_busy = false;
}

abbrev client_slot : Slot
client_slot = record {
  enabled = true;
  client_name = client;
  request_channel_id = 0;
  request_recv_event_id = some 0;
  response_channel_id = 1;
  response_recv_event_id = some 1;
}

abbrev add_service : ServiceEntry
add_service = record {
  enabled = true;
  namelen = 3;
  service_name = add;
  max_clients = 2;
  next_client_id = 1;
  atomic_is_busy = false;
  pdu_size_request = 32;
  pdu_size_response = 32;
  client_channel_map = λ j. if ltb j 1 then client_slot else zero_slot;
}

abbrev config : List ServiceConfig
config = record { name = add; max_clients = 2; server_total_size = 32; client_total_size = 32 } ∷ []

abbrev memory : ProData
memory = record {
  recv_event_table = some watchers;
  service_table =
      some (record { entry_num = 1; entries = λ i. if ltb i 1 then add_service else zero_service });
  services = config;
  service_name_to_id = λ name. if name_eq name add then some 0 else none;
}

response_delivered_example :
    let (p1, v1, sent) =
      put_response master pdu_data (pos 0) (pos 0) (some 42) 32 memory no_packets in
    let (p2, v2, got) = get_response master pdu_data 8 none (pos 0) (pos 0) (some 32) p1 v1 in
    let (p3, v3, again) = get_response master pdu_data 8 none (pos 0) (pos 0) (some 32) p2 v2 in
    (sent ≡ some tt)
    × (got ≡ some 42)
    × (response_event p2 (0, 0) ≡ some 1)
    × (again ≡ none)
    × (response_event p3 (0, 0) ≡ none)
unfolding find_slot on_pdu_data_before_write first
response_delivered_example =
    response_delivered master pdu_data 8 none (pos 0) (pos 0) (0, 0) 11 32 32 1 42 watchers memory
      no_packets (write no_packets 11 (some 42)) (write no_packets 11 (some 42)) refl (omega arith)
      (omega arith) refl refl (omega arith) (omega arith, refl, λ j l. ground arith) refl refl refl

abbrev server_process : Process
server_process = record { pid = 7; services = config; service_name_to_id = λ name. none }

abbrev client_process : Process
client_process = record { pid = 8; services = config; service_name_to_id = λ name. none }

abbrev calls : List Op
calls = serves server_process add ∷ attaches client_process add client ∷ []

fits : Fits (config)
fits = record { count = omega arith; clients = (omega arith, tt) }

run-ValidShared_example : ValidShared (run master calls (some (some watchers, some empty_services)))
run-ValidShared_example = run-ValidShared master (some watchers) calls (fits, (fits, tt))

-- The client comes back in process 9, whose registration takes over that of process 8.
abbrev back : ProData
back = record memory {
  recv_event_table = (update_data_recv_event master 9 add 1 none (some watchers)).0;
}

-- Another process: it has another configuration, and an index of names that is still empty.
abbrev newcomer : ProData
newcomer = record back { services = []; service_name_to_id = λ name. none }

client_gets_slot_again_example :
    (q : ProData) × (create_service_client master 8 add client newcomer ≡ done q (some (0, 0)))
    × (q.service_table ≡ back.service_table)
unfolding create_service_client attach_client get_service_id update_channel update_data_recv_event
    take_over first name_eq refresh_service_name_indexes_if_needed rebuild_service_name_indexes
    index_of index_round sweep
client_gets_slot_again_example =
    client_gets_slot_again master 9 8 add client memory back newcomer
      (record { entry_num = 1; entries = λ i. if ltb i 1 then add_service else zero_service })
      (0, 0) refl (λ e. omega arith) refl refl refl refl

abbrev name_of : ℕ → Name
name_of zero = []
name_of (suc n) = 99 ∷ name_of n

abbrev filled : ServiceTable
filled = record { entry_num = 1; entries = λ i. if ltb i 1 then add_service else zero_service }

abbrev serve_slot : ℕ → ℕ → ServiceTable → ServiceTable
serve_slot j event st = set_service st 0 (set_request j event (st.entries 0))

-- Process 7 serves both slots: channels 0 and 2, which are the real channels 10 and 12.
abbrev both_served : ServiceTable
both_served = serve_slot 1 3 (serve_slot 0 2 filled)

abbrev all_watched : Table
all_watched = (allocate 7 12 none (allocate 7 10 none watchers).0).0

create_service_serves_example : IsServed master 7 add 0 both_served all_watched 1
unfolding create_service serve server_slots get_service_id register_channel register_data_recv_event
    name_eq allocate
create_service_serves_example =
    create_service_serves master 7 add 0 1 memory
      (record memory { recv_event_table = some all_watched; service_table = some both_served })
      watchers all_watched filled both_served refl refl refl refl refl (omega arith)

only_service :
    (j : ℕ) (d : ServiceConfig) → nth config j ≡ some d → j ≢ 0 → name_eq add d.name ≡ false
only_service zero d e h = absurd (h refl)
only_service (suc j) d e h = cc
