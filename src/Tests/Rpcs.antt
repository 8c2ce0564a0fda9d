-- ===== src/Tests/Rpcs.antt =====
-- A call of the service `add` by its client `c`, from process 8 to process 7
-- (sources/core/src/service/hako_service_protocol_client.cpp and hako_service_protocol_server.cpp).
use hakoniwa_core_pro.Base.{
  ℕ, ◌+◌, ◌≡◌, refl, arith, true, false, Option, none, some, [], ◌∷◌, ltb, if◌then◌else◌, Name, pos,
  name_eq, write, first,
}
use hakoniwa_core_pro.Protocol.{done_status, ok_code, RequestHeader, ResponseHeader, empty_request}
use hakoniwa_core_pro.RecvEvent.{Table, Master, new_entry, zero_entry}
use hakoniwa_core_pro.RecvEvent.Hooks.{on_pdu_data_write, on_pdu_data_before_write}
use hakoniwa_core_pro.Service.{
  Slot, ServiceEntry, ServiceTable, get_service_id, is_exist_client_on_service,
}
use hakoniwa_core_pro.Service.Channels.{PduData, find_slot}
use hakoniwa_core_pro.Service.History.{zero_slot, zero_service}
use hakoniwa_core_pro.Server.{
  Server, idle, request_in, get_request, get_response_buffer, reply_to_current_request,
}
use hakoniwa_core_pro.Server.Poll.{poll}
use hakoniwa_core_pro.Client.{Client, new_request_header}
use hakoniwa_core_pro.Client
use hakoniwa_core_pro.Client.Poll as ClientPoll
use hakoniwa_core_pro.Rpc.{Bus, Endpoint, Convertor, server_port, client_port, get_client_name}
use hakoniwa_core_pro.Rpc.Wires.{Conveys}
use hakoniwa_core_pro.Rpc.Rest.{Route, Connected, AtRest, answer_header}
use hakoniwa_core_pro.Rpc.Answered.{call_answered}

-- A packet with a number as its body.
pub data Packet : Type 0 where
  asks : RequestHeader → ℕ → Packet
  answers : ResponseHeader → ℕ → Packet

abbrev pub add : Name
add = 97 ∷ 100 ∷ 100 ∷ []

abbrev pub caller : Name
caller = 99 ∷ []

abbrev pub master : Master
master = record {
  asset_id = λ name. some 0;
  pdu_channel = λ name channel. some (channel + 10);
  channel_max = 100;
}

-- The last packet of each channel.
abbrev pub Packets : Type 0
Packets = ℕ → Option Packet

abbrev pub pdu_data : PduData Packets Packet
pdu_data = record {
  read_pdu = λ asset real len w. (w, w real);
  write_pdu = λ real packet len t w.
      if on_pdu_data_before_write real t
      then ((write w real (some packet), (on_pdu_data_write real t).0), true)
      else ((w, t), false);
}

pub pdu_data-Conveys : (real : ℕ) → Conveys master pdu_data real 32 32 none
pdu_data-Conveys real packet t w free =
    (write w real (some packet), write w real (some packet), rw free refl, ground arith)

abbrev pub watchers : Table
watchers = record {
  entries = λ i.
      if ltb i 1 then new_entry 7 10 none else if ltb i 2 then new_entry 8 11 none else zero_entry;
  entry_num = 2;
  atomic_is_busy = false;
}

abbrev pub caller_slot : Slot
caller_slot = record {
  enabled = true;
  client_name = caller;
  request_channel_id = 0;
  request_recv_event_id = some 0;
  response_channel_id = 1;
  response_recv_event_id = some 1;
}

abbrev pub add_service : ServiceEntry
add_service = record {
  enabled = true;
  namelen = 3;
  service_name = add;
  max_clients = 2;
  next_client_id = 1;
  atomic_is_busy = false;
  pdu_size_request = 32;
  pdu_size_response = 32;
  client_channel_map = λ j. if ltb j 1 then caller_slot else zero_slot;
}

abbrev pub services : ServiceTable
services = record { entry_num = 1; entries = λ i. if ltb i 1 then add_service else zero_service }

abbrev pub bus : Bus Packets
bus = record {
  recv_event_table = some watchers;
  service_table = some services;
  run_generation = 5;
  world_time_usec = 70;
  index = λ pid name. if name_eq name add then some 0 else none;
  pdu_data = λ real. none;
}

abbrev pub endpoint : ℕ → Endpoint
endpoint pid = record {
  process = record { pid = pid; asset_id = none; services = [] };
  request_pdu_size = 32;
  response_pdu_size = 32;
}

abbrev pub request_of : Packet → Option RequestHeader
request_of (asks header body) = some header
request_of (answers header body) = none

abbrev pub request_header : Packet → RequestHeader
request_header (asks header body) = header
request_header (answers header body) = empty_request

abbrev pub response_of : Packet → Option ResponseHeader
response_of (asks header body) = none
response_of (answers header body) = some header

abbrev pub convertor : Convertor Packet
convertor = record {
  request_of = request_of;
  request_code = λ packet. pos 32;
  request_header = request_header;
  response_of = response_of;
  write_request = λ header. some (asks header 0);
  write_response = λ header. some (answers header 0);
}

abbrev pub server : Server Packet
server = record {
  service_name = add;
  max_clients = 2;
  current_client_id = 0;
  state = λ client. idle;
  request_header = empty_request;
  request_user_buffer = none;
  percentage = pos 0;
  last_poll_time = 0;
  run_generation = 5;
  request_generation = 0;
}

abbrev pub client : Client Packet
client = record {
  service_name = add;
  client_name = caller;
  state = Client.idle;
  request_header = empty_request;
  response = none;
  percentage = 0;
  request_id = 3;
  timeout_msec = pos 0;
  heartbeat_confirmed_time = pos 0;
  last_poll_time = 0;
  run_generation = 5;
}

abbrev pub sum_wanted : Packet
sum_wanted =
    asks
      (record {
        request_id = 3;
        service_name = add;
        client_name = caller;
        opcode = 0;
        status_poll_interval_msec = pos 0;
      })
      20

abbrev pub sum_told : Packet
sum_told = answers (answer_header client) 22

abbrev pub to_server : Route
to_server = record { real = 10; event = 0 }

abbrev pub to_client : Route
to_client = record { real = 11; event = 1 }

pub connected :
    Connected master (endpoint 7) (endpoint 8) 0 0 (0, 0) to_server to_client watchers bus
unfolding find_slot on_pdu_data_before_write first get_service_id is_exist_client_on_service name_eq
    get_client_name
connected = record {
  table = refl;
  found = refl;
  request_at = refl;
  response_at = refl;
  apart = ground arith;
  requests = record {
    known = omega arith;
    watched = (omega arith, refl, λ j l. absurd (omega arith));
    in_use = refl;
    unheld = refl;
  };
  responses = record {
    known = omega arith;
    watched = (omega arith, refl, λ j l. ground arith);
    in_use = refl;
    unheld = refl;
  };
  sizes = (omega arith, omega arith, omega arith, omega arith);
}

pub at_rest : AtRest (endpoint 7) 0 0 server client bus
unfolding find_slot on_pdu_data_before_write first get_service_id is_exist_client_on_service name_eq
    get_client_name
at_rest = record {
  server_run = refl;
  client_run = refl;
  turn = refl;
  in_range = omega arith;
  server_idle = refl;
  client_idle = refl;
  same_service = refl;
  same_client = refl;
  is_known = refl;
}

call_answered_example :
    let sport = server_port master pdu_data convertor (endpoint 7) 0 add in
    let cport = client_port master pdu_data convertor (endpoint 8) 0 0 in
    let (c1, b1, sent) = Client.request cport sum_wanted (pos 100) client bus in
    let (s1, b2, event) = poll sport server b1 in
    let (s2, b3, replied) = reply_to_current_request sport sum_told s1 b2 in
    let (c2, b4, outcome) = ClientPoll.poll cport c1 b3 in
    (sent ≡ true)
    × (event ≡ request_in)
    × (get_request s1 ≡ some sum_wanted)
    × (get_response_buffer sport done_status ok_code s1 b2
        ≡ some (answers (answer_header client) 0))
    × (replied ≡ true)
    × (outcome ≡ Client.response_in)
    × (c2.response ≡ some (answer_header client, sum_told))
    × (c2.request_id ≡ 4)
    × (c2.state ≡ Client.idle)
    × (s2.state 0 ≡ idle)
unfolding find_slot on_pdu_data_before_write first get_service_id is_exist_client_on_service name_eq
    new_request_header get_client_name
call_answered_example =
    call_answered master pdu_data convertor (endpoint 7) (endpoint 8) 0 0 (0, 0) to_server to_client
      sum_wanted sum_told (pos 0) (pos 100) 32 server client watchers bus connected at_rest
      (pdu_data-Conveys 10) (pdu_data-Conveys 11) refl refl refl refl
