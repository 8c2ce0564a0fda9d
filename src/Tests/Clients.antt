-- ===== src/Tests/Clients.antt =====
-- A client over a small shared memory
-- (sources/core/src/service/hako_service_protocol_client.cpp).
use hakoniwa_core_pro.Base.{
  ℕ, ◌*◌, ◌-◌, ◌<◌, ◌≡◌, ◌≢◌, ◌↔◌, ◌==◌, refl, arith, true, Option, none, some, [], ◌∷◌, Name, pos,
}
use hakoniwa_core_pro.Protocol.{RequestHeader, ResponseHeader, empty_request}
use hakoniwa_core_pro.Client.{
  ClientPort, Client, idle, doing, request_timeout, to_int, timed_out, request,
}
use hakoniwa_core_pro.Client.Poll.{poll}
use hakoniwa_core_pro.Client.Timeout.{heartbeat_iff, request_times_out_at_once}
use hakoniwa_core_pro.Polling.{find}
use hakoniwa_core_pro.Polling.Clients.{
  Handle, Clients, ClientsPort, key_of, client_poll, event_code, make_service_client_key,
}
use hakoniwa_core_pro.Polling.Keys.{IsInt, IsHandle, client_poll-its_client}

data Packet : Type 0 where
  asks : RequestHeader → Packet
  answers : ResponseHeader → Packet

record World : Type 0 where
  time : ℕ
  inbox : Option Packet

abbrev camera : Name
camera = 99 ∷ []

abbrev read_answer : Packet → Option ResponseHeader
read_answer (asks header) = none
read_answer (answers header) = some header

abbrev asked_header : Packet → RequestHeader
asked_header (asks header) = header
asked_header (answers header) = empty_request

abbrev port : ClientPort World Packet
port = record {
  has_pro_data = λ w. true;
  run_generation = λ w. 5;
  world_time_usec = λ w. w.time;
  put_request = λ packet w. (w, true);
  get_response = λ w. (record w { inbox = none }, w.inbox);
  read_request = λ packet. (pos 1, asked_header packet);
  read_response = read_answer;
  write_request = λ header. some (asks header);
}

abbrev at_rest : Client Packet
at_rest = record {
  service_name = camera;
  client_name = 0 ∷ [];
  state = idle;
  request_header = empty_request;
  response = none;
  percentage = 0;
  request_id = 3;
  timeout_msec = pos 0;
  heartbeat_confirmed_time = pos 0;
  last_poll_time = 0;
  run_generation = 5;
}

abbrev waiting : Client Packet
waiting = record at_rest { state = doing }

abbrev done_header : ResponseHeader
done_header = record {
  request_id = 3;
  service_name = camera;
  client_name = 0 ∷ [];
  status = 3;
  processing_percentage = 100;
  result_code = 0;
}

abbrev answered : World
answered = record { time = 90; inbox = some (answers done_header) }

abbrev late : World
late = record { time = 2200000000; inbox = none }

heartbeat_iff_here :
    (timed_out (pos 20) (to_int 1000) 30000 ≡ true) ↔ ((0 < 20) × (20 * 1000 < 30000 - 1000))
heartbeat_iff_here = heartbeat_iff 20 1000 30000 (omega arith)

request_times_out_at_once_example :
    let (c1, w', sent) = request port (asks empty_request) (pos 500) at_rest late in
    (sent ≡ true) × (w' ≡ late) × ((poll port c1 late).2 ≡ request_timeout)
request_times_out_at_once_example =
    request_times_out_at_once port at_rest late late late (asks empty_request) 500 refl refl refl
      refl refl refl refl (omega arith) (omega arith) (omega arith) (omega arith) refl refl refl

-- A process with two clients of service 1.
abbrev clients : ClientsPort World Packet
clients = record {
  is_rpc_allowed = λ w. true;
  initialize = λ service client asset w. (w, none);
  port = λ h. port;
  channel_ids = λ h w. (pos 0, pos 1);
}

abbrev first_handle : Handle
first_handle = record { service_id = pos 1; client_id = pos 0 }

abbrev second_handle : Handle
second_handle = record { service_id = pos 1; client_id = pos 1 }

abbrev table : Clients Packet
table = record {
  service_clients = (key_of second_handle, waiting) ∷ (key_of first_handle, at_rest) ∷ [];
  by_service_id = (pos 1, second_handle) ∷ [];
}

client_poll-its_client_example :
    let (c', w', event) = poll port waiting answered in
    let ((t', w''), polled) = client_poll clients (some second_handle) (table, answered) in
    (polled ≡ event_code event)
    × (w'' ≡ w')
    × (find (λ a b. a == b) (key_of second_handle) t'.service_clients ≡ some c')
    × ((k : Handle)
        → IsHandle k
        → k ≢ second_handle
        → find (λ a b. a == b) (key_of k) t'.service_clients
          ≡ find (λ a b. a == b) (key_of k) table.service_clients)
unfolding find IsInt make_service_client_key
client_poll-its_client_example =
    client_poll-its_client clients second_handle waiting table answered refl
      (record { service = omega arith; client = omega arith })
