-- ===== src/Tests/Servers.antt =====
-- A server of two clients over a small shared memory
-- (sources/core/src/service/hako_service_protocol_server.cpp).
use hakoniwa_core_pro.Base.{
  ℕ, ◌≡◌, ◌≢◌, refl, arith, true, false, Option, none, some, List, [], ◌∷◌, Name, if◌then◌else◌,
  ◌==◌, ℤ, pos, minus_one, inl, inr, ap, name_eq,
}
use hakoniwa_core_pro.Protocol.{
  RequestHeader, ResponseHeader, opcode_request, doing_status, ok_code,
}
use hakoniwa_core_pro.Server.{
  ServerPort, Server, idle, doing, no_event, request_in, get_state, get_request, reply,
  reply_to_current_request, validate_header, reset_if_new_run, reset_run_state, response_header,
  recv_packet, send_packet, next_client, event_done_service, event_start_service, copy_user_buffer,
}
use hakoniwa_core_pro.Server.Poll.{poll, poll_packet, poll_valid, poll_silent}
use hakoniwa_core_pro.Server.Run.{polls, previous_run_refused, new_run_accepts}
use hakoniwa_core_pro.Server.Moves.{Turns, poll-Turns}
use hakoniwa_core_pro.Server.Turn.{
  idle_turn_stays, progress_report_ends_service, busy_reply_ends_service,
}
use hakoniwa_core_pro.Polling.{find}
use hakoniwa_core_pro.Polling.Servers.{Servers, ServicesPort, server_create, server_poll}
use hakoniwa_core_pro.Polling.NullEntry.{SameEntries, Unnamed, unknown_id_breaks_create}
use hakoniwa_core_pro.RuntimeError.{crash}
use mathlib.Core.List.Memᴰ

data Packet : Type 0 where
  asks : RequestHeader → Packet
  answers : ResponseHeader → Packet

-- The memory: the run, the time, a packet of client 0 or 1, and what has been answered.
record World : Type 0 where
  generation : ℕ
  time : ℕ
  inbox : Option (ℕ × Packet)
  outbox : List Packet

abbrev world : World
world = record { generation = 5; time = 70; inbox = none; outbox = [] }

abbrev camera : Name
camera = 99 ∷ []

abbrev take_from : ℕ → World → Option (ℕ × Packet) → World × Option Packet
take_from client w none = (w, none)
take_from client w (some (sender, packet)) =
    if sender == client then (record w { inbox = none }, some packet) else (w, none)

abbrev read_header : Packet → Option RequestHeader
read_header (asks header) = some header
read_header (answers header) = none

abbrev port : ServerPort World Packet
port = record {
  has_pro_data = λ w. true;
  run_generation = λ w. w.generation;
  world_time_usec = λ w. w.time;
  get_request = λ client w. take_from client w w.inbox;
  put_response = λ client packet w. (record w { outbox = packet ∷ w.outbox }, true);
  is_exist_client = λ name w. (w, true);
  client_name = λ client w. client ∷ [];
  pdu2cpp = read_header;
  cpp2pdu = λ header. some (answers header);
}

abbrev header : RequestHeader
header = record {
  request_id = 1;
  service_name = camera;
  client_name = 0 ∷ [];
  opcode = opcode_request;
  status_poll_interval_msec = pos 20;
}

-- Client 0's service is in progress, for a request of run `g`.
abbrev at_work : ℕ → ℕ → Server Packet
at_work g run = record {
  service_name = camera;
  max_clients = 2;
  current_client_id = 0;
  state = λ client. if client == 0 then doing else idle;
  request_header = header;
  request_user_buffer = some (asks header);
  percentage = pos 10;
  last_poll_time = 0;
  run_generation = run;
  request_generation = g;
}

abbrev at_rest : Server Packet
at_rest = record (at_work 5 5) { state = λ client. idle }

abbrev asked : World
asked = record world { inbox = some (0, asks header) }

abbrev asked_by_other : World
asked_by_other = record world { inbox = some (1, asks header) }

-- A request, its answer, and the turn of the next client.
answered :
    let (s, w, event) = poll port at_rest asked in
    let (t, w', sent) =
      reply_to_current_request port (answers (response_header port doing_status ok_code s w)) s w in
    (event ≡ request_in) × (sent ≡ true) × (t.current_client_id ≡ 1)
unfolding poll reset_if_new_run recv_packet poll_packet validate_header name_eq poll_valid
    event_start_service copy_user_buffer reply_to_current_request reply send_packet next_client
    event_done_service
answered = (refl, refl, refl)

abbrev late : Packet
late = answers (record {
  request_id = 1;
  service_name = camera;
  client_name = 0 ∷ [];
  status = 3;
  processing_percentage = 100;
  result_code = 0;
})

quiet_poll : (poll port (at_work 4 4) world).2 ≢ request_in
unfolding poll reset_if_new_run reset_run_state recv_packet poll_silent
quiet_poll = λ e. cc

previous_run_refused_example :
    reply_to_current_request port late (polls port (world ∷ []) (at_work 4 4)) world
    ≡ (polls port (world ∷ []) (at_work 4 4), world, false)
previous_run_refused_example =
    previous_run_refused port 5 (world ∷ []) (at_work 4 4) late world (λ e. omega arith)
      (refl, refl, quiet_poll, tt) refl refl

new_run_accepts_example :
    let (t, w', event) = poll port (at_work 4 4) asked in
    (event ≡ request_in)
    × (w' ≡ record asked { inbox = none })
    × (t.current_client_id ≡ 0)
    × (get_state t ≡ doing)
    × (get_request t ≡ some (asks header))
    × (t.request_generation ≡ 5)
new_run_accepts_example =
    new_run_accepts port (at_work 4 4) asked (record asked { inbox = none })
      (record asked { inbox = none }) (asks header) header refl (λ e. omega arith) (omega arith)
      refl refl refl refl refl

poll-Turns_example : Turns (poll port at_rest asked).2 at_rest (poll port at_rest asked).0
poll-Turns_example = poll-Turns port at_rest asked refl (omega arith)

idle_turn_stays_example : polls port (asked_by_other ∷ asked_by_other ∷ []) at_rest ≡ at_rest
idle_turn_stays_example =
    idle_turn_stays port at_rest (asked_by_other ∷ asked_by_other ∷ []) refl
      ((refl, refl), ((refl, refl), tt))

progress_report_ends_service_example :
    let (t, w', event) = poll port (at_work 5 5) world in
    (event ≡ no_event)
    × (t.state 0 ≡ idle)
    × (reply_to_current_request port late t w' ≡ (t, w', false))
unfolding response_header
progress_report_ends_service_example =
    progress_report_ends_service port (at_work 5 5) world world _ _ late 19 refl refl (omega arith)
      refl (λ k other. ground arith) refl (inl refl) refl refl refl refl

busy_reply_ends_service_example :
    let (t, w', event) = poll port (at_work 5 5) asked in
    (event ≡ no_event)
    × (t.state 0 ≡ idle)
    × (reply_to_current_request port late t w' ≡ (t, w', false))
unfolding validate_header name_eq response_header
busy_reply_ends_service_example =
    busy_reply_ends_service port (at_work 5 5) asked (record asked { inbox = none })
      (record asked { inbox = none }) _ (asks header) _ late header refl refl (omega arith) refl
      (λ k other. ground arith) refl refl refl refl refl refl refl

-- A process that serves the camera as service 0, and polls service 3.
abbrev services : ServicesPort World Packet
services = record {
  is_rpc_allowed = λ w. true;
  initialize = λ name asset w. (w, none);
  port = λ id. port;
  channel_ids = λ id client w. (pos 0, pos 1);
}

abbrev lidar : Name
lidar = 108 ∷ []

abbrev camera_only : Servers Packet
camera_only = (pos 0, some at_rest) ∷ []

abbrev name_of : ℤ × Option (Server Packet) → Name
name_of (id, none) = []
name_of (id, some server) = server.service_name

camera_only-Unnamed : Unnamed lidar camera_only
unfolding Unnamed name_eq
camera_only-Unnamed id server m = elim (Memᴰ.cases_cons m) [
  | inl e ↦ ap (λ n. name_eq n lidar) (ap name_of e)
  | inr there ↦ absurd (Memᴰ.not-nil there)
]

unknown_id_breaks_create_example :
    let ((t1, w1), polled) = server_poll services (pos 3) (camera_only, world) in
    (polled ≡ minus_one)
    × ((t2 : Servers Packet) (asset_name : Name) (later : World)
        → SameEntries t1 t2
        → server_create services asset_name lidar (t2, later) ≡ ((t2, later), crash))
unfolding find
unknown_id_breaks_create_example =
    unknown_id_breaks_create services (pos 3) camera_only world lidar refl refl camera_only-Unnamed
