-- ===== src/Server.antt =====
-- The server side of a service: the states of HakoServiceServer
-- (sources/core/src/service/hako_service_impl_server.cpp and .hpp) and HakoServiceServerProtocol on top of
-- them (sources/core/src/service/hako_service_protocol_server.cpp and
-- sources/core/include/hako_service_protocol_server.hpp). What both call of HakoProData and of the PDU
-- conversion is the record `ServerPort`, over a state `W` of the shared memory and a type `P` of packets.
pub mod Poll
pub mod Run
pub mod Moves
pub mod Turn
use hakoniwa_core_pro.Base.{
  ℕ, zero, suc, ◌+◌, ◌-◌, ◌*◌, ◌%◌, ℤ, pos, negsuc, Bool, true, false, not, ◌&&◌, ◌||◌, Option,
  none, some, ltb, leb, ◌==◌, if◌then◌else◌, maybe, Array, write, Name, name_eq,
}
use hakoniwa_core_pro.Protocol.{
  opcode_request, opcode_cancel, opcode_num, Status, doing_status, canceling_status, done_status,
  error_status, ResultCode, ok_code, canceled_code, invalid_code, busy_code, status_num, result_num,
  RequestHeader, ResponseHeader, empty_request, uint8,
}

-- hako_pro_get_data() (null or not), the calls of HakoProData, and the two conversions. `get_request` and
-- `put_response` are given the client; their service, asset and buffers are those of the server.
pub record ServerPort (W P : Type 0) : Type 0 where
  pub has_pro_data : W → Bool
  pub run_generation : W → ℕ
  pub world_time_usec : W → ℕ
  pub get_request : ℕ → W → W × Option P
  pub put_response : ℕ → P → W → W × Bool
  pub is_exist_client : Name → W → W × Bool
  pub client_name : ℕ → W → Name
  pub pdu2cpp : P → Option RequestHeader
  pub cpp2pdu : ResponseHeader → Option P

-- HakoServiceServerStateType
pub data ServerState : Type 0 where
  idle doing canceling : ServerState

-- HakoServiceServerEventType
pub data ServerEvent : Type 0 where
  no_event request_in request_cancel : ServerEvent

-- The members of HakoServiceServer and of HakoServiceServerProtocol that change after initialize(), and
-- the name and the number of clients that it has set.
pub record Server (P : Type 0) : Type 0 where
  pub service_name : Name
  pub max_clients : ℕ
  pub current_client_id : ℕ
  pub state : Array ServerState
  pub request_header : RequestHeader
  pub request_user_buffer : Option P
  pub percentage : ℤ
  pub last_poll_time : ℕ
  pub run_generation : ℕ
  pub request_generation : ℕ

abbrev pub is_idle : ServerState → Bool
is_idle idle = true
is_idle doing = false
is_idle canceling = false

abbrev pub is_doing : ServerState → Bool
is_doing idle = false
is_doing doing = true
is_doing canceling = false

module _ {P : Type 0} where
  abbrev pub get_state : Server P → ServerState
  get_state s = s.state s.current_client_id

  abbrev pub set_state : Server P → ℕ → ServerState → Server P
  set_state s client st = record s { state = write s.state client st }

  unfoldable pub next_client : Server P → Server P
  next_client s = record s { current_client_id = (s.current_client_id + 1) % s.max_clients }

  unfoldable pub reset_run_state : Server P → Server P
  reset_run_state s = record s { state = λ client. idle; current_client_id = 0 }

  unfoldable pub event_start_service : ℕ → Server P → Server P × Bool
  event_start_service client s =
      if leb s.max_clients client
      then (s, false)
      else if not (is_idle (s.state client))
      then (s, false)
      else (set_state s client doing, true)

  unfoldable pub event_done_service : ℕ → Server P → Server P × Bool
  event_done_service client s =
      if leb s.max_clients client
      then (s, false)
      else if is_idle (s.state client)
      then (s, false)
      else (set_state s client idle, true)

  unfoldable pub event_cancel_service : ℕ → Server P → Server P × Bool
  event_cancel_service client s =
      if leb s.max_clients client
      then (s, false)
      else if not (is_doing (s.state client))
      then (s, false)
      else (set_state s client canceling, true)

  -- HakoServiceServerProtocol::get_request
  unfoldable pub get_request : Server P → Option P
  get_request s = if is_doing (get_state s) then s.request_user_buffer else none

  unfoldable pub put_progress : ℤ → Server P → Server P
  put_progress percentage s = record s { percentage = percentage }

  unfoldable pub copy_user_buffer : RequestHeader → P → Server P → Server P
  copy_user_buffer header packet s = record s {
    request_user_buffer = some packet;
    request_header = header;
    request_generation = s.run_generation;
  }

module _ {W P : Type 0} (port : ServerPort W P) where
  -- HakoServiceServer::recv_request
  unfoldable pub recv_packet : ℕ → Server P → W → W × Option P
  recv_packet client s w =
      if leb s.max_clients client
      then (w, none)
      else if not (port.has_pro_data w)
      then (w, none)
      else port.get_request client w

  -- HakoServiceServer::send_response
  unfoldable pub send_packet : ℕ → P → Server P → W → W × Bool
  send_packet client packet s w =
      if leb s.max_clients client
      then (w, false)
      else if not (port.has_pro_data w)
      then (w, false)
      else port.put_response client packet w

  unfoldable pub validate_header : RequestHeader → Server P → W → W × Bool
  validate_header header s w =
      if not (name_eq header.service_name s.service_name)
      then (w, false)
      else let (w', known) = port.is_exist_client header.client_name w in
        (w', known && ltb header.opcode opcode_num)

  unfoldable pub reset_if_new_run : Server P → W → Server P
  reset_if_new_run s w =
      if not (port.has_pro_data w)
      then s
      else if port.run_generation w == s.run_generation
      then s
      else record (reset_run_state s) {
        request_header = empty_request;
        percentage = pos 0;
        last_poll_time = 0;
        run_generation = port.run_generation w;
      }

  unfoldable pub response_header : Status → ResultCode → Server P → W → ResponseHeader
  response_header status result_code s w = record {
    request_id = s.request_header.request_id;
    service_name = s.service_name;
    client_name = port.client_name s.current_client_id w;
    status = status_num status;
    processing_percentage = uint8 s.percentage;
    result_code = result_num result_code;
  }

  unfoldable pub reply : P → Server P → W → Server P × W × Bool
  reply packet s w =
      let (w', sent) = send_packet s.current_client_id packet s w in
      let s' = if sent then (event_done_service s.current_client_id s).0 else s in
      (next_client s', w', sent)

  unfoldable pub send_response : Status → ResultCode → Server P → W → Server P × W × Bool
  send_response status result_code s w =
      maybe (s, w, false) (λ packet. reply packet s w)
        (port.cpp2pdu (response_header status result_code s w))

  unfoldable pub reply_to_current_request : P → Server P → W → Server P × W × Bool
  reply_to_current_request packet s w =
      let generation = if port.has_pro_data w then port.run_generation w else s.run_generation in
      if not (generation == s.request_generation) || is_idle (get_state s)
      then (s, w, false)
      else reply packet s w

  unfoldable pub cancel_done : Server P → W → Server P × W
  cancel_done s w =
      let (s', w', sent) = send_response done_status canceled_code s w in
      (next_client (event_done_service s'.current_client_id s').0, w')

  -- get_response_buffer: the packet that the application fills, if the header can be converted.
  unfoldable pub get_response_buffer : Status → ResultCode → Server P → W → Option P
  get_response_buffer status result_code s w = port.cpp2pdu (response_header status result_code s w)
