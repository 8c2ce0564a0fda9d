-- ===== src/Client.antt =====
-- The client side of a service: the state of HakoServiceClient
-- (sources/core/src/service/hako_service_impl_client.cpp and .hpp) and HakoServiceClientProtocol on top of it
-- (sources/core/src/service/hako_service_protocol_client.cpp and
-- sources/core/include/hako_service_protocol_client.hpp). What both call of HakoProData and of the PDU
-- conversion is the record `ClientPort`, over a state `W` of the shared memory and a type `P` of packets.
pub mod Poll
pub mod Moves
pub mod Timeout
use hakoniwa_core_pro.Base.{
  ℕ, suc, ◌+◌, ◌-◌, ◌*◌, ◌%◌, ◌^◌, ℤ, pos, negsuc, minus_one, is_negative, Bool, true, false, not,
  ◌&&◌, ◌||◌, Option, none, some, ltb, leb, ◌==◌, if◌then◌else◌, maybe, Name, name_eq,
}
use hakoniwa_core_pro.Protocol.{opcode_cancel, result_code_num, RequestHeader, ResponseHeader}

-- hako_pro_get_data() (null or not), the calls of HakoProData for this client, and the conversions. The
-- `int` that the conversion of a request yields is kept, since request() tests its sign.
pub record ClientPort (W P : Type 0) : Type 0 where
  pub has_pro_data : W → Bool
  pub run_generation : W → ℕ
  pub world_time_usec : W → ℕ
  pub put_request : P → W → W × Bool
  pub get_response : W → W × Option P
  pub read_request : P → ℤ × RequestHeader
  pub read_response : P → Option ResponseHeader
  pub write_request : RequestHeader → Option P

-- HakoServiceClientStateType
pub data ClientState : Type 0 where
  idle doing canceling : ClientState

-- HakoServiceClientEventType
pub data ClientEvent : Type 0 where
  no_event response_in request_timeout request_cancel_done : ClientEvent

-- The members of HakoServiceClient and HakoServiceClientProtocol that change after initialize(), and the
-- names that it has set. `heartbeat_confirmed_time_` is an `int`.
pub record Client (P : Type 0) : Type 0 where
  pub service_name : Name
  pub client_name : Name
  pub state : ClientState
  pub request_header : RequestHeader
  pub response : Option (ResponseHeader × P)
  pub percentage : ℕ
  pub request_id : ℕ
  pub timeout_msec : ℤ
  pub heartbeat_confirmed_time : ℤ
  pub last_poll_time : ℕ
  pub run_generation : ℕ

-- The conversion of a time to a 32-bit `int`.
abbrev pub to_int : ℕ → ℤ
to_int time = let r = time % 2 ^ 32 in if ltb r (2 ^ 31) then pos r else negsuc (2 ^ 32 - r - 1)

-- `time - since > limit`, with a limit that is not negative.
abbrev pub later_than : ℕ → ℤ → ℕ → Bool
later_than time (pos since) limit = ltb limit (time - since)
later_than time (negsuc k) limit = ltb limit (time + suc k)

-- The test of is_heartbeat_timeout, for a timeout in milliseconds whose microseconds fit an `int`.
abbrev pub timed_out : ℤ → ℤ → ℕ → Bool
timed_out (pos msec) since time = ltb 0 msec && later_than time since (msec * 1000)
timed_out (negsuc n) since time = false

abbrev pub is_idle : ClientState → Bool
is_idle idle = true
is_idle doing = false
is_idle canceling = false

abbrev pub is_doing : ClientState → Bool
is_doing idle = false
is_doing doing = true
is_doing canceling = false

abbrev pub is_canceling : ClientState → Bool
is_canceling idle = false
is_canceling doing = false
is_canceling canceling = true

module _ {P : Type 0} where
  unfoldable pub event_start_service : Client P → Client P × Bool
  event_start_service c =
      if not (is_idle c.state) then (c, false) else (record c { state = doing }, true)

  unfoldable pub event_done_service : Client P → Client P × Bool
  event_done_service c = if is_idle c.state then (c, false) else (record c { state = idle }, true)

  unfoldable pub event_cancel_service : Client P → Client P × Bool
  event_cancel_service c =
      if not (is_doing c.state) then (c, false) else (record c { state = canceling }, true)

  unfoldable pub validate_header : ResponseHeader → Client P → Bool
  validate_header header c =
      if not (name_eq header.service_name c.service_name)
      then false
      else if not (name_eq header.client_name c.client_name)
      then false
      else ltb header.result_code result_code_num

  unfoldable pub copy_user_buffer : ResponseHeader → P → Client P → Client P
  copy_user_buffer header packet c = record c { response = some (header, packet) }

  -- set_request_header
  unfoldable pub new_request_header : ℕ → ℤ → Client P → RequestHeader
  new_request_header opcode poll_interval_msec c = record {
    request_id = c.request_id;
    service_name = c.service_name;
    client_name = c.client_name;
    opcode = opcode;
    status_poll_interval_msec = poll_interval_msec;
  }

module _ {W P : Type 0} (port : ClientPort W P) where
  unfoldable pub current_time_usec : W → ℕ
  current_time_usec w = if port.has_pro_data w then port.world_time_usec w else 0

  unfoldable pub is_heartbeat_timeout : Client P → W → Bool
  is_heartbeat_timeout c w =
      timed_out c.timeout_msec c.heartbeat_confirmed_time (current_time_usec w)

  unfoldable pub reset_if_new_run : Client P → W → Client P
  reset_if_new_run c w =
      if not (port.has_pro_data w)
      then c
      else if port.run_generation w == c.run_generation
      then c
      else record c {
        state = idle;
        percentage = 0;
        last_poll_time = 0;
        heartbeat_confirmed_time = pos 0;
        run_generation = port.run_generation w;
      }

  -- HakoServiceClient::send_request
  unfoldable pub send_packet : P → W → W × Bool
  send_packet packet w = if port.has_pro_data w then port.put_request packet w else (w, false)

  -- HakoServiceClient::recv_response
  unfoldable pub recv_packet : W → W × Option P
  recv_packet w = if port.has_pro_data w then port.get_response w else (w, none)

  -- get_request_buffer: the packet that the application fills, if the header can be converted.
  unfoldable pub get_request_buffer : ℕ → ℤ → Client P → Option P
  get_request_buffer opcode poll_interval_msec c =
      port.write_request (new_request_header opcode poll_interval_msec c)

  unfoldable pub send_request : ℕ → ℤ → Client P → W → W × Bool
  send_request opcode poll_interval_msec c w =
      maybe (w, false) (λ packet. send_packet packet w)
        (port.write_request (new_request_header opcode poll_interval_msec c))

  unfoldable pub request : P → ℤ → Client P → W → Client P × W × Bool
  request packet timeout_msec c w =
      let c' = reset_if_new_run c w in
      if is_negative (port.read_request packet).0
      then (c', w, false)
      else let (w', sent) = send_packet packet w in
        if not sent then (c', w', false) else (
          (event_start_service (record c' {
            timeout_msec = timeout_msec;
            last_poll_time = 0;
            heartbeat_confirmed_time = to_int (current_time_usec w');
            request_header = (port.read_request packet).1;
          })).0,
          w',
          true,
        )

  unfoldable pub cancel_request : Client P → W → Client P × W × Bool
  cancel_request c w =
      if not (is_doing c.state)
      then (c, w, false)
      else let (w', sent) = send_request opcode_cancel minus_one c w in
        if not sent then (c, w', false) else ((event_cancel_service c).0, w', true)
