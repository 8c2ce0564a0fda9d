-- ===== src/Server/Poll.antt =====
-- HakoServiceServerProtocol::poll (sources/core/src/service/hako_service_protocol_server.cpp).
use hakoniwa_core_pro.Base.{◌-◌, pos, false, not, ◌&&◌, ◌||◌, ◌==◌, if◌then◌else◌, maybe}
use hakoniwa_core_pro.Protocol.{
  opcode_request, opcode_cancel, doing_status, canceling_status, error_status, ok_code,
  invalid_code, busy_code, RequestHeader, interval_set, interval_over,
}
use hakoniwa_core_pro.Server.{
  ServerPort, Server, ServerState, idle, doing, canceling, ServerEvent, no_event, request_in,
  request_cancel, get_state, is_doing, event_start_service, event_cancel_service, copy_user_buffer,
  recv_packet, validate_header, reset_if_new_run, send_response,
}

module _ {W P : Type 0} (port : ServerPort W P) where
  -- A packet that is not a valid request.
  unfoldable pub poll_invalid : Server P → W → Server P × W × ServerEvent
  poll_invalid s w =
      let (s', w', sent) = send_response port error_status invalid_code s w in (s', w', no_event)

  -- No packet: a service in progress reports its progress now and then.
  unfoldable pub poll_silent : Server P → W → Server P × W × ServerEvent
  poll_silent s w =
      if not (is_doing (get_state s) && interval_set s.request_header.status_poll_interval_msec)
      then (s, w, no_event)
      else let now = port.world_time_usec w in
        let (s', w', sent) =
          if s.last_poll_time == 0
            || interval_over s.request_header.status_poll_interval_msec (now - s.last_poll_time)
          then send_response port doing_status ok_code s w
          else (s, w, false) in
        (record s' { last_poll_time = now }, w', no_event)

  -- A valid request, by the state that the client was in.
  unfoldable pub poll_valid :
      ServerState → RequestHeader → P → Server P → W → Server P × W × ServerEvent
  poll_valid idle header packet s w =
      if header.opcode == opcode_request
      then (
        record (event_start_service s.current_client_id (copy_user_buffer header packet s)).0 {
          percentage = pos 0;
        },
        w,
        request_in,
      )
      else if header.opcode == opcode_cancel
      then (s, w, no_event)
      else poll_invalid s w
  poll_valid doing header packet s w =
      if header.opcode == opcode_cancel
      then ((event_cancel_service s.current_client_id s).0, w, request_cancel)
      else let (s', w', sent) = send_response port doing_status busy_code s w in (s', w', no_event)
  poll_valid canceling header packet s w =
      let (s', w', sent) = send_response port canceling_status busy_code s w in (s', w', no_event)

  -- What recv_request makes of the packet.
  unfoldable pub poll_packet : P → Server P → W → Server P × W × ServerEvent
  poll_packet packet s w =
      maybe (poll_invalid s w)
        (λ header.
          let (w', valid) = validate_header port header s w in
          if valid then poll_valid (get_state s) header packet s w' else poll_invalid s w')
        (port.pdu2cpp packet)

  unfoldable pub poll : Server P → W → Server P × W × ServerEvent
  poll s w =
      let s' = reset_if_new_run port s w in
      if not (port.has_pro_data w)
      then (s', w, no_event)
      else let (w', packet) = recv_packet port s'.current_client_id s' w in
        maybe (poll_silent s' w') (λ p. poll_packet p s' w') packet
