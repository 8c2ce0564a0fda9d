-- ===== src/Client/Poll.antt =====
-- HakoServiceClientProtocol::poll (sources/core/src/service/hako_service_protocol_client.cpp).
use hakoniwa_core_pro.Base.{◌+◌, ◌-◌, not, ◌&&◌, ◌||◌, ◌==◌, if◌then◌else◌, maybe}
use hakoniwa_core_pro.Protocol.{
  doing_status, done_status, error_status, canceled_code, status_num, result_num, ResponseHeader,
  interval_set, interval_over,
}
use hakoniwa_core_pro.Client.{
  ClientPort, Client, ClientEvent, no_event, response_in, request_timeout, request_cancel_done,
  is_idle, is_canceling, to_int, event_done_service, validate_header, copy_user_buffer,
  current_time_usec, is_heartbeat_timeout, reset_if_new_run, recv_packet,
}

module _ {P : Type 0} where
  -- A response that ends the service: its data are kept and the next request has a new id.
  unfoldable pub finished : ResponseHeader → P → Client P → Client P
  finished header packet c =
      let c' = (event_done_service (copy_user_buffer header packet c)).0 in
      record c' { request_id = c'.request_id + 1 }

module _ {W P : Type 0} (port : ClientPort W P) where
  unfoldable pub poll_silent : Client P → W → Client P × W × ClientEvent
  poll_silent c w =
      if not (is_canceling c.state) && is_heartbeat_timeout port c w
      then (c, w, request_timeout)
      else (c, w, no_event)

  -- The report of progress.
  unfoldable pub progress : ResponseHeader → Client P → W → Client P
  progress header c w =
      let now = port.world_time_usec w in
      let interval = c.request_header.status_poll_interval_msec in
      if not (interval_set interval) then c else record c {
        percentage =
            if c.last_poll_time == 0 || interval_over interval (now - c.last_poll_time)
            then header.processing_percentage
            else c.percentage;
        last_poll_time = now;
      }

  -- The switch on the status of a valid response.
  unfoldable pub poll_valid : ResponseHeader → P → Client P → W → Client P × W × ClientEvent
  poll_valid header packet c w =
      let event =
        if header.result_code == result_num canceled_code
        then request_cancel_done
        else response_in in
      if header.status == status_num done_status
      then (
        record (finished header packet c) {
          heartbeat_confirmed_time = to_int (port.world_time_usec w);
        },
        w,
        event,
      )
      else if header.status == status_num error_status
      then (finished header packet c, w, event)
      else if header.status == status_num doing_status
      then (progress header c w, w, no_event)
      else (c, w, no_event)

  -- What recv_response makes of a packet; a valid one is a sign of life.
  unfoldable pub poll_packet : P → Client P → W → Client P × W × ClientEvent
  poll_packet packet c w =
      maybe (c, w, no_event)
        (λ header.
          if not (validate_header header c)
          then (c, w, no_event)
          else poll_valid header packet
              (record c { heartbeat_confirmed_time = to_int (current_time_usec port w) }) w)
        (port.read_response packet)

  unfoldable pub poll : Client P → W → Client P × W × ClientEvent
  poll c w =
      let c' = reset_if_new_run port c w in
      if is_idle c'.state
      then (c', w, no_event)
      else if not (port.has_pro_data w)
      then (c', w, no_event)
      else let (w', packet) = recv_packet port w in
        maybe (poll_silent c' w') (λ p. poll_packet p c' w') packet
