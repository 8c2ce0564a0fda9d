-- ===== src/Server/Moves.antt =====
-- The state machine of a client's service, as the application of the server sees it through the events of
-- poll (sources/core/src/service/hako_service_protocol_server.cpp,
-- sources/core/src/service/hako_service_impl_server.cpp).
use hakoniwa_core_pro.Base.{
  ℕ, ◌-◌, ◌<◌, ◌≡◌, ◌≢◌, refl, arith, pos, Bool, not, ◌&&◌, ◌||◌, ◌==◌, if_intro, maybe_intro,
}
use hakoniwa_core_pro.Protocol.{
  opcode_request, opcode_cancel, Status, ResultCode, doing_status, canceling_status, error_status,
  ok_code, invalid_code, busy_code, RequestHeader, interval_set, interval_over,
}
use hakoniwa_core_pro.Server.{
  ServerPort, Server, ServerState, idle, doing, canceling, ServerEvent, no_event, request_in,
  request_cancel, get_state, is_doing, event_start_service, event_cancel_service,
  event_done_service, copy_user_buffer, recv_packet, validate_header, reset_if_new_run,
  send_response, reply, next_client, response_header,
}
use hakoniwa_core_pro.Server.Poll.{poll, poll_invalid, poll_silent, poll_valid, poll_packet}

-- `Moves e before after`: what may become of the state of the client whose turn it is.
pub data Moves : ServerEvent → ServerState → ServerState → Type 0 where
  stays : (st : ServerState) → Moves no_event st st
  ends : (st : ServerState) → Moves no_event st idle
  starts : Moves request_in idle doing
  cancels : Moves request_cancel doing canceling

-- A move of the current client's service, while the other clients' stay as they are.
pub record Turns {P : Type 0} (event : ServerEvent) (s t : Server P) : Type 0 where
  pub moves : Moves event (get_state s) (t.state s.current_client_id)
  pub others : (k : ℕ) → k ≢ s.current_client_id → t.state k ≡ s.state k

ruleset moves = (stays, ends, starts, cancels)

module _ {W P : Type 0} (port : ServerPort W P) where
  event_done_service-Turns :
      (s : Server P) → Turns no_event s (event_done_service s.current_client_id s).0
  unfolding event_done_service
  event_done_service-Turns s = record {
    moves = grind (arith, moves);
    others = λ k other. ground arith;
  }

  reply-Turns : (packet : P) (s : Server P) (w : W) → Turns no_event s (reply port packet s w).0
  unfolding reply next_client
  reply-Turns packet s w = record {
    moves = grind (arith, moves, event_done_service-Turns s);
    others = λ k other. ground (arith, (event_done_service-Turns s).others k other);
  }

  Turns-refl : (s : Server P) → Turns no_event s s
  Turns-refl s = record { moves = stays (get_state s); others = λ k other. refl }

  send_response-Turns :
      (status : Status) (code : ResultCode) (s : Server P) (w : W)
      → Turns no_event s (send_response port status code s w).0
  unfolding send_response
  send_response-Turns status code s w =
      maybe_intro (λ (r : Server P × W × Bool). Turns no_event s r.0)
        (port.cpp2pdu (response_header port status code s w)) (Turns-refl s)
        (λ packet. reply-Turns packet s w)

  abbrev Polled : Server P → Server P × W × ServerEvent → Type 0
  Polled s r = Turns r.2 s r.0

  poll_invalid-Polled : (s : Server P) (w : W) → Polled s (poll_invalid port s w)
  unfolding poll_invalid
  poll_invalid-Polled s w = send_response-Turns error_status invalid_code s w

  -- The time of the poll is no part of a state.
  Turns-timed :
      (event : ServerEvent) (s t : Server P) (now : ℕ)
      → Turns event s t
      → Turns event s (record t { last_poll_time = now })
  Turns-timed event s t now h = record { moves = h.moves; others = h.others }

  poll_silent-Polled : (s : Server P) (w : W) → Polled s (poll_silent port s w)
  unfolding poll_silent
  poll_silent-Polled s w =
      if_intro (Polled s)
        (not (is_doing (get_state s) && interval_set s.request_header.status_poll_interval_msec))
        (Turns-refl s)
        (Turns-timed no_event s _ (port.world_time_usec w) (
          if_intro (λ (r : Server P × W × Bool). Turns no_event s r.0)
            (s.last_poll_time == 0
              || interval_over s.request_header.status_poll_interval_msec
                  (port.world_time_usec w - s.last_poll_time))
            (send_response-Turns doing_status ok_code s w) (Turns-refl s)))

  -- The events of a client change its own state only.
  start-Turns :
      (header : RequestHeader) (packet : P) (s : Server P)
      → s.current_client_id < s.max_clients
      → get_state s ≡ idle
      → Turns request_in s
          (record (event_start_service s.current_client_id (copy_user_buffer header packet s)).0 {
            percentage = pos 0;
          })
  unfolding event_start_service copy_user_buffer
  start-Turns header packet s l e = record {
    moves = grind (arith, moves);
    others = λ k other. ground arith;
  }

  cancel-Turns :
      (s : Server P)
      → s.current_client_id < s.max_clients
      → get_state s ≡ doing
      → Turns request_cancel s (event_cancel_service s.current_client_id s).0
  unfolding event_cancel_service
  cancel-Turns s l e = record { moves = grind (arith, moves); others = λ k other. ground arith }

  poll_valid-Polled :
      (st : ServerState) (header : RequestHeader) (packet : P) (s : Server P) (w : W)
      → s.current_client_id < s.max_clients
      → get_state s ≡ st
      → Polled s (poll_valid port st header packet s w)
  unfolding poll_valid
  poll_valid-Polled idle header packet s w l e =
      if_intro (Polled s) (header.opcode == opcode_request) (start-Turns header packet s l e) (
        if_intro (Polled s) (header.opcode == opcode_cancel) (Turns-refl s)
          (poll_invalid-Polled s w))
  poll_valid-Polled doing header packet s w l e =
      if_intro (Polled s) (header.opcode == opcode_cancel) (cancel-Turns s l e)
        (send_response-Turns doing_status busy_code s w)
  poll_valid-Polled canceling header packet s w l e =
      send_response-Turns canceling_status busy_code s w

  poll_packet-Polled :
      (packet : P) (s : Server P) (w : W)
      → s.current_client_id < s.max_clients
      → Polled s (poll_packet port packet s w)
  unfolding poll_packet
  poll_packet-Polled packet s w l =
      maybe_intro (Polled s) (port.pdu2cpp packet) (poll_invalid-Polled s w) (λ header.
        if_intro (Polled s) (validate_header port header s w).1
          (poll_valid-Polled (get_state s) header packet s (validate_header port header s w).0 l
            refl)
          (poll_invalid-Polled s (validate_header port header s w).0))

  pub same_run :
      (s : Server P) (w : W)
      → port.run_generation w ≡ s.run_generation
      → reset_if_new_run port s w ≡ s
  unfolding reset_if_new_run
  same_run s w e = ground arith

  -- Within a run, a poll moves the service of the client whose turn it is along the state machine: a
  -- reported request starts an idle service, a reported cancellation turns one in progress into one that
  -- is being cancelled, and without an event it stays as it is or ends. No other client's state changes.
  pub poll-Turns :
      (s : Server P) (w : W)
      → port.run_generation w ≡ s.run_generation
      → s.current_client_id < s.max_clients
      → Turns (poll port s w).2 s (poll port s w).0
  unfolding poll
  poll-Turns s w e l = rw (same_run s w e) (
      if_intro (Polled s) (not (port.has_pro_data w)) (Turns-refl s) (
        maybe_intro (Polled s) (recv_packet port s.current_client_id s w).1
          (poll_silent-Polled s (recv_packet port s.current_client_id s w).0)
          (λ p. poll_packet-Polled p s (recv_packet port s.current_client_id s w).0 l)))
