-- ===== src/Rpc/Steps.antt =====
-- The four steps of a remote call that goes well, each with what it asks of the port
-- (sources/core/src/service/hako_service_protocol_client.cpp and hako_service_protocol_server.cpp).
use hakoniwa_core_pro.Base.{
  ℕ, ◌+◌, ◌%◌, ◌<◌, ◌≡◌, refl, arith, ℤ, pos, true, false, some, write, leb, ==_iff,
}
use hakoniwa_core_pro.Protocol.{
  opcode_request, done_status, ok_code, RequestHeader, ResponseHeader, status_num, result_num,
}
use hakoniwa_core_pro.Server.{
  ServerPort, Server, idle, doing, request_in, get_state, event_start_service, copy_user_buffer,
  recv_packet, validate_header, reset_if_new_run, reply, reply_to_current_request, send_packet,
  event_done_service, next_client,
}
use hakoniwa_core_pro.Server.Poll.{poll, poll_valid, poll_packet}
use hakoniwa_core_pro.Client.{ClientPort, Client, to_int}
use hakoniwa_core_pro.Client
use hakoniwa_core_pro.Client.Poll as ClientPoll
use hakoniwa_core_pro.Client.Moves as ClientMoves
use hakoniwa_core_pro.Server.Moves.{same_run}

lt→leb : (a b : ℕ) → a < b → leb b a ≡ false
lt→leb a b h = ground arith

module _ {W P : Type 0} (port : ServerPort W P) where
  -- The server after it has accepted the request of the client whose turn it is.
  abbrev pub accepted : RequestHeader → P → Server P → Server P
  accepted header packet s = record s {
    state = write s.state s.current_client_id doing;
    request_user_buffer = some packet;
    request_header = header;
    request_generation = s.run_generation;
    percentage = pos 0;
  }

  pub accepts :
      (header : RequestHeader) (packet : P) (s : Server P) (w w1 w2 : W)
      → port.has_pro_data w ≡ true
      → port.run_generation w ≡ s.run_generation
      → s.current_client_id < s.max_clients
      → get_state s ≡ idle
      → port.get_request s.current_client_id w ≡ (w1, some packet)
      → port.pdu2cpp packet ≡ some header
      → validate_header port header s w1 ≡ (w2, true)
      → header.opcode ≡ opcode_request
      → poll port s w ≡ (accepted header packet s, w2, request_in)
  unfolding poll reset_if_new_run recv_packet poll_packet poll_valid event_start_service
      copy_user_buffer
  accepts header packet s w w1 w2 there run l rest got reads valid op =
      rw (same_run port s w run, there)
        (rw (lt→leb s.current_client_id s.max_clients l) (
          rw (got, reads, valid, rest, (==_iff header.opcode opcode_request).1 op)
            (rw (lt→leb s.current_client_id s.max_clients l, rest) refl)))

  -- The server after its answer to the current client.
  abbrev pub answered : Server P → Server P
  answered s = record s {
    state = write s.state s.current_client_id idle;
    current_client_id = (s.current_client_id + 1) % s.max_clients;
  }

  pub answers :
      (packet : P) (s : Server P) (w w1 : W)
      → port.has_pro_data w ≡ true
      → port.run_generation w ≡ s.request_generation
      → s.current_client_id < s.max_clients
      → get_state s ≡ doing
      → port.put_response s.current_client_id packet w ≡ (w1, true)
      → reply_to_current_request port packet s w ≡ (answered s, w1, true)
  unfolding reply_to_current_request reply send_packet event_done_service next_client
  answers packet s w w1 there run l busy put =
      rw (there, run, (==_iff s.request_generation s.request_generation).1 refl, busy)
        (rw (lt→leb s.current_client_id s.max_clients l, put) refl)

module _ {W P : Type 0} (port : ClientPort W P) where
  -- The client after its request, at time `now`.
  abbrev pub asked : RequestHeader → ℤ → ℕ → Client P → Client P
  asked header timeout_msec now c = record c {
    state = Client.doing;
    timeout_msec = timeout_msec;
    last_poll_time = 0;
    heartbeat_confirmed_time = to_int now;
    request_header = header;
  }

  pub asks :
      (header : RequestHeader) (code : ℕ) (packet : P) (timeout_msec : ℤ) (c : Client P) (w w1 : W)
      → port.has_pro_data w ≡ true
      → port.has_pro_data w1 ≡ true
      → port.run_generation w ≡ c.run_generation
      → c.state ≡ Client.idle
      → port.read_request packet ≡ (pos code, header)
      → port.put_request packet w ≡ (w1, true)
      → Client.request port packet timeout_msec c w
        ≡ (asked header timeout_msec (port.world_time_usec w1) c, w1, true)
  unfolding Client.request Client.send_packet Client.event_start_service Client.current_time_usec
  asks header code packet timeout_msec c w w1 there there1 run rest reads put =
      rw (ClientMoves.same_run port c w run, reads, there, put) (rw (there1, rest) refl)

  -- The client after the answer to its request.
  abbrev pub told : ResponseHeader → P → ℕ → Client P → Client P
  told header packet now c = record c {
    state = Client.idle;
    response = some (header, packet);
    request_id = c.request_id + 1;
    heartbeat_confirmed_time = to_int now;
  }

  pub hears :
      (header : ResponseHeader) (packet : P) (c : Client P) (w w1 : W)
      → port.has_pro_data w ≡ true
      → port.run_generation w ≡ c.run_generation
      → c.state ≡ Client.doing
      → port.get_response w ≡ (w1, some packet)
      → port.read_response packet ≡ some header
      → Client.validate_header header c ≡ true
      → header.status ≡ status_num done_status
      → header.result_code ≡ result_num ok_code
      → ClientPoll.poll port c w
        ≡ (told header packet (port.world_time_usec w1) c, w1, Client.response_in)
  unfolding ClientPoll.poll ClientPoll.poll_packet ClientPoll.poll_valid ClientPoll.finished
      Client.recv_packet Client.event_done_service Client.copy_user_buffer Client.validate_header
  hears header packet c w w1 there run busy got reads valid done ok =
      rw (ClientMoves.same_run port c w run, busy, there, got, reads, valid, done, ok) refl
