-- ===== src/Server/Turn.antt =====
-- Whose turn it is at a server: the client id that moves on only with a response
-- (sources/core/src/service/hako_service_protocol_server.cpp,
-- sources/core/src/service/hako_service_impl_server.hpp).
use hakoniwa_core_pro.Base.{
  ℕ, suc, ◌+◌, ◌-◌, ◌*◌, ◌%◌, ◌<◌, ◌≡◌, ◌≢◌, ◌⊎◌, refl, arith, pos, true, false, none, some, ◌∙◌,
  ap, List, [], ◌∷◌,
}
use hakoniwa_core_pro.Protocol.{
  opcode_request, Status, ResultCode, doing_status, ok_code, busy_code, RequestHeader,
}
use hakoniwa_core_pro.Server.{
  ServerPort, Server, idle, doing, no_event, get_state, event_done_service, recv_packet,
  send_packet, validate_header, send_response, reply, reply_to_current_request, next_client,
  response_header,
}
use hakoniwa_core_pro.Server.Poll.{poll, poll_silent, poll_valid, poll_packet}
use native.Mathlib.Decide.{ℕ_discrete}
use hakoniwa_core_pro.Server.Run.{polls}
use hakoniwa_core_pro.Server.Moves.{same_run}

module _ {W P : Type 0} (port : ServerPort W P) where
  -- A shared memory in which the run goes on and the current client has sent no packet.
  abbrev pub NoPacket : Server P → W → Type 0
  NoPacket s w =
      (port.run_generation w ≡ s.run_generation)
      × ((port.get_request s.current_client_id w).1 ≡ none)

  abbrev pub NoPackets : Server P → List W → Type 0
  NoPackets s [] = Unit {0}
  NoPackets s (w ∷ ws) = NoPacket s w × NoPackets s ws

  idle_poll : (s : Server P) (w : W) → get_state s ≡ idle → NoPacket s w → (poll port s w).0 ≡ s
  unfolding poll recv_packet poll_silent
  idle_poll s w e h = rw (same_run port s w h.0) (ground arith)

  -- While the client whose turn it is sends nothing and its service is idle, polling changes nothing, so
  -- the turn never passes on, whatever the other clients have sent.
  pub idle_turn_stays :
      (s : Server P) (ws : List W) → get_state s ≡ idle → NoPackets s ws → polls port ws s ≡ s
  unfolding polls
  idle_turn_stays s [] e h = refl
  idle_turn_stays s (w ∷ ws) e h = rw (idle_poll s w e h.0) (idle_turn_stays s ws e h.1)

  -- A response that is written ends the service of the current client and passes the turn on.
  sent_response :
      (status : Status) (code : ResultCode) (s : Server P) (w w' : W) (packet : P)
      → s.current_client_id < s.max_clients
      → port.has_pro_data w ≡ true
      → port.cpp2pdu (response_header port status code s w) ≡ some packet
      → port.put_response s.current_client_id packet w ≡ (w', true)
      → ((send_response port status code s w).0.state s.current_client_id ≡ idle)
        × ((send_response port status code s w).0.current_client_id
            ≡ (s.current_client_id + 1) % s.max_clients)
        × ((k : ℕ)
            → k ≢ s.current_client_id
            → (send_response port status code s w).0.state k ≡ s.state k)
  unfolding send_response reply next_client event_done_service send_packet
  sent_response status code s w w' packet l h conv put =
      (ground arith, ground arith, λ k other. ground arith)

  abbrev pub OthersIdle : Server P → Type 0
  OthersIdle s = (k : ℕ) → k ≢ s.current_client_id → s.state k ≡ idle

  -- So the application's own response finds an idle service, and is refused.
  refused_after :
      (status : Status) (code : ResultCode) (s : Server P) (w w' : W) (packet answer : P)
      → s.current_client_id < s.max_clients
      → OthersIdle s
      → port.has_pro_data w ≡ true
      → port.cpp2pdu (response_header port status code s w) ≡ some packet
      → port.put_response s.current_client_id packet w ≡ (w', true)
      → get_state (send_response port status code s w).0 ≡ idle
  refused_after status code s w w' packet answer l alone h conv put =
      let t = (send_response port status code s w).0 in
      let sent = sent_response status code s w w' packet l h conv put in
      elim (ℕ_discrete t.current_client_id s.current_client_id) [
        | yes same ↦ ap t.state same ∙ sent.0
        | no other ↦ sent.2 t.current_client_id other ∙ alone t.current_client_id other
      ]

  refused :
      (answer : P) (t : Server P) (w : W)
      → get_state t ≡ idle
      → reply_to_current_request port answer t w ≡ (t, w, false)
  unfolding reply_to_current_request
  refused answer t w e = ground arith

  -- The report of progress that a poll without a packet makes.
  poll_reports :
      (s : Server P) (w w1 : W) (msec : ℕ)
      → port.has_pro_data w ≡ true
      → port.run_generation w ≡ s.run_generation
      → s.current_client_id < s.max_clients
      → get_state s ≡ doing
      → s.request_header.status_poll_interval_msec ≡ pos (suc msec)
      → (s.last_poll_time ≡ 0) ⊎ (suc msec * 1000 < port.world_time_usec w1 - s.last_poll_time)
      → port.get_request s.current_client_id w ≡ (w1, none)
      → poll port s w ≡ (
        record (send_response port doing_status ok_code s w1).0 {
          last_poll_time = port.world_time_usec w1;
        },
        (send_response port doing_status ok_code s w1).1,
        no_event,
      )
  unfolding poll recv_packet poll_silent
  poll_reports s w w1 msec h run l st interval due got = rw (same_run port s w run) (ground arith)

  -- A service is in progress for a request that asked for progress reports, no other client's service is,
  -- no packet has come, and a report is due: no poll without a packet has been timed yet, or more than
  -- the interval has passed since. The poll that writes the report ends the service that it reports on,
  -- and the response that the application then gives is refused.
  pub progress_report_ends_service :
      (s : Server P) (w w1 w2 : W) (packet answer : P) (msec : ℕ)
      → port.has_pro_data w ≡ true
      → port.run_generation w ≡ s.run_generation
      → s.current_client_id < s.max_clients
      → get_state s ≡ doing
      → OthersIdle s
      → s.request_header.status_poll_interval_msec ≡ pos (suc msec)
      → (s.last_poll_time ≡ 0) ⊎ (suc msec * 1000 < port.world_time_usec w1 - s.last_poll_time)
      → port.get_request s.current_client_id w ≡ (w1, none)
      → port.has_pro_data w1 ≡ true
      → port.cpp2pdu (response_header port doing_status ok_code s w1) ≡ some packet
      → port.put_response s.current_client_id packet w1 ≡ (w2, true)
      → let (t, w', event) = poll port s w in
        (event ≡ no_event)
        × (t.state s.current_client_id ≡ idle)
        × (reply_to_current_request port answer t w' ≡ (t, w', false))
  progress_report_ends_service s w w1 w2 packet answer msec h run l st alone interval due got h1
        conv put =
      let r = send_response port doing_status ok_code s w1 in
      rw (poll_reports s w w1 msec h run l st interval due got) (
        refl,
        (sent_response doing_status ok_code s w1 w2 packet l h1 conv put).0,
        refused answer (record r.0 { last_poll_time = port.world_time_usec w1 }) r.1
            (refused_after doing_status ok_code s w1 w2 packet answer l alone h1 conv put),
      )

  -- A packet that is no cancellation while the service is in progress.
  poll_busy :
      (s : Server P) (w w1 w2 : W) (request : P) (header : RequestHeader)
      → port.has_pro_data w ≡ true
      → port.run_generation w ≡ s.run_generation
      → s.current_client_id < s.max_clients
      → get_state s ≡ doing
      → port.get_request s.current_client_id w ≡ (w1, some request)
      → port.pdu2cpp request ≡ some header
      → validate_header port header s w1 ≡ (w2, true)
      → header.opcode ≡ opcode_request
      → poll port s w ≡ (
        (send_response port doing_status busy_code s w2).0,
        (send_response port doing_status busy_code s w2).1,
        no_event,
      )
  unfolding poll recv_packet poll_packet poll_valid
  poll_busy s w w1 w2 request header h run l st got conv valid op =
      rw (same_run port s w run) (ground arith)

  -- A second valid request of the client while its service is in progress is answered as busy, and if no
  -- other client's service is in progress, that answer ends the service of the first request: the response
  -- that the application then gives to it is refused.
  pub busy_reply_ends_service :
      (s : Server P) (w w1 w2 w3 : W) (request packet answer : P) (header : RequestHeader)
      → port.has_pro_data w ≡ true
      → port.run_generation w ≡ s.run_generation
      → s.current_client_id < s.max_clients
      → get_state s ≡ doing
      → OthersIdle s
      → port.get_request s.current_client_id w ≡ (w1, some request)
      → port.pdu2cpp request ≡ some header
      → validate_header port header s w1 ≡ (w2, true)
      → header.opcode ≡ opcode_request
      → port.has_pro_data w2 ≡ true
      → port.cpp2pdu (response_header port doing_status busy_code s w2) ≡ some packet
      → port.put_response s.current_client_id packet w2 ≡ (w3, true)
      → let (t, w', event) = poll port s w in
        (event ≡ no_event)
        × (t.state s.current_client_id ≡ idle)
        × (reply_to_current_request port answer t w' ≡ (t, w', false))
  busy_reply_ends_service s w w1 w2 w3 request packet answer header h run l st alone got conv valid
        op h2 conv' put =
      let r = send_response port doing_status busy_code s w2 in
      rw (poll_busy s w w1 w2 request header h run l st got conv valid op) (
        refl,
        (sent_response doing_status busy_code s w2 w3 packet l h2 conv' put).0,
        refused answer r.0 r.1
            (refused_after doing_status busy_code s w2 w3 packet answer l alone h2 conv' put),
      )
