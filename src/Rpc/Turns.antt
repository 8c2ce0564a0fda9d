-- ===== src/Rpc/Turns.antt =====
-- The four steps of a remote call over the tables in shared memory, from rest to rest
-- (sources/core/src/service/hako_service_protocol_client.cpp, hako_service_protocol_server.cpp and
-- hako_pro_data_service.cpp, sources/core/src/hako_pro_data.cpp).
use hakoniwa_core_pro.Base.{ℕ, ℤ, ◌<◌, ◌≡◌, refl, ◌∙◌, true, some, pos, Name, name_eq_self}
use hakoniwa_core_pro.Protocol.{
  opcode_request, done_status, ok_code, RequestHeader, ResponseHeader, status_num, result_num,
}
use hakoniwa_core_pro.RecvEvent.{Table, Master}
use hakoniwa_core_pro.RecvEvent.Delivery.{Delivers, written}
use hakoniwa_core_pro.Service.Channels.{PduData, find_slot, response_channel}
use hakoniwa_core_pro.Service.Calls.{Sends, after, written-Delivers}
use hakoniwa_core_pro.Server.{
  ServerPort, Server, doing, request_in, get_state, validate_header, response_header,
  get_response_buffer, reply_to_current_request,
}
use hakoniwa_core_pro.Server.Poll.{poll}
use hakoniwa_core_pro.Client.{ClientPort, Client, new_request_header}
use hakoniwa_core_pro.Client
use hakoniwa_core_pro.Client.Poll as ClientPoll
use hakoniwa_core_pro.Rpc.{
  Bus, Endpoint, Convertor, view, server_port, client_port, get_client_name,
}
use hakoniwa_core_pro.Rpc.Steps.{accepts, accepted, answers, answered, asks, asked, hears, told}
use hakoniwa_core_pro.Rpc.Wires.{
  with_packet, looked_up, put_request_wire, put_response_wire, get_request_wire, get_response_wire,
  is_exist_client_wire, exist-table, find_slot-view,
}
use hakoniwa_core_pro.Rpc.Rest.{Route, Connected, AtRest, served, answer_header}

module _ {W P : Type 0} (m : Master) (pdu : PduData W P) (conv : Convertor P) (es ec : Endpoint)
    (i j : ℕ) (k : ℕ × ℕ) (req res : Route) where
  abbrev sport : Name → ServerPort (Bus W) P
  sport name = server_port m pdu conv es i name

  abbrev cport : ClientPort (Bus W) P
  cport = client_port m pdu conv ec i j

  valid_request :
      (interval : ℤ) (s : Server P) (c : Client P) (b : Bus W)
      → AtRest es i j s c b
      → (t : Table) (w : W)
      → validate_header
          (sport s.service_name)
          (new_request_header opcode_request interval c)
          s
          (with_packet t w b)
        ≡ (looked_up es.process s.service_name c.client_name (with_packet t w b), true)
  unfolding validate_header new_request_header
  valid_request interval s c b rest t w =
      rw
        (
          rest.same_service,
          name_eq_self s.service_name,
          is_exist_client_wire m pdu conv es i j k req.real s.service_name c.client_name
              (with_packet t w b)
              (exist-table s.service_name c.client_name (some t) (view es.process b)
                ∙ rest.is_known),
        )
        refl

  pub asked_step :
      (packet : P) (header : RequestHeader) (code : ℕ) (timeout_msec : ℤ) (c : Client P)
      (s : Server P) (t : Table) (b : Bus W) (w1 : W)
      → Connected m es ec i j k req res t b
      → AtRest es i j s c b
      → conv.request_code packet ≡ pos code
      → conv.request_header packet ≡ header
      → Sends m pdu req.real packet ec.request_pdu_size t b.pdu_data w1
      → Client.request cport packet timeout_msec c b ≡ (
        asked cport header timeout_msec b.world_time_usec c,
        with_packet (written req.real t) w1 b,
        true,
      )
  unfolding client_port
  asked_step packet header code timeout_msec c s t b w1 con rest codes reads sends =
      asks cport header code packet timeout_msec c b (with_packet (written req.real t) w1 b) refl
        refl rest.client_run rest.client_idle (λ h. (codes h, reads h))
        (put_request_wire m pdu conv ec i j k req.real packet t b w1 con.table con.sizes.0
          (find_slot-view (pos i) (pos j) true ec.process es.process b ∙ con.found) con.request_at
          sends)

  pub accepted_step :
      (packet : P) (interval : ℤ) (c : Client P) (s : Server P) (t : Table) (b : Bus W) (w1 w2 : W)
      → Connected m es ec i j k req res t b
      → AtRest es i j s c b
      → conv.request_of packet ≡ some (new_request_header opcode_request interval c)
      → pdu.read_pdu es.process.asset_id req.real es.request_pdu_size w1 ≡ (w2, some packet)
      → poll (sport s.service_name) s (with_packet (written req.real t) w1 b) ≡ (
        accepted (sport s.service_name) (new_request_header opcode_request interval c) packet s,
        looked_up es.process s.service_name c.client_name
            (with_packet (after (written req.real t) req.event) w2 b),
        request_in,
      )
  unfolding server_port new_request_header
  accepted_step packet interval c s t b w1 w2 con rest asks_it reads =
      let due =
        written-Delivers m es.process.pid req.real req.event t con.requests.known
          con.requests.watched con.requests.in_use in
      accepts (sport s.service_name) (new_request_header opcode_request interval c) packet s
        (with_packet (written req.real t) w1 b)
        (with_packet (after (written req.real t) req.event) w2 b) _ refl rest.server_run
        (rw rest.turn rest.in_range) rest.server_idle
        (rw rest.turn (
          get_request_wire m pdu conv es i j k req.real s.service_name req.event packet
            (written req.real t) b w1 w2 con.sizes.1 con.found con.request_at due reads))
        asks_it (valid_request interval s c b rest (after (written req.real t) req.event) w2) refl

  pub answered_step :
      (answer : P) (u : Server P) (name : Name) (t : Table) (b : Bus W) (w3 : W)
      → b.recv_event_table ≡ some t
      → 0 < es.response_pdu_size
      → find_slot (pos i) (pos j) true (view es.process b) ≡ some k
      → response_channel m (view es.process b) k ≡ some res.real
      → b.run_generation ≡ u.request_generation
      → u.current_client_id ≡ j
      → j < u.max_clients
      → get_state u ≡ doing
      → Sends m pdu res.real answer es.response_pdu_size t b.pdu_data w3
      → reply_to_current_request (sport name) answer u b
        ≡ (answered (sport name) u, with_packet (written res.real t) w3 b, true)
  unfolding server_port
  answered_step answer u name t b w3 table size found channel run turn range busy sends =
      answers (sport name) answer u b (with_packet (written res.real t) w3 b) refl run
        (rw turn range) busy
        (rw turn (
          put_response_wire m pdu conv es i j k res.real name answer t b w3 table size found channel
            sends))

  pub told_step :
      (answer : P) (header : ResponseHeader) (c : Client P) (t : Table) (b : Bus W) (w3 w4 : W)
      → 0 < ec.response_pdu_size
      → find_slot (pos i) (pos j) true (view ec.process b) ≡ some k
      → response_channel m (view ec.process b) k ≡ some res.real
      → Delivers m ec.process.pid res.real t res.event
      → pdu.read_pdu ec.process.asset_id res.real ec.response_pdu_size w3 ≡ (w4, some answer)
      → b.run_generation ≡ c.run_generation
      → c.state ≡ Client.doing
      → conv.response_of answer ≡ some header
      → Client.validate_header header c ≡ true
      → header.status ≡ status_num done_status
      → header.result_code ≡ result_num ok_code
      → (b' : Bus W) × (ClientPoll.poll cport c (with_packet t w3 b)
          ≡ (told cport header answer b.world_time_usec c, b', Client.response_in))
  unfolding client_port
  told_step answer header c t b w3 w4 size found channel due reads run busy tells valid done ok =
      let got = cport.get_response (with_packet t w3 b) in
      (
        got.0,
        hears cport header answer c (with_packet t w3 b) got.0 refl run busy
            (λ h. (
              got.0,
              get_response_wire m pdu conv ec i j k res.real res.event answer t b w3 w4 size found
                  channel due reads h,
            ))
            tells valid done ok,
      )

  pub buffer_step :
      (packet : P) (interval : ℤ) (s : Server P) (c : Client P) (t : Table) (w : W) (b : Bus W)
      → AtRest es i j s c b
      → get_response_buffer
          (sport s.service_name)
          done_status
          ok_code
          (accepted (sport s.service_name) (new_request_header opcode_request interval c) packet s)
          (served es s c t w b)
        ≡ conv.write_response (answer_header c)
  unfolding get_response_buffer response_header server_port get_client_name new_request_header
  buffer_step packet interval s c t w b rest =
      rw (rest.turn, rest.same_client, rest.same_service) refl
