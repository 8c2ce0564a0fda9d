-- ===== src/Rpc/Answered.antt =====
-- One remote call from the client's request to the client's response, over the tables in shared memory
-- (sources/core/src/service/hako_service_protocol_client.cpp, hako_service_protocol_server.cpp and
-- hako_pro_data_service.cpp, sources/core/src/hako_pro_data.cpp).
use hakoniwa_core_pro.Base.{ℕ, ℤ, ◌+◌, ◌≡◌, refl, ◌∙◌, true, some, pos}
use hakoniwa_core_pro.Protocol.{opcode_request, done_status, ok_code}
use hakoniwa_core_pro.RecvEvent.{Table, Master}
use hakoniwa_core_pro.RecvEvent.Delivery.{written}
use hakoniwa_core_pro.Service.Channels.{PduData}
use hakoniwa_core_pro.Service.Calls.{after, written-Delivers}
use hakoniwa_core_pro.Server.{
  Server, idle, request_in, get_request, get_response_buffer, reply_to_current_request,
}
use hakoniwa_core_pro.Server.Poll.{poll}
use hakoniwa_core_pro.Client.{ClientPort, Client, new_request_header}
use hakoniwa_core_pro.Client
use hakoniwa_core_pro.Client.Poll as ClientPoll
use hakoniwa_core_pro.Rpc.{Bus, Endpoint, Convertor, server_port, client_port}
use hakoniwa_core_pro.Rpc.Steps.{accepted, asked}
use hakoniwa_core_pro.Rpc.Wires.{Line-carried, Conveys}
use hakoniwa_core_pro.Rpc.Rest.{
  Route, Connected, AtRest, answer_header, served, find_slot-memory, accepted-doing,
  accepted-request, answered-idle, answer-valid,
}
use hakoniwa_core_pro.Rpc.Turns.{asked_step, accepted_step, answered_step, told_step, buffer_step}

module _ {W P : Type 0} (m : Master) (pdu : PduData W P) (conv : Convertor P) (es ec : Endpoint)
    (i j : ℕ) (k : ℕ × ℕ) (req res : Route) where
  -- A request that the application has written into the buffer of get_request_buffer, and an answer that it
  -- has written into that of get_response_buffer: the client's request goes out; the next poll of the server
  -- reports it, and the application gets it; the buffer for the response has the header of the answer to it;
  -- the server's response goes out; the next poll of the client reports it, and the client keeps it. Both
  -- ends are idle again, and the client's next request has the next id.
  pub call_answered :
      (packet answer : P) (interval timeout_msec : ℤ) (code : ℕ) (s : Server P) (c : Client P)
      (t : Table) (b : Bus W)
      → Connected m es ec i j k req res t b
      → AtRest es i j s c b
      → Conveys m pdu req.real ec.request_pdu_size es.request_pdu_size es.process.asset_id
      → Conveys m pdu res.real es.response_pdu_size ec.response_pdu_size ec.process.asset_id
      → conv.request_code packet ≡ pos code
      → conv.request_header packet ≡ new_request_header opcode_request interval c
      → conv.request_of packet ≡ some (new_request_header opcode_request interval c)
      → conv.response_of answer ≡ some (answer_header c)
      → let sport = server_port m pdu conv es i s.service_name in
        let cport = client_port m pdu conv ec i j in
        let (c1, b1, sent) = Client.request cport packet timeout_msec c b in
        let (s1, b2, event) = poll sport s b1 in
        let (s2, b3, replied) = reply_to_current_request sport answer s1 b2 in
        let (c2, b4, outcome) = ClientPoll.poll cport c1 b3 in
        (sent ≡ true)
        × (event ≡ request_in)
        × (get_request s1 ≡ some packet)
        × (get_response_buffer sport done_status ok_code s1 b2
            ≡ conv.write_response (answer_header c))
        × (replied ≡ true)
        × (outcome ≡ Client.response_in)
        × (c2.response ≡ some (answer_header c, answer))
        × (c2.request_id ≡ c.request_id + 1)
        × (c2.state ≡ Client.idle)
        × (s2.state j ≡ idle)
  call_answered packet answer interval timeout_msec code s c t b con rest out back codes reads_it
        asks_it tells =
      let sport = server_port m pdu conv es i s.service_name in
      let cport = client_port m pdu conv ec i j in
      let (w1, w2, sends, reads) = out packet t b.pdu_data con.requests.unheld in
      let header = new_request_header opcode_request interval c in
      let t2 = after (written req.real t) req.event in
      let line =
        Line-carried m res.real ec.process.pid res.event req.real req.event t con.apart
          con.responses in
      let (w3, w4, sends2, reads2) = back answer t2 w2 line.unheld in
      let c1 = asked cport header timeout_msec b.world_time_usec c in
      let s1 = accepted sport header packet s in
      let b2 = served es s c t2 w2 b in
      let busy = accepted-doing sport header packet s in
      let due =
        written-Delivers m ec.process.pid res.real res.event t2 line.known line.watched
          line.in_use in
      let (b4, told_it) =
        told_step m pdu conv es ec i j k req res answer (answer_header c) c1 (written res.real t2)
          b2 w3 w4 con.sizes.3
          (find_slot-memory (pos i) (pos j) true ec.process es.process b2 b refl ∙ con.found)
          con.response_at due reads2 rest.client_run refl tells (answer-valid c c1 refl refl) refl
          refl in
      rw
        (
          asked_step m pdu conv es ec i j k req res packet header code timeout_msec c s t b w1 con
              rest codes reads_it sends,
          accepted_step m pdu conv es ec i j k req res packet interval c s t b w1 w2 con rest
              asks_it reads,
          answered_step m pdu conv es ec i j k req res answer s1 s.service_name t2 b2 w3 refl
              con.sizes.2
              (find_slot-memory (pos i) (pos j) true es.process es.process b2 b refl ∙ con.found)
              con.response_at rest.server_run rest.turn rest.in_range busy sends2,
          told_it,
        )
        (
          refl,
          refl,
          accepted-request sport header packet s,
          buffer_step m pdu conv es ec i j k req res packet interval s c t2 w2 b rest,
          refl,
          refl,
          refl,
          refl,
          refl,
          answered-idle sport j s1 rest.turn,
        )
