-- ===== src/FrontEnd/Bodies.antt =====
-- A remote call through all the layers, from the client's template to the server's and back
-- (include/hako_asset_service_client.hpp and include/hako_asset_service_server.hpp, over
-- sources/assets/polling/src and sources/core/src/service).
use hakoniwa_core_pro.Base.{ℕ, ℤ, ◌≡◌, refl, ◌∙◌, true, some, int_eq, ◌==◌}
use hakoniwa_core_pro.Protocol.{RequestHeader, ResponseHeader, opcode_request}
use hakoniwa_core_pro.RecvEvent.{Table, Master}
use hakoniwa_core_pro.Service.Channels.{PduData}
use hakoniwa_core_pro.Server.{Server}
use hakoniwa_core_pro.Server
use hakoniwa_core_pro.Server.Poll as ServerPoll
use hakoniwa_core_pro.Client.{Client, new_request_header}
use hakoniwa_core_pro.Client
use hakoniwa_core_pro.Polling.{find, insert_or_assign}
use hakoniwa_core_pro.Polling.Clients.{Clients, ClientsPort, key_of, store}
use hakoniwa_core_pro.Polling.Servers.{Servers, ServicesPort}
use hakoniwa_core_pro.Rpc.{Bus, Endpoint, Convertor, server_port, client_port}
use hakoniwa_core_pro.Rpc.Wires.{Conveys}
use hakoniwa_core_pro.Rpc.Rest.{Route, Connected, AtRest, answer_header}
use hakoniwa_core_pro.Rpc.Answered.{call_answered}
use hakoniwa_core_pro.FrontEnd.{PduConvertor}
use hakoniwa_core_pro.FrontEnd.ServiceClient.{ServiceClient}
use hakoniwa_core_pro.FrontEnd.ServiceClient
use hakoniwa_core_pro.FrontEnd.ServiceServer.{ServiceServer}
use hakoniwa_core_pro.FrontEnd.ServiceServer
use hakoniwa_core_pro.FrontEnd.Steps.{
  RequestLaws, ResponseLaws, find_stored, find_assigned, request_step, poll_step, server_poll_step,
  reply_step,
}

buffer_of :
    {W P : Type 0} (m : Master) (pdu : PduData W P) (conv : Convertor P) (e : Endpoint) (i j : ℕ)
    (interval : ℤ) (c : Client P)
    → Client.get_request_buffer (client_port m pdu conv e i j) opcode_request interval c
      ≡ conv.write_request (new_request_header opcode_request interval c)
unfolding Client.get_request_buffer client_port
buffer_of m pdu conv e i j interval c = refl

module _ {W P Q R : Type 0} (m : Master) (pdu : PduData W P) (conv : Convertor P) (es ec : Endpoint)
    (i j : ℕ) (k : ℕ × ℕ) (to_server to_client : Route) (clients : ClientsPort (Bus W) P)
    (services : ServicesPort (Bus W) P) (req : PduConvertor P RequestHeader Q)
    (res : PduConvertor P ResponseHeader R) where
  -- Between the two processes of a slot whose ends are at rest, while RPC is allowed, with converters that
  -- keep header and body apart and give back what they were given: when the client's object has sent a
  -- request, the next poll of the server's object reports it, with the body that the client gave; when the
  -- server's object has replied, the next poll of the client's object reports the response, with the body
  -- that the server gave.
  pub bodies_arrive :
      (asks : RequestLaws conv req) (tells : ResponseLaws conv res) (body : Q) (answer : R)
      (timeout_msec interval : ℤ) (oc : ServiceClient Q R) (os : ServiceServer Q R) (c : Client P)
      (s : Server P) (tc : Clients P) (ts : Servers P) (t : Table) (b : Bus W)
      → Connected m es ec i j k to_server to_client t b
      → AtRest es i j s c b
      → Conveys m pdu to_server.real ec.request_pdu_size es.request_pdu_size es.process.asset_id
      → Conveys m pdu to_client.real es.response_pdu_size ec.response_pdu_size ec.process.asset_id
      → clients.port oc.handle ≡ client_port m pdu conv ec i j
      → services.port os.service_id ≡ server_port m pdu conv es i s.service_name
      → ((now : Bus W) → clients.is_rpc_allowed now ≡ true)
      → ((now : Bus W) → services.is_rpc_allowed now ≡ true)
      → find (λ a b. a == b) (key_of oc.handle) tc.service_clients ≡ some c
      → find int_eq os.service_id ts ≡ some (some s)
      → let (oc1, (tc1, b1), sent) =
          ServiceClient.request clients req res body timeout_msec interval oc (tc, b) in
        let (os1, (ts1, b2), event) = ServiceServer.poll services req res os (ts, b1) in
        let (os2, (ts2, b3), replied) =
          ServiceServer.normal_reply services req res answer os1 (ts1, b2) in
        let (oc2, (tc2, b4), outcome) = ServiceClient.poll clients req res oc1 (tc1, b3) in
        (sent ≡ true)
        × (event ≡ ServiceServer.request_in)
        × (ServiceServer.get_request services req res os1 ≡ body)
        × (replied ≡ true)
        × (outcome ≡ ServiceClient.response_in)
        × (ServiceClient.get_response clients req res oc2 ≡ answer)
  unfolding ServiceServer.get_request
  bodies_arrive asks tells body answer timeout_msec interval oc os c s tc ts t b con rest out back
        port_c port_s allowed_c allowed_s found_c found_s =
      let h = new_request_header opcode_request interval c in
      let packet = asks.pack h body in
      let reply = tells.pack (answer_header c) answer in
      let r =
        call_answered m pdu conv es ec i j k to_server to_client packet reply interval timeout_msec
          asks.size s c t b con rest out back (asks.code h body) (asks.header h body)
          (asks.read h body) (tells.read (answer_header c) answer) in
      let asked = Client.request (clients.port oc.handle) packet timeout_msec c b in
      let served = ServerPoll.poll (services.port os.service_id) s asked.1 in
      let ts1 =
        insert_or_assign int_eq os.service_id (some served.0)
          (insert_or_assign int_eq os.service_id (some served.0) ts) in
      let done =
        Server.reply_to_current_request (services.port os.service_id) reply served.0 served.1 in
      let told =
        poll_step clients req res conv tells (answer_header c) answer
          (record oc { req_packet = record { header = h; body = body } }) asked.0
          (store clients oc.handle asked.0 (store clients oc.handle c tc)) done.1
          (find_stored clients oc.handle asked.0 (store clients oc.handle c tc))
          (rw (port_c, port_s) r.5) (rw (port_c, port_s) r.6) in
      rw
        (
          request_step clients req res conv asks h body timeout_msec interval oc c tc b found_c
              (allowed_c b) (rw port_c (buffer_of m pdu conv ec i j interval c ∙ asks.written h))
              (rw port_c r.0),
          server_poll_step services req res conv asks h body os s ts asked.1 (allowed_s asked.1)
              found_s (rw (port_c, port_s) r.1) (rw (port_c, port_s) r.2),
          reply_step services req res conv tells (answer_header c) answer
              (record os { req_packet = record { header = h; body = body } }) served.0 ts1 served.1
              (allowed_s served.1)
              (find_assigned os.service_id served.0
                (insert_or_assign int_eq os.service_id (some served.0) ts))
              (rw (port_c, port_s) (r.3 ∙ tells.written (answer_header c)))
              (rw (port_c, port_s) r.4),
        )
        (refl, refl, refl, refl, told.0, told.1)
