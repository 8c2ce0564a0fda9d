-- ===== src/Tests/FrontEnds.antt =====
-- The templates around the call of Tests/Rpcs: the packets with a number as their body
-- (include/hako_asset_service_client.hpp and include/hako_asset_service_server.hpp).
use hakoniwa_core_pro.Base.{
  ℕ, ℤ, pos, minus_one, ◌≡◌, refl, arith, true, none, some, [], ◌∷◌, int_eq, write, name_eq, first,
  sweep,
}
use hakoniwa_core_pro.Protocol.{RequestHeader, ResponseHeader, empty_request}
use hakoniwa_core_pro.RecvEvent.{get_recv_event, consume}
use hakoniwa_core_pro.RecvEvent.Hooks.{on_pdu_data_write, write_round}
use hakoniwa_core_pro.Service.{is_exist_client_on_service, get_service_id}
use hakoniwa_core_pro.Service.Channels
use hakoniwa_core_pro.Service.Channels.{find_slot, receive}
use hakoniwa_core_pro.Server.{
  Server, doing, reset_if_new_run, recv_packet, validate_header, event_start_service,
  copy_user_buffer,
}
use hakoniwa_core_pro.Server.Poll as ServerPoll
use hakoniwa_core_pro.Polling.{find}
use hakoniwa_core_pro.Polling.Clients.{Handle, Clients, ClientsPort, make_service_client_key}
use hakoniwa_core_pro.Polling.Servers.{Servers, ServicesPort}
use hakoniwa_core_pro.Rpc.Rest.{answer_header}
use hakoniwa_core_pro.Rpc.{Bus, server_port, client_port}
use hakoniwa_core_pro.FrontEnd.{CppPacket, PduConvertor}
use hakoniwa_core_pro.FrontEnd.ServiceClient.{ServiceClient}
use hakoniwa_core_pro.FrontEnd.ServiceClient
use hakoniwa_core_pro.FrontEnd.ServiceServer.{ServiceServer}
use hakoniwa_core_pro.FrontEnd.ServiceServer
use hakoniwa_core_pro.FrontEnd.Steps.{RequestLaws, ResponseLaws}
use hakoniwa_core_pro.FrontEnd.Silent.{unreadable_request_stays}
use hakoniwa_core_pro.FrontEnd.Codes.{ServerSays, server_poll-Says}
use hakoniwa_core_pro.FrontEnd.Bodies.{bodies_arrive}
use hakoniwa_core_pro.Tests.Rpcs.{
  Packet, asks, answers, add, caller, master, Packets, pdu_data, pdu_data-Conveys, watchers, bus,
  endpoint, convertor, server, client, to_server, to_client, sum_wanted, connected, at_rest,
}

-- The conversions of the two kinds of packets; a packet of the other kind is refused.
abbrev read_request : Packet → CppPacket RequestHeader ℕ → ℤ × CppPacket RequestHeader ℕ
read_request (asks header body) old = (pos 32, record { header = header; body = body })
read_request (answers header body) old = (minus_one, old)

abbrev read_response : Packet → CppPacket ResponseHeader ℕ → ℤ × CppPacket ResponseHeader ℕ
read_response (asks header body) old = (minus_one, old)
read_response (answers header body) old = (pos 32, record { header = header; body = body })

abbrev req : PduConvertor Packet RequestHeader ℕ
req = record {
  pdu2cpp = read_request;
  cpp2pdu = λ packet old. (pos 32, asks packet.header packet.body);
}

abbrev res : PduConvertor Packet ResponseHeader ℕ
res = record {
  pdu2cpp = read_response;
  cpp2pdu = λ packet old. (pos 32, answers packet.header packet.body);
}

abbrev request_laws : RequestLaws convertor req
request_laws = record {
  pack = asks;
  blank = 0;
  size = 32;
  written = λ h. refl;
  read = λ h q. refl;
  code = λ h q. refl;
  header = λ h q. refl;
  to_cpp = λ h q old. refl;
  to_pdu = λ h q buffer. refl;
}

abbrev response_laws : ResponseLaws convertor res
response_laws = record {
  pack = answers;
  blank = 0;
  size = 32;
  written = λ h. refl;
  read = λ h r. refl;
  to_cpp = λ h r old. refl;
  to_pdu = λ h r buffer. refl;
}

abbrev handle : Handle
handle = record { service_id = pos 0; client_id = pos 0 }

abbrev clients : ClientsPort (Bus Packets) Packet
clients = record {
  is_rpc_allowed = λ b. true;
  initialize = λ service name asset b. (b, none);
  port = λ h. client_port master pdu_data convertor (endpoint 8) 0 0;
  channel_ids = λ h b. (pos 10, pos 11);
}

abbrev services : ServicesPort (Bus Packets) Packet
services = record {
  is_rpc_allowed = λ b. true;
  initialize = λ service asset b. (b, none);
  port = λ id. server_port master pdu_data convertor (endpoint 7) 0 add;
  channel_ids = λ id j b. (pos 10, pos 11);
}

abbrev request_packet : CppPacket RequestHeader ℕ
request_packet = record { header = empty_request; body = 0 }

abbrev response_packet : CppPacket ResponseHeader ℕ
response_packet = record { header = answer_header client; body = 0 }

abbrev client_object : ServiceClient ℕ ℕ
client_object = record {
  asset_name = 8 ∷ [];
  service_name = add;
  client_name = caller;
  req_packet = request_packet;
  res_packet = response_packet;
  handle = handle;
}

abbrev server_object : ServiceServer ℕ ℕ
server_object = record {
  service_id = pos 0;
  asset_name = 7 ∷ [];
  service_name = add;
  req_packet = request_packet;
  res_packet = response_packet;
}

abbrev client_table : Clients Packet
client_table = record { service_clients = (0, client) ∷ []; by_service_id = [] }

abbrev server_table : Servers Packet
server_table = (pos 0, some server) ∷ []

-- 20 is sent, and 22 comes back.
bodies_arrive_example :
    let (oc1, (tc1, b1), sent) =
      ServiceClient.request clients req res 20
        (pos 100)
        minus_one
        client_object
        (client_table, bus) in
    let (os1, (ts1, b2), event) =
      ServiceServer.poll services req res server_object (server_table, b1) in
    let (os2, (ts2, b3), replied) = ServiceServer.normal_reply services req res 22 os1 (ts1, b2) in
    let (oc2, (tc2, b4), outcome) = ServiceClient.poll clients req res oc1 (tc1, b3) in
    (sent ≡ true)
    × (event ≡ ServiceServer.request_in)
    × (ServiceServer.get_request services req res os1 ≡ 20)
    × (replied ≡ true)
    × (outcome ≡ ServiceClient.response_in)
    × (ServiceClient.get_response clients req res oc2 ≡ 22)
unfolding find make_service_client_key
bodies_arrive_example =
    bodies_arrive master pdu_data convertor (endpoint 7) (endpoint 8) 0 0 (0, 0) to_server to_client
      clients services req res request_laws response_laws 20 22 (pos 100) minus_one client_object
      server_object client server client_table server_table watchers bus connected at_rest
      (pdu_data-Conveys 10) (pdu_data-Conveys 11) refl refl (λ b. refl) (λ b. refl) refl refl

-- The server's object when its converter refuses every packet, and the request of Tests/Rpcs has been sent.
abbrev refusing : PduConvertor Packet RequestHeader ℕ
refusing = record {
  pdu2cpp = λ buffer old. (minus_one, old);
  cpp2pdu = λ packet old. (minus_one, old);
}

abbrev asked_bus : Bus Packets
asked_bus = record bus {
  recv_event_table = (on_pdu_data_write 10 (some watchers)).0;
  pdu_data = write (λ real. none) 10 (some sum_wanted);
}

unreadable_request_stays_example :
    let (o', (t', b'), event) =
      ServiceServer.poll services refusing res server_object (server_table, asked_bus) in
    (event ≡ ServiceServer.event_none)
    × (s : Server Packet) × (find int_eq (pos 0) t' ≡ some (some s))
    × (s.state 0 ≡ doing)
unfolding find server_port ServerPoll.poll ServerPoll.poll_packet ServerPoll.poll_valid
    reset_if_new_run recv_packet validate_header is_exist_client_on_service get_service_id name_eq
    first Channels.get_request find_slot receive get_recv_event consume on_pdu_data_write sweep
    write_round event_start_service copy_user_buffer
unreadable_request_stays_example =
    unreadable_request_stays services refusing res server_object server server_table asked_bus refl
      refl refl (omega arith) refl (λ buffer got. refl)

server_poll-Says_example :
    ServerSays services req res server_object server_table asked_bus
      (ServiceServer.poll services req res server_object (server_table, asked_bus)).2
server_poll-Says_example = server_poll-Says services req res server_object server_table asked_bus
