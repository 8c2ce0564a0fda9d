-- ===== src/Rpc.antt =====
-- A server and a client of one service on the memory that they share: how HakoServiceServer and
-- HakoServiceClient call HakoProData (sources/core/src/service/hako_service_impl_server.cpp and
-- hako_service_impl_client.cpp). The ports of the modules Server and Client, which are parameters there, are
-- the calls of the module Service.Channels here; the PDU data of hakoniwa-core-cpp and the packet
-- converters stay parameters.
pub mod Wires
pub mod Steps
pub mod Rest
pub mod Turns
pub mod Answered
use hakoniwa_core_pro.Base.{
  ℕ, ℤ, pos, Bool, true, false, maybe, [], Option, none, some, List, Name, Array, write,
}
use hakoniwa_core_pro.RecvEvent.{Table, Master}
use hakoniwa_core_pro.Service.{ServiceTable, ServiceConfig, ProData, is_exist_client_on_service}
use hakoniwa_core_pro.Service.Channels.{
  PduData, get_request, put_response, put_request, get_response,
}
use hakoniwa_core_pro.Protocol.{RequestHeader, ResponseHeader}
use hakoniwa_core_pro.Server.{ServerPort}
use hakoniwa_core_pro.Client.{ClientPort}

-- The shared memory, and the index of names that each process has for itself.
pub record Bus (W : Type 0) : Type 0 where
  pub recv_event_table : Option Table
  pub service_table : Option ServiceTable
  pub run_generation : ℕ
  pub world_time_usec : ℕ
  pub index : Array (Name → Option ℕ)
  pub pdu_data : W

-- A process that serves or calls: its id, the id of its asset, and its parsed configuration.
pub record Process : Type 0 where
  pub pid : ℕ
  pub asset_id : Option ℕ
  pub services : List ServiceConfig

-- What HakoServiceServer::initialize and HakoServiceClient::initialize have set, besides the state.
pub record Endpoint : Type 0 where
  pub process : Process
  pub request_pdu_size : ℕ
  pub response_pdu_size : ℕ

-- The converters of hakoniwa-pdu-registry, on the header of a packet.
pub record Convertor (P : Type 0) : Type 0 where
  pub request_of : P → Option RequestHeader
  pub request_code : P → ℤ
  pub request_header : P → RequestHeader
  pub response_of : P → Option ResponseHeader
  pub write_request : RequestHeader → Option P
  pub write_response : ResponseHeader → Option P

abbrev pub view : {W : Type 0} → Process → Bus W → ProData
view c b = record {
  recv_event_table = b.recv_event_table;
  service_table = b.service_table;
  services = c.services;
  service_name_to_id = b.index c.pid;
}

-- What a call of the process leaves in the memory.
abbrev pub store : {W : Type 0} → Process → ProData → W → Bus W → Bus W
store c p w b = record b {
  recv_event_table = p.recv_event_table;
  service_table = p.service_table;
  index = write b.index c.pid p.service_name_to_id;
  pdu_data = w;
}

abbrev pub is_done : Option (Unit {0}) → Bool
is_done answer = maybe false (λ u. true) answer

-- HakoProData::get_client_name
unfoldable pub get_client_name : ℕ → ℕ → ProData → Name
get_client_name service_id client_id p =
    maybe [] (λ st. ((st.entries service_id).client_channel_map client_id).client_name)
      p.service_table

module _ {W P : Type 0} (m : Master) (pdu : PduData W P) (conv : Convertor P) where
  -- HakoServiceServer on HakoProData, for the service of the given name
  unfoldable pub server_port : Endpoint → ℕ → Name → ServerPort (Bus W) P
  server_port e service_id service_name = record {
    has_pro_data = λ b. true;
    run_generation = λ b. b.run_generation;
    world_time_usec = λ b. b.world_time_usec;
    get_request = λ client b.
        let (p, w, packet) =
          get_request m pdu e.process.pid e.process.asset_id (pos service_id) (pos client)
            (some e.request_pdu_size) (view e.process b) b.pdu_data in
        (store e.process p w b, packet);
    put_response = λ client packet b.
        let (p, w, answer) =
          put_response m pdu (pos service_id) (pos client) (some packet) e.response_pdu_size
            (view e.process b) b.pdu_data in
        (store e.process p w b, is_done answer);
    is_exist_client = λ client_name b.
        let (p, known) = is_exist_client_on_service service_name client_name (view e.process b) in
        (store e.process p b.pdu_data b, known);
    client_name = λ client b. get_client_name service_id client (view e.process b);
    pdu2cpp = conv.request_of;
    cpp2pdu = conv.write_response;
  }

  -- HakoServiceClient on HakoProData
  unfoldable pub client_port : Endpoint → ℕ → ℕ → ClientPort (Bus W) P
  client_port e service_id client_id = record {
    has_pro_data = λ b. true;
    run_generation = λ b. b.run_generation;
    world_time_usec = λ b. b.world_time_usec;
    put_request = λ packet b.
        let (p, w, answer) =
          put_request m pdu (pos service_id) (pos client_id) (some packet) e.request_pdu_size
            (view e.process b) b.pdu_data in
        (store e.process p w b, is_done answer);
    get_response = λ b.
        let (p, w, packet) =
          get_response m pdu e.process.pid e.process.asset_id (pos service_id) (pos client_id)
            (some e.response_pdu_size) (view e.process b) b.pdu_data in
        (store e.process p w b, packet);
    read_request = λ packet. (conv.request_code packet, conv.request_header packet);
    read_response = conv.response_of;
    write_request = conv.write_request;
  }
