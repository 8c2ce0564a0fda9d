-- ===== src/Rpc/Rest.antt =====
-- When a server and a client that talk over shared memory are at rest, and what such a state has
-- (sources/core/src/service/hako_service_protocol_client.cpp, hako_service_protocol_server.cpp).
use hakoniwa_core_pro.Base.{ℕ, ℤ, ◌<◌, ◌≡◌, ◌≢◌, refl, arith, Bool, true, some, pos, name_eq_self}
use hakoniwa_core_pro.Protocol.{
  done_status, ok_code, RequestHeader, ResponseHeader, status_num, result_num,
}
use hakoniwa_core_pro.RecvEvent.{Table, Master}
use hakoniwa_core_pro.Service.{is_exist_client_on_service}
use hakoniwa_core_pro.Service.Channels.{find_slot, request_channel, response_channel}
use hakoniwa_core_pro.Server.{ServerPort, Server, idle, doing, get_state, get_request}
use hakoniwa_core_pro.Client.{ClientPort, Client, new_request_header}
use hakoniwa_core_pro.Client
use hakoniwa_core_pro.Rpc.{Bus, Process, Endpoint, view, get_client_name}
use hakoniwa_core_pro.Rpc.Steps.{accepted, answered}
use hakoniwa_core_pro.Rpc.Wires.{Line, with_packet, looked_up}

-- Where a packet goes: its channel, and the entry of its reader.
pub record Route : Type 0 where
  pub real : ℕ
  pub event : ℕ

-- Slot `j` of service `i`, between the processes of the two ends: its channels are different and known to
-- the PDU data, each watched by its reader, and nothing is on its way on them.
pub record Connected {W : Type 0} (m : Master) (es ec : Endpoint) (i j : ℕ) (k : ℕ × ℕ)
    (req res : Route) (t : Table) (b : Bus W) : Type 0 where
  pub table : b.recv_event_table ≡ some t
  pub found : find_slot (pos i) (pos j) true (view es.process b) ≡ some k
  pub request_at : request_channel m (view es.process b) k ≡ some req.real
  pub response_at : response_channel m (view es.process b) k ≡ some res.real
  pub apart : req.real ≢ res.real
  pub requests : Line m req.real es.process.pid req.event t
  pub responses : Line m res.real ec.process.pid res.event t
  pub sizes :
      (0 < ec.request_pdu_size)
      × (0 < es.request_pdu_size)
      × (0 < es.response_pdu_size)
      × (0 < ec.response_pdu_size)

-- A server and a client of the service in the run that the memory shows, both idle, when it is the turn of
-- this client, whose name is in its slot.
pub record AtRest {W P : Type 0} (es : Endpoint) (i j : ℕ) (s : Server P) (c : Client P) (b : Bus W)
    : Type 0 where
  pub server_run : b.run_generation ≡ s.run_generation
  pub client_run : b.run_generation ≡ c.run_generation
  pub turn : s.current_client_id ≡ j
  pub in_range : j < s.max_clients
  pub server_idle : get_state s ≡ idle
  pub client_idle : c.state ≡ Client.idle
  pub same_service : c.service_name ≡ s.service_name
  pub same_client : get_client_name i j (view es.process b) ≡ c.client_name
  pub is_known :
      (is_exist_client_on_service s.service_name c.client_name (view es.process b)).1 ≡ true

-- The memory after the server's turn.
abbrev pub served : {W P : Type 0} → Endpoint → Server P → Client P → Table → W → Bus W → Bus W
served es s c t w b = looked_up es.process s.service_name c.client_name (with_packet t w b)

-- The header of the answer to the client's current request.
abbrev pub answer_header : {P : Type 0} → Client P → ResponseHeader
answer_header c = record {
  request_id = c.request_id;
  service_name = c.service_name;
  client_name = c.client_name;
  status = status_num done_status;
  processing_percentage = 0;
  result_code = result_num ok_code;
}

pub find_slot-memory :
    {W : Type 0} (sid cid : ℤ) (v : Bool) (c d : Process) (b b' : Bus W)
    → b.service_table ≡ b'.service_table
    → find_slot sid cid v (view c b) ≡ find_slot sid cid v (view d b')
unfolding find_slot
find_slot-memory sid cid v c d b b' e = rw e refl

pub accepted-doing :
    {W P : Type 0} (port : ServerPort W P) (header : RequestHeader) (packet : P) (s : Server P)
    → get_state (accepted port header packet s) ≡ doing
accepted-doing port header packet s = ground arith

pub accepted-request :
    {W P : Type 0} (port : ServerPort W P) (header : RequestHeader) (packet : P) (s : Server P)
    → get_request (accepted port header packet s) ≡ some packet
unfolding get_request
accepted-request port header packet s = rw (accepted-doing port header packet s) refl

pub answered-idle :
    {W P : Type 0} (port : ServerPort W P) (j : ℕ) (s : Server P)
    → s.current_client_id ≡ j
    → (answered port s).state j ≡ idle
answered-idle port j s turn = ground (arith, turn)

pub answer-valid :
    {P : Type 0} (c d : Client P)
    → d.service_name ≡ c.service_name
    → d.client_name ≡ c.client_name
    → Client.validate_header (answer_header c) d ≡ true
unfolding Client.validate_header
answer-valid c d service client =
    rw (service, client, name_eq_self c.service_name, name_eq_self c.client_name) refl
