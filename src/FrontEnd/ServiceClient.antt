-- ===== src/FrontEnd/ServiceClient.antt =====
-- HakoAssetServiceClient (include/hako_asset_service_client.hpp)
use hakoniwa_core_pro.Base.{
  ℤ, pos, minus_one, is_negative, int_eq, Bool, true, false, not, ◌||◌, some, if◌then◌else◌, maybe,
  Name,
}
use hakoniwa_core_pro.Protocol.{RequestHeader, ResponseHeader, opcode_request}
use hakoniwa_core_pro.Polling.Clients.{
  Handle, Clients, ClientsPort, client_create, client_get_request_buffer, client_call_request,
  client_poll, client_get_response, client_status, client_cancel_request,
}
use hakoniwa_core_pro.FrontEnd.{CppPacket, PduConvertor}

-- The members of the object, for requests with the body `Q` and responses with the body `R`.
pub record ServiceClient (Q R : Type 0) : Type 0 where
  pub asset_name : Name
  pub service_name : Name
  pub client_name : Name
  pub req_packet : CppPacket RequestHeader Q
  pub res_packet : CppPacket ResponseHeader R
  pub handle : Handle

-- HAKO_SERVICE_CLIENT_API_*
abbrev pub event_none : ℤ
event_none = pos 0

abbrev pub response_in : ℤ
response_in = pos 1

abbrev pub request_timeout : ℤ
request_timeout = pos 2

abbrev pub request_cancel_done : ℤ
request_cancel_done = pos 3

-- The utilities on an event
abbrev pub is_no_event : ℤ → Bool
is_no_event event = int_eq event event_none

abbrev pub is_request_timeout : ℤ → Bool
is_request_timeout event = int_eq event request_timeout

abbrev pub is_request_cancel_done : ℤ → Bool
is_request_cancel_done event = int_eq event request_cancel_done

abbrev pub is_response_in : ℤ → Bool
is_response_in event = int_eq event response_in

module _ {W P Q R : Type 0} (clients : ClientsPort W P) (req : PduConvertor P RequestHeader Q)
    (res : PduConvertor P ResponseHeader R) where
  -- A method on the object and the tables of the library.
  abbrev pub Method : Type 0 → Type 0
  Method A = ServiceClient Q R → Clients P × W → ServiceClient Q R × (Clients P × W) × A

  unfoldable pub initialize : Method Bool
  initialize o s =
      let (s', handle) =
        client_create clients o.asset_name (some o.service_name) (some o.client_name) true s in
      maybe (o, s', false) (λ h. (record o { handle = h }, s', true)) handle

  -- The part of request() on the buffer.
  unfoldable pub send : Q → ℤ → P → Method Bool
  send req_body timeout_msec buffer o s =
      let (read, packet) = req.pdu2cpp buffer o.req_packet in
      if is_negative read
      then (record o { req_packet = packet }, s, false)
      else let filled : CppPacket RequestHeader Q = record packet { body = req_body } in
        let (written, buffer') = req.cpp2pdu filled buffer in
        if is_negative written
        then (record o { req_packet = filled }, s, false)
        else let (s', code) = client_call_request clients (some o.handle) buffer' timeout_msec s in
          (record o { req_packet = filled }, s', not (is_negative code))

  unfoldable pub request : Q → ℤ → ℤ → Method Bool
  request req_body timeout_msec poll_interval_msec o s =
      let (s', buffer) =
        client_get_request_buffer clients (some o.handle) opcode_request poll_interval_msec s in
      maybe (o, s', false) (λ b. send req_body timeout_msec b o s') buffer

  -- The part of poll() on a response.
  unfoldable pub receive : ℤ → Method ℤ
  receive event o s =
      let (s', response) = client_get_response clients (some o.handle) s in
      maybe (o, s', minus_one)
        (λ (header, buffer).
          let (read, packet) = res.pdu2cpp buffer o.res_packet in
          (record o { res_packet = packet }, s', if is_negative read then minus_one else event))
        response

  unfoldable pub poll : Method ℤ
  poll o s =
      let (s', event) = client_poll clients (some o.handle) s in
      if is_negative event
      then (o, s', minus_one)
      else if is_response_in event || is_request_cancel_done event
      then receive event o s'
      else (o, s', event)

  unfoldable pub status : Method ℤ
  status o s =
      let (s', stat) = client_status clients (some o.handle) true s in
      (o, s', maybe minus_one (λ code. code) stat)

  unfoldable pub get_response : ServiceClient Q R → R
  get_response o = o.res_packet.body

  unfoldable pub cancel_request : Method Bool
  cancel_request o s =
      let (s', code) = client_cancel_request clients (some o.handle) s in
      (o, s', not (is_negative code))
