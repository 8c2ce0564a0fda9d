-- ===== src/FrontEnd/ServiceServer.antt =====
-- HakoAssetServiceServer (include/hako_asset_service_server.hpp)
use hakoniwa_core_pro.Base.{
  ℤ, pos, is_negative, int_eq, Bool, false, not, some, if◌then◌else◌, maybe, Name,
}
use hakoniwa_core_pro.RuntimeError.{Outcome, result, crash}
use hakoniwa_core_pro.Protocol.{
  RequestHeader, ResponseHeader, ResultCode, done_status, ok_code, canceled_code,
}
use hakoniwa_core_pro.Polling.Servers.{
  Servers, ServicesPort, server_create, server_poll, server_get_request, server_get_response_buffer,
  server_put_response,
}
use hakoniwa_core_pro.FrontEnd.{CppPacket, PduConvertor}

-- The members of the object, for requests with the body `Q` and responses with the body `R`.
pub record ServiceServer (Q R : Type 0) : Type 0 where
  pub service_id : ℤ
  pub asset_name : Name
  pub service_name : Name
  pub req_packet : CppPacket RequestHeader Q
  pub res_packet : CppPacket ResponseHeader R

-- HAKO_SERVICE_SERVER_API_*
abbrev pub event_none : ℤ
event_none = pos 0

abbrev pub request_in : ℤ
request_in = pos 1

abbrev pub request_cancel : ℤ
request_cancel = pos 2

abbrev pub is_no_event : ℤ → Bool
is_no_event event = int_eq event event_none

abbrev pub is_request_in : ℤ → Bool
is_request_in event = int_eq event request_in

abbrev pub is_request_cancel : ℤ → Bool
is_request_cancel event = int_eq event request_cancel

module _ {W P Q R : Type 0} (services : ServicesPort W P) (req : PduConvertor P RequestHeader Q)
    (res : PduConvertor P ResponseHeader R) where
  -- A method on the object and the table of the library.
  abbrev pub Method : Type 0 → Type 0
  Method A = ServiceServer Q R → Servers P × W → ServiceServer Q R × (Servers P × W) × A

  -- `service_id_` is set to the result, also to a negative one.
  abbrev pub created :
      Outcome ℤ
      → Servers P × W
      → ServiceServer Q R
      → Outcome (ServiceServer Q R × (Servers P × W) × Bool)
  created crash s o = crash
  created (result id) s o = result (record o { service_id = id }, s, not (is_negative id))

  unfoldable pub initialize :
      ServiceServer Q R → Servers P × W → Outcome (ServiceServer Q R × (Servers P × W) × Bool)
  initialize o s =
      let (s', made) = server_create services o.asset_name o.service_name s in created made s' o

  -- `return false` in a function that returns an int
  abbrev pub int_false : ℤ
  int_false = pos 0

  -- The part of poll() on a request.
  unfoldable pub receive : Method ℤ
  receive o s =
      let (s', buffer) = server_get_request services o.service_id s in
      maybe (o, s', int_false)
        (λ b.
          let (read, packet) = req.pdu2cpp b o.req_packet in
          (
            record o { req_packet = packet },
            s',
            if is_negative read then int_false else request_in,
          ))
        buffer

  unfoldable pub poll : Method ℤ
  poll o s =
      let (s', event) = server_poll services o.service_id s in
      if is_negative event
      then (o, s', int_false)
      else if is_request_in event
      then receive o s'
      else (o, s', event)

  unfoldable pub get_request : ServiceServer Q R → Q
  get_request o = o.req_packet.body

  -- The part of reply() on the buffer.
  unfoldable pub send : R → P → Method Bool
  send res_body buffer o s =
      let (read, packet) = res.pdu2cpp buffer o.res_packet in
      if is_negative read
      then (record o { res_packet = packet }, s, false)
      else let filled : CppPacket ResponseHeader R = record packet { body = res_body } in
        let (written, buffer') = res.cpp2pdu filled buffer in
        if is_negative written
        then (record o { res_packet = filled }, s, false)
        else let (s', code) = server_put_response services o.service_id (some buffer') s in
          (record o { res_packet = filled }, s', not (is_negative code))

  unfoldable pub reply : R → ResultCode → Method Bool
  reply res_body result_code o s =
      let (s', buffer) =
        server_get_response_buffer services o.service_id done_status result_code s in
      maybe (o, s', false) (λ b. send res_body b o s') buffer

  unfoldable pub normal_reply : R → Method Bool
  normal_reply res_body = reply res_body ok_code

  unfoldable pub cancel_reply : R → Method Bool
  cancel_reply res_body = reply res_body canceled_code
