-- ===== src/FrontEnd/Steps.antt =====
-- What a method of the templates does when every call below it goes well
-- (include/hako_asset_service_client.hpp and include/hako_asset_service_server.hpp,
-- sources/assets/polling/src/hako_asset_service_client.cpp and hako_asset_service_server.cpp).
use hakoniwa_core_pro.Base.{
  ℕ, ℤ, pos, ◌≡◌, refl, arith, true, some, int_eq, int_eq_self, int_eq_sound, ◌==◌,
}
use hakoniwa_core_pro.Protocol.{RequestHeader, ResponseHeader, opcode_request, done_status, ok_code}
use hakoniwa_core_pro.Rpc.{Convertor}
use hakoniwa_core_pro.Server.{Server}
use hakoniwa_core_pro.Server
use hakoniwa_core_pro.Server.Poll as ServerPoll
use hakoniwa_core_pro.Client.{Client}
use hakoniwa_core_pro.Client
use hakoniwa_core_pro.Client.Poll as ClientPoll
use hakoniwa_core_pro.Polling.{find, insert_or_assign, find-insert_or_assign}
use hakoniwa_core_pro.Polling.Clients.{
  Clients, ClientsPort, Handle, key_of, store, client_get_request_buffer, client_call_request,
  client_poll, client_get_response,
}
use hakoniwa_core_pro.Polling.Servers.{
  Servers, ServicesPort, server_poll, server_get_request, server_get_response_buffer,
  server_put_response, at_id,
}
use hakoniwa_core_pro.FrontEnd.{CppPacket, PduConvertor}
use hakoniwa_core_pro.FrontEnd.ServiceClient.{ServiceClient}
use hakoniwa_core_pro.FrontEnd.ServiceClient
use hakoniwa_core_pro.FrontEnd.ServiceServer.{ServiceServer}
use hakoniwa_core_pro.FrontEnd.ServiceServer

-- What is relied on of the converters: a packet is its header with its body, which can be exchanged, and a
-- buffer with a new header has some body.
pub record RequestLaws {P Q : Type 0} (conv : Convertor P) (req : PduConvertor P RequestHeader Q)
    : Type 0 where
  pub pack : RequestHeader → Q → P
  pub blank : Q
  pub size : ℕ
  pub written : (h : RequestHeader) → conv.write_request h ≡ some (pack h blank)
  pub read : (h : RequestHeader) (q : Q) → conv.request_of (pack h q) ≡ some h
  pub code : (h : RequestHeader) (q : Q) → conv.request_code (pack h q) ≡ pos size
  pub header : (h : RequestHeader) (q : Q) → conv.request_header (pack h q) ≡ h
  pub to_cpp :
      (h : RequestHeader) (q : Q) (old : CppPacket RequestHeader Q)
      → req.pdu2cpp (pack h q) old ≡ (pos size, record { header = h; body = q })
  pub to_pdu :
      (h : RequestHeader) (q : Q) (buffer : P)
      → req.cpp2pdu (record { header = h; body = q }) buffer ≡ (pos size, pack h q)

pub record ResponseLaws {P R : Type 0} (conv : Convertor P) (res : PduConvertor P ResponseHeader R)
    : Type 0 where
  pub pack : ResponseHeader → R → P
  pub blank : R
  pub size : ℕ
  pub written : (h : ResponseHeader) → conv.write_response h ≡ some (pack h blank)
  pub read : (h : ResponseHeader) (r : R) → conv.response_of (pack h r) ≡ some h
  pub to_cpp :
      (h : ResponseHeader) (r : R) (old : CppPacket ResponseHeader R)
      → res.pdu2cpp (pack h r) old ≡ (pos size, record { header = h; body = r })
  pub to_pdu :
      (h : ResponseHeader) (r : R) (buffer : P)
      → res.cpp2pdu (record { header = h; body = r }) buffer ≡ (pos size, pack h r)

pub find_stored :
    {W P : Type 0} (clients : ClientsPort W P) (h : Handle) (c : Client P) (t : Clients P)
    → find (λ a b. a == b) (key_of h) (store clients h c t).service_clients ≡ some c
find_stored clients h c t =
    find-insert_or_assign (λ a b. a == b) (λ k. ground arith) (λ j k e. ground arith) (key_of h) c
      t.service_clients

pub find_assigned :
    {P : Type 0} (id : ℤ) (s : Server P) (t : Servers P)
    → find int_eq id (insert_or_assign int_eq id (some s) t) ≡ some (some s)
find_assigned id s t = find-insert_or_assign int_eq int_eq_self int_eq_sound id (some s) t

module _ {W P Q R : Type 0} (clients : ClientsPort W P) (req : PduConvertor P RequestHeader Q)
    (res : PduConvertor P ResponseHeader R) (conv : Convertor P) where
  pub request_step :
      (laws : RequestLaws conv req) (h : RequestHeader) (body : Q) (timeout_msec interval : ℤ)
      (o : ServiceClient Q R) (c : Client P) (t : Clients P) (w : W)
      → find (λ a b. a == b) (key_of o.handle) t.service_clients ≡ some c
      → clients.is_rpc_allowed w ≡ true
      → Client.get_request_buffer (clients.port o.handle) opcode_request interval c
        ≡ some (laws.pack h laws.blank)
      → (Client.request (clients.port o.handle) (laws.pack h body) timeout_msec c w).2 ≡ true
      → ServiceClient.request clients req res body timeout_msec interval o (t, w) ≡ (
        record o { req_packet = record { header = h; body = body } },
        (
          store clients o.handle
              (Client.request (clients.port o.handle) (laws.pack h body) timeout_msec c w).0
              (store clients o.handle c t),
          (Client.request (clients.port o.handle) (laws.pack h body) timeout_msec c w).1,
        ),
        true,
      )
  unfolding ServiceClient.request ServiceClient.send client_get_request_buffer client_call_request
  request_step laws h body timeout_msec interval o c t w found allowed buffer sent =
      rw
        (
          found,
          buffer,
          laws.to_cpp h laws.blank o.req_packet,
          laws.to_pdu h body (laws.pack h laws.blank),
          allowed,
          find_stored clients o.handle c t,
          sent,
        )
        refl

  pub poll_step :
      (laws : ResponseLaws conv res) (h : ResponseHeader) (body : R) (o : ServiceClient Q R)
      (c : Client P) (t : Clients P) (w : W)
      → find (λ a b. a == b) (key_of o.handle) t.service_clients ≡ some c
      → (ClientPoll.poll (clients.port o.handle) c w).2 ≡ Client.response_in
      → (ClientPoll.poll (clients.port o.handle) c w).0.response ≡ some (h, laws.pack h body)
      → let r = ServiceClient.poll clients req res o (t, w) in
        (r.2 ≡ ServiceClient.response_in) × (ServiceClient.get_response clients req res r.0 ≡ body)
  unfolding ServiceClient.poll ServiceClient.receive ServiceClient.get_response client_poll
      client_get_response
  poll_step laws h body o c t w found event response =
      rw
        (
          found,
          event,
          find_stored clients o.handle (ClientPoll.poll (clients.port o.handle) c w).0 t,
          response,
          laws.to_cpp h body o.res_packet,
        )
        (refl, refl)

module _ {W P Q R : Type 0} (services : ServicesPort W P) (req : PduConvertor P RequestHeader Q)
    (res : PduConvertor P ResponseHeader R) (conv : Convertor P) where
  pub server_poll_step :
      (laws : RequestLaws conv req) (h : RequestHeader) (body : Q) (o : ServiceServer Q R)
      (s : Server P) (t : Servers P) (w : W)
      → services.is_rpc_allowed w ≡ true
      → find int_eq o.service_id t ≡ some (some s)
      → (ServerPoll.poll (services.port o.service_id) s w).2 ≡ Server.request_in
      → Server.get_request (ServerPoll.poll (services.port o.service_id) s w).0
        ≡ some (laws.pack h body)
      → let r = ServerPoll.poll (services.port o.service_id) s w in
        ServiceServer.poll services req res o (t, w) ≡ (
          record o { req_packet = record { header = h; body = body } },
          (
            insert_or_assign int_eq o.service_id
                (some r.0)
                (insert_or_assign int_eq o.service_id (some r.0) t),
            r.1,
          ),
          ServiceServer.request_in,
        )
  unfolding ServiceServer.poll ServiceServer.receive server_poll server_get_request at_id
  server_poll_step laws h body o s t w allowed found event request =
      rw
        (
          allowed,
          found,
          event,
          find_assigned o.service_id (ServerPoll.poll (services.port o.service_id) s w).0 t,
          request,
          laws.to_cpp h body o.req_packet,
        )
        refl

  pub reply_step :
      (laws : ResponseLaws conv res) (h : ResponseHeader) (body : R) (o : ServiceServer Q R)
      (s : Server P) (t : Servers P) (w : W)
      → services.is_rpc_allowed w ≡ true
      → find int_eq o.service_id t ≡ some (some s)
      → Server.get_response_buffer (services.port o.service_id) done_status ok_code s w
        ≡ some (laws.pack h laws.blank)
      → let r =
          Server.reply_to_current_request (services.port o.service_id) (laws.pack h body) s w in
        r.2 ≡ true
        → ServiceServer.normal_reply services req res body o (t, w) ≡ (
          record o { res_packet = record { header = h; body = body } },
          (
            insert_or_assign int_eq o.service_id
                (some r.0)
                (insert_or_assign int_eq o.service_id (some s) t),
            r.1,
          ),
          true,
        )
  unfolding ServiceServer.normal_reply ServiceServer.reply ServiceServer.send
      server_get_response_buffer server_put_response at_id
  reply_step laws h body o s t w allowed found buffer replied =
      rw
        (
          found,
          buffer,
          laws.to_cpp h laws.blank o.res_packet,
          laws.to_pdu h body (laws.pack h laws.blank),
          allowed,
          find_assigned o.service_id s t,
          replied,
        )
        refl
