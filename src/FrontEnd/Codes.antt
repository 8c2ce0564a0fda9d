-- ===== src/FrontEnd/Codes.antt =====
-- The results of the poll of a server (include/hako_asset_service_server.hpp).
use hakoniwa_core_pro.Base.{
  ◌≡◌, ◌⊎◌, pos, true, false, maybe_cases, if_cases, inl, inr, refl, ℤ, minus_one, is_negative,
  int_eq, if_intro, Option-cases, none, some,
}
use hakoniwa_core_pro.Protocol.{RequestHeader, ResponseHeader}
use hakoniwa_core_pro.Server.{Server, ServerEvent}
use hakoniwa_core_pro.Server
use hakoniwa_core_pro.Server.Poll as ServerPoll
use hakoniwa_core_pro.Polling.{find}
use hakoniwa_core_pro.Polling.Servers
use hakoniwa_core_pro.Polling.Servers.{
  Servers, ServicesPort, server_poll, server_get_request, at_id,
}
use hakoniwa_core_pro.FrontEnd.{PduConvertor}
use hakoniwa_core_pro.FrontEnd.ServiceServer.{ServiceServer}
use hakoniwa_core_pro.FrontEnd.ServiceServer

module _ {W P Q R : Type 0} (services : ServicesPort W P) (req : PduConvertor P RequestHeader Q)
    (res : PduConvertor P ResponseHeader R) where
  -- The object of a server that a poll of the library finds, with the event that its poll comes to.
  pub record ServerPolled (id : ℤ) (t : Servers P) (w : W) (event : ServerEvent) : Type 0 where
    pub server : Server P
    pub known : find int_eq id t ≡ some (some server)
    pub polled : (ServerPoll.poll (services.port id) server w).2 ≡ event

  -- The library has a request that the template can read.
  abbrev pub Readable : ServiceServer Q R → Servers P × W → Type 0
  Readable o s =
      (buffer : P) × ((server_get_request services o.service_id s).1 ≡ some buffer)
      × (is_negative (req.pdu2cpp buffer o.req_packet).0 ≡ false)

  -- What a number that the template returns says: 1 for a request that can be read, 2 for a cancellation, and 0
  -- for everything else.
  pub data ServerSays (o : ServiceServer Q R) (t : Servers P) (w : W) : ℤ → Type 0 where
    fails : (server_poll services o.service_id (t, w)).1 ≡ minus_one → ServerSays o t w (pos 0)
    nothing : ServerPolled o.service_id t w Server.no_event → ServerSays o t w (pos 0)
    cancels : ServerPolled o.service_id t w Server.request_cancel → ServerSays o t w (pos 2)
    requests :
        ServerPolled o.service_id t w Server.request_in
        → Readable o (server_poll services o.service_id (t, w)).0
        → ServerSays o t w (pos 1)
    unreadable :
        ServerPolled o.service_id t w Server.request_in
        → ¬ Readable o (server_poll services o.service_id (t, w)).0
        → ServerSays o t w (pos 0)

  server_poll-code :
      (id : ℤ) (t : Servers P) (w : W)
      → ((server_poll services id (t, w)).1 ≡ minus_one)
        ⊎ ((event : ServerEvent) × ServerPolled id t w event
            × ((server_poll services id (t, w)).1 ≡ Servers.event_code event))
  unfolding server_poll at_id
  server_poll-code id t w =
      if_intro
        (λ (r : (Servers P × W) × ℤ).
          (r.1 ≡ minus_one)
          ⊎ ((event : ServerEvent) × ServerPolled id t w event × (r.1 ≡ Servers.event_code event)))
        (services.is_rpc_allowed w)
        (elim (Option-cases (find int_eq id t)) [
          | inl missing ↦ rw missing (inl refl)
          | inr (none, null) ↦ rw null (inl refl)
          | inr (some server, found) ↦
              let polled = (ServerPoll.poll (services.port id) server w).2 in
              let p : ServerPolled id t w polled = record {
                server = server;
                known = found;
                polled = refl;
              } in
              rw found (inr (polled, p, refl))
        ])
        (inl refl)

  -- What each number says that the poll of the server's template returns: 1 that a request has come in at this poll and can be read; 2 that
  -- one has been cancelled; and 0 that the library fails, that there is no event, or that a request has come in that cannot be got or cannot be read. It returns no other number.
  pub server_poll-Says :
      (o : ServiceServer Q R) (t : Servers P) (w : W)
      → ServerSays o t w (ServiceServer.poll services req res o (t, w)).2
  unfolding ServiceServer.poll ServiceServer.receive
  server_poll-Says o t w = elim (server_poll-code o.service_id t w) [
    | inl failed ↦ rw failed (fails failed)
    | inr (Server.no_event, p, e) ↦ rw e (nothing p)
    | inr (Server.request_cancel, p, e) ↦ rw e (cancels p)
    | inr (Server.request_in, p, e) ↦ rw e (
        maybe_cases (λ (r : ServiceServer Q R × (Servers P × W) × ℤ). ServerSays o t w r.2)
          (server_get_request services o.service_id (server_poll services o.service_id (t, w)).0).1
          (λ missing. unreadable p (λ (b, got, read). cc))
          (λ buffer here.
            if_cases (ServerSays o t w) (is_negative (req.pdu2cpp buffer o.req_packet).0)
              (λ bad. unreadable p (λ (b, got, read). bad_buffer b buffer bad got here read))
              (λ good. requests p (buffer, here, good))))
  ]
    where
      bad_buffer :
          (b buffer : P)
          → is_negative (req.pdu2cpp buffer o.req_packet).0 ≡ true
          → (server_get_request services o.service_id
              (server_poll services o.service_id (t, w)).0).1
            ≡ some b
          → (server_get_request services o.service_id
              (server_poll services o.service_id (t, w)).0).1
            ≡ some buffer
          → is_negative (req.pdu2cpp b o.req_packet).0 ≡ false
          → ⊥
      bad_buffer b buffer bad got here read = cc
