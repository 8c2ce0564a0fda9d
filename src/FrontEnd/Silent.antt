-- ===== src/FrontEnd/Silent.antt =====
-- What the server's template makes of failures (include/hako_asset_service_server.hpp).
use hakoniwa_core_pro.Base.{◌<◌, ◌≡◌, refl, true, some, int_eq, is_negative, Option-cases, inl, inr}
use hakoniwa_core_pro.Protocol.{RequestHeader, ResponseHeader}
use hakoniwa_core_pro.Server.{Server, ServerState, ServerEvent, doing, request_in, get_request}
use hakoniwa_core_pro.Server.Poll as ServerPoll
use hakoniwa_core_pro.Server.Moves.{Moves, poll-Turns}
use hakoniwa_core_pro.Polling.{find, insert_or_assign}
use hakoniwa_core_pro.Polling.Servers.{
  Servers, ServicesPort, server_poll, server_get_request, at_id,
}
use hakoniwa_core_pro.FrontEnd.{PduConvertor}
use hakoniwa_core_pro.FrontEnd.ServiceServer.{ServiceServer, poll, receive, event_none}
use hakoniwa_core_pro.FrontEnd.Steps.{find_assigned}

-- A reported request is one in progress.
reported :
    {before after : ServerState} {event : ServerEvent}
    → event ≡ request_in
    → Moves event before after
    → after ≡ doing
reported e (Moves.stays st) = cc
reported e (Moves.ends st) = cc
reported e Moves.starts = refl
reported e Moves.cancels = cc

module _ {W P Q R : Type 0} (services : ServicesPort W P) (req : PduConvertor P RequestHeader Q)
    (res : PduConvertor P ResponseHeader R) where
  -- If the library reports a request whose packet cannot be converted, the poll of the template answers that
  -- there is no event, as if nothing had come; yet the service of the client whose turn it is is in progress.
  pub unreadable_request_stays :
      (o : ServiceServer Q R) (s : Server P) (t : Servers P) (w : W)
      → services.is_rpc_allowed w ≡ true
      → find int_eq o.service_id t ≡ some (some s)
      → (services.port o.service_id).run_generation w ≡ s.run_generation
      → s.current_client_id < s.max_clients
      → (ServerPoll.poll (services.port o.service_id) s w).2 ≡ request_in
      → ((buffer : P)
          → get_request (ServerPoll.poll (services.port o.service_id) s w).0 ≡ some buffer
          → is_negative (req.pdu2cpp buffer o.req_packet).0 ≡ true)
      → let (o', (t', w'), event) = poll services req res o (t, w) in
        (event ≡ event_none)
        × (server : Server P) × (find int_eq o.service_id t' ≡ some (some server))
        × (server.state s.current_client_id ≡ doing)
  unfolding poll receive server_poll server_get_request at_id
  unreadable_request_stays o s t w allowed found run l event unreadable =
      let s' = (ServerPoll.poll (services.port o.service_id) s w).0 in
      let moved = reported event (poll-Turns (services.port o.service_id) s w run l).moves in
      let stored = find_assigned o.service_id s' t in
      let again =
        find_assigned o.service_id s' (insert_or_assign int_eq o.service_id (some s') t) in
      rw (allowed, found, event, stored)
        (elim (Option-cases (get_request s')) [
          | inl nothing ↦ rw nothing (refl, s', again, moved)
          | inr (buffer, got) ↦ rw (got, unreadable buffer got) (refl, s', again, moved)
        ])
