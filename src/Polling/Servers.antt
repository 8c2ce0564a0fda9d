-- ===== src/Polling/Servers.antt =====
-- sources/assets/polling/src/hako_asset_service_server.cpp
use hakoniwa_core_pro.Base.{
  ℕ, ℤ, pos, minus_one, is_negative, int_eq, Bool, Option, none, some, List, [], ◌∷◌, if◌then◌else◌,
  maybe, Name, name_eq,
}
use hakoniwa_core_pro.RuntimeError.{Outcome, result, crash}
use hakoniwa_core_pro.Protocol.{Status, ResultCode}
use hakoniwa_core_pro.Server.{
  ServerPort, Server, ServerState, idle, doing, canceling, ServerEvent, no_event, request_in,
  request_cancel, get_state, get_request, put_progress, get_response_buffer,
  reply_to_current_request,
}
use hakoniwa_core_pro.Server.Poll.{poll}
use hakoniwa_core_pro.Polling.{find, insert_or_assign}

-- service_servers; an entry may be a null pointer.
abbrev pub Servers : Type 0 → Type 0
Servers P = List (ℤ × Option (Server P))

-- What the functions call: is_rpc_allowed of HakoProData; a server object once its initialize has run, with the
-- service id, where that succeeds; the port of each service; the PDU channel ids of a client of a service.
pub record ServicesPort (W P : Type 0) : Type 0 where
  pub is_rpc_allowed : W → Bool
  pub initialize : Name → Name → W → W × Option (ℤ × Server P)
  pub port : ℤ → ServerPort W P
  pub channel_ids : ℤ → ℕ → W → ℤ × ℤ

abbrev pub event_code : ServerEvent → ℤ
event_code no_event = pos 0
event_code request_in = pos 1
event_code request_cancel = pos 2

abbrev pub state_code : ServerState → ℤ
state_code idle = pos 0
state_code doing = pos 1
state_code canceling = pos 2

module _ {W P : Type 0} (services : ServicesPort W P) where
  abbrev pub St : Type 0
  St = Servers P × W

  -- The loop over all entries in hako_asset_service_server_create: the id of the service, if it is there; it
  -- dereferences each pointer that it meets.
  unfoldable pub find_service : Name → Servers P → Outcome (Option ℤ)
  find_service name [] = result none
  find_service name ((id, none) ∷ rest) = crash
  find_service name ((id, some server) ∷ rest) =
      let later = find_service name rest in
      if name_eq server.service_name name then result (some id) else later

  -- hako_asset_service_server_create, after its loop
  unfoldable pub create_unless : Outcome (Option ℤ) → Name → Name → St → St × Outcome ℤ
  create_unless crash asset_name service_name s = (s, crash)
  create_unless (result (some id)) asset_name service_name s = (s, result id)
  create_unless (result none) asset_name service_name (t, w) =
      let (w', made) = services.initialize service_name asset_name w in
      maybe ((t, w'), result minus_one)
        (λ (id, server).
          if is_negative id
          then ((t, w'), result minus_one)
          else ((insert_or_assign int_eq id (some server) t, w'), result id))
        made

  unfoldable pub server_create : Name → Name → St → St × Outcome ℤ
  server_create asset_name service_name (t, w) =
      create_unless (find_service service_name t) asset_name service_name (t, w)

  -- `service_servers[service_id]`: a null pointer is inserted for an id that is not there.
  unfoldable pub at_id : ℤ → Servers P → Servers P × Option (Server P)
  at_id id t = maybe ((id, none) ∷ t, none) (λ entry. (t, entry)) (find int_eq id t)

  -- The functions that use the server of an id; -1 without one.
  abbrev pub with_server : {A : Type 0} → A → ℤ → (Server P → W → Server P × W × A) → St → St × A
  with_server fail id f (t, w) =
      let (t', entry) = at_id id t in
      maybe ((t', w), fail)
        (λ server.
          let (server', w', a) = f server w in
          ((insert_or_assign int_eq id (some server') t', w'), a))
        entry

  -- The same, only where RPC is allowed.
  abbrev pub if_allowed : {A : Type 0} → A → (St → St × A) → St → St × A
  if_allowed fail f s = if services.is_rpc_allowed s.1 then f s else (s, fail)

  -- hako_asset_service_server_poll
  unfoldable pub server_poll : ℤ → St → St × ℤ
  server_poll id = if_allowed minus_one (
      with_server minus_one id λ server w.
        let (server', w', event) = poll (services.port id) server w in
        (server', w', event_code event))

  unfoldable pub server_get_current_client_id : ℤ → St → St × ℤ
  server_get_current_client_id id =
      with_server minus_one id λ server w. (server, w, pos server.current_client_id)

  -- hako_asset_service_server_get_current_channel_id, with somewhere to put the ids or not
  unfoldable pub server_get_current_channel_id : ℤ → Bool → St → St × Option (ℤ × ℤ)
  server_get_current_channel_id id has_place = with_server none id λ server w. (
    server,
    w,
    if has_place then some (services.channel_ids id server.current_client_id w) else none,
  )

  unfoldable pub server_status : ℤ → Bool → St → St × Option ℤ
  server_status id has_place =
      with_server none id
        λ server w. (server, w, if has_place then some (state_code (get_state server)) else none)

  unfoldable pub server_get_request : ℤ → St → St × Option P
  server_get_request id = with_server none id λ server w. (server, w, get_request server)

  unfoldable pub server_get_response_buffer : ℤ → Status → ResultCode → St → St × Option P
  server_get_response_buffer id status result_code =
      with_server none id
        λ server w. (server, w, get_response_buffer (services.port id) status result_code server w)

  -- hako_asset_service_server_put_response; `none` is a null pointer or an empty packet.
  unfoldable pub server_put_response : ℤ → Option P → St → St × ℤ
  server_put_response id packet = if_allowed minus_one (
      with_server minus_one id λ server w.
        maybe (server, w, minus_one)
          (λ p.
            let (server', w', ok) = reply_to_current_request (services.port id) p server w in
            (server', w', if ok then pos 0 else minus_one))
          packet)

  -- hako_asset_service_server_is_canceled
  unfoldable pub server_is_canceled : ℤ → St → St × ℤ
  server_is_canceled id = with_server minus_one id λ server w.
      (server, w, elim (get_state server) [ canceling ↦ minus_one | idle ↦ pos 0 | doing ↦ pos 0 ])

  unfoldable pub server_set_progress : ℤ → ℤ → St → St × ℤ
  server_set_progress id percentage =
      with_server minus_one id λ server w. (put_progress percentage server, w, pos 0)
