-- ===== src/Polling/Clients.antt =====
-- sources/assets/polling/src/hako_asset_service_client.cpp
use hakoniwa_core_pro.Base.{
  ℕ, ◌+◌, ◌-◌, ◌*◌, ◌%◌, ◌^◌, ℤ, pos, negsuc, minus_one, is_negative, int_eq, Bool, not, Option,
  none, some, List, if◌then◌else◌, maybe, Name, ◌==◌,
}
use hakoniwa_core_pro.Protocol.{ResponseHeader}
use hakoniwa_core_pro.Client.{
  ClientPort, Client, ClientState, idle, doing, canceling, ClientEvent, no_event, response_in,
  request_timeout, request_cancel_done, is_doing, get_request_buffer, request, cancel_request,
}
use hakoniwa_core_pro.Client.Poll.{poll}
use hakoniwa_core_pro.Polling.{find, insert_or_assign}

-- HakoServiceHandleType
pub record Handle : Type 0 where
  pub service_id : ℤ
  pub client_id : ℤ

-- static_cast<std::uint32_t> of an int
abbrev pub uint32 : ℤ → ℕ
uint32 (pos n) = n % 2 ^ 32
uint32 (negsuc n) = 2 ^ 32 - 1 - n % 2 ^ 32

-- make_service_client_key: the two halves of a std::uint64_t do not overlap, so `|` is `+`.
unfoldable pub make_service_client_key : ℤ → ℤ → ℕ
make_service_client_key service_id client_id = uint32 service_id * 2 ^ 32 + uint32 client_id

abbrev pub key_of : Handle → ℕ
key_of h = make_service_client_key h.service_id h.client_id

-- What the functions call: is_rpc_allowed of HakoProData; a client object once its initialize has run, with its
-- handle, where that succeeds; the port of each client and its PDU channel ids.
pub record ClientsPort (W P : Type 0) : Type 0 where
  pub is_rpc_allowed : W → Bool
  pub initialize : Name → Name → Name → W → W × Option (Handle × Client P)
  pub port : Handle → ClientPort W P
  pub channel_ids : Handle → W → ℤ × ℤ

-- service_clients, and the handle of the object that service_protocols_by_service_id has for a service.
pub record Clients (P : Type 0) : Type 0 where
  pub service_clients : List (ℕ × Client P)
  pub by_service_id : List (ℤ × Handle)

abbrev pub event_code : ClientEvent → ℤ
event_code no_event = pos 0
event_code response_in = pos 1
event_code request_timeout = pos 2
event_code request_cancel_done = pos 3

abbrev pub state_code : ClientState → ℤ
state_code idle = pos 0
state_code doing = pos 1
state_code canceling = pos 2

module _ {W P : Type 0} (clients : ClientsPort W P) where
  abbrev pub St : Type 0
  St = Clients P × W

  abbrev pub store : Handle → Client P → Clients P → Clients P
  store h c t = record t {
    service_clients = insert_or_assign (λ a b. a == b) (key_of h) c t.service_clients;
  }

  -- hako_asset_service_client_create; `none` is a null pointer.
  unfoldable pub client_create : Name → Option Name → Option Name → Bool → St → St × Option Handle
  client_create asset_name service_name client_name has_handle (t, w) =
      maybe ((t, w), none)
        (λ service.
          maybe ((t, w), none)
            (λ client.
              if not has_handle
              then ((t, w), none)
              else let (w', made) = clients.initialize service client asset_name w in
                maybe ((t, w'), none)
                  (λ (h, c). if is_negative h.service_id then ((t, w'), none) else (
                    (
                      record (store h c t) {
                        by_service_id = insert_or_assign int_eq h.service_id h t.by_service_id;
                      },
                      w',
                    ),
                    some h,
                  ))
                  made)
            client_name)
        service_name

  -- The functions that use the client of a handle, if there is a handle and a client.
  abbrev pub with_client :
      {A : Type 0} → A → Option Handle → (Handle → Client P → W → Client P × W × A) → St → St × A
  with_client fail handle f (t, w) =
      maybe ((t, w), fail)
        (λ h.
          maybe ((t, w), fail) (λ c. let (c', w', a) = f h c w in ((store h c' t, w'), a))
            (find (λ a b. a == b) (key_of h) t.service_clients))
        handle

  -- hako_asset_service_client_poll
  unfoldable pub client_poll : Option Handle → St → St × ℤ
  client_poll handle =
      with_client minus_one handle
        λ h c w. let (c', w', event) = poll (clients.port h) c w in (c', w', event_code event)

  -- hako_asset_service_client_get_channel_id: of the client of the service that was created last
  unfoldable pub client_get_channel_id : ℤ → Bool → St → Option (ℤ × ℤ)
  client_get_channel_id service_id has_place (t, w) =
      if not has_place
      then none
      else maybe none (λ h. some (clients.channel_ids h w)) (find int_eq service_id t.by_service_id)

  unfoldable pub client_get_channel_id_by_handle : Option Handle → Bool → St → St × Option (ℤ × ℤ)
  client_get_channel_id_by_handle handle has_place =
      with_client none handle
        λ h c w. (c, w, if has_place then some (clients.channel_ids h w) else none)

  unfoldable pub client_get_request_buffer : Option Handle → ℕ → ℤ → St → St × Option P
  client_get_request_buffer handle opcode poll_interval_msec =
      with_client none handle
        λ h c w. (c, w, get_request_buffer (clients.port h) opcode poll_interval_msec c)

  -- hako_asset_service_client_get_response without a timeout: the content of the buffer, where there is one
  unfoldable pub client_get_response_doing : Option Handle → St → St × Option (ResponseHeader × P)
  client_get_response_doing handle =
      with_client none handle λ h c w. (c, w, if is_doing c.state then c.response else none)

  -- hako_asset_service_client_get_response with its unused timeout
  unfoldable pub client_get_response : Option Handle → St → St × Option (ResponseHeader × P)
  client_get_response handle = with_client none handle λ h c w. (c, w, c.response)

  -- hako_asset_service_client_call_request
  unfoldable pub client_call_request : Option Handle → P → ℤ → St → St × ℤ
  client_call_request handle packet timeout_msec s =
      if not (clients.is_rpc_allowed s.1)
      then (s, minus_one)
      else with_client minus_one handle
          (λ h c w.
            let (c', w', ok) = request (clients.port h) packet timeout_msec c w in
            (c', w', if ok then pos 0 else minus_one))
          s

  -- hako_asset_service_client_cancel_request
  unfoldable pub client_cancel_request : Option Handle → St → St × ℤ
  client_cancel_request handle = with_client minus_one handle λ h c w.
      let (c', w', ok) = cancel_request (clients.port h) c w in
      (c', w', if ok then pos 0 else minus_one)

  unfoldable pub client_get_progress : Option Handle → St → St × ℤ
  client_get_progress handle = with_client minus_one handle λ h c w. (c, w, pos c.percentage)

  unfoldable pub client_status : Option Handle → Bool → St → St × Option ℤ
  client_status handle has_place =
      with_client none handle λ h c w. (c, w, if has_place then some (state_code c.state) else none)
