-- ===== src/Server/Run.antt =====
-- Requests and responses across the runs of a simulation: what the server's generation numbers
-- guarantee (sources/core/src/service/hako_service_protocol_server.cpp).
use hakoniwa_core_pro.Base.{
  ℕ, ◌<◌, ◌≡◌, ◌≢◌, ◌⊎◌, inl, refl, arith, Bool, true, false, some, if_intro, maybe_intro,
  name_eq_self, List, [], ◌∷◌, sym, ◌∙◌,
}
use hakoniwa_core_pro.Protocol.{
  opcode_request, Status, ResultCode, doing_status, canceling_status, error_status, ok_code,
  invalid_code, busy_code, RequestHeader,
}
use hakoniwa_core_pro.Server.{
  ServerPort, Server, ServerState, idle, doing, canceling, ServerEvent, request_in, get_state,
  event_start_service, event_cancel_service, event_done_service, copy_user_buffer, recv_packet,
  validate_header, reset_if_new_run, reset_run_state, send_response, reply,
  reply_to_current_request, next_client, get_request,
}
use hakoniwa_core_pro.Server.Poll.{poll, poll_invalid, poll_silent, poll_valid, poll_packet}

module _ {W P : Type 0} (port : ServerPort W P) where
  -- The request that the server works on, and the service it serves, are the same.
  abbrev pub SameRequest : Server P → Server P → Type 0
  SameRequest s t =
      (t.request_header ≡ s.request_header)
      × (t.request_user_buffer ≡ s.request_user_buffer)
      × (t.request_generation ≡ s.request_generation)
      × (t.run_generation ≡ s.run_generation)
      × (t.max_clients ≡ s.max_clients)
      × (t.service_name ≡ s.service_name)

  reply-SameRequest : (packet : P) (s : Server P) (w : W) → SameRequest s (reply port packet s w).0
  unfolding reply next_client event_done_service
  reply-SameRequest packet s w = ground arith

  send_response-SameRequest :
      (status : Status) (code : ResultCode) (s : Server P) (w : W)
      → SameRequest s (send_response port status code s w).0
  unfolding send_response
  send_response-SameRequest status code s w =
      maybe_intro (λ (r : Server P × W × Bool). SameRequest s r.0) (port.cpp2pdu _)
        (refl, refl, refl, refl, refl, refl) (λ packet. reply-SameRequest packet s w)

  -- What a poll can do to the request that the server works on: a new one is of the given run.
  abbrev pub Tracks : ℕ → Server P → Server P × W × ServerEvent → Type 0
  Tracks generation s r =
      ((r.2 ≢ request_in) × (r.0.request_generation ≡ s.request_generation))
      ⊎ ((r.2 ≡ request_in) × (r.0.request_generation ≡ generation))

  poll_invalid-Tracks : (g : ℕ) (s : Server P) (w : W) → Tracks g s (poll_invalid port s w)
  unfolding poll_invalid
  poll_invalid-Tracks g s w =
      inl ((λ e. cc), (send_response-SameRequest error_status invalid_code s w).2)

  poll_silent-Tracks : (g : ℕ) (s : Server P) (w : W) → Tracks g s (poll_silent port s w)
  unfolding poll_silent
  poll_silent-Tracks g s w = ground (arith, send_response-SameRequest doing_status ok_code s w)

  poll_valid-Tracks :
      (st : ServerState) (header : RequestHeader) (packet : P) (s : Server P) (w : W)
      → Tracks s.run_generation s (poll_valid port st header packet s w)
  unfolding poll_valid copy_user_buffer event_start_service event_cancel_service
  poll_valid-Tracks idle header packet s w =
      ground (arith, poll_invalid-Tracks s.run_generation s w)
  poll_valid-Tracks doing header packet s w =
      ground (arith, send_response-SameRequest doing_status busy_code s w)
  poll_valid-Tracks canceling header packet s w =
      ground (arith, send_response-SameRequest canceling_status busy_code s w)

  poll_packet-Tracks :
      (packet : P) (s : Server P) (w : W) → Tracks s.run_generation s (poll_packet port packet s w)
  unfolding poll_packet
  poll_packet-Tracks packet s w =
      maybe_intro (Tracks s.run_generation s) (port.pdu2cpp packet)
        (poll_invalid-Tracks s.run_generation s w)
        (λ header.
          if_intro (Tracks s.run_generation s) (validate_header port header s w).1
            (poll_valid-Tracks (get_state s) header packet s (validate_header port header s w).0)
            (poll_invalid-Tracks s.run_generation s (validate_header port header s w).0))

  reset-generations :
      (s : Server P) (w : W)
      → port.has_pro_data w ≡ true
      → ((reset_if_new_run port s w).request_generation ≡ s.request_generation)
        × ((reset_if_new_run port s w).run_generation ≡ port.run_generation w)
  unfolding reset_if_new_run reset_run_state
  reset-generations s w h = ground arith

  -- A poll changes the generation of the request that the server works on only by accepting a new request,
  -- and that request is then of the run that the shared memory shows.
  pub poll-Tracks :
      (s : Server P) (w : W)
      → port.has_pro_data w ≡ true
      → Tracks (port.run_generation w) s (poll port s w)
  unfolding poll
  poll-Tracks s w h =
      let s' = reset_if_new_run port s w in
      ground (
        arith,
        reset-generations s w h,
        maybe_intro (Tracks s'.run_generation s') (recv_packet port s'.current_client_id s' w).1
            {d = poll_silent port s' (recv_packet port s'.current_client_id s' w).0}
            {f = λ p. poll_packet port p s' (recv_packet port s'.current_client_id s' w).0}
            (poll_silent-Tracks s'.run_generation s' (recv_packet port s'.current_client_id s' w).0)
            (λ p. poll_packet-Tracks p s' (recv_packet port s'.current_client_id s' w).0),
      )

  -- A response goes out only while its request is of the current run and still in progress: if the run
  -- has changed since the request was accepted, or the current client's service is idle, nothing is
  -- written and the server does not change; otherwise the response is handed to `reply`.
  pub reply_to_current_request_lem :
      (packet : P) (s : Server P) (w : W)
      → port.has_pro_data w ≡ true
      → ((port.run_generation w ≢ s.request_generation
            → reply_to_current_request port packet s w ≡ (s, w, false))
          × (get_state s ≡ idle → reply_to_current_request port packet s w ≡ (s, w, false))
          × (port.run_generation w ≡ s.request_generation
              → get_state s ≢ idle
              → reply_to_current_request port packet s w ≡ reply port packet s w))
  unfolding reply_to_current_request
  reply_to_current_request_lem packet s w h =
      ((λ e. ground arith), (λ e. ground arith), (λ e f. ground arith))

  -- Polls in a row; between two of them other processes may change the shared memory.
  unfoldable pub polls : List W → Server P → Server P
  polls [] s = s
  polls (w ∷ ws) s = polls ws (poll port s w).0

  -- Polls of one run that accept no request.
  abbrev pub NoneAccepted : ℕ → List W → Server P → Type 0
  NoneAccepted g [] s = Unit {0}
  NoneAccepted g (w ∷ ws) s =
      (port.has_pro_data w ≡ true)
      × (port.run_generation w ≡ g)
      × ((poll port s w).2 ≢ request_in)
      × NoneAccepted g ws (poll port s w).0

  polls-request_generation :
      (g : ℕ) (ws : List W) (s : Server P)
      → NoneAccepted g ws s
      → (polls ws s).request_generation ≡ s.request_generation
  unfolding polls
  polls-request_generation g [] s h = refl
  polls-request_generation g (w ∷ ws) s h =
      ground (arith, poll-Tracks s w h.0, polls-request_generation g ws (poll port s w).0 h.3, h.2)

  -- The response to a request of a previous run is refused, and writes nothing, as long as the server has
  -- not accepted a new request, however often it is polled in the new run.
  pub previous_run_refused :
      (g : ℕ) (ws : List W) (s : Server P) (packet : P) (w : W)
      → g ≢ s.request_generation
      → NoneAccepted g ws s
      → port.has_pro_data w ≡ true
      → port.run_generation w ≡ g
      → reply_to_current_request port packet (polls ws s) w ≡ (polls ws s, w, false)
  previous_run_refused g ws s packet w stale quiet h same =
      (reply_to_current_request_lem packet (polls ws s) w h).0
        (λ e. stale (sym same ∙ e ∙ polls-request_generation g ws s quiet))

  -- In a new run, whatever state the previous run left, a poll that finds a valid request of client 0
  -- accepts it: the client's service is in progress, the application gets the packet, and a response to it
  -- will be of this run.
  pub new_run_accepts :
      (s : Server P) (w w1 w2 : W) (packet : P) (header : RequestHeader)
      → port.has_pro_data w ≡ true
      → port.run_generation w ≢ s.run_generation
      → 0 < s.max_clients
      → port.get_request 0 w ≡ (w1, some packet)
      → port.pdu2cpp packet ≡ some header
      → header.service_name ≡ s.service_name
      → port.is_exist_client header.client_name w1 ≡ (w2, true)
      → header.opcode ≡ opcode_request
      → let (t, w', event) = poll port s w in
        (event ≡ request_in)
        × (w' ≡ w2)
        × (t.current_client_id ≡ 0)
        × (get_state t ≡ doing)
        × (get_request t ≡ some packet)
        × (t.request_generation ≡ port.run_generation w)
  unfolding poll reset_if_new_run reset_run_state recv_packet poll_packet validate_header poll_valid
      copy_user_buffer event_start_service get_request
  new_run_accepts s w w1 w2 packet header h fresh some_client got conv named exists op =
      ground (arith, name_eq_self s.service_name)
