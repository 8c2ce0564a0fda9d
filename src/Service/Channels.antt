-- ===== src/Service/Channels.antt =====
-- get_request, put_response, put_request and get_response of HakoProData
-- (sources/core/src/service/hako_pro_data_service.cpp): the packets of a service. A result of 0 is
-- `some`, -1 is `none`; an asset id below 0, an external program, is `none`.
use hakoniwa_core_pro.Base.{
  ℕ, Bool, false, not, Option, none, some, leb, ltb, if◌then◌else◌, maybe, ℤ, pos, negsuc,
}
use hakoniwa_core_pro.RecvEvent.{Table, Master, get_recv_event}
use hakoniwa_core_pro.Service.{Slot, ServiceEntry, ProData, set_service, set_slot, service_max}

-- What the code asks of the PDU data of hakoniwa-core-cpp, `W`, with packets `P`. A write calls the
-- hooks of HakoProAssetExtension, so it also works on the receive-event table.
pub record PduData (W P : Type 0) : Type 0 where
  pub read_pdu : Option ℕ → ℕ → ℕ → W → W × Option P
  pub write_pdu : ℕ → P → ℕ → Option Table → W → (W × Option Table) × Bool

-- An `int` index into an array of `n` elements.
abbrev pub in_range : ℤ → ℕ → Option ℕ
in_range (pos i) n = if leb n i then none else some i
in_range (negsuc k) n = none

-- The tests that the four calls begin with, which look up the service's entry and the client's slot.
-- The buffer test is handed in: a packet that is there, of a length above 0.
unfoldable pub find_slot : ℤ → ℤ → Bool → ProData → Option (ℕ × ℕ)
find_slot service_id client_id has_packet p =
    maybe none
      (λ st.
        maybe none
          (λ i.
            if not has_packet
            then none
            else if not (st.entries i).enabled
            then none
            else maybe none (λ j. some (i, j)) (in_range client_id (st.entries i).max_clients))
          (in_range service_id service_max))
      p.service_table

-- A buffer to read into: `none` is `nullptr`, and otherwise its length is given.
abbrev pub has_room : Option ℕ → Bool
has_room buffer = maybe false (λ len. ltb 0 len) buffer

abbrev pub room : Option ℕ → ℕ
room buffer = maybe 0 (λ len. len) buffer

-- An entry of the service table, which is there once find_slot has found a slot.
abbrev pub slot_at : ProData → ℕ × ℕ → Option (ServiceEntry × Slot)
slot_at p (i, j) =
    maybe none (λ st. some (st.entries i, (st.entries i).client_channel_map j)) p.service_table

-- The real channel of the slot's requests, and that of its responses.
abbrev pub request_channel : Master → ProData → ℕ × ℕ → Option ℕ
request_channel m p k =
    maybe none (λ (e, s). m.pdu_channel e.service_name s.request_channel_id) (slot_at p k)

abbrev pub response_channel : Master → ProData → ℕ × ℕ → Option ℕ
response_channel m p k =
    maybe none (λ (e, s). m.pdu_channel e.service_name s.response_channel_id) (slot_at p k)

-- `clientChannelMap[client_id].responseRecvEventId` is the out parameter of get_recv_event.
abbrev pub set_response_event : Option ℕ → ℕ × ℕ → ProData → ProData
set_response_event event (i, j) p =
    maybe p
      (λ st. record p {
        service_table = some (
            set_service st i (
              set_slot (st.entries i) j
                (record ((st.entries i).client_channel_map j) { response_recv_event_id = event })));
      })
      p.service_table

module _ {W P : Type 0} (m : Master) (pdu : PduData W P) where
  abbrev pub Call : Type 0 → Type 0
  Call A = ProData × W × Option A

  -- The end of get_request and get_response: the event, and then the packet.
  unfoldable pub receive : ℕ → Option ℕ → ℕ → ℕ → ProData → W → (ProData × W × Option P) × Option ℕ
  receive pid asset_id real_id len p w =
      let (t, event) = get_recv_event m pid real_id p.recv_event_table in
      let q = record p { recv_event_table = t } in
      (
        maybe (q, w, none)
            (λ e. let (w', packet) = pdu.read_pdu asset_id real_id len w in (q, w', packet)) event,
        event,
      )

  -- HakoProData::get_request
  unfoldable pub get_request : ℕ → Option ℕ → ℤ → ℤ → Option ℕ → ProData → W → Call P
  get_request pid asset_id service_id client_id buffer p w =
      maybe (p, w, none)
        (λ k.
          maybe (p, w, none) (λ real_id. (receive pid asset_id real_id (room buffer) p w).0)
            (request_channel m p k))
        (find_slot service_id client_id (has_room buffer) p)

  -- HakoProData::get_response
  unfoldable pub get_response : ℕ → Option ℕ → ℤ → ℤ → Option ℕ → ProData → W → Call P
  get_response pid asset_id service_id client_id buffer p w =
      maybe (p, w, none)
        (λ k.
          maybe (p, w, none)
            (λ real_id.
              let ((q, w', packet), event) = receive pid asset_id real_id (room buffer) p w in
              (set_response_event event k q, w', packet))
            (response_channel m p k))
        (find_slot service_id client_id (has_room buffer) p)

  -- The end of put_request and put_response.
  unfoldable pub transmit : ℕ → P → ℕ → ProData → W → Call Unit
  transmit real_id packet len p w =
      let ((w', t), sent) = pdu.write_pdu real_id packet len p.recv_event_table w in
      (record p { recv_event_table = t }, w', if sent then some tt else none)

  -- HakoProData::put_request; a packet of `nullptr` is `none`.
  unfoldable pub put_request : ℤ → ℤ → Option P → ℕ → ProData → W → Call Unit
  put_request service_id client_id none len p w = (p, w, none)
  put_request service_id client_id (some packet) len p w =
      maybe (p, w, none)
        (λ k.
          maybe (p, w, none) (λ real_id. transmit real_id packet len p w) (request_channel m p k))
        (find_slot service_id client_id (ltb 0 len) p)

  -- HakoProData::put_response
  unfoldable pub put_response : ℤ → ℤ → Option P → ℕ → ProData → W → Call Unit
  put_response service_id client_id none len p w = (p, w, none)
  put_response service_id client_id (some packet) len p w =
      maybe (p, w, none)
        (λ k.
          maybe (p, w, none) (λ real_id. transmit real_id packet len p w) (response_channel m p k))
        (find_slot service_id client_id (ltb 0 len) p)
