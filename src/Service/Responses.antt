-- ===== src/Service/Responses.antt =====
-- A response on its way to the client, and the event id that get_response stores in the slot
-- (sources/core/src/service/hako_pro_data_service.cpp).
use hakoniwa_core_pro.Base.{
  ℕ, ◌<◌, ◌≡◌, refl, ap, ◌∙◌, arith, Bool, true, false, Option, none, some, maybe, ℤ, Option-cases,
}
use hakoniwa_core_pro.RecvEvent.{Table, Master}
use hakoniwa_core_pro.RecvEvent.Delivery.{IsFirst, taken_again, written}
use hakoniwa_core_pro.Service.{ProData}
use hakoniwa_core_pro.Service.Channels.{
  PduData, find_slot, slot_at, response_channel, set_response_event, get_response, put_response,
}
use hakoniwa_core_pro.Service.Calls.{
  Sends, after, written-Delivers, transmit_lem, receive_lem, receive_nothing, put_response_at,
  get_response_at, same_slot,
}

-- The id of the response event in the slot.
abbrev pub response_event : ProData → ℕ × ℕ → Option ℕ
response_event p k = maybe none (λ (e, s). s.response_recv_event_id) (slot_at p k)

-- A new event id in a slot changes neither the slot's place nor its channel.
find_slot-event :
    (sid cid : ℤ) (v : Bool) (event : Option ℕ) (k : ℕ × ℕ) (p : ProData)
    → find_slot sid cid v (set_response_event event k p) ≡ find_slot sid cid v p
unfolding find_slot
find_slot-event sid cid v event k p = ground (arith, Option-cases p.service_table)

channel-event :
    (m : Master) (event : Option ℕ) (k : ℕ × ℕ) (p : ProData)
    → response_channel m (set_response_event event k p) k ≡ response_channel m p k
channel-event m event k p = ground (arith, Option-cases p.service_table)

event_after :
    (event : Option ℕ) (k : ℕ × ℕ) (sid cid : ℤ) (p : ProData)
    → find_slot sid cid true p ≡ some k
    → response_event (set_response_event event k p) k ≡ event
unfolding find_slot
event_after event k sid cid p found = ground (arith, Option-cases p.service_table)

table_after :
    (event : Option ℕ) (k : ℕ × ℕ) (t : Option Table) (p : ProData)
    → (set_response_event event k (record p { recv_event_table = t })).recv_event_table ≡ t
table_after event k t p = ground (arith, Option-cases p.service_table)

module _ {W P : Type 0} (m : Master) (pdu : PduData W P) where
  -- A response that the PDU data accept and can be read back reaches the client's process, if that process
  -- watches the slot's response channel and has not marked the event as pending: put_response succeeds, the
  -- next get_response of that slot returns the packet, and the one after it returns nothing. The event id
  -- in the slot is that of the client's entry after the first of the two, and -1 (no event) after the
  -- second, whatever the registration of the client had stored there.
  pub response_delivered :
      (pid : ℕ) (asset : Option ℕ) (sid cid : ℤ) (k : ℕ × ℕ) (real len room e : ℕ) (packet : P)
      (t : Table) (p : ProData) (w w1 w2 : W)
      → p.recv_event_table ≡ some t
      → 0 < len
      → 0 < room
      → find_slot sid cid true p ≡ some k
      → response_channel m p k ≡ some real
      → real < m.channel_max
      → IsFirst t pid real e
      → (t.entries e).pending_flag ≡ false
      → Sends m pdu real packet len t w w1
      → pdu.read_pdu asset real room w1 ≡ (w2, some packet)
      → let (p1, v1, sent) = put_response m pdu sid cid (some packet) len p w in
        let (p2, v2, got) = get_response m pdu pid asset sid cid (some room) p1 v1 in
        let (p3, v3, again) = get_response m pdu pid asset sid cid (some room) p2 v2 in
        (sent ≡ some tt)
        × (got ≡ some packet)
        × (response_event p2 k ≡ some e)
        × (again ≡ none)
        × (response_event p3 k ≡ none)
  response_delivered pid asset sid cid k real len room e packet t p w w1 w2 here l r found known
        small f pending sends reads =
      let d = written-Delivers m pid real e t small f pending in
      let p1 = record p { recv_event_table = some (written real t) } in
      let p2 = record p { recv_event_table = some (after (written real t) e) } in
      let q = set_response_event (some e) k p2 in
      let found2 = same_slot m pdu sid cid true p (some (after (written real t) e)) ∙ found in
      let silent =
        receive_nothing m pdu pid asset real room (after (written real t) e) q w2
          (table_after (some e) k (some (after (written real t) e)) p)
          (taken_again m pid real (written real t) e d) in
      let found3 = find_slot-event sid cid true (some e) k p2 ∙ found2 in
      rw
        (
          put_response_at m pdu sid cid k real len packet p w l found known,
          transmit_lem m pdu real len packet t p w w1 here sends,
          get_response_at m pdu pid asset sid cid k real room p1 w1 r
              (same_slot m pdu sid cid true p (some (written real t)) ∙ found) known,
          receive_lem m pdu pid asset real room e packet (written real t) p w1 w2 d reads,
          get_response_at m pdu pid asset sid cid k real room q w2 r found3
              (channel-event m (some e) k p2 ∙ known),
        )
        (
          refl,
          refl,
          event_after (some e) k sid cid p2 found2,
          ap (λ r. r.0.2) silent,
          ap (λ r. response_event (set_response_event r.1 k r.0.0) k) silent
              ∙ event_after none k sid cid q found3,
        )
