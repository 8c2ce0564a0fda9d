-- ===== src/Service/Calls.antt =====
-- A request and a response on their way through the channels of a slot
-- (sources/core/src/service/hako_pro_data_service.cpp).
use hakoniwa_core_pro.Base.{
  ℕ, ◌<◌, ◌≡◌, refl, ◌∙◌, arith, Bool, true, false, Option, none, some, lt→ltb, ℤ,
}
use hakoniwa_core_pro.RecvEvent.{Table, Master, set_entry, get_recv_event}
use hakoniwa_core_pro.RecvEvent.Hooks.{on_pdu_data_write}
use hakoniwa_core_pro.RecvEvent.Delivery.{
  IsFirst, Delivers, get-Delivers, taken_again, written, on_pdu_data_write-WriteEffect,
  get_recv_event-none,
}
use hakoniwa_core_pro.Service.{ProData}
use hakoniwa_core_pro.Service.Channels.{
  PduData, find_slot, request_channel, response_channel, set_response_event, receive, transmit,
  get_request, put_response, put_request, get_response,
}

-- A write makes the event of the reader's entry due.
pub written-Delivers :
    (m : Master) (pid real e : ℕ) (t : Table)
    → real < m.channel_max
    → IsFirst t pid real e
    → (t.entries e).pending_flag ≡ false
    → Delivers m pid real (written real t) e
written-Delivers m pid real e t l f pending =
    let w = on_pdu_data_write-WriteEffect real t in
    (
      l,
      (
        ground (arith, w.2, f.0),
        ground (arith, w.1 e, f.0, f.1),
        λ j lj. ground (arith, w.1 j, f.2 j lj),
      ),
      ground (arith, w.1 e, f.0, f.1),
      ground (arith, w.1 e, pending),
    )

-- The table once the event of entry `e` has been taken.
abbrev pub after : Table → ℕ → Table
after t e = set_entry t e (record (t.entries e) { recv_flag = false })

module _ {W P : Type 0} (m : Master) (pdu : PduData W P) where
  -- A write that the PDU data accept reaches the packet's channel and its watchers.
  abbrev pub Sends : ℕ → P → ℕ → Table → W → W → Type 0
  Sends real packet len t w w1 =
      pdu.write_pdu real packet len (some t) w ≡ ((w1, (on_pdu_data_write real (some t)).0), true)

  pub transmit_lem :
      (real len : ℕ) (packet : P) (t : Table) (p : ProData) (w w1 : W)
      → p.recv_event_table ≡ some t
      → Sends real packet len t w w1
      → transmit m pdu real packet len p w
        ≡ (record p { recv_event_table = some (written real t) }, w1, some tt)
  unfolding transmit
  transmit_lem real len packet t p w w1 here sends =
      rw (here, sends, (on_pdu_data_write-WriteEffect real t).0) refl

  pub receive_lem :
      (pid : ℕ) (asset : Option ℕ) (real len e : ℕ) (packet : P) (t : Table) (p : ProData)
      (w w1 : W)
      → Delivers m pid real t e
      → pdu.read_pdu asset real len w ≡ (w1, some packet)
      → receive m pdu pid asset real len (record p { recv_event_table = some t }) w
        ≡ ((record p { recv_event_table = some (after t e) }, w1, some packet), some e)
  unfolding receive
  receive_lem pid asset real len e packet t p w w1 d reads =
      rw (get-Delivers m pid real t e d, reads) refl

  -- Without an event, nothing is read and nothing changes.
  pub receive_nothing :
      (pid : ℕ) (asset : Option ℕ) (real len : ℕ) (t : Table) (p : ProData) (w : W)
      → p.recv_event_table ≡ some t
      → (get_recv_event m pid real (some t)).1 ≡ none
      → receive m pdu pid asset real len p w ≡ ((p, w, none), none)
  unfolding receive
  receive_nothing pid asset real len t p w here e =
      rw (here, e, get_recv_event-none m pid real (some t) e) refl

  -- The four calls, once the slot and its channel are known. Which slot it is does not depend on the
  -- receive-event table.
  pub put_request_at :
      (sid cid : ℤ) (k : ℕ × ℕ) (real len : ℕ) (packet : P) (p : ProData) (w : W)
      → 0 < len
      → find_slot sid cid true p ≡ some k
      → request_channel m p k ≡ some real
      → put_request m pdu sid cid (some packet) len p w ≡ transmit m pdu real packet len p w
  unfolding put_request
  put_request_at sid cid k real len packet p w l found known =
      rw (lt→ltb 0 len l, found, known) refl

  pub put_response_at :
      (sid cid : ℤ) (k : ℕ × ℕ) (real len : ℕ) (packet : P) (p : ProData) (w : W)
      → 0 < len
      → find_slot sid cid true p ≡ some k
      → response_channel m p k ≡ some real
      → put_response m pdu sid cid (some packet) len p w ≡ transmit m pdu real packet len p w
  unfolding put_response
  put_response_at sid cid k real len packet p w l found known =
      rw (lt→ltb 0 len l, found, known) refl

  pub get_request_at :
      (pid : ℕ) (asset : Option ℕ) (sid cid : ℤ) (k : ℕ × ℕ) (real len : ℕ) (p : ProData) (w : W)
      → 0 < len
      → find_slot sid cid true p ≡ some k
      → request_channel m p k ≡ some real
      → get_request m pdu pid asset sid cid (some len) p w
        ≡ (receive m pdu pid asset real len p w).0
  unfolding get_request
  get_request_at pid asset sid cid k real len p w l found known =
      rw (lt→ltb 0 len l, found, known) refl

  pub get_response_at :
      (pid : ℕ) (asset : Option ℕ) (sid cid : ℤ) (k : ℕ × ℕ) (real len : ℕ) (p : ProData) (w : W)
      → 0 < len
      → find_slot sid cid true p ≡ some k
      → response_channel m p k ≡ some real
      → get_response m pdu pid asset sid cid (some len) p w ≡ (
          let ((q, w', packet), event) = receive m pdu pid asset real len p w in
          (set_response_event event k q, w', packet))
  unfolding get_response
  get_response_at pid asset sid cid k real len p w l found known =
      rw (lt→ltb 0 len l, found, known) refl

  pub same_slot :
      (sid cid : ℤ) (v : Bool) (p : ProData) (t : Option Table)
      → find_slot sid cid v (record p { recv_event_table = t }) ≡ find_slot sid cid v p
  unfolding find_slot
  same_slot sid cid v p t = refl

  -- A request that the PDU data accept and can be read back reaches the server's process, if that process
  -- watches the slot's request channel and has not marked the event as pending: put_request succeeds, the
  -- next get_request of that slot returns the packet, and the one after it returns nothing.
  pub request_delivered :
      (pid : ℕ) (asset : Option ℕ) (sid cid : ℤ) (k : ℕ × ℕ) (real len room e : ℕ) (packet : P)
      (t : Table) (p : ProData) (w w1 w2 : W)
      → p.recv_event_table ≡ some t
      → 0 < len
      → 0 < room
      → find_slot sid cid true p ≡ some k
      → request_channel m p k ≡ some real
      → real < m.channel_max
      → IsFirst t pid real e
      → (t.entries e).pending_flag ≡ false
      → Sends real packet len t w w1
      → pdu.read_pdu asset real room w1 ≡ (w2, some packet)
      → let (p1, v1, sent) = put_request m pdu sid cid (some packet) len p w in
        let (p2, v2, got) = get_request m pdu pid asset sid cid (some room) p1 v1 in
        let (p3, v3, again) = get_request m pdu pid asset sid cid (some room) p2 v2 in
        (sent ≡ some tt) × (got ≡ some packet) × (again ≡ none)
  request_delivered pid asset sid cid k real len room e packet t p w w1 w2 here l r found known
        small f pending sends reads =
      let d = written-Delivers m pid real e t small f pending in
      rw
        (
          put_request_at sid cid k real len packet p w l found known,
          transmit_lem real len packet t p w w1 here sends,
          get_request_at pid asset sid cid k real room
              (record p { recv_event_table = some (written real t) }) w1 r
              (same_slot sid cid true p (some (written real t)) ∙ found) known,
          receive_lem pid asset real room e packet (written real t) p w1 w2 d reads,
          get_request_at pid asset sid cid k real room
              (record p { recv_event_table = some (after (written real t) e) }) w2 r
              (same_slot sid cid true p (some (after (written real t) e)) ∙ found) known,
          receive_nothing pid asset real room (after (written real t) e)
              (record p { recv_event_table = some (after (written real t) e) }) w2 refl
              (taken_again m pid real (written real t) e d),
        )
        (refl, refl, refl)
