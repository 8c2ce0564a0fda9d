-- ===== src/Rpc/Wires.antt =====
-- The channels of a slot under the two ports: what a call of either side leaves in the shared memory
-- (sources/core/src/service/hako_pro_data_service.cpp, sources/core/src/hako_pro_data.cpp).
use hakoniwa_core_pro.Base.{
  ℕ, ℤ, ◌<◌, ◌≡◌, ◌≢◌, refl, ◌∙◌, fun_ext, arith, Bool, true, false, Option, some, pos, Array,
  write, Name, Option-cases,
}
use hakoniwa_core_pro.RecvEvent.{Table, Master}
use hakoniwa_core_pro.RecvEvent.Hooks.{on_pdu_data_before_write}
use hakoniwa_core_pro.RecvEvent.Delivery.{
  IsFirst, Delivers, written, on_pdu_data_write-WriteEffect, before_write_iff,
}
use hakoniwa_core_pro.Service.{
  ProData, get_service_id, is_exist_client_on_service, refresh_service_name_indexes_if_needed,
  rebuild_service_name_indexes,
}
use hakoniwa_core_pro.Service.Channels.{PduData, find_slot, request_channel, response_channel}
use hakoniwa_core_pro.Service.Calls.{
  Sends, after, transmit_lem, receive_lem, put_request_at, put_response_at, get_request_at,
  get_response_at,
}
use hakoniwa_core_pro.Rpc.{Bus, Process, Endpoint, Convertor, view, server_port, client_port}

-- The reader of a channel has entry `event` for it, which holds nothing back.
pub record Line (m : Master) (real pid event : ℕ) (t : Table) : Type 0 where
  pub known : real < m.channel_max
  pub watched : IsFirst t pid real event
  pub in_use : (t.entries event).pending_flag ≡ false
  pub unheld : on_pdu_data_before_write real (some t) ≡ true

-- The table after a packet has been written and its event `event` taken.
abbrev pub carried : ℕ → ℕ → Table → Table
carried real event t = after (written real t) event

-- A packet that has passed on one channel leaves the other as it was.
pub Line-carried :
    (m : Master) (real pid event other other_event : ℕ) (t : Table)
    → other ≢ real
    → Line m real pid event t
    → Line m real pid event (carried other other_event t)
Line-carried m real pid event other other_event t apart line =
    let w = on_pdu_data_write-WriteEffect other t in
    record {
      known = line.known;
      watched = (
        ground (arith, w.2, line.watched.0),
        ground (arith, w.1 event, w.1 other_event, line.watched.1),
        λ j lj. ground (arith, w.1 j, w.1 other_event, line.watched.2 j lj),
      );
      in_use = ground (arith, w.1 event, w.1 other_event, line.in_use);
      unheld = (before_write_iff real (carried other other_event t)).1 (λ i li. ground (
        arith,
        w.2,
        w.1 i,
        w.1 other_event,
        apart,
        (before_write_iff real t).0 line.unheld i (omega (arith, w.2.0)),
      ));
    }

-- What the PDU data of hakoniwa-core-cpp do for a reader of the channel: while no event holds the writer
-- back, a packet of `size` bytes is stored, and the reader then gets it in its buffer of `room` bytes.
abbrev pub Conveys : {W P : Type 0} → Master → PduData W P → ℕ → ℕ → ℕ → Option ℕ → Type 0
Conveys {W} {P} m pdu real size room asset_id =
    (packet : P) (t : Table) (w : W)
    → on_pdu_data_before_write real (some t) ≡ true
    → (w1 : W) × (w2 : W) × Sends m pdu real packet size t w w1
      × (pdu.read_pdu asset_id real room w1 ≡ (w2, some packet))

write_same {ℓ} : {A : Type ℓ} (a : Array A) (i : ℕ) → write a i (a i) ≡ a
write_same a i = fun_ext (λ j. ground arith)

-- The memory with a packet written or read, and the table of receive events with it.
abbrev pub with_packet : {W : Type 0} → Table → W → Bus W → Bus W
with_packet t w b = record b { recv_event_table = some t; pdu_data = w }

-- The memory once a process has looked a client up.
abbrev pub looked_up : {W : Type 0} → Process → Name → Name → Bus W → Bus W
looked_up c service client b = record b {
  index =
      write b.index c.pid
        (is_exist_client_on_service service client (view c b)).0.service_name_to_id;
}

pub find_slot-view :
    {W : Type 0} (sid cid : ℤ) (v : Bool) (c d : Process) (b : Bus W)
    → find_slot sid cid v (view c b) ≡ find_slot sid cid v (view d b)
unfolding find_slot
find_slot-view sid cid v c d b = refl

find_slot-table :
    {W : Type 0} (sid cid : ℤ) (v : Bool) (c : Process) (t : Table) (w : W) (b : Bus W)
    → find_slot sid cid v (view c (record b { recv_event_table = some t; pdu_data = w }))
      ≡ find_slot sid cid v (view c b)
unfolding find_slot
find_slot-table sid cid v c t w b = refl

-- To look a client up changes at most the index of the process.
exist_keeps :
    (service client : Name) (p : ProData)
    → (is_exist_client_on_service service client p).0 ≡ record p {
      service_name_to_id = (is_exist_client_on_service service client p).0.service_name_to_id;
    }
unfolding is_exist_client_on_service get_service_id refresh_service_name_indexes_if_needed
    rebuild_service_name_indexes
exist_keeps service client p =
    ground (arith, Option-cases (p.service_name_to_id service), Option-cases p.service_table)

pub exist-table :
    (service client : Name) (t : Option Table) (p : ProData)
    → (is_exist_client_on_service service client (record p { recv_event_table = t })).1
      ≡ (is_exist_client_on_service service client p).1
unfolding is_exist_client_on_service get_service_id refresh_service_name_indexes_if_needed
    rebuild_service_name_indexes
exist-table service client t p =
    ground (arith, Option-cases (p.service_name_to_id service), Option-cases p.service_table)

module _ {W P : Type 0} (m : Master) (pdu : PduData W P) (conv : Convertor P) (e : Endpoint)
    (i j : ℕ) (k : ℕ × ℕ) (real : ℕ) where
  pub put_request_wire :
      (packet : P) (t : Table) (b : Bus W) (w1 : W)
      → b.recv_event_table ≡ some t
      → 0 < e.request_pdu_size
      → find_slot (pos i) (pos j) true (view e.process b) ≡ some k
      → request_channel m (view e.process b) k ≡ some real
      → Sends m pdu real packet e.request_pdu_size t b.pdu_data w1
      → (client_port m pdu conv e i j).put_request packet b
        ≡ (with_packet (written real t) w1 b, true)
  unfolding client_port
  put_request_wire packet t b w1 here l found channel sends =
      rw
        (
          put_request_at m pdu (pos i) (pos j) k real e.request_pdu_size packet (view e.process b)
              b.pdu_data l found channel,
          transmit_lem m pdu real e.request_pdu_size packet t (view e.process b) b.pdu_data w1 here
              sends,
          write_same b.index e.process.pid,
        )
        refl

  pub put_response_wire :
      (name : Name) (packet : P) (t : Table) (b : Bus W) (w1 : W)
      → b.recv_event_table ≡ some t
      → 0 < e.response_pdu_size
      → find_slot (pos i) (pos j) true (view e.process b) ≡ some k
      → response_channel m (view e.process b) k ≡ some real
      → Sends m pdu real packet e.response_pdu_size t b.pdu_data w1
      → (server_port m pdu conv e i name).put_response j packet b
        ≡ (with_packet (written real t) w1 b, true)
  unfolding server_port
  put_response_wire name packet t b w1 here l found channel sends =
      rw
        (
          put_response_at m pdu (pos i) (pos j) k real e.response_pdu_size packet (view e.process b)
              b.pdu_data l found channel,
          transmit_lem m pdu real e.response_pdu_size packet t (view e.process b) b.pdu_data w1 here
              sends,
          write_same b.index e.process.pid,
        )
        refl

  pub get_request_wire :
      (name : Name) (event : ℕ) (packet : P) (t : Table) (b : Bus W) (w w1 : W)
      → 0 < e.request_pdu_size
      → find_slot (pos i) (pos j) true (view e.process b) ≡ some k
      → request_channel m (view e.process b) k ≡ some real
      → Delivers m e.process.pid real t event
      → pdu.read_pdu e.process.asset_id real e.request_pdu_size w ≡ (w1, some packet)
      → (server_port m pdu conv e i name).get_request j (with_packet t w b)
        ≡ (with_packet (after t event) w1 b, some packet)
  unfolding server_port
  get_request_wire name event packet t b w w1 l found channel due reads =
      rw
        (
          get_request_at m pdu e.process.pid e.process.asset_id (pos i) (pos j) k real
              e.request_pdu_size (view e.process (with_packet t w b)) w l
              (find_slot-table (pos i) (pos j) true e.process t w b ∙ found) channel,
          receive_lem m pdu e.process.pid e.process.asset_id real e.request_pdu_size event packet t
              (view e.process b) w w1 due reads,
          write_same b.index e.process.pid,
        )
        refl

  pub get_response_wire :
      (event : ℕ) (packet : P) (t : Table) (b : Bus W) (w w1 : W)
      → 0 < e.response_pdu_size
      → find_slot (pos i) (pos j) true (view e.process b) ≡ some k
      → response_channel m (view e.process b) k ≡ some real
      → Delivers m e.process.pid real t event
      → pdu.read_pdu e.process.asset_id real e.response_pdu_size w ≡ (w1, some packet)
      → ((client_port m pdu conv e i j).get_response (with_packet t w b)).1 ≡ some packet
  unfolding client_port
  get_response_wire event packet t b w w1 l found channel due reads =
      rw
        (
          get_response_at m pdu e.process.pid e.process.asset_id (pos i) (pos j) k real
              e.response_pdu_size (view e.process (with_packet t w b)) w l
              (find_slot-table (pos i) (pos j) true e.process t w b ∙ found) channel,
          receive_lem m pdu e.process.pid e.process.asset_id real e.response_pdu_size event packet t
              (view e.process b) w w1 due reads,
        )
        refl

  pub is_exist_client_wire :
      (service client : Name) (b : Bus W)
      → (is_exist_client_on_service service client (view e.process b)).1 ≡ true
      → (server_port m pdu conv e i service).is_exist_client client b
        ≡ (looked_up e.process service client b, true)
  unfolding server_port
  is_exist_client_wire service client b known =
      rw (known) (rw (exist_keeps service client (view e.process b)) refl)
