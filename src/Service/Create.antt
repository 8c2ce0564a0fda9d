-- ===== src/Service/Create.antt =====
-- create_service and create_service_client: how a server and its clients get their slots and receive
-- events (sources/core/src/service/hako_pro_data_service.cpp).
use hakoniwa_core_pro.Base.{
  ◌≡◌, refl, ℕ, zero, suc, ◌+◌, Bool, true, false, Option, none, some, ltb, leb, ◌==◌,
  if◌then◌else◌, maybe, first, Name,
}
use hakoniwa_core_pro.RecvEvent.{Master, register_data_recv_event, update_data_recv_event}
use hakoniwa_core_pro.Service.{
  ServiceEntry, ServiceTable, ProData, length, set_service, set_slot, server_channel, named,
  service_max, service_namelen_max, client_namelen_max, get_service_id, set_service_data,
}

-- The entry number of the table, which the source reads where it knows that there is a table.
abbrev pub entry_num_of : ProData → ℕ
entry_num_of p = maybe 0 (λ st. st.entry_num) p.service_table

-- A receive event for `service_name` on a channel, without a callback.
unfoldable pub register_channel : Master → ℕ → Name → ℕ → ProData → ProData × Option ℕ
register_channel m pid service_name channel p =
    let (t, id) = register_data_recv_event m pid service_name channel none p.recv_event_table in
    (record p { recv_event_table = t }, id)

unfoldable pub update_channel : Master → ℕ → Name → ℕ → ProData → ProData × Option ℕ
update_channel m pid service_name channel p =
    let (t, id) = update_data_recv_event m pid service_name channel none p.recv_event_table in
    (record p { recv_event_table = t }, id)

-- A change of one service's entry.
abbrev pub modify_service : (ServiceEntry → ServiceEntry) → ℕ → ProData → ProData
modify_service f id p =
    maybe p (λ st. record p { service_table = some (set_service st id (f (st.entries id))) })
      p.service_table

-- On a table that is there, it changes that entry.
pub modify_service_lem :
    (f : ServiceEntry → ServiceEntry) (id : ℕ) (p : ProData) (st : ServiceTable)
    → p.service_table ≡ some st
    → modify_service f id p
      ≡ record p { service_table = some (set_service st id (f (st.entries id))) }
modify_service_lem f id p st here = rw here refl

-- The request side of slot `j`, once its receive event is registered.
abbrev pub set_request : ℕ → ℕ → ServiceEntry → ServiceEntry
set_request j event e = set_slot e j (record (e.client_channel_map j) {
  request_channel_id = server_channel j;
  request_recv_event_id = some event;
})

-- The loop of create_service over the slots from `j` on; a registration that fails ends it.
unfoldable pub server_slots : Master → ℕ → Name → ℕ → ℕ → ℕ → ProData → ProData × Bool
server_slots m pid name id zero j p = (p, true)
server_slots m pid name id (suc n) j p =
    let (q, event) = register_channel m pid name (server_channel j) p in
    maybe (q, false)
      (λ e. server_slots m pid name id n (suc j) (modify_service (set_request j e) id q)) event

abbrev pub max_clients_of : ProData → ℕ → ℕ
max_clients_of p id = maybe 0 (λ st. (st.entries id).max_clients) p.service_table

-- create_service once the id is known: all slots, or -1.
unfoldable pub serve : Master → ℕ → Name → ℕ → ProData → ProData × Option ℕ
serve m pid name id p =
    let (q, done) = server_slots m pid name id (max_clients_of p id) 0 p in
    (q, if done then some id else none)

-- create_service; -1 is `none`.
unfoldable pub create_service : Master → ℕ → Name → ProData → ProData × Option ℕ
create_service m pid name p =
    maybe (p, none)
      (λ st.
        let q = if st.entry_num == length p.services then p else set_service_data p in
        if leb service_max (entry_num_of q)
        then (q, none)
        else let (r, id) = get_service_id name q in
          maybe
            (let (s, again) = get_service_id name (set_service_data r) in
              maybe (s, none) (λ id'. serve m pid name id' s) again)
            (λ id'. serve m pid name id' r) id)
      p.service_table

-- What create_service_client can come to: its result, or a write past the end of `clientName`.
pub data Outcome : Type 0 where
  done : ProData → Option (ℕ × ℕ) → Outcome
  out_of_bounds : Outcome

-- The slot of a new client.
abbrev pub set_client : ℕ → ℕ → Name → ServiceEntry → ServiceEntry
set_client j event client_name e =
    record (set_slot e j (record (e.client_channel_map j) {
      enabled = true;
      client_name = client_name;
      response_recv_event_id = some event;
    })) { next_client_id = e.next_client_id + 1 }

-- `clientName[clientName.length()] = '\0'` must stay inside the array.
abbrev pub store_client : ℕ → ℕ → ℕ → Name → ProData → Outcome
store_client id j event client_name p =
    if leb client_namelen_max (length client_name)
    then out_of_bounds
    else done (modify_service (set_client j event client_name) id p) (some (id, j))

-- create_service_client under the lock of the service's entry.
unfoldable pub attach_client : Master → ℕ → Name → Name → ℕ → ServiceEntry → ProData → Outcome
attach_client m pid service_name client_name id e p =
    maybe
      (if leb e.max_clients e.next_client_id
        then done p none
        else let j = e.next_client_id in
          let (q, event) =
            register_channel m pid service_name (e.client_channel_map j).response_channel_id p in
          maybe (done q none) (λ ev. store_client id j ev client_name q) event)
      (λ j.
        let (q, event) =
          update_channel m pid service_name (e.client_channel_map j).response_channel_id p in
        maybe (done q none) (λ ev. done q (some (id, j))) event)
      (first (named e.client_channel_map client_name) e.next_client_id 0)

-- create_service_client; the ids of the service and of the client, or -1.
unfoldable pub create_service_client : Master → ℕ → Name → Name → ProData → Outcome
create_service_client m pid service_name client_name p =
    maybe (done p none)
      (λ st.
        let q = if st.entry_num == 0 then set_service_data p else p in
        if length service_name == 0
        then done q none
        else if length client_name == 0
        then done q none
        else if ltb service_namelen_max (length service_name)
        then done q none
        else if ltb client_namelen_max (length client_name)
        then done q none
        else let (r, id) = get_service_id service_name q in
          maybe (done r none)
            (λ id'.
              maybe (done r none)
                (λ st'. attach_client m pid service_name client_name id' (st'.entries id') r)
                r.service_table)
            id)
      p.service_table
