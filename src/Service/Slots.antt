-- ===== src/Service/Slots.antt =====
-- The client slots of each service, kept by the calls that fill them
-- (sources/core/src/service/hako_pro_data_service.cpp).
use hakoniwa_core_pro.Base.{
  ℕ, zero, suc, ◌≤◌, ◌<◌, ◌≡◌, refl, subst, arith, Bool, true, false, Option, none, some, List, [],
  ◌∷◌, leb, ltb, ◌==◌, if◌then◌else◌, maybe, Array, write, first, first-none, Name, name_eq,
  if_cases, maybe_cases, if_intro, maybe_intro,
}
use hakoniwa_core_pro.RecvEvent.{Master}
use hakoniwa_core_pro.Service.{
  ServiceEntry, ServiceTable, ServiceConfig, ProData, named, server_channel, started, configured,
  set_entries, set_service_data, rebuild_service_name_indexes,
  refresh_service_name_indexes_if_needed, get_service_id, length, service_max, service_namelen_max,
  client_namelen_max,
}
use hakoniwa_core_pro.Service.Create.{
  Outcome, done, out_of_bounds, register_channel, update_channel, modify_service, set_request,
  set_client, server_slots, serve, create_service, attach_client, create_service_client,
  entry_num_of, max_clients_of,
}

-- HAKO_SERVICE_CLIENT_MAX, the length of clientChannelMap
abbrev pub client_max : ℕ
client_max = 256

-- A configuration that the arrays of the table have room for: nothing in the code tests this.
abbrev pub RoomFor : List ServiceConfig → Type 0
RoomFor [] = Unit
RoomFor (c ∷ cs) = (c.max_clients ≤ client_max) × RoomFor cs

pub record Fits (services : List ServiceConfig) : Type 0 where
  pub count : length services ≤ service_max
  pub clients : RoomFor services

-- The slots below `nextClientId` are those in use, at most `maxClients`, one for each client name; and all
-- `maxClients` slots are inside the array.
pub record HasSlots (e : ServiceEntry) : Type 0 where
  pub inside : e.max_clients ≤ client_max
  pub within : e.next_client_id ≤ e.max_clients
  pub in_use : (j : ℕ) → j < e.next_client_id → (e.client_channel_map j).enabled ≡ true
  pub distinct :
      (i j : ℕ)
      → i < j
      → j < e.next_client_id
      → name_eq (e.client_channel_map j).client_name (e.client_channel_map i).client_name ≡ false

abbrev pub AllSlots : Array ServiceEntry → Type 0
AllSlots es = (i : ℕ) → HasSlots (es i)

abbrev pub ValidTable? : Option ServiceTable → Type 0
ValidTable? ot = maybe Unit (λ st. (st.entry_num ≤ service_max) × AllSlots st.entries) ot

abbrev pub ValidServices : ProData → Type 0
ValidServices p = Fits p.services × ValidTable? p.service_table

known_slots :
    (p : ProData) (st : ServiceTable)
    → p.service_table ≡ some st
    → ValidServices p
    → (st.entry_num ≤ service_max) × AllSlots st.entries
known_slots p st e v = subst ValidTable? e v.1

-- A service without clients.
pub no_clients : (e : ServiceEntry) → e.max_clients ≤ client_max → e.next_client_id ≡ 0 → HasSlots e
no_clients e room z = record {
  inside = room;
  within = omega arith;
  in_use = λ j l. absurd (omega arith);
  distinct = λ i j l l2. absurd (omega arith);
}

write-AllSlots :
    (es : Array ServiceEntry) (i : ℕ) (e : ServiceEntry)
    → AllSlots es
    → HasSlots e
    → AllSlots (write es i e)
write-AllSlots es i e v h k = if_intro HasSlots (k == i) h (v k)

set_entries-AllSlots :
    (cs : List ServiceConfig) (i : ℕ) (es : Array ServiceEntry)
    → RoomFor cs
    → AllSlots es
    → AllSlots (set_entries cs i es)
unfolding set_entries
set_entries-AllSlots [] i es room v = v
set_entries-AllSlots (c ∷ cs) i es room v =
    if_intro AllSlots (leb 128 (length c.name))
      (write-AllSlots es i (started c (es i)) v (no_clients (started c (es i)) room.0 refl))
      (set_entries-AllSlots cs (suc i) (write es i (configured c (es i))) room.1 (
        write-AllSlots es i (configured c (es i)) v (no_clients (configured c (es i)) room.0 refl)))

set_service_data-ValidServices :
    (p : ProData) → ValidServices p → ValidServices (set_service_data p)
unfolding set_service_data rebuild_service_name_indexes
set_service_data-ValidServices p v =
    maybe_cases ValidServices p.service_table (λ e. v)
      (λ st e. (
        v.0,
        (
          v.0.count,
          set_entries-AllSlots p.services 0 st.entries v.0.clients (known_slots p st e v).1,
        ),
      ))

get_service_id-ValidServices :
    (name : Name) (p : ProData) → ValidServices p → ValidServices (get_service_id name p).0
unfolding get_service_id refresh_service_name_indexes_if_needed rebuild_service_name_indexes
get_service_id-ValidServices name p v =
    maybe_intro (λ (r : ProData × Option ℕ). ValidServices r.0) (p.service_name_to_id name)
      (maybe_intro ValidServices p.service_table v (λ st. v_index st)) (λ id. v)
  where
    v_index : (st : ServiceTable) → ValidServices (rebuild_service_name_indexes p)
    v_index st = maybe_cases ValidServices p.service_table (λ e. v) (λ st e. v)

-- A client takes the next slot; no other has its name.
set_client-HasSlots :
    (event : ℕ) (client_name : Name) (e : ServiceEntry)
    → HasSlots e
    → e.next_client_id < e.max_clients
    → first (named e.client_channel_map client_name) e.next_client_id 0 ≡ none
    → HasSlots (set_client e.next_client_id event client_name e)
set_client-HasSlots event client_name e v l fresh = record {
  inside = v.inside;
  within = omega (arith, v.within, l);
  in_use = λ j lj. ground (arith, v.in_use j);
  distinct = λ i j lij lj. ground (
    arith,
    v.in_use i,
    v.distinct i j,
    first-none (named e.client_channel_map client_name) e.next_client_id 0 i fresh,
  );
}

set_request-HasSlots :
    (j event : ℕ) (e : ServiceEntry) → HasSlots e → HasSlots (set_request j event e)
set_request-HasSlots j event e v = record {
  inside = v.inside;
  within = v.within;
  in_use = λ k lk. ground (arith, v.in_use k);
  distinct = λ i k l lk. ground (arith, v.distinct i k);
}

modify_service-ValidServices :
    (f : ServiceEntry → ServiceEntry) (id : ℕ) (p : ProData)
    → ((st : ServiceTable) → p.service_table ≡ some st → HasSlots (f (st.entries id)))
    → ValidServices p
    → ValidServices (modify_service f id p)
modify_service-ValidServices f id p h v =
    maybe_cases ValidServices p.service_table (λ e. v)
      (λ st e.
        let (count, slots) = known_slots p st e v in
        (v.0, (count, write-AllSlots st.entries id (f (st.entries id)) slots (h st e))))

one_table :
    (ot : Option ServiceTable) (st st' : ServiceTable) → ot ≡ some st → ot ≡ some st' → st ≡ st'
one_table ot st st' e e' = cc

server_slots-ValidServices :
    (m : Master) (pid : ℕ) (name : Name) (id n j : ℕ) (p : ProData)
    → ValidServices p
    → ValidServices (server_slots m pid name id n j p).0
unfolding server_slots register_channel
server_slots-ValidServices m pid name id zero j p v = v
server_slots-ValidServices m pid name id (suc n) j p v =
    let q = (register_channel m pid name (server_channel j) p).0 in
    maybe_intro (λ (r : ProData × Bool). ValidServices r.0)
      (register_channel m pid name (server_channel j) p).1 v
      (λ e.
        server_slots-ValidServices m pid name id n (suc j) (modify_service (set_request j e) id q) (
          modify_service-ValidServices (set_request j e) id q
            (λ st here. set_request-HasSlots j e (st.entries id) ((known_slots q st here v).1 id))
            v))

serve-ValidServices :
    (m : Master) (pid : ℕ) (name : Name) (id : ℕ) (p : ProData)
    → ValidServices p
    → ValidServices (serve m pid name id p).0
unfolding serve
serve-ValidServices m pid name id p v =
    server_slots-ValidServices m pid name id (max_clients_of p id) 0 p v

abbrev Valid : {A : Type 0} → ProData × A → Type 0
Valid r = ValidServices r.0

-- create_service keeps the slots of every service in order.
pub create_service-ValidServices :
    (m : Master) (pid : ℕ) (name : Name) (p : ProData)
    → ValidServices p
    → ValidServices (create_service m pid name p).0
unfolding create_service
create_service-ValidServices m pid name p v =
    maybe_intro (Valid {A = Option ℕ}) p.service_table v (λ st.
      let q = if st.entry_num == length p.services then p else set_service_data p in
      let vq =
        if_intro ValidServices (st.entry_num == length p.services) v
          (set_service_data-ValidServices p v) in
      let vr = get_service_id-ValidServices name q vq in
      let r = (get_service_id name q).0 in
      let vs =
        get_service_id-ValidServices name (set_service_data r)
          (set_service_data-ValidServices r vr) in
      if_intro Valid (leb service_max (entry_num_of q)) vq (
        maybe_intro Valid (get_service_id name q).1
          (maybe_intro Valid (get_service_id name (set_service_data r)).1 vs (λ id.
            serve-ValidServices m pid name id (get_service_id name (set_service_data r)).0 vs))
          (λ id. serve-ValidServices m pid name id r vr)))

-- What a registration of a client leaves, unless it writes out of bounds.
abbrev pub ValidOutcome : Outcome → Type 0
ValidOutcome (done p ids) = ValidServices p
ValidOutcome out_of_bounds = Unit

attach_client-ValidOutcome :
    (m : Master) (pid : ℕ) (service_name client_name : Name) (id : ℕ) (st : ServiceTable)
    (p : ProData)
    → p.service_table ≡ some st
    → ValidServices p
    → ValidOutcome (attach_client m pid service_name client_name id (st.entries id) p)
unfolding attach_client register_channel update_channel
attach_client-ValidOutcome m pid service_name client_name id st p here v =
    let e = st.entries id in
    let channel = (e.client_channel_map e.next_client_id).response_channel_id in
    let q = (register_channel m pid service_name channel p).0 in
    let keep = (known_slots p st here v).1 id in
    maybe_cases ValidOutcome (first (named e.client_channel_map client_name) e.next_client_id 0)
      (λ fresh.
        if_cases ValidOutcome (leb e.max_clients e.next_client_id) (λ full. v)
          (λ room.
            maybe_intro ValidOutcome (register_channel m pid service_name channel p).1 v (λ event.
              if_intro ValidOutcome (leb client_namelen_max (length client_name)) tt (
                modify_service-ValidServices (set_client e.next_client_id event client_name) id q
                  (λ st' here'.
                    subst
                      (λ (x : ServiceTable).
                        HasSlots (set_client e.next_client_id event client_name (x.entries id)))
                      (one_table p.service_table st st' here here')
                      (set_client-HasSlots event client_name e keep (ground arith) fresh))
                  v))))
      (λ j reused.
        maybe_intro ValidOutcome
          (update_channel m pid service_name (e.client_channel_map j).response_channel_id p).1 v
          (λ event. v))

-- create_service_client keeps the slots of every service in order, unless it writes out of bounds.
pub create_service_client-ValidOutcome :
    (m : Master) (pid : ℕ) (service_name client_name : Name) (p : ProData)
    → ValidServices p
    → ValidOutcome (create_service_client m pid service_name client_name p)
unfolding create_service_client
create_service_client-ValidOutcome m pid service_name client_name p v =
    maybe_intro ValidOutcome p.service_table v (λ st.
      let q = if st.entry_num == 0 then set_service_data p else p in
      let vq = if_intro ValidServices (st.entry_num == 0) (set_service_data-ValidServices p v) v in
      let r = (get_service_id service_name q).0 in
      let vr = get_service_id-ValidServices service_name q vq in
      if_intro ValidOutcome (length service_name == 0) vq (
        if_intro ValidOutcome (length client_name == 0) vq (
          if_intro ValidOutcome (ltb service_namelen_max (length service_name)) vq (
            if_intro ValidOutcome (ltb client_namelen_max (length client_name)) vq (
              maybe_intro ValidOutcome (get_service_id service_name q).1 vr (λ id.
                maybe_cases ValidOutcome r.service_table (λ e. vr)
                  (λ st' here.
                    attach_client-ValidOutcome m pid service_name client_name id st' r here
                      vr)))))))
