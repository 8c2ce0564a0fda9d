-- ===== src/Service.antt =====
-- The service table of the shared memory: HakoServiceTableType
-- (sources/core/include/hako_pro_data_types.hpp) and the methods of HakoProData that fill it and look
-- names up in it (sources/core/src/service/hako_pro_data_service.cpp,
-- sources/core/include/hako_pro_data.hpp). An index past the end of an array of the table is undefined
-- behaviour in C++. Here the arrays have no end, so definitions and theorems are about configurations of at
-- most 1024 services with at most 256 clients each; Service/Slots bounds the indices for these.
pub mod Create
pub mod Channels
pub mod Calls
pub mod Responses
pub mod Slots
pub mod History
pub mod Reconnect
pub mod Return
pub mod Served
pub mod Index
use hakoniwa_core_pro.Base.{
  ℕ, zero, suc, ◌+◌, ◌*◌, Bool, true, false, not, ◌&&◌, ◌||◌, Option, none, some, List, [], ◌∷◌,
  ltb, leb, ◌==◌, if◌then◌else◌, maybe, Array, write, first, sweep, Name, name_eq,
}
use hakoniwa_core_pro.RecvEvent.{Table}

-- HAKO_SERVICE_MAX, HAKO_SERVICE_NAMELEN_MAX, HAKO_CLIENT_NAMELEN_MAX
abbrev pub service_max : ℕ
service_max = 1024

abbrev pub service_namelen_max : ℕ
service_namelen_max = 128

abbrev pub client_namelen_max : ℕ
client_namelen_max = 64

-- HAKO_SERVICE_SERVER_CHANNEL_ID + HAKO_SERVICE_SERVER_CHANNEL_ID_MAX * j, and so for the client.
abbrev pub server_channel : ℕ → ℕ
server_channel j = 0 + 2 * j

abbrev pub client_channel : ℕ → ℕ
client_channel j = 1 + 2 * j

-- HakoServiceClientChannelMapType; a receive-event id of -1 is `none`.
pub record Slot : Type 0 where
  pub enabled : Bool
  pub client_name : Name
  pub request_channel_id : ℕ
  pub request_recv_event_id : Option ℕ
  pub response_channel_id : ℕ
  pub response_recv_event_id : Option ℕ

-- HakoServiceEntryTye
pub record ServiceEntry : Type 0 where
  pub enabled : Bool
  pub namelen : ℕ
  pub service_name : Name
  pub max_clients : ℕ
  pub next_client_id : ℕ
  pub atomic_is_busy : Bool
  pub pdu_size_request : ℕ
  pub pdu_size_response : ℕ
  pub client_channel_map : Array Slot

-- HakoServiceTableType
pub record ServiceTable : Type 0 where
  pub entry_num : ℕ
  pub entries : Array ServiceEntry

-- A service of the configuration file: `Service` of hako_pro_data.hpp.
pub record ServiceConfig : Type 0 where
  pub name : Name
  pub max_clients : ℕ
  pub server_total_size : ℕ
  pub client_total_size : ℕ

-- The members of HakoProData: the two tables in shared memory, the parsed configuration
-- (`service_impl_.services`), and the map from names to ids (`service_name_to_id_`).
pub record ProData : Type 0 where
  pub recv_event_table : Option Table
  pub service_table : Option ServiceTable
  pub services : List ServiceConfig
  pub service_name_to_id : Name → Option ℕ

abbrev pub length {ℓ} : {A : Type ℓ} → List A → ℕ
length [] = 0
length (x ∷ xs) = suc (length xs)

abbrev pub set_service : ServiceTable → ℕ → ServiceEntry → ServiceTable
set_service st i e = record st { entries = write st.entries i e }

abbrev pub set_slot : ServiceEntry → ℕ → Slot → ServiceEntry
set_slot e j s = record e { client_channel_map = write e.client_channel_map j s }

-- One round of rebuild_service_name_indexes: the entry's name now leads to it.
unfoldable pub index_round : Array ServiceEntry → ℕ → (Name → Option ℕ) → Name → Option ℕ
index_round es i index name =
    if (es i).enabled && name_eq name (es i).service_name then some i else index name

unfoldable pub index_of : ServiceTable → Name → Option ℕ
index_of st = sweep (index_round st.entries) st.entry_num 0 (λ name. none)

-- rebuild_service_name_indexes
unfoldable pub rebuild_service_name_indexes : ProData → ProData
rebuild_service_name_indexes p =
    maybe (record p { service_name_to_id = λ name. none })
      (λ st. record p { service_name_to_id = index_of st }) p.service_table

-- refresh_service_name_indexes_if_needed
unfoldable pub refresh_service_name_indexes_if_needed : ProData → ProData
refresh_service_name_indexes_if_needed p =
    maybe p (λ st. rebuild_service_name_indexes p) p.service_table

-- get_service_id; -1 is `none`.
unfoldable pub get_service_id : Name → ProData → ProData × Option ℕ
get_service_id name p =
    maybe (let q = refresh_service_name_indexes_if_needed p in (q, q.service_name_to_id name))
      (λ id. (p, some id)) (p.service_name_to_id name)

-- is_exist_service
unfoldable pub is_exist_service : Name → ProData → ProData × Bool
is_exist_service name p = let (q, id) = get_service_id name p in (q, maybe false (λ i. true) id)

-- The slot of a client, by its name.
abbrev pub named : Array Slot → Name → ℕ → Bool
named slots client_name i = (slots i).enabled && name_eq client_name (slots i).client_name

-- is_exist_client_on_service; the entry's lock is taken and released.
unfoldable pub is_exist_client_on_service : Name → Name → ProData → ProData × Bool
is_exist_client_on_service service_name client_name p =
    let (q, id) = get_service_id service_name p in
    (
      q,
      maybe false
          (λ i.
            maybe false
              (λ st.
                maybe false (λ k. true)
                  (first (named (st.entries i).client_channel_map client_name)
                    (st.entries i).max_clients 0))
              q.service_table)
          id,
    )

-- The slot that set_service_data leaves: free, with the channels of its index.
unfoldable pub slot_round : ℕ → Array Slot → Array Slot
slot_round j slots = write slots j (record (slots j) {
  enabled = false;
  request_channel_id = server_channel j;
  response_channel_id = client_channel j;
})

-- The entry of a service up to the test of its name's length.
abbrev pub started : ServiceConfig → ServiceEntry → ServiceEntry
started c e = record e {
  enabled = true;
  max_clients = c.max_clients;
  next_client_id = 0;
  atomic_is_busy = false;
  pdu_size_request = c.server_total_size;
  pdu_size_response = c.client_total_size;
}

abbrev pub configured : ServiceConfig → ServiceEntry → ServiceEntry
configured c e = record (started c e) {
  namelen = length c.name;
  service_name = c.name;
  client_channel_map = sweep slot_round c.max_clients 0 e.client_channel_map;
}

-- The loop of set_service_data; a name that is too long ends it.
unfoldable pub set_entries : List ServiceConfig → ℕ → Array ServiceEntry → Array ServiceEntry
set_entries [] i es = es
set_entries (c ∷ cs) i es =
    let rest = set_entries cs (suc i) (write es i (configured c (es i))) in
    if leb service_namelen_max (length c.name) then write es i (started c (es i)) else rest

-- set_service_data
unfoldable pub set_service_data : ProData → ProData
set_service_data p =
    maybe p
      (λ st. rebuild_service_name_indexes (record p {
        service_table = some (record {
          entry_num = length p.services;
          entries = set_entries p.services 0 st.entries;
        });
      }))
      p.service_table
