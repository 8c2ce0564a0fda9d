-- ===== src/Service/Return.antt =====
-- The whole of create_service_client for a client that comes back
-- (sources/core/src/service/hako_pro_data_service.cpp).
use hakoniwa_core_pro.Base.{
  ℕ, ◌≡◌, ◌≢◌, sym, ap, ◌∙◌, subst, arith, false, none, some, ltb, ◌==◌, Name, Option-cases, inl,
  inr,
}
use hakoniwa_core_pro.RecvEvent.{Master}
use hakoniwa_core_pro.Service.{
  ServiceTable, ProData, length, get_service_id, refresh_service_name_indexes_if_needed,
  rebuild_service_name_indexes, client_namelen_max, service_namelen_max,
}
use hakoniwa_core_pro.Service.Create.{
  Outcome, done, out_of_bounds, attach_client, create_service_client,
}
use hakoniwa_core_pro.Service.Reconnect.{IsWatched, Attached, attach_again, attach_client-Attached}

get_service_id-same :
    (name : Name) (p : ProData) → (get_service_id name p).0.service_table ≡ p.service_table
unfolding get_service_id refresh_service_name_indexes_if_needed rebuild_service_name_indexes
get_service_id-same name p =
    ground (arith, Option-cases p.service_table, Option-cases (p.service_name_to_id name))

get_service_id-events :
    (name : Name) (p : ProData) → (get_service_id name p).0.recv_event_table ≡ p.recv_event_table
unfolding get_service_id refresh_service_name_indexes_if_needed rebuild_service_name_indexes
get_service_id-events name p =
    ground (arith, Option-cases p.service_table, Option-cases (p.service_name_to_id name))

-- The tests on the names that the registration has passed.
abbrev NamesPass : Name → Name → Type 0
NamesPass service_name client_name =
    ((length service_name == 0) ≡ false)
    × ((length client_name == 0) ≡ false)
    × (ltb service_namelen_max (length service_name) ≡ false)
    × (ltb client_namelen_max (length client_name) ≡ false)

-- A further registration of the client, from a process that shares the tables and whose index leads to the same service, gives
-- the same ids and leaves the table as it is.
abbrev Returns : Master → ℕ → Name → Name → Outcome → Type 0
Returns m pid service_name client_name out_of_bounds = Unit
Returns m pid service_name client_name (done q none) = Unit
Returns m pid service_name client_name (done q (some ids)) =
    (other : ProData)
    → other.service_table ≡ q.service_table
    → other.recv_event_table ≡ q.recv_event_table
    → (get_service_id service_name other).1 ≡ some ids.0
    → (q2 : ProData) × (create_service_client m pid service_name client_name other
        ≡ done q2 (some ids))
      × (q2.service_table ≡ q.service_table)

-- Once the names have passed and the service is known, all that is left is attach_client.
create_at :
    (m : Master) (pid : ℕ) (service_name client_name : Name) (id : ℕ) (p r : ProData)
    (st st' : ServiceTable)
    → p.service_table ≡ some st
    → (st.entry_num == 0) ≡ false
    → NamesPass service_name client_name
    → get_service_id service_name p ≡ (r, some id)
    → r.service_table ≡ some st'
    → create_service_client m pid service_name client_name p
      ≡ attach_client m pid service_name client_name id (st'.entries id) r
unfolding create_service_client
create_at m pid service_name client_name id p r st st' here filled n got here' =
    ground (arith, here, filled, n.0, n.1, n.2, n.3, got, here')

Attached-Returns :
    (m : Master) (pid : ℕ) (service_name client_name : Name) (id : ℕ) (p : ProData)
    (st : ServiceTable) (o : Outcome)
    → NamesPass service_name client_name
    → (st.entry_num == 0) ≡ false
    → Attached m service_name client_name id p st o
    → Returns m pid service_name client_name o
Attached-Returns m pid service_name client_name id p st out_of_bounds n filled a = tt
Attached-Returns m pid service_name client_name id p st (done q none) n filled a = tt
Attached-Returns m pid service_name client_name id p st (done q (some (i, j))) n filled
      (same, index, st2, num, attached) =
    λ other same_services same_events got.
      let r = (get_service_id service_name other).0 in
      let services = get_service_id-same service_name other ∙ same_services in
      let events = get_service_id-events service_name other ∙ same_events in
      let here = services ∙ attached.0 in
      let watched =
        subst (IsWatched m service_name ((st2.entries id).client_channel_map j).response_channel_id)
          (sym events) attached.2 in
      let (q2, again, kept) =
        attach_again m pid service_name client_name id j r st2 (here, attached.1, watched) in
      let filled2 = ap (λ k. k == 0) num ∙ filled in
      let found = got ∙ ap (λ k. some k) same in
      (
        q2,
        create_at m pid service_name client_name id other r st2 st2 (same_services ∙ attached.0)
              filled2 n (ap (λ x. (r, x)) found) here
            ∙ again
            ∙ ap (λ k. done q2 (some (k, j))) (sym same),
        kept ∙ services,
      )

-- What a registration that succeeds says of its tests.
passed :
    (m : Master) (pid : ℕ) (service_name client_name : Name) (p q : ProData) (st : ServiceTable)
    (ids : ℕ × ℕ)
    → p.service_table ≡ some st
    → (st.entry_num == 0) ≡ false
    → create_service_client m pid service_name client_name p ≡ done q (some ids)
    → NamesPass service_name client_name × (id : ℕ) × ((get_service_id service_name p).1 ≡ some id)
unfolding create_service_client
passed m pid service_name client_name p q st ids here filled e =
    elim (Option-cases (get_service_id service_name p).1) [
      | inl missing ↦ absurd (ground (arith, e, here, filled, missing))
      | inr (id, found) ↦ (
        (
          ground (arith, e, here, filled),
          ground (arith, e, here, filled),
          ground (arith, e, here, filled),
          ground (arith, e, here, filled),
        ),
        id,
        found,
      )
    ]

-- On a service table that has been filled: once create_service_client has given a client its ids, a
-- further call for the same names, by any process that shares the tables, with a pid, a configuration and an index of names of its own, under which get_service_id leads to
-- the same service, succeeds with the same ids, takes no other slot and changes nothing in the service table.
pub client_gets_slot_again :
    (m : Master) (pid pid2 : ℕ) (service_name client_name : Name) (p q other : ProData)
    (st : ServiceTable) (ids : ℕ × ℕ)
    → p.service_table ≡ some st
    → st.entry_num ≢ 0
    → create_service_client m pid service_name client_name p ≡ done q (some ids)
    → other.service_table ≡ q.service_table
    → other.recv_event_table ≡ q.recv_event_table
    → (get_service_id service_name other).1 ≡ some ids.0
    → (q2 : ProData) × (create_service_client m pid2 service_name client_name other
        ≡ done q2 (some ids))
      × (q2.service_table ≡ q.service_table)
client_gets_slot_again m pid pid2 service_name client_name p q other st ids here nonempty e =
    let filled : (st.entry_num == 0) ≡ false = ground arith in
    let (n, id, found) = passed m pid service_name client_name p q st ids here filled e in
    let r = (get_service_id service_name p).0 in
    let here' = get_service_id-same service_name p ∙ here in
    let at =
      create_at m pid service_name client_name id p r st st here filled n (ap (λ x. (r, x)) found)
        here' in
    let returns = subst (Returns m pid2 service_name client_name) (sym at ∙ e) (
      Attached-Returns m pid2 service_name client_name id r st
        (attach_client m pid service_name client_name id (st.entries id) r) n filled
        (attach_client-Attached m pid service_name client_name id r st here')) in
    returns other

-- create_service_client writes past the end of `clientName` only for a name of 64 bytes: one less fits,
-- and one more is refused.
pub out_of_bounds-length :
    (m : Master) (pid : ℕ) (service_name client_name : Name) (p : ProData)
    → create_service_client m pid service_name client_name p ≡ out_of_bounds
    → length client_name ≡ 64
unfolding create_service_client attach_client
out_of_bounds-length m pid service_name client_name p e = ground arith
