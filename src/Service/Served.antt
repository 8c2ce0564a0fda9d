-- ===== src/Service/Served.antt =====
-- What a server that create_service accepted can rely on
-- (sources/core/src/service/hako_pro_data_service.cpp).
use hakoniwa_core_pro.Base.{
  ℕ, zero, suc, ◌+◌, ◌<◌, ◌≡◌, refl, sym, ap, subst, arith, Bool, true, false, Option, none, some,
  leb, ◌==◌, if◌then◌else◌, maybe, Name, Option-cases, Bool-cases, inl, inr, if_intro, maybe_cases,
  maybe_intro, ==_iff,
}
use hakoniwa_core_pro.RecvEvent.{Table, Master, owned_on, register_data_recv_event, allocate}
use hakoniwa_core_pro.Service.{
  ServiceTable, ProData, set_service, server_channel, set_service_data,
  rebuild_service_name_indexes, get_service_id, refresh_service_name_indexes_if_needed, length,
  service_max,
}
use hakoniwa_core_pro.Service.Create.{
  register_channel, modify_service, modify_service_lem, set_request, server_slots, serve,
  create_service, max_clients_of, entry_num_of,
}

-- Slot `j` of service `id`: it has the channel of its index, and a receive event of the process `pid` that
-- watches this channel.
abbrev pub IsServed : Master → ℕ → Name → ℕ → ServiceTable → Table → ℕ → Type 0
IsServed m pid name id st t j =
    let slot = (st.entries id).client_channel_map j in
    (slot.request_channel_id ≡ server_channel j)
    × (e : ℕ) × (real : ℕ) × (slot.request_recv_event_id ≡ some e)
    × (e < t.entry_num)
    × (m.pdu_channel name (server_channel j) ≡ some real)
    × (owned_on t.entries pid real e ≡ true)

-- A registration that succeeds adds an entry and keeps those before it.
Adds : Master → ℕ → Name → ℕ → Table → Table → ℕ → Type 0
Adds m pid name channel t u e =
    (e ≡ t.entry_num)
    × (u.entry_num ≡ t.entry_num + 1)
    × ((i : ℕ) → i < t.entry_num → u.entries i ≡ t.entries i)
    × (real : ℕ) × (m.pdu_channel name channel ≡ some real)
    × (owned_on u.entries pid real e ≡ true)

register-Adds :
    (m : Master) (pid : ℕ) (name : Name) (channel e : ℕ) (p : ProData) (t : Table)
    → p.recv_event_table ≡ some t
    → (register_channel m pid name channel p).1 ≡ some e
    → (u : Table) × ((register_channel m pid name channel p).0
        ≡ record p { recv_event_table = some u })
      × Adds m pid name channel t u e
unfolding register_channel register_data_recv_event allocate Adds
register-Adds m pid name channel e p t here ok = elim (Option-cases (m.pdu_channel name channel)) [
  | inl missing ↦ absurd (ground arith)
  | inr (real, known) ↦ (
    (allocate pid real none t).0,
    rw (here, known) refl,
    (ground arith, ground arith, λ i l. ground arith, real, known, ground arith),
  )
]

set_request-IsServed :
    (m : Master) (pid : ℕ) (name : Name) (id j e : ℕ) (st : ServiceTable) (t u : Table)
    → Adds m pid name (server_channel j) t u e
    → IsServed m pid name id (set_service st id (set_request j e (st.entries id))) u j
unfolding Adds
set_request-IsServed m pid name id j e st t u (at, num, keep, real, known, owned) =
    (ground arith, e, real, ground arith, omega arith, known, owned)

IsServed-still :
    (m : Master) (pid : ℕ) (name : Name) (channel id j k e : ℕ) (st : ServiceTable) (t u : Table)
    → Adds m pid name channel t u e
    → k < j
    → IsServed m pid name id st t k
    → IsServed m pid name id (set_service st id (set_request j e (st.entries id))) u k
unfolding Adds
IsServed-still m pid name channel id j k e st t u (at, num, keep, real', known', owned') l
      (ch, e', real, ev, lt, known, owned) =
    (
      ground (arith, ch),
      e',
      real,
      ground (arith, ev),
      omega arith,
      known,
      ground (arith, owned, keep e' lt),
    )

-- The slots below `n` are served, in the tables of `q`.
abbrev ServedBelow : Master → ℕ → Name → ℕ → ℕ → ℕ → ProData → Type 0
ServedBelow m pid name id most n q =
    (st : ServiceTable) × (t : Table) × (q.service_table ≡ some st)
    × (q.recv_event_table ≡ some t)
    × ((st.entries id).max_clients ≡ most)
    × ((k : ℕ) → k < n → IsServed m pid name id st t k)

abbrev SlotsServed : Master → ℕ → Name → ℕ → ℕ → ℕ → ProData × Bool → Type 0
SlotsServed m pid name id most n (q, true) = ServedBelow m pid name id most n q
SlotsServed m pid name id most n (q, false) = Unit

server_slots-SlotsServed :
    (m : Master) (pid : ℕ) (name : Name) (id most total n j : ℕ) (p : ProData)
    → total ≡ j + n
    → ServedBelow m pid name id most j p
    → SlotsServed m pid name id most total (server_slots m pid name id n j p)
unfolding server_slots
server_slots-SlotsServed m pid name id most total zero j p sum s =
    subst (λ (k : ℕ). ServedBelow m pid name id most k p) (omega arith) s
server_slots-SlotsServed m pid name id most total (suc n) j p sum
      (st, t, here, there, size, below) =
    maybe_cases (SlotsServed m pid name id most total)
      (register_channel m pid name (server_channel j) p).1 (λ failed. tt)
      (λ e ok.
        let (u, left, adds) = register-Adds m pid name (server_channel j) e p t there ok in
        server_slots-SlotsServed m pid name id most total n (suc j)
          (modify_service (set_request j e) id (register_channel m pid name (server_channel j) p).0)
          (omega arith)
          (rw
            (
              left,
              modify_service_lem (set_request j e) id (record p { recv_event_table = some u }) st
                  here,
            )
            (
              set_service st id (set_request j e (st.entries id)),
              u,
              refl,
              refl,
              ground (arith, size),
              λ k l. elim (Bool-cases (k == j)) [
                | inl same ↦
                    subst
                      (λ (i : ℕ).
                        IsServed m pid name id (set_service st id (set_request j e (st.entries id)))
                          u i)
                      (sym ((==_iff k j).0 same))
                      (set_request-IsServed m pid name id j e st t u adds)
                | inr other ↦
                    let lt : k < j = ground arith in
                    IsServed-still m pid name (server_channel j) id j k e st t u adds lt
                      (below k lt)
              ],
            )))

-- The tables in shared memory are there.
abbrev HasTables : Table → ProData → Type 0
HasTables t p = ((st : ServiceTable) × (p.service_table ≡ some st)) × (p.recv_event_table ≡ some t)

set_service_data-HasTables :
    (t : Table) (p : ProData) → HasTables t p → HasTables t (set_service_data p)
unfolding set_service_data rebuild_service_name_indexes
set_service_data-HasTables t p ((st, here), there) = rw here ((_, refl), there)

get_service_id-HasTables :
    (t : Table) (name : Name) (p : ProData) → HasTables t p → HasTables t (get_service_id name p).0
unfolding get_service_id refresh_service_name_indexes_if_needed rebuild_service_name_indexes
get_service_id-HasTables t name p ((st, here), there) =
    maybe_intro (λ (r : ProData × Option ℕ). HasTables t r.0) (p.service_name_to_id name)
      (rw here ((st, refl), there)) (λ id. ((st, here), there))

-- The result of create_service: no service, or one all of whose slots are served.
abbrev Created : Master → ℕ → Name → ProData × Option ℕ → Type 0
Created m pid name (q, none) = Unit
Created m pid name (q, some id) = (most : ℕ) × ServedBelow m pid name id most most q

SlotsServed-Created :
    (m : Master) (pid : ℕ) (name : Name) (id most : ℕ) (r : ProData × Bool)
    → SlotsServed m pid name id most most r
    → Created m pid name (r.0, if r.1 then some id else none)
SlotsServed-Created m pid name id most (q, true) s = (most, s)
SlotsServed-Created m pid name id most (q, false) s = tt

serve-Created :
    (m : Master) (pid : ℕ) (name : Name) (id : ℕ) (t : Table) (p : ProData)
    → HasTables t p
    → Created m pid name (serve m pid name id p)
unfolding serve
serve-Created m pid name id t p ((st, here), there) =
    SlotsServed-Created m pid name id (max_clients_of p id)
      (server_slots m pid name id (max_clients_of p id) 0 p)
      (server_slots-SlotsServed m pid name id (max_clients_of p id) (max_clients_of p id)
        (max_clients_of p id) 0 p (omega arith)
        (
          st,
          t,
          here,
          there,
          sym (ap (maybe 0 (λ x. (x.entries id).max_clients)) here),
          λ k l. absurd (omega arith),
        ))

create_service-Created :
    (m : Master) (pid : ℕ) (name : Name) (t : Table) (p : ProData)
    → HasTables t p
    → Created m pid name (create_service m pid name p)
unfolding create_service
create_service-Created m pid name t p h =
    let C = Created m pid name in
    maybe_intro C p.service_table tt (λ st.
      let q = if st.entry_num == length p.services then p else set_service_data p in
      let hq =
        if_intro (HasTables t) (st.entry_num == length p.services) h
          (set_service_data-HasTables t p h) in
      let r = (get_service_id name q).0 in
      let hr = get_service_id-HasTables t name q hq in
      let s = (get_service_id name (set_service_data r)).0 in
      let hs =
        get_service_id-HasTables t name (set_service_data r) (set_service_data-HasTables t r hr) in
      if_intro C (leb service_max (entry_num_of q)) tt (
        maybe_intro C (get_service_id name q).1
          (maybe_intro C (get_service_id name (set_service_data r)).1 tt
            (λ id. serve-Created m pid name id t s hs))
          (λ id. serve-Created m pid name id t r hr)))

-- If create_service succeeds with the tables in place, each of the service's slots, up to `maxClients`,
-- has the request channel of its index and the id of a receive event that belongs to the server's process
-- and watches this very channel.
pub create_service_serves :
    (m : Master) (pid : ℕ) (name : Name) (id j : ℕ) (p q : ProData) (t t2 : Table)
    (st st2 : ServiceTable)
    → p.service_table ≡ some st
    → p.recv_event_table ≡ some t
    → create_service m pid name p ≡ (q, some id)
    → q.service_table ≡ some st2
    → q.recv_event_table ≡ some t2
    → j < (st2.entries id).max_clients
    → IsServed m pid name id st2 t2 j
create_service_serves m pid name id j p q t t2 st st2 here there e here2 there2 l =
    let (most, (st', t', here', there', size, below)) =
      subst (Created m pid name) e (create_service-Created m pid name t p ((st, here), there)) in
    let same_st : st' ≡ st2 = cc in
    let same_t : t' ≡ t2 = cc in
    let size2 = subst (λ (x : ServiceTable). (x.entries id).max_clients ≡ most) same_st size in
    subst (λ (x : ServiceTable). IsServed m pid name id x t2 j) same_st
      (subst (λ (y : Table). IsServed m pid name id st' y j) same_t (below j (omega arith)))
