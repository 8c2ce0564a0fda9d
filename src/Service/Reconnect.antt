-- ===== src/Service/Reconnect.antt =====
-- A client that comes back: create_service_client for a name that has a slot
-- (sources/core/src/service/hako_pro_data_service.cpp).
use hakoniwa_core_pro.Base.{
  ℕ, ◌+◌, ◌≡◌, refl, subst, arith, Option, none, some, leb, first, first-some, first-hit,
  first-eq_some, first-none, Name, name_eq_self, Option-cases, inl, inr, maybe_cases, if_intro,
}
use hakoniwa_core_pro.RecvEvent.{
  Table, Master, watches, register_data_recv_event, update_data_recv_event, allocate, take_over,
}
use hakoniwa_core_pro.Service.{
  ServiceEntry, ServiceTable, ProData, named, length, set_service, client_namelen_max,
}
use hakoniwa_core_pro.Service.Create.{
  Outcome, done, out_of_bounds, register_channel, update_channel, modify_service,
  modify_service_lem, set_client, attach_client,
}

-- Some entry in use watches the channel.
abbrev pub IsWatched : Master → Name → ℕ → Option Table → Type 0
IsWatched m name channel ot =
    (real : ℕ) × (t : Table) × (k : ℕ) × (m.pdu_channel name channel ≡ some real)
    × (ot ≡ some t)
    × (first (watches t.entries real) t.entry_num 0 ≡ some k)

-- A registration that succeeds leaves such an entry.
allocate-watches :
    (pid real : ℕ) (t : Table) (e : ℕ)
    → (allocate pid real none t).1 ≡ some e
    → (k : ℕ) × (first
          (watches (allocate pid real none t).0.entries real)
          (allocate pid real none t).0.entry_num
          0
        ≡ some k)
unfolding allocate
allocate-watches pid real t e ok =
    let u = (allocate pid real none t).0 in
    let (k, found, le) =
      first-hit (watches u.entries real) u.entry_num 0 t.entry_num (omega arith) (ground arith)
        (ground arith) in
    (k, found)

take_over-watches :
    (pid real : ℕ) (t : Table) (e : ℕ)
    → (take_over pid real none t).1 ≡ some e
    → (k : ℕ) × (first
          (watches (take_over pid real none t).0.entries real)
          (take_over pid real none t).0.entry_num
          0
        ≡ some k)
unfolding take_over
take_over-watches pid real t e ok =
    let u = (take_over pid real none t).0 in
    let h = first-some (watches t.entries real) t.entry_num 0 e (ground arith) in
    let (k, found, le) =
      first-hit (watches u.entries real) u.entry_num 0 e (omega arith) (ground (arith, h))
        (ground (arith, h)) in
    (k, found)

register-IsWatched :
    (m : Master) (pid : ℕ) (name : Name) (channel e : ℕ) (p : ProData)
    → (register_channel m pid name channel p).1 ≡ some e
    → IsWatched m name channel (register_channel m pid name channel p).0.recv_event_table
unfolding register_channel register_data_recv_event
register-IsWatched m pid name channel e p ok = elim (Option-cases p.recv_event_table) [
  | inl missing ↦ absurd (ground arith)
  | inr (t, here) ↦ elim (Option-cases (m.pdu_channel name channel)) [
    | inl missing ↦ absurd (ground arith)
    | inr (real, known) ↦
        let (k, found) = allocate-watches pid real t e (ground arith) in
        (real, (allocate pid real none t).0, k, known, ground arith, found)
  ]
]

update-IsWatched :
    (m : Master) (pid : ℕ) (name : Name) (channel e : ℕ) (p : ProData)
    → (update_channel m pid name channel p).1 ≡ some e
    → IsWatched m name channel (update_channel m pid name channel p).0.recv_event_table
unfolding update_channel update_data_recv_event
update-IsWatched m pid name channel e p ok = elim (Option-cases p.recv_event_table) [
  | inl missing ↦ absurd (ground arith)
  | inr (t, here) ↦ elim (Option-cases (m.pdu_channel name channel)) [
    | inl missing ↦ absurd (ground arith)
    | inr (real, known) ↦
        let (k, found) = take_over-watches pid real t e (ground arith) in
        (real, (take_over pid real none t).0, k, known, ground arith, found)
  ]
]

-- Then the registration can be taken over.
update_succeeds :
    (m : Master) (pid : ℕ) (name : Name) (channel : ℕ) (p : ProData)
    → IsWatched m name channel p.recv_event_table
    → (e : ℕ) × ((update_channel m pid name channel p).1 ≡ some e)
unfolding update_channel update_data_recv_event take_over
update_succeeds m pid name channel p (real, t, k, known, here, found) =
    let h = first-some (watches t.entries real) t.entry_num 0 k found in (k, ground (arith, h))

-- A client with the slot `j` of service `id`, whose response channel is watched.
abbrev pub IsAttached : Master → Name → Name → ℕ → ℕ → ProData → ServiceTable → Type 0
IsAttached m service_name client_name id j p st =
    (p.service_table ≡ some st)
    × (first (named (st.entries id).client_channel_map client_name) (st.entries id).next_client_id 0
        ≡ some j)
    × IsWatched m service_name ((st.entries id).client_channel_map j).response_channel_id
        p.recv_event_table

-- Such a client gets its slot again.
pub attach_again :
    (m : Master) (pid : ℕ) (service_name client_name : Name) (id j : ℕ) (p : ProData)
    (st : ServiceTable)
    → IsAttached m service_name client_name id j p st
    → (q : ProData) × (attach_client m pid service_name client_name id (st.entries id) p
        ≡ done q (some (id, j)))
      × (q.service_table ≡ p.service_table)
unfolding attach_client update_channel
attach_again m pid service_name client_name id j p st (here, found, watched) =
    let channel = ((st.entries id).client_channel_map j).response_channel_id in
    let (e, ok) = update_succeeds m pid service_name channel p watched in
    ((update_channel m pid service_name channel p).0, rw (found, ok) refl, refl)

-- What a registration that succeeds leaves: the client is attached, and the rest is as before.
abbrev pub Attached : Master → Name → Name → ℕ → ProData → ServiceTable → Outcome → Type 0
Attached m service_name client_name id p st out_of_bounds = Unit
Attached m service_name client_name id p st (done q none) = Unit
Attached m service_name client_name id p st (done q (some (i, j))) =
    (i ≡ id)
    × (q.service_name_to_id ≡ p.service_name_to_id)
    × (st2 : ServiceTable) × (st2.entry_num ≡ st.entry_num)
    × IsAttached m service_name client_name id j q st2

-- The client that took the next slot is found there.
set_client_found :
    (event : ℕ) (client_name : Name) (e : ServiceEntry)
    → first (named e.client_channel_map client_name) e.next_client_id 0 ≡ none
    → first
        (named (set_client e.next_client_id event client_name e).client_channel_map client_name)
        (e.next_client_id + 1)
        0
      ≡ some e.next_client_id
set_client_found event client_name e fresh =
    first-eq_some
      (named (set_client e.next_client_id event client_name e).client_channel_map client_name)
      (e.next_client_id + 1) 0 e.next_client_id (omega arith) (omega arith)
      (ground (arith, name_eq_self client_name))
      (λ j lo hi.
        ground
          (arith, first-none (named e.client_channel_map client_name) e.next_client_id 0 j fresh))

stored :
    (m : Master) (pid : ℕ) (service_name client_name : Name) (id event : ℕ) (p : ProData)
    (st : ServiceTable)
    → p.service_table ≡ some st
    → (let e = st.entries id in
        first (named e.client_channel_map client_name) e.next_client_id 0 ≡ none)
    → (let e = st.entries id in
        (register_channel m pid service_name
          (e.client_channel_map e.next_client_id).response_channel_id
          p).1
        ≡ some event)
    → (let e = st.entries id in
        let q =
          (register_channel m pid service_name
            (e.client_channel_map e.next_client_id).response_channel_id
            p).0 in
        Attached m service_name client_name id p st (
          done
            (modify_service (set_client e.next_client_id event client_name) id q)
            (some (id, e.next_client_id))))
unfolding register_channel
stored m pid service_name client_name id event p st here fresh ok =
    let e = st.entries id in
    let channel = (e.client_channel_map e.next_client_id).response_channel_id in
    let q = (register_channel m pid service_name channel p).0 in
    let e' = set_client e.next_client_id event client_name e in
    rw (modify_service_lem (set_client e.next_client_id event client_name) id q st here) (
      refl,
      refl,
      set_service st id e',
      refl,
      (
        refl,
        ground (arith, set_client_found event client_name e fresh),
        subst (λ (c : ℕ). IsWatched m service_name c q.recv_event_table) (ground arith)
            (register-IsWatched m pid service_name channel event p ok),
      ),
    )

pub attach_client-Attached :
    (m : Master) (pid : ℕ) (service_name client_name : Name) (id : ℕ) (p : ProData)
    (st : ServiceTable)
    → p.service_table ≡ some st
    → Attached m service_name client_name id p st
        (attach_client m pid service_name client_name id (st.entries id) p)
unfolding attach_client register_channel update_channel
attach_client-Attached m pid service_name client_name id p st here =
    let e = st.entries id in
    let channel = (e.client_channel_map e.next_client_id).response_channel_id in
    let A = Attached m service_name client_name id p st in
    maybe_cases A (first (named e.client_channel_map client_name) e.next_client_id 0)
      (λ fresh. if_intro A (leb e.max_clients e.next_client_id) tt (
        maybe_cases A (register_channel m pid service_name channel p).1 (λ none'. tt)
          (λ event ok.
            if_intro A (leb client_namelen_max (length client_name)) tt
              (stored m pid service_name client_name id event p st here fresh ok))))
      (λ j found.
        maybe_cases A
          (update_channel m pid service_name (e.client_channel_map j).response_channel_id p).1
          (λ none'. tt)
          (λ event ok. (
            refl,
            refl,
            st,
            refl,
            (
              here,
              found,
              update-IsWatched m pid service_name (e.client_channel_map j).response_channel_id event
                  p ok,
            ),
          )))
