-- ===== src/RecvEvent/Delivery.antt =====
-- From a write on a channel to the event that a process gets
-- (sources/core/src/hako_pro_data_recv_event.cpp, sources/core/src/hako_pro_data.cpp).
use hakoniwa_core_pro.Base.{
  Name, maybe, write, first-hit, sweep, ℕ, zero, suc, ◌+◌, ◌<◌, ◌≡◌, refl, Bool, true, false, ◌||◌,
  Option, none, some, ltb, if◌then◌else◌, arith, ◌↔◌, first, first-some, first-none,
  first-some_before, first-eq_none, first-eq_some, ap, ◌∙◌,
}
use hakoniwa_core_pro.RecvEvent.{
  Table, Master, set_entry, watches, owned_on, recv_event_max, allocate, new_entry, consume, unlock,
  register_data_recv_event, get_recv_event,
}
use hakoniwa_core_pro.RecvEvent.Hooks.{
  on_pdu_data_write, on_pdu_data_before_write, write_round, unread,
}
use hakoniwa_core_pro.RecvEvent.Sweeps.{raised, write_sweep_at, write_sweep-SameFrame, SameFrame}

-- A writer is held back exactly while an entry that watches the channel holds an event that its process
-- has neither taken nor marked as pending.
pub before_write_iff :
    (c : ℕ) (t : Table)
    → (on_pdu_data_before_write c (some t) ≡ true)
      ↔ ((i : ℕ) → i < t.entry_num → unread t.entries c i ≡ false)
unfolding on_pdu_data_before_write
before_write_iff c t = (to, back)
  where
    to :
        on_pdu_data_before_write c (some t) ≡ true
        → (i : ℕ) → i < t.entry_num
        → unread t.entries c i ≡ false
    to h i l =
        first-none (unread t.entries c) t.entry_num 0 i (ground arith) (omega arith) (omega arith)

    back :
        ((i : ℕ) → i < t.entry_num → unread t.entries c i ≡ false)
        → on_pdu_data_before_write c (some t) ≡ true
    back h = rw (first-eq_none (unread t.entries c) t.entry_num 0 (λ j lo hi. h j (omega arith)))

-- The entry of a process for a channel: the first one that it owns.
abbrev pub IsFirst : Table → ℕ → ℕ → ℕ → Type 0
IsFirst t pid c i =
    (i < t.entry_num)
    × (owned_on t.entries pid c i ≡ true)
    × ((j : ℕ) → j < i → owned_on t.entries pid c j ≡ false)

first-IsFirst :
    (t : Table) (pid c i : ℕ)
    → first (owned_on t.entries pid c) t.entry_num 0 ≡ some i
    → IsFirst t pid c i
first-IsFirst t pid c i e =
    let found = first-some (owned_on t.entries pid c) t.entry_num 0 i e in
    (
      omega arith,
      found.2,
      λ j l. first-some_before (owned_on t.entries pid c) t.entry_num 0 i j e (omega arith) l,
    )

IsFirst-first :
    (t : Table) (pid c i : ℕ)
    → IsFirst t pid c i
    → first (owned_on t.entries pid c) t.entry_num 0 ≡ some i
IsFirst-first t pid c i f =
    first-eq_some (owned_on t.entries pid c) t.entry_num 0 i (omega arith) (omega arith) f.1
      (λ j lo hi. f.2 j hi)

-- What a call of get_recv_event must meet to deliver the event of entry `i`.
abbrev pub Delivers : Master → ℕ → ℕ → Table → ℕ → Type 0
Delivers m pid c t i =
    (c < m.channel_max)
    × IsFirst t pid c i
    × ((t.entries i).recv_flag ≡ true)
    × ((t.entries i).pending_flag ≡ false)

pub get-Delivers :
    (m : Master) (pid c : ℕ) (t : Table) (i : ℕ)
    → Delivers m pid c t i
    → get_recv_event m pid c (some t)
      ≡ (some (set_entry t i (record (t.entries i) { recv_flag = false })), some i)
unfolding get_recv_event consume
get-Delivers m pid c t i d = ground (arith, IsFirst-first t pid c i d.1, d.0, d.2, d.3, d.1.0)

get-some-first :
    (m : Master) (pid c : ℕ) (t : Table) (i : ℕ)
    → (get_recv_event m pid c (some t)).1 ≡ some i
    → (c < m.channel_max)
      × (first (owned_on t.entries pid c) t.entry_num 0 ≡ some i)
      × ((t.entries i).recv_flag ≡ true)
      × ((t.entries i).pending_flag ≡ false)
unfolding get_recv_event consume
get-some-first m pid c t i e = ground arith

-- A call of get_recv_event reports entry `i` exactly if the channel id is in range, `i` is the first
-- entry of the process for the channel, and its event has been received and is not pending.
pub get_recv_event_iff :
    (m : Master) (pid c : ℕ) (t : Table) (i : ℕ)
    → ((get_recv_event m pid c (some t)).1 ≡ some i) ↔ Delivers m pid c t i
get_recv_event_iff m pid c t i = (to, λ d. ap (λ r. r.1) (get-Delivers m pid c t i d))
  where
    to : (get_recv_event m pid c (some t)).1 ≡ some i → Delivers m pid c t i
    to e = let h = get-some-first m pid c t i e in (h.0, first-IsFirst t pid c i h.1, h.2, h.3)

-- A call that reports no event leaves the table as it was.
pub get_recv_event-none :
    (m : Master) (pid c : ℕ) (ot : Option Table)
    → (get_recv_event m pid c ot).1 ≡ none
    → (get_recv_event m pid c ot).0 ≡ ot
unfolding get_recv_event consume
get_recv_event-none m pid c none e = refl
get_recv_event-none m pid c (some t) e = ground arith

write_found :
    (c n i : ℕ) (t : Table) (b : Bool)
    → (sweep (write_round c) n i (t, b)).1
      ≡ (b || maybe false (λ k. true) (first (watches t.entries c) n i))
unfolding sweep first write_round
write_found c zero i t b = ground arith
write_found c (suc n) i t b = ground (
  arith,
  write_found c n (suc i) t b,
  write_found c n (suc i) (set_entry t i (record (t.entries i) { recv_flag = true })) true,
)

-- The table after a write.
unfoldable pub written : ℕ → Table → Table
written c t = (sweep (write_round c) t.entry_num 0 (t, false)).0

-- What a write does: it raises the flag of every entry in use that watches the channel.
abbrev pub WriteEffect : ℕ → Table → Type 0
WriteEffect c t =
    ((on_pdu_data_write c (some t)).0 ≡ some (written c t))
    × ((j : ℕ)
        → (written c t).entries j
          ≡ (if ltb j t.entry_num then raised c (t.entries j) else t.entries j))
    × SameFrame t (written c t)
    × ((on_pdu_data_write c (some t)).1
        ≡ maybe false (λ k. true) (first (watches t.entries c) t.entry_num 0))

-- A write raises the flag of every entry in use that watches the channel, of no other, changes nothing
-- else, and answers whether there was one.
pub on_pdu_data_write-WriteEffect : (c : ℕ) (t : Table) → WriteEffect c t
unfolding on_pdu_data_write written
on_pdu_data_write-WriteEffect c t = (
  refl,
  write_sweep_at c t.entry_num t,
  write_sweep-SameFrame c t.entry_num t,
  write_found c t.entry_num 0 t false,
)

-- The table after a registration that finds room.
abbrev pub added : ℕ → ℕ → Option ℕ → Table → Table
added pid real on_recv t = unlock (record t {
  entries = write t.entries t.entry_num (new_entry pid real on_recv);
  entry_num = t.entry_num + 1;
})

register-added :
    (m : Master) (pid : ℕ) (robot : Name) (channel real : ℕ) (on_recv : Option ℕ) (t : Table)
    → m.pdu_channel robot channel ≡ some real
    → t.entry_num < recv_event_max
    → register_data_recv_event m pid robot channel on_recv (some t)
      ≡ (some (added pid real on_recv t), some t.entry_num)
unfolding register_data_recv_event allocate
register-added m pid robot channel real on_recv t known room = ground arith

added-written-Delivers :
    (m : Master) (pid real : ℕ) (on_recv : Option ℕ) (t : Table)
    → WriteEffect real (added pid real on_recv t)
    → real < m.channel_max
    → ((j : ℕ) → j < t.entry_num → owned_on t.entries pid real j ≡ false)
    → Delivers m pid real (written real (added pid real on_recv t)) t.entry_num
added-written-Delivers m pid real on_recv t w l fresh = (
  l,
  (ground (arith, w.2), ground (arith, w.1 t.entry_num), λ j lj. ground (arith, w.1 j, fresh j lj)),
  ground (arith, w.1 t.entry_num),
  ground (arith, w.1 t.entry_num),
)

-- The entry that was taken delivers nothing before the next write.
pub taken_again :
    (m : Master) (pid c : ℕ) (t : Table) (i : ℕ)
    → Delivers m pid c t i
    → (get_recv_event m pid c (some (set_entry t i (record (t.entries i) { recv_flag = false })))).1
      ≡ none
unfolding get_recv_event consume
taken_again m pid c t i d = ground (
  arith,
  IsFirst-first (set_entry t i (record (t.entries i) { recv_flag = false })) pid c i first_still,
)
  where
    first_still : IsFirst (set_entry t i (record (t.entries i) { recv_flag = false })) pid c i
    first_still = (d.1.0, ground (arith, d.1.1), λ j l. ground (arith, d.1.2 j l))

-- A process that registers for a channel it did not watch yet, in a table with room, gets the next write
-- on that channel exactly once: under the id of its registration, and not again before another write.
pub register_write_get :
    (m : Master) (pid : ℕ) (robot : Name) (channel real : ℕ) (on_recv : Option ℕ) (t : Table)
    → m.pdu_channel robot channel ≡ some real
    → real < m.channel_max
    → t.entry_num < recv_event_max
    → ((j : ℕ) → j < t.entry_num → owned_on t.entries pid real j ≡ false)
    → let (t1, id) = register_data_recv_event m pid robot channel on_recv (some t) in
      let (t2, heard) = on_pdu_data_write real t1 in
      let (t3, event) = get_recv_event m pid real t2 in
      (id ≡ some t.entry_num)
      × (heard ≡ true)
      × (event ≡ some t.entry_num)
      × ((get_recv_event m pid real t3).1 ≡ none)
register_write_get m pid robot channel real on_recv t known l room fresh =
    let w = on_pdu_data_write-WriteEffect real (added pid real on_recv t) in
    let d = added-written-Delivers m pid real on_recv t w l fresh in
    rw
      (
        register-added m pid robot channel real on_recv t known room,
        w.0,
        get-Delivers m pid real (written real (added pid real on_recv t)) t.entry_num d,
      )
      (
        refl,
        heard w,
        refl,
        taken_again m pid real (written real (added pid real on_recv t)) t.entry_num d,
      )
  where
    heard :
        WriteEffect real (added pid real on_recv t)
        → (on_pdu_data_write real (some (added pid real on_recv t))).1 ≡ true
    heard w =
        let (k, e, le) =
          first-hit (watches (added pid real on_recv t).entries real) (t.entry_num + 1) 0
            t.entry_num (omega arith) (omega arith) (ground arith) in
        w.3 ∙ ap (maybe false (λ i. true)) e
