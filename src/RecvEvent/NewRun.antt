-- ===== src/RecvEvent/NewRun.antt =====
-- What the start of a run leaves of the receive events: clear_run_flags
-- (sources/core/src/hako_pro_data.cpp).
use hakoniwa_core_pro.Base.{
  sweep, ℕ, ◌≡◌, refl, true, false, none, some, if◌then◌else◌, ltb, arith, Option-cases, inl, inr,
}
use hakoniwa_core_pro.RecvEvent.{Entry, Table, Master, lock, unlock, get_recv_event}
use hakoniwa_core_pro.RecvEvent.Hooks.{
  on_pdu_data_before_write, clear_run_flags, clear_entry, clear_round,
}
use hakoniwa_core_pro.RecvEvent.Sweeps.{clear_sweep_at, clear_sweep-SameFrame}
use hakoniwa_core_pro.RecvEvent.Invariant.{IsValid}
use hakoniwa_core_pro.RecvEvent.Delivery.{before_write_iff, get_recv_event_iff}

-- What configures an entry, as opposed to what belongs to a run.
abbrev pub SameRegistration : Entry → Entry → Type 0
SameRegistration e f =
    (f.enabled ≡ e.enabled)
    × (f.proc_id ≡ e.proc_id)
    × (f.real_channel_id ≡ e.real_channel_id)
    × (f.type ≡ e.type)
    × (f.on_recv ≡ e.on_recv)

cleared : Table → Table
cleared t = unlock (sweep clear_round t.entry_num 0 (lock t))

cleared_num : (t : Table) → (cleared t).entry_num ≡ t.entry_num
unfolding cleared
cleared_num t = (clear_sweep-SameFrame t.entry_num (lock t)).0

cleared_at :
    (t : Table) (j : ℕ)
    → (cleared t).entries j ≡ (if ltb j t.entry_num then clear_entry (t.entries j) else t.entries j)
unfolding cleared
cleared_at t j = clear_sweep_at t.entry_num (lock t) j

-- No event is left to take.
cleared_undelivered :
    (m : Master) (pid c : ℕ) (t : Table) → (get_recv_event m pid c (some (cleared t))).1 ≡ none
cleared_undelivered m pid c t = elim (Option-cases (get_recv_event m pid c (some (cleared t))).1) [
  | inl e ↦ e
  | inr (i, e) ↦
      let d = (get_recv_event_iff m pid c (cleared t) i).0 e in
      absurd (ground (arith, d.1.0, d.1.1, d.2, cleared_num t, cleared_at t i))
]

-- In a valid table clear_run_flags keeps every registration and their number, releases the lock, leaves
-- no event to any process, and holds back no writer on any channel.
pub clear_run_flags_lem :
    (m : Master) (t : Table)
    → IsValid t
    → (u : Table) × (clear_run_flags (some t) ≡ some u)
      × (u.entry_num ≡ t.entry_num)
      × (u.atomic_is_busy ≡ false)
      × ((i : ℕ) → SameRegistration (t.entries i) (u.entries i))
      × ((pid c : ℕ) → (get_recv_event m pid c (some u)).1 ≡ none)
      × ((c : ℕ) → on_pdu_data_before_write c (some u) ≡ true)
unfolding clear_run_flags cleared
clear_run_flags_lem m t v = (
  cleared t,
  refl,
  cleared_num t,
  refl,
  λ i. ground (arith, cleared_at t i),
  λ pid c. cleared_undelivered m pid c t,
  λ c.
      (before_write_iff c (cleared t)).1
        (λ i l. ground (arith, cleared_num t, cleared_at t i, v.sound i)),
)
