-- ===== src/RecvEvent/Sweeps.antt =====
-- What the loops over the receive-event table leave in each entry
-- (sources/core/src/hako_pro_data.cpp, sources/core/src/hako_pro_data_recv_event.cpp).
use hakoniwa_core_pro.Base.{
  ℕ, ◌≡◌, refl, Bool, true, false, not, ◌&&◌, none, some, ltb, ◌==◌, if◌then◌else◌, arith, sweep,
  sweep_at, sweep_keeps,
}
use hakoniwa_core_pro.RecvEvent.{Entry, Table}
use hakoniwa_core_pro.RecvEvent.Callbacks.{Calls, callback_round}
use hakoniwa_core_pro.RecvEvent.Hooks.{write_round, clear_round, clear_entry}

-- What a loop keeps: the number of entries and the lock.
abbrev pub SameFrame : Table → Table → Type 0
SameFrame t u = (u.entry_num ≡ t.entry_num) × (u.atomic_is_busy ≡ t.atomic_is_busy)

abbrev pub raised : ℕ → Entry → Entry
raised c e = if e.enabled && e.real_channel_id == c then record e { recv_flag = true } else e

write_round_at :
    (c i : ℕ) (s : Table × Bool) (j : ℕ)
    → (write_round c i s).0.entries j ≡ (if j == i then raised c (s.0.entries i) else s.0.entries j)
unfolding write_round
write_round_at c i (t, b) j = ground arith

pub write_sweep_at :
    (c n : ℕ) (t : Table) (j : ℕ)
    → (sweep (write_round c) n 0 (t, false)).0.entries j
      ≡ (if ltb j n then raised c (t.entries j) else t.entries j)
write_sweep_at c n t j = ground (
  arith,
  sweep_at (λ (s : Table × Bool). s.0.entries) (raised c) (write_round c) (write_round_at c) n 0
      (t, false) j,
)

pub write_sweep-SameFrame :
    (c n : ℕ) (t : Table) → SameFrame t (sweep (write_round c) n 0 (t, false)).0
unfolding write_round
write_sweep-SameFrame c n t =
    sweep_keeps (λ s. SameFrame t s.0) (write_round c) (λ i s h. ground arith) n 0 (t, false)
      (refl, refl)

pub clear_sweep_at :
    (n : ℕ) (t : Table) (j : ℕ)
    → (sweep clear_round n 0 t).entries j
      ≡ (if ltb j n then clear_entry (t.entries j) else t.entries j)
unfolding clear_round
clear_sweep_at n t j = ground (
  arith,
  sweep_at (λ (s : Table). s.entries) clear_entry clear_round (λ i s k. ground arith) n 0 t j,
)

pub clear_sweep-SameFrame : (n : ℕ) (t : Table) → SameFrame t (sweep clear_round n 0 t)
unfolding clear_round
clear_sweep-SameFrame n t =
    sweep_keeps (SameFrame t) clear_round (λ i s h. ground arith) n 0 t (refl, refl)

-- The event of an entry with a callback is taken by its owner's loop.
abbrev pub called : ℕ → Entry → Bool
called pid e = elim e.on_recv [
  | none ↦ false
  | some f ↦ e.enabled && e.proc_id == pid && (e.recv_flag && not e.pending_flag)
]

abbrev pub taken : ℕ → Entry → Entry
taken pid e = if called pid e then record e { recv_flag = false } else e

callback_round_at :
    (pid i : ℕ) (s : Table × Calls) (j : ℕ)
    → (callback_round pid i s).0.entries j
      ≡ (if j == i then taken pid (s.0.entries i) else s.0.entries j)
unfolding callback_round
callback_round_at pid i (t, calls) j = ground arith

pub callback_sweep_at :
    (pid n : ℕ) (t : Table) (calls : Calls) (j : ℕ)
    → (sweep (callback_round pid) n 0 (t, calls)).0.entries j
      ≡ (if ltb j n then taken pid (t.entries j) else t.entries j)
callback_sweep_at pid n t calls j = ground (
  arith,
  sweep_at (λ (s : Table × Calls). s.0.entries) (taken pid) (callback_round pid)
      (callback_round_at pid) n 0 (t, calls) j,
)

pub callback_sweep-SameFrame :
    (pid n : ℕ) (t : Table) (calls : Calls)
    → SameFrame t (sweep (callback_round pid) n 0 (t, calls)).0
unfolding callback_round
callback_sweep-SameFrame pid n t calls =
    sweep_keeps (λ s. SameFrame t s.0) (callback_round pid) (λ i s h. ground arith) n 0 (t, calls)
      (refl, refl)
