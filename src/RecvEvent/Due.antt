-- ===== src/RecvEvent/Due.antt =====
-- Which callbacks call_recv_event_callbacks runs
-- (sources/core/src/hako_pro_data_recv_event.cpp).
use hakoniwa_core_pro.Base.{
  Name, sweep, ℕ, zero, suc, ◌≡◌, ◌≢◌, ◌≤◌, refl, true, false, Option, none, some, [], ◌∷◌, ◌++◌,
  if◌then◌else◌, ltb, arith, Array, ◌&&◌, maybe, sym, ap, ◌∙◌,
}
use mathlib.Core.List.{append_assoc, append-nil}
use hakoniwa_core_pro.RecvEvent.{Entry, Table, Master}
use hakoniwa_core_pro.RecvEvent.Callbacks.{
  Calls, callback_round, call_recv_event_callbacks, known_asset,
}
use hakoniwa_core_pro.RecvEvent.Sweeps.{called, callback_sweep_at, callback_sweep-SameFrame}

-- The callback of an entry whose event its owner is to be told of.
abbrev pub due : ℕ → Entry → Option ℕ
due pid e = if called pid e then e.on_recv else none

-- The calls for the `n` entries from `i` on, in the order of their ids.
abbrev pub due_calls : ℕ → Array Entry → ℕ → ℕ → Calls
due_calls pid es zero i = []
due_calls pid es (suc n) i =
    let rest = due_calls pid es n (suc i) in maybe rest (λ f. (f, i) ∷ rest) (due pid (es i))

callback_round_calls :
    (pid i : ℕ) (t : Table) (done : Calls)
    → (callback_round pid i (t, done)).1
      ≡ maybe done (λ f. done ++ (f, i) ∷ []) (due pid (t.entries i))
unfolding callback_round
callback_round_calls pid i t done = ground arith

callback_round_else :
    (pid i : ℕ) (t : Table) (done : Calls) (j : ℕ)
    → i ≢ j
    → (callback_round pid i (t, done)).0.entries j ≡ t.entries j
unfolding callback_round
callback_round_else pid i t done j other = ground arith

append_due :
    (done rest : Calls) (i : ℕ) (o : Option ℕ)
    → maybe done (λ f. done ++ (f, i) ∷ []) o ++ rest ≡ done ++ maybe rest (λ f. (f, i) ∷ rest) o
append_due done rest i none = refl
append_due done rest i (some f) = append_assoc done ((f, i) ∷ []) rest

-- The loop makes the due calls, by the entries as they are when it comes to them.
sweep_calls :
    (pid n i : ℕ) (t : Table) (done : Calls) (es : Array Entry)
    → ((j : ℕ) → i ≤ j → t.entries j ≡ es j)
    → (sweep (callback_round pid) n i (t, done)).1 ≡ done ++ due_calls pid es n i
unfolding sweep
sweep_calls pid zero i t done es same = sym (append-nil done)
sweep_calls pid (suc n) i t done es same =
    let s = callback_round pid i (t, done) in
    sweep_calls pid n (suc i) s.0 s.1 es
      (λ j l. callback_round_else pid i t done j (omega arith) ∙ same j (omega arith))
    ∙ ap (λ calls. calls ++ due_calls pid es n (suc i)) (callback_round_calls pid i t done)
    ∙ append_due done (due_calls pid es n (suc i)) i (due pid (t.entries i))
    ∙ ap
        (λ e.
          done
          ++ maybe (due_calls pid es n (suc i)) (λ f. (f, i) ∷ due_calls pid es n (suc i))
              (due pid e))
        (same i (omega arith))

-- For a known asset (or an external program) and a table with entries, call_recv_event_callbacks calls
-- the callbacks of exactly those entries of the process that hold a received event which is not pending,
-- each once and in the order of their ids, and takes exactly those events.
pub call_recv_event_callbacks_due :
    (m : Master) (pid : ℕ) (asset_name : Option Name) (t : Table)
    → known_asset m asset_name ≡ true
    → t.entry_num ≢ 0
    → (u : Table) × (call_recv_event_callbacks m pid asset_name (some t)
        ≡ (some u, (true, due_calls pid t.entries t.entry_num 0)))
      × (u.entry_num ≡ t.entry_num)
      × ((j : ℕ)
          → u.entries j ≡ (
              if ltb j t.entry_num && called pid (t.entries j)
              then record (t.entries j) { recv_flag = false }
              else t.entries j))
unfolding call_recv_event_callbacks
call_recv_event_callbacks_due m pid asset_name t known some_entries = (
  (sweep (callback_round pid) t.entry_num 0 (t, [])).0,
  ground (arith, sweep_calls pid t.entry_num 0 t [] t.entries (λ j l. refl)),
  (callback_sweep-SameFrame pid t.entry_num t []).0,
  λ j. ground (arith, callback_sweep_at pid t.entry_num t [] j),
)
