-- ===== src/Recovery/Safety.antt =====
-- When recover_runtime_files removes anything at all (sources/command/src/runtime_recovery.cpp).
use hakoniwa_core_pro.Base.{
  ℕ, zero, suc, ◌+◌, ◌≤◌, ◌<◌, ◌≡◌, ◌⊎◌, inl, inr, refl, arith, true, false, not, ◌&&◌, Option,
  some, List, [], ◌∷◌, ◌==◌, Name, ℤ, pos, negsuc, if_cases, maybe_cases, Bool-cases, ==_iff, subst,
}
use hakoniwa_core_pro.Recovery.{
  Layout, MasterFile, insert_pid, add_pid, add_assets, other_layout, no_header, read_runtime_pids,
  lock_allows, MasterLock, LockHealth, ok, unknown, abort, LockState, unlocked, other_state,
  UnknownCause, identity, contention, system, other_cause, is_zero, is_unlocked, is_other,
  ProcessProbeStatus, is_dead, all_dead, Runtime, all_regular, recover_runtime_files,
}
use hakoniwa_core_pro.Recovery.Files.{Result, refusal, known}
use hakoniwa_core_pro.Recovery.Removal.{Removes, remove_known_runtime_files-Removes}

-- A pid that is recorded, one above 0, is that of a dead process.
abbrev pub IsGone : (ℕ → ProcessProbeStatus) → ℤ → Type 0
IsGone probe (pos zero) = Unit
IsGone probe (pos (suc k)) = is_dead (probe (suc k)) ≡ true
IsGone probe (negsuc k) = Unit

insert_gone :
    (probe : ℕ → ProcessProbeStatus) (pid : ℕ) (qs : List ℕ)
    → all_dead probe (insert_pid pid qs) ≡ true
    → (is_dead (probe pid) ≡ true) × (all_dead probe qs ≡ true)
unfolding all_dead insert_pid
insert_gone probe pid [] e = (ground arith, refl)
insert_gone probe pid (q ∷ qs) e = ground (arith, insert_gone probe pid qs)

add_gone :
    (probe : ℕ → ProcessProbeStatus) (pid : ℤ) (qs : List ℕ)
    → all_dead probe (add_pid pid qs) ≡ true
    → IsGone probe pid × (all_dead probe qs ≡ true)
add_gone probe (pos zero) qs e = (tt, e)
add_gone probe (pos (suc k)) qs e = insert_gone probe (suc k) qs e
add_gone probe (negsuc k) qs e = (tt, e)

assets_gone :
    (probe : ℕ → ProcessProbeStatus) (pid : ℕ → ℤ) (n i : ℕ) (qs : List ℕ)
    → all_dead probe (add_assets pid n i qs) ≡ true
    → (all_dead probe qs ≡ true) × ((j : ℕ) → i ≤ j → j < i + n → IsGone probe (pid j))
unfolding add_assets
assets_gone probe pid zero i qs e = (e, λ j lo hi. absurd (omega arith))
assets_gone probe pid (suc n) i qs e =
    let h = assets_gone probe pid n (suc i) (add_pid (pid i) qs) e in
    let g = add_gone probe (pid i) qs h.0 in
    (
      g.1,
      λ j lo hi. elim (Bool-cases (i == j)) [
        | inl same ↦ subst (λ (k : ℕ). IsGone probe (pid k)) ((==_iff i j).0 same) g.0
        | inr other ↦ h.1 j (ground arith) (omega arith)
      ],
    )

-- A master file that the code reads: of the current layout, with its header.
abbrev pub IsCurrent : Layout → MasterFile → Type 0
IsCurrent c f = (other_layout c f ≡ false) × (no_header c f ≡ false)

-- The inspection of the lock leaves no doubt that nobody owns it: it is found in order, unlocked and
-- without an owner, or its health is unknown for none of the three reasons that put the owner in doubt, or it is abort.
pub data IsFree (l : MasterLock) : Type 0 where
  unowned :
      l.health ≡ ok → l.state ≡ unlocked → l.owner_pid ≡ pos 0 → l.owner_start_token ≡ 0 → IsFree l
  other_doubt : l.health ≡ unknown → l.unknown_cause ≡ other_cause → IsFree l
  aborted : l.health ≡ abort → IsFree l

lock_allows-IsFree :
    (health : LockHealth) (l : MasterLock)
    → l.health ≡ health
    → lock_allows health l ≡ true
    → IsFree l
lock_allows-IsFree ok l h e =
    unowned h (unlocked_of l.state (ground arith)) (zero_of l.owner_pid (ground arith))
      (ground arith)
  where
    unlocked_of : (s : LockState) → is_unlocked s ≡ true → s ≡ unlocked
    unlocked_of unlocked e = refl
    unlocked_of other_state e = cc

    zero_of : (z : ℤ) → is_zero z ≡ true → z ≡ pos 0
    zero_of (pos zero) e = refl
    zero_of (pos (suc n)) e = absurd (ground (arith, e))
    zero_of (negsuc n) e = cc
lock_allows-IsFree unknown l h e = other_doubt h (other_of l.unknown_cause e)
  where
    other_of : (c : UnknownCause) → is_other c ≡ true → c ≡ other_cause
    other_of identity e = cc
    other_of contention e = cc
    other_of system e = cc
    other_of other_cause e = refl
lock_allows-IsFree abort l h e = aborted h

-- What must hold for files to be removed.
pub record IsSafe (c : Layout) (r : Runtime) : Type 0 where
  pub regular : all_regular (known r.entries) ≡ true
  pub config : r.config_is_valid ≡ true
  pub root : r.root_is_directory ≡ true
  pub listed : r.listing_failed ≡ false
  pub lock : r.flock_exists ≡ true → IsFree r.lock
  pub readable : (f : MasterFile) → r.master_file ≡ some f → f.readable ≡ true
  pub master :
      (f : MasterFile)
      → r.master_file ≡ some f
      → IsCurrent c f
      → IsGone r.probe_process f.master_pid
  pub assets :
      (f : MasterFile)
      → r.master_file ≡ some f
      → IsCurrent c f
      → (i : ℕ) → i < f.asset_num
      → IsGone r.probe_process (f.asset_pid i)

pids_of :
    (c : Layout) (f : MasterFile) (pids : List ℕ)
    → IsCurrent c f
    → read_runtime_pids c (some f) ≡ some pids
    → pids ≡ add_assets f.asset_pid f.asset_num 0 (add_pid f.master_pid [])
unfolding read_runtime_pids
pids_of c f pids current e = ground (arith, current.0, current.1)

readable_of :
    (c : Layout) (f : MasterFile) (pids : List ℕ)
    → read_runtime_pids c (some f) ≡ some pids
    → f.readable ≡ true
unfolding read_runtime_pids
readable_of c f pids e = ground arith

recorded_gone :
    (c : Layout) (probe : ℕ → ProcessProbeStatus) (f : MasterFile) (pids : List ℕ)
    → read_runtime_pids c (some f) ≡ some pids
    → all_dead probe pids ≡ true
    → IsCurrent c f
    → IsGone probe f.master_pid × ((i : ℕ) → i < f.asset_num → IsGone probe (f.asset_pid i))
recorded_gone c probe f pids e dead current =
    let h =
      assets_gone probe f.asset_pid f.asset_num 0 (add_pid f.master_pid [])
        (subst (λ (l : List ℕ). all_dead probe l ≡ true) (pids_of c f pids current e) dead) in
    ((add_gone probe f.master_pid [] h.0).0, λ i l. h.1 i (omega arith) (omega arith))

module _ {W : Type 0} (c : Layout) (remove_file : Name → W → W × Option Name) where
  -- The result of recover_runtime_files: a refusal that changes nothing, or a removal.
  abbrev pub Recovers : Runtime → W → W × Result → Type 0
  Recovers r w s =
      (s ≡ (w, refusal)) ⊎ (IsSafe c r × Removes remove_file (known r.entries) w s.0 s.1)

  -- recover_runtime_files either refuses, and then removes nothing, or it removes the known files, one by one up to the first
  -- failure. It removes only if: the configuration and its directory are valid and the listing was complete; all
  -- known files are regular files; the inspection of the lock, if its file exists, finds it in order,
  -- unlocked and without an owner, or aborted, or in a doubt that is none of identity, contention and
  -- system; the master's file, if it can be opened, can be read; and each process that an opened master's
  -- file of the current layout records, the master or one of its assets, is found dead.
  pub recover_runtime_files-Recovers :
      (r : Runtime) (w : W) → Recovers r w (recover_runtime_files c remove_file r w)
  unfolding recover_runtime_files
  recover_runtime_files-Recovers r w =
      let refuses = inl refl in
      if_cases (Recovers r w) (not r.config_is_valid) (λ e. refuses)
        (λ config.
          if_cases (Recovers r w) (not r.root_is_directory) (λ e. refuses)
            (λ root.
              if_cases (Recovers r w) r.listing_failed (λ e. refuses)
                (λ listed.
                  if_cases (Recovers r w) (not (all_regular (known r.entries))) (λ e. refuses)
                    (λ regular.
                      if_cases (Recovers r w)
                        (r.flock_exists && not (lock_allows r.lock.health r.lock)) (λ e. refuses)
                        (λ lock.
                          maybe_cases (Recovers r w) (read_runtime_pids c r.master_file)
                            (λ e. refuses)
                            (λ pids read.
                              if_cases (Recovers r w) (not (all_dead r.probe_process pids))
                                (λ e. refuses)
                                (λ dead. inr (
                                  safe (ground arith) (ground arith) listed pids (ground arith)
                                      (λ there. ground arith) read (ground arith),
                                  remove_known_runtime_files-Removes remove_file (known r.entries)
                                      w,
                                ))))))))
    where
      gone :
          (pids : List ℕ)
          → read_runtime_pids c r.master_file ≡ some pids
          → all_dead r.probe_process pids ≡ true
          → (f : MasterFile) → r.master_file ≡ some f
          → IsCurrent c f
          → IsGone r.probe_process f.master_pid
            × ((i : ℕ) → i < f.asset_num → IsGone r.probe_process (f.asset_pid i))
      gone pids read dead f here current =
          recorded_gone c r.probe_process f pids
            (subst (λ (x : Option MasterFile). read_runtime_pids c x ≡ some pids) here read) dead
            current

      safe :
          r.config_is_valid ≡ true
          → r.root_is_directory ≡ true
          → r.listing_failed ≡ false
          → (pids : List ℕ) → all_regular (known r.entries) ≡ true
          → (r.flock_exists ≡ true → lock_allows r.lock.health r.lock ≡ true)
          → read_runtime_pids c r.master_file ≡ some pids
          → all_dead r.probe_process pids ≡ true
          → IsSafe c r
      safe config root listed pids regular lock read dead = record {
        regular = regular;
        config = config;
        root = root;
        listed = listed;
        lock = λ there. lock_allows-IsFree r.lock.health r.lock refl (lock there);
        readable = λ f here.
            readable_of c f pids
              (subst (λ (x : Option MasterFile). read_runtime_pids c x ≡ some pids) here read);
        master = λ f here current. (gone pids read dead f here current).0;
        assets = λ f here current i l. (gone pids read dead f here current).1 i l;
      }
