-- ===== src/Recovery.antt =====
-- `hako-cmd recover`: sources/command/src/runtime_recovery.cpp removes the runtime's files once it is sure
-- that no process uses them. What the file system, the master's lock and the process table say when the
-- command runs is a record, Runtime; only the removal of a file changes anything.
pub mod Files
pub mod Removal
pub mod Safety
use hakoniwa_core_pro.Base.{
  ℕ, zero, suc, ◌+◌, Bool, true, false, not, ◌&&◌, ◌||◌, Option, none, some, List, [], ◌∷◌, ltb,
  leb, ◌==◌, if◌then◌else◌, maybe, Name, name_eq, ℤ, pos, negsuc,
}
use hakoniwa_core_pro.Recovery.Files.{Result, refusal, known, remove_known_runtime_files}

-- What hakoniwa-core-cpp fixes of the layout of the master's memory.
pub record Layout : Type 0 where
  pub header : ℕ
  pub master_data : ℕ
  pub magic : ℕ
  pub version : ℕ
  pub max_assets : ℕ

-- The file mmap-0xff.bin, once it has been opened, as far as it is looked at: `readable` says that its size and its bytes can be
-- read. Fields behind the end of the file have no meaning, and the code does not look at them.
pub record MasterFile : Type 0 where
  pub readable : Bool
  pub size : ℕ
  pub magic : ℕ
  pub version : ℕ
  pub data_size : ℕ
  pub master_pid : ℤ
  pub asset_num : ℕ
  pub asset_pid : ℕ → ℤ

-- pids->insert(pid) for a pid above 0; the set is in ascending order.
unfoldable pub insert_pid : ℕ → List ℕ → List ℕ
insert_pid pid [] = pid ∷ []
insert_pid pid (q ∷ qs) =
    let rest = insert_pid pid qs in
    if ltb pid q then pid ∷ q ∷ qs else if pid == q then q ∷ qs else q ∷ rest

abbrev pub add_pid : ℤ → List ℕ → List ℕ
add_pid (negsuc k) pids = pids
add_pid (pos zero) pids = pids
add_pid (pos (suc k)) pids = insert_pid (suc k) pids

-- The pids of `n` assets from `i` on.
unfoldable pub add_assets : (ℕ → ℤ) → ℕ → ℕ → List ℕ → List ℕ
add_assets asset_pid zero i pids = pids
add_assets asset_pid (suc n) i pids = add_assets asset_pid n (suc i) (add_pid (asset_pid i) pids)

-- Master memory of another layout version, or of a time before the header.
abbrev pub has_header : Layout → MasterFile → Bool
has_header c f = leb c.header f.size

abbrev pub other_layout : Layout → MasterFile → Bool
other_layout c f = has_header c f && (f.magic == c.magic && not (f.version == c.version))

abbrev pub no_header : Layout → MasterFile → Bool
no_header c f = (not (has_header c f) || not (f.magic == c.magic)) && leb c.master_data f.size

-- read_runtime_pids; `none` is an error. A file that cannot be opened, whether it is there or not, has no pids.
unfoldable pub read_runtime_pids : Layout → Option MasterFile → Option (List ℕ)
read_runtime_pids c none = some []
read_runtime_pids c (some f) =
    if not f.readable
    then none
    else if other_layout c f || no_header c f
    then some []
    else if ltb f.size (c.header + c.master_data) || ltb f.data_size c.master_data
    then none
    else if ltb c.max_assets f.asset_num
    then none
    else some (add_assets f.asset_pid f.asset_num 0 (add_pid f.master_pid []))

-- The inspection of the master's lock, MasterLockInspection of hakoniwa-core-cpp; causes and states that
-- the code does not name are `other_cause` and `other_state`.
pub data UnknownCause : Type 0 where
  identity contention system other_cause : UnknownCause

pub data LockState : Type 0 where
  unlocked other_state : LockState

pub data LockHealth : Type 0 where
  ok unknown abort : LockHealth

pub record MasterLock : Type 0 where
  pub health : LockHealth
  pub state : LockState
  pub unknown_cause : UnknownCause
  pub owner_pid : ℤ
  pub owner_start_token : ℕ

abbrev pub is_zero : ℤ → Bool
is_zero (pos n) = n == 0
is_zero (negsuc k) = false

abbrev pub is_unlocked : LockState → Bool
is_unlocked unlocked = true
is_unlocked other_state = false

abbrev pub is_other : UnknownCause → Bool
is_other identity = false
is_other contention = false
is_other system = false
is_other other_cause = true

-- Whether recover_runtime_files goes on after the inspection.
abbrev pub lock_allows : LockHealth → MasterLock → Bool
lock_allows ok l = is_unlocked l.state && (is_zero l.owner_pid && l.owner_start_token == 0)
lock_allows unknown l = is_other l.unknown_cause
lock_allows abort l = true

-- ProcessProbeStatus
pub data ProcessProbeStatus : Type 0 where
  alive dead unknown_process : ProcessProbeStatus

abbrev pub is_dead : ProcessProbeStatus → Bool
is_dead alive = false
is_dead dead = true
is_dead unknown_process = false

-- Whether the loop over the pids runs to its end.
unfoldable pub all_dead : (ℕ → ProcessProbeStatus) → List ℕ → Bool
all_dead probe [] = true
all_dead probe (pid ∷ pids) = is_dead (probe pid) && all_dead probe pids

-- What recover_runtime_files finds: whether the configuration names a directory for mmap that is a
-- directory and no link; the directory's files, each with whether it is a regular file and no link, and
-- whether the listing was complete; the lock, the master's file, if it can be opened, and the processes.
pub record Runtime : Type 0 where
  pub config_is_valid : Bool
  pub root_is_directory : Bool
  pub entries : List (Name × Bool)
  pub listing_failed : Bool
  pub flock_exists : Bool
  pub lock : MasterLock
  pub master_file : Option MasterFile
  pub probe_process : ℕ → ProcessProbeStatus

-- The loop that validates the deletion set.
unfoldable pub all_regular : List (Name × Bool) → Bool
all_regular [] = true
all_regular ((name, regular) ∷ files) = regular && all_regular files

module _ {W : Type 0} (c : Layout) (remove_file : Name → W → W × Option Name) where
  -- recover_runtime_files; `remove_file` gives the reason for which it fails.
  unfoldable pub recover_runtime_files : Runtime → W → W × Result
  recover_runtime_files r w =
      if not r.config_is_valid
      then (w, refusal)
      else if not r.root_is_directory
      then (w, refusal)
      else if r.listing_failed
      then (w, refusal)
      else if not (all_regular (known r.entries))
      then (w, refusal)
      else if r.flock_exists && not (lock_allows r.lock.health r.lock)
      then (w, refusal)
      else maybe (w, refusal)
          (λ pids.
            if not (all_dead r.probe_process pids)
            then (w, refusal)
            else remove_known_runtime_files remove_file (known r.entries) w)
          (read_runtime_pids c r.master_file)
