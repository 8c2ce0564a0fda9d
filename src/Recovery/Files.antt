-- ===== src/Recovery/Files.antt =====
-- The runtime's files and their removal (sources/command/src/runtime_recovery.cpp). A path is its file
-- name: all are in one directory.
use hakoniwa_core_pro.Base.{
  ℕ, Bool, true, false, ◌&&◌, ◌||◌, Option, none, some, List, [], ◌∷◌, ltb, leb, ◌==◌,
  if◌then◌else◌, maybe, Name, name_eq,
}

-- The status of a result.
pub data RecoveryStatus : Type 0 where
  recovered partial refused : RecoveryStatus

-- RuntimeRecoveryResult; `recovered` is that status, and the messages are left out.
pub record Result : Type 0 where
  pub status : RecoveryStatus
  pub removed : List Name
  pub remaining : List Name
  pub failures : List (Name × Name)

abbrev pub refusal : Result
refusal = record { status = refused; removed = []; remaining = []; failures = [] }

-- "flock.bin", "pdu_init.lock", "pro_init.lock"
abbrev pub flock_bin : Name
flock_bin = 102 ∷ 108 ∷ 111 ∷ 99 ∷ 107 ∷ 46 ∷ 98 ∷ 105 ∷ 110 ∷ []

abbrev pub pdu_init_lock : Name
pdu_init_lock = 112 ∷ 100 ∷ 117 ∷ 95 ∷ 105 ∷ 110 ∷ 105 ∷ 116 ∷ 46 ∷ 108 ∷ 111 ∷ 99 ∷ 107 ∷ []

abbrev pub pro_init_lock : Name
pro_init_lock = 112 ∷ 114 ∷ 111 ∷ 95 ∷ 105 ∷ 110 ∷ 105 ∷ 116 ∷ 46 ∷ 108 ∷ 111 ∷ 99 ∷ 107 ∷ []

abbrev pub mmap_prefix : Name
mmap_prefix = 109 ∷ 109 ∷ 97 ∷ 112 ∷ 45 ∷ 48 ∷ 120 ∷ []

abbrev pub bin_suffix : Name
bin_suffix = 46 ∷ 98 ∷ 105 ∷ 110 ∷ []

-- [0-9a-fA-F]
abbrev pub is_hex : ℕ → Bool
is_hex b = (leb 48 b && leb b 57) || ((leb 97 b && leb b 102) || (leb 65 b && leb b 70))

unfoldable pub after_prefix : Name → Name → Option Name
after_prefix [] name = some name
after_prefix (p ∷ ps) [] = none
after_prefix (p ∷ ps) (b ∷ bs) = let rest = after_prefix ps bs in if p == b then rest else none

-- The rest of the pattern: hex digits, at least one if `one` is not yet set, then ".bin".
unfoldable pub hex_bin : Bool → Name → Bool
hex_bin one [] = false
hex_bin one (b ∷ bs) =
    let rest = hex_bin true bs in if is_hex b then rest else one && name_eq (b ∷ bs) bin_suffix

-- std::regex_match with "mmap-0x[0-9a-fA-F]+\\.bin"
unfoldable pub is_mmap_name : Name → Bool
is_mmap_name name = maybe false (λ rest. hex_bin false rest) (after_prefix mmap_prefix name)

unfoldable pub is_known : Name → Bool
is_known name =
    is_mmap_name name
    || (name_eq name flock_bin || (name_eq name pdu_init_lock || name_eq name pro_init_lock))

-- The known files of the directory.
unfoldable pub known : List (Name × Bool) → List (Name × Bool)
known [] = []
known ((name, regular) ∷ files) =
    let rest = known files in if is_known name then (name, regular) ∷ rest else rest

-- std::string's `<`, byte by byte.
unfoldable pub name_lt : Name → Name → Bool
name_lt xs [] = false
name_lt [] (y ∷ ys) = true
name_lt (x ∷ xs) (y ∷ ys) = ltb x y || (x == y && name_lt xs ys)

unfoldable pub is_flock : Name → Bool
is_flock name = name_eq name flock_bin

-- The order of removal: the lock file last, the others by name.
abbrev pub before : Name → Name → Bool
before left right =
    if is_flock left
    then (if is_flock right then name_lt left right else false)
    else (if is_flock right then true else name_lt left right)

-- std::stable_sort with this order: an element goes before those that it is not behind.
unfoldable pub insert : Name → List Name → List Name
insert x [] = x ∷ []
insert x (y ∷ ys) = let rest = insert x ys in if before y x then y ∷ rest else x ∷ y ∷ ys

unfoldable pub ordered : List (Name × Bool) → List Name
ordered [] = []
ordered ((name, regular) ∷ files) = insert name (ordered files)

module _ {W : Type 0} (remove_file : Name → W → W × Option Name) where
  -- The loop over the ordered files; the first failure ends it.
  unfoldable pub remove_files : List Name → W → W × Result
  remove_files [] w =
      (w, record { status = recovered; removed = []; remaining = []; failures = [] })
  remove_files (path ∷ paths) w =
      let (w', error) = remove_file path w in
      maybe
        (let (w2, result) = remove_files paths w' in
          (w2, record result { removed = path ∷ result.removed }))
        (λ reason. (
          w',
          record {
            status = partial;
            removed = [];
            remaining = path ∷ paths;
            failures = (path, reason) ∷ [];
          },
        ))
        error

  -- remove_known_runtime_files
  unfoldable pub remove_known_runtime_files : List (Name × Bool) → W → W × Result
  remove_known_runtime_files files w = remove_files (ordered files) w
