-- ===== src/Asset/Config.antt =====
-- How the PDU definitions of the robots come out of a configuration file that nlohmann::json has parsed
-- (hako_asset_impl_parse_robots of sources/assets/callback/src/hako_asset_impl.cpp). A field is `none`
-- where reading it throws a json::exception.
use hakoniwa_core_pro.Base.{
  Name, ℕ, Bool, ◌||◌, Option, none, some, List, [], ◌∷◌, ◌++◌, ◌==◌, if◌then◌else◌, maybe, name_eq,
}
use hakoniwa_core_pro.Asset.{PduIoEntry, RobotCompact, add_entries}

-- A file: not there, not JSON, or its content.
pub data File (A : Type 0) : Type 0 where
  missing malformed : File A
  content : A → File A

abbrev pub Entries : Type 0
Entries = List (Option PduIoEntry)

-- An element of "robots" without "paths"; a list that is absent is `none`.
pub record LegacyRobot : Type 0 where
  pub name : Option Name
  pub shm_pdu_writers : Option Entries
  pub rpc_pdu_writers : Option Entries
  pub shm_pdu_readers : Option Entries
  pub rpc_pdu_readers : Option Entries

-- An element of "paths", and of "robots" with "paths".
pub record PathJson : Type 0 where
  pub id : Option Name
  pub path : Option Name

pub record RobotJson : Type 0 where
  pub name : Option Name
  pub pdutypes_id : Option Name

pub data Document : Type 0 where
  legacy : List LegacyRobot → Document
  compact : List PathJson → List RobotJson → Document

-- The outcomes of parsing: an exception, `false`, or a value.
pub data Parsed (A : Type 0) : Type 0 where
  threw refused : Parsed A
  parsed : A → Parsed A

abbrev pub then_parse : {A B : Type 0} → Parsed A → (A → Parsed B) → Parsed B
then_parse threw k = threw
then_parse refused k = refused
then_parse (parsed a) k = k a

abbrev pub field : {A : Type 0} → Option A → Parsed A
field o = maybe threw (λ a. parsed a) o

unfoldable pub all_entries : Entries → Parsed (List PduIoEntry)
all_entries [] = parsed []
all_entries (e ∷ es) = then_parse (field e) λ x. then_parse (all_entries es) λ xs. parsed (x ∷ xs)

abbrev pub is_separator : ℕ → Bool
is_separator c = c == b'/' || c == b'\\'

-- The bytes before the last separator.
unfoldable pub before_last_separator : Name → Option Name
before_last_separator [] = none
before_last_separator (c ∷ cs) =
    maybe (if is_separator c then some [] else none) (λ front. some (c ∷ front))
      (before_last_separator cs)

-- hako_get_dirname
unfoldable pub hako_get_dirname : Name → Name
hako_get_dirname path = maybe (b'.' ∷ []) (λ dir. dir) (before_last_separator path)

-- hako_join_path, where WIN32 is not defined
unfoldable pub hako_join_path : Name → Name → Name
hako_join_path base_dir [] = base_dir ++ b'/' ∷ []
hako_join_path base_dir (c ∷ cs) = if c == b'/' then c ∷ cs else base_dir ++ b'/' ∷ c ∷ cs

abbrev pub PduTypes : Type 0
PduTypes = List (Name × Entries)

-- std::unordered_map::find
unfoldable pub find_types : Name → PduTypes → Option Entries
find_types id [] = none
find_types id ((key, types) ∷ rest) = if name_eq id key then some types else find_types id rest

-- The first loop of hako_asset_impl_parse_robots_compact; emplace keeps what is there for an id.
unfoldable pub load_types :
    (Name → File Entries) → Name → List PathJson → PduTypes → Parsed PduTypes
load_types open_file base_dir [] types = parsed types
load_types open_file base_dir (p ∷ ps) types = then_parse (field p.id) λ id.
    then_parse (field p.path) λ path. elim (open_file (hako_join_path base_dir path)) [
      | missing ↦ refused
      | malformed ↦ refused
      | content entries ↦ load_types open_file base_dir ps (types ++ (id, entries) ∷ [])
    ]

abbrev pub new_robot : Name → RobotCompact
new_robot name = record { name = name; pdus = [] }

-- The second loop.
unfoldable pub compact_robots : PduTypes → List RobotJson → Parsed (List RobotCompact)
compact_robots types [] = parsed []
compact_robots types (r ∷ rs) = then_parse (field r.name) λ name.
    then_parse (field r.pdutypes_id) λ id.
      maybe refused
        (λ entries. then_parse (all_entries entries) λ es.
          then_parse (compact_robots types rs)
            λ robots. parsed ((add_entries es (new_robot name, [])).0 ∷ robots))
        (find_types id types)

-- hako_asset_impl_parse_robots_compact
unfoldable pub parse_robots_compact :
    (Name → File Entries) → Name → List PathJson → List RobotJson → Parsed (List RobotCompact)
parse_robots_compact open_file config_path paths robots =
    then_parse (load_types open_file (hako_get_dirname config_path) paths [])
      λ types. compact_robots types robots

-- One of the four lists of a robot.
abbrev pub legacy_entries : Option Entries → Parsed (List PduIoEntry)
legacy_entries o = maybe (parsed []) all_entries o

unfoldable pub legacy_robot : LegacyRobot → Parsed RobotCompact
legacy_robot r = then_parse (field r.name) λ name.
    then_parse (legacy_entries r.shm_pdu_writers) λ shm_writers.
      then_parse (legacy_entries r.rpc_pdu_writers) λ rpc_writers.
        then_parse (legacy_entries r.shm_pdu_readers) λ shm_readers.
          then_parse (legacy_entries r.rpc_pdu_readers) λ rpc_readers.
            let s1 = add_entries shm_writers (new_robot name, []) in
            let s2 = add_entries rpc_writers s1 in
            let s3 = add_entries shm_readers s2 in parsed (add_entries rpc_readers s3).0

unfoldable pub legacy_robots : List LegacyRobot → Parsed (List RobotCompact)
legacy_robots [] = parsed []
legacy_robots (r ∷ rs) =
    then_parse (legacy_robot r)
      λ robot. then_parse (legacy_robots rs) λ robots. parsed (robot ∷ robots)

-- hako_asset_impl_parse_robots
unfoldable pub parse_robots : (Name → File Entries) → Name → Document → Parsed (List RobotCompact)
parse_robots open_file config_path (legacy robots) = legacy_robots robots
parse_robots open_file config_path (compact paths robots) =
    parse_robots_compact open_file config_path paths robots
