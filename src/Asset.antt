-- ===== src/Asset.antt =====
-- The C interface of an asset with callbacks: sources/assets/callback/src/hako_asset_impl.cpp and
-- sources/assets/callback/src/hako_asset.cpp. This file has the PDU definitions of a robot
-- (include/hako_asset_pdu.hpp, and the entries of a configuration file).
pub mod Unique
pub mod Instance
pub mod Loop
pub mod Clock
pub mod Restart
pub mod Steady
pub mod Config
pub mod Setup
pub mod Reply
pub mod Api
pub mod Events
pub mod Misuse
pub mod Initialized
pub mod Sleep
use hakoniwa_core_pro.Base.{
  Name, ℤ, Bool, true, false, ◌||◌, Option, none, some, List, [], ◌∷◌, ◌++◌, map, if◌then◌else◌,
  maybe, name_eq, to_string, ◌==◌,
}

-- PduIo, PduIoEntry and RobotCompact
pub record PduIo : Type 0 where
  pub type : Name
  pub channel_id : ℤ
  pub pdu_size : ℤ

pub record PduIoEntry : Type 0 where
  pub io : PduIo
  pub name : Name

pub record RobotCompact : Type 0 where
  pub name : Name
  pub pdus : List PduIoEntry

-- "|" between the parts of a key
abbrev pub bar : Name
bar = b'|' ∷ []

-- hako_pdu_key
unfoldable pub hako_pdu_key : PduIoEntry → Name
hako_pdu_key entry =
    entry.name ++ bar ++ to_string entry.io.channel_id ++ bar ++ to_string entry.io.pdu_size

-- Whether a std::unordered_set of keys has a key.
unfoldable pub seen_key : Name → List Name → Bool
seen_key key [] = false
seen_key key (k ∷ seen) = name_eq key k || seen_key key seen

-- hako_add_pdu_io_unique; the set `seen` comes back with the robot.
unfoldable pub hako_add_pdu_io_unique :
    PduIoEntry → RobotCompact × List Name → RobotCompact × List Name
hako_add_pdu_io_unique entry (robot, seen) =
    if seen_key (hako_pdu_key entry) seen
    then (robot, seen)
    else (record robot { pdus = robot.pdus ++ entry ∷ [] }, hako_pdu_key entry ∷ seen)

-- The loops over the entries of a robot.
unfoldable pub add_entries : List PduIoEntry → RobotCompact × List Name → RobotCompact × List Name
add_entries [] s = s
add_entries (entry ∷ entries) s = add_entries entries (hako_add_pdu_io_unique entry s)
