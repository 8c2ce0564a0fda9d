-- ===== src/RecvEvent/Hooks.antt =====
-- The hooks that the PDU data calls around a write, and the reset of the flags at the start of a run
-- (sources/core/src/hako_pro_data.cpp).
use hakoniwa_core_pro.Base.{
  ℕ, Bool, true, false, not, ◌&&◌, Option, none, some, if◌then◌else◌, maybe, Array, first, sweep,
}
use hakoniwa_core_pro.RecvEvent.{Entry, Table, lock, unlock, set_entry, with_table, watches}

-- One round of the loop of on_pdu_data_write; the flag says whether an entry was found.
unfoldable pub write_round : ℕ → ℕ → Table × Bool → Table × Bool
write_round real_id i (t, found) =
    if watches t.entries real_id i
    then (set_entry t i (record (t.entries i) { recv_flag = true }), true)
    else (t, found)

-- HakoProAssetExtension::on_pdu_data_write
unfoldable pub on_pdu_data_write : ℕ → Option Table → Option Table × Bool
on_pdu_data_write real_channel_id =
    with_table false λ t. sweep (write_round real_channel_id) t.entry_num 0 (t, false)

-- An entry whose event nobody has taken yet.
abbrev pub unread : Array Entry → ℕ → ℕ → Bool
unread es real_id i = watches es real_id i && ((es i).recv_flag && not (es i).pending_flag)

-- HakoProAssetExtension::on_pdu_data_before_write
unfoldable pub on_pdu_data_before_write : ℕ → Option Table → Bool
on_pdu_data_before_write real_channel_id none = false
on_pdu_data_before_write real_channel_id (some t) =
    maybe true (λ i. false) (first (unread t.entries real_channel_id) t.entry_num 0)

abbrev pub clear_entry : Entry → Entry
clear_entry e = if e.enabled then record e { recv_flag = false; pending_flag = false } else e

-- One round of the loop of clear_run_flags, under the channel's lock.
unfoldable pub clear_round : ℕ → Table → Table
clear_round i t = set_entry t i (clear_entry (t.entries i))

-- clear_run_flags
unfoldable pub clear_run_flags : Option Table → Option Table
clear_run_flags none = none
clear_run_flags (some t) = some (unlock (sweep clear_round t.entry_num 0 (lock t)))
