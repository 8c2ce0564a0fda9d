-- ===== src/RecvEvent.antt =====
-- The receive-event table of the shared memory: HakoRecvEventTableType
-- (sources/core/include/hako_pro_data_types.hpp), the methods of HakoProData on it
-- (sources/core/src/hako_pro_data_recv_event.cpp), and the write hooks and the reset of a run
-- (sources/core/src/hako_pro_data.cpp). One call of a method is one step here: the spin lock of a
-- channel makes it atomic. A `bool` with an out parameter `recv_event_id`, -1 on failure, is an
-- `Option ℕ`; a `nullptr` table is `none`. A channel id that the PDU data does not know is `none`.
pub mod Callbacks
pub mod Hooks
pub mod Sweeps
pub mod Trace
pub mod Invariant
pub mod Delivery
pub mod Backpressure
pub mod NewRun
pub mod Due
use hakoniwa_core_pro.Base.{
  Name, ℕ, ◌+◌, Bool, true, false, ◌&&◌, Option, none, some, List, leb, ◌==◌, if◌then◌else◌, maybe,
  Array, write, first,
}

-- HAKO_RECV_EVENT_MAX
abbrev pub recv_event_max : ℕ
recv_event_max = 4096

-- What the code asks of HakoMasterData and its PDU data, which hakoniwa-core-cpp implements.
pub record Master : Type 0 where
  pub asset_id : Name → Option ℕ
  pub pdu_channel : Name → ℕ → Option ℕ
  pub channel_max : ℕ

-- HakoRecvEventType
pub data EventType : Type 0 where
  flag callback : EventType

-- HakoRecvEventEntryType; the address of a callback is a number.
pub record Entry : Type 0 where
  pub enabled : Bool
  pub recv_flag : Bool
  pub pending_flag : Bool
  pub proc_id : ℕ
  pub real_channel_id : ℕ
  pub type : EventType
  pub on_recv : Option ℕ

-- HakoRecvEventTableType
pub record Table : Type 0 where
  pub entries : Array Entry
  pub entry_num : ℕ
  pub atomic_is_busy : Bool

-- The bytes that memset leaves.
abbrev pub zero_entry : Entry
zero_entry = record {
  enabled = false;
  recv_flag = false;
  pending_flag = false;
  proc_id = 0;
  real_channel_id = 0;
  type = flag;
  on_recv = none;
}

-- The receive-event part of create_empty_tables().
unfoldable pub empty_table : Table
empty_table = record { entries = λ i. zero_entry; entry_num = 0; atomic_is_busy = false }

abbrev pub lock : Table → Table
lock t = record t { atomic_is_busy = true }

abbrev pub unlock : Table → Table
unlock t = record t { atomic_is_busy = false }

abbrev pub set_entry : Table → ℕ → Entry → Table
set_entry t i e = record t { entries = write t.entries i e }

-- A method on a table that may be `nullptr`.
abbrev pub with_table : {A : Type 0} → A → (Table → Table × A) → Option Table → Option Table × A
with_table fail f none = (none, fail)
with_table fail f (some t) = let (t', a) = f t in (some t', a)

abbrev pub type_of : Option ℕ → EventType
type_of none = flag
type_of (some f) = callback

abbrev pub new_entry : ℕ → ℕ → Option ℕ → Entry
new_entry pid real_id on_recv = record {
  enabled = true;
  recv_flag = false;
  pending_flag = false;
  proc_id = pid;
  real_channel_id = real_id;
  type = type_of on_recv;
  on_recv = on_recv;
}

-- register_data_recv_event, once the channel is known.
unfoldable pub allocate : ℕ → ℕ → Option ℕ → Table → Table × Option ℕ
allocate pid real_id on_recv t =
    if leb recv_event_max t.entry_num
    then (t, none)
    else let l = lock t in
      if leb recv_event_max l.entry_num then (unlock l, none) else (
        unlock (record l {
          entries = write l.entries l.entry_num (new_entry pid real_id on_recv);
          entry_num = l.entry_num + 1;
        }),
        some l.entry_num,
      )

unfoldable pub register_data_recv_event :
    Master → ℕ → Name → ℕ → Option ℕ → Option Table → Option Table × Option ℕ
register_data_recv_event m pid robot_name channel_id on_recv = with_table none λ t.
    maybe (t, none) (λ real_id. allocate pid real_id on_recv t)
      (m.pdu_channel robot_name channel_id)

-- The tests of the loops: whose entry it is, and for which channel.
abbrev pub watches : Array Entry → ℕ → ℕ → Bool
watches es real_id i = (es i).enabled && (es i).real_channel_id == real_id

abbrev pub owned : Array Entry → ℕ → ℕ → Bool
owned es pid i = (es i).enabled && (es i).proc_id == pid

abbrev pub owned_on : Array Entry → ℕ → ℕ → ℕ → Bool
owned_on es pid real_id i =
    (es i).enabled && ((es i).proc_id == pid && (es i).real_channel_id == real_id)

abbrev pub taken_over : ℕ → Option ℕ → Entry → Entry
taken_over pid on_recv e = record e {
  recv_flag = false;
  proc_id = pid;
  type = type_of on_recv;
  on_recv = on_recv;
}

-- update_data_recv_event, once the channel is known.
unfoldable pub take_over : ℕ → ℕ → Option ℕ → Table → Table × Option ℕ
take_over pid real_id on_recv t =
    if t.entry_num == 0
    then (t, none)
    else maybe (t, none)
        (λ i. (unlock (set_entry (lock t) i (taken_over pid on_recv (t.entries i))), some i))
        (first (watches t.entries real_id) t.entry_num 0)

unfoldable pub update_data_recv_event :
    Master → ℕ → Name → ℕ → Option ℕ → Option Table → Option Table × Option ℕ
update_data_recv_event m pid robot_name channel_id on_recv = with_table none λ t.
    maybe (t, none) (λ real_id. take_over pid real_id on_recv t)
      (m.pdu_channel robot_name channel_id)

-- What is done with the entry that was found: under the channel's lock the flag is read, and
-- cleared if the event is not pending.
unfoldable pub consume : Table → ℕ → Table × Option ℕ
consume t i =
    let e = t.entries i in
    if e.pending_flag
    then (t, none)
    else if e.recv_flag
    then (set_entry t i (record e { recv_flag = false }), some i)
    else (t, none)

-- get_recv_event by the real channel id.
unfoldable pub get_recv_event : Master → ℕ → ℕ → Option Table → Option Table × Option ℕ
get_recv_event m pid channel_id = with_table none λ t.
    if leb m.channel_max channel_id
    then (t, none)
    else if t.entry_num == 0
    then (t, none)
    else maybe (t, none) (λ i. consume t i)
        (first (owned_on t.entries pid channel_id) t.entry_num 0)

-- get_recv_event by the asset's name (`none` is an external program) and the robot's channel.
unfoldable pub get_recv_event_by_name :
    Master → ℕ → Option Name → Name → ℕ → Option Table → Option Table × Option ℕ
get_recv_event_by_name m pid none robot_name channel_id ot =
    maybe (ot, none) (λ real_id. get_recv_event m pid real_id ot)
      (m.pdu_channel robot_name channel_id)
get_recv_event_by_name m pid (some asset) robot_name channel_id ot =
    maybe (ot, none)
      (λ asset_id.
        maybe (ot, none) (λ real_id. get_recv_event m pid real_id ot)
          (m.pdu_channel robot_name channel_id))
      (m.asset_id asset)
