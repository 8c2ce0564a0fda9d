-- ===== src/RecvEvent/Trace.antt =====
-- The calls that the processes of a simulation make on the receive-event table
-- (sources/core/src/hako_pro_data_recv_event.cpp, sources/core/src/hako_pro_data.cpp), in the order in
-- which the locks let them through. Each carries the process id of its caller.
use hakoniwa_core_pro.Base.{Name, ℤ, ℕ, Bool, Option, List, [], ◌∷◌}
use hakoniwa_core_pro.RecvEvent.{
  Master, Table, register_data_recv_event, update_data_recv_event, get_recv_event,
  get_recv_event_by_name,
}
use hakoniwa_core_pro.RecvEvent.Callbacks.{
  call_recv_event_callbacks, set_recv_event_pending, set_channel_pending,
}
use hakoniwa_core_pro.RecvEvent.Hooks.{on_pdu_data_write, clear_run_flags}

pub data Op : Type 0 where
  registers : ℕ → Name → ℕ → Option ℕ → Op
  updates : ℕ → Name → ℕ → Option ℕ → Op
  gets : ℕ → ℕ → Op
  gets_by_name : ℕ → Option Name → Name → ℕ → Op
  calls : ℕ → Option Name → Op
  pends : ℕ → ℤ → Bool → Op
  pends_channel : ℕ → Name → ℕ → Bool → Op
  writes : ℕ → Op
  clears : Op

-- The table after a call.
unfoldable pub apply : Master → Op → Option Table → Option Table
apply m (registers pid robot channel on_recv) t =
    (register_data_recv_event m pid robot channel on_recv t).0
apply m (updates pid robot channel on_recv) t =
    (update_data_recv_event m pid robot channel on_recv t).0
apply m (gets pid channel) t = (get_recv_event m pid channel t).0
apply m (gets_by_name pid asset robot channel) t =
    (get_recv_event_by_name m pid asset robot channel t).0
apply m (calls pid asset) t = (call_recv_event_callbacks m pid asset t).0
apply m (pends pid id pending) t = (set_recv_event_pending pid id pending t).0
apply m (pends_channel pid robot channel pending) t =
    (set_channel_pending m pid robot channel pending t).0
apply m (writes channel) t = (on_pdu_data_write channel t).0
apply m clears t = clear_run_flags t

unfoldable pub run : Master → List Op → Option Table → Option Table
run m [] t = t
run m (op ∷ ops) t = run m ops (apply m op t)
