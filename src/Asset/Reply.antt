-- ===== src/Asset/Reply.antt =====
-- What the functions of sources/assets/callback/src/hako_asset.cpp return, with
-- sources/assets/callback/src/hako_asset_state_check.hpp.
use hakoniwa_core_pro.Base.{
  Name, ℤ, pos, minus_one, Bool, Option, none, some, [], ◌∷◌, if◌then◌else◌,
}
use hakoniwa_core_pro.Asset.Instance.{
  SimState, stopped, runnable, running, stopping, resetting, error, terminated, undefined,
  is_stopped,
}

-- What a call comes to: the int that it returns, a crash of the process, or no end within the fuel.
pub data Reply : Type 0 where
  code : ℤ → Reply
  crash out_of_fuel : Reply

-- The errno of Linux.
abbrev pub success : Reply
success = code (pos 0)

abbrev pub enoent : Reply
enoent = code (pos 2)

abbrev pub eintr : Reply
eintr = code (pos 4)

abbrev pub eio : Reply
eio = code (pos 5)

abbrev pub einval : Reply
einval = code (pos 22)

abbrev pub failed : Reply
failed = code minus_one

-- A string that is neither a null pointer nor empty.
abbrev pub text : Option Name → Option Name
text none = none
text (some []) = none
text (some (c ∷ cs)) = some (c ∷ cs)

-- require_stopped_state
unfoldable pub require_stopped_state : SimState → Reply
require_stopped_state state = if is_stopped state then success else einval

-- to_public_simulation_state
unfoldable pub to_public_simulation_state : SimState → ℤ
to_public_simulation_state stopped = pos 0
to_public_simulation_state runnable = pos 1
to_public_simulation_state running = pos 2
to_public_simulation_state stopping = pos 3
to_public_simulation_state resetting = pos 4
to_public_simulation_state error = pos 5
to_public_simulation_state terminated = pos 6
to_public_simulation_state undefined = minus_one

abbrev pub int_of : Bool → Reply → Reply
int_of ok fail = if ok then success else fail
