-- ===== src/Command.antt =====
-- hako-cmd: sources/command/src/hako_cmd.cpp, where WIN32 is not defined. The options are those that cxxopts
-- has parsed. What is shown on the standard output is a result of a command; messages are left out.
pub mod Handlers
pub mod Main
pub mod Guarded
pub mod Restored
pub mod Exits
use hakoniwa_core_pro.Base.{
  ℕ, zero, suc, ◌+◌, ◌-◌, ◌*◌, ◌^◌, ℤ, pos, negsuc, Bool, true, false, not, ◌&&◌, ◌||◌, Option,
  none, some, List, [], ◌∷◌, ltb, leb, ◌==◌, if◌then◌else◌, maybe, Name,
}
use hakoniwa_core_pro.RuntimeError.{Thrown, Attempt, returns, throws}

-- The entries of command_map.
pub data Command : Type 0 where
  start stop reset status ls pmeta plog jmeta dump restore real_cid : Command

abbrev pub is_jmeta : Command → Bool
is_jmeta jmeta = true
is_jmeta command = false

-- The bytes of a channel or of a file.
abbrev pub Bytes : Type 0
Bytes = List ℕ

-- What a command writes to the standard output.
pub data Shown : Type 0 where
  nothing : Shown
  lines : List Name → Shown
  bytes : Bytes → Shown
  number : ℤ → Shown

-- "check"
abbrev pub check_name : Name
check_name = b'c' ∷ b'h' ∷ b'e' ∷ b'c' ∷ b'k' ∷ []

-- "recover"
abbrev pub recover_name : Name
recover_name = b'r' ∷ b'e' ∷ b'c' ∷ b'o' ∷ b'v' ∷ b'e' ∷ b'r' ∷ []

-- command_map
abbrev pub command_map : List (Name × Command)
command_map =
    (b's' ∷ b't' ∷ b'a' ∷ b'r' ∷ b't' ∷ [], start)
    ∷ (b's' ∷ b't' ∷ b'o' ∷ b'p' ∷ [], stop)
    ∷ (b'r' ∷ b'e' ∷ b's' ∷ b'e' ∷ b't' ∷ [], reset)
    ∷ (b's' ∷ b't' ∷ b'a' ∷ b't' ∷ b'u' ∷ b's' ∷ [], status)
    ∷ (b'l' ∷ b's' ∷ [], ls)
    ∷ (b'p' ∷ b'm' ∷ b'e' ∷ b't' ∷ b'a' ∷ [], pmeta)
    ∷ (b'p' ∷ b'l' ∷ b'o' ∷ b'g' ∷ [], plog)
    ∷ (b'j' ∷ b'm' ∷ b'e' ∷ b't' ∷ b'a' ∷ [], jmeta)
    ∷ (b'd' ∷ b'u' ∷ b'm' ∷ b'p' ∷ [], dump)
    ∷ (b'r' ∷ b'e' ∷ b's' ∷ b't' ∷ b'o' ∷ b'r' ∷ b'e' ∷ [], restore)
    ∷ (b'r' ∷ b'e' ∷ b'a' ∷ b'l' ∷ b'_' ∷ b'c' ∷ b'i' ∷ b'd' ∷ [], real_cid)
    ∷ []

-- hako_status of do_status
abbrev pub hako_status : List Name
hako_status =
    (b's' ∷ b't' ∷ b'o' ∷ b'p' ∷ b'p' ∷ b'e' ∷ b'd' ∷ [])
    ∷ (b'r' ∷ b'u' ∷ b'n' ∷ b'n' ∷ b'a' ∷ b'b' ∷ b'l' ∷ b'e' ∷ [])
    ∷ (b'r' ∷ b'u' ∷ b'n' ∷ b'n' ∷ b'i' ∷ b'n' ∷ b'g' ∷ [])
    ∷ (b's' ∷ b't' ∷ b'o' ∷ b'p' ∷ b'p' ∷ b'i' ∷ b'n' ∷ b'g' ∷ [])
    ∷ (b'r' ∷ b'e' ∷ b's' ∷ b'e' ∷ b't' ∷ b't' ∷ b'i' ∷ b'n' ∷ b'g' ∷ [])
    ∷ (b'e' ∷ b'r' ∷ b'r' ∷ b'o' ∷ b'r' ∷ [])
    ∷ (b't' ∷ b'e' ∷ b'r' ∷ b'm' ∷ b'i' ∷ b'n' ∷ b'a' ∷ b't' ∷ b'e' ∷ b'd' ∷ [])
    ∷ []

abbrev pub nth {ℓ} : {A : Type ℓ} → List A → ℕ → Option A
nth [] i = none
nth (x ∷ xs) zero = some x
nth (x ∷ xs) (suc i) = nth xs i

-- std::stoi: white space, a sign, and digits up to the first other character.
abbrev pub is_space : ℕ → Bool
is_space c = c == 32 || leb 9 c && leb c 13

abbrev pub is_digit : ℕ → Bool
is_digit c = leb b'0' c && leb c b'9'

unfoldable pub skip_spaces : Name → Name
skip_spaces [] = []
skip_spaces (c ∷ cs) = let rest = skip_spaces cs in if is_space c then rest else c ∷ cs

unfoldable pub read_digits : ℕ → Name → ℕ
read_digits n [] = n
read_digits n (c ∷ cs) =
    let rest = read_digits (10 * n + (c - b'0')) cs in if is_digit c then rest else n

-- std::invalid_argument and std::out_of_range
abbrev pub invalid_argument : Thrown
invalid_argument = Thrown.std_exception (b'i' ∷ [])

abbrev pub out_of_range : Thrown
out_of_range = Thrown.std_exception (b'o' ∷ [])

unfoldable pub read_unsigned : Name → Option ℕ
read_unsigned [] = none
read_unsigned (c ∷ cs) = if is_digit c then some (read_digits 0 (c ∷ cs)) else none

abbrev pub positive : ℕ → Attempt ℤ
positive n = if ltb n (2 ^ 31) then returns (pos n) else throws out_of_range

abbrev pub negative : ℕ → Attempt ℤ
negative zero = returns (pos 0)
negative (suc n) = if ltb n (2 ^ 31) then returns (negsuc n) else throws out_of_range

unfoldable pub read_signed : Name → Attempt ℤ
read_signed [] = throws invalid_argument
read_signed (c ∷ cs) =
    if c == b'-'
    then maybe (throws invalid_argument) negative (read_unsigned cs)
    else if c == b'+'
    then maybe (throws invalid_argument) positive (read_unsigned cs)
    else maybe (throws invalid_argument) positive (read_unsigned (c ∷ cs))

unfoldable pub stoi : Name → Attempt ℤ
stoi text = read_signed (skip_spaces text)
