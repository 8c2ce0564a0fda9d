-- ===== src/RuntimeError.antt =====
-- The error boundary of the C interfaces: sources/core/src/hako_runtime_error.cpp and
-- sources/core/include/hako_runtime_error_internal.hpp. A C++ function that may throw is a function whose
-- result is an `Attempt`; a null pointer that is dereferenced is its third case.
use hakoniwa_core_pro.Base.{[], ◌∷◌, Name}

-- HakoRuntimeErrorStatus
pub data ErrorStatus : Type 0 where
  no_error abort_error unknown_error other_error : ErrorStatus

-- `runtime_error_status` and `runtime_error_message`, which each thread has for itself.
pub record RuntimeError : Type 0 where
  pub status : ErrorStatus
  pub message : Name

-- MasterLockHealth of hakoniwa-core-cpp
pub data MasterLockHealth : Type 0 where
  ok unknown abort : MasterLockHealth

-- What is thrown: a MasterLockStateError, another std::exception, or something else.
pub data Thrown : Type 0 where
  master_lock_state : MasterLockHealth → Name → Thrown
  std_exception : Name → Thrown
  something_else : Thrown

pub data Attempt (A : Type 0) : Type 0 where
  returns : A → Attempt A
  throws : Thrown → Attempt A
  crashes : Attempt A

-- What is left of an attempt behind the boundary: no exception gets through.
pub data Outcome (A : Type 0) : Type 0 where
  result : A → Outcome A
  crash : Outcome A

-- hako_runtime_clear_error
abbrev pub hako_runtime_clear_error : RuntimeError
hako_runtime_clear_error = record { status = no_error; message = [] }

-- hako_runtime_last_error_status
abbrev pub hako_runtime_last_error_status : RuntimeError → ErrorStatus
hako_runtime_last_error_status e = e.status

-- "unknown native exception"
abbrev pub unknown_native_exception : Name
unknown_native_exception =
    117 ∷ 110 ∷ 107 ∷ 110 ∷ 111 ∷ 119 ∷ 110 ∷ 32 ∷ 110 ∷ 97 ∷ 116 ∷ 105 ∷ 118 ∷ 101 ∷ 32 ∷ 101 ∷ 120
    ∷ 99 ∷ 101 ∷ 112 ∷ 116 ∷ 105 ∷ 111 ∷ 110 ∷ []

abbrev pub status_of : MasterLockHealth → ErrorStatus
status_of abort = abort_error
status_of unknown = unknown_error
status_of ok = other_error

-- capture_current_exception
unfoldable pub capture_current_exception : Thrown → RuntimeError
capture_current_exception (master_lock_state health what) = record {
  status = status_of health;
  message = what;
}
capture_current_exception (std_exception what) = record { status = other_error; message = what }
capture_current_exception something_else = record {
  status = other_error;
  message = unknown_native_exception;
}

-- A C++ function on a state `S`, with the error of its thread.
abbrev pub Native : Type 0 → Type 0 → Type 0
Native S A = RuntimeError → S → RuntimeError × S × Attempt A

-- A function of the C interface.
abbrev pub Guarded : Type 0 → Type 0 → Type 0
Guarded S A = RuntimeError → S → RuntimeError × S × Outcome A

-- The catch clauses.
abbrev pub caught : {S A : Type 0} → A → RuntimeError × S × Attempt A → RuntimeError × S × Outcome A
caught failure (e, s, returns a) = (e, s, result a)
caught failure (e, s, throws x) = (capture_current_exception x, s, result failure)
caught failure (e, s, crashes) = (e, s, crash)

-- guard; guard_void is guard at the type with one element.
unfoldable pub guard : {S A : Type 0} → A → Native S A → Guarded S A
guard failure function e s = caught failure (function hako_runtime_clear_error s)
