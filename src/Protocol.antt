-- ===== src/Protocol.antt =====
-- The constants and headers that servers and clients of a service exchange
-- (include/hako_service_protocol.hpp; the header types are generated by the PDU registry).
use hakoniwa_core_pro.Base.{
  ◌^◌, ◌%◌, leb, ◌||◌, ℕ, ◌-◌, ◌*◌, ◌%◌, ltb, Bool, true, false, ℤ, pos, negsuc, [], Name,
}

-- HakoServiceOperationCodeType; the field of a received header is a number.
abbrev pub opcode_request : ℕ
opcode_request = 0

abbrev pub opcode_cancel : ℕ
opcode_cancel = 1

abbrev pub opcode_num : ℕ
opcode_num = 2

-- HakoServiceStatusType
pub data Status : Type 0 where
  no_service doing_status canceling_status done_status error_status : Status

-- HakoServiceResultCodeType
pub data ResultCode : Type 0 where
  ok_code error_code canceled_code invalid_code busy_code : ResultCode

-- The numbers that stand for them in a header.
abbrev pub status_num : Status → ℕ
status_num no_service = 0
status_num doing_status = 1
status_num canceling_status = 2
status_num done_status = 3
status_num error_status = 4

abbrev pub result_num : ResultCode → ℕ
result_num ok_code = 0
result_num error_code = 1
result_num canceled_code = 2
result_num invalid_code = 3
result_num busy_code = 4

abbrev pub result_code_num : ℕ
result_code_num = 5

-- HakoCpp_ServiceRequestHeader
pub record RequestHeader : Type 0 where
  pub request_id : ℕ
  pub service_name : Name
  pub client_name : Name
  pub opcode : ℕ
  pub status_poll_interval_msec : ℤ

-- HakoCpp_ServiceResponseHeader
pub record ResponseHeader : Type 0 where
  pub request_id : ℕ
  pub service_name : Name
  pub client_name : Name
  pub status : ℕ
  pub processing_percentage : ℕ
  pub result_code : ℕ

-- A header as its constructor leaves it.
abbrev pub empty_request : RequestHeader
empty_request = record {
  request_id = 0;
  service_name = [];
  client_name = [];
  opcode = 0;
  status_poll_interval_msec = pos 0;
}

-- The cast of an `int` to `Hako_uint8`.
abbrev pub uint8 : ℤ → ℕ
uint8 (pos n) = n % 256
uint8 (negsuc n) = 255 - n % 256

-- `interval > 0` and `now - last_poll_time_ > interval * 1000`, for a time that does not run backwards.
-- The product is a 32-bit int, written here as wrapping around; a negative one is less than any time that has elapsed.
abbrev pub interval_set : ℤ → Bool
interval_set (pos n) = ltb 0 n
interval_set (negsuc n) = false

abbrev pub interval_over : ℤ → ℕ → Bool
interval_over (pos n) elapsed =
    let limit = (n * 1000) % 2 ^ 32 in leb (2 ^ 31) limit || ltb limit elapsed
interval_over (negsuc n) elapsed = true
