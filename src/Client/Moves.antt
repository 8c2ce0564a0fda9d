-- ===== src/Client/Moves.antt =====
-- What a poll of a client can do to its request in progress
-- (sources/core/src/service/hako_service_protocol_client.cpp,
-- sources/core/src/service/hako_service_impl_client.cpp).
use hakoniwa_core_pro.Base.{
  ◌+◌, ◌≡◌, ◌≢◌, ◌⊎◌, arith, true, some, ◌==◌, if◌then◌else◌, Bool, false, none,
}
use hakoniwa_core_pro.Protocol.{
  done_status, error_status, canceled_code, ResponseHeader, status_num, result_num,
}
use hakoniwa_core_pro.Client.{
  ClientPort, Client, ClientState, idle, doing, ClientEvent, no_event, response_in, request_timeout,
  request_cancel_done, to_int, validate_header, current_time_usec, is_heartbeat_timeout,
  reset_if_new_run, recv_packet,
}

-- `Moves e before after`: what may become of the client's state.
pub data Moves : ClientEvent → ClientState → ClientState → Type 0 where
  stays : (st : ClientState) → Moves no_event st st
  waits : Moves request_timeout doing doing
  responds : (st : ClientState) → st ≢ idle → Moves response_in st idle
  cancels : (st : ClientState) → st ≢ idle → Moves request_cancel_done st idle

-- Whether a status ends a service.
abbrev pub EndsService : ResponseHeader → Type 0
EndsService header =
    (header.status ≡ status_num done_status) ⊎ (header.status ≡ status_num error_status)

module _ {W P : Type 0} (port : ClientPort W P) where
  -- A packet that a poll receives, with the header of a valid response to the client's request.
  pub record Receives (c : Client P) (w : W) (header : ResponseHeader) (packet : P) : Type 0 where
    pub received : (recv_packet port w).1 ≡ some packet
    pub read : port.read_response packet ≡ some header
    pub valid : validate_header header c ≡ true

  -- The request is answered by a packet that ends the service; it is kept, and the next request gets the next id.
  -- Its result code says whether it was cancelled.
  pub record Answered (was_cancelled : Bool) (c : Client P) (w : W) (t : Client P) : Type 0 where
    pub header : ResponseHeader
    pub packet : P
    pub receives : Receives c w header packet
    pub ends : EndsService header
    pub by_code : (header.result_code == result_num canceled_code) ≡ was_cancelled
    pub kept : t.response ≡ some (header, packet)
    pub next_id : t.request_id ≡ c.request_id + 1

  abbrev pub Unanswered : Client P → W → Client P → Type 0
  Unanswered c w t = (t.response ≡ c.response) × (t.request_id ≡ c.request_id)

  -- Nothing has been received, and the time for the answer is over.
  abbrev pub TimesOut : Client P → W → Client P → Type 0
  TimesOut c w t =
      Unanswered c w t
      × ((recv_packet port w).1 ≡ none)
      × (is_heartbeat_timeout port c (recv_packet port w).0 ≡ true)

  -- What the event says.
  abbrev pub AnswerOf : ClientEvent → Client P → W → Client P → Type 0
  AnswerOf no_event = Unanswered
  AnswerOf request_timeout = TimesOut
  AnswerOf response_in = Answered false
  AnswerOf request_cancel_done = Answered true

  pub record Polls (c : Client P) (w : W) (event : ClientEvent) (t : Client P) : Type 0 where
    pub moves : Moves event c.state t.state
    pub answer : AnswerOf event c w t
    pub reported :
        (header : ResponseHeader) (packet : P)
        → c.state ≢ idle
        → Receives c w header packet
        → EndsService header
        → event ≡ (
            if header.result_code == result_num canceled_code
            then request_cancel_done
            else response_in)

  -- Without the last of these, for a part of the poll.
  record Part (c : Client P) (w : W) (event : ClientEvent) (t : Client P) : Type 0 where
    pub moves : Moves event c.state t.state
    pub answer : AnswerOf event c w t

  abbrev Polled : Client P → W → Client P × W × ClientEvent → Type 0
  Polled c w r = Part c w r.2 r.0

  -- The client that has heard a sign of life.
  abbrev alive_at : Client P → W → Client P
  alive_at c w = record c { heartbeat_confirmed_time = to_int (current_time_usec port w) }

  pub same_run :
      (c : Client P) (w : W)
      → port.run_generation w ≡ c.run_generation
      → reset_if_new_run port c w ≡ c
  unfolding reset_if_new_run
  same_run c w e = ground arith
