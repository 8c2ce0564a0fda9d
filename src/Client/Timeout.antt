-- ===== src/Client/Timeout.antt =====
-- The time since the last sign of life of the server (is_heartbeat_timeout of
-- sources/core/include/hako_service_protocol_client.hpp).
use hakoniwa_core_pro.Base.{
  is_negative, ℕ, ◌-◌, ◌*◌, ◌^◌, ◌≤◌, ◌<◌, ◌≡◌, arith, pos, true, false, none, ◌↔◌,
}
use hakoniwa_core_pro.Client.{
  ClientPort, Client, idle, request_timeout, to_int, timed_out, event_start_service,
  current_time_usec, is_heartbeat_timeout, reset_if_new_run, recv_packet, send_packet, request,
}
use hakoniwa_core_pro.Client.Poll.{poll, poll_silent}

-- Up to the time that an `int` can hold, a timeout is reported exactly if one is set and more than it has
-- passed since the last sign of life.
pub heartbeat_iff :
    (msec since now : ℕ)
    → since < 2 ^ 31
    → (timed_out (pos msec) (to_int since) now ≡ true) ↔ ((0 < msec) × (msec * 1000 < now - since))
heartbeat_iff msec since now small = (λ e. ground arith, λ e. ground arith)

-- A time from 2^31 µs on (about 36 minutes of the simulation's time) is stored as a negative number.
wrapped :
    (msec time : ℕ)
    → 2 ^ 31 ≤ time
    → time < 2 ^ 32
    → 0 < msec
    → msec * 1000 < 2 ^ 31
    → timed_out (pos msec) (to_int time) time ≡ true
wrapped msec time lo hi some_timeout fits = ground arith

module _ {W P : Type 0} (port : ClientPort W P) where
  -- From 2^31 µs of world time on, and below 2^32 µs, a request with any timeout that an `int` can hold in
  -- microseconds is reported as timed out by the first poll that finds no response, though no time has
  -- passed since it was sent.
  pub request_times_out_at_once :
      (c : Client P) (w w1 w2 : W) (packet : P) (msec : ℕ)
      → c.state ≡ idle
      → port.has_pro_data w ≡ true
      → port.run_generation w ≡ c.run_generation
      → is_negative (port.read_request packet).0 ≡ false
      → port.put_request packet w ≡ (w1, true)
      → port.has_pro_data w1 ≡ true
      → port.run_generation w1 ≡ c.run_generation
      → 2 ^ 31 ≤ port.world_time_usec w1
      → port.world_time_usec w1 < 2 ^ 32
      → 0 < msec
      → msec * 1000 < 2 ^ 31
      → port.get_response w1 ≡ (w2, none)
      → port.has_pro_data w2 ≡ true
      → port.world_time_usec w2 ≡ port.world_time_usec w1
      → let (c1, w', sent) = request port packet (pos msec) c w in
        (sent ≡ true) × (w' ≡ w1) × ((poll port c1 w1).2 ≡ request_timeout)
  unfolding request poll poll_silent is_heartbeat_timeout current_time_usec event_start_service
      recv_packet send_packet reset_if_new_run
  request_times_out_at_once c w w1 w2 packet msec st h run valid sent h1 run1 lo hi some_timeout
        fits got h2 now =
      ground (arith, wrapped msec (port.world_time_usec w1) lo hi some_timeout fits)
