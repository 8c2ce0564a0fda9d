-- ===== src/Command/Restored.antt =====
-- What `restore` writes into a channel (sources/command/src/hako_cmd.cpp).
use hakoniwa_core_pro.Base.{
  ℕ, zero, suc, ◌≤◌, ◌<◌, ◌≡◌, refl, ap, sym, ◌∙◌, Bool, arith, ℤ, some, [], ◌∷◌, ◌++◌, Name,
  if◌then◌else◌,
}
use hakoniwa_core_pro.RuntimeError.{returns}
use hakoniwa_core_pro.Service.{length}
use hakoniwa_core_pro.Command.{Bytes, nothing, nth, stoi}
use hakoniwa_core_pro.Command.Handlers.{ControlPort, drop, read_into, do_restore, restore_channel}

drop-nil : (n : ℕ) → drop n [] ≡ []
drop-nil zero = refl
drop-nil (suc n) = refl

read_into-nth :
    (content buffer : Bytes) (i : ℕ)
    → length content ≤ i
    → nth (read_into content buffer) i ≡ nth buffer i
read_into-nth [] buffer i l = refl
read_into-nth (c ∷ content) buffer zero l = absurd (omega arith)
read_into-nth (c ∷ content) [] (suc i) l =
    ap (λ (rest : Bytes). nth (content ++ rest) i) (sym (drop-nil (length content)))
    ∙ read_into-nth content [] i (omega arith)
read_into-nth (c ∷ content) (b ∷ buffer) (suc i) l = read_into-nth content buffer i (omega arith)

read_into-first :
    (content buffer : Bytes) (i : ℕ)
    → i < length content
    → nth (read_into content buffer) i ≡ nth content i
read_into-first [] buffer i l = absurd (omega arith)
read_into-first (c ∷ content) buffer zero l = refl
read_into-first (c ∷ content) [] (suc i) l =
    ap (λ (rest : Bytes). nth (content ++ rest) i) (sym (drop-nil (length content)))
    ∙ read_into-first content [] i (omega arith)
read_into-first (c ∷ content) (b ∷ buffer) (suc i) l =
    read_into-first content buffer i (omega arith)

length-read_into :
    (content buffer : Bytes)
    → length content ≤ length buffer
    → length (read_into content buffer) ≡ length buffer
length-read_into [] buffer l = refl
length-read_into (c ∷ content) [] l = absurd (omega arith)
length-read_into (c ∷ content) (b ∷ buffer) l =
    omega (arith, length-read_into content buffer (omega arith))

-- `restore` of a file that gives no more bytes than the channel has: it writes as many bytes as the channel
-- has, first those of the file, and behind them what malloc has left in the buffer; the exit code is 0
-- exactly if the write succeeds. So a file that is too short is no error, and what is written behind its end
-- is not determined.
pub restore_writes :
    {W : Type 0} (port : ControlPort W) (channel restore_file : Name) (channel_id : ℤ)
    (content buffer : Bytes) (w w1 w2 : W) (ok : Bool)
    → let written = read_into content buffer in
      stoi channel ≡ returns channel_id
      → port.pdu_size channel_id w ≡ (w1, returns (some (length buffer)))
      → port.malloc (length buffer) w1 ≡ some buffer
      → port.read_file restore_file (length buffer) w1 ≡ some content
      → length content ≤ length buffer
      → port.write_pdu channel_id written w1 ≡ (w2, returns ok)
      → (do_restore port (channel ∷ restore_file ∷ []) w
          ≡ (w2, returns (if ok then 0 else 1, nothing)))
        × (length written ≡ length buffer)
        × ((i : ℕ) → i < length content → nth written i ≡ nth content i)
        × ((i : ℕ) → length content ≤ i → nth written i ≡ nth buffer i)
unfolding do_restore restore_channel
restore_writes port channel restore_file channel_id content buffer w w1 w2 ok known size room read l
      stored =
    (
      rw (known, size, room, read, stored) refl,
      length-read_into content buffer l,
      read_into-first content buffer,
      read_into-nth content buffer,
    )
