-- ===== src/Polling/Keys.antt =====
-- The clients of different handles do not meet
-- (make_service_client_key of sources/assets/polling/src/hako_asset_service_client.cpp).
use hakoniwa_core_pro.Base.{
  ℕ, ◌+◌, ◌*◌, ◌^◌, ◌<◌, ℤ, pos, negsuc, ◌≡◌, ◌≢◌, refl, ap, arith, true, false, some, ◌==◌,
  Bool-cases, inl, inr,
}
use hakoniwa_core_pro.Client.{Client}
use hakoniwa_core_pro.Client.Poll.{poll}
use hakoniwa_core_pro.Polling.{find, find-insert_or_assign, find-insert_or_assign_other}
use hakoniwa_core_pro.Polling.Clients.{
  Handle, uint32, make_service_client_key, key_of, ClientsPort, Clients, store, client_poll,
  event_code,
}

-- A value of an int of 32 bits.
unfoldable pub IsInt : ℤ → Type 0
IsInt (pos n) = n < 2 ^ 31
IsInt (negsuc n) = n < 2 ^ 31

uint32-lt : (i : ℤ) → IsInt i → uint32 i < 2 ^ 32
unfolding IsInt
uint32-lt (pos n) h = omega (arith, h)
uint32-lt (negsuc n) h = omega (arith, h)

uint32-eq : (i j : ℤ) → IsInt i → IsInt j → uint32 i ≡ uint32 j → i ≡ j
unfolding IsInt
uint32-eq (pos n) (pos k) hi hj e = ap pos (omega (arith, hi, hj, e))
uint32-eq (negsuc n) (negsuc k) hi hj e = ap negsuc (omega (arith, hi, hj, e))
uint32-eq (pos n) (negsuc k) hi hj e = absurd (omega (arith, hi, hj, e))
uint32-eq (negsuc n) (pos k) hi hj e = absurd (omega (arith, hi, hj, e))

halves :
    (a b c d : ℕ) → b < 2 ^ 32 → d < 2 ^ 32 → a * 2 ^ 32 + b ≡ c * 2 ^ 32 + d → (a ≡ c) × (b ≡ d)
halves a b c d hb hd e = (omega (arith, hb, hd, e), omega (arith, hb, hd, e))

pub key-eq :
    (s c s' c' : ℤ)
    → IsInt s
    → IsInt c
    → IsInt s'
    → IsInt c'
    → make_service_client_key s c ≡ make_service_client_key s' c'
    → (s ≡ s') × (c ≡ c')
unfolding make_service_client_key
key-eq s c s' c' hs hc hs' hc' e =
    let (high, low) = halves _ _ _ _ (uint32-lt c hc) (uint32-lt c' hc') e in
    (uint32-eq s s' hs hs' high, uint32-eq c c' hc hc' low)

-- A handle of two values of an int.
pub record IsHandle (h : Handle) : Type 0 where
  pub service : IsInt h.service_id
  pub client : IsInt h.client_id

key_of-eq : (h k : Handle) → IsHandle h → IsHandle k → key_of h ≡ key_of k → h ≡ k
key_of-eq h k vh vk e =
    let (service, client) = key-eq _ _ _ _ vh.service vh.client vk.service vk.client e in
    λ i. record { service_id = service i; client_id = client i }

eq_self : (n : ℕ) → (n == n) ≡ true
eq_self n = ground arith

eq_sound : (n k : ℕ) → (n == k) ≡ true → n ≡ k
eq_sound n k h = ground (arith, h)

other_key : (h k : Handle) → IsHandle h → IsHandle k → k ≢ h → (key_of k == key_of h) ≡ false
other_key h k vh vk ne = elim (Bool-cases (key_of k == key_of h)) [
  | inl same ↦ absurd (ne (key_of-eq k h vk vh (eq_sound _ _ same)))
  | inr differ ↦ differ
]

module _ {W P : Type 0} (clients : ClientsPort W P) where
  client_poll_at :
      (h : Handle) (c : Client P) (t : Clients P) (w : W)
      → find (λ a b. a == b) (key_of h) t.service_clients ≡ some c
      → client_poll clients (some h) (t, w) ≡ (
          let (c', w', event) = poll (clients.port h) c w in
          ((store clients h c' t, w'), event_code event))
  unfolding client_poll
  client_poll_at h c t w there = rw there refl

  -- hako_asset_service_client_poll on a handle whose client is in the table polls that client, and puts it back, and returns the code of its event; the
  -- client of every other handle, with ids that are ints of 32 bits, stays as it is, since two handles never have one key.
  pub client_poll-its_client :
      (h : Handle) (c : Client P) (t : Clients P) (w : W)
      → find (λ a b. a == b) (key_of h) t.service_clients ≡ some c
      → IsHandle h
      → let (c', w', event) = poll (clients.port h) c w in
        let ((t', w''), polled) = client_poll clients (some h) (t, w) in
        (polled ≡ event_code event)
        × (w'' ≡ w')
        × (find (λ a b. a == b) (key_of h) t'.service_clients ≡ some c')
        × ((k : Handle)
            → IsHandle k
            → k ≢ h
            → find (λ a b. a == b) (key_of k) t'.service_clients
              ≡ find (λ a b. a == b) (key_of k) t.service_clients)
  client_poll-its_client h c t w there vh = rw (client_poll_at h c t w there) (
    refl,
    refl,
    find-insert_or_assign (λ a b. a == b) eq_self eq_sound (key_of h) _ t.service_clients,
    λ k vk ne.
        find-insert_or_assign_other (λ a b. a == b) eq_self eq_sound (key_of h) (key_of k) _
          t.service_clients (other_key h k vh vk ne),
  )
