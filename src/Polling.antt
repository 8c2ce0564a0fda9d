-- ===== src/Polling.antt =====
-- The C interface for the services of an asset that polls: the tables of
-- sources/assets/polling/src/hako_asset_service_server.cpp and hako_asset_service_client.cpp, from ids to the
-- objects of the modules Server and Client. Both are std::unordered_maps: lists with the newest entry first.
pub mod Servers
pub mod NullEntry
pub mod Clients
pub mod Keys
use hakoniwa_core_pro.Base.{
  ℤ, int_eq, Bool, true, false, Option, none, some, List, [], ◌∷◌, if◌then◌else◌, ◌≡◌, refl, arith,
}

-- std::unordered_map::find, on keys that a test compares.
unfoldable pub find : {K V : Type 0} → (K → K → Bool) → K → List (K × V) → Option V
find eq key [] = none
find eq key ((k, v) ∷ rest) = let later = find eq key rest in if eq key k then some v else later

-- `map[key] = value` on a key that is in the map or not.
unfoldable pub insert_or_assign :
    {K V : Type 0} → (K → K → Bool) → K → V → List (K × V) → List (K × V)
insert_or_assign eq key v [] = (key, v) ∷ []
insert_or_assign eq key v ((k, u) ∷ rest) =
    let later = insert_or_assign eq key v rest in if eq key k then (k, v) ∷ rest else (k, u) ∷ later

module _ {K V : Type 0} (eq : K → K → Bool) (self : (k : K) → eq k k ≡ true)
    (sound : (j k : K) → eq j k ≡ true → j ≡ k) where
  -- What is found under the key of an assignment, and under another.
  pub find-insert_or_assign :
      (key : K) (v : V) (table : List (K × V))
      → find eq key (insert_or_assign eq key v table) ≡ some v
  unfolding find insert_or_assign
  find-insert_or_assign key v [] = ground (arith, self key)
  find-insert_or_assign key v ((k, u) ∷ rest) = ground (arith, find-insert_or_assign key v rest)

  pub find-insert_or_assign_other :
      (key other : K) (v : V) (table : List (K × V))
      → eq other key ≡ false
      → find eq other (insert_or_assign eq key v table) ≡ find eq other table
  unfolding find insert_or_assign
  find-insert_or_assign_other key other v [] h = ground (arith, h)
  find-insert_or_assign_other key other v ((k, u) ∷ rest) h =
      ground (arith, h, find-insert_or_assign_other key other v rest h, sound key k)
