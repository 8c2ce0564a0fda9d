-- ===== src/Polling/NullEntry.antt =====
-- What a call with the id of no service leaves behind
-- (sources/assets/polling/src/hako_asset_service_server.cpp).
use mathlib.Core.List.{Memᴰ}
use mathlib.Core.List.Memᴰ
use hakoniwa_core_pro.Base.{
  ℤ, minus_one, int_eq, ◌≡◌, refl, ap, arith, true, false, Option, none, some, [], ◌∷◌, Name,
  name_eq, inl, inr,
}
use hakoniwa_core_pro.RuntimeError.{crash}
use hakoniwa_core_pro.Server.{Server}
use hakoniwa_core_pro.Polling.{find}
use hakoniwa_core_pro.Polling.Servers.{
  Servers, ServicesPort, find_service, create_unless, server_create, at_id, server_poll,
}

-- No server in the table has the name.
unfoldable pub Unnamed : {P : Type 0} → Name → Servers P → Type 0
Unnamed {P} name t =
    (id : ℤ) (server : Server P)
    → Memᴰ (id, some server) t
    → name_eq server.service_name name ≡ false

-- The same entries, in whatever order an iteration comes to them.
pub record SameEntries {P : Type 0} (t u : Servers P) : Type 0 where
  pub into : (e : ℤ × Option (Server P)) → Memᴰ e t → Memᴰ e u
  pub back : (e : ℤ × Option (Server P)) → Memᴰ e u → Memᴰ e t

module _ {W P : Type 0} (services : ServicesPort W P) where
  find_service-crash :
      (name : Name) (id : ℤ) (t : Servers P)
      → Memᴰ (id, none) t
      → Unnamed name t
      → find_service services name t ≡ crash
  unfolding find_service Unnamed
  find_service-crash name id [] m u = absurd (Memᴰ.not-nil m)
  find_service-crash name id ((key, none) ∷ rest) m u = refl
  find_service-crash name id ((key, some server) ∷ rest) m u = elim (Memᴰ.cases_cons m) [
    | inl e ↦ cc (ap (λ x. x.1) e)
    | inr later ↦
        let other : name_eq server.service_name name ≡ false = u key server (Memᴰ.head refl) in
        ground (
          arith,
          other,
          find_service-crash name id rest later (λ k s there. u k s (Memᴰ.tail there)),
        )
  ]

  Unnamed-with_null :
      (name : Name) (id : ℤ) (t : Servers P) → Unnamed name t → Unnamed name ((id, none) ∷ t)
  unfolding Unnamed
  Unnamed-with_null name id t u key server m = elim (Memᴰ.cases_cons m) [
    | inl e ↦ cc (ap (λ x. x.1) e)
    | inr there ↦ u key server there
  ]

  poll_unknown :
      (id : ℤ) (t : Servers P) (w : W)
      → services.is_rpc_allowed w ≡ true
      → find int_eq id t ≡ none
      → server_poll services id (t, w) ≡ (((id, none) ∷ t, w), minus_one)
  unfolding server_poll at_id
  poll_unknown id t w allowed missing = rw (allowed, missing) refl

  -- While RPC is allowed, hako_asset_service_server_poll with an id that is not in the table returns -1, but leaves a null pointer in the table; after that,
  -- hako_asset_service_server_create for a service that no server of the table has crashes, in whatever order it comes to the entries.
  pub unknown_id_breaks_create :
      (id : ℤ) (t : Servers P) (w : W) (name : Name)
      → services.is_rpc_allowed w ≡ true
      → find int_eq id t ≡ none
      → Unnamed name t
      → let ((t1, w1), polled) = server_poll services id (t, w) in
        (polled ≡ minus_one)
        × ((t2 : Servers P) (asset_name : Name) (later : W)
            → SameEntries t1 t2
            → server_create services asset_name name (t2, later) ≡ ((t2, later), crash))
  unfolding server_create create_unless Unnamed
  unknown_id_breaks_create id t w name allowed missing unnamed =
      rw (poll_unknown id t w allowed missing) (
        refl,
        λ t2 asset_name later same.
            ap (λ found. create_unless services found asset_name name (t2, later))
              (find_service-crash name id t2 (same.into (id, none) (Memᴰ.head refl))
                (λ key server there.
                  Unnamed-with_null name id t unnamed key server
                    (same.back (key, some server) there))),
      )
