-- ===== src/Service/Index.antt =====
-- From the configuration to the ids of its services (set_service_data and get_service_id of
-- sources/core/src/service/hako_pro_data_service.cpp).
use hakoniwa_core_pro.Base.{
  ℕ, zero, suc, ◌+◌, ◌<◌, ◌≤◌, ◌≡◌, ◌≢◌, refl, sym, arith, Bool, true, false, ◌&&◌, Option, none,
  some, List, [], ◌∷◌, leb, ◌==◌, Array, write, sweep, Name, name_eq, name_eq_self, Bool-cases, inl,
  inr, ==_iff,
}
use hakoniwa_core_pro.Service.{
  ServiceEntry, ServiceTable, ServiceConfig, ProData, length, service_namelen_max, configured,
  set_entries, set_service_data, rebuild_service_name_indexes, index_round, index_of,
  get_service_id,
}

-- The service at a place of the configuration.
abbrev pub nth : List ServiceConfig → ℕ → Option ServiceConfig
nth [] k = none
nth (c ∷ cs) zero = some c
nth (c ∷ cs) (suc k) = nth cs k

nth-length :
    (cs : List ServiceConfig) (k : ℕ) (c : ServiceConfig) → nth cs k ≡ some c → k < length cs
nth-length [] k c e = cc
nth-length (x ∷ cs) zero c e = omega arith
nth-length (x ∷ cs) (suc k) c e = let l = nth-length cs k c e in omega arith

nth-some :
    (cs : List ServiceConfig) (k : ℕ) → k < length cs → (c : ServiceConfig) × (nth cs k ≡ some c)
nth-some [] k l = absurd (omega arith)
nth-some (x ∷ cs) zero l = (x, refl)
nth-some (x ∷ cs) (suc k) l = nth-some cs k (omega arith)

-- All names fit.
abbrev pub AllShort : List ServiceConfig → Type 0
AllShort [] = Unit
AllShort (c ∷ cs) = (length c.name < service_namelen_max) × AllShort cs

set_entries-below :
    (cs : List ServiceConfig) (i j : ℕ) (es : Array ServiceEntry)
    → AllShort cs
    → j < i
    → set_entries cs i es j ≡ es j
unfolding set_entries
set_entries-below [] i j es s l = refl
set_entries-below (c ∷ cs) i j es s l =
    ground (arith, s.0, set_entries-below cs (suc i) j (write es i (configured c (es i))) s.1)

set_entries-configured :
    (cs : List ServiceConfig) (i j k : ℕ) (es : Array ServiceEntry) (c : ServiceConfig)
    → AllShort cs
    → j ≡ i + k
    → nth cs k ≡ some c
    → set_entries cs i es j ≡ configured c (es j)
unfolding set_entries
set_entries-configured [] i j k es c s sum e = cc
set_entries-configured (x ∷ cs) i j zero es c s sum e =
    let short : leb service_namelen_max (length x.name) ≡ false = let l = s.0 in ground arith in
    let here : j ≡ i = omega arith in
    let same : x ≡ c = cc in
    rw
      (
        short,
        sym same,
        here,
        set_entries-below cs (suc i) i (write es i (configured x (es i))) s.1 (omega arith),
        (==_iff i i).1 refl,
      )
      refl
set_entries-configured (x ∷ cs) i j (suc k) es c s sum e =
    let short : leb service_namelen_max (length x.name) ≡ false = let l = s.0 in ground arith in
    let away : (j == i) ≡ false = ground arith in
    rw
      (
        short,
        set_entries-configured cs (suc i) j k (write es i (configured x (es i))) c s.1 (omega arith)
            e,
        away,
      )
      refl

-- Whether the entry `i` answers to a name.
abbrev answers : Array ServiceEntry → Name → ℕ → Bool
answers es name i = (es i).enabled && name_eq name (es i).service_name

index-quiet :
    (es : Array ServiceEntry) (n i : ℕ) (index : Name → Option ℕ) (name : Name)
    → ((j : ℕ) → i ≤ j → j < i + n → answers es name j ≡ false)
    → sweep (index_round es) n i index name ≡ index name
unfolding sweep index_round
index-quiet es zero i index name q = refl
index-quiet es (suc n) i index name q = ground (
  arith,
  q i,
  index-quiet es n (suc i) (index_round es i index) name
      (λ j lo hi. q j (omega arith) (omega arith)),
)

index-last :
    (es : Array ServiceEntry) (n i k : ℕ) (index : Name → Option ℕ) (name : Name)
    → i ≤ k
    → k < i + n
    → answers es name k ≡ true
    → ((j : ℕ) → k < j → j < i + n → answers es name j ≡ false)
    → sweep (index_round es) n i index name ≡ some k
unfolding sweep index_round
index-last es zero i k index name lo hi hit q = absurd (omega arith)
index-last es (suc n) i k index name lo hi hit q = elim (Bool-cases (i == k)) [
  | inl same ↦ ground (
    arith,
    index-quiet es n (suc i) (index_round es i index) name
        (λ j lo' hi'. q j (ground arith) (omega arith)),
  )
  | inr other ↦
      index-last es n (suc i) k (index_round es i index) name (ground arith) (omega arith) hit
        (λ j lo' hi'. q j lo' (omega arith))
]

-- Where every name of the configuration fits, and the name of service `i` is that of no other, the id that
-- get_service_id finds for it after set_service_data is `i`.
pub set_service_data-get_service_id :
    (p : ProData) (st : ServiceTable) (i : ℕ) (c : ServiceConfig)
    → p.service_table ≡ some st
    → AllShort p.services
    → nth p.services i ≡ some c
    → ((j : ℕ) (d : ServiceConfig)
        → nth p.services j ≡ some d
        → j ≢ i
        → name_eq c.name d.name ≡ false)
    → (get_service_id c.name (set_service_data p)).1 ≡ some i
unfolding get_service_id set_service_data rebuild_service_name_indexes index_of
set_service_data-get_service_id p st i c here short known unique = rw (here, found) refl
  where
    es : Array ServiceEntry
    es = set_entries p.services 0 st.entries

    at :
        (j : ℕ) (d : ServiceConfig) → nth p.services j ≡ some d → es j ≡ configured d (st.entries j)
    at j d e = set_entries-configured p.services 0 j j st.entries d short (omega arith) e

    other : (j : ℕ) → i < j → j < 0 + length p.services → answers es c.name j ≡ false
    other j lo hi =
        let (d, e) = nth-some p.services j (omega arith) in
        let differ = unique j d e (λ same. omega arith) in rw (at j d e) differ

    found : sweep (index_round es) (length p.services) 0 (λ name. none) c.name ≡ some i
    found =
        let l = nth-length p.services i c known in
        index-last es (length p.services) 0 i (λ name. none) c.name (omega arith) (omega arith)
          (rw (at i c known) (name_eq_self c.name)) other
