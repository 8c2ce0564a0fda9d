-- ===== src/Base/Loops.antt =====
-- The two shapes of `for (int i = 0; i < n; i++)` in the sources: a search that returns at the first
-- index that passes its tests, and a sweep that visits every index. Arrays are functions of the index.
use Prim.Native.Nat.{ℕ, zero, suc, ◌+◌, ◌≤◌, ◌<◌}
use mathlib.Core.Path.{◌≡◌, refl}
use mathlib.Core.Logic.{inl, inr}
use mathlib.Core.Bool.{Bool, true, false, ◌&&◌}
use mathlib.Core.Option.{Option, none, some}
use native.Mathlib.Omega.{arith}
use hakoniwa_core_pro.Base.Tests.{if◌then◌else◌, ◌==◌, ltb, leb, Bool-cases}

-- An array that is indexed by the loop's counter.
abbrev pub Array {ℓ} : Type ℓ → Type ℓ
Array A = ℕ → A

abbrev pub write {ℓ} : {A : Type ℓ} → Array A → ℕ → A → Array A
write a i v j = if j == i then v else a j

-- The first of the `n` indices from `i` on that passes the test.
unfoldable pub first : (ℕ → Bool) → ℕ → ℕ → Option ℕ
first p zero i = none
first p (suc n) i = let rest = first p n (suc i) in if p i then some i else rest

pub first-some :
    (p : ℕ → Bool) (n i k : ℕ) → first p n i ≡ some k → (i ≤ k) × (k < i + n) × (p k ≡ true)
unfolding first
first-some p zero i k h = cc
first-some p (suc n) i k h = ground (arith, first-some p n (suc i) k)

pub first-some_before :
    (p : ℕ → Bool) (n i k j : ℕ) → first p n i ≡ some k → i ≤ j → j < k → p j ≡ false
unfolding first
first-some_before p zero i k j h = cc
first-some_before p (suc n) i k j h = ground (arith, first-some_before p n (suc i) k j)

pub first-none : (p : ℕ → Bool) (n i j : ℕ) → first p n i ≡ none → i ≤ j → j < i + n → p j ≡ false
unfolding first
first-none p zero i j h lo hi = absurd (omega arith)
first-none p (suc n) i j h lo hi = ground (arith, first-none p n (suc i) j)

-- An index that passes is found, if none below it passes.
pub first-eq_some :
    (p : ℕ → Bool) (n i k : ℕ)
    → i ≤ k
    → k < i + n
    → p k ≡ true
    → ((j : ℕ) → i ≤ j → j < k → p j ≡ false)
    → first p n i ≡ some k
unfolding first
first-eq_some p zero i k l h t before = absurd (omega arith)
first-eq_some p (suc n) i k l h t before = elim (Bool-cases (p i)) [
  | inl hit ↦ ground (arith, before i)
  | inr miss ↦ ground (
    arith,
    first-eq_some p n (suc i) k (ground arith) (omega arith) t
        (λ j lo hi. before j (omega arith) hi),
  )
]

-- Where one index passes, some index at most that is found.
pub first-hit :
    (p : ℕ → Bool) (n i k : ℕ)
    → i ≤ k
    → k < i + n
    → p k ≡ true
    → (m : ℕ) × (first p n i ≡ some m) × (m ≤ k)
unfolding first
first-hit p zero i k l h t = absurd (omega arith)
first-hit p (suc n) i k l h t = elim (Bool-cases (p i)) [
  | inl hit ↦ (i, ground arith, l)
  | inr miss ↦
      let (m, e, le) = first-hit p n (suc i) k (ground arith) (omega arith) t in
      (m, ground arith, le)
]

pub first-eq_none :
    (p : ℕ → Bool) (n i : ℕ) → ((j : ℕ) → i ≤ j → j < i + n → p j ≡ false) → first p n i ≡ none
unfolding first
first-eq_none p zero i h = refl
first-eq_none p (suc n) i h =
    ground (arith, h i, first-eq_none p n (suc i) (λ j lo hi. h j (omega arith) (omega arith)))

-- A loop that visits each of the `n` indices from `i` on.
unfoldable pub sweep {ℓ} : {S : Type ℓ} → (ℕ → S → S) → ℕ → ℕ → S → S
sweep round zero i s = s
sweep round (suc n) i s = sweep round n (suc i) (round i s)

-- Where each round changes the element of its index by `f`, the loop so changes those it visits.
pub sweep_at {ℓ κ} :
    {S : Type ℓ} {A : Type κ} (look : S → Array A) (f : A → A) (round : ℕ → S → S)
    → ((i : ℕ) (s : S) (j : ℕ) → look (round i s) j ≡ (if j == i then f (look s i) else look s j))
    → (n i : ℕ) (s : S) (j : ℕ)
    → look (sweep round n i s) j ≡ (if leb i j && ltb j (i + n) then f (look s j) else look s j)
unfolding sweep
sweep_at look f round step zero i s j = ground arith
sweep_at look f round step (suc n) i s j =
    ground (arith, step i s j, sweep_at look f round step n (suc i) (round i s) j)

-- What each round keeps, the loop keeps.
pub sweep_keeps {ℓ κ} :
    {S : Type ℓ} (P : S → Type κ) (round : ℕ → S → S)
    → ((i : ℕ) (s : S) → P s → P (round i s))
    → (n i : ℕ) (s : S) → P s
    → P (sweep round n i s)
unfolding sweep
sweep_keeps P round keep zero i s h = h
sweep_keeps P round keep (suc n) i s h = sweep_keeps P round keep n (suc i) (round i s) (keep i s h)
