-- ===== src/Base/Decimal.antt =====
-- The decimal digits that std::to_string writes for an `int`.
use Prim.Native.Nat.{ℕ, zero, suc, ◌+◌, ◌-◌, ◌*◌, ◌/◌, ◌%◌, ◌≤◌, ◌<◌}
use mathlib.Core.Path.{◌≡◌, refl, ap, sym, ◌∙◌}
use mathlib.Core.Bool.{Bool, false, ◌||◌, true≢false}
use mathlib.Core.List.{[], ◌∷◌, tail-eq_of_cons-eq}
use native.Mathlib.Omega.{arith}
use hakoniwa_core_pro.Base.Tests.{if◌then◌else◌, ◌==◌, ltb, Bool-cases}
use mathlib.Core.Logic.{◌⊎◌, ◌≢◌, inl, inr}
use hakoniwa_core_pro.Base.Int.{ℤ, pos, negsuc}
use hakoniwa_core_pro.Base.Names.{Name}

-- The digits of `n` before those of `acc`; `n` rounds are enough.
unfoldable pub digits : ℕ → ℕ → Name → Name
digits zero n acc = (48 + n % 10) ∷ acc
digits (suc rounds) n acc =
    let rest = digits rounds (n / 10) ((48 + n % 10) ∷ acc) in
    if ltb n 10 then (48 + n % 10) ∷ acc else rest

-- std::to_string
unfoldable pub to_string : ℤ → Name
to_string (pos n) = digits n n []
to_string (negsuc n) = 45 ∷ digits (suc n) (suc n) []

-- What digits mean, after a number that was read.
value : ℕ → Name → ℕ
value v [] = v
value v (d ∷ ds) = value (10 * v + (d - 48)) ds

value-digits :
    (rounds n : ℕ) (acc : Name) → n ≤ rounds → value 0 (digits rounds n acc) ≡ value n acc
unfolding value digits
value-digits zero n acc h = ap (λ v. value v acc) (omega (arith, h))
value-digits (suc rounds) n acc h = elim (Bool-cases (ltb n 10)) [
  | inl small ↦ rw small (ap (λ v. value v acc) (ground (arith, small)))
  | inr large ↦
      rw (large, value-digits rounds (n / 10) ((48 + n % 10) ∷ acc) (ground (arith, h, large)))
        (ap (λ v. value v acc) (ground arith))
]

pub digits-eq : (n k : ℕ) → digits n n [] ≡ digits k k [] → n ≡ k
unfolding value
digits-eq n k e =
    sym (value-digits n n [] (omega arith)) ∙ ap (value 0) e ∙ value-digits k k [] (omega arith)

-- Whether a byte is among those of a string.
unfoldable pub has : ℕ → Name → Bool
has c [] = false
has c (x ∷ xs) = x == c || has c xs

has-digits :
    (c rounds n : ℕ) (acc : Name)
    → (c < 48) ⊎ (58 ≤ c)
    → has c acc ≡ false
    → has c (digits rounds n acc) ≡ false
unfolding has digits
has-digits c zero n acc h none = ground (arith, h, none)
has-digits c (suc rounds) n acc h none =
    ground (
      arith,
      h,
      none,
      has-digits c rounds (n / 10) ((48 + n % 10) ∷ acc) h (ground (arith, h, none)),
    )

-- A number has no letter and no bar in it.
pub has-to_string : (c : ℕ) (i : ℤ) → 58 ≤ c → has c (to_string i) ≡ false
unfolding to_string has
has-to_string c (pos n) h = has-digits c n n [] (inr h) refl
has-to_string c (negsuc n) h = ground (arith, h, has-digits c (suc n) (suc n) [] (inr h) refl)

minus-ne-digits : (n : ℕ) (ds : Name) → digits n n [] ≢ 45 ∷ ds
unfolding has
minus-ne-digits n ds e =
    true≢false (ap (has 45) (sym e) ∙ has-digits 45 n n [] (inl (omega arith)) refl)

pub to_string-eq : (i j : ℤ) → to_string i ≡ to_string j → i ≡ j
unfolding to_string
to_string-eq (pos n) (pos k) e = ap pos (digits-eq n k e)
to_string-eq (negsuc n) (negsuc k) e =
    ap negsuc (omega (arith, digits-eq (suc n) (suc k) (tail-eq_of_cons-eq e)))
to_string-eq (pos n) (negsuc k) e = absurd (minus-ne-digits n _ e)
to_string-eq (negsuc n) (pos k) e = absurd (minus-ne-digits k _ (sym e))
