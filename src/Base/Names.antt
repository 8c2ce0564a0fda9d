-- ===== src/Base/Names.antt =====
-- Equality of names: std::string's `==`.
use Prim.Native.Nat.{ℕ}
use mathlib.Core.Path.{◌≡◌, refl}
use mathlib.Core.Bool.{Bool, true, false, ◌&&◌}
use mathlib.Core.List.{List, [], ◌∷◌}
use native.Mathlib.Omega.{arith}
use hakoniwa_core_pro.Base.Tests.{◌==◌}

-- A std::string, or a C string without its NUL: its bytes.
abbrev pub Name : Type 0
Name = List ℕ

unfoldable pub name_eq : Name → Name → Bool
name_eq [] [] = true
name_eq [] (y ∷ ys) = false
name_eq (x ∷ xs) [] = false
name_eq (x ∷ xs) (y ∷ ys) = x == y && name_eq xs ys

pub name_eq_self : (n : Name) → name_eq n n ≡ true
unfolding name_eq
name_eq_self [] = refl
name_eq_self (x ∷ xs) = ground (arith, name_eq_self xs)

pub name_eq_sound : (n k : Name) → name_eq n k ≡ true → n ≡ k
unfolding name_eq
name_eq_sound [] [] e = refl
name_eq_sound [] (y ∷ ys) e = cc
name_eq_sound (x ∷ xs) [] e = cc
name_eq_sound (x ∷ xs) (y ∷ ys) e = ground (arith, name_eq_sound xs ys)
