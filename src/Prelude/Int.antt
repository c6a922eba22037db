-- ===== src/Prelude/Int.antt =====
-- Signed integers over the native numbers: the values of C++ `int`, and of `uint32_t` as those from 0.
use Prim.Native.Nat.{ℕ, zero, suc}
use mathlib.Core.Path.{◌≡◌}
use mathlib.Core.Logic.{◌↔◌}
use mathlib.Core.Bool.{Bool, true, false}
use native.Mathlib.Omega.{arith}
use sacs.Prelude.Compare.{◌==◌, ltb}

-- `negsuc n` is -(n + 1).
pub data ℤ : Type 0 where
  pos : ℕ → ℤ
  negsuc : ℕ → ℤ

infix 50 ◌==ℤ◌
abbrev pub ◌==ℤ◌ : ℤ → ℤ → Bool
pos a ==ℤ pos b = a == b
pos a ==ℤ negsuc b = false
negsuc a ==ℤ pos b = false
negsuc a ==ℤ negsuc b = a == b

abbrev pub ltb_ℤ : ℤ → ℤ → Bool
ltb_ℤ (pos a) (pos b) = ltb a b
ltb_ℤ (pos a) (negsuc b) = false
ltb_ℤ (negsuc a) (pos b) = true
ltb_ℤ (negsuc a) (negsuc b) = ltb b a

abbrev pub pred_ℤ : ℤ → ℤ
pred_ℤ (pos zero) = negsuc 0
pred_ℤ (pos (suc n)) = pos n
pred_ℤ (negsuc n) = negsuc (suc n)

pub ==ℤ_iff : (a b : ℤ) → ((a ==ℤ b) ≡ true) ↔ (a ≡ b)
==ℤ_iff a b = ground arith

pub ==ℤ_refl : (a : ℤ) → (a ==ℤ a) ≡ true
==ℤ_refl a = ground arith

module _ (a b : ℤ) where
  pub ltb_ℤ_irrefl : ltb_ℤ a a ≡ false
  ltb_ℤ_irrefl = ground arith

  pub ltb_ℤ_trans : (c : ℤ) → ltb_ℤ a b ≡ true → ltb_ℤ b c ≡ true → ltb_ℤ a c ≡ true
  ltb_ℤ_trans c h k = ground arith

  pub ltb_ℤ_ne : ltb_ℤ a b ≡ true → (a ==ℤ b) ≡ false
  ltb_ℤ_ne h = ground arith

  pub ltb_ℤ_connex : ltb_ℤ a b ≡ false → (a ==ℤ b) ≡ false → ltb_ℤ b a ≡ true
  ltb_ℤ_connex h k = ground arith
