-- ===== src/Base/Int.antt =====
-- The values of the type `int`, which the structures store, copy and compare.
use Prim.Native.Nat.{ℕ}
use mathlib.Core.Path.{◌≡◌}
use mathlib.Core.Logic.{◌↔◌}
use mathlib.Core.Bool.{Bool, true, false}
use native.Mathlib.Omega.{arith}
use data_structure_benchmark.Base.Tests.{ltb, ◌==◌}

-- `negsuc n` is -(n + 1).
pub data ℤ : Type 0 where
  pos : ℕ → ℤ
  negsuc : ℕ → ℤ

-- The `-1` that the operations return for an empty structure.
abbrev pub minus_one : ℤ
minus_one = negsuc 0

-- `a < b` on `int`
abbrev pub lt_int : ℤ → ℤ → Bool
lt_int (pos a) (pos b) = ltb a b
lt_int (pos a) (negsuc b) = false
lt_int (negsuc a) (pos b) = true
lt_int (negsuc a) (negsuc b) = ltb b a

-- `a == b` on `int`
abbrev pub eq_int : ℤ → ℤ → Bool
eq_int (pos a) (pos b) = a == b
eq_int (pos a) (negsuc b) = false
eq_int (negsuc a) (pos b) = false
eq_int (negsuc a) (negsuc b) = a == b

pub eq_int_iff : (a b : ℤ) → (eq_int a b ≡ true) ↔ (a ≡ b)
eq_int_iff a b = ground arith

pub eq_int_refl : (a : ℤ) → eq_int a a ≡ true
eq_int_refl a = ground arith

pub lt_int_trans : (a b c : ℤ) → lt_int a b ≡ true → lt_int b c ≡ true → lt_int a c ≡ true
lt_int_trans a b c h k = ground arith

pub lt_int_irrefl : (a : ℤ) → lt_int a a ≡ false
lt_int_irrefl a = ground arith

-- `b ≤ a` and `c ≤ b` give `c ≤ a`.
pub le_int_trans : (a b c : ℤ) → lt_int a b ≡ false → lt_int b c ≡ false → lt_int a c ≡ false
le_int_trans a b c h k = ground arith

pub lt_int_asymm : (a b : ℤ) → lt_int a b ≡ true → lt_int b a ≡ false
lt_int_asymm a b h = ground arith

pub lt_int_le_trans : (a b c : ℤ) → lt_int a b ≡ true → lt_int c b ≡ false → lt_int a c ≡ true
lt_int_le_trans a b c h k = ground arith

pub eq_int_of_not_lt : (a b : ℤ) → lt_int a b ≡ false → lt_int b a ≡ false → a ≡ b
eq_int_of_not_lt a b h k = ground arith
