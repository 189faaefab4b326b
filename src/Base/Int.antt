-- ===== src/Base/Int.antt =====
-- C's `int` where it holds a difference of two small numbers, and the tests made of it.
use Prim.Native.Nat.{ℕ, suc, ◌-◌}
use mathlib.Core.Path.{◌≡◌}
use mathlib.Core.Bool.{Bool, true, false}
use native.Mathlib.Omega.{arith}
use socket.Base.Tests.{ltb, leb, ◌==◌, if◌then◌else◌}

-- `negsuc n` is -(n + 1).
pub data ℤ : Type 0 where
  pos : ℕ → ℤ
  negsuc : ℕ → ℤ

-- a - b, as an integer.
abbrev pub sub_ℕ : ℕ → ℕ → ℤ
sub_ℕ a b = if leb b a then pos (a - b) else negsuc (b - a - 1)

-- a < b, on integers.
abbrev pub ltz : ℤ → ℤ → Bool
ltz (pos a) (pos b) = ltb a b
ltz (pos a) (negsuc b) = false
ltz (negsuc a) (pos b) = true
ltz (negsuc a) (negsuc b) = ltb b a

-- a = b, on integers.
abbrev pub eqz : ℤ → ℤ → Bool
eqz (pos a) (pos b) = a == b
eqz (negsuc a) (negsuc b) = a == b
eqz _ _ = false

pub sub_ℕ-zero : (a b : ℕ) → eqz (sub_ℕ a b) (pos 0) ≡ (a == b)
sub_ℕ-zero a b = ground arith

pub sub_ℕ-neg : (a b : ℕ) → ltz (sub_ℕ a b) (pos 0) ≡ ltb a b
sub_ℕ-neg a b = ground arith

pub sub_ℕ-pos : (a b : ℕ) → ltz (pos 0) (sub_ℕ a b) ≡ ltb b a
sub_ℕ-pos a b = ground arith

pub sub_ℕ-above_one : (a b : ℕ) → ltz (pos 1) (sub_ℕ a b) ≡ ltb (suc b) a
sub_ℕ-above_one a b = ground arith

pub sub_ℕ-below_minus_one : (a b : ℕ) → ltz (sub_ℕ a b) (negsuc 0) ≡ ltb (suc a) b
sub_ℕ-below_minus_one a b = ground arith

pub ruleset sub_tests = (sub_ℕ-zero, sub_ℕ-neg, sub_ℕ-pos, sub_ℕ-above_one, sub_ℕ-below_minus_one)
