-- ===== src/Prelude/Int.antt =====
-- Go's signed integers as values, and the arithmetic of int64 bit patterns.
use Prim.Native.Nat.{ℕ, zero, suc, ◌+◌, ◌%◌, ◌^◌}
use mathlib.Core.Bool.{Bool, true, false}
use cliharbor.Prelude.Tests.{ltb}

-- `negsuc n` is -(n + 1).
pub data ℤ : Type 0 where
  pos : ℕ → ℤ
  negsuc : ℕ → ℤ

abbrev pub ltb_ℤ : ℤ → ℤ → Bool
ltb_ℤ (pos a) (pos b) = ltb a b
ltb_ℤ (pos a) (negsuc b) = false
ltb_ℤ (negsuc a) (pos b) = true
ltb_ℤ (negsuc a) (negsuc b) = ltb b a

-- An option that is not positive takes its default.
abbrev pub positive_or : ℤ → ℕ → ℕ
positive_or (pos zero) d = d
positive_or (pos (suc n)) d = suc n
positive_or (negsuc n) d = d

-- Two's complement: a word below 2^63 stands for itself, the others for word - 2^64.
abbrev pub add64 : ℕ → ℕ → ℕ
add64 a b = (a + b) % 2 ^ 64

abbrev pub signed_lt64 : ℕ → ℕ → Bool
signed_lt64 a b = ltb ((a + 2 ^ 63) % 2 ^ 64) ((b + 2 ^ 63) % 2 ^ 64)
