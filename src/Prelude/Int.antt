-- ===== src/Prelude/Int.antt =====
-- C's `int` arguments as integers: `negsuc n` is -(n + 1).
use Prim.Native.Nat.{ℕ, zero, suc, ◌+◌, ◌-◌, ◌^◌}
use mathlib.Core.Bool.{Bool, false}
use nftp_codec.Prelude.Tests.{ltb, ◌==◌, if◌then◌else◌}

pub data ℤ : Type 0 where
  pos : ℕ → ℤ
  negsuc : ℕ → ℤ

-- The int before this one.
abbrev pub pred_int : ℤ → ℤ
pred_int (pos zero) = negsuc 0
pred_int (pos (suc n)) = pos n
pred_int (negsuc n) = negsuc (suc n)

-- The int after this one.
abbrev pub succ_int : ℤ → ℤ
succ_int (pos n) = pos (suc n)
succ_int (negsuc zero) = pos 0
succ_int (negsuc (suc n)) = negsuc n

-- A natural number plus an int.
abbrev pub add_int : ℕ → ℤ → ℤ
add_int a (pos b) = pos (a + b)
add_int a (negsuc b) = if ltb b a then pos (a - b - 1) else negsuc (b - a)

-- How far an int lies below a natural number: 0 if it does not.
abbrev pub distance_below : ℕ → ℤ → ℕ
distance_below a (pos b) = a - b
distance_below a (negsuc b) = a + b + 1

-- `(size_t)n` of an int.
abbrev pub as_size : ℤ → ℕ
as_size (pos n) = n
as_size (negsuc n) = 2 ^ 64 - 1 - n

-- a < b
abbrev pub lt_int : ℕ → ℤ → Bool
lt_int a (pos b) = ltb a b
lt_int a (negsuc b) = false

abbrev pub eq_int : ℤ → ℤ → Bool
eq_int (pos a) (pos b) = a == b
eq_int (negsuc a) (negsuc b) = a == b
eq_int _ _ = false
