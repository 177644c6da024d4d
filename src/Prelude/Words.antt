-- ===== src/Prelude/Words.antt =====
-- Big-endian words, the byte lists that the put macros write, and what the get macros make of them.
use Prim.Native.Nat.{ℕ, ◌+◌, ◌*◌, ◌/◌, ◌%◌, ◌^◌, ◌<◌}
use mathlib.Core.List.{List, [], ◌∷◌}
use mathlib.Core.Path.{◌≡◌}
use native.Mathlib.Omega.{arith}

-- `nftp_put_u16` and `nftp_put_u32`: the casts to bytes cut the shifted word.
abbrev pub be16 : ℕ → List ℕ
be16 n = n / 2 ^ 8 % 2 ^ 8 ∷ n % 2 ^ 8 ∷ []

abbrev pub be32 : ℕ → List ℕ
be32 n = n / 2 ^ 24 % 2 ^ 8 ∷ n / 2 ^ 16 % 2 ^ 8 ∷ n / 2 ^ 8 % 2 ^ 8 ∷ n % 2 ^ 8 ∷ []

-- `nftp_get_u16` and `nftp_get_u32`, of bytes below 2 ^ 8.
abbrev pub word16 : ℕ → ℕ → ℕ
word16 a b = a * 2 ^ 8 + b

abbrev pub word32 : ℕ → ℕ → ℕ → ℕ → ℕ
word32 a b c d = a * 2 ^ 24 + b * 2 ^ 16 + c * 2 ^ 8 + d

pub word16-be16 : (n : ℕ) → n < 2 ^ 16 → word16 (n / 2 ^ 8 % 2 ^ 8) (n % 2 ^ 8) ≡ n
word16-be16 n h = omega arith

pub word32-be32 :
    (n : ℕ)
    → n < 2 ^ 32
    → word32 (n / 2 ^ 24 % 2 ^ 8) (n / 2 ^ 16 % 2 ^ 8) (n / 2 ^ 8 % 2 ^ 8) (n % 2 ^ 8) ≡ n
word32-be32 n h = omega arith
