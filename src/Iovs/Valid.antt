-- ===== src/Iovs/Valid.antt =====
-- The representation invariant of `struct _iovs`, and the list of pieces that a row stands for.
use nftp_codec.Prelude.{
  tabulate, length-tabulate, ℕ, ◌+◌, ◌%◌, ◌^◌, ◌≤◌, List, [], ◌∷◌, ◌++◌, Option, length, get_or,
  ◌≡◌, arith,
}
use nftp_codec.Errors.{Status, Run, ok}
use nftp_codec.Iovs.{Iovs, Iov}

module _ {P : Type 0} where
  -- The number of bytes of some pieces.
  abbrev pub total : List (Iov P) → ℕ
  total [] = 0
  total (x ∷ xs) = x.len + total xs

  pub total-append : (xs ys : List (Iov P)) → total (xs ++ ys) ≡ total xs + total ys
  total-append [] ys = omega arith
  total-append (x ∷ xs) ys = omega (arith, total-append xs ys)

  abbrev pub cell : P → List (Iov P) → ℕ → Iov P
  cell null cells k = get_or cells k (record { base = null; len = 0 })

  abbrev pub contents : P → Iovs P → List (Iov P)
  contents null s = tabulate s.len (λ k. cell null s.iovs (s.low + k))

  pub length-contents : (null : P) (s : Iovs P) → length (contents null s) ≡ s.len
  length-contents null s = length-tabulate s.len (λ k. cell null s.iovs (s.low + k))

  -- The pieces lie in the row, and `iolen` is the number of their bytes, as a `size_t`.
  pub record IsValid (null : P) (s : Iovs P) : Type 0 where
    pub cells : length s.iovs ≡ s.cap
    pub inside : s.low + s.len ≤ s.cap
    pub counted : s.iolen ≡ total (contents null s) % 2 ^ 64

  -- What a run that leaves a status and a row does in terms of the pieces.
  abbrev pub Implements : P → ℕ → Run (Status × Iovs P) → Status × List (Iov P) → Type 0
  Implements null cap run (status, q) =
      (s : Iovs P) × (run ≡ ok (status, s)) × IsValid null s × (s.cap ≡ cap) × (contents null s ≡ q)

  -- The same for a run that also writes through `ptrp` and `lenp`.
  abbrev pub Delivers :
      P
      → ℕ
      → Run (Status × Option (Iov P) × Iovs P)
      → Status × Option (Iov P) × List (Iov P)
      → Type 0
  Delivers null cap run (status, out, q) =
      (s : Iovs P) × (run ≡ ok (status, out, s))
      × IsValid null s
      × (s.cap ≡ cap)
      × (contents null s ≡ q)
