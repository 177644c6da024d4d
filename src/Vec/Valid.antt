-- ===== src/Vec/Valid.antt =====
-- The representation invariant of `struct _vec`, and the list of entries that a vector stands for.
use nftp_codec.Prelude.{
  tabulate, length-tabulate, ℕ, zero, suc, ◌^◌, ◌≤◌, ◌<◌, List, [], Option, none, some, length,
  true, ◌≡◌, refl, arith,
}
use nftp_codec.Prelude.Int.{ℤ, pos, negsuc}
use nftp_codec.Errors.{Status, success, Run, ok}
use nftp_codec.Vec.{Vec, alloc, cells_for}
use nftp_codec.Vec.Index.{entry}

-- The ring has one cell for each unit of capacity, and `int` holds every sum that is computed.
pub record IsValid {A : Type 0} (v : Vec A) : Type 0 where
  pub cells : length v.vec ≡ v.cap
  pub low_in : v.low < v.cap
  pub len_in : v.len ≤ v.cap
  pub small : v.cap ≤ 2 ^ 30

module _ {A : Type 0} (null : A) where
  abbrev pub contents : Vec A → List A
  contents v = tabulate v.len (entry null v.vec v.cap v.low)

  pub length-contents : (v : Vec A) → length (contents v) ≡ v.len
  length-contents v = length-tabulate v.len (entry null v.vec v.cap v.low)

  -- What a run that leaves a status and a vector does in terms of the list.
  abbrev pub Implements : ℕ → Run (Status × Vec A) → Status × List A → Type 0
  Implements cap run (status, q) =
      (v : Vec A) × (run ≡ ok (status, v)) × IsValid v × (v.cap ≡ cap) × (contents v ≡ q)

  -- The same for a run that also writes through `entryp`.
  abbrev pub Delivers : ℕ → Run (Status × Option A × Vec A) → Status × Option A × List A → Type 0
  Delivers cap run (status, out, q) =
      (v : Vec A) × (run ≡ ok (status, out, v)) × IsValid v × (v.cap ≡ cap) × (contents v ≡ q)

-- A successful `nftp_vec_alloc` gives a valid vector with no entries, of the asked capacity, or of 32
-- cells if that is not positive, when the allocated array has the cells asked for and they are at
-- most 2 ^ 30.
pub alloc-IsValid :
    {A : Type 0} (null : A) (malloc : ℕ → Option (List A)) (sz : ℤ) {v : Vec A}
    → ((n : ℕ) (b : List A) → malloc n ≡ some b → length b ≡ n)
    → cells_for sz ≤ 2 ^ 30
    → alloc true malloc sz ≡ (success, some v)
    → IsValid v × (contents null v ≡ []) × (v.cap ≡ cells_for sz)
unfolding alloc cells_for
alloc-IsValid null malloc sz {v} sized small e = go (malloc (cells_for sz)) refl e
  where
    some_cells : (z : ℤ) → 0 < cells_for z
    some_cells (pos zero) = omega arith
    some_cells (pos (suc n)) = omega arith
    some_cells (negsuc n) = omega arith

    go :
        (b : Option (List _))
        → malloc (cells_for sz) ≡ b
        → alloc true malloc sz ≡ (success, some v)
        → IsValid v × (contents null v ≡ []) × (v.cap ≡ cells_for sz)
    go none p e = cc
    go (some b) p e = ground (arith, rw (p, alloc) at e, some_cells sz, sized (cells_for sz) b p)
