-- ===== src/Iovs.antt =====
-- src/iovs.c: a double-ended row of `struct iovec` cells, `struct _iovs`. `P` is the type of the
-- pointers in `iov_base`. A function that writes through `iovs` returns the new row, and one that
-- writes through `ptrp` and `lenp` returns what it wrote. The mutex makes each call one step.
pub mod Valid
pub mod Ends
pub mod Insert
pub mod Cat
pub mod Stream
mod Tests
use nftp_codec.Prelude.{
  ℕ, zero, suc, ◌+◌, ◌-◌, ◌/◌, ◌%◌, ◌^◌, Bool, true, false, List, [], ◌∷◌, Option, none, some, ltb,
  ◌==◌, if◌then◌else◌,
}
use nftp_codec.Prelude.Int.{ℤ}
use nftp_codec.Errors.{
  Status, success, err_mem, err_overflow, err_flag, err_empty, Run, ok, fault, ◌>>=◌,
}
use nftp_codec.Mem.{load, store, blit, or_fault, End, end_of, nftp_tail}

-- `struct iovec`
pub record Iov (P : Type 0) : Type 0 where
  pub base : P
  pub len : ℕ

pub record Iovs (P : Type 0) : Type 0 where
  pub iovs : List (Iov P)
  pub low : ℕ
  pub len : ℕ
  pub cap : ℕ
  pub iolen : ℕ

-- `size_t` addition and subtraction
abbrev pub add_size : ℕ → ℕ → ℕ
add_size a b = (a + b) % 2 ^ 64

abbrev pub sub_size : ℕ → ℕ → ℕ
sub_size a b = (a + 2 ^ 64 - b % 2 ^ 64) % 2 ^ 64

module _ {P : Type 0} where
  -- `malloc` answers for the struct, and for `NFTP_SIZE` cells with their first contents.
  unfoldable pub alloc : Bool → Option (List (Iov P)) → Status × Option (Iovs P)
  alloc false cells = (err_mem, none)
  alloc true none = (err_mem, none)
  alloc true (some cells) =
      (success, some (record { iovs = cells; low = 32 / 3; len = 0; cap = 32; iolen = 0 }))

  -- Fill cell `i`, with `low` as given.
  pub fill : Iovs P → ℕ → ℕ → P → ℕ → Run (Status × Iovs P)
  fill s low i ptr len = do
    cells ← store s.iovs i (record { base = ptr; len = len })
    ok (
      success,
      record s { iovs = cells; low = low; len = s.len + 1; iolen = add_size s.iolen len },
    )

  pub push : Iovs P → P → ℕ → ℤ → Run (Status × Iovs P)
  unfolding fill
  push s ptr len flag = elim (end_of flag) [
    | End.head ↦ if s.low == 0 then ok (err_overflow, s) else fill s (s.low - 1) (s.low - 1) ptr len
    | End.tail ↦
        if ltb s.cap (s.low + s.len)
        then ok (err_overflow, s)
        else fill s s.low (s.low + s.len) ptr len
    | End.other ↦ ok (err_flag, s)
  ]

  unfoldable pub append : Iovs P → P → ℕ → Run (Status × Iovs P)
  append s ptr len = push s ptr len nftp_tail

  -- The loop of `insert` with the rounds left, from `i` down: `iovs[i] = iovs[i - 1]`.
  pub shift_up : ℕ → ℕ → List (Iov P) → Run (List (Iov P))
  shift_up zero i cells = ok cells
  shift_up (suc rounds) i cells = do
    x ← load cells (i - 1)
    cells' ← store cells i x
    shift_up rounds (i - 1) cells'

  pub insert : Iovs P → P → ℕ → ℕ → Run (Status × Iovs P)
  unfolding push shift_up
  insert s ptr len pos =
      if ltb s.cap (s.low + s.len + 1)
      then ok (err_overflow, s)
      else if ltb s.len pos
      then push s ptr len nftp_tail
      else (do
        cells ← shift_up (s.len - pos) (s.low + s.len) s.iovs
        cells' ← store cells pos (record { base = ptr; len = len })
        ok (success, record s { iovs = cells'; len = s.len + 1; iolen = add_size s.iolen len }))

  -- The loop of `cat` with the rounds left: `d->iovs[at] = s->iovs[from]`.
  pub copy_cells : ℕ → ℕ → ℕ → List (Iov P) → List (Iov P) → Run (List (Iov P))
  copy_cells zero at from d s = ok d
  copy_cells (suc rounds) at from d s = do
    x ← load s from
    d' ← store d at x
    copy_cells rounds (at + 1) (from + 1) d' s

  pub cat : Iovs P → Iovs P → Run (Status × Iovs P)
  unfolding copy_cells
  cat d s = if ltb d.cap (d.low + d.len + s.len) then ok (err_overflow, d) else (do
    cells ← copy_cells s.len (d.low + d.len) s.low d.iovs s.iovs
    ok (success, record d { iovs = cells; len = d.len + s.len; iolen = add_size d.iolen s.iolen }))

module _ {P : Type 0} (null : P) where
  -- Empty cell `i`, with `low` as given.
  pub take_out : Iovs P → ℕ → ℕ → Run (Status × Option (Iov P) × Iovs P)
  take_out s low i = do
    x ← load s.iovs i
    cells ← store s.iovs i (record { base = null; len = 0 })
    ok (
      success,
      some x,
      record s { iovs = cells; low = low; len = s.len - 1; iolen = sub_size s.iolen x.len },
    )

  pub pop : Iovs P → ℤ → Run (Status × Option (Iov P) × Iovs P)
  unfolding take_out
  pop s flag = if s.len == 0 then ok (err_empty, none, s) else elim (end_of flag) [
    | End.head ↦ take_out s (s.low + 1) s.low
    | End.tail ↦ take_out s s.low (s.low + s.len - 1)
    | End.other ↦ ok (err_flag, none, s)
  ]

-- `read p n` gives the `n` bytes at `p`, if they all lie in the object that `p` points to.
module _ {P : Type 0} (read : P → ℕ → Option (List ℕ)) where
  -- The loop of `iovs2stream` with the rounds left, at cell `i` and byte `pos`.
  pub gather : ℕ → ℕ → ℕ → List (Iov P) → List ℕ → Run (List ℕ)
  gather zero i pos cells str = ok str
  gather (suc rounds) i pos cells str = do
    x ← load cells i
    bytes ← or_fault (read x.base x.len)
    str' ← blit str pos bytes
    gather rounds (i + 1) (pos + x.len) cells str'

  -- `malloc` gives the stream's buffer with its first contents.
  pub iovs2stream : (ℕ → Option (List ℕ)) → Iovs P → Run (Status × Option (List ℕ × ℕ))
  unfolding gather
  iovs2stream malloc s = elim (malloc s.iolen) [
    | none ↦ ok (err_mem, none)
    | some str ↦ do out ← gather s.len s.low 0 s.iovs str; ok (success, some (out, s.iolen))
  ]
