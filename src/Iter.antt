-- ===== src/Iter.antt =====
-- The iterators: `nftp_vec_iter` of src/vector.c and `nftp_iovs_iter` of src/iovs.c, with the `next`
-- and `prev` that `nftp_iter_next` and `nftp_iter_prev` of src/iter.c call.
pub mod Walk
pub mod Row
pub mod Handle
mod Tests
use nftp_codec.Prelude.{ℕ, ◌+◌, ◌%◌, ◌^◌, Option, none, some, if◌then◌else◌}
use nftp_codec.Prelude.Int.{ℤ, pos, as_size, succ_int, pred_int, eq_int}
use nftp_codec.Errors.{Status, success, Run, ok, fault, ◌>>=◌}
use nftp_codec.Mem.{nftp_head, nftp_tail}
use nftp_codec.Vec.{Vec, get}
use nftp_codec.Iovs.{Iovs}

-- `nftp_iter` with its state; the functions and the vector that it holds are given apart.
pub record Iter (A : Type 0) : Type 0 where
  pub key : ℤ
  pub val : Option A

module _ {A : Type 0} where
  pub vec_iter : Iter A
  vec_iter = record { key = nftp_head; val = none }

  -- `if (0 != nftp_vec_get(v, self->key, &self->val)) self->key = …;` with `val` NULL before.
  abbrev pub settle : ℤ → ℤ → Status × Option A → Iter A
  settle key past (success, out) = record { key = key; val = out }
  settle key past (_, out) = record { key = past; val = none }

  pub vec_iter_next : Vec A → Iter A → Run (Iter A)
  vec_iter_next v it =
      if eq_int it.key nftp_tail
      then ok (record it { val = none })
      else (do got ← get v (succ_int it.key); ok (settle (succ_int it.key) nftp_tail got))

  pub vec_iter_prev : Vec A → Iter A → Run (Iter A)
  vec_iter_prev v it =
      if eq_int it.key nftp_tail
      then ok (record it { val = none })
      else (do got ← get v (pred_int it.key); ok (settle (pred_int it.key) nftp_head got))

-- The iterator over a row: its value is the address of a cell, which is given by the cell's number.
module _ {P : Type 0} where
  abbrev pub cell_at : Iovs P → ℤ → Option ℕ
  cell_at s key = some ((s.low + as_size key) % 2 ^ 64)

  -- `key == (int)len - 1`, and past the largest int `key ++` is undefined.
  pub iovs_iter_next : Iovs P → Iter ℕ → Run (Iter ℕ)
  iovs_iter_next s it =
      let key = succ_int it.key in
      if eq_int it.key (pred_int (pos s.len))
      then ok (record { key = nftp_tail; val = none })
      else if eq_int it.key nftp_tail
      then fault
      else ok (record { key = key; val = cell_at s key })

  pub iovs_iter_prev : Iovs P → Iter ℕ → Run (Iter ℕ)
  iovs_iter_prev s it =
      let last = pred_int (pos s.len) in
      let key = pred_int it.key in
      if eq_int it.key nftp_tail
      then ok (record { key = last; val = cell_at s last })
      else if eq_int it.key nftp_head
      then ok (record it { val = none })
      else ok (record { key = key; val = cell_at s key })
