-- ===== src/Iovs/Cat.antt =====
-- `nftp_iovs_cat`.
use nftp_codec.Prelude.{
  ℕ, zero, suc, ◌+◌, ◌-◌, ◌≤◌, ◌<◌, List, ◌++◌, length, set, true, ◌≡◌, refl, ap, ap₂, ◌∙◌, arith,
  length-set, tabulate, tabulate_ext, tabulate-append, ltb, leb, ◌==◌, ◌&&◌, if◌then◌else◌, le→ltb,
  lt→ltb,
}
use nftp_codec.Errors.{success, err_overflow, ok}
use nftp_codec.Mem.{load_lem, store_lem}
use nftp_codec.Iovs.{Iovs, Iov, cat, copy_cells, add_size}
use nftp_codec.Iovs.Valid.{total-append, cell, contents, IsValid, Implements}
use nftp_codec.Iovs.Ends.{cell-set}

module _ {P : Type 0} (null : P) where
  -- The cells from `at` on are those of the other array from `from` on.
  abbrev Copied : ℕ → ℕ → ℕ → List (Iov P) → List (Iov P) → List (Iov P) → Type 0
  Copied n at from d s d' =
      (k : ℕ)
      → cell null d' k
        ≡ (if leb at k && ltb k (at + n) then cell null s (from + (k - at)) else cell null d k)

  copied_round :
      (n at from k : ℕ) (d d₁ d' s : List (Iov P))
      → cell null d₁ k ≡ (if k == at then cell null s from else cell null d k)
      → cell null d' k ≡ (
          if leb (at + 1) k && ltb k (at + 1 + n)
          then cell null s (from + 1 + (k - (at + 1)))
          else cell null d₁ k)
      → cell null d' k
        ≡ (if leb at k && ltb k (at + suc n) then cell null s (from + (k - at)) else cell null d k)
  copied_round n at from k d d₁ d' s wrote rest = ground (arith, wrote, rest, same, first)
    where
      same :
          leb (at + 1) k ≡ true
          → cell null s (from + 1 + (k - (at + 1))) ≡ cell null s (from + (k - at))
      same h =
          let e : from + 1 + (k - (at + 1)) ≡ from + (k - at) = ground arith in ap (cell null s) e

      first : k ≡ at → cell null s from ≡ cell null s (from + (k - at))
      first h = let e : from ≡ from + (k - at) = omega arith in ap (cell null s) e

  copy_cells_lem :
      (n at from : ℕ) (d s : List (Iov P))
      → at + n ≤ length d
      → from + n ≤ length s
      → (d' : List (Iov P)) × (copy_cells n at from d s ≡ ok d')
        × (length d' ≡ length d)
        × Copied n at from d s d'
  unfolding copy_cells
  copy_cells_lem zero at from d s room given = (d, refl, refl, λ k. ground arith)
  copy_cells_lem (suc n) at from d s room given =
      let x = cell null s from in
      let (d', run, len, copied) =
        copy_cells_lem n (at + 1) (from + 1) (set d at x) s (rw length-set (omega arith))
          (omega arith) in
      (
        d',
        rw
            (
              load_lem s from (record { base = null; len = 0 }) (omega arith),
              store_lem d at x (omega arith),
            )
            run,
        len ∙ length-set d at x,
        λ k.
            copied_round n at from k d (set d at x) d' s (cell-set null d at k x (omega arith))
              (copied k),
      )

  -- On valid rows `nftp_iovs_cat` does not fault and keeps the first row valid. It appends the pieces
  -- of the second row in order and adds their bytes to `iolen`, if they fit behind the pieces of the
  -- first; if they do not it refuses by NFTP_ERR_OVERFLOW and leaves the row as it was.
  pub cat_refines :
      {d s : Iovs P}
      → IsValid null d
      → IsValid null s
      → (d.low + d.len + s.len ≤ d.cap
          → Implements null d.cap (cat d s) (success, contents null d ++ contents null s))
        × (d.cap < d.low + d.len + s.len → cat d s ≡ ok (err_overflow, d))
  unfolding cat
  cat_refines {d} {s} dv sv = (
    λ room.
        let (cells, run, len, copied) =
          copy_cells_lem s.len (d.low + d.len) s.low d.iovs s.iovs (omega arith) (omega arith) in
        let view : tabulate (d.len + s.len) (λ k. cell null cells (d.low + k))
            ≡ contents null d ++ contents null s =
          tabulate-append d.len s.len (λ k. cell null cells (d.low + k))
          ∙ ap₂ ◌++◌ (tabulate_ext d.len _ _ (λ k h. ground (arith, copied (d.low + k))))
              (tabulate_ext s.len _ _ (λ k h. moved cells k (copied (d.low + (d.len + k))) h)) in
        (
          record d { iovs = cells; len = d.len + s.len; iolen = add_size d.iolen s.iolen },
          rw (le→ltb d.cap (d.low + d.len + s.len) room, run),
          record {
            cells = omega arith;
            inside = omega arith;
            counted = rw view (omega (arith, total-append (contents null d) (contents null s)));
          },
          refl,
          view,
        ),
    λ full. rw (lt→ltb d.cap (d.low + d.len + s.len) full),
  )
    where
      moved :
          (cells : List (Iov P)) (k : ℕ)
          → cell null cells (d.low + (d.len + k)) ≡ (
              if leb (d.low + d.len) (d.low + (d.len + k))
                && ltb (d.low + (d.len + k)) (d.low + d.len + s.len)
              then cell null s.iovs (s.low + (d.low + (d.len + k) - (d.low + d.len)))
              else cell null d.iovs (d.low + (d.len + k)))
          → k < s.len
          → cell null cells (d.low + (d.len + k)) ≡ cell null s.iovs (s.low + k)
      moved cells k e h =
          let same : s.low + (d.low + (d.len + k) - (d.low + d.len)) ≡ s.low + k = omega arith in
          ground (arith, e, ap (cell null s.iovs) same)
