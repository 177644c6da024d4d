-- ===== src/Vec/Middle.antt =====
-- Entries put in and taken out at a position.
use nftp_codec.Prelude.{
  insert_at, remove_at, ℕ, ◌+◌, ◌-◌, ◌%◌, ◌≤◌, ◌<◌, length-set, get_elem?, set, refl, ◌≢◌, arith,
}
use nftp_codec.Prelude.Int.{pos}
use nftp_codec.Errors.{success}
use nftp_codec.Mem.{load_lem, store_lem}
use nftp_codec.Vec.{Vec, insert_inside, delete_inside, slot}
use nftp_codec.Vec.Shift.{shift_up_lem, shift_down_lem}
use nftp_codec.Vec.Index.{entry, entry-set}
use nftp_codec.Vec.Valid.{IsValid, contents, Implements, Delivers}
use nftp_codec.Vec.Contents.{get_contents, insert_contents, remove_contents}

module _ {A : Type 0} (null : A) {v : Vec A} (valid : IsValid v) where
  -- Moving the entries from `p` on up, and putting `x` in the gap.
  pub insert_inside_lem :
      (x : A) (p : ℕ)
      → v.len ≢ v.cap
      → p ≤ v.len
      → Implements null v.cap (insert_inside v x (pos p)) (success, insert_at (contents null v) p x)
  unfolding insert_inside slot
  insert_inside_lem x p room h =
      let old = entry null v.vec v.cap v.low in
      let i = (v.low + p) % v.cap in
      let (buf, run, full, moved) =
        shift_up_lem null v.cap v.low valid.low_in (v.len - p) p (v.low + v.len) v.vec (omega arith)
          (omega arith) valid.cells in
      let w : Vec A = record v { len = v.len + 1; vec = set buf i x } in
      (
        w,
        rw (run, store_lem buf i x (omega arith)),
        ground (arith, length-set buf i x),
        refl,
        insert_contents null valid p x w h refl λ k q. ground (
          arith,
          moved k (omega arith),
          entry-set null buf v.cap v.low p x k full valid.low_in (omega arith) (omega arith),
        ),
      )

  -- Taking the entry at `p` out, and moving those behind it down.
  pub delete_inside_lem :
      (p : ℕ)
      → p < v.len
      → Delivers null v.cap
          (delete_inside v p)
          (success, get_elem? (contents null v) p, remove_at (contents null v) p)
  unfolding delete_inside
  delete_inside_lem p h =
      let i = (v.low + p) % v.cap in
      let (buf, run, full, moved) =
        shift_down_lem null v.cap v.low valid.low_in (v.len - p - 1) p (v.low + p + 1) v.vec
          (omega arith) (omega arith) valid.cells in
      let w : Vec A = record v { len = v.len - 1; vec = buf } in
      (
        w,
        rw (load_lem v.vec i null (omega arith), run, get_contents null valid p h),
        ground arith,
        refl,
        remove_contents null valid p w h refl (λ k q. ground (arith, moved k (omega arith))),
      )
