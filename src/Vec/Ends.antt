-- ===== src/Vec/Ends.antt =====
-- Entries put in and taken out at the two ends of the ring.
use nftp_codec.Prelude.{
  tabulate_ext, tabulate_snoc, remove_at, ℕ, suc, ◌+◌, ◌-◌, ◌%◌, ◌<◌, [], ◌∷◌, ◌++◌, some,
  length-set, get_elem?, set, ◌≡◌, refl, ap, ap₂, ◌≢◌, arith, get_or,
}
use nftp_codec.Errors.{success, ok}
use nftp_codec.Mem.{load_lem, store_lem}
use nftp_codec.Vec.{Vec, put, take_out}
use nftp_codec.Vec.Index.{entry, entry-set, entry-set_cell, step_on, step_back}
use nftp_codec.Vec.Valid.{IsValid, contents, Implements, Delivers}
use native.Mathlib.Numerals.{add-one}
use nftp_codec.Vec.Contents.{get_contents, remove_contents}

module _ {A : Type 0} (null : A) {v : Vec A} (valid : IsValid v) where
  -- Putting an entry behind the last one.
  pub put_tail :
      (x : A)
      → v.len ≢ v.cap
      → Implements null v.cap
          (put v v.low ((v.low + v.len) % v.cap) x)
          (success, contents null v ++ x ∷ [])
  unfolding put
  put_tail x room =
      let i = (v.low + v.len) % v.cap in
      let at = λ (k : ℕ) (h : k < v.cap).
        entry-set null v.vec v.cap v.low v.len x k valid.cells valid.low_in (omega arith) h in
      (
        record v { len = v.len + 1; vec = set v.vec i x },
        rw (store_lem v.vec i x (omega arith)),
        ground (arith, length-set v.vec i x),
        refl,
        rw (add-one v.len, tabulate_snoc v.len (entry null (set v.vec i x) v.cap v.low))
            (ap₂ (λ q y. q ++ y ∷ [])
              (tabulate_ext v.len _ _ (λ k h. ground (arith, at k (omega arith))))
              (ground (arith, at v.len (omega arith)))),
      )

  -- Putting an entry before the first one.
  pub put_head :
      (x : A)
      → v.len ≢ v.cap
      → let low = (v.low + v.cap - 1) % v.cap in
        Implements null v.cap (put v low low x) (success, x ∷ contents null v)
  unfolding put
  put_head x room =
      let low = (v.low + v.cap - 1) % v.cap in
      let at = λ (k : ℕ) (h : k < v.cap).
        entry-set_cell null v.vec v.cap low 0 low x k (grind arith) valid.cells (omega arith)
          (omega arith) h in
      (
        record v { len = v.len + 1; low = low; vec = set v.vec low x },
        rw (store_lem v.vec low x (omega arith)),
        ground (arith, length-set v.vec low x),
        refl,
        rw (add-one v.len) (
            ap₂ ◌∷◌ (ground (arith, at 0 (omega arith))) (
              tabulate_ext v.len _ _ λ k h.
                ground (arith, at (suc k) (omega arith), step_back v.cap v.low k valid.low_in))),
      )

  -- Taking the first entry out.
  pub take_head :
      v.len ≢ 0
      → Delivers null v.cap
          (take_out null v ((v.low + 1) % v.cap) v.low)
          (success, get_elem? (contents null v) 0, remove_at (contents null v) 0)
  unfolding take_out
  take_head some_left =
      let low = (v.low + 1) % v.cap in
      let x = get_or v.vec v.low null in
      let w : Vec A = record v { len = v.len - 1; low = low; vec = set v.vec v.low null } in
      let first : v.low ≡ (v.low + 0) % v.cap = grind arith in
      let at = λ (k : ℕ) (h : k < v.cap).
        entry-set_cell null v.vec v.cap v.low 0 v.low null k first valid.cells valid.low_in
          (omega arith) h in
      (
        w,
        rw
            (
              load_lem v.vec v.low null (omega arith),
              store_lem v.vec v.low null (omega arith),
              get_contents null valid 0 (omega arith),
            )
            (ap (λ y. ok (success, some y, w)) (ap (λ a. get_or v.vec a null) first)),
        ground (arith, length-set v.vec v.low null),
        refl,
        remove_contents null valid 0 w (omega arith) refl
            (λ k h. ground (arith, at (suc k) (omega arith), step_on v.cap v.low k)),
      )

  -- Taking the last entry out.
  pub take_tail :
      v.len ≢ 0
      → Delivers null v.cap (take_out null v v.low ((v.low + v.len - 1) % v.cap)) (
        success,
        get_elem? (contents null v) (v.len - 1),
        remove_at (contents null v) (v.len - 1),
      )
  unfolding take_out
  take_tail some_left =
      let i = (v.low + v.len - 1) % v.cap in
      let w : Vec A = record v { len = v.len - 1; vec = set v.vec i null } in
      let last : i ≡ (v.low + (v.len - 1)) % v.cap = ap (λ a. a % v.cap) (omega arith) in
      let at = λ (k : ℕ) (h : k < v.cap).
        entry-set_cell null v.vec v.cap v.low (v.len - 1) i null k last valid.cells valid.low_in
          (omega arith) h in
      (
        w,
        rw
            (
              load_lem v.vec i null (omega arith),
              store_lem v.vec i null (omega arith),
              get_contents null valid (v.len - 1) (omega arith),
            )
            (ap (λ y. ok (success, some y, w)) (ap (λ a. get_or v.vec a null) last)),
        ground (arith, length-set v.vec i null),
        refl,
        remove_contents null valid (v.len - 1) w (omega arith) refl
            (λ k h. ground (arith, at k (omega arith))),
      )
