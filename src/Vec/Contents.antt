-- ===== src/Vec/Contents.antt =====
-- How the list of a vector follows from its entries, position by position.
use nftp_codec.Prelude.{
  insert_at, get_elem?-tabulate, tabulate, tabulate_ext, put_at, leave_out, tabulate-insert_at,
  tabulate-remove_at, remove_at, ℕ, suc, ◌+◌, ◌-◌, ◌≤◌, ◌<◌, some, get_elem?, ◌≡◌, sym, ap, ◌∙◌,
  arith,
}
use nftp_codec.Vec.{Vec}
use nftp_codec.Vec.Index.{entry}
use nftp_codec.Vec.Valid.{IsValid, contents}
use native.Mathlib.Numerals.{add-one}

module _ {A : Type 0} (null : A) {v : Vec A} (valid : IsValid v) where
  -- A vector that has lost the entry at `p`, seen position by position.
  pub remove_contents :
      (p : ℕ) (w : Vec A)
      → p < v.len
      → w.len ≡ v.len - 1
      → ((k : ℕ)
          → k < v.len - 1
          → entry null w.vec w.cap w.low k ≡ leave_out (entry null v.vec v.cap v.low) p k)
      → contents null w ≡ remove_at (contents null v) p
  remove_contents p w h len same =
      let old = entry null v.vec v.cap v.low in
      let e : v.len ≡ suc (v.len - 1) = omega arith in
      rw len (
        tabulate_ext (v.len - 1) _ (leave_out old p) same
        ∙ tabulate-remove_at (v.len - 1) p old (omega arith)
        ∙ ap (λ n. remove_at (tabulate n old) p) (sym e))

  -- A vector that has gained `x` at `p`.
  pub insert_contents :
      (p : ℕ) (x : A) (w : Vec A)
      → p ≤ v.len
      → w.len ≡ v.len + 1
      → ((k : ℕ)
          → k < v.len + 1
          → entry null w.vec w.cap w.low k ≡ put_at (entry null v.vec v.cap v.low) p x k)
      → contents null w ≡ insert_at (contents null v) p x
  insert_contents p x w h len same =
      let old = entry null v.vec v.cap v.low in
      rw (len, add-one v.len)
        (tabulate_ext (suc v.len) _ (put_at old p x) (λ k q. same k (omega arith))
          ∙ tabulate-insert_at v.len p old x h)

  pub get_contents :
      (k : ℕ) → k < v.len → get_elem? (contents null v) k ≡ some (entry null v.vec v.cap v.low k)
  get_contents k h = get_elem?-tabulate v.len (entry null v.vec v.cap v.low) k h
