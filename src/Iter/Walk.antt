-- ===== src/Iter/Walk.antt =====
-- What an iterator over a vector visits.
use nftp_codec.Prelude.{
  ℕ, zero, suc, ◌+◌, ◌<◌, List, [], ◌∷◌, ◌++◌, map, Option, none, some, tabulate, tabulate_ext, ◌≡◌,
  refl, ap, ◌∙◌, arith, ne→==,
}
use nftp_codec.Prelude.Int.{pos}
use nftp_codec.Errors.{err_overflow, Run, ok, ◌>>=◌}
use nftp_codec.Mem.{nftp_tail}
use nftp_codec.Vec.{Vec, get}
use nftp_codec.Vec.Index.{entry}
use nftp_codec.Vec.Reads.{get_within, get_past}
use nftp_codec.Vec.Valid.{IsValid, contents}
use nftp_codec.Iter.{Iter, vec_iter, vec_iter_next, settle}

module _ {A : Type 0} where
  -- The values after each of n moves, and the iterator behind them.
  unfoldable pub walk : (Iter A → Run (Iter A)) → ℕ → Iter A → Run (List (Option A) × Iter A)
  walk move zero it = ok ([], it)
  walk move (suc n) it = do
    next ← move it
    (vals, last) ← walk move n next
    ok (next.val ∷ vals, last)

module _ {A : Type 0} (null : A) {v : Vec A} (valid : IsValid v) where
  abbrev at : ℕ → A
  at k = entry null v.vec v.cap v.low k

  -- A move that starts before place k.
  abbrev pub Forward : Iter A → ℕ → Type 0
  Forward it k = vec_iter_next v it ≡ (do got ← get v (pos k); ok (settle (pos k) nftp_tail got))

  pub start-Forward : Forward vec_iter 0
  unfolding vec_iter vec_iter_next
  start-Forward = refl

  pub step-Forward :
      (k : ℕ) (x : Option A) → k < v.len → Forward (record { key = pos k; val = x }) (suc k)
  unfolding vec_iter_next
  step-Forward k x h = rw (ne→== k 0x7fffffff (omega arith))

  walk_on :
      (n k : ℕ) (it : Iter A)
      → Forward it k
      → k + n ≡ v.len
      → walk (vec_iter_next v) (suc n) it
        ≡ ok (
          map some (tabulate n (λ j. at (k + j))) ++ none ∷ [],
          record { key = nftp_tail; val = none },
        )
  unfolding walk
  walk_on zero k it from e =
      let here : k ≡ v.len = omega arith in
      let past : get v (pos k) ≡ ok (err_overflow, none) =
        ap (λ i. get v (pos i)) here ∙ get_past null valid in
      rw (from, past)
  walk_on (suc n) k it from e =
      let rest : tabulate n (λ j. at (k + suc j)) ≡ tabulate n (λ j. at (suc k + j)) =
        tabulate_ext n (λ j. at (k + suc j)) (λ j. at (suc k + j)) (λ j q. ap at (omega arith)) in
      let here : at (k + 0) ≡ at k = ap at (omega arith) in
      rw (
        from,
        get_within null valid k (omega arith),
        walk_on n (suc k) (record { key = pos k; val = some (at k) })
            (step-Forward k (some (at k)) (omega arith)) (omega arith),
        rest,
        here,
      )

  -- A fresh iterator over a valid vector visits its entries from the first to the last, one with each
  -- call of next, and then has the key NFTP_TAIL and no value.
  pub vec_iter_next-contents :
      walk (vec_iter_next v) (suc v.len) vec_iter
      ≡ ok (map some (contents null v) ++ none ∷ [], record { key = nftp_tail; val = none })
  vec_iter_next-contents =
      let whole : tabulate v.len (λ j. at (0 + j)) ≡ contents null v =
        tabulate_ext v.len (λ j. at (0 + j)) at (λ j q. ap at (omega arith)) in
      walk_on v.len 0 vec_iter start-Forward (omega arith)
      ∙ ap (λ q. ok (map some q ++ none ∷ [], record { key = nftp_tail; val = none })) whole
