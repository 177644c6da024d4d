-- ===== src/Iter/Row.antt =====
-- What an iterator over a row visits.
use nftp_codec.Prelude.{
  ℕ, zero, suc, ◌+◌, ◌%◌, ◌<◌, ◌^◌, [], ◌∷◌, ◌++◌, map, Option, none, some, tabulate, tabulate_ext,
  ◌≡◌, refl, sym, ap, ◌∙◌, arith, ne→==, eq→==, false, true,
}
use nftp_codec.Prelude.Int.{pos, succ_int, pred_int, eq_int}
use nftp_codec.Errors.{ok, fault}
use nftp_codec.Mem.{nftp_head, nftp_tail}
use nftp_codec.Iovs.{Iovs}
use nftp_codec.Iter.{Iter, vec_iter, iovs_iter_next}
use nftp_codec.Iter.Walk.{walk}

module _ {P : Type 0} (s : Iovs P) (small : s.low + s.len < 2 ^ 31) where
  abbrev at : ℕ → ℕ
  at k = s.low + k

  -- A move that starts before place k.
  record Before (it : Iter ℕ) (k : ℕ) : Type 0 where
    next_is : succ_int it.key ≡ pos k
    not_tail : eq_int it.key nftp_tail ≡ false
    ends : k ≡ s.len → eq_int it.key (pred_int (pos s.len)) ≡ true
    goes_on : k < s.len → eq_int it.key (pred_int (pos s.len)) ≡ false

  at_last : (k n : ℕ) → suc k ≡ n → eq_int (pos k) (pred_int (pos n)) ≡ true
  at_last k zero h = absurd (omega arith)
  at_last k (suc n) h = eq→== k n (omega arith)

  not_last : (k n : ℕ) → suc k < n → eq_int (pos k) (pred_int (pos n)) ≡ false
  not_last k zero h = absurd (omega arith)
  not_last k (suc n) h = ne→== k n (omega arith)

  head-Before : Before (record { key = nftp_head; val = none }) 0
  head-Before = record {
    next_is = refl;
    not_tail = refl;
    ends = λ e. ap (λ n. eq_int nftp_head (pred_int (pos n))) (sym e);
    goes_on = at_start s.len;
  }
    where
      at_start : (n : ℕ) → 0 < n → eq_int nftp_head (pred_int (pos n)) ≡ false
      at_start zero h = absurd (omega arith)
      at_start (suc n) h = refl

  step-Before :
      (k : ℕ) (x : Option ℕ) → k < s.len → Before (record { key = pos k; val = x }) (suc k)
  step-Before k x h = record {
    next_is = refl;
    not_tail = ne→== k 0x7fffffff (omega arith);
    ends = at_last k s.len;
    goes_on = not_last k s.len;
  }

  row_from :
      (n k : ℕ) (it : Iter ℕ)
      → Before it k
      → k + n ≡ s.len
      → walk (iovs_iter_next s) (suc n) it
        ≡ ok (
          map some (tabulate n (λ j. at (k + j))) ++ none ∷ [],
          record { key = nftp_tail; val = none },
        )
  unfolding walk iovs_iter_next
  row_from zero k it from e = rw (from.ends (omega arith))
  row_from (suc n) k it from e =
      let rest : tabulate n (λ j. at (k + suc j)) ≡ tabulate n (λ j. at (suc k + j)) =
        tabulate_ext n (λ j. at (k + suc j)) (λ j. at (suc k + j)) (λ j q. ap at (omega arith)) in
      let here : at (k + 0) ≡ at k = ap at (omega arith) in
      let cell : (s.low + k) % 2 ^ 64 ≡ at k = omega arith in
      rw (
        from.goes_on (omega arith),
        from.not_tail,
        from.next_is,
        cell,
        row_from n (suc k) (record { key = pos k; val = some (at k) })
            (step-Before k (some (at k)) (omega arith)) (omega arith),
        rest,
        here,
      )

  -- On a row whose cells have numbers below 2 ^ 31, a fresh iterator visits the cells of its pieces
  -- from the first to the last, one with each call of next, and then has the key NFTP_TAIL and no
  -- value. One more call of next counts past the largest int, which C leaves undefined.
  pub iovs_iter_next-cells :
      (walk (iovs_iter_next s) (suc s.len) vec_iter
        ≡ ok (
          map some (tabulate s.len (λ k. s.low + k)) ++ none ∷ [],
          record { key = nftp_tail; val = none },
        ))
      × (iovs_iter_next s (record { key = nftp_tail; val = none }) ≡ fault)
  unfolding vec_iter iovs_iter_next
  iovs_iter_next-cells =
      let whole : tabulate s.len (λ j. at (0 + j)) ≡ tabulate s.len at =
        tabulate_ext s.len (λ j. at (0 + j)) at (λ j q. ap at (omega arith)) in
      (
        row_from s.len 0 (record { key = nftp_head; val = none }) head-Before (omega arith)
            ∙ ap (λ q. ok (map some q ++ none ∷ [], record { key = nftp_tail; val = none })) whole,
        rw (past_int s.len (omega arith)),
      )
    where
      past_int : (n : ℕ) → n < 2 ^ 31 → eq_int nftp_tail (pred_int (pos n)) ≡ false
      past_int zero h = refl
      past_int (suc n) h = ne→== 0x7fffffff n (omega arith)
