-- ===== src/Iovs/Ends.antt =====
-- Pieces put in and taken out at the two ends of the row.
use nftp_codec.Prelude.{
  ℕ, zero, suc, ◌+◌, ◌-◌, ◌≤◌, ◌<◌, List, [], ◌∷◌, ◌++◌, some, length, set, get_elem?, inl, inr,
  ◌≡◌, ◌≢◌, refl, sym, ap, ap₂, ◌∙◌, arith, length-set, get_or-set_self, get_or-set_ne, tabulate,
  tabulate_ext, tabulate_snoc, remove_at, leave_out, tabulate-remove_at, get_elem?-tabulate, ltb,
  ◌==◌, if◌then◌else◌, le→ltb, eq→==, ne→==,
}
use nftp_codec.Prelude.Int.{ℤ}
use nftp_codec.Errors.{Status, success, err_overflow, ok, fault}
use nftp_codec.Mem.{
  store, load_lem, store_lem, store_outside, end_of, End-cases, nftp_head, nftp_tail,
}
use nftp_codec.Iovs.{Iovs, Iov, push, pop, fill, take_out, add_size, sub_size}
use nftp_codec.Iovs.Valid.{
  total, total-append, cell, contents, length-contents, IsValid, Implements, Delivers,
}
use nftp_codec.Vec.Deque
use native.Mathlib.Nat.{add-zero}
use native.Mathlib.Numerals.{add-one}
use native.Mathlib.Decide.{ℕ_discrete}

-- A write to a cell is read back there, and nowhere else.
pub cell-set :
    {P : Type 0} (null : P) (cells : List (Iov P)) (i j : ℕ) (x : Iov P)
    → i < length cells
    → cell null (set cells i x) j ≡ (if j == i then x else cell null cells j)
cell-set null cells i j x h = elim (ℕ_discrete j i) [
  | yes e ↦ ground (arith, get_or-set_self cells i x (record { base = null; len = 0 }))
  | no ne ↦ ground (arith, get_or-set_ne cells i j x (record { base = null; len = 0 }))
]

total-remove_at :
    {P : Type 0} (q : List (Iov P)) (p : ℕ) {x : Iov P}
    → get_elem? q p ≡ some x
    → total (remove_at q p) + x.len ≡ total q
total-remove_at [] p h = cc
total-remove_at (y ∷ q) zero h = ground arith
total-remove_at (y ∷ q) (suc p) h = omega (arith, total-remove_at q p h)

module _ {P : Type 0} (null : P) {s : Iovs P} (valid : IsValid null s) where
  fill_head :
      (ptr : P) (n : ℕ)
      → s.low ≢ 0
      → Implements null s.cap
          (fill s (s.low - 1) (s.low - 1) ptr n)
          (success, record { base = ptr; len = n } ∷ contents null s)
  unfolding fill
  fill_head ptr n room =
      let x : Iov P = record { base = ptr; len = n } in
      let cells = set s.iovs (s.low - 1) x in
      let at = λ (j : ℕ). cell-set null s.iovs (s.low - 1) j x (omega arith) in
      let view : tabulate (s.len + 1) (λ k. cell null cells (s.low - 1 + k)) ≡ x ∷ contents null s =
        rw (add-one s.len) (
          ap₂ ◌∷◌ (ground (arith, at (s.low - 1 + 0))) (
            tabulate_ext s.len _ _
              λ k h. ground (arith, at (s.low - 1 + suc k), ap (cell null s.iovs) (index k)))) in
      (
        record s { iovs = cells; low = s.low - 1; len = s.len + 1; iolen = add_size s.iolen n },
        rw (store_lem s.iovs (s.low - 1) x (omega arith)),
        record {
          cells = ground (arith, length-set s.iovs (s.low - 1) x);
          inside = omega arith;
          counted = rw view (omega arith);
        },
        refl,
        view,
      )
    where
      index : (k : ℕ) → s.low - 1 + suc k ≡ s.low + k
      index k = omega arith

  fill_tail :
      (ptr : P) (n : ℕ)
      → s.low + s.len < s.cap
      → Implements null s.cap
          (fill s s.low (s.low + s.len) ptr n)
          (success, contents null s ++ record { base = ptr; len = n } ∷ [])
  unfolding fill
  fill_tail ptr n room =
      let x : Iov P = record { base = ptr; len = n } in
      let cells = set s.iovs (s.low + s.len) x in
      let at = λ (j : ℕ). cell-set null s.iovs (s.low + s.len) j x (omega arith) in
      let view : tabulate (s.len + 1) (λ k. cell null cells (s.low + k))
          ≡ contents null s ++ x ∷ [] =
        rw (add-one s.len, tabulate_snoc s.len (λ k. cell null cells (s.low + k)))
          (ap₂ (λ q y. q ++ y ∷ []) (tabulate_ext s.len _ _ (λ k h. ground (arith, at (s.low + k))))
            (ground (arith, at (s.low + s.len)))) in
      (
        record s { iovs = cells; len = s.len + 1; iolen = add_size s.iolen n },
        rw (store_lem s.iovs (s.low + s.len) x (omega arith)),
        record {
          cells = ground (arith, length-set s.iovs (s.low + s.len) x);
          inside = omega arith;
          counted = rw view (omega (arith, total-append (contents null s) (x ∷ [])));
        },
        refl,
        view,
      )

  -- On a valid row `nftp_iovs_push` at the head does not fault. If a cell is free below the first
  -- piece it puts the piece first, adds its length to `iolen` and keeps the row valid; if none is, it
  -- refuses by NFTP_ERR_OVERFLOW and leaves the row as it was.
  pub push_head_refines :
      (ptr : P) (n : ℕ)
      → (s.low ≢ 0
          → Implements null s.cap
              (push s ptr n nftp_head)
              (success, record { base = ptr; len = n } ∷ contents null s))
        × (s.low ≡ 0 → push s ptr n nftp_head ≡ ok (err_overflow, s))
  unfolding push
  push_head_refines ptr n = (
    λ room. rw (ne→== s.low 0 room) (fill_head ptr n room),
    λ none_left. rw (eq→== s.low 0 none_left),
  )

  -- On a valid row `nftp_iovs_push` at the tail puts the piece last, adds its length to `iolen` and
  -- keeps the row valid, if a cell is free behind the last piece. If none is, it does not refuse: it
  -- writes past the end of the array.
  pub push_tail_refines :
      (ptr : P) (n : ℕ)
      → (s.low + s.len < s.cap
          → Implements null s.cap
              (push s ptr n nftp_tail)
              (success, contents null s ++ record { base = ptr; len = n } ∷ []))
        × (s.low + s.len ≡ s.cap → push s ptr n nftp_tail ≡ fault)
  unfolding push fill
  push_tail_refines ptr n = (
    λ room. rw (le→ltb s.cap (s.low + s.len) (omega arith)) (fill_tail ptr n room),
    λ full. rw (
      le→ltb s.cap (s.low + s.len) (omega arith),
      store_outside s.iovs (s.low + s.len) (record { base = ptr; len = n }) (omega arith),
    ),
  )

  -- Emptying the cell at position `p`, where the row starts at `low` from then on.
  take_lem :
      (p low : ℕ)
      → p < s.len
      → low + (s.len - 1) ≤ s.cap
      → ((k : ℕ) → k < s.len - 1 → low + k ≡ s.low + (if ltb k p then k else suc k))
      → Delivers null s.cap
          (take_out null s low (s.low + p))
          (success, get_elem? (contents null s) p, remove_at (contents null s) p)
  unfolding take_out
  take_lem p low h fits index =
      let old = λ (k : ℕ). cell null s.iovs (s.low + k) in
      let e : s.len ≡ suc (s.len - 1) = omega arith in
      let x = cell null s.iovs (s.low + p) in
      let gone : Iov P = record { base = null; len = 0 } in
      let cells = set s.iovs (s.low + p) gone in
      let found = get_elem?-tabulate s.len old p h in
      let at = λ (j : ℕ). cell-set null s.iovs (s.low + p) j gone (omega arith) in
      let view : tabulate (s.len - 1) (λ k. cell null cells (low + k))
          ≡ remove_at (contents null s) p =
        tabulate_ext (s.len - 1) _ (leave_out old p)
          (λ k q. ground (arith, at (low + k), index k q))
        ∙ tabulate-remove_at (s.len - 1) p old (omega arith)
        ∙ ap (λ n. remove_at (tabulate n old) p) (sym e) in
      (
        record s { iovs = cells; low = low; len = s.len - 1; iolen = sub_size s.iolen x.len },
        rw (
          load_lem s.iovs (s.low + p) gone (omega arith),
          store_lem s.iovs (s.low + p) gone (omega arith),
          found,
        ),
        record {
          cells = ground (arith, length-set s.iovs (s.low + p) gone);
          inside = fits;
          counted = rw view (omega (arith, total-remove_at (contents null s) p found));
        },
        refl,
        view,
      )

  -- On a valid row `nftp_iovs_pop` does not fault and keeps the row valid. It takes the first or the
  -- last piece out as the flag says, delivers it and takes its length off `iolen`; it refuses, with
  -- nothing delivered and the pieces as they were, an empty row by NFTP_ERR_EMPTY and any other flag
  -- by NFTP_ERR_FLAG.
  pub iovs_pop_refines :
      (flag : ℤ) → Delivers null s.cap (pop null s flag) (Deque.pop (contents null s) flag)
  unfolding pop Deque.pop
  iovs_pop_refines flag = elim (ℕ_discrete s.len 0) [
    | yes none_left ↦
        rw (length-contents null s, eq→== s.len 0 none_left) (s, refl, valid, refl, refl)
    | no some_left ↦
        rw (length-contents null s, ne→== s.len 0 some_left)
          (elim (End-cases (end_of flag)) [
            | inl e ↦ rw e (
                rw (add-zero s.low) at
                  (take_lem 0 (s.low + 1) (omega arith) (omega arith) (λ k q. ground arith)))
            | inr (inl e) ↦
                let last : s.low + (s.len - 1) ≡ s.low + s.len - 1 = omega arith in
                rw (e, length-contents null s)
                  (rw last at
                    (take_lem (s.len - 1) s.low (omega arith) (omega arith) (λ k q. ground arith)))
            | inr (inr e) ↦ rw e (s, refl, valid, refl, refl)
          ])
  ]

-- Where the row starts after a push.
pub low-push_tail :
    {P : Type 0} (s : Iovs P) (ptr : P) (n : ℕ) {status : Status} {w : Iovs P}
    → push s ptr n nftp_tail ≡ ok (status, w)
    → w.low ≡ s.low
unfolding push fill store
low-push_tail s ptr n e = ground arith

pub low-push_head :
    {P : Type 0} (s : Iovs P) (ptr : P) (n : ℕ) {w : Iovs P}
    → push s ptr n nftp_head ≡ ok (success, w)
    → w.low ≡ s.low - 1
unfolding push fill store
low-push_head s ptr n e = ground arith
