-- ===== src/Iovs/Insert.antt =====
-- `nftp_iovs_insert`.
use nftp_codec.Prelude.{
  ℕ, zero, suc, ◌+◌, ◌-◌, ◌≤◌, ◌<◌, List, [], ◌∷◌, length, set, true, inl, inr, ◌≡◌, ◌≢◌, refl, ap,
  ◌∙◌, arith, length-set, tabulate_ext, insert_at, insert_at_past, put_at, tabulate-insert_at, ltb,
  leb, ◌==◌, ◌&&◌, if◌then◌else◌, le→ltb, ltb→lt, ltb→le, up_round, Bool-cases,
}
use nftp_codec.Errors.{success, ok}
use nftp_codec.Mem.{nftp_tail, load_lem, store_lem}
use nftp_codec.Iovs.{Iovs, Iov, insert, push, shift_up, add_size}
use nftp_codec.Iovs.Valid.{total, cell, contents, length-contents, IsValid, Implements}
use nftp_codec.Iovs.Ends.{cell-set, push_tail_refines}
use native.Mathlib.Numerals.{add-one}

module _ {P : Type 0} (null : P) where
  -- Cells from `p + 1` to `p + n` take the piece before them.
  abbrev ShiftedUp : ℕ → ℕ → List (Iov P) → List (Iov P) → Type 0
  ShiftedUp n p cells cells' =
      (k : ℕ)
      → cell null cells' k
        ≡ (if ltb p k && leb k (p + n) then cell null cells (k - 1) else cell null cells k)

  shift_up_lem :
      (n p i : ℕ) (cells : List (Iov P))
      → i ≡ p + n
      → p + n < length cells
      → (cells' : List (Iov P)) × (shift_up n i cells ≡ ok cells')
        × (length cells' ≡ length cells)
        × ShiftedUp n p cells cells'
  unfolding shift_up
  shift_up_lem zero p i cells e fits = (cells, refl, refl, λ k. ground arith)
  shift_up_lem (suc n) p i cells e fits =
      let x = cell null cells (i - 1) in
      let back : i - 1 ≡ p + n = omega arith in
      let (cells', run, len, moved) =
        shift_up_lem n p (i - 1) (set cells i x) (omega arith) (rw length-set (omega arith)) in
      (
        cells',
        rw
            (
              load_lem cells (i - 1) (record { base = null; len = 0 }) (omega arith),
              store_lem cells i x (omega arith),
            )
            run,
        len ∙ length-set cells i x,
        λ k.
            up_round n p k (cell null cells) (cell null (set cells i x)) (cell null cells')
              (λ j q.
                ground (arith, cell-set null cells i j x (omega arith), ap (cell null cells) back))
              (moved k),
      )

total-insert_at :
    {P : Type 0} (q : List (Iov P)) (p : ℕ) (x : Iov P) → total (insert_at q p x) ≡ total q + x.len
total-insert_at [] p x = omega arith
total-insert_at (y ∷ q) zero x = omega arith
total-insert_at (y ∷ q) (suc p) x = omega (arith, total-insert_at q p x)

module _ {P : Type 0} (null : P) {s : Iovs P} (ptr : P) (n p : ℕ) (valid : IsValid null s) where
  abbrev new : Iov P
  new = record { base = ptr; len = n }

  abbrev after : List (Iov P) → Iovs P
  after cells = record s { iovs = cells; len = s.len + 1; iolen = add_size s.iolen n }

  -- What the cells hold after an insertion at a position that is not past the end.
  insert_cells :
      s.low + s.len < s.cap
      → p ≤ s.len
      → (cells : List (Iov P)) × (insert s ptr n p ≡ ok (success, after cells))
        × (length cells ≡ s.cap)
        × ((j : ℕ)
            → cell null cells j ≡ (
                if j == p
                then new
                else if ltb (s.low + p) j && leb j (s.low + s.len)
                then cell null s.iovs (j - 1)
                else cell null s.iovs j))
  unfolding insert
  insert_cells room h =
      let (cells, run, len, moved) =
        shift_up_lem null (s.len - p) (s.low + p) (s.low + s.len) s.iovs (omega arith)
          (omega arith) in
      (
        set cells p new,
        rw (
          le→ltb s.cap (s.low + s.len + 1) (omega arith),
          le→ltb s.len p h,
          run,
          store_lem cells p new (omega arith),
        ),
        ground (arith, length-set cells p new),
        λ j. ground (arith, cell-set null cells p j new (omega arith), moved j, edge),
      )
    where
      edge : p ≤ s.len → s.low + p + (s.len - p) ≡ s.low + s.len
      edge h = omega arith

  pieces_after :
      (cells : List (Iov P)) (x : Iov P)
      → p ≤ s.len
      → ((k : ℕ)
          → k < suc s.len
          → cell null cells (s.low + k) ≡ put_at (λ j. cell null s.iovs (s.low + j)) p x k)
      → contents null (after cells) ≡ insert_at (contents null s) p x
  pieces_after cells x h same =
      let old = λ (k : ℕ). cell null s.iovs (s.low + k) in
      rw (add-one s.len) (
        tabulate_ext (suc s.len) (λ k. cell null cells (s.low + k)) (put_at old p x) same
        ∙ tabulate-insert_at s.len p old x h)

  insert_past :
      s.low + s.len < s.cap → ltb s.len p ≡ true → insert s ptr n p ≡ push s ptr n nftp_tail
  unfolding insert
  insert_past room past = rw (le→ltb s.cap (s.low + s.len + 1) (omega arith), past)

  -- On a valid row that starts at the first cell of its array, and has a free cell behind, a call of
  -- `nftp_iovs_insert` does not fault and keeps the row valid. It puts the piece before the one at
  -- the position, or last if the position is past the end, and adds its length to `iolen`.
  pub iovs_insert_refines :
      s.low ≡ 0
      → s.len < s.cap
      → Implements null s.cap (insert s ptr n p) (success, insert_at (contents null s) p new)
  iovs_insert_refines first room = elim (Bool-cases (ltb s.len p)) [
    | inl past ↦
        let far = ltb→lt s.len p past in
        rw
          (
            insert_past (omega arith) past,
            insert_at_past (contents null s) p new (rw length-contents (omega arith)),
          )
          ((push_tail_refines null valid ptr n).0 (omega arith))
    | inr within ↦
        let h = ltb→le s.len p within in
        let (cells, run, len, holds) = insert_cells (omega arith) h in
        let view : contents null (after cells) ≡ insert_at (contents null s) p new =
          pieces_after cells new h λ k q.
            let e : s.low + k - 1 ≡ s.low + (k - 1) = omega arith in
            ground (arith, holds (s.low + k), ap (cell null s.iovs) e) in
        (
          after cells,
          run,
          record {
            cells = len;
            inside = omega arith;
            counted = rw view (omega (arith, total-insert_at (contents null s) p new));
          },
          refl,
          view,
        )
  ]

  moved_on :
      {x : Iov P} (k : ℕ)
      → p < s.low
      → x ≡ (
          if s.low + k == p
          then new
          else if ltb (s.low + p) (s.low + k) && leb (s.low + k) (s.low + s.len)
          then cell null s.iovs (s.low + k - 1)
          else cell null s.iovs (s.low + k))
      → k < suc s.len
      → x ≡ put_at (λ j. cell null s.iovs (s.low + j)) p (cell null s.iovs (s.low + p)) k
  moved_on k below e q = ground (arith, e, before k)
    where
      before :
          (k : ℕ) → k ≢ 0 → cell null s.iovs (s.low + k - 1) ≡ cell null s.iovs (s.low + (k - 1))
      before k h = let e : s.low + k - 1 ≡ s.low + (k - 1) = omega arith in ap (cell null s.iovs) e

  -- On a valid row whose first piece does not stand in the first cell of its array, and that has a
  -- free cell behind, `nftp_iovs_insert` at a position below the number of cells before the first
  -- piece returns 0 and loses the piece: the row has one piece more, but it is the one that stood at
  -- the position, twice, and `iolen` grows by the length of the piece that was lost.
  pub insert_loses :
      p < s.low
      → p < s.len
      → s.low + s.len < s.cap
      → (w : Iovs P) × (insert s ptr n p ≡ ok (success, w))
        × (contents null w ≡ insert_at (contents null s) p (cell null s.iovs (s.low + p)))
        × (w.iolen ≡ add_size s.iolen n)
  insert_loses below h room =
      let (cells, run, len, holds) = insert_cells room (omega arith) in
      let old = λ (k : ℕ). cell null s.iovs (s.low + k) in
      (
        after cells,
        run,
        pieces_after cells (cell null s.iovs (s.low + p)) (omega arith)
            λ k q. moved_on k below (holds (s.low + k)) q,
        refl,
      )
