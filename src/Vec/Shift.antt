-- ===== src/Vec/Shift.antt =====
-- The loops of `nftp_vec_insert` and `nftp_vec_delete`.
use nftp_codec.Prelude.{
  up_round, down_round, ℕ, zero, suc, ◌+◌, ◌-◌, ◌%◌, ◌<◌, List, length, get_or, set, ltb, leb,
  if◌then◌else◌, ◌&&◌, ◌≡◌, refl, arith, length-set,
}
use nftp_codec.Prelude.Int.{pos}
use nftp_codec.Errors.{ok}
use nftp_codec.Mem.{load_lem, store_lem}
use nftp_codec.Vec.{slot, shift_up, shift_down}
use nftp_codec.Vec.Index.{entry, entry-set}

module _ {A : Type 0} (d : A) (cap low : ℕ) (low_in : low < cap) where
  -- Positions from `p + 1` to `p + n` take the entry before them.
  abbrev ShiftedUp : ℕ → ℕ → List A → List A → Type 0
  ShiftedUp n p buf buf' =
      (k : ℕ)
      → k < cap
      → entry d buf' cap low k
        ≡ (if ltb p k && leb k (p + n) then entry d buf cap low (k - 1) else entry d buf cap low k)

  pub shift_up_lem :
      (n p i : ℕ) (buf : List A)
      → i ≡ low + (p + n)
      → p + n < cap
      → length buf ≡ cap
      → (buf' : List A) × (shift_up cap n (pos i) buf ≡ ok buf')
        × (length buf' ≡ cap)
        × ShiftedUp n p buf buf'
  unfolding shift_up slot
  shift_up_lem zero p i buf e fits full = (buf, refl, full, λ k h. ground arith)
  shift_up_lem (suc n) p zero buf e fits full = absurd (omega arith)
  shift_up_lem (suc n) p (suc i) buf e fits full =
      let x = get_or buf (i % cap) d in
      let step : (low + (p + n)) ≡ i = omega arith in
      let (buf', run, len, moved) =
        shift_up_lem n p i (set buf (suc i % cap) x) (omega arith) (omega arith)
          (rw length-set full) in
      (
        buf',
        rw (load_lem buf (i % cap) d (omega arith), store_lem buf (suc i % cap) x (omega arith))
            run,
        len,
        λ k h.
            up_round n p k (entry d buf cap low) (entry d (set buf (suc i % cap) x) cap low)
              (entry d buf' cap low)
              (λ j q.
                rw (e, ← step)
                  (entry-set d buf cap low (p + suc n) (entry d buf cap low (p + n)) j full low_in
                    fits (omega arith)))
              (moved k h),
      )

  -- Positions from `p` to `p + n - 1` take the entry after them.
  abbrev ShiftedDown : ℕ → ℕ → List A → List A → Type 0
  ShiftedDown n p buf buf' =
      (k : ℕ)
      → k < cap
      → entry d buf' cap low k
        ≡ (if leb p k && ltb k (p + n) then entry d buf cap low (suc k) else entry d buf cap low k)

  pub shift_down_lem :
      (n p i : ℕ) (buf : List A)
      → i ≡ low + suc p
      → p + n < cap
      → length buf ≡ cap
      → (buf' : List A) × (shift_down cap n i buf ≡ ok buf')
        × (length buf' ≡ cap)
        × ShiftedDown n p buf buf'
  unfolding shift_down
  shift_down_lem zero p i buf e fits full = (buf, refl, full, λ k h. ground arith)
  shift_down_lem (suc n) p i buf e fits full =
      let x = get_or buf (i % cap) d in
      let step : (low + p) ≡ i - 1 = omega arith in
      let (buf', run, len, moved) =
        shift_down_lem n (suc p) (i + 1) (set buf ((i - 1) % cap) x) (omega arith) (omega arith)
          (rw length-set full) in
      (
        buf',
        rw (load_lem buf (i % cap) d (omega arith), store_lem buf ((i - 1) % cap) x (omega arith))
            run,
        len,
        λ k h.
            down_round cap n p k (entry d buf cap low) (entry d (set buf ((i - 1) % cap) x) cap low)
              (entry d buf' cap low) h fits
              (λ j q.
                rw (← step, e)
                  (entry-set d buf cap low p (entry d buf cap low (suc p)) j full low_in
                    (omega arith) q))
              (moved k h),
      )
