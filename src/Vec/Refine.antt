-- ===== src/Vec/Refine.antt =====
-- Each function of src/vector.c does to the list of a valid vector what the functions of
-- `Vec.Deque` do.
use nftp_codec.Prelude.{
  insert_at_past, ℕ, ◌+◌, ◌%◌, ltb, Bool-cases, ◌≡◌, refl, inl, inr, arith, eq→==, ne→==, ltb→lt,
  ltb→le,
}
use nftp_codec.Prelude.Int.{ℤ, pos, negsuc}
use nftp_codec.Errors.{ok}
use nftp_codec.Mem.{load_lem, end_of, End-cases}
use nftp_codec.Vec.{Vec, push, pop, insert, delete, get}
use nftp_codec.Vec.Deque
use nftp_codec.Vec.Valid.{IsValid, contents, length-contents, Implements, Delivers}
use native.Mathlib.Decide.{ℕ_discrete}
use nftp_codec.Vec.Ends.{put_head, put_tail, take_head, take_tail}
use nftp_codec.Vec.Middle.{insert_inside_lem, delete_inside_lem}
use nftp_codec.Vec.Contents.{get_contents}

module _ {A : Type 0} (null : A) {v : Vec A} (valid : IsValid v) where
  -- On a valid vector `nftp_vec_push` does not fault and keeps the vector valid. It puts the entry
  -- first or last in the list of entries as the flag says, and refuses, with the list as it was, a
  -- full vector by NFTP_ERR_OVERFLOW and any other flag by NFTP_ERR_FLAG.
  pub push_refines :
      (x : A) (flag : ℤ)
      → Implements null v.cap (push v x flag) (Deque.push v.cap (contents null v) x flag)
  unfolding push Deque.push
  push_refines x flag = elim (ℕ_discrete v.len v.cap) [
    | yes full ↦ rw (length-contents null v, eq→== v.len v.cap full) (v, refl, valid, refl, refl)
    | no room ↦
        rw (length-contents null v, ne→== v.len v.cap room)
          (elim (End-cases (end_of flag)) [
            | inl e ↦ rw e (put_head null valid x room)
            | inr (inl e) ↦ rw e (put_tail null valid x room)
            | inr (inr e) ↦ rw e (v, refl, valid, refl, refl)
          ])
  ]

  -- On a valid vector `nftp_vec_pop` does not fault and keeps the vector valid. It takes the first or
  -- the last entry out of the list as the flag says and delivers it, and refuses, with nothing
  -- delivered and the list as it was, an empty vector by NFTP_ERR_EMPTY and any other flag by
  -- NFTP_ERR_FLAG.
  pub pop_refines :
      (flag : ℤ) → Delivers null v.cap (pop null v flag) (Deque.pop (contents null v) flag)
  unfolding pop Deque.pop
  pop_refines flag = elim (ℕ_discrete v.len 0) [
    | yes none_left ↦
        rw (length-contents null v, eq→== v.len 0 none_left) (v, refl, valid, refl, refl)
    | no some_left ↦
        rw (length-contents null v, ne→== v.len 0 some_left)
          (elim (End-cases (end_of flag)) [
            | inl e ↦ rw e (take_head null valid some_left)
            | inr (inl e) ↦ rw (e, length-contents null v) (take_tail null valid some_left)
            | inr (inr e) ↦ rw e (v, refl, valid, refl, refl)
          ])
  ]

  -- On a valid vector, at a position that is not negative, `nftp_vec_insert` does not fault and keeps
  -- the vector valid. It puts the entry before the one at the position, or last if the position is
  -- past the end, and refuses a full vector by NFTP_ERR_OVERFLOW, with the list as it was.
  pub insert_refines :
      (x : A) (p : ℕ)
      → Implements null v.cap (insert v x (pos p)) (Deque.insert v.cap (contents null v) x p)
  unfolding insert Deque.insert push
  insert_refines x p = elim (ℕ_discrete v.len v.cap) [
    | yes full ↦ rw (length-contents null v, eq→== v.len v.cap full) (v, refl, valid, refl, refl)
    | no room ↦
        rw (length-contents null v, ne→== v.len v.cap room)
          (elim (Bool-cases (ltb v.len p)) [
            | inl past ↦
                rw past rw
                  (insert_at_past (contents null v) p x
                    (rw (length-contents null v) (omega (arith, ltb→lt v.len p past))))
                  (put_tail null valid x room)
            | inr within ↦ rw within (insert_inside_lem null valid x p room (ltb→le v.len p within))
          ])
  ]

  -- On a valid vector `nftp_vec_delete` does not fault and keeps the vector valid. It takes the entry
  -- at the position out of the list and delivers it, and refuses a position that is negative or past
  -- the last entry by NFTP_ERR_OVERFLOW, with nothing delivered and the list as it was.
  pub delete_refines : (p : ℤ) → Delivers null v.cap (delete v p) (Deque.delete (contents null v) p)
  unfolding delete Deque.delete
  delete_refines (negsuc p) = (v, refl, valid, refl, refl)
  delete_refines (pos p) = elim (Bool-cases (ltb p v.len)) [
    | inl within ↦
        rw (length-contents null v, within) (delete_inside_lem null valid p (ltb→lt p v.len within))
    | inr past ↦ rw (length-contents null v, past) (v, refl, valid, refl, refl)
  ]

  -- On a valid vector `nftp_vec_get` does not fault. It delivers the entry of the list at the index,
  -- and refuses an index that is negative or past the last entry by NFTP_ERR_OVERFLOW.
  pub get_refines : (i : ℤ) → get v i ≡ ok (Deque.get (contents null v) i)
  unfolding get Deque.get
  get_refines (negsuc i) = refl
  get_refines (pos i) = elim (Bool-cases (ltb i v.len)) [
    | inl within ↦ rw (
      length-contents null v,
      within,
      load_lem v.vec ((v.low + i) % v.cap) null (omega (arith, ltb→lt i v.len within)),
      get_contents null valid i (ltb→lt i v.len within),
    )
    | inr past ↦ rw (length-contents null v, past)
  ]
