-- ===== src/Vec/Search.antt =====
-- `nftp_vec_getidx` on the list of a vector.
use nftp_codec.Prelude.{
  tabulate, tabulate_ext, ℕ, zero, suc, ◌+◌, ◌-◌, ◌%◌, ◌≤◌, List, [], ◌∷◌, Option, none, some, Bool,
  if◌then◌else◌, ◌≡◌, refl, sym, ap, ◌∙◌, arith, Bool-cases, inl, inr,
}
use nftp_codec.Errors.{Status, success, err_empty, ok}
use nftp_codec.Mem.{load_lem}
use nftp_codec.Vec.{Vec, get_idx, search_from}
use nftp_codec.Vec.Index.{entry}
use nftp_codec.Vec.Valid.{IsValid, contents}
use native.Mathlib.Nat.{mod-eq_of_lt}

module _ {A : Type 0} (same : A → A → Bool) (x : A) where
  -- The place of the first entry that is `x`, where the list starts at place k.
  unfoldable pub first_place : ℕ → List A → Status × Option ℕ
  first_place k [] = (err_empty, none)
  first_place k (y ∷ ys) = if same y x then (success, some k) else first_place (suc k) ys

  module _ (null : A) {v : Vec A} (valid : IsValid v) where
    search_from_lem :
        (n k : ℕ)
        → k + n ≤ v.len
        → search_from same v x n (v.low + k)
          ≡ ok (first_place k (tabulate n (λ j. entry null v.vec v.cap v.low (k + j))))
    unfolding search_from first_place
    search_from_lem zero k h = refl
    search_from_lem (suc n) k h =
        let y = entry null v.vec v.cap v.low k in
        let here : entry null v.vec v.cap v.low (k + 0) ≡ y =
          ap (entry null v.vec v.cap v.low) (omega arith) in
        let next : v.low + k + 1 ≡ v.low + suc k = omega arith in
        let back : v.low + k - v.low ≡ k = omega arith in
        let place : (v.low + k - v.low) % v.cap ≡ k =
          ap (λ i. i % v.cap) back ∙ mod-eq_of_lt {n = k} {m = v.cap} (omega arith) in
        let rest : tabulate n (λ j. entry null v.vec v.cap v.low (k + suc j))
            ≡ tabulate n (λ j. entry null v.vec v.cap v.low (suc k + j)) =
          tabulate_ext n (λ j. entry null v.vec v.cap v.low (k + suc j))
            (λ j. entry null v.vec v.cap v.low (suc k + j))
            (λ j q. ap (entry null v.vec v.cap v.low) (omega arith)) in
        rw
          (
            load_lem v.vec ((v.low + k) % v.cap) null (omega arith),
            here,
            next,
            search_from_lem n (suc k) (omega arith),
            rest,
            place,
          )
          (elim (Bool-cases (same y x)) [ inl e ↦ rw e | inr e ↦ rw e ])

    -- On a valid vector `nftp_vec_getidx` does not fault. It delivers the place in the list of the
    -- first entry that is the given one, and NFTP_ERR_EMPTY if there is none.
    pub get_idx_refines : get_idx same v x ≡ ok (first_place 0 (contents null v))
    unfolding get_idx
    get_idx_refines =
        let start : v.low + 0 ≡ v.low = omega arith in
        let same_entries : tabulate v.len (λ j. entry null v.vec v.cap v.low (0 + j))
            ≡ contents null v =
          tabulate_ext v.len (λ j. entry null v.vec v.cap v.low (0 + j))
            (entry null v.vec v.cap v.low)
            (λ j q. ap (entry null v.vec v.cap v.low) (omega arith)) in
        ap (search_from same v x v.len) (sym start)
        ∙ search_from_lem v.len 0 (omega arith)
        ∙ ap (λ q. ok (first_place 0 q)) same_entries
