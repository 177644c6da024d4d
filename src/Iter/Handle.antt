-- ===== src/Iter/Handle.antt =====
-- src/iter.c: one iterator for both containers, which may be NULL.
use nftp_codec.Prelude.{
  ℕ, zero, suc, List, [], ◌∷◌, ◌++◌, map, Option, none, some, Bool, true, false, ◌≡◌, ◌⊎◌, inl, inr,
  refl, ◌∙◌,
}
use nftp_codec.Prelude.Int.{ℤ}
use nftp_codec.Errors.{Run, ok, fault, ◌>>=◌}
use nftp_codec.Vec.{Vec}
use nftp_codec.Vec.Valid.{IsValid, contents}
use nftp_codec.Iovs.{Iovs}
use nftp_codec.Iter.{Iter, vec_iter, vec_iter_next, vec_iter_prev, iovs_iter_next, iovs_iter_prev}
use nftp_codec.Iter.Walk.{walk, vec_iter_next-contents}

-- What `schema` and `src` say together: NFTP_SCHEMA_VEC, NFTP_SCHEMA_IOVS, or another number.
pub data Source (A P : Type 0) : Type 0 where
  vec_source : Vec A → Source A P
  iovs_source : Iovs P → Source A P
  unsupported : Source A P

-- An iterator with the functions that it holds, given by its container.
pub data Handle (A P : Type 0) : Type 0 where
  over_vec : Vec A → Iter A → Handle A P
  over_iovs : Iovs P → Iter ℕ → Handle A P

module _ {A P : Type 0} where
  -- `malloc` says whether the struct is given.
  pub iter_alloc : Bool → Source A P → Option (Handle A P)
  iter_alloc granted unsupported = none
  iter_alloc false source = none
  iter_alloc true (vec_source v) = some (over_vec v vec_iter)
  iter_alloc true (iovs_source s) = some (over_iovs s vec_iter)

  pub iter_next : Option (Handle A P) → Run (Option (Handle A P))
  iter_next none = ok none
  iter_next (some (over_vec v it)) = do next ← vec_iter_next v it; ok (some (over_vec v next))
  iter_next (some (over_iovs s it)) = do next ← iovs_iter_next s it; ok (some (over_iovs s next))

  pub iter_prev : Option (Handle A P) → Run (Option (Handle A P))
  iter_prev none = ok none
  iter_prev (some (over_vec v it)) = do before ← vec_iter_prev v it; ok (some (over_vec v before))
  iter_prev (some (over_iovs s it)) = do
    before ← iovs_iter_prev s it
    ok (some (over_iovs s before))

  -- `iter->val`: an entry, or the number of a cell.
  pub seen : Option (Handle A P) → Option (A ⊎ ℕ)
  seen none = none
  seen (some (over_vec v it)) = elim it.val [ none ↦ none | some x ↦ some (inl x) ]
  seen (some (over_iovs s it)) = elim it.val [ none ↦ none | some x ↦ some (inr x) ]

  -- The values after each of n calls of next.
  unfoldable pub visits : ℕ → Option (Handle A P) → Run (List (Option (A ⊎ ℕ)))
  visits zero h = ok []
  visits (suc n) h = do next ← iter_next h; rest ← visits n next; ok (seen next ∷ rest)

unfoldable pub as_entry : {A : Type 0} → Option A → Option (A ⊎ ℕ)
as_entry none = none
as_entry (some x) = some (inl x)

-- The values as an iterator over a vector shows them.
unfoldable pub as_entries : {A : Type 0} → List (Option A) → List (Option (A ⊎ ℕ))
as_entries [] = []
as_entries (x ∷ xs) = as_entry x ∷ as_entries xs

module _ {A : Type 0} (P : Type 0) (v : Vec A) where
  abbrev on_vec : Iter A → Option (Handle A P)
  on_vec it = some (over_vec v it)

  seen_vec : (key : ℤ) (x : Option A) → seen (on_vec (record { key = key; val = x })) ≡ as_entry x
  unfolding seen as_entry
  seen_vec key none = refl
  seen_vec key (some x) = refl

  abbrev further : Iter A → List (Option A) × Iter A → Run (List (Option A) × Iter A)
  further next u = ok (next.val ∷ u.0, u.1)

  visits_behind :
      (n : ℕ) (next : Iter A) (w : Run (List (Option A) × Iter A))
      → visits n (on_vec next) ≡ (w >>= λ u. ok (as_entries u.0))
      → (visits n (on_vec next) >>= λ rest. ok (seen (on_vec next) ∷ rest))
        ≡ (w >>= further next >>= λ u. ok (as_entries u.0))
  unfolding as_entries
  visits_behind n next fault same = rw (same, ◌>>=◌) refl
  visits_behind n next (ok w) same = rw (same, ◌>>=◌, seen_vec next.key next.val) refl

  visits-next :
      (n : ℕ) (it : Iter A) (r : Run (Iter A))
      → vec_iter_next v it ≡ r
      → ((next : Iter A)
          → visits n (on_vec next) ≡ (walk (vec_iter_next v) n next >>= λ u. ok (as_entries u.0)))
      → visits (suc n) (on_vec it)
        ≡ (walk (vec_iter_next v) (suc n) it >>= λ u. ok (as_entries u.0))
  unfolding visits walk iter_next
  visits-next n it fault e same = rw (e, ◌>>=◌) refl
  visits-next n it (ok next) e same =
      rw (e, ◌>>=◌) (visits_behind n next (walk (vec_iter_next v) n next) (same next))

  visits-walk :
      (n : ℕ) (it : Iter A)
      → visits n (on_vec it) ≡ (walk (vec_iter_next v) n it >>= λ u. ok (as_entries u.0))
  unfolding visits walk as_entries
  visits-walk zero it = refl
  visits-walk (suc n) it = visits-next n it (vec_iter_next v it) refl (λ next. visits-walk n next)

  -- An iterator from `nftp_iter_alloc` over a valid vector, if memory is granted, visits its entries
  -- from the first to the last, one with each call of `nftp_iter_next`, and then has no value; a call
  -- on NULL does nothing.
  pub visits-contents :
      (null : A)
      → IsValid v
      → (visits (suc v.len) (iter_alloc {P = P} true (vec_source v))
          ≡ ok (as_entries (map some (contents null v) ++ none ∷ [])))
        × (iter_next {A = A} {P = P} none ≡ ok none)
  unfolding iter_alloc iter_next
  visits-contents null valid =
      (visits-walk (suc v.len) vec_iter ∙ rw (vec_iter_next-contents null valid, ◌>>=◌) refl, refl)
