-- ===== src/Proto/Registry/Removal.antt =====
-- The removal of an entry from the registry by its name.
use nftp_codec.Prelude.{
  ℕ, suc, ◌+◌, ◌-◌, ◌<◌, List, [], ◌∷◌, none, some, length, get_elem?, get_elem?-eq-get_or, get_or,
  set, remove_at, true, false, lt→ltb, if◌then◌else◌, Bool-cases, inl, inr, ◌≡◌, refl, ap, ◌∙◌,
  arith,
}
use nftp_codec.Prelude.Int.{pos}
use nftp_codec.Errors.{Status, success, err_ht, Run, ok, ◌>>=◌}
use nftp_codec.Mem.{store_lem, or_fault}
use nftp_codec.Vec.{Vec, delete}
use nftp_codec.Vec.Deque
use nftp_codec.Vec.Valid.{contents, Delivers}
use nftp_codec.Vec.Refine.{delete_refines}
use nftp_codec.Proto.{Env, State, FileCb, same_name}
use nftp_codec.Proto.Registry.Objects.{
  Objects, remove_at-Objects, remove_at-Distinct, Objects-at, length-Objects,
}
use nftp_codec.Proto.Registry.Names.{
  has_name, Registered, Reads, entry_at_lem, further, tail-Reads, tail_length,
}
use nftp_codec.Proto.Registry.{delete_fcb, unregister_from, proto_unregister, star}
use mathlib.Core.Path.{subst}
use native.Mathlib.Nat.{add-zero, add-suc}

-- The place of the first entry with a name.
abbrev pub place_of : List FileCb → List ℕ → ℕ
place_of [] name = 0
place_of (f ∷ fs) name = if same_name f.fname name then 0 else suc (place_of fs name)

place_of-has_name :
    (fs : List FileCb) (name : List ℕ) → has_name fs name ≡ true → place_of fs name < length fs
place_of-has_name [] name h = cc
place_of-has_name (f ∷ fs) name h = elim (Bool-cases (same_name f.fname name)) [
  | inl same ↦ rw (same) (omega arith)
  | inr other ↦
      let later : has_name fs name ≡ true = rw (other) at h in
      rw (other) (omega (arith, place_of-has_name fs name later))
]

module _ {env : Env} where
  -- What is done when the entry at place i is the one.
  abbrev removal : State env → ℕ → Run (Status × State env)
  removal st i = delete_fcb st i >>= λ st'. ok (success, st')

  unregister_from_lem :
      (st : State env) (name : List ℕ) (ads : List ℕ) (fs : List FileCb) (i : ℕ)
      → Reads st i ads
      → Objects st.fcbs ads fs
      → unregister_from st name (length ads) i
        ≡ (if has_name fs name then removal st (i + place_of fs name) else ok (err_ht, st))
  unfolding unregister_from
  unregister_from_lem st name [] [] i reads objects = refl
  unregister_from_lem st name [] (f ∷ fs) i reads objects = absurd objects
  unregister_from_lem st name (a ∷ ads) [] i reads objects = absurd objects
  unregister_from_lem st name (a ∷ ads) (f ∷ fs) i reads objects =
      elim (Bool-cases (same_name f.fname name)) [
        | inl same ↦ rw (entry_at_lem st i a ads f reads objects.0, ◌>>=◌, same, add-zero i) refl
        | inr other ↦
            rw
              (
                entry_at_lem st i a ads f reads objects.0,
                ◌>>=◌,
                other,
                add-suc i (place_of fs name),
              )
              (unregister_from_lem st name ads fs (suc i) (further st i a ads reads) objects.1
                ∙ ap (λ n. if has_name fs name then removal st n else ok (err_ht, st))
                    (omega arith))
      ]

  pub within_delete :
      (st : State env) (p : ℕ)
      → p < length (contents 0 st.fcb_reg)
      → Deque.delete (contents 0 st.fcb_reg) (pos p)
        ≡ (success, some (get_or (contents 0 st.fcb_reg) p 0), remove_at (contents 0 st.fcb_reg) p)
  unfolding Deque.delete
  within_delete st p h =
      rw
        (
          lt→ltb p (length (contents 0 st.fcb_reg)) h,
          get_elem?-eq-get_or (contents 0 st.fcb_reg) p 0 h,
        )
        refl

  -- The state without the entry at a place.
  abbrev pub Removed : State env → List FileCb → ℕ → Run (State env) → Type 0
  Removed st fs p run =
      (reg : Vec ℕ) × (a : ℕ) × (run ≡ ok (record st { fcb_reg = reg; fcbs = set st.fcbs a none }))
      × Registered (record st { fcb_reg = reg; fcbs = set st.fcbs a none }) (remove_at fs p)

  delete_fcb_lem :
      (st : State env) (fs : List FileCb) (p : ℕ)
      → Registered st fs
      → p < length fs
      → Removed st fs p (delete_fcb st p)
  unfolding delete_fcb
  delete_fcb_lem st fs p r h =
      let ads = contents 0 st.fcb_reg in
      let a = get_or ads p 0 in
      let room : p < length ads = rw (length-Objects st.fcbs ads fs r.objects) h in
      let there : get_elem? ads p ≡ some a = get_elem?-eq-get_or ads p 0 room in
      let (reg, run, valid, cap, now) =
        subst (Delivers 0 st.fcb_reg.cap (delete st.fcb_reg (pos p))) (within_delete st p room)
          (delete_refines 0 r.valid (pos p)) in
      let (f, object, inside) = Objects-at st.fcbs a p ads fs r.objects there in
      (
        reg,
        a,
        rw (run, ◌>>=◌, or_fault, object, ◌>>=◌, store_lem st.fcbs a none inside, ◌>>=◌) refl,
        record {
          valid = valid;
          objects = rw (now) (remove_at-Objects st.fcbs a p ads fs r.distinct r.objects there);
          distinct = rw (now) (remove_at-Distinct p ads r.distinct);
        },
      )

  found_lem :
      (st : State env) (f : FileCb) (fs : List FileCb) (name : List ℕ)
      → Registered st (f ∷ fs)
      → unregister_from st name (st.fcb_reg.len - 1) 1
        ≡ (if has_name fs name then removal st (1 + place_of fs name) else ok (err_ht, st))
  found_lem st f fs name r = go (contents 0 st.fcb_reg) refl r.objects
    where
      go :
          (ads : List ℕ)
          → contents 0 st.fcb_reg ≡ ads
          → Objects st.fcbs ads (f ∷ fs)
          → unregister_from st name (st.fcb_reg.len - 1) 1
            ≡ (if has_name fs name then removal st (1 + place_of fs name) else ok (err_ht, st))
      go [] all objects = absurd objects
      go (a ∷ ads) all objects =
          rw (tail_length st a ads all)
            (unregister_from_lem st name ads fs 1 (tail-Reads st a ads r.valid all) objects.1)

  pub proto_unregister_lem :
      (st : State env) (f : FileCb) (fs : List FileCb) (name : List ℕ)
      → Registered st (f ∷ fs)
      → same_name star name ≡ false
      → let run = proto_unregister st (some name) in
        (has_name fs name ≡ false → run ≡ ok (err_ht, st))
        × (has_name fs name ≡ true
            → (st' : State env) × (run ≡ ok (success, st'))
              × Registered st' (f ∷ remove_at fs (place_of fs name)))
  unfolding proto_unregister
  proto_unregister_lem st f fs name r plain =
      rw (plain, found_lem st f fs name r)
        (
          λ missing. rw (missing) refl,
          λ there.
              let (reg, a, run, now) =
                delete_fcb_lem st (f ∷ fs) (suc (place_of fs name)) r
                  (omega (arith, place_of-has_name fs name there)) in
              let e : 1 + place_of fs name ≡ suc (place_of fs name) = omega arith in
              (
                record st { fcb_reg = reg; fcbs = set st.fcbs a none },
                rw (there) (ap (λ n. removal st n) e ∙ rw (run, ◌>>=◌) refl),
                now,
              ),
        )
