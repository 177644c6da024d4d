-- ===== src/Proto/Handler/Callbacks.antt =====
-- Which callback `nftp_proto_handler` gives to a file that comes.
use nftp_codec.Prelude.{
  ℕ, zero, suc, ◌+◌, ◌<◌, List, [], ◌∷◌, ◌++◌, Option, none, some, length, true, false, Bool-cases,
  if◌then◌else◌, inl, inr, ne→==, ◌≡◌, refl, sym, ap, ◌∙◌, arith,
}
use nftp_codec.Prelude.Int.{pos}
use nftp_codec.Errors.{success, Run, ok, ◌>>=◌}
use nftp_codec.Mem.{nftp_tail, or_fault}
use nftp_codec.Vec.{Vec, get}
use nftp_codec.Vec.Reads.{get_past}
use nftp_codec.Vec.Valid.{IsValid, contents, length-contents}
use nftp_codec.Iter.{Iter, vec_iter, vec_iter_next, settle}
use nftp_codec.Iter.Walk.{start-Forward, step-Forward}
use nftp_codec.Proto.{Env, State, FileCb, same_name}
use nftp_codec.Proto.Registry.{star}
use nftp_codec.Proto.Registry.Objects.{Objects}
use nftp_codec.Proto.Registry.Names.{
  has_name, Registered, Reads, contents-Reads, further, proto_register_lem,
}
use nftp_codec.Proto.Receiver.Finish.{IsDefault}
use nftp_codec.Proto.Handler.{callback_for, default_callback}
use native.Mathlib.Nat.{add-zero}
use native.Mathlib.Decide.{ℕ_discrete}
use mathlib.Core.Path.{subst}

-- The address of the last entry with the name.
abbrev pub last_named : List ℕ → List FileCb → List ℕ → Option ℕ → Option ℕ
last_named (a ∷ ads) (f ∷ fs) name found =
    last_named ads fs name (if same_name f.fname name then some a else found)
last_named _ _ name found = found

-- The iterator at place k, from which on it has still to visit these.
abbrev pub standing : ℕ → List ℕ → Iter ℕ
standing k [] = record { key = nftp_tail; val = none }
standing k (a ∷ ads) = record { key = pos k; val = some a }

module _ {env : Env} (st : State env) (valid : IsValid st.fcb_reg) where
  stands :
      (k : ℕ) (ads : List ℕ)
      → Reads st k ads
      → k + length ads ≡ st.fcb_reg.len
      → (get st.fcb_reg (pos k) >>= λ got. ok (settle (pos k) nftp_tail got)) ≡ ok (standing k ads)
  stands k [] reads e =
      let here : k ≡ st.fcb_reg.len = omega arith in
      rw (ap (λ i. get st.fcb_reg (pos i)) here ∙ get_past 0 valid) refl
  stands k (a ∷ ads) reads e =
      let here : get st.fcb_reg (pos k) ≡ ok (success, some a) =
        ap (λ i. get st.fcb_reg (pos i)) (sym (add-zero k)) ∙ reads 0 (omega arith) in
      rw (here) refl

  callback_for_from :
      (name : List ℕ) (ads : List ℕ) (fs : List FileCb) (k rounds : ℕ) (found : Option ℕ)
      → Reads st k ads
      → k + length ads ≡ st.fcb_reg.len
      → Objects st.fcbs ads fs
      → length ads < rounds
      → callback_for st name rounds (standing k ads) found ≡ ok (last_named ads fs name found)
  unfolding callback_for
  callback_for_from name ads fs k zero found reads e objects enough = absurd (omega arith)
  callback_for_from name [] [] k (suc rounds) found reads e objects enough = refl
  callback_for_from name [] (f ∷ fs) k (suc rounds) found reads e objects enough = absurd objects
  callback_for_from name (a ∷ ads) [] k (suc rounds) found reads e objects enough = absurd objects
  callback_for_from name (a ∷ ads) (f ∷ fs) k (suc rounds) found reads e (there, objects) enough =
      let on = further st k a ads reads in
      rw
        (
          ne→== k 0x7fffffff (omega (arith, valid.len_in, valid.small)),
          callback_for,
          or_fault,
          ◌>>=◌,
          there,
          ◌>>=◌,
          step-Forward 0 valid k (some a) (omega arith),
          stands (suc k) ads on (omega arith),
          ◌>>=◌,
        )
        (callback_for_from name ads fs (suc k) rounds
          (if same_name f.fname name then some a else found) on (omega arith) objects (omega arith))

  -- The loop finds the last entry with the name.
  pub callback_for_lem :
      (name : List ℕ) (fs : List FileCb)
      → Objects st.fcbs (contents 0 st.fcb_reg) fs
      → (first : Iter ℕ) × (vec_iter_next st.fcb_reg vec_iter ≡ ok first)
        × (callback_for st name (suc st.fcb_reg.len) first none
            ≡ ok (last_named (contents 0 st.fcb_reg) fs name none))
  callback_for_lem name fs objects =
      let ads = contents 0 st.fcb_reg in
      let size = length-contents 0 st.fcb_reg in
      let reads = contents-Reads st valid in
      (
        standing 0 ads,
        rw (start-Forward 0 valid) (stands 0 ads reads (omega (arith, size))),
        callback_for_from name ads fs 0 (suc st.fcb_reg.len) none reads (omega (arith, size))
            objects (omega (arith, size)),
      )

last_named-none :
    (ads : List ℕ) (fs : List FileCb) (name : List ℕ) (found : Option ℕ)
    → has_name fs name ≡ false
    → last_named ads fs name found ≡ found
last_named-none [] fs name found h = refl
last_named-none (a ∷ ads) [] name found h = refl
last_named-none (a ∷ ads) (f ∷ fs) name found h = elim (Bool-cases (same_name f.fname name)) [
  | inl same ↦ absurd (cc (rw same at h))
  | inr other ↦ rw (other) (last_named-none ads fs name found (rw other at h))
]

behind_free :
    (first : FileCb) (fs : List FileCb) (name : List ℕ)
    → has_name (first ∷ fs) name ≡ false
    → has_name fs name ≡ false
behind_free first fs name free = elim (Bool-cases (same_name first.fname name)) [
  | inl same ↦ absurd (cc (rw same at free))
  | inr other ↦ rw other at free
]

module _ {env : Env} where
  -- The registry's first entry is taken, and perhaps also registered under the name.
  abbrev pub Taken : State env → FileCb → Run (ℕ × State env) → Type 0
  Taken st first run =
      (address : ℕ) × (reg : Vec ℕ) × (fcbs : List (Option FileCb)) × (fs : List FileCb) × (run
        ≡ ok (address, record st { fcb_reg = reg; fcbs = fcbs }))
      × Registered (record st { fcb_reg = reg; fcbs = fcbs }) (first ∷ fs)
      × IsDefault (record st { fcb_reg = reg; fcbs = fcbs }) address first

  first-IsDefault :
      (st : State env) (first : FileCb) (fs : List FileCb) (a : ℕ) (ads : List ℕ)
      → Registered st (first ∷ fs)
      → contents 0 st.fcb_reg ≡ a ∷ ads
      → IsDefault st a first
  first-IsDefault st first fs a ads r all =
      let size : st.fcb_reg.len ≡ suc (length ads) =
        sym (length-contents 0 st.fcb_reg) ∙ ap (λ q. length q) all in
      record {
        object = (subst (λ q. Objects st.fcbs q (first ∷ fs)) all r.objects).0;
        first = subst (Reads st 0) all (contents-Reads st r.valid) 0 (omega arith);
        some_entry = omega (arith, size);
      }

  default_from :
      (st : State env) (first : FileCb) (fs : List FileCb) (name : List ℕ) (ads : List ℕ)
      → Registered st (first ∷ fs)
      → contents 0 st.fcb_reg ≡ ads
      → same_name star name ≡ false
      → has_name fs name ≡ false
      → env.memory.grants 0 24 ≡ true
      → env.memory.grants 1 (length name + 1) ≡ true
      → Taken st first (default_callback st name none)
  unfolding default_callback
  default_from st first fs name [] r all plain free g₀ g₁ =
      absurd (subst (λ q. Objects st.fcbs q (first ∷ fs)) all r.objects)
  default_from st first fs name (a ∷ ads) r all plain free g₀ g₁ =
      let d = first-IsDefault st first fs a ads r all in
      let new : FileCb = record { fname = name; cb = first.cb; arg = first.arg } in
      let outcomes = (proto_register_lem st first fs new r plain g₀ g₁).1 free in
      elim (ℕ_discrete st.fcb_reg.len st.fcb_reg.cap) [
        | yes full ↦ (
          a,
          st.fcb_reg,
          st.fcbs,
          fs,
          rw (d.first, ◌>>=◌, or_fault, ◌>>=◌, d.object, ◌>>=◌, outcomes.0 full, ◌>>=◌) refl,
          r,
          d,
        )
        | no room ↦
            let (reg, run, r', now) = outcomes.1 room in
            (
              a,
              reg,
              st.fcbs ++ some new ∷ [],
              fs ++ new ∷ [],
              rw (d.first, ◌>>=◌, or_fault, ◌>>=◌, d.object, ◌>>=◌, run, ◌>>=◌) refl,
              r',
              first-IsDefault (record st { fcb_reg = reg; fcbs = st.fcbs ++ some new ∷ [] }) first
                  (fs ++ new ∷ []) a (ads ++ length st.fcbs ∷ []) r'
                  (now ∙ ap (λ q. q ++ length st.fcbs ∷ []) all),
            )
      ]

  -- A file whose name no entry has gets the first entry as its callback.
  pub default_callback_lem :
      (st : State env) (first : FileCb) (fs : List FileCb) (name : List ℕ)
      → Registered st (first ∷ fs)
      → same_name star name ≡ false
      → has_name (first ∷ fs) name ≡ false
      → env.memory.grants 0 24 ≡ true
      → env.memory.grants 1 (length name + 1) ≡ true
      → (it : Iter ℕ) × (vec_iter_next st.fcb_reg vec_iter ≡ ok it)
        × (callback_for st name (suc st.fcb_reg.len) it none ≡ ok none)
        × Taken st first (default_callback st name none)
  default_callback_lem st first fs name r plain free g₀ g₁ =
      let (it, starts, found) = callback_for_lem st r.valid name (first ∷ fs) r.objects in
      (
        it,
        starts,
        found ∙ ap ok (last_named-none (contents 0 st.fcb_reg) (first ∷ fs) name none free),
        default_from st first fs name (contents 0 st.fcb_reg) r refl plain
            (behind_free first fs name free) g₀ g₁,
      )
