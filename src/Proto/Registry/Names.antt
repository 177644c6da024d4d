-- ===== src/Proto/Registry/Names.antt =====
-- The registry of callbacks as a list of entries, of which none but the first has a name twice.
use nftp_codec.Prelude.{
  ℕ, suc, ◌+◌, ◌-◌, ◌<◌, List, [], ◌∷◌, ◌++◌, some, length, get_elem?, Bool, true, false, lt→ltb,
  eq→==, ne→==, ◌||◌, if◌then◌else◌, Bool-cases, inl, inr, ◌≡◌, ◌≢◌, refl, sym, ap, ◌∙◌, arith,
}
use nftp_codec.Prelude.Int.{pos}
use nftp_codec.Errors.{Status, success, err_ht, err_overflow, Run, ok, ◌>>=◌}
use nftp_codec.Mem.{nftp_tail}
use nftp_codec.Vec.{Vec, get, push}
use nftp_codec.Vec.Deque
use nftp_codec.Vec.Valid.{IsValid, contents, length-contents, Implements}
use nftp_codec.Vec.Refine.{get_refines, push_refines}
use nftp_codec.Proto.{Env, State, FileCb, deref, same_name}
use nftp_codec.Proto.Registry.Objects.{
  Objects, append-Objects, Distinct, append-Distinct, Objects-Fresh,
}
use nftp_codec.Proto.Registry.{
  star, entry_at, push_fcb, name_free, register_name, register_fcb, proto_register,
}
use mathlib.Core.Path.{subst}
use native.Mathlib.Nat.{add-zero}

abbrev pub has_name : List FileCb → List ℕ → Bool
has_name [] name = false
has_name (f ∷ fs) name = same_name f.fname name || has_name fs name

module _ {env : Env} where
  -- The registry holds these entries, in order, each in an object of its own.
  pub record Registered (st : State env) (fs : List FileCb) : Type 0 where
    pub valid : IsValid st.fcb_reg
    pub objects : Objects st.fcbs (contents 0 st.fcb_reg) fs
    pub distinct : Distinct (contents 0 st.fcb_reg)

  -- From place i on the registry has these addresses.
  abbrev pub Reads : State env → ℕ → List ℕ → Type 0
  Reads st i ads =
      (k : ℕ) → k < length ads → get st.fcb_reg (pos (i + k)) ≡ ok (success, get_elem? ads k)

  pub entry_at_lem :
      (st : State env) (i a : ℕ) (ads : List ℕ) (f : FileCb)
      → Reads st i (a ∷ ads)
      → deref st.fcbs a ≡ ok f
      → entry_at st i ≡ ok (success, some (a, f))
  unfolding entry_at
  entry_at_lem st i a ads f reads there =
      let here : get st.fcb_reg (pos i) ≡ ok (success, some a) =
        ap (λ n. get st.fcb_reg (pos n)) (sym (add-zero i)) ∙ reads 0 (omega arith) in
      rw (here, ◌>>=◌, there, ◌>>=◌) refl

  pub further :
      (st : State env) (i a : ℕ) (ads : List ℕ) → Reads st i (a ∷ ads) → Reads st (suc i) ads
  further st i a ads reads k h =
      ap (λ n. get st.fcb_reg (pos n)) (omega arith) ∙ reads (suc k) (omega arith)

  name_free_lem :
      (st : State env) (name : List ℕ) (ads : List ℕ) (fs : List FileCb) (i : ℕ)
      → Reads st i ads
      → Objects st.fcbs ads fs
      → name_free st name (length ads) i ≡ ok (if has_name fs name then err_ht else success)
  unfolding name_free
  name_free_lem st name [] [] i reads objects = refl
  name_free_lem st name [] (f ∷ fs) i reads objects = absurd objects
  name_free_lem st name (a ∷ ads) [] i reads objects = absurd objects
  name_free_lem st name (a ∷ ads) (f ∷ fs) i reads objects =
      elim (Bool-cases (same_name f.fname name)) [
        | inl same ↦ rw (entry_at_lem st i a ads f reads objects.0, ◌>>=◌, same) refl
        | inr other ↦
            rw (entry_at_lem st i a ads f reads objects.0, ◌>>=◌, other)
              (name_free_lem st name ads fs (suc i) (further st i a ads reads) objects.1)
      ]

  pub contents-Reads : (st : State env) → IsValid st.fcb_reg → Reads st 0 (contents 0 st.fcb_reg)
  unfolding Deque.get
  contents-Reads st valid k h =
      ap (λ n. get st.fcb_reg (pos n)) (omega arith)
      ∙ get_refines 0 valid (pos k)
      ∙ rw (lt→ltb k (length (contents 0 st.fcb_reg)) h) refl

  full_push :
      (st : State env) (x : ℕ)
      → st.fcb_reg.len ≡ st.fcb_reg.cap
      → Deque.push st.fcb_reg.cap (contents 0 st.fcb_reg) x nftp_tail
        ≡ (err_overflow, contents 0 st.fcb_reg)
  unfolding Deque.push
  full_push st x full =
      rw (length-contents 0 st.fcb_reg, eq→== st.fcb_reg.len st.fcb_reg.cap full) refl

  room_push :
      (st : State env) (x : ℕ)
      → st.fcb_reg.len ≢ st.fcb_reg.cap
      → Deque.push st.fcb_reg.cap (contents 0 st.fcb_reg) x nftp_tail
        ≡ (success, contents 0 st.fcb_reg ++ x ∷ [])
  unfolding Deque.push
  room_push st x room =
      rw (length-contents 0 st.fcb_reg, ne→== st.fcb_reg.len st.fcb_reg.cap room) refl

  push_full :
      (st : State env) (fs : List FileCb) (f : FileCb)
      → Registered st fs
      → st.fcb_reg.len ≡ st.fcb_reg.cap
      → push_fcb st f ≡ ok (err_overflow, st)
  unfolding push_fcb
  push_full st fs f r full =
      let (reg, run, valid, cap, now) =
        subst (Implements 0 st.fcb_reg.cap (push st.fcb_reg (length st.fcbs) nftp_tail))
          (full_push st (length st.fcbs) full)
          (push_refines 0 r.valid (length st.fcbs) nftp_tail) in
      rw (run, ◌>>=◌) refl

  -- The state with one entry more.
  abbrev pub Added : State env → List FileCb → FileCb → Run (Status × State env) → Type 0
  Added st fs f run =
      (reg : Vec ℕ) × (run
        ≡ ok (success, record st { fcb_reg = reg; fcbs = st.fcbs ++ some f ∷ [] }))
      × Registered (record st { fcb_reg = reg; fcbs = st.fcbs ++ some f ∷ [] }) (fs ++ f ∷ [])
      × (contents 0 reg ≡ contents 0 st.fcb_reg ++ length st.fcbs ∷ [])

  pub push_room :
      (st : State env) (fs : List FileCb) (f : FileCb)
      → Registered st fs
      → st.fcb_reg.len ≢ st.fcb_reg.cap
      → Added st fs f (push_fcb st f)
  unfolding push_fcb
  push_room st fs f r room =
      let (reg, run, valid, cap, now) =
        subst (Implements 0 st.fcb_reg.cap (push st.fcb_reg (length st.fcbs) nftp_tail))
          (room_push st (length st.fcbs) room)
          (push_refines 0 r.valid (length st.fcbs) nftp_tail) in
      (
        reg,
        rw (run, ◌>>=◌) refl,
        record {
          valid = valid;
          objects = rw (now) (append-Objects st.fcbs (contents 0 st.fcb_reg) fs f r.objects);
          distinct = rw (now) (
              append-Distinct (length st.fcbs) (contents 0 st.fcb_reg) r.distinct
                (Objects-Fresh st.fcbs (contents 0 st.fcb_reg) fs r.objects));
        },
        now,
      )

  -- The entries behind the first.
  pub tail-Reads :
      (st : State env) (a : ℕ) (ads : List ℕ)
      → IsValid st.fcb_reg
      → contents 0 st.fcb_reg ≡ a ∷ ads
      → Reads st 1 ads
  tail-Reads st a ads valid all =
      further st 0 a ads (subst (Reads st 0) all (contents-Reads st valid))

  pub tail_length :
      (st : State env) (a : ℕ) (ads : List ℕ)
      → contents 0 st.fcb_reg ≡ a ∷ ads
      → st.fcb_reg.len - 1 ≡ length ads
  tail_length st a ads all =
      let n : st.fcb_reg.len ≡ suc (length ads) =
        sym (length-contents 0 st.fcb_reg) ∙ ap (λ q. length q) all in
      omega arith

  names_lem :
      (st : State env) (f : FileCb) (fs : List FileCb) (name : List ℕ)
      → Registered st (f ∷ fs)
      → name_free st name (st.fcb_reg.len - 1) 1 ≡ ok (if has_name fs name then err_ht else success)
  names_lem st f fs name r = go (contents 0 st.fcb_reg) refl r.objects
    where
      go :
          (ads : List ℕ)
          → contents 0 st.fcb_reg ≡ ads
          → Objects st.fcbs ads (f ∷ fs)
          → name_free st name (st.fcb_reg.len - 1) 1
            ≡ ok (if has_name fs name then err_ht else success)
      go [] all objects = absurd objects
      go (a ∷ ads) all objects =
          rw (tail_length st a ads all)
            (name_free_lem st name ads fs 1 (tail-Reads st a ads r.valid all) objects.1)

  -- `nftp_proto_register` of a name that is not '*', when memory is granted: a name that an entry
  -- behind the first has is refused by NFTP_ERR_HT, and else, if the registry is full, by
  -- NFTP_ERR_OVERFLOW, with nothing changed. Otherwise the new entry stands last, behind the others.
  pub proto_register_lem :
      (st : State env) (f : FileCb) (fs : List FileCb) (new : FileCb)
      → Registered st (f ∷ fs)
      → same_name star new.fname ≡ false
      → env.memory.grants 0 24 ≡ true
      → env.memory.grants 1 (length new.fname + 1) ≡ true
      → let run = proto_register st (some new.fname) new.cb new.arg in
        (has_name fs new.fname ≡ true → run ≡ ok (err_ht, st))
        × (has_name fs new.fname ≡ false
            → (st.fcb_reg.len ≡ st.fcb_reg.cap → run ≡ ok (err_overflow, st))
              × (st.fcb_reg.len ≢ st.fcb_reg.cap → Added st (f ∷ fs) new run))
  unfolding proto_register register_fcb register_name
  proto_register_lem st f fs new r plain g₀ g₁ =
      rw (g₀, g₁, plain, names_lem st f fs new.fname r, ◌>>=◌)
        (
          λ taken. rw (taken) refl,
          λ free. rw (free) (push_full st (f ∷ fs) new r, push_room st (f ∷ fs) new r),
        )
