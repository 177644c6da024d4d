-- ===== src/Proto/Shutdown/Freed.antt =====
-- After `nftp_proto_fini` nothing is left.
use nftp_codec.Prelude.{
  ℕ, zero, suc, ◌<◌, List, [], ◌∷◌, Option, none, some, length, set, eq→==, ne→==, ◌≡◌, refl, sym,
  ap, ◌∙◌, arith,
}
use nftp_codec.Errors.{success, Run, ok, ◌>>=◌}
use nftp_codec.Mem.{or_fault, nftp_head}
use nftp_codec.Vec.{Vec, pop}
use nftp_codec.Vec.Deque
use nftp_codec.Vec.Valid.{IsValid, contents, length-contents, Delivers}
use nftp_codec.Vec.Refine.{pop_refines}
use nftp_codec.Proto.{Env, State, FileCb, Nctx}
use nftp_codec.Proto.Registry.Objects.{Objects, Distinct}
use nftp_codec.Proto.Registry.Names.{Registered}
use nftp_codec.Proto.Shutdown.Live.{without, Live, AllFree, free_at_lem, set-Live, without-AllFree}
use nftp_codec.Proto.Shutdown.{free_ctxs, pop_fcbs, proto_fini}
use mathlib.Core.Path.{subst}

free_ctxs_lem :
    (ctxs : List (Option Nctx)) (ats : List ℕ)
    → Live ctxs ats
    → free_ctxs ctxs ats ≡ ok (without ctxs ats)
unfolding free_ctxs
free_ctxs_lem ctxs [] live = refl
free_ctxs_lem ctxs (at ∷ ats) ((x, there), apart, live) =
    rw (free_at_lem ctxs at x there, ◌>>=◌)
      (free_ctxs_lem (set ctxs at none) ats (set-Live ctxs at ats apart live))

Objects-Live :
    (heap : List (Option FileCb)) (ads : List ℕ) (fs : List FileCb)
    → Objects heap ads fs
    → Distinct ads
    → Live heap ads
Objects-Live heap [] fs objects distinct = tt
Objects-Live heap (a ∷ ads) [] objects distinct = absurd objects
Objects-Live heap (a ∷ ads) (f ∷ fs) objects distinct =
    ((f, objects.0), distinct.0, Objects-Live heap ads fs objects.1 distinct.1)

deque_first : (a : ℕ) (ads : List ℕ) → Deque.pop (a ∷ ads) nftp_head ≡ (success, some a, ads)
unfolding Deque.pop
deque_first a ads = rw (ne→== (suc (length ads)) 0 (omega arith)) refl

-- The first entry is popped, and the others are as before.
pop_first :
    (v : Vec ℕ) (a : ℕ) (ads : List ℕ)
    → IsValid v
    → contents 0 v ≡ a ∷ ads
    → Delivers 0 v.cap (pop 0 v nftp_head) (success, some a, ads)
pop_first v a ads valid all =
    subst (Delivers 0 v.cap (pop 0 v nftp_head))
      (ap (λ q. Deque.pop q nftp_head) all ∙ deque_first a ads) (pop_refines 0 valid nftp_head)

module _ {env : Env} where
  -- What the loop leaves: an empty registry, and the entries' objects freed.
  abbrev pub Emptied : State env → List ℕ → Run (State env) → Type 0
  Emptied st ads run =
      (reg : Vec ℕ) × (run ≡ ok (record st { fcb_reg = reg; fcbs = without st.fcbs ads }))
      × (reg.len ≡ 0)

  pop_fcbs_lem :
      (ads : List ℕ) (rounds : ℕ) (st : State env)
      → IsValid st.fcb_reg
      → contents 0 st.fcb_reg ≡ ads
      → Live st.fcbs ads
      → length ads < rounds
      → Emptied st ads (pop_fcbs rounds st)
  unfolding pop_fcbs
  pop_fcbs_lem ads zero st valid all live enough = absurd (omega arith)
  pop_fcbs_lem [] (suc rounds) st valid all live enough =
      let none_left : st.fcb_reg.len ≡ 0 =
        sym (length-contents 0 st.fcb_reg) ∙ ap (λ q. length q) all in
      (st.fcb_reg, rw (pop_fcbs, eq→== st.fcb_reg.len 0 none_left) refl, none_left)
  pop_fcbs_lem (a ∷ ads) (suc rounds) st valid all ((f, there), apart, live) enough =
      let some_left : st.fcb_reg.len ≡ suc (length ads) =
        sym (length-contents 0 st.fcb_reg) ∙ ap (λ q. length q) all in
      let (reg, run, valid', cap, now) = pop_first st.fcb_reg a ads valid all in
      let (reg', run', empty) =
        pop_fcbs_lem ads rounds (record st { fcb_reg = reg; fcbs = set st.fcbs a none }) valid' now
          (set-Live st.fcbs a ads apart live) (omega arith) in
      (
        reg',
        rw
            (
              pop_fcbs,
              ne→== st.fcb_reg.len 0 (omega (arith, some_left)),
              pop_fcbs,
              run,
              ◌>>=◌,
              or_fault,
              free_at_lem st.fcbs a f there,
              ◌>>=◌,
            )
            run',
        empty,
      )

  -- If the registry holds entries, each in an object of its own, and the table of transfers has live
  -- contexts, each once, then `nftp_proto_fini` ends and returns 0. No entry and no transfer is left,
  -- each of their objects was freed once, and all others are as they were.
  pub proto_fini_lem :
      (st : State env) (fs : List FileCb)
      → Registered st fs
      → Live st.ctxs (env.files.visits st.files)
      → (st' : State env) × (proto_fini st ≡ ok (success, st'))
        × (st'.fcb_reg.len ≡ 0)
        × (st'.fcbs ≡ without st.fcbs (contents 0 st.fcb_reg))
        × AllFree st'.fcbs (contents 0 st.fcb_reg)
        × (st'.ctxs ≡ without st.ctxs (env.files.visits st.files))
        × AllFree st'.ctxs (env.files.visits st.files)
        × (st'.recvdir ≡ none)
  unfolding proto_fini
  proto_fini_lem st fs r transfers =
      let ads = contents 0 st.fcb_reg in
      let live = Objects-Live st.fcbs ads fs r.objects r.distinct in
      let (reg, run, empty) =
        pop_fcbs_lem ads (suc st.fcb_reg.len) st r.valid refl live
          (rw (length-contents 0 st.fcb_reg) (omega arith)) in
      (
        record st {
          fcb_reg = reg;
          fcbs = without st.fcbs ads;
          ctxs = without st.ctxs (env.files.visits st.files);
          files = env.files.clear st.files;
          senderfiles = env.senders.clear st.senderfiles;
          recvdir = none;
        },
        rw (run, ◌>>=◌, free_ctxs_lem st.ctxs (env.files.visits st.files) transfers, ◌>>=◌) refl,
        empty,
        refl,
        without-AllFree ads st.fcbs live,
        refl,
        without-AllFree (env.files.visits st.files) st.ctxs transfers,
        refl,
      )
