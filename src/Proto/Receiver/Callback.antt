-- ===== src/Proto/Receiver/Callback.antt =====
-- What the end of a transfer does to the registry: the entry of the file is taken out, but the first stays.
use nftp_codec.Prelude.{
  ℕ, zero, suc, ◌+◌, ◌<◌, List, [], ◌∷◌, none, some, length, get_elem?, get_elem?-eq-get_or, set,
  remove_at, some-eq, eq→==, ne→==, ◌≡◌, refl, sym, ap, ◌∙◌, arith,
}
use nftp_codec.Prelude.Int.{pos}
use nftp_codec.Errors.{success, Run, ok, ◌>>=◌}
use nftp_codec.Mem.{store_lem}
use nftp_codec.Vec.{Vec, get, delete}
use nftp_codec.Vec.Deque
use nftp_codec.Vec.Valid.{contents, length-contents, Delivers}
use nftp_codec.Vec.Refine.{delete_refines}
use nftp_codec.Proto.{Env, State, FileCb, deref}
use nftp_codec.Proto.Registry.Objects.{
  Distinct, Fresh-at, Objects-at, Objects-entry, remove_at-Objects, remove_at-Distinct,
}
use nftp_codec.Proto.Registry.Names.{Registered, Reads, further, contents-Reads}
use nftp_codec.Proto.Registry.Removal.{within_delete}
use nftp_codec.Proto.Receiver.{call_cb, find_fcb, free_fcb, release_at, run_fcb}
use mathlib.Core.Path.{subst}
use native.Mathlib.Nat.{add-zero}

place_in : (ads : List ℕ) (p a : ℕ) → get_elem? ads p ≡ some a → p < length ads
place_in [] p a there = cc
place_in (b ∷ ads) zero a there = omega arith
place_in (b ∷ ads) (suc p) a there = omega (arith, place_in ads p a there)

module _ {env : Env} where
  find_fcb_lem :
      (st : State env) (a p : ℕ) (ads : List ℕ) (i : ℕ)
      → Reads st i ads
      → Distinct ads
      → get_elem? ads p ≡ some a
      → find_fcb st a (length ads) i ≡ ok (some (i + p))
  unfolding find_fcb
  find_fcb_lem st a p [] i reads distinct there = cc
  find_fcb_lem st a zero (b ∷ ads) i reads distinct there =
      let here : get st.fcb_reg (pos i) ≡ ok (success, some b) =
        ap (λ n. get st.fcb_reg (pos n)) (sym (add-zero i)) ∙ reads 0 (omega arith) in
      rw (here, ◌>>=◌, eq→== a b (sym (some-eq there)), add-zero i) refl
  find_fcb_lem st a (suc p) (b ∷ ads) i reads distinct there =
      let here : get st.fcb_reg (pos i) ≡ ok (success, some b) =
        ap (λ n. get st.fcb_reg (pos n)) (sym (add-zero i)) ∙ reads 0 (omega arith) in
      rw (here, ◌>>=◌, ne→== a b (Fresh-at a b p ads distinct.0 there))
        (find_fcb_lem st a p ads (suc i) (further st i b ads reads) distinct.1 there
          ∙ ap (λ n. ok (some n)) (omega arith))

  -- The registry without the entry at place p, whose object was at a, and the callback run.
  abbrev pub Released : State env → List FileCb → ℕ → ℕ → FileCb → Run (State env) → Type 0
  Released st fs p a f run =
      (reg : Vec ℕ) × (run
        ≡ ok (record st { fcb_reg = reg; fcbs = set st.fcbs a none; ran = call_cb f st.ran }))
      × Registered (record st { fcb_reg = reg; fcbs = set st.fcbs a none; ran = call_cb f st.ran })
          (remove_at fs p)

  module _ (st : State env) (fs : List FileCb) (r : Registered st fs) (p a : ℕ) (f : FileCb)
      (there : get_elem? (contents 0 st.fcb_reg) p ≡ some a) (entry : get_elem? fs p ≡ some f) where
    found : find_fcb st a st.fcb_reg.len 0 ≡ ok (some p)
    found =
        ap (λ n. find_fcb st a n 0) (sym (length-contents 0 st.fcb_reg))
        ∙ find_fcb_lem st a p (contents 0 st.fcb_reg) 0 (contents-Reads st r.valid) r.distinct there
        ∙ ap (λ n. ok (some n)) (omega arith)

    object : deref st.fcbs a ≡ ok f
    object = Objects-entry st.fcbs a p f (contents 0 st.fcb_reg) fs r.objects there entry

    run_fcb-release_at :
        run_fcb st (some a) ≡ release_at (record st { ran = call_cb f st.ran }) a (some p)
    unfolding run_fcb
    run_fcb-release_at = rw (object, ◌>>=◌, found, ◌>>=◌) refl

    deleted :
        Deque.delete (contents 0 st.fcb_reg) (pos p)
        ≡ (success, some a, remove_at (contents 0 st.fcb_reg) p)
    deleted =
        let room = place_in (contents 0 st.fcb_reg) p a there in
        within_delete st p room
        ∙ ap (λ x. (success, x, remove_at (contents 0 st.fcb_reg) p))
            (sym (get_elem?-eq-get_or (contents 0 st.fcb_reg) p 0 room) ∙ there)

    released :
        0 < p → Released st fs p a f (release_at (record st { ran = call_cb f st.ran }) a (some p))
    unfolding release_at free_fcb
    released later = go p refl later
      where
        go :
            (q : ℕ)
            → p ≡ q
            → 0 < q
            → Released st fs p a f (release_at (record st { ran = call_cb f st.ran }) a (some q))
        go zero same h = absurd (omega arith)
        go (suc q) same h =
            let (reg, run, valid, cap, now) =
              subst (Delivers 0 st.fcb_reg.cap (delete st.fcb_reg (pos p))) deleted
                (delete_refines 0 r.valid (pos p)) in
            let (g, _, inside) =
              Objects-at st.fcbs a p (contents 0 st.fcb_reg) fs r.objects there in
            (
              reg,
              rw (← same, run, ◌>>=◌, object, ◌>>=◌, store_lem st.fcbs a none inside, ◌>>=◌) refl,
              record {
                valid = valid;
                objects = rw (now) (
                    remove_at-Objects st.fcbs a p (contents 0 st.fcb_reg) fs r.distinct r.objects
                      there);
                distinct = rw (now) (remove_at-Distinct p (contents 0 st.fcb_reg) r.distinct);
              },
            )

    -- At the end of a transfer whose entry stands at a place of the registry, the callback is run once
    -- with its argument. The first entry stays; any other is taken out of the registry and freed, and
    -- the rest stay, in their order.
    pub run_fcb_lem :
        (p ≡ 0 → run_fcb st (some a) ≡ ok (record st { ran = call_cb f st.ran }))
        × (0 < p → Released st fs p a f (run_fcb st (some a)))
    unfolding release_at
    run_fcb_lem = (
      λ first.
          run_fcb-release_at
          ∙ ap (λ q. release_at (record st { ran = call_cb f st.ran }) a (some q)) first,
      λ later. rw (run_fcb-release_at) (released later),
    )
