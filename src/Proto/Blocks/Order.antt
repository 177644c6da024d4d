-- ===== src/Proto/Blocks/Order.antt =====
-- A whole file, whose blocks are received in any order.
use nftp_codec.Prelude.{
  ℕ, zero, suc, ◌<◌, List, [], ◌∷◌, some, ap, length, true, false, ◌==◌, eq→==, ne→==, ◌≡◌, ◌≢◌,
  ◌⊎◌, inl, inr, refl, arith,
}
use nftp_codec.Errors.{Status, success, Run, ok, ◌>>=◌}
use nftp_codec.File.Write.{System, IsSystem, stored}
use nftp_codec.Proto.{Nctx, Buf, Memory, nctx_alloc, new_nctx, empty_entries}
use nftp_codec.Proto.Blocks.{block_in, no_buf}
use nftp_codec.Proto.Blocks.Receiving.{at, Has, up_to, Receiving, Appends}
use nftp_codec.Proto.Blocks.Reassembly.{block_in_lem}
use mathlib.Core.List.{Memᴰ}
use mathlib.Core.List.Memᴰ.{not-nil}
use native.Mathlib.Decide.{ℕ_discrete}

module _ (sys : System) (path : List ℕ) (blocks : ℕ → List ℕ) where
  -- The blocks that are received, by their numbers, until the file is whole.
  pub blocks_in : List ℕ → Nctx → sys.State → Run (Status × Nctx × sys.State)
  blocks_in [] ctx d = ok (success, ctx, d)
  blocks_in (seq ∷ seqs) ctx d = elim (ctx.nextid == ctx.cap) [
    | true ↦ ok (success, ctx, d)
    | false ↦ do
      (rv, ctx', d') ← block_in sys path ctx seq (some (blocks seq)) (length (blocks seq)) d
      elim rv [ success ↦ blocks_in seqs ctx' d' | e ↦ ok (e, ctx', d') ]
  ]

  -- The part file is the whole file.
  abbrev pub Whole : ℕ → Run (Status × Nctx × sys.State) → Type 0
  Whole cap run =
      (ctx : Nctx) × (d : sys.State) × (run ≡ ok (success, ctx, d))
      × (ctx.nextid ≡ cap)
      × (stored sys d path ≡ some (up_to blocks cap))

  blocks_in-Whole_now :
      (seqs : List ℕ) (ctx : Nctx) (d : sys.State)
      → Receiving sys path blocks ctx.cap ctx.nextid ctx.entries d
      → ctx.nextid ≡ ctx.cap
      → Whole ctx.cap (blocks_in seqs ctx d)
  unfolding blocks_in
  blocks_in-Whole_now [] ctx d now last = (ctx, d, refl, last, rw (← last) now.in_file)
  blocks_in-Whole_now (seq ∷ seqs) ctx d now last =
      (ctx, d, rw (eq→== ctx.nextid ctx.cap last, blocks_in) refl, last, rw (← last) now.in_file)

module _ (sys : System) (law : IsSystem sys) (path : List ℕ) (blocks : ℕ → List ℕ)
    (appends : Appends sys path) where
  blocks_in-on :
      (seq : ℕ) (seqs : List ℕ) (ctx ctx' : Nctx) (d d' : sys.State)
      → ctx.nextid ≢ ctx.cap
      → block_in sys path ctx seq (some (blocks seq)) (length (blocks seq)) d
        ≡ ok (success, ctx', d')
      → blocks_in sys path blocks (seq ∷ seqs) ctx d ≡ blocks_in sys path blocks seqs ctx' d'
  unfolding blocks_in
  blocks_in-on seq seqs ctx ctx' d d' more run =
      rw (ne→== ctx.nextid ctx.cap more, blocks_in, run, ◌>>=◌) refl

  -- A file is received whole from the state in which its blocks are there or still to come, in
  -- whatever order they come and however often.
  pub blocks_in-Whole :
      (seqs : List ℕ) (ctx : Nctx) (d : sys.State)
      → Receiving sys path blocks ctx.cap ctx.nextid ctx.entries d
      → ((j : ℕ) → Memᴰ j seqs → j < ctx.cap)
      → ((j : ℕ) → j < ctx.cap → Has ctx.nextid ctx.entries j ⊎ Memᴰ j seqs)
      → Whole sys path blocks ctx.cap (blocks_in sys path blocks seqs ctx d)
  blocks_in-Whole [] ctx d now inside covered = elim (ℕ_discrete ctx.nextid ctx.cap) [
    | yes last ↦ blocks_in-Whole_now sys path blocks [] ctx d now last
    | no more ↦
        let room : ctx.nextid < ctx.cap = omega (arith, now.below) in
        elim (covered ctx.nextid room) [
          | inl (inl before) ↦ absurd (omega arith)
          | inl (inr there) ↦ absurd (there (now.waiting room))
          | inr none_left ↦ absurd (not-nil none_left)
        ]
  ]
  blocks_in-Whole (seq ∷ seqs) ctx d now inside covered = elim (ℕ_discrete ctx.nextid ctx.cap) [
    | yes last ↦ blocks_in-Whole_now sys path blocks (seq ∷ seqs) ctx d now last
    | no more ↦
        let (n, e, l, d', run, receiving, has, mono) =
          block_in_lem sys law path blocks appends ctx d now seq (omega (arith, now.below))
            (inside seq (Memᴰ.head refl)) in
        let ctx' : Nctx = record ctx { len = l; nextid = n; entries = e } in
        rw (blocks_in-on seq seqs ctx ctx' d d' more run) (
          blocks_in-Whole seqs ctx' d' receiving (λ j m. inside j (Memᴰ.tail m))
            (λ j room. elim (covered j room) [
              | inl there ↦ inl (mono j there)
              | inr (Memᴰ.head here) ↦ inl (rw (here) has)
              | inr (Memᴰ.tail later) ↦ inr later
            ]))
  ]

length-empty_entries : (n : ℕ) → length (empty_entries n) ≡ n
unfolding empty_entries
length-empty_entries zero = refl
length-empty_entries (suc n) = ap suc (length-empty_entries n)

empty_entries-at : (n j : ℕ) → at (empty_entries n) j ≡ no_buf
unfolding empty_entries
empty_entries-at zero j = refl
empty_entries-at (suc n) zero = refl
empty_entries-at (suc n) (suc j) = empty_entries-at n j

pub new-Receiving :
    (sys : System) (path : List ℕ) (blocks : ℕ → List ℕ) (sz : ℕ) (d : sys.State)
    → stored sys d path ≡ some []
    → Receiving sys path blocks sz 0 (empty_entries sz) d
new-Receiving sys path blocks sz d empty = record {
  cells = length-empty_entries sz;
  in_file = empty;
  below = omega arith;
  kept = λ j. inl (ap (λ (b : Buf). b.body) (empty_entries-at sz j));
  waiting = λ _. ap (λ (b : Buf). b.body) (empty_entries-at sz 0);
}

nctx_alloc-new :
    (memory : Memory) (sz fileid hashcode : ℕ) (ctx : Nctx)
    → nctx_alloc memory sz fileid hashcode ≡ some ctx
    → new_nctx sz fileid hashcode ≡ ctx
unfolding nctx_alloc
nctx_alloc-new memory sz fileid hashcode ctx got = ground arith

-- When `nctx_alloc` made the context and the part file is empty, on a disk that meets what is
-- documented of it and on which appending to the part file does not fail, the blocks of a file, each
-- at least once and none with a number past the last, make the file whole in any order: no call faults,
-- each succeeds, and the part file is the blocks in order.
pub received-Whole :
    (sys : System) (law : IsSystem sys) (path : List ℕ) (blocks : ℕ → List ℕ)
    (appends : Appends sys path) (memory : Memory) (sz fileid hashcode : ℕ) (ctx : Nctx)
    (d : sys.State) (seqs : List ℕ)
    → nctx_alloc memory sz fileid hashcode ≡ some ctx
    → stored sys d path ≡ some []
    → ((j : ℕ) → Memᴰ j seqs → j < sz)
    → ((j : ℕ) → j < sz → Memᴰ j seqs)
    → Whole sys path blocks sz (blocks_in sys path blocks seqs ctx d)
received-Whole sys law path blocks appends memory sz fileid hashcode ctx d seqs got empty inside
      all =
    rw (← nctx_alloc-new memory sz fileid hashcode ctx got) (
      blocks_in-Whole sys law path blocks appends seqs (new_nctx sz fileid hashcode) d
        (new-Receiving sys path blocks sz d empty) inside (λ j room. inr (all j room)))
