-- ===== src/Proto/Receiver/Stream.antt =====
-- A whole transfer: packets with the blocks of a file, in any order, and what is there at the end.
use nftp_codec.Prelude.{
  ℕ, ◌+◌, ◌<◌, List, [], ◌∷◌, Option, none, some, length, set, length-set, get_or-set_self, Bool,
  ◌≡◌, ◌⊎◌, inl, inr, refl, ap, ◌∙◌, arith,
}
use nftp_codec.Errors.{Status, success, Run, ok, ◌>>=◌}
use nftp_codec.Mem.{load_lem}
use nftp_codec.File.Write.{IsSystem, stored}
use nftp_codec.Codec.{Nftp}
use nftp_codec.Proto.{Env, State, Nctx, Buf, Progress, deref}
use nftp_codec.Proto.Blocks.{block_in}
use nftp_codec.Proto.Blocks.Receiving.{Has, up_to, Receiving, Appends}
use nftp_codec.Proto.Blocks.Reassembly.{block_in_lem}
use nftp_codec.Proto.Receiver.{Reply, refuse, finish, on_file}
use nftp_codec.Proto.Receiver.Steps.{Transfer, Carries, behind, last_block, further_block}
use mathlib.Core.List.{Memᴰ}
use mathlib.Core.List.Memᴰ.{not-nil}
use native.Mathlib.Decide.{ℕ_discrete}

-- The numbers of the blocks.
abbrev pub numbers : List (Bool × Nftp) → List ℕ
numbers [] = []
numbers (p ∷ ps) = p.1.blockseq ∷ numbers ps

-- Every packet carries a block of the file.
abbrev pub AllCarry : (ℕ → List ℕ) → ℕ → List (Bool × Nftp) → Type 0
AllCarry blocks fileid [] = Unit
AllCarry blocks fileid (p ∷ ps) = Carries blocks fileid p.1 × AllCarry blocks fileid ps

module _ {env : Env} where
  -- FILE and END packets are handled until one is answered by a file's name.
  unfoldable pub packets_in : State env → List (Bool × Nftp) → Run (Reply × State env)
  packets_in st [] = ok (refuse success, st)
  packets_in st (p ∷ ps) = do
    (reply, st') ← on_file st p.0 p.1
    elim reply.rmsg [ none ↦ packets_in st' ps | some name ↦ ok (reply, st') ]

  -- The state and the context in which a transfer ends.
  abbrev pub last_of :
      State env
      → Nctx
      → List (Option Nctx)
      → env.sys.State
      → ℕ
      → List Buf
      → Option Progress
      → State env × Nctx
  last_of st ctx cs d l e k = (
    record st { ctxs = cs; disk = d },
    record ctx { len = l; nextid = ctx.cap; entries = e; status = k },
  )

  -- There the file is whole, and the handler goes on by finishing the transfer.
  abbrev pub ComesTo :
      State env → ℕ → Nctx → List ℕ → List ℕ → (ℕ → List ℕ) → Run (Reply × State env) → Type 0
  ComesTo st at ctx wfname part blocks run =
      (cs : List (Option Nctx)) × (d : env.sys.State) × (l : ℕ) × (e : List Buf) × (k : Option
        Progress)
      × (at < length cs)
      × (stored env.sys d part ≡ some (up_to blocks ctx.cap))
      × (run ≡ finish (last_of st ctx cs d l e k).0 at (last_of st ctx cs d l e k).1 wfname part)

  -- Finishing a transfer is answered by the file's name.
  abbrev pub Answers : State env → ℕ → Nctx → List ℕ → List ℕ → (ℕ → List ℕ) → Type 0
  Answers st at ctx wfname part blocks =
      (cs : List (Option Nctx)) (d : env.sys.State) (l : ℕ) (e : List Buf) (k : Option Progress)
      → at < length cs
      → stored env.sys d part ≡ some (up_to blocks ctx.cap)
      → (rv : Status) × (st' : State env) × (finish (last_of st ctx cs d l e k).0 at
            (last_of st ctx cs d l e k).1 wfname part
          ≡ ok (record { status = rv; rmsg = some wfname }, st'))

  behind-Transfer :
      (st : State env) (is_end : Bool) (fileid at : ℕ) (ctx : Nctx) (wfname part : List ℕ) (n : ℕ)
      (e : List Buf) (l : ℕ) (d : env.sys.State)
      → Transfer st fileid at ctx wfname part
      → let (st', ctx') = behind st is_end at ctx n e l d in Transfer st' fileid at ctx' wfname part
  unfolding deref
  behind-Transfer st is_end fileid at ctx wfname part n e l d t =
      let ctx' = (behind st is_end at ctx n e l d).1 in
      let room : at < length (set st.ctxs at (some ctx')) =
        rw (length-set st.ctxs at (some ctx')) t.known in
      record {
        listed = t.listed;
        found = t.found;
        object =
            rw
              (
                load_lem (set st.ctxs at (some ctx')) at none room,
                ◌>>=◌,
                get_or-set_self st.ctxs at (some ctx') none t.known,
              )
              refl;
        known = room;
        saved = t.saved;
        name = t.name;
        short = t.short;
        named = t.named;
      }

  -- One packet of a transfer that goes on.
  packets_in-next :
      (st st' : State env) (p : Bool × Nftp) (ps : List (Bool × Nftp))
      → on_file st p.0 p.1 ≡ ok (refuse success, st')
      → packets_in st (p ∷ ps) ≡ packets_in st' ps
  unfolding packets_in
  packets_in-next st st' p ps run = rw (run, ◌>>=◌) refl

  -- The packet with which a transfer ends.
  packets_in-last :
      (st st' : State env) (p : Bool × Nftp) (ps : List (Bool × Nftp)) (rv : Status)
      (wfname : List ℕ)
      → on_file st p.0 p.1 ≡ ok (record { status = rv; rmsg = some wfname }, st')
      → packets_in st (p ∷ ps) ≡ on_file st p.0 p.1
  unfolding packets_in
  packets_in-last st st' p ps rv wfname run = rw (run, ◌>>=◌) refl

module _ {env : Env} (law : IsSystem env.sys) (part wfname : List ℕ) (blocks : ℕ → List ℕ)
    (appends : Appends env.sys part) (fileid at : ℕ) where
  pub packets_in-ComesTo :
      (ps : List (Bool × Nftp)) (st : State env) (ctx : Nctx)
      → Transfer st fileid at ctx wfname part
      → Receiving env.sys part blocks ctx.cap ctx.nextid ctx.entries st.disk
      → ctx.nextid < ctx.cap
      → Answers st at ctx wfname part blocks
      → AllCarry blocks fileid ps
      → ((j : ℕ) → Memᴰ j (numbers ps) → j < ctx.cap)
      → ((j : ℕ) → j < ctx.cap → Has ctx.nextid ctx.entries j ⊎ Memᴰ j (numbers ps))
      → ComesTo st at ctx wfname part blocks (packets_in st ps)
  packets_in-ComesTo [] st ctx t now more answers carry inside covered =
      elim (covered ctx.nextid more) [
        | inl (inl before) ↦ absurd (omega arith)
        | inl (inr there) ↦ absurd (there (now.waiting more))
        | inr none_left ↦ absurd (not-nil none_left)
      ]
  packets_in-ComesTo (p ∷ ps) st ctx t now more answers carry inside covered =
      let seq = p.1.blockseq in
      let (n, e, l, d, run, receiving, has, mono) =
        block_in_lem env.sys law part blocks appends ctx st.disk now seq more
          (inside seq (Memᴰ.head refl)) in
      let (is_end, q) = p in
      let run' : block_in env.sys part ctx q.blockseq q.content q.ctlen st.disk
          ≡ ok (success, record ctx { len = l; nextid = n; entries = e }, d) =
        rw (carry.0.content, carry.0.size) run in
      let t' = behind-Transfer st is_end fileid at ctx wfname part n e l d t in
      elim (ℕ_discrete n ctx.cap) [
        | yes last ↦
            let r = behind st is_end at ctx ctx.cap e l d in
            let known : at < length r.0.ctxs = rw (length-set st.ctxs at (some r.1)) t.known in
            let ended =
              last_block st is_end q fileid at ctx wfname part n e l d t carry.0.for_file run'
                last in
            let there : stored env.sys d part ≡ some (up_to blocks ctx.cap) =
              receiving.in_file ∙ ap (λ m. some (up_to blocks m)) last in
            let (rv, st'', answer) = answers r.0.ctxs d (l + 1) e r.1.status known there in
            (
              r.0.ctxs,
              d,
              l + 1,
              e,
              r.1.status,
              known,
              there,
              packets_in-last st st'' p ps rv wfname (ended ∙ answer) ∙ ended,
            )
        | no on ↦
            let r = behind st is_end at ctx n e l d in
            let goes =
              further_block st is_end q fileid at ctx wfname part n e l d t carry.0.for_file run'
                on in
            rw (packets_in-next st r.0 p ps goes) (
              packets_in-ComesTo ps r.0 r.1 t' receiving (omega (arith, receiving.below)) answers
                carry.1 (λ j m. inside j (Memᴰ.tail m))
                (λ j room. elim (covered j room) [
                  | inl there ↦ inl (mono j there)
                  | inr (Memᴰ.head here) ↦ inl (rw (here) has)
                  | inr (Memᴰ.tail later) ↦ inr later
                ]))
      ]
