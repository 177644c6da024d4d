-- ===== src/Proto/Receiver/Delivery.antt =====
-- What a transfer leaves when all its blocks have come: the file, and the callback that was run.
use nftp_codec.Prelude.{ℕ, ◌<◌, List, Option, some, length, Bool, true, ◌≡◌, ◌≢◌, ◌⊎◌, refl, ◌∙◌}
use nftp_codec.Errors.{Status, success, err_proto, Run, ok}
use nftp_codec.File.Name.{full_path}
use nftp_codec.File.Write.{IsSystem, stored}
use nftp_codec.Hash.Remainder.{AreBytes}
use nftp_codec.Codec.{Nftp}
use nftp_codec.Proto.{Env, State, FileCb, Nctx, Buf, Progress}
use nftp_codec.Proto.Blocks.Receiving.{Has, up_to, Receiving, Appends}
use nftp_codec.Proto.Receiver.{Reply, call_cb, finish}
use nftp_codec.Proto.Receiver.Finish.{sum_of, Ends, IsDefault, finish_lem}
use nftp_codec.Proto.Receiver.Steps.{Transfer}
use mathlib.Core.List.{Memᴰ}
use native.Mathlib.Decide.{ℕ_discrete}
use nftp_codec.Proto.Receiver.Stream.{packets_in, numbers, AllCarry, last_of, packets_in-ComesTo}

module _ {env : Env} where
  -- The part file of this transfer can be given its name, read and hashed, once it is whole.
  pub record Finishable (st : State env) (wfname part path file : List ℕ) : Type 0 where
    pub named : full_path st.recvdir wfname ≡ ok path
    pub moves :
        (d : env.sys.State)
        → stored env.sys d part ≡ some file
        → (env.sys.move d part path).0 ≡ true
    pub opens :
        (d : env.sys.State) → stored env.sys d path ≡ some file → (env.sys.disk d).opens path ≡ true
    pub granted : env.memory.grants 2 (length file) ≡ true
    pub bytes : AreBytes file

  -- The file stands under its name. If the checksum is right, the callback was run and the transfer is
  -- forgotten; if it is not, nothing was run.
  abbrev pub Delivered :
      State env → Nctx → List ℕ → List ℕ → List ℕ → FileCb → Run (Reply × State env) → Type 0
  Delivered st ctx wfname path file fcb run =
      (rv : Status) × (st' : State env) × (run
        ≡ ok (record { status = rv; rmsg = some wfname }, st'))
      × (stored env.sys st'.disk path ≡ some file)
      × (ctx.hashcode ≡ sum_of file
          → (rv ≡ success)
            × (st'.ran ≡ call_cb fcb st.ran)
            × (st'.files ≡ (env.files.erase st.files ctx.fileid).1))
      × (ctx.hashcode ≢ sum_of file
          → (rv ≡ err_proto) × (st'.ran ≡ st.ran) × (st'.files ≡ st.files))

module _ {env : Env} (law : IsSystem env.sys) (st : State env) (at : ℕ) (ctx : Nctx)
    (wfname part path file : List ℕ) (able : Finishable st wfname part path file) (address : ℕ)
    (fcb : FileCb) (own : ctx.fcb ≡ some address) (default : IsDefault st address fcb)
    (erased : (env.files.erase st.files ctx.fileid).0 ≡ true) where
  finish-Delivered :
      (cs : List (Option Nctx)) (d : env.sys.State) (l : ℕ) (e : List Buf) (k : Option Progress)
      → at < length cs
      → stored env.sys d part ≡ some file
      → let (st', ctx') = last_of st ctx cs d l e k in
        Delivered st ctx wfname path file fcb (finish st' at ctx' wfname part)
  finish-Delivered cs d l e k known there =
      let (st', ctx') = last_of st ctx cs d l e k in
      let ends : Ends st' at wfname part path file = record {
        known = known;
        named = able.named;
        there = there;
        moves = able.moves d there;
        opens =
            able.opens (env.sys.move d part path).1
              (law.moves d part path (able.moves d there) ∙ there);
        granted = able.granted;
        bytes = able.bytes;
      } in
      let first : IsDefault st' address fcb = record {
        object = default.object;
        first = default.first;
        some_entry = default.some_entry;
      } in
      let (stands, bad, good) =
        finish_lem law st' at ctx' wfname part path file ends address fcb own first erased in
      elim (ℕ_discrete ctx.hashcode (sum_of file)) [
        | yes same ↦
            (success, _, good same, stands, λ _. (refl, refl, refl), λ other. absurd (other same))
        | no other ↦
            (err_proto, _, bad other, stands, λ same. absurd (other same), λ _. (refl, refl, refl))
      ]

-- A transfer that is under way, whose blocks are in the part file, kept or among the packets to come,
-- each of which carries a block of the file, ends with one of them, in whatever order they come, if
-- appending to the part file does not fail and the file can then be renamed, read and hashed. The
-- answer to that packet is the file's name; the file stands under it, its blocks in order; and if its
-- checksum is that of the HELLO packet, the handler returns 0, has run the callback, which is the first
-- entry of the registry, once, and no other, and has taken the transfer out of the table, while it
-- returns NFTP_ERR_PROTO and has run nothing if it is not.
pub packets_in-Delivered :
    {env : Env} (law : IsSystem env.sys) (part wfname path : List ℕ) (blocks : ℕ → List ℕ)
    (appends : Appends env.sys part) (fileid at : ℕ) (ps : List (Bool × Nftp)) (st : State env)
    (ctx : Nctx) (address : ℕ) (fcb : FileCb)
    → Transfer st fileid at ctx wfname part
    → Receiving env.sys part blocks ctx.cap ctx.nextid ctx.entries st.disk
    → ctx.nextid < ctx.cap
    → Finishable st wfname part path (up_to blocks ctx.cap)
    → ctx.fcb ≡ some address
    → IsDefault st address fcb
    → (env.files.erase st.files ctx.fileid).0 ≡ true
    → AllCarry blocks fileid ps
    → ((j : ℕ) → Memᴰ j (numbers ps) → j < ctx.cap)
    → ((j : ℕ) → j < ctx.cap → Has ctx.nextid ctx.entries j ⊎ Memᴰ j (numbers ps))
    → Delivered st ctx wfname path (up_to blocks ctx.cap) fcb (packets_in st ps)
packets_in-Delivered law part wfname path blocks appends fileid at ps st ctx address fcb t now more
      able own default erased carry inside covered =
    let file = up_to blocks ctx.cap in
    let ends =
      finish-Delivered law st at ctx wfname part path file able address fcb own default erased in
    let (cs, d, l, e, k, known, there, run) =
      packets_in-ComesTo law part wfname blocks appends fileid at ps st ctx t now more
        (λ cs d l e k known there. let r = ends cs d l e k known there in (r.0, r.1, r.2)) carry
        inside covered in
    rw (run) (ends cs d l e k known there)
