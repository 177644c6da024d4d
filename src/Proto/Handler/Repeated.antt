-- ===== src/Proto/Handler/Repeated.antt =====
-- A HELLO of a file that is being received.
use nftp_codec.Prelude.{ℕ, ◌++◌, List, [], ◌∷◌, none, some, length, false, ◌≡◌, ◌≢◌, refl, ap, ◌∙◌}
use nftp_codec.Errors.{err_ht, ok}
use nftp_codec.File.Write.{IsSystem, stored}
use nftp_codec.File.Write.Changes.{file_write_lem}
use nftp_codec.Hash.Remainder.{AreBytes}
use nftp_codec.Codec.{Nftp}
use nftp_codec.Vec.Valid.{contents}
use nftp_codec.Proto.{Env, State, FileCb, Nctx, IsHashtable, Insertion, inserted, updated, failed}
use nftp_codec.Proto.Registry.Names.{Registered}
use nftp_codec.Proto.Receiver.{refuse}
use nftp_codec.Proto.Receiver.Finish.{sum_of}
use nftp_codec.Proto.Receiver.Steps.{Transfer}
use nftp_codec.Proto.Sender.Made.{Plenty}
use nftp_codec.Proto.Handler.{enter_ctx, default_callback, on_hello}
use nftp_codec.Proto.Handler.Begun.{IsName, Vacant, part_path}
use nftp_codec.Proto.Handler.Callbacks.{last_named, callback_for_lem}
use nftp_codec.Proto.Handler.Opening.{hello_ctx, opened, on_hello-enter_ctx}

module _ {env : Env} where
  -- The context is put into the table all the same, in place of what was there.
  abbrev replaced : State env → Nctx → State env
  replaced st ctx = record st {
    files = (env.files.insert st.files ctx.fileid (length st.ctxs)).1;
    ctxs = st.ctxs ++ some ctx ∷ [];
  }

  -- The table does not take the context as a new one.
  enter_ctx-known :
      (st : State env) (n : Nftp) (fname : List ℕ) (ctx : Nctx)
      → (env.files.insert st.files ctx.fileid (length st.ctxs)).0 ≢ inserted
      → enter_ctx st n fname ctx ≡ ok (refuse err_ht, replaced st ctx)
  unfolding enter_ctx
  enter_ctx-known st n fname ctx other =
      go (env.files.insert st.files ctx.fileid (length st.ctxs)).0 refl
    where
      go :
          (how : Insertion)
          → (env.files.insert st.files ctx.fileid (length st.ctxs)).0 ≡ how
          → enter_ctx st n fname ctx ≡ ok (refuse err_ht, replaced st ctx)
      go inserted e = absurd (other e)
      go updated e = rw (e, enter_ctx) refl
      go failed e = rw (e, enter_ctx) refl

  default_callback-some :
      (st : State env) (fname : List ℕ) (address : ℕ)
      → default_callback st fname (some address)
        ≡ ok (address, record st { fcb_reg = st.fcb_reg; fcbs = st.fcbs })
  unfolding default_callback
  default_callback-some st fname address = refl

  -- A HELLO for a file whose transfer is in the table, under a name for which there is a callback and
  -- under which no file stands yet, is refused by NFTP_ERR_HT, but only after its part file was made
  -- anew: what was received of the file is gone. The id that `nftp_decode` leaves in the packet is not
  -- in the table, memory is granted, and the part file can be written.
  pub on_hello-again :
      (law : IsSystem env.sys) (table : IsHashtable env.files) (plenty : Plenty env)
      (st : State env) (n : Nftp) (fname : List ℕ) (fs : List FileCb) (at address : ℕ) (ctx : Nctx)
      → Transfer st (sum_of fname) at ctx fname (part_path st fname)
      → Vacant st fname
      → Registered st fs
      → last_named (contents 0 st.fcb_reg) fs fname none ≡ some address
      → n.fname ≡ some (fname ++ 0 ∷ [])
      → IsName fname
      → AreBytes fname
      → env.files.contains st.files n.fileid ≡ false
      → (st' : State env) × (on_hello st n ≡ ok (refuse err_ht, st'))
        × (stored env.sys st'.disk (part_path st fname) ≡ some [])
  on_hello-again law table plenty st n fname fs at address ctx t vacant reg own held name named
        unknown =
      let (it, starts, found) = callback_for_lem st reg.valid fname fs reg.objects in
      let st₁ = opened plenty st fname st.fcb_reg st.fcbs in
      let written = file_write_lem env.sys law st.disk st₁.disk (part_path st fname) [] in
      let empty = (written (ap (λ rv. (rv, st₁.disk)) vacant.writes)).0 in
      let ctx' = hello_ctx plenty n fname address in
      (
        replaced st₁ ctx',
        on_hello-enter_ctx plenty st n fname it (some address) address st.fcb_reg st.fcbs vacant
              starts (found ∙ ap ok own) (default_callback-some st fname address) held name named
              unknown
            ∙ enter_ctx-known st₁ n fname ctx'
                (table.renews st.files (sum_of fname) (length st.ctxs) t.listed),
        empty,
      )
