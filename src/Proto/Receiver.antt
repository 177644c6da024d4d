-- ===== src/Proto/Receiver.antt =====
-- src/proto.c: what `nftp_proto_handler` does with a FILE or an END packet.
pub mod Finish
pub mod Steps
pub mod Stream
pub mod Delivery
pub mod Callback
use nftp_codec.Prelude.{
  ℕ, zero, suc, ◌+◌, List, [], ◌∷◌, ◌++◌, Option, none, some, Bool, true, false, ◌==◌,
  if◌then◌else◌,
}
use nftp_codec.Prelude.Int.{pos}
use nftp_codec.Errors.{Status, success, err_ht, err_proto, Run, ok, ◌>>=◌}
use nftp_codec.Mem.{store, or_fault}
use nftp_codec.Vec.{get, delete}
use nftp_codec.File.Name.{full_path}
use nftp_codec.File.Write.{file_rename, file_hash}
use nftp_codec.Codec.{Nftp}
use nftp_codec.Proto.Blocks.{block_in}
use nftp_codec.Proto.{
  Env, State, FileCb, Nctx, status_transfer, status_end, status_finish, deref, part_name,
}

-- What the handler returns, and what it leaves in `*rmsg`.
pub record Reply : Type 0 where
  pub status : Status
  pub rmsg : Option (List ℕ)

abbrev pub refuse : Status → Reply
refuse e = record { status = e; rmsg = none }

-- `if (ctx->fcb->cb) ctx->fcb->cb(ctx->fcb->arg);`
abbrev pub call_cb : FileCb → List (ℕ × ℕ) → List (ℕ × ℕ)
call_cb fcb ran = elim fcb.cb [ none ↦ ran | some cb ↦ ran ++ (cb, fcb.arg) ∷ [] ]

module _ {env : Env} where
  -- The place of a callback in the registry, from place i on.
  pub find_fcb : State env → ℕ → ℕ → ℕ → Run (Option ℕ)
  find_fcb st address zero i = ok none
  find_fcb st address (suc rounds) i = do
    (rv, got) ← get st.fcb_reg (pos i)
    let rest = find_fcb st address rounds (suc i)
    elim got [ none ↦ rest | some other ↦ if address == other then ok (some i) else rest ]

  pub free_fcb : State env → ℕ → Run (State env)
  free_fcb st address = do
    fcb ← deref st.fcbs address
    fcbs ← store st.fcbs address none
    ok (record st { fcbs = fcbs })

  -- `free(ctx->fcb)` where the registry has it at a place, or not. The first entry stays.
  unfoldable pub release_at : State env → ℕ → Option ℕ → Run (State env)
  release_at st address none = free_fcb st address
  release_at st address (some zero) = ok st
  release_at st address (some (suc i)) = do
    (rv, got, reg) ← delete st.fcb_reg (pos (suc i))
    free_fcb (record st { fcb_reg = reg }) address

  -- The callback is run, which is taken not to call the library, and its object given back.
  pub run_fcb : State env → Option ℕ → Run (State env)
  run_fcb st none = ok st
  run_fcb st (some address) = do
    fcb ← deref st.fcbs address
    place ← find_fcb st address st.fcb_reg.len 0
    release_at (record st { ran = call_cb fcb st.ran }) address place

  unfoldable pub put_ctx : State env → ℕ → Nctx → Run (State env)
  put_ctx st at ctx = do ctxs ← store st.ctxs at (some ctx); ok (record st { ctxs = ctxs })

  -- `ht_erase(&files, …)` and `nctx_free`.
  pub drop_ctx : State env → ℕ → Nctx → List ℕ → Run (Reply × State env)
  drop_ctx st at ctx wfname =
      let (erased, files) = env.files.erase st.files ctx.fileid in
      let st' : State env = record st { files = files } in
      elim erased [
        | false ↦ ok (record { status = err_ht; rmsg = some wfname }, st')
        | true ↦ do
          ctxs ← store st'.ctxs at none
          ok (record { status = success; rmsg = some wfname }, record st' { ctxs = ctxs })
      ]

  -- The checksum of the whole file.
  pub check_hash : State env → ℕ → Nctx → List ℕ → List ℕ → Run (Reply × State env)
  check_hash st at ctx wfname path = do
    (rv, hashcode) ← file_hash env.sys (env.memory.grants 2) st.disk path
    elim rv [
      | success ↦ elim (ctx.hashcode == hashcode) [
        | false ↦ ok (record { status = err_proto; rmsg = some wfname }, st)
        | true ↦ do st' ← run_fcb st ctx.fcb; drop_ctx st' at ctx wfname
      ]
      | e ↦ ok (record { status = e; rmsg = some wfname }, st)
    ]

  -- All blocks are there. The copy of the name for the answer, by `strdup`, is taken to be granted.
  pub finish : State env → ℕ → Nctx → List ℕ → List ℕ → Run (Reply × State env)
  finish st at ctx wfname part = do
    let done : Nctx = record ctx { status = some status_finish }
    st' ← put_ctx st at done
    path ← full_path st.recvdir wfname
    let (rv, disk) = file_rename env.sys st'.disk part path
    let moved : State env = record st' { disk = disk }
    elim rv [ success ↦ check_hash moved at done wfname path | e ↦ ok (refuse e, moved) ]

  -- Behind the two ways of taking a block in.
  pub after_block : State env → Bool → ℕ → Nctx → List ℕ → List ℕ → Run (Reply × State env)
  after_block st is_end at ctx wfname part = do
    let status = if is_end then status_end else status_transfer
    let counted : Nctx = record ctx { len = ctx.len + 1; status = some status }
    st' ← put_ctx st at counted
    let finished = finish st' at counted wfname part
    if counted.nextid == counted.cap then finished else ok (refuse success, st')

  pub take_block : State env → Bool → Nftp → ℕ → Nctx → Run (Reply × State env)
  take_block st is_end n at ctx = do
    wfname ← or_fault ctx.wfname
    name ← part_name wfname
    part ← full_path st.recvdir name
    (rv, ctx', disk) ← block_in env.sys part ctx n.blockseq n.content n.ctlen st.disk
    let st' : State env = record st { disk = disk }
    elim rv [
      | success ↦ after_block st' is_end at ctx' wfname part
      | e ↦ do st'' ← put_ctx st' at ctx'; ok (refuse e, st'')
    ]

  unfoldable pub on_file : State env → Bool → Nftp → Run (Reply × State env)
  on_file st is_end n = elim (env.files.contains st.files n.fileid) [
    | false ↦ ok (refuse err_ht, st)
    | true ↦ do
      at ← or_fault (env.files.lookup st.files n.fileid)
      ctx ← deref st.ctxs at
      take_block st is_end n at ctx
  ]
