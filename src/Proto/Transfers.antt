-- ===== src/Proto/Transfers.antt =====
-- src/proto.c: `nftp_proto_recv_status` and `nftp_proto_recv_stop`.
pub mod Stopped
mod Tests
use nftp_codec.Prelude.{ℕ, ◌+◌, List, Option, none, some, length, true, false, if◌then◌else◌}
use nftp_codec.Prelude.Int.{ℤ, pos, negsuc}
use nftp_codec.Errors.{Status, success, err_filename, err_ht, Run, ok, ◌>>=◌}
use nftp_codec.Mem.{store, or_fault}
use nftp_codec.File.Name.{full_path}
use nftp_codec.File.Write.{file_remove}
use nftp_codec.Hash.Crc32c.{crc32c}
use nftp_codec.Proto.Receiver.{find_fcb, release_at}
use nftp_codec.Proto.{Env, State, Nctx, deref, part_name}

-- The file name without its directory, and its id, if `nftp_file_bname` gets its memory.
pub name_id : Env → List ℕ → Run (Option (List ℕ × ℕ))
name_id env fname =
    let name = env.base_name fname in
    let id = (do fileid ← crc32c 0 name; ok (some (name, fileid))) in
    if env.memory.grants 0 (length fname + 16) then id else ok none

module _ {env : Env} where
  -- `*capp` and `*nextseq`, where they are written.
  pub recv_status : State env → List ℕ → Run (Status × Option ℕ × Option ℤ)
  recv_status st fname = do
    got ← name_id env fname
    elim got [
      | none ↦ ok (err_filename, none, none)
      | some found ↦ elim (env.files.contains st.files found.1) [
        | false ↦ ok (err_ht, none, some (negsuc 0))
        | true ↦ do
          at ← or_fault (env.files.lookup st.files found.1)
          ctx ← deref st.ctxs at
          ok (success, some ctx.cap, some (pos ctx.nextid))
      ]
    ]

  -- The callback of a stopped transfer is not run.
  pub stop_fcb : State env → Option ℕ → Run (State env)
  stop_fcb st none = ok st
  stop_fcb st (some address) = do
    place ← find_fcb st address st.fcb_reg.len 0
    elim place [ none ↦ ok st | some i ↦ release_at st address (some i) ]

  pub stop_ctx : State env → ℕ → ℕ → Nctx → Run (Status × State env)
  stop_ctx st fileid at ctx = do
    wfname ← or_fault ctx.wfname
    name ← part_name wfname
    part ← full_path st.recvdir name
    let (erased, files) = env.files.erase st.files fileid
    let st₁ : State env = record st { files = files }
    let (rv, disk) = file_remove env.sys st.disk part
    let st₂ : State env = record st₁ { disk = disk }
    let freed = (do
      st₃ ← stop_fcb st₂ ctx.fcb
      ctxs ← store st₃.ctxs at none
      ok (success, record st₃ { ctxs = ctxs }))
    elim erased [ false ↦ ok (err_ht, st₁) | true ↦ elim rv [ success ↦ freed | e ↦ ok (e, st₂) ] ]

  pub recv_stop : State env → List ℕ → Run (Status × State env)
  recv_stop st fname = do
    got ← name_id env fname
    elim got [
      | none ↦ ok (err_filename, st)
      | some found ↦ elim (env.files.contains st.files found.1) [
        | false ↦ ok (err_ht, st)
        | true ↦ do
          at ← or_fault (env.files.lookup st.files found.1)
          ctx ← deref st.ctxs at
          stop_ctx st found.1 at ctx
      ]
    ]
