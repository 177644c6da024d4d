-- ===== src/Proto/Blocks.antt =====
-- src/proto.c: the blocks of a file on their way to the part file, in the order in which they come.
-- `nftp_proto_handler` appends the block that is next, and what it kept behind it, and keeps another.
pub mod Receiving
pub mod Reassembly
pub mod Order
use nftp_codec.Prelude.{
  ℕ, zero, suc, ◌+◌, ◌-◌, List, [], ◌∷◌, ◌++◌, Option, none, some, length, Bool, true, false, leb,
  not, ◌&&◌, ◌==◌, if◌then◌else◌,
}
use nftp_codec.Prelude.Int.{ℤ, pos, negsuc}
use nftp_codec.Errors.{Status, success, err_filename, err_ht, err_proto, Run, ok, fault, ◌>>=◌}
use nftp_codec.Mem.{load, store, or_fault}
use nftp_codec.Vec.{get, delete}
use nftp_codec.File.Name.{full_path}
use nftp_codec.File.Write.{System, file_append, file_rename, file_remove, file_hash}
use nftp_codec.Hash.Crc32c.{crc32c}
use nftp_codec.Codec.{Nftp, Kind, hello, ack, file, end, giveme, unknown}
use nftp_codec.Codec.Encode.{read_block}
use nftp_codec.Proto.{
  Env, State, FileCb, Nctx, Buf, Progress, status_transfer, status_end, status_finish, deref,
  part_name,
}

abbrev pub no_buf : Buf
no_buf = record { body = none; len = 0 }

-- Blocks on their way to the part file at `path`: the context, and the disk.
module _ (sys : System) (path : List ℕ) where
  -- The loop `do … while (1)` with the rounds left.
  pub drain : ℕ → Nctx → sys.State → Run (Status × Nctx × sys.State)
  drain zero ctx d = fault
  drain (suc rounds) ctx d =
      let next : Nctx = record ctx { nextid = suc ctx.nextid } in
      elim (leb ctx.cap (suc ctx.nextid)) [
        | true ↦ ok (success, next, d)
        | false ↦ do
          buf ← load ctx.entries (suc ctx.nextid)
          elim buf.body [
            | none ↦ ok (success, next, d)
            | some body ↦ do
              bytes ← or_fault (read_block (some body) buf.len)
              let (rv, d') = file_append sys d path bytes
              elim rv [
                | success ↦ do
                  entries ← store ctx.entries (suc ctx.nextid) no_buf
                  drain rounds (record next { entries = entries }) d'
                | e ↦ ok (e, next, d')
              ]
          ]
      ]

  -- The block that is next.
  pub append_block : Nctx → Option (List ℕ) → ℕ → sys.State → Run (Status × Nctx × sys.State)
  append_block ctx content ctlen d = do
    bytes ← or_fault (read_block content ctlen)
    let (rv, d') = file_append sys d path bytes
    elim rv [ success ↦ drain (suc ctx.cap) ctx d' | e ↦ ok (e, ctx, d') ]

  -- `ctx->len` goes back by one if the block replaces another.
  pub count_kept : ℕ → Buf → ℕ
  count_kept len old =
      if not (old.len == 0) && elim old.body [ none ↦ false | some b ↦ true ] then len - 1 else len

  -- A block that is not next.
  pub keep_block : Nctx → ℕ → Option (List ℕ) → ℕ → Run Nctx
  keep_block ctx seq content ctlen = do
    old ← load ctx.entries seq
    entries ← store ctx.entries seq (record { body = content; len = ctlen })
    ok (record ctx { entries = entries; len = count_kept ctx.len old })

  pub block_in : Nctx → ℕ → Option (List ℕ) → ℕ → sys.State → Run (Status × Nctx × sys.State)
  block_in ctx seq content ctlen d = elim (seq == ctx.nextid) [
    | true ↦ append_block ctx content ctlen d
    | false ↦ do kept ← keep_block ctx seq content ctlen; ok (success, kept, d)
  ]
