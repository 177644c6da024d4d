-- ===== src/Proto/Receiver/Finish.antt =====
-- The end of a transfer: the part file gets its name, and the hash decides whether the callback is run.
use nftp_codec.Prelude.{
  ℕ, zero, suc, ◌<◌, List, none, some, length, set, length-set, true, eq→==, ne→==, ◌≡◌, ◌≢◌, refl,
  ap, ◌∙◌, arith,
}
use nftp_codec.Prelude.Int.{pos}
use nftp_codec.Errors.{success, err_proto, ok, ◌>>=◌}
use nftp_codec.Mem.{store_lem}
use nftp_codec.Vec.{get}
use nftp_codec.File.Name.{full_path}
use nftp_codec.File.Write.{IsSystem, stored, file_rename, file_hash}
use nftp_codec.File.Write.Changes.{file_hash_lem, file_rename_lem}
use nftp_codec.Hash.Remainder.{AreBytes, crc_of_digits}
use nftp_codec.Hash.Crc32c.{poly}
use nftp_codec.Proto.{Env, State, FileCb, Nctx, status_finish, deref}
use nftp_codec.Proto.Receiver.{
  call_cb, find_fcb, release_at, run_fcb, put_ctx, drop_ctx, check_hash, finish,
}
use Prim.Native.Nat.{bit_xor}

-- The checksum of a file's bytes.
abbrev pub sum_of : List ℕ → ℕ
sum_of file = bit_xor (crc_of_digits poly 0xffffffff file) 0xffffffff

module _ {env : Env} where
  -- The entry that is first in the registry.
  pub record IsDefault (st : State env) (address : ℕ) (fcb : FileCb) : Type 0 where
    pub object : deref st.fcbs address ≡ ok fcb
    pub first : get st.fcb_reg (pos 0) ≡ ok (success, some address)
    pub some_entry : 0 < st.fcb_reg.len

  pub find_fcb-first :
      (st : State env) (address rounds : ℕ)
      → get st.fcb_reg (pos 0) ≡ ok (success, some address)
      → 0 < rounds
      → find_fcb st address rounds 0 ≡ ok (some 0)
  unfolding find_fcb
  find_fcb-first st address zero first some_entry = absurd (omega arith)
  find_fcb-first st address (suc rounds) first some_entry =
      rw (first, ◌>>=◌, eq→== address address refl) refl

  -- The file that a transfer ends with can be given its name, read and hashed.
  pub record Ends (st : State env) (at : ℕ) (wfname part path file : List ℕ) : Type 0 where
    pub known : at < length st.ctxs
    pub named : full_path st.recvdir wfname ≡ ok path
    pub there : stored env.sys st.disk part ≡ some file
    pub moves : (env.sys.move st.disk part path).0 ≡ true
    pub opens : (env.sys.disk (env.sys.move st.disk part path).1).opens path ≡ true
    pub granted : env.memory.grants 2 (length file) ≡ true
    pub bytes : AreBytes file

  -- The state in which the hash is checked: the context says so, and the file has its name.
  abbrev pub moved : State env → ℕ → Nctx → List ℕ → List ℕ → State env
  moved st at ctx part path = record st {
    ctxs = set st.ctxs at (some (record ctx { status = some status_finish }));
    disk = (env.sys.move st.disk part path).1;
  }

  -- The callback was run, and the context is freed.
  abbrev pub forgotten : State env → ℕ → Nctx → List ℕ → List ℕ → FileCb → State env
  forgotten st at ctx part path fcb = record (moved st at ctx part path) {
    ran = call_cb fcb st.ran;
    files = (env.files.erase st.files ctx.fileid).1;
    ctxs = set (moved st at ctx part path).ctxs at none;
  }

module _ {env : Env} (law : IsSystem env.sys) where
  module _ (st : State env) (at : ℕ) (ctx : Nctx) (wfname part path file : List ℕ)
      (ends : Ends st at wfname part path file) where
    renamed :
        (file_rename env.sys st.disk part path ≡ (success, (env.sys.move st.disk part path).1))
        × (stored env.sys (env.sys.move st.disk part path).1 path ≡ some file)
    renamed = file_rename_lem env.sys law st.disk part path file ends.there ends.moves

    finish-check_hash :
        finish st at ctx wfname part
        ≡ check_hash
            (moved st at ctx part path)
            at
            (record ctx { status = some status_finish })
            wfname
            path
    unfolding finish put_ctx
    finish-check_hash =
        rw
          (
            store_lem st.ctxs at (some (record ctx { status = some status_finish })) ends.known,
            ◌>>=◌,
            ends.named,
            ◌>>=◌,
            renamed.0,
            renamed.0,
          )
          refl

    hashed :
        file_hash env.sys (env.memory.grants 2) (moved st at ctx part path).disk path
        ≡ ok (success, sum_of file)
    hashed =
        (file_hash_lem env.sys law (env.memory.grants 2) (moved st at ctx part path).disk path).1
          file renamed.1 ends.opens ends.granted ends.bytes

    bad_hash :
        ctx.hashcode ≢ sum_of file
        → finish st at ctx wfname part
          ≡ ok (record { status = err_proto; rmsg = some wfname }, moved st at ctx part path)
    unfolding check_hash
    bad_hash other =
        finish-check_hash
        ∙ rw (hashed, ◌>>=◌, check_hash, ne→== ctx.hashcode (sum_of file) other, check_hash) refl

    good_hash :
        ctx.hashcode ≡ sum_of file
        → finish st at ctx wfname part ≡ (
            run_fcb (moved st at ctx part path) ctx.fcb >>= λ st'.
            drop_ctx st' at (record ctx { status = some status_finish }) wfname)
    unfolding check_hash
    good_hash same =
        finish-check_hash
        ∙ rw (hashed, ◌>>=◌, check_hash, eq→== ctx.hashcode (sum_of file) same, check_hash) refl

    -- The callback is run, with its argument, and the entry that is first in the registry stays.
    first_fcb :
        (address : ℕ) (fcb : FileCb)
        → IsDefault st address fcb
        → run_fcb (moved st at ctx part path) (some address)
          ≡ ok (record (moved st at ctx part path) { ran = call_cb fcb st.ran })
    unfolding run_fcb release_at
    first_fcb address fcb default =
        rw
          (
            default.object,
            ◌>>=◌,
            find_fcb-first (moved st at ctx part path) address st.fcb_reg.len default.first
                default.some_entry,
            ◌>>=◌,
          )
          refl

    dropped :
        (fcb : FileCb)
        → (env.files.erase st.files ctx.fileid).0 ≡ true
        → let done : Nctx = record ctx { status = some status_finish } in
          drop_ctx (record (moved st at ctx part path) { ran = call_cb fcb st.ran }) at done wfname
          ≡ ok (record { status = success; rmsg = some wfname }, forgotten st at ctx part path fcb)
    unfolding drop_ctx
    dropped fcb erased =
        let done : Nctx = record ctx { status = some status_finish } in
        rw
          (
            erased,
            drop_ctx,
            store_lem (set st.ctxs at (some done)) at none
                (rw (length-set st.ctxs at (some done)) ends.known),
            ◌>>=◌,
          )
          refl

    -- A transfer that is whole, whose callback is the first entry of the registry, ends in one of two
    -- ways, when its part file can be renamed, read and hashed, and the table forgets it: in both, the
    -- file stands under its name. If its checksum is not that of the HELLO packet, the answer is
    -- NFTP_ERR_PROTO, no callback is run and the context stays; if it is, the callback is run once with
    -- its argument, the entry stays, and the context is freed.
    pub finish_lem :
        (address : ℕ) (fcb : FileCb)
        → ctx.fcb ≡ some address
        → IsDefault st address fcb
        → (env.files.erase st.files ctx.fileid).0 ≡ true
        → (stored env.sys (moved st at ctx part path).disk path ≡ some file)
          × (ctx.hashcode ≢ sum_of file
              → finish st at ctx wfname part
                ≡ ok (record { status = err_proto; rmsg = some wfname }, moved st at ctx part path))
          × (ctx.hashcode ≡ sum_of file
              → finish st at ctx wfname part
                ≡ ok (
                  record { status = success; rmsg = some wfname },
                  forgotten st at ctx part path fcb,
                ))
    finish_lem address fcb own default erased = (
      renamed.1,
      bad_hash,
      λ same.
          good_hash same
          ∙ rw (ap (run_fcb (moved st at ctx part path)) own ∙ first_fcb address fcb default, ◌>>=◌)
              (dropped fcb erased),
    )
