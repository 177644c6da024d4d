-- ===== src/Proto/Receiver/Steps.antt =====
-- FILE and END packets that belong to a transfer, one after the other.
use nftp_codec.Prelude.{
  ℕ, ◌+◌, ◌<◌, ◌≤◌, List, some, length, set, Bool, true, ◌==◌, eq→==, ne→==, if◌then◌else◌, ◌≡◌,
  ◌≢◌, refl, ap, ◌∙◌,
}
use nftp_codec.Errors.{success, ok, fault, ◌>>=◌}
use nftp_codec.Mem.{store_lem, or_fault}
use nftp_codec.File.Name.{full_path}
use nftp_codec.Codec.{Nftp}
use nftp_codec.Proto.{Env, State, Nctx, Buf, status_end, status_transfer, deref, part_name}
use nftp_codec.Proto.Blocks.{block_in}
use nftp_codec.Proto.Blocks.Receiving.{block_in_outside}
use nftp_codec.Proto.Receiver.{refuse, put_ctx, finish, after_block, take_block, on_file}

-- A packet with block `seq` of the file.
pub record Carries (blocks : ℕ → List ℕ) (fileid : ℕ) (p : Nftp) : Type 0 where
  pub for_file : p.fileid ≡ fileid
  pub content : p.content ≡ some (blocks p.blockseq)
  pub size : p.ctlen ≡ length (blocks p.blockseq)

module _ {env : Env} where
  -- The transfer with this id is in the table, its context is at `at`, and its part file at `part`.
  pub record Transfer (st : State env) (fileid at : ℕ) (ctx : Nctx) (wfname part : List ℕ)
      : Type 0 where
    pub listed : env.files.contains st.files fileid ≡ true
    pub found : env.files.lookup st.files fileid ≡ some at
    pub object : deref st.ctxs at ≡ ok ctx
    pub known : at < length st.ctxs
    pub saved : ctx.wfname ≡ some wfname
    pub name : List ℕ
    pub short : part_name wfname ≡ ok name
    pub named : full_path st.recvdir name ≡ ok part

  -- The context and the disk behind a block.
  abbrev pub behind :
      State env → Bool → ℕ → Nctx → ℕ → List Buf → ℕ → env.sys.State → State env × Nctx
  behind st is_end at ctx n e l d =
      let ctx' : Nctx = record ctx {
        len = l + 1;
        nextid = n;
        entries = e;
        status = some (if is_end then status_end else status_transfer);
      } in
      (record st { disk = d; ctxs = set st.ctxs at (some ctx') }, ctx')

  pub on_file-take_block :
      (st : State env) (is_end : Bool) (p : Nftp) (fileid at : ℕ) (ctx : Nctx)
      (wfname part : List ℕ)
      → Transfer st fileid at ctx wfname part
      → p.fileid ≡ fileid
      → on_file st is_end p ≡ take_block st is_end p at ctx
  unfolding on_file
  on_file-take_block st is_end p fileid at ctx wfname part t same =
      rw (same, t.listed, on_file, same, t.found, or_fault, ◌>>=◌, t.object, ◌>>=◌) refl

  -- A packet after which the file is whole, or is not.
  module _ (st : State env) (is_end : Bool) (p : Nftp) (fileid at : ℕ) (ctx : Nctx)
      (wfname part : List ℕ) (n : ℕ) (e : List Buf) (l : ℕ) (d : env.sys.State)
      (t : Transfer st fileid at ctx wfname part) (same : p.fileid ≡ fileid)
      (run : block_in env.sys part ctx p.blockseq p.content p.ctlen st.disk
        ≡ ok (success, record ctx { len = l; nextid = n; entries = e }, d)) where
    one_block :
        let (st', ctx') = behind st is_end at ctx n e l d in
        on_file st is_end p
        ≡ (if n == ctx.cap then finish st' at ctx' wfname part else ok (refuse success, st'))
    unfolding take_block after_block put_ctx
    one_block =
        on_file-take_block st is_end p fileid at ctx wfname part t same
        ∙ rw
            (
              ap or_fault t.saved,
              ◌>>=◌,
              t.short,
              ◌>>=◌,
              t.named,
              ◌>>=◌,
              run,
              ◌>>=◌,
              take_block,
              after_block,
              put_ctx,
              store_lem st.ctxs at (some (behind st is_end at ctx n e l d).1) t.known,
              ◌>>=◌,
            )
            refl

    pub last_block :
        n ≡ ctx.cap
        → let (st', ctx') = behind st is_end at ctx ctx.cap e l d in
          on_file st is_end p ≡ finish st' at ctx' wfname part
    last_block last =
        one_block
        ∙ rw (eq→== n ctx.cap last) refl
        ∙ ap
            (λ m.
              let (st', ctx') = behind st is_end at ctx m e l d in finish st' at ctx' wfname part)
            last

    pub further_block :
        n ≢ ctx.cap → on_file st is_end p ≡ ok (refuse success, (behind st is_end at ctx n e l d).0)
    further_block on = one_block ∙ rw (ne→== n ctx.cap on) refl

  -- A FILE or END packet of a transfer that is in the table, whose block is not the next and whose
  -- number is past the last block, makes the handler access memory outside the array of the kept
  -- blocks.
  pub on_file-outside :
      (st : State env) (is_end : Bool) (p : Nftp) (fileid at : ℕ) (ctx : Nctx)
      (wfname part : List ℕ)
      → Transfer st fileid at ctx wfname part
      → p.fileid ≡ fileid
      → length ctx.entries ≡ ctx.cap
      → ctx.cap ≤ p.blockseq
      → p.blockseq ≢ ctx.nextid
      → on_file st is_end p ≡ fault
  unfolding take_block
  on_file-outside st is_end p fileid at ctx wfname part t same cells past other =
      on_file-take_block st is_end p fileid at ctx wfname part t same
      ∙ rw
          (
            ap or_fault t.saved,
            ◌>>=◌,
            t.short,
            ◌>>=◌,
            t.named,
            ◌>>=◌,
            block_in_outside env.sys part ctx p.blockseq p.content p.ctlen st.disk cells past other,
          )
          refl
