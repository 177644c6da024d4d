-- ===== src/Proto/Shutdown.antt =====
-- src/proto.c: `nftp_proto_fini`, which gives all objects back.
pub mod Live
pub mod Freed
use nftp_codec.Prelude.{ℕ, zero, suc, List, [], ◌∷◌, Option, none, some, true, false, ◌==◌}
use nftp_codec.Errors.{Status, success, Run, ok, fault, ◌>>=◌}
use nftp_codec.Mem.{store, or_fault, nftp_head}
use nftp_codec.Vec.{pop}
use nftp_codec.Proto.{Env, State, FileCb, Nctx, deref}

-- `free` of the object at an address, which must be there.
unfoldable pub free_at : {A : Type 0} → List (Option A) → ℕ → Run (List (Option A))
free_at heap address = do object ← deref heap address; store heap address none

-- `nctx_free_cb` on each value of the table: the context, with its blocks and its name, which are parts of it here.
pub free_ctxs : List (Option Nctx) → List ℕ → Run (List (Option Nctx))
free_ctxs ctxs [] = ok ctxs
free_ctxs ctxs (at ∷ ats) = do rest ← free_at ctxs at; free_ctxs rest ats

module _ {env : Env} where
  -- The loop `while (0 != nftp_vec_len(fcb_reg))` with the rounds left.
  pub pop_fcbs : ℕ → State env → Run (State env)
  pop_fcbs zero st = fault
  pop_fcbs (suc rounds) st = elim (st.fcb_reg.len == 0) [
    | true ↦ ok st
    | false ↦ do
      (rv, got, reg) ← pop 0 st.fcb_reg nftp_head
      address ← or_fault got
      fcbs ← free_at st.fcbs address
      pop_fcbs rounds (record st { fcb_reg = reg; fcbs = fcbs })
  ]

  -- The tables are empty behind it, and neither they nor the registry are to be used again.
  pub proto_fini : State env → Run (Status × State env)
  proto_fini st = do
    st' ← pop_fcbs (suc st.fcb_reg.len) st
    ctxs ← free_ctxs st'.ctxs (env.files.visits st'.files)
    ok (
      success,
      record st' {
        ctxs = ctxs;
        files = env.files.clear st'.files;
        senderfiles = env.senders.clear st'.senderfiles;
        recvdir = none;
      },
    )
