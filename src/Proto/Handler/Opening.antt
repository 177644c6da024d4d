-- ===== src/Proto/Handler/Opening.antt =====
-- The steps of a HELLO up to where its context is entered.
use nftp_codec.Prelude.{
  ℕ, ◌+◌, ◌<◌, ◌*◌, List, [], ◌∷◌, ◌++◌, Option, some, length, false, ◌≡◌, refl, ap, arith, le→leb,
  length-append,
}
use nftp_codec.Errors.{ok, ◌>>=◌}
use nftp_codec.Mem.{or_fault}
use nftp_codec.File.Name.{full_path, dir_bytes}
use nftp_codec.File.Write.{file_exist, file_write}
use nftp_codec.Hash.Remainder.{AreBytes}
use nftp_codec.Hash.Crc32c.Slices.{crc32c_lem}
use nftp_codec.Codec.{Nftp}
use nftp_codec.Proto.{Env, State, FileCb, Nctx, part_name, nctx_alloc, new_nctx}
use nftp_codec.Proto.Receiver.Finish.{sum_of}
use nftp_codec.Proto.Sender.Made.{Plenty}
use nftp_codec.Proto.Handler.{saved_name, enter_ctx, open_part, on_hello}
use nftp_codec.Proto.Handler.Begun.{IsName, c_string_lem, part_suffix, part_path, Vacant}
use nftp_codec.Prelude.{suc, none}
use nftp_codec.Iter.{Iter, vec_iter, vec_iter_next}
use nftp_codec.Vec.{Vec}
use nftp_codec.Proto.Handler.{callback_for, default_callback}

pub full_path_lem :
    (dir : Option (List ℕ)) (name : List ℕ)
    → length (dir_bytes dir) + length name < 320
    → full_path dir name ≡ ok (dir_bytes dir ++ name)
unfolding full_path
full_path_lem dir name room =
    rw
      (le→leb (length (dir_bytes dir ++ name) + 1) 320
        (omega (arith, length-append (dir_bytes dir) name)))
      refl

module _ {env : Env} (plenty : Plenty env) where
  module _ (st : State env) (n : Nftp) (fname : List ℕ) (vacant : Vacant st fname) where
    saved_name_lem : saved_name st fname n.namelen ≡ ok (some (some fname))
    unfolding saved_name file_exist
    saved_name_lem =
        rw
          (
            full_path_lem st.recvdir fname (omega (arith, vacant.room)),
            ◌>>=◌,
            vacant.new,
            plenty.grants 5 (n.namelen + 1),
          )
          refl

    -- The part file is made.
    open_part-enter_ctx :
        (ctx : Nctx)
        → open_part st n fname ctx (some fname)
          ≡ enter_ctx
              (record st { disk = (file_write env.sys st.disk (part_path st fname) []).1 })
              n
              fname
              (record ctx { wfname = some fname })
    unfolding open_part part_name
    open_part-enter_ctx ctx =
        rw
          (
            or_fault,
            ◌>>=◌,
            le→leb (length fname + 6) 72 (omega (arith, vacant.short)),
            ◌>>=◌,
            full_path_lem st.recvdir (fname ++ part_suffix)
                (omega (arith, vacant.room, length-append fname part_suffix)),
            ◌>>=◌,
            vacant.writes,
          )
          refl

  -- The context of a HELLO, and the state in which it is entered.
  abbrev pub hello_ctx : Nftp → List ℕ → ℕ → Nctx
  hello_ctx n fname address = record (new_nctx n.blocks (sum_of fname) n.hashcode) {
    fcb = some address;
    wfname = some fname;
  }

  abbrev pub opened : State env → List ℕ → Vec ℕ → List (Option FileCb) → State env
  opened st fname reg fcbs = record st {
    fcb_reg = reg;
    fcbs = fcbs;
    disk = (file_write env.sys st.disk (part_path st fname) []).1;
  }

  -- A HELLO whose id is not in the table, once its callback is found.
  pub on_hello-enter_ctx :
      (st : State env) (n : Nftp) (fname : List ℕ) (it : Iter ℕ) (found : Option ℕ) (address : ℕ)
      (reg : Vec ℕ) (fcbs : List (Option FileCb))
      → Vacant st fname
      → vec_iter_next st.fcb_reg vec_iter ≡ ok it
      → callback_for st fname (suc st.fcb_reg.len) it none ≡ ok found
      → default_callback st fname found ≡ ok (address, record st { fcb_reg = reg; fcbs = fcbs })
      → n.fname ≡ some (fname ++ 0 ∷ [])
      → IsName fname
      → AreBytes fname
      → env.files.contains st.files n.fileid ≡ false
      → on_hello st n ≡ enter_ctx (opened st fname reg fcbs) n fname (hello_ctx n fname address)
  unfolding on_hello nctx_alloc
  on_hello-enter_ctx st n fname it found address reg fcbs vacant starts finds run held name named
        unknown =
      let st₁ : State env = record st { fcb_reg = reg; fcbs = fcbs } in
      let vacant₁ : Vacant st₁ fname = record {
        short = vacant.short;
        room = vacant.room;
        new = vacant.new;
        writes = vacant.writes;
      } in
      rw
        (
          ap or_fault held,
          ◌>>=◌,
          c_string_lem fname name,
          ◌>>=◌,
          crc32c_lem 0 fname named,
          ◌>>=◌,
          plenty.grants 0 56,
          plenty.grants 1 (16 * n.blocks),
          or_fault,
          ◌>>=◌,
          unknown,
          on_hello,
          plenty.grants 3 48,
          or_fault,
          ◌>>=◌,
          starts,
          ◌>>=◌,
          finds,
          ◌>>=◌,
          run,
          ◌>>=◌,
          saved_name_lem st₁ n fname vacant₁,
          ◌>>=◌,
        )
        (open_part-enter_ctx st₁ n fname vacant₁
          (record (new_nctx n.blocks (sum_of fname) n.hashcode) { fcb = some address }))
