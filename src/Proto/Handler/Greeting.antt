-- ===== src/Proto/Handler/Greeting.antt =====
-- A HELLO begins a transfer.
use nftp_codec.Prelude.{
  ℕ, ◌+◌, ◌≤◌, List, [], ◌∷◌, ◌++◌, some, length, false, ◌≡◌, refl, ap, arith, le→leb,
  length-append,
}
use nftp_codec.Prelude.Int.{pos}
use nftp_codec.Errors.{◌>>=◌}
use nftp_codec.File.Name.{dir_bytes}
use nftp_codec.File.Write.{IsSystem}
use nftp_codec.File.Write.Changes.{file_write_lem}
use nftp_codec.Hash.Remainder.{AreBytes}
use nftp_codec.Codec.{Nftp}
use nftp_codec.Proto.{
  Env, State, FileCb, Nctx, IsHashtable, inserted, status_hello, part_name, same_name,
}
use nftp_codec.Proto.Registry.{star}
use nftp_codec.Proto.Registry.Objects.{at_end}
use nftp_codec.Proto.Registry.Names.{Registered, has_name}
use nftp_codec.Proto.Blocks.Order.{new-Receiving}
use nftp_codec.Proto.Receiver.{put_ctx}
use nftp_codec.Proto.Receiver.Finish.{sum_of}
use nftp_codec.Proto.Receiver.Steps.{Transfer}
use nftp_codec.Proto.Sender.Made.{Plenty}
use nftp_codec.Proto.Sender.Packets.{maker_ack}
use nftp_codec.Proto.Handler.{enter_ctx, on_hello}
use nftp_codec.Proto.Handler.Callbacks.{default_callback_lem}
use nftp_codec.Proto.Handler.Begun.{IsName, stored_last, part_suffix, Vacant, Begun, Acked}
use nftp_codec.Prelude.{none, ◌∙◌}
use nftp_codec.Proto.Handler.Begun.{part_path}
use nftp_codec.Proto.Handler.Opening.{full_path_lem, hello_ctx, opened, on_hello-enter_ctx}

module _ {env : Env} (law : IsSystem env.sys) (table : IsHashtable env.files)
    (plenty : Plenty env) where
  -- The context goes into the table.
  enter_ctx_lem :
      (st : State env) (n : Nftp) (fname : List ℕ) (ctx : Nctx) (r : Nftp)
      → AreBytes (env.base_name fname)
      → (env.files.insert st.files ctx.fileid (length st.ctxs)).0 ≡ inserted
      → let st' : State env = record st {
        files = (env.files.insert st.files ctx.fileid (length st.ctxs)).1;
        ctxs = st.ctxs ++ some (record ctx { status = some status_hello }) ∷ [];
      } in
        Acked n fname r st' (enter_ctx st n fname ctx)
  unfolding enter_ctx put_ctx
  enter_ctx_lem st n fname ctx r bytes new =
      let greeted : Nctx = record ctx { status = some status_hello } in
      let st' : State env = record st {
        files = (env.files.insert st.files ctx.fileid (length st.ctxs)).1;
        ctxs = st.ctxs ++ some greeted ∷ [];
      } in
      let (ack, made, decoded) =
        maker_ack plenty st' fname (env.base_name fname) refl bytes 0 (omega arith) r (pos n.id) in
      (
        ack,
        rw
            (
              new,
              enter_ctx,
              put_ctx,
              stored_last st.ctxs (some ctx) (some greeted),
              ◌>>=◌,
              made,
              ◌>>=◌,
            )
            refl,
        decoded,
      )

  -- The state in which the context is made, and the one behind it.
  abbrev entered : State env → Nctx → State env
  entered st ctx = record st {
    files = (env.files.insert st.files ctx.fileid (length st.ctxs)).1;
    ctxs = st.ctxs ++ some (record ctx { status = some status_hello }) ∷ [];
  }

  entered-Transfer :
      (st : State env) (ctx : Nctx) (fname : List ℕ)
      → (env.files.insert st.files ctx.fileid (length st.ctxs)).0 ≡ inserted
      → ctx.wfname ≡ some fname
      → length fname ≤ 66
      → length (dir_bytes st.recvdir) + length fname ≤ 314
      → Transfer
          (entered st ctx)
          ctx.fileid
          (length st.ctxs)
          (record ctx { status = some status_hello })
          fname
          (dir_bytes st.recvdir ++ (fname ++ part_suffix))
  unfolding part_name
  entered-Transfer st ctx fname new saved short room =
      let (listed, found) = table.inserts st.files ctx.fileid (length st.ctxs) new in
      record {
        listed = listed;
        found = found;
        object = at_end st.ctxs (record ctx { status = some status_hello });
        known =
            omega (
              arith,
              length-append st.ctxs (some (record ctx { status = some status_hello }) ∷ []),
            );
        saved = saved;
        name = fname ++ part_suffix;
        short = rw (le→leb (length fname + 6) 72 (omega arith)) refl;
        named =
            full_path_lem st.recvdir (fname ++ part_suffix)
              (omega (arith, length-append fname part_suffix));
      }

  -- A HELLO whose name fits the buffers and has no entry in the registry besides '*', when no file
  -- stands under that name, the id in the decoded packet is not in the table, the file's entry is
  -- taken there, the part file can be written and memory is granted, is answered by 0 and an ACK that
  -- decodes to its id and the checksum of its name. The transfer is then in the table, with no block
  -- received, the part file there and empty, and the fields that the packet has; the callback is the
  -- first entry of the registry, and none was run.
  pub on_hello_lem :
      (st : State env) (n : Nftp) (fname : List ℕ) (r : Nftp) (first : FileCb) (fs : List FileCb)
      → AreBytes (env.base_name fname)
      → Vacant st fname
      → Registered st (first ∷ fs)
      → same_name star fname ≡ false
      → has_name (first ∷ fs) fname ≡ false
      → n.fname ≡ some (fname ++ 0 ∷ [])
      → IsName fname
      → AreBytes fname
      → env.files.contains st.files n.fileid ≡ false
      → (env.files.insert st.files (sum_of fname) (length st.ctxs)).0 ≡ inserted
      → (st' : State env) × (at : ℕ) × (ctx : Nctx) × (address : ℕ) × Acked n fname r st'
          (on_hello st n)
        × Begun st n fname first at ctx address st'
  on_hello_lem st n fname r first fs bytes vacant reg plain free held name named unknown new =
      let (it, starts, found, taken) =
        default_callback_lem st first fs fname reg plain free (plenty.grants 0 24)
          (plenty.grants 1 (length fname + 1)) in
      let (address, reg', fcbs', fs', run, _, default) = taken in
      let ctx = hello_ctx plenty n fname address in
      let st₁ = opened plenty st fname reg' fcbs' in
      let (ack, answered, decoded) = enter_ctx_lem st₁ n fname ctx r bytes new in
      let written = file_write_lem env.sys law st.disk st₁.disk (part_path st fname) [] in
      let empty = (written (ap (λ rv. (rv, st₁.disk)) vacant.writes)).0 in
      (
        entered st₁ ctx,
        length st.ctxs,
        record ctx { status = some status_hello },
        address,
        (
          ack,
          on_hello-enter_ctx plenty st n fname it none address reg' fcbs' vacant starts found run
                held name named unknown
              ∙ answered,
          decoded,
        ),
        record {
          transfer = entered-Transfer st₁ ctx fname new refl vacant.short vacant.room;
          receiving =
              λ blocks. new-Receiving env.sys (part_path st fname) blocks n.blocks st₁.disk empty;
          nextid = refl;
          cap = refl;
          hashcode = refl;
          fileid = refl;
          fcb = refl;
          default = record {
            object = default.object;
            first = default.first;
            some_entry = default.some_entry;
          };
          recvdir = refl;
          ran = refl;
        },
      )
