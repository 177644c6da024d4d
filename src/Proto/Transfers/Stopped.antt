-- ===== src/Proto/Transfers/Stopped.antt =====
-- What a client learns of a transfer, and what is left of one that it stops.
use nftp_codec.Prelude.{ℕ, ◌+◌, List, none, some, length, set, true, false, ◌≡◌, refl, ap, ◌∙◌}
use nftp_codec.Prelude.Int.{pos, negsuc}
use nftp_codec.Errors.{success, err_ht, ok, ◌>>=◌}
use nftp_codec.Mem.{or_fault, store_lem}
use nftp_codec.File.Write.{IsSystem, stored}
use nftp_codec.File.Write.Changes.{file_remove_lem}
use nftp_codec.Hash.Remainder.{AreBytes}
use nftp_codec.Hash.Crc32c.Slices.{crc32c_lem}
use nftp_codec.Proto.{Env, State, FileCb, Nctx, IsHashtable}
use nftp_codec.Proto.Receiver.{release_at}
use nftp_codec.Proto.Receiver.Finish.{sum_of, IsDefault, find_fcb-first}
use nftp_codec.Proto.Receiver.Steps.{Transfer}
use nftp_codec.Proto.Transfers.{name_id, recv_status, stop_fcb, stop_ctx, recv_stop}

-- The state without a transfer and its part file.
abbrev pub stopped : {env : Env} → State env → ℕ → ℕ → List ℕ → State env
stopped {env} st fileid at part = record st {
  files = (env.files.erase st.files fileid).1;
  disk = (env.sys.unlink st.disk part).1;
  ctxs = set st.ctxs at none;
}

module _ (env : Env) (fname : List ℕ) (bytes : AreBytes (env.base_name fname))
    (granted : env.memory.grants 0 (length fname + 16) ≡ true) where
  name_id_lem : name_id env fname ≡ ok (some (env.base_name fname, sum_of (env.base_name fname)))
  unfolding name_id
  name_id_lem = rw (granted, crc32c_lem 0 (env.base_name fname) bytes, ◌>>=◌) refl

  -- A file that is not being received: both calls return NFTP_ERR_HT, and a stop changes nothing.
  recv_unknown :
      (st : State env)
      → env.files.contains st.files (sum_of (env.base_name fname)) ≡ false
      → (recv_status st fname ≡ ok (err_ht, none, some (negsuc 0)))
        × (recv_stop st fname ≡ ok (err_ht, st))
  unfolding recv_status recv_stop
  recv_unknown st unknown =
      (rw (name_id_lem, ◌>>=◌, unknown) refl, rw (name_id_lem, ◌>>=◌, unknown) refl)

  module _ (st : State env) (at : ℕ) (ctx : Nctx) (wfname part : List ℕ)
      (t : Transfer st (sum_of (env.base_name fname)) at ctx wfname part) where
    recv_status-Transfer : recv_status st fname ≡ ok (success, some ctx.cap, some (pos ctx.nextid))
    unfolding recv_status
    recv_status-Transfer =
        rw (name_id_lem, ◌>>=◌, t.listed, t.found, or_fault, ◌>>=◌, t.object, ◌>>=◌) refl

    stop_fcb-first :
        (st' : State env) (address : ℕ) (fcb : FileCb)
        → IsDefault st' address fcb
        → stop_fcb st' (some address) ≡ ok st'
    unfolding stop_fcb release_at
    stop_fcb-first st' address fcb default =
        rw (find_fcb-first st' address st'.fcb_reg.len default.first default.some_entry, ◌>>=◌) refl

    recv_stop-Transfer :
        IsSystem env.sys
        → (address : ℕ) (fcb : FileCb) (kept : List ℕ) → ctx.fcb ≡ some address
        → IsDefault st address fcb
        → (env.files.erase st.files (sum_of (env.base_name fname))).0 ≡ true
        → stored env.sys st.disk part ≡ some kept
        → (env.sys.unlink st.disk part).0 ≡ true
        → (recv_stop st fname ≡ ok (success, stopped st (sum_of (env.base_name fname)) at part))
          × (stored env.sys (stopped st (sum_of (env.base_name fname)) at part).disk part ≡ none)
    unfolding recv_stop stop_ctx
    recv_stop-Transfer law address fcb kept own default erased there removes =
        let (gone, nothing) = file_remove_lem env.sys law st.disk part kept there removes in
        let st₂ : State env = record st {
          files = (env.files.erase st.files (sum_of (env.base_name fname))).1;
          disk = (env.sys.unlink st.disk part).1;
        } in
        let default₂ : IsDefault st₂ address fcb = record {
          object = default.object;
          first = default.first;
          some_entry = default.some_entry;
        } in
        (
          rw
              (
                name_id_lem,
                ◌>>=◌,
                t.listed,
                t.found,
                or_fault,
                ◌>>=◌,
                t.object,
                ◌>>=◌,
                ap or_fault t.saved,
                ◌>>=◌,
                t.short,
                ◌>>=◌,
                t.named,
                ◌>>=◌,
                erased,
                gone,
                gone,
              )
              (rw
                (
                  ap (stop_fcb st₂) own ∙ stop_fcb-first st₂ address fcb default₂,
                  ◌>>=◌,
                  store_lem st.ctxs at none t.known,
                  ◌>>=◌,
                )
                refl),
          nothing,
        )

    -- For a file whose transfer is in the table, `nftp_proto_recv_status` returns 0 with the number of
    -- blocks and the next one. If its part file is there and can be removed and its callback is the
    -- first entry of the registry, `nftp_proto_recv_stop` returns 0: the transfer is out of the table,
    -- its context freed and its part file gone, the registry is as before and no callback was run, and
    -- from then on both calls answer NFTP_ERR_HT for that file.
    pub recv_stop_lem :
        IsSystem env.sys
        → IsHashtable env.files
        → (address : ℕ) (fcb : FileCb) (kept : List ℕ) → ctx.fcb ≡ some address
        → IsDefault st address fcb
        → stored env.sys st.disk part ≡ some kept
        → (env.sys.unlink st.disk part).0 ≡ true
        → (recv_status st fname ≡ ok (success, some ctx.cap, some (pos ctx.nextid)))
          × (recv_stop st fname ≡ ok (success, stopped st (sum_of (env.base_name fname)) at part))
          × (stored env.sys (stopped st (sum_of (env.base_name fname)) at part).disk part ≡ none)
          × (recv_status (stopped st (sum_of (env.base_name fname)) at part) fname
              ≡ ok (err_ht, none, some (negsuc 0)))
          × (recv_stop (stopped st (sum_of (env.base_name fname)) at part) fname
              ≡ ok (err_ht, stopped st (sum_of (env.base_name fname)) at part))
    recv_stop_lem law table address fcb kept own default there removes =
        let erased = table.erases st.files (sum_of (env.base_name fname)) t.listed in
        let (stops, nothing) =
          recv_stop-Transfer law address fcb kept own default erased there removes in
        let unknown = table.forgets st.files (sum_of (env.base_name fname)) erased in
        let (none_left, refused) =
          recv_unknown (stopped st (sum_of (env.base_name fname)) at part) unknown in
        (recv_status-Transfer, stops, nothing, none_left, refused)
