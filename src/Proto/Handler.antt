-- ===== src/Proto/Handler.antt =====
-- src/proto.c: `nftp_proto_handler`, with what it does with a HELLO packet, and `nftp_proto_init`.
pub mod Init
pub mod Strangers
pub mod Messages
pub mod Callbacks
pub mod Begun
pub mod Opening
pub mod Greeting
pub mod Repeated
mod Tests
use nftp_codec.Prelude.{
  ℕ, zero, suc, ◌+◌, List, [], ◌∷◌, ◌++◌, Option, none, some, length, true, false, if◌then◌else◌,
}
use nftp_codec.Prelude.Int.{pos, eq_int}
use nftp_codec.Errors.{Status, success, err_mem, err_ht, Run, ok, fault, ◌>>=◌}
use nftp_codec.Mem.{or_fault, nftp_tail}
use nftp_codec.Vec
use nftp_codec.Vec.{Vec, get}
use nftp_codec.Iter.{Iter, vec_iter, vec_iter_next}
use nftp_codec.File.Name.{full_path, file_newname}
use nftp_codec.File.Write.{file_exist, file_write}
use nftp_codec.Hash.Crc32c.{crc32c}
use nftp_codec.Codec.{Nftp, Kind, hello, ack, file, end, giveme, unknown, kind_of, decode}
use nftp_codec.Proto.{
  Env, State, Nctx, inserted, updated, failed, status_hello, deref, c_string, same_name, part_name,
  nctx_alloc,
}
use nftp_codec.Proto.Registry.{proto_register, star}
use nftp_codec.Proto.Receiver.{Reply, refuse, on_file, put_ctx}
use nftp_codec.Proto.Sender.{maker, new_packet, on_giveme}

module _ {env : Env} where
  -- The loop over the iterator with the rounds left: the last callback that has the name.
  pub callback_for : State env → List ℕ → ℕ → Iter ℕ → Option ℕ → Run (Option ℕ)
  callback_for st fname zero it found = fault
  callback_for st fname (suc rounds) it found = elim (eq_int it.key nftp_tail) [
    | true ↦ ok found
    | false ↦ do
      address ← or_fault it.val
      fcb ← deref st.fcbs address
      next ← vec_iter_next st.fcb_reg it
      callback_for st fname rounds next (if same_name fcb.fname fname then some address else found)
  ]

  -- If there is none, the first callback, which is also registered under the name; what that returns
  -- is not looked at.
  pub default_callback : State env → List ℕ → Option ℕ → Run (ℕ × State env)
  default_callback st fname (some address) = ok (address, st)
  default_callback st fname none = do
    (rv, got) ← get st.fcb_reg (pos 0)
    address ← or_fault got
    fcb ← deref st.fcbs address
    (rv', st') ← proto_register st (some fname) fcb.cb fcb.arg
    ok (address, st')

  -- The name to save under, which is NULL if no new name is found, or none if `malloc` refuses.
  pub saved_name : State env → List ℕ → ℕ → Run (Option (Option (List ℕ)))
  saved_name st fname namelen = do
    path ← full_path st.recvdir fname
    elim (file_exist env.sys st.disk path) [
      | true ↦ do
        (rv, name) ←
            file_newname (file_exist env.sys st.disk) (env.memory.grants 4 (length fname + 4)) fname
              st.recvdir
        ok (some name)
      | false ↦ ok (if env.memory.grants 5 (namelen + 1) then some (some fname) else none)
    ]

  -- The context goes into the table, and the answer is an ACK; what the maker returns is not looked at.
  pub enter_ctx : State env → Nftp → List ℕ → Nctx → Run (Reply × State env)
  enter_ctx st n fname ctx =
      let at = length st.ctxs in
      let (how, files) = env.files.insert st.files ctx.fileid at in
      let greeted : Nctx = record ctx { status = some status_hello } in
      let entered : State env = record st { files = files; ctxs = st.ctxs ++ some ctx ∷ [] } in
      elim how as (λ _. Run (Reply × State env)) [
        | inserted ↦ do
          st' ← put_ctx entered at greeted
          (rv, out, st'') ← maker st' (some fname) 2 (pos n.id) (pos 0)
          ok (record { status = success; rmsg = out }, st'')
        | updated ↦ ok (refuse err_ht, entered)
        | failed ↦ ok (refuse err_ht, entered)
      ]

  -- The part file is made, empty.
  pub open_part : State env → Nftp → List ℕ → Nctx → Option (List ℕ) → Run (Reply × State env)
  open_part st n fname ctx wfname = do
    saved ← or_fault wfname
    name ← part_name saved
    part ← full_path st.recvdir name
    let (rv, disk) = file_write env.sys st.disk part []
    let st' : State env = record st { disk = disk }
    elim rv [
      | success ↦ enter_ctx st' n fname (record ctx { wfname = some saved })
      | e ↦ ok (refuse e, st')
    ]

  -- Without memory for the iterator its key is read through NULL.
  pub on_hello : State env → Nftp → Run (Reply × State env)
  on_hello st n = do
    block ← or_fault n.fname
    fname ← c_string block
    fileid ← crc32c 0 fname
    ctx ← or_fault (nctx_alloc env.memory n.blocks fileid n.hashcode)
    elim (env.files.contains st.files n.fileid) [
      | true ↦ ok (refuse err_ht, st)
      | false ↦ do
        iter ← or_fault (if env.memory.grants 3 48 then some vec_iter else none)
        first ← vec_iter_next st.fcb_reg iter
        found ← callback_for st fname (suc st.fcb_reg.len) first none
        (address, st') ← default_callback st fname found
        wfname ← saved_name st' fname n.namelen
        elim wfname [
          | none ↦ ok (refuse err_mem, st')
          | some name ↦ open_part st' n fname (record ctx { fcb = some address }) name
        ]
    ]

  pub handle : Kind → State env → Nftp → Run (Reply × State env)
  handle hello st n = on_hello st n
  handle ack st n = ok (refuse success, st)
  handle file st n = on_file st false n
  handle end st n = on_file st true n
  handle giveme st n = on_giveme st n
  handle unknown st n = ok (refuse success, st)

  pub handler : State env → List ℕ → Run (Reply × State env)
  handler st msg =
      let (rv, p) = new_packet env in
      elim p as (λ _. Run (Reply × State env)) [
        | none ↦ ok (refuse rv, st)
        | some p' ↦ do
          (rv', q) ← decode (λ k. env.memory.grants (6 + k)) (some p') (some msg)
          n ← or_fault q
          elim rv' as (λ _. Run (Reply × State env)) [
            | success ↦ handle (kind_of n.type) st n
            | e ↦ ok (refuse e, st)
          ]
      ]

  -- `st` is what the static variables hold before: `recvdir` and `blocksz` stay.
  pub proto_init :
      (ℕ → Option (List ℕ))
      → env.files.Table
      → env.senders.Table
      → State env
      → Run (Status × State env)
  proto_init malloc files senders st =
      let (rv, reg) = Vec.alloc (env.memory.grants 0 64) malloc (pos 32) in
      elim reg as (λ _. Run (Status × State env)) [
        | none ↦ ok (rv, st)
        | some v ↦ do
          (rv', st') ← proto_register (record st { fcb_reg = v }) (some star) none 0
          elim rv' as (λ _. Run (Status × State env)) [
            | success ↦ ok (success, record st' { files = files; senderfiles = senders })
            | e ↦ ok (e, st')
          ]
      ]
