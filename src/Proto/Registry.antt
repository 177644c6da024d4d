-- ===== src/Proto/Registry.antt =====
-- src/proto.c: `nftp_proto_register` and `nftp_proto_unregister`, and the settings.
pub mod Objects
pub mod Names
pub mod Removal
pub mod First
mod Tests
use nftp_codec.Prelude.{
  ℕ, zero, suc, ◌+◌, ◌-◌, List, [], ◌∷◌, ◌++◌, Option, none, some, length, ◌==◌, if◌then◌else◌,
}
use nftp_codec.Prelude.Int.{pos}
use nftp_codec.Errors.{Status, success, err_mem, err_filename, err_vec, err_ht, Run, ok, ◌>>=◌}
use nftp_codec.Mem.{store, or_fault, nftp_tail}
use nftp_codec.Vec.{push, get, delete}
use nftp_codec.Proto.{Env, State, FileCb, deref, same_name}

abbrev pub star : List ℕ
star = b'*' ∷ []

module _ {env : Env} where
  -- The entry of the registry at a place, with its address.
  pub entry_at : State env → ℕ → Run (Status × Option (ℕ × FileCb))
  entry_at st i = do
    (rv, got) ← get st.fcb_reg (pos i)
    elim got [
      | none ↦ ok (rv, none)
      | some address ↦ do fcb ← deref st.fcbs address; ok (rv, some (address, fcb))
    ]

  -- A new object goes to a new address; where an error frees it again, nothing is left of it.
  pub push_fcb : State env → FileCb → Run (Status × State env)
  push_fcb st fcb = do
    (rv, reg) ← push st.fcb_reg (length st.fcbs) nftp_tail
    elim rv [
      | success ↦ ok (success, record st { fcb_reg = reg; fcbs = st.fcbs ++ some fcb ∷ [] })
      | e ↦ ok (e, st)
    ]

  -- The update of '*', which is the first entry.
  pub update_star : State env → FileCb → Run (Status × State env)
  update_star st fcb = do
    (rv, got) ← entry_at st 0
    elim got [
      | none ↦ ok (rv, st)
      | some found ↦
          let (address, first) = found in
          if same_name first.fname fcb.fname
          then (do
            fcbs ← store st.fcbs address (some (record first { cb = fcb.cb; arg = fcb.arg }))
            ok (success, record st { fcbs = fcbs }))
          else ok (err_vec, st)
    ]

  -- The loop over the entries with the rounds left, from place i on: 0 if none has the name.
  pub name_free : State env → List ℕ → ℕ → ℕ → Run Status
  name_free st fname zero i = ok success
  name_free st fname (suc rounds) i = do
    (rv, got) ← entry_at st i
    let rest = name_free st fname rounds (suc i)
    elim got [
      | none ↦ ok rv
      | some found ↦ if same_name found.1.fname fname then ok err_ht else rest
    ]

  pub register_name : State env → FileCb → Run (Status × State env)
  register_name st fcb = do
    rv ← name_free st fcb.fname (st.fcb_reg.len - 1) 1
    elim rv [ success ↦ push_fcb st fcb | e ↦ ok (e, st) ]

  pub register_fcb : State env → FileCb → Run (Status × State env)
  register_fcb st fcb =
      if same_name star fcb.fname
      then (if st.fcb_reg.len == 0 then push_fcb st fcb else update_star st fcb)
      else register_name st fcb

  pub proto_register : State env → Option (List ℕ) → Option ℕ → ℕ → Run (Status × State env)
  proto_register st none cb arg = ok (err_filename, st)
  proto_register st (some fname) cb arg =
      if env.memory.grants 0 24
      then (if env.memory.grants 1 (length fname + 1)
          then register_fcb st (record { fname = fname; cb = cb; arg = arg })
          else ok (err_mem, st))
      else ok (err_mem, st)

  -- `nftp_vec_delete`, and `free` of what it delivered.
  pub delete_fcb : State env → ℕ → Run (State env)
  delete_fcb st i = do
    (rv, got, reg) ← delete st.fcb_reg (pos i)
    address ← or_fault got
    fcb ← deref st.fcbs address
    fcbs ← store st.fcbs address none
    ok (record st { fcb_reg = reg; fcbs = fcbs })

  pub unregister_from : State env → List ℕ → ℕ → ℕ → Run (Status × State env)
  unregister_from st fname zero i = ok (err_ht, st)
  unregister_from st fname (suc rounds) i = do
    (rv, got) ← entry_at st i
    let rest = unregister_from st fname rounds (suc i)
    let gone = (do st' ← delete_fcb st i; ok (success, st'))
    elim got [
      | none ↦ ok (err_vec, st)
      | some found ↦ if same_name found.1.fname fname then gone else rest
    ]

  pub proto_unregister : State env → Option (List ℕ) → Run (Status × State env)
  proto_unregister st none = ok (err_filename, st)
  proto_unregister st (some fname) =
      if same_name star fname
      then ok (err_filename, st)
      else unregister_from st fname (st.fcb_reg.len - 1) 1

  pub set_recvdir : State env → List ℕ → Status × State env
  set_recvdir st dir =
      if env.memory.grants 0 (length dir + 1)
      then (success, record st { recvdir = some dir })
      else (err_mem, st)

  pub set_blocksz : State env → ℕ → Status × State env
  set_blocksz st blksz = (success, record st { blocksz = blksz })
