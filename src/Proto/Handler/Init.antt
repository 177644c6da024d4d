-- ===== src/Proto/Handler/Init.antt =====
-- The registry that `nftp_proto_init` leaves.
use nftp_codec.Prelude.{
  ℕ, ◌+◌, List, [], ◌∷◌, ◌++◌, Option, none, some, length, true, ◌≡◌, refl, arith,
}
use nftp_codec.Prelude.Int.{pos}
use nftp_codec.Errors.{success, ok, ◌>>=◌}
use nftp_codec.Vec
use nftp_codec.Vec.{Vec, cells_for}
use nftp_codec.Vec.Valid.{alloc-IsValid}
use nftp_codec.Proto.{Env, State}
use nftp_codec.Proto.Registry.{star}
use nftp_codec.Proto.Registry.Names.{Registered}
use nftp_codec.Proto.Registry.First.{register_star}
use nftp_codec.Proto.Handler.{proto_init}

-- If memory is granted, `nftp_proto_init` returns 0 and leaves a registry with one entry, for '*',
-- without a callback, and the two tables that it was given.
pub proto_init_lem :
    {env : Env} (malloc : ℕ → Option (List ℕ)) (files : env.files.Table)
    (senders : env.senders.Table) (st : State env) (v : Vec ℕ)
    → ((n : ℕ) (b : List ℕ) → malloc n ≡ some b → length b ≡ n)
    → env.memory.grants 0 64 ≡ true
    → Vec.alloc true malloc (pos 32) ≡ (success, some v)
    → env.memory.grants 0 24 ≡ true
    → env.memory.grants 1 (length star + 1) ≡ true
    → (st' : State env) × (proto_init malloc files senders st ≡ ok (success, st'))
      × Registered st' (record { fname = star; cb = none; arg = 0 } ∷ [])
      × (st'.files ≡ files)
      × (st'.senderfiles ≡ senders)
unfolding proto_init cells_for
proto_init_lem {env} malloc files senders st v sized g made g₀ g₁ =
    let (valid, empty, _) = alloc-IsValid 0 malloc (pos 32) sized (omega arith) made in
    let st₀ : State env = record st { fcb_reg = v } in
    let (reg, run, now, _) = register_star st₀ valid empty none 0 g₀ g₁ in
    (
      record st₀ {
        fcb_reg = reg;
        fcbs = st.fcbs ++ some (record { fname = star; cb = none; arg = 0 }) ∷ [];
        files = files;
        senderfiles = senders;
      },
      rw (proto_init, g, made, run, ◌>>=◌) refl,
      record { valid = now.valid; objects = now.objects; distinct = now.distinct },
      refl,
      refl,
    )
