-- ===== src/Proto/Registry/First.antt =====
-- The first entry, which `nftp_proto_init` puts into a new registry.
use nftp_codec.Prelude.{ℕ, ◌+◌, [], Option, some, length, true, eq→==, ◌≡◌, sym, ap, ◌∙◌, arith}
use nftp_codec.Vec.Valid.{IsValid, contents, length-contents}
use nftp_codec.Proto.{Env, State, FileCb}
use nftp_codec.Proto.Registry.{star, register_fcb, proto_register}
use nftp_codec.Proto.Registry.Names.{Registered, Added, push_room}

module _ {env : Env} (st : State env) (valid : IsValid st.fcb_reg)
    (empty : contents 0 st.fcb_reg ≡ []) where
  no_entries : st.fcb_reg.len ≡ 0
  no_entries = sym (length-contents 0 st.fcb_reg) ∙ ap (λ q. length q) empty

  empty-Registered : Registered st []
  empty-Registered = record { valid = valid; objects = rw (empty) tt; distinct = rw (empty) tt }

  pub register_star :
      (cb : Option ℕ) (arg : ℕ)
      → env.memory.grants 0 24 ≡ true
      → env.memory.grants 1 (length star + 1) ≡ true
      → Added st []
          (record { fname = star; cb = cb; arg = arg })
          (proto_register st (some star) cb arg)
  unfolding proto_register register_fcb
  register_star cb arg g₀ g₁ =
      let first : FileCb = record { fname = star; cb = cb; arg = arg } in
      rw (g₀, g₁, eq→== st.fcb_reg.len 0 no_entries)
        (push_room st [] first empty-Registered (omega (arith, no_entries, valid.low_in)))
