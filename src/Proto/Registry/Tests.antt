-- ===== src/Proto/Registry/Tests.antt =====
-- The registry of src/proto.c with two entries.
use nftp_codec.Proto.Shutdown.{proto_fini}
use nftp_codec.Proto.Example.{done}
use nftp_codec.Proto.Shutdown.Live.{AllFree}
use nftp_codec.Proto.Shutdown.Freed.{proto_fini_lem}
use nftp_codec.Prelude.{zero, suc, length, ap, some-eq, ℕ, List, none}
use nftp_codec.Vec.{alloc, cells_for}
use nftp_codec.Proto.Handler.{proto_init}
use nftp_codec.Proto.Handler.Init.{proto_init_lem}
use nftp_codec.Proto.Receiver.{run_fcb}
use nftp_codec.Proto.Receiver.Callback.{Released, run_fcb_lem}
use nftp_codec.Prelude.{[], ◌∷◌, some, ◌≡◌, refl, arith}
use nftp_codec.Errors.{success, ok}
use nftp_codec.Mem.{load}
use nftp_codec.Proto.{State, deref}
use nftp_codec.Proto.Registry.{proto_register, proto_unregister}
use nftp_codec.Proto.Registry.Names.{Registered, Added, proto_register_lem}
use nftp_codec.Proto.Registry.Removal.{proto_unregister_lem}
use nftp_codec.Proto.Example.{env, fcb_star, last_state, fcb_g}

abbrev room_state : State env
room_state = record last_state { fcb_reg = record { cap = 2; len = 1; low = 0; vec = 0 ∷ 0 ∷ [] } }

room_state-Registered : Registered room_state (fcb_star ∷ [])
unfolding deref load
room_state-Registered = record {
  valid = record { cells = refl; low_in = omega arith; len_in = omega arith; small = omega arith };
  objects = (refl, tt);
  distinct = (tt, tt);
}

proto_register_lem_example :
    Added room_state (fcb_star ∷ []) fcb_g (proto_register room_state (some (b'g' ∷ [])) (some 4) 1)
proto_register_lem_example =
    ((proto_register_lem room_state fcb_star [] fcb_g room_state-Registered refl refl refl).1
        refl).1
      (λ full. absurd (omega arith))

abbrev two_state : State env
two_state = record last_state {
  fcb_reg = record { cap = 2; len = 2; low = 1; vec = 1 ∷ 0 ∷ [] };
  fcbs = some fcb_star ∷ some fcb_g ∷ [];
}

two_state-Registered : Registered two_state (fcb_star ∷ fcb_g ∷ [])
unfolding deref load
two_state-Registered = record {
  valid = record { cells = refl; low_in = omega arith; len_in = omega arith; small = omega arith };
  objects = (refl, (refl, tt));
  distinct = ((λ same. absurd (omega arith), tt), (tt, tt));
}

proto_unregister_lem_example :
    (st : State env) × (proto_unregister two_state (some (b'g' ∷ [])) ≡ ok (success, st))
    × Registered st (fcb_star ∷ [])
proto_unregister_lem_example =
    (proto_unregister_lem two_state fcb_star (fcb_g ∷ []) (b'g' ∷ []) two_state-Registered refl).1
      refl

run_fcb_lem_example :
    Released two_state (fcb_star ∷ fcb_g ∷ []) 1 1 fcb_g (run_fcb two_state (some 1))
unfolding deref load
run_fcb_lem_example =
    (run_fcb_lem two_state (fcb_star ∷ fcb_g ∷ []) two_state-Registered 1 1 fcb_g refl refl).1
      (omega arith)

-- `malloc` gives cells that hold 0.
abbrev zeros : ℕ → List ℕ
zeros zero = []
zeros (suc n) = 0 ∷ zeros n

length-zeros : (n : ℕ) → length (zeros n) ≡ n
length-zeros zero = refl
length-zeros (suc n) = ap suc (length-zeros n)

proto_init_lem_example :
    (st : State env) × (proto_init (λ n. some (zeros n)) [] [] last_state ≡ ok (success, st))
    × Registered st (record { fname = b'*' ∷ []; cb = none; arg = 0 } ∷ [])
    × (st.files ≡ [])
    × (st.senderfiles ≡ [])
unfolding alloc cells_for
proto_init_lem_example =
    proto_init_lem (λ n. some (zeros n)) [] [] last_state
      (record { cap = 32; len = 0; low = 8; vec = zeros 32 })
      (λ n b got. rw (← some-eq got) (length-zeros n)) refl refl refl refl

proto_fini_lem_example :
    (st : State env) × (proto_fini two_state ≡ ok (success, st))
    × (st.fcb_reg.len ≡ 0)
    × (st.fcbs ≡ none ∷ none ∷ [])
    × AllFree st.fcbs (0 ∷ 1 ∷ [])
    × (st.ctxs ≡ none ∷ [])
    × AllFree st.ctxs (0 ∷ [])
    × (st.recvdir ≡ none)
unfolding deref load
proto_fini_lem_example =
    proto_fini_lem two_state (fcb_star ∷ fcb_g ∷ []) two_state-Registered ((done, refl), tt, tt)
