-- ===== src/Proto/Transfers/Tests.antt =====
-- src/proto.c: a transfer that is stopped.
use nftp_codec.Prelude.{ℕ, [], ◌∷◌, some, none, ◌≡◌, refl, ap, eq→==, arith}
use nftp_codec.Prelude.Int.{pos, negsuc}
use nftp_codec.Errors.{success, err_ht, ok}
use nftp_codec.Mem.{load}
use nftp_codec.Vec.{get}
use nftp_codec.File.Name.{full_path}
use nftp_codec.File.Write.{stored}
use nftp_codec.File.Write.Memory.{put, same_path, memory_system, memory_system-IsSystem}
use nftp_codec.Proto.{State, deref, part_name}
use nftp_codec.Proto.Receiver.Finish.{sum_of}
use nftp_codec.Proto.Receiver.Steps.{Transfer}
use nftp_codec.Proto.Transfers.{recv_status, recv_stop}
use nftp_codec.Proto.Transfers.Stopped.{stopped, recv_stop_lem}
use nftp_codec.Proto.Example.{
  is_there, find, table-IsHashtable, env, fcb_star, name_f, begun, f_part, first_state,
}
use native.Mathlib.Decide.{ℕ_discrete}

-- The transfer of "f" under the id of its name.
abbrev known_state : State env
known_state = record first_state { files = (sum_of name_f, 0) ∷ [] }

found_there : find {V = ℕ} ((sum_of name_f, 0) ∷ []) (sum_of name_f) ≡ some 0
found_there = rw (eq→== (sum_of name_f) (sum_of name_f) refl) refl

known_state-Transfer : Transfer known_state (sum_of name_f) 0 begun name_f f_part
unfolding deref load part_name full_path
known_state-Transfer = record {
  listed = ap (λ got. is_there got) found_there;
  found = found_there;
  object = refl;
  known = omega arith;
  saved = refl;
  name = f_part;
  short = refl;
  named = refl;
}

recv_stop_lem_example :
    (recv_status known_state name_f ≡ ok (success, some 3, some (pos 0)))
    × (recv_stop known_state name_f ≡ ok (success, stopped known_state (sum_of name_f) 0 f_part))
    × (stored memory_system (stopped known_state (sum_of name_f) 0 f_part).disk f_part ≡ none)
    × (recv_status (stopped known_state (sum_of name_f) 0 f_part) name_f
        ≡ ok (err_ht, none, some (negsuc 0)))
    × (recv_stop (stopped known_state (sum_of name_f) 0 f_part) name_f
        ≡ ok (err_ht, stopped known_state (sum_of name_f) 0 f_part))
unfolding put same_path ℕ_discrete deref load get
recv_stop_lem_example =
    recv_stop_lem env name_f (omega arith) refl known_state 0 begun name_f f_part
      known_state-Transfer memory_system-IsSystem (table-IsHashtable ℕ) 0 fcb_star [] refl
      (record { object = refl; first = refl; some_entry = omega arith }) refl refl
