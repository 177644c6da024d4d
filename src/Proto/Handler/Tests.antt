-- ===== src/Proto/Handler/Tests.antt =====
-- src/proto.c: a HELLO for "f", of which the first block is there.
use nftp_codec.Prelude.{ℕ, [], ◌∷◌, some, none, false, ◌≡◌, refl, ap, eq→==, arith}
use nftp_codec.Errors.{err_ht, ok}
use nftp_codec.Mem.{load}
use nftp_codec.File.Name.{full_path}
use nftp_codec.File.Write.{stored, file_write, write_out}
use nftp_codec.File.Write.Memory.{put, same_path, memory_system, memory_system-IsSystem}
use nftp_codec.Hash.Remainder.{crc_of_digits, shift_out_all, shift_out}
use nftp_codec.Codec.{Nftp}
use nftp_codec.Proto.{State, deref, part_name}
use nftp_codec.Proto.Registry.Names.{Registered}
use nftp_codec.Proto.Receiver.{refuse}
use nftp_codec.Proto.Receiver.Finish.{sum_of}
use nftp_codec.Proto.Receiver.Steps.{Transfer}
use nftp_codec.Proto.Sender.Made.{blank}
use nftp_codec.Proto.Handler.{on_hello}
use nftp_codec.Proto.Handler.Repeated.{on_hello-again}
use nftp_codec.Proto.Example.{
  is_there, find, table, table-IsHashtable, fcb_star, name_f, begun, f_part,
}
use nftp_codec.Proto.World.{world, world-Plenty, quiet}
use native.Mathlib.Decide.{ℕ_discrete}

abbrev half : State world
half = record (quiet (put (λ path. none) f_part (some (b'a' ∷ [])))) {
  files = (sum_of name_f, 0) ∷ [];
  fcb_reg = record { cap = 2; len = 2; low = 0; vec = 0 ∷ 1 ∷ [] };
  fcbs = some fcb_star ∷ some (record fcb_star { fname = name_f }) ∷ [];
  ctxs = some begun ∷ [];
}

found : find {V = ℕ} ((sum_of name_f, 0) ∷ []) (sum_of name_f) ≡ some 0
found = rw (eq→== (sum_of name_f) (sum_of name_f) refl) refl

half-Transfer : Transfer half (sum_of name_f) 0 begun name_f f_part
unfolding deref load part_name full_path
half-Transfer = record {
  listed = ap (λ got. is_there got) found;
  found = found;
  object = refl;
  known = omega arith;
  saved = refl;
  name = f_part;
  short = refl;
  named = refl;
}

half-Registered : Registered half (fcb_star ∷ record fcb_star { fname = name_f } ∷ [])
unfolding deref load
half-Registered = record {
  valid = record { cells = refl; low_in = omega arith; len_in = omega arith; small = omega arith };
  objects = (refl, (refl, tt));
  distinct = ((λ same. absurd (omega arith), tt), (tt, tt));
}

greeting : Nftp
greeting = record (blank []) {
  type = 1;
  len = 15;
  blocks = 3;
  fname = some (b'f' ∷ 0 ∷ []);
  namelen = 1;
}

unknown_id : (table ℕ).contains half.files 0 ≡ false
unfolding crc_of_digits shift_out_all shift_out
unknown_id = refl

on_hello-again_example :
    (st : State world) × (on_hello half greeting ≡ ok (refuse err_ht, st))
    × (stored memory_system st.disk f_part ≡ some [])
unfolding greeting put same_path ℕ_discrete file_write write_out
on_hello-again_example =
    on_hello-again memory_system-IsSystem (table-IsHashtable ℕ) world-Plenty half greeting name_f
      (fcb_star ∷ record fcb_star { fname = name_f } ∷ []) 0 1 begun half-Transfer
      (record { short = omega arith; room = omega arith; new = refl; writes = refl })
      half-Registered refl refl (λ same. absurd (omega arith), tt) (omega arith) unknown_id
