-- ===== src/Proto/Exchange/Tests.antt =====
-- A file of three bytes is sent in two blocks.
use nftp_codec.Prelude.{ℕ, zero, suc, ◌≤◌, List, [], ◌∷◌, some, none, ◌≡◌, refl, arith}
use nftp_codec.Errors.{success, ok}
use nftp_codec.Mem.{load}
use nftp_codec.File.Name.{full_path}
use nftp_codec.File.Write.{stored, file_write, write_out}
use nftp_codec.File.Write.Memory.{put, same_path, memory_system, memory_system-IsSystem}
use nftp_codec.Proto.{State, deref}
use nftp_codec.Proto.Receiver.Finish.{sum_of}
use nftp_codec.Codec.{Nftp, decode}
use nftp_codec.Codec.Decode.{granted}
use nftp_codec.Proto.{Nctx}
use nftp_codec.Proto.Sender.{on_giveme}
use nftp_codec.Proto.Sender.Answer.{Offers, on_giveme_lem}
use nftp_codec.Proto.Sender.Greets.{noted-Offers}
use nftp_codec.Proto.Handler.{on_hello}
use nftp_codec.Proto.Handler.Begun.{Begun, Acked}
use nftp_codec.Proto.Handler.Greeting.{on_hello_lem}
use nftp_codec.Proto.Sender.Made.{blank}
use nftp_codec.Proto.Sender.Packets.{arrived}
use nftp_codec.Proto.Sender.Greets.{Announces}
use nftp_codec.Proto.World.{world, world-Plenty, quiet}
use nftp_codec.Proto.Exchange.{send_file}
use nftp_codec.Proto.Exchange.Complete.{Works, Welcomes, send_file-Delivered}
use nftp_codec.Proto.Example.{table-IsHashtable, appends, fcb_star, name_f}
use mathlib.Core.List.{Memᴰ}
use mathlib.Core.List.Memᴰ.{not-nil}
use native.Mathlib.Decide.{ℕ_discrete}

world-Works : Works world world
world-Works = record {
  system = memory_system-IsSystem;
  system' = memory_system-IsSystem;
  files = table-IsHashtable ℕ;
  senders = table-IsHashtable (List ℕ);
  plenty = world-Plenty;
  plenty' = world-Plenty;
}

abbrev abc : List ℕ
abc = b'a' ∷ b'b' ∷ b'c' ∷ []

abbrev sender : State world
sender = quiet (put (λ path. none) name_f (some abc))

abbrev receiver : State world
receiver = quiet (λ path. none)

sender-Announces : Announces sender name_f name_f abc
unfolding put same_path ℕ_discrete
sender-Announces = record {
  ready = record {
    found = refl;
    opened = refl;
    reading = λ n m file. refl;
    granted = λ n. refl;
    some_bytes = omega arith;
    small = omega arith;
  };
  base = refl;
  named = omega arith;
  short = omega arith;
  fits = omega arith;
  few = omega arith;
  bytes = omega arith;
}

receiver-Welcomes : Welcomes receiver name_f abc name_f fcb_star []
unfolding put same_path ℕ_discrete deref load full_path file_write write_out
receiver-Welcomes = record {
  vacant = record { short = omega arith; room = omega arith; new = refl; writes = refl };
  registered = record {
    valid = record {
      cells = refl;
      low_in = omega arith;
      len_in = omega arith;
      small = omega arith;
    };
    objects = (refl, tt);
    distinct = (tt, tt);
  };
  plain = refl;
  free = refl;
  name = (λ same. absurd (omega arith), tt);
  base = refl;
  unknown = refl;
  entered = refl;
  appends = appends (b'f' ∷ b'.' ∷ b'p' ∷ b'a' ∷ b'r' ∷ b't' ∷ []);
  able = record {
    named = refl;
    moves = λ d there. refl;
    opens = λ d there. refl;
    granted = refl;
    bytes = omega arith;
  };
}

abbrev backwards : List ℕ
backwards = 1 ∷ 0 ∷ []

backwards-inside : (j : ℕ) → Memᴰ j backwards → j ≤ 1
backwards-inside j (Memᴰ.head e) = omega arith
backwards-inside j (Memᴰ.tail (Memᴰ.head e)) = omega arith
backwards-inside j (Memᴰ.tail (Memᴰ.tail m)) = absurd (not-nil m)

backwards-all : (j : ℕ) → j ≤ 1 → Memᴰ j backwards
backwards-all zero h = Memᴰ.tail (Memᴰ.head refl)
backwards-all (suc zero) h = Memᴰ.head refl
backwards-all (suc (suc j)) h = absurd (omega arith)

send_file-Delivered_example :
    (st : State world) × (send_file sender receiver name_f name_f backwards
      ≡ ok (record { status = success; rmsg = some name_f }, st))
    × (stored memory_system st.disk name_f ≡ some abc)
    × (st.ran ≡ (3, 8) ∷ [])
send_file-Delivered_example =
    send_file-Delivered world-Works sender receiver name_f name_f abc name_f fcb_star []
      sender-Announces refl receiver-Welcomes backwards backwards-inside backwards-all

-- The sender when its HELLO was made, and the GIVEME for its last block.
abbrev offering : State world
offering = record sender { senderfiles = (sum_of name_f, name_f) ∷ [] }

offering-Offers : Offers offering name_f name_f abc
unfolding put same_path ℕ_discrete
offering-Offers =
    noted-Offers memory_system-IsSystem (table-IsHashtable (List ℕ)) world-Plenty sender name_f
      name_f abc sender-Announces refl

on_giveme_lem_example :
    (m : List ℕ) × (on_giveme offering
        (record (blank []) { type = 5; len = 11; fileid = sum_of name_f; blockseq = 1 })
      ≡ ok (record { status = success; rmsg = some m }, offering))
    × (decode granted (some (blank [])) (some m)
        ≡ ok (success, some (arrived world-Plenty (blank []) 4 name_f 1 (b'c' ∷ []))))
on_giveme_lem_example =
    on_giveme_lem world-Plenty offering name_f name_f abc offering-Offers 1 (omega arith)
      (omega arith) (blank [])
      (record (blank []) { type = 5; len = 11; fileid = sum_of name_f; blockseq = 1 }) refl refl

-- A HELLO for a file of two blocks.
abbrev greeting : Nftp
greeting = record (blank []) {
  type = 1;
  len = 15;
  id = 9;
  blocks = 2;
  fname = some (b'f' ∷ 0 ∷ []);
  namelen = 1;
  hashcode = 77;
}

on_hello_lem_example :
    (st : State world) × (at : ℕ) × (ctx : Nctx) × (address : ℕ) × Acked greeting name_f
      (blank [])
      st
      (on_hello receiver greeting)
    × Begun receiver greeting name_f fcb_star at ctx address st
on_hello_lem_example =
    on_hello_lem memory_system-IsSystem (table-IsHashtable ℕ) world-Plenty receiver greeting name_f
      (blank []) fcb_star [] (omega arith) receiver-Welcomes.vacant receiver-Welcomes.registered
      refl refl refl receiver-Welcomes.name (omega arith) refl refl
