-- ===== src/Proto/Tests.antt =====
-- src/proto.c on a file of three blocks.
use nftp_codec.Prelude.{
  ℕ, Bool, inr, zero, suc, ◌<◌, List, [], ◌∷◌, none, some, false, ◌≡◌, refl, arith,
}
use nftp_codec.Errors.{success, ok}
use nftp_codec.File.Write.Memory.{put, same_path, memory_system, memory_system-IsSystem}
use nftp_codec.Proto.{nctx_alloc, new_nctx}
use nftp_codec.Proto.Blocks.{block_in}
use nftp_codec.Proto.Blocks.Receiving.{Taken}
use nftp_codec.Proto.Blocks.Reassembly.{block_in_lem}
use nftp_codec.Proto.Blocks.Order.{Whole, blocks_in, received-Whole, new-Receiving}
use mathlib.Core.List.{Memᴰ}
use mathlib.Core.List.Memᴰ.{not-nil}
use nftp_codec.Mem.{load}
use nftp_codec.Vec.{get}
use nftp_codec.File.Name.{full_path}
use nftp_codec.Hash.Remainder.{crc_of_digits, shift_out_all, shift_out}
use nftp_codec.Proto.{deref}
use nftp_codec.Proto.Receiver.{finish}
use nftp_codec.Proto.Receiver.Finish.{Ends, IsDefault, forgotten, finish_lem}
use nftp_codec.Codec.{Nftp}
use nftp_codec.Proto.{part_name, empty_entries}
use nftp_codec.Proto.Blocks.Receiving.{up_to}
use nftp_codec.Proto.Receiver.Steps.{Transfer, Carries, on_file-outside}
use nftp_codec.Proto.Receiver.Stream.{packets_in}
use nftp_codec.Proto.Receiver.Delivery.{Finishable, Delivered, packets_in-Delivered}
use nftp_codec.Errors.{fault}
use nftp_codec.Proto.Receiver.{on_file}
use nftp_codec.Codec.{kind_of}
use nftp_codec.Codec.Decode.{bytes_read}
use nftp_codec.Errors.{err_ht}
use nftp_codec.Proto.Receiver.{refuse}
use nftp_codec.Proto.Handler.{handler}
use nftp_codec.Proto.Handler.Strangers.{handler_strange}
use nftp_codec.Proto.World.{quiet, world-Plenty}
use nftp_codec.Prelude.{true, ◌≢◌}
use nftp_codec.Mem.{cut}
use nftp_codec.Errors.{err_type}
use nftp_codec.Codec.{hello, decode}
use nftp_codec.Codec.Decode.{granted}
use nftp_codec.Codec.Encode.{read_block}
use nftp_codec.Codec.Encode.Layout.{layout, body}
use nftp_codec.Codec.Roundtrip.{received}
use nftp_codec.Proto.Peek.{hello_get_fname, hello_get_fname_lem}
use native.Mathlib.Decide.{ℕ_discrete}
use nftp_codec.Proto.Example.{
  part, letter, memory, disk, appends, order, fcb_star, done, last_state, name_f, begun, f_part,
  first_state,
}

order-below : (j : ℕ) → Memᴰ j order → j < 3
order-below j (Memᴰ.head e) = omega arith
order-below j (Memᴰ.tail (Memᴰ.head e)) = omega arith
order-below j (Memᴰ.tail (Memᴰ.tail (Memᴰ.head e))) = omega arith
order-below j (Memᴰ.tail (Memᴰ.tail (Memᴰ.tail (Memᴰ.head e)))) = omega arith
order-below j (Memᴰ.tail (Memᴰ.tail (Memᴰ.tail (Memᴰ.tail m)))) = absurd (not-nil m)

order-all : (j : ℕ) → j < 3 → Memᴰ j order
order-all zero h = Memᴰ.tail (Memᴰ.head refl)
order-all (suc zero) h = Memᴰ.head refl
order-all (suc (suc zero)) h = Memᴰ.tail (Memᴰ.tail (Memᴰ.tail (Memᴰ.head refl)))
order-all (suc (suc (suc j))) h = absurd (omega arith)

received-Whole_example :
    Whole memory_system part letter 3
      (blocks_in memory_system part letter order (new_nctx 3 7 9) disk)
unfolding put same_path ℕ_discrete nctx_alloc
received-Whole_example =
    received-Whole memory_system memory_system-IsSystem part letter (appends part) memory 3 7 9
      (new_nctx 3 7 9) disk order refl refl order-below order-all

block_in_lem_example :
    Taken memory_system part letter
      (new_nctx 3 7 9)
      1
      (block_in memory_system part (new_nctx 3 7 9) 1 (some (letter 1)) 1 disk)
unfolding put same_path ℕ_discrete
block_in_lem_example =
    block_in_lem memory_system memory_system-IsSystem part letter (appends part) (new_nctx 3 7 9)
      disk (new-Receiving memory_system part letter 3 disk refl) 1 (omega arith) (omega arith)

last_state-Ends : Ends last_state 0 name_f part name_f (b'a' ∷ b'b' ∷ b'c' ∷ [])
unfolding put same_path ℕ_discrete full_path
last_state-Ends = record {
  known = omega arith;
  named = refl;
  there = refl;
  moves = refl;
  opens = refl;
  granted = refl;
  bytes = omega arith;
}

last_state-IsDefault : IsDefault last_state 0 fcb_star
unfolding deref load get
last_state-IsDefault = record { object = refl; first = refl; some_entry = omega arith }

finish_lem_example :
    finish last_state 0 done name_f part
    ≡ ok (
      record { status = success; rmsg = some name_f },
      forgotten last_state 0 done part name_f fcb_star,
    )
unfolding crc_of_digits shift_out_all shift_out
finish_lem_example =
    (finish_lem memory_system-IsSystem last_state 0 done name_f part name_f
        (b'a' ∷ b'b' ∷ b'c' ∷ []) last_state-Ends 0 fcb_star refl last_state-IsDefault refl).2
      refl

first_state-Transfer : Transfer first_state 7 0 begun name_f f_part
unfolding deref load part_name full_path
first_state-Transfer = record {
  listed = refl;
  found = refl;
  object = refl;
  known = omega arith;
  saved = refl;
  name = f_part;
  short = refl;
  named = refl;
}

first_state-Finishable : Finishable first_state name_f f_part name_f (up_to letter 3)
unfolding full_path
first_state-Finishable = record {
  named = refl;
  moves = λ d there. refl;
  opens = λ d there. refl;
  granted = refl;
  bytes = omega arith;
}

-- A FILE packet with a block.
abbrev packet : ℕ → Bool × Nftp
packet j = (
  false,
  record {
    type = 3;
    len = 16;
    id = 0;
    blocks = 0;
    blockseq = j;
    fpath = none;
    fname = none;
    namelen = 0;
    fileid = 7;
    hashcode = 0;
    content = some (letter j);
    ctlen = 1;
    exbuf = [];
  },
)

packet-Carries : (j : ℕ) → Carries letter 7 (packet j).1
packet-Carries j = record { for_file = refl; content = refl; size = refl }

packets_in-Delivered_example :
    Delivered first_state begun name_f name_f
      (up_to letter 3)
      fcb_star
      (packets_in first_state (packet 1 ∷ packet 0 ∷ packet 1 ∷ packet 2 ∷ []))
unfolding put same_path ℕ_discrete deref load get empty_entries
packets_in-Delivered_example =
    packets_in-Delivered memory_system-IsSystem f_part name_f name_f letter (appends f_part) 7 0
      (packet 1 ∷ packet 0 ∷ packet 1 ∷ packet 2 ∷ []) first_state begun 0 fcb_star
      first_state-Transfer (new-Receiving memory_system f_part letter 3 first_state.disk refl)
      (omega arith) first_state-Finishable refl
      (record { object = refl; first = refl; some_entry = omega arith }) refl
      (packet-Carries 1, (packet-Carries 0, (packet-Carries 1, (packet-Carries 2, tt)))) order-below
      (λ j room. inr (order-all j room))

on_file-outside_example : on_file first_state false (packet 5).1 ≡ fault
unfolding deref load empty_entries
on_file-outside_example =
    on_file-outside first_state false (packet 5).1 7 0 begun name_f f_part first_state-Transfer refl
      refl (omega arith) (λ same. absurd (omega arith))

-- A GIVEME for block 1 of the file 9.
abbrev giveme_bytes : List ℕ
giveme_bytes = 5 ∷ 0 ∷ 0 ∷ 0 ∷ 11 ∷ 0 ∷ 0 ∷ 0 ∷ 9 ∷ 0 ∷ 1 ∷ []

abbrev empty_packet : Nftp
empty_packet = record {
  type = 0;
  len = 0;
  id = 0;
  blocks = 0;
  blockseq = 0;
  fpath = none;
  fname = none;
  namelen = 0;
  fileid = 0;
  hashcode = 0;
  content = none;
  ctlen = 0;
  exbuf = [];
}

handler_strange_example : handler (quiet disk) giveme_bytes ≡ ok (refuse err_ht, quiet disk)
unfolding kind_of bytes_read
handler_strange_example =
    ((handler_strange world-Plenty (quiet disk) giveme_bytes (omega arith)).4 (omega arith) refl
        (omega arith)).3
      refl refl

-- The HELLO of the file "f", in two blocks.
abbrev greeting : Nftp
greeting = record empty_packet {
  type = 1;
  len = 15;
  blocks = 2;
  fname = some (b'f' ∷ 0 ∷ []);
  namelen = 1;
  hashcode = 7;
}

hello_get_fname_lem_example :
    (hello_get_fname (λ n. true) (layout hello greeting name_f [])
      ≡ ok (success, some (b'f' ∷ 0 ∷ [], 1)))
    × (decode granted (some empty_packet) (some (layout hello greeting name_f []))
        ≡ ok (success, some (received hello empty_packet greeting name_f [])))
    × ((type : ℕ) (rest : List ℕ)
        → type ≢ 1
        → hello_get_fname (λ n. true) (type ∷ rest) ≡ ok (err_type, none))
unfolding read_block cut layout body
hello_get_fname_lem_example =
    hello_get_fname_lem (λ n. true) greeting empty_packet name_f refl
      (λ same. absurd (omega arith), tt) refl (omega arith) refl refl
