-- ===== src/Codec/Tests.antt =====
-- src/codec.c on a HELLO and a GIVEME packet.
use nftp_codec.Prelude.{
  ℕ, ◌<◌, ◌≤◌, ◌≢◌, List, [], ◌∷◌, Option, none, some, ◌≡◌, refl, arith, replicate, true,
  length-replicate, length,
}
use nftp_codec.Errors.{success, err_stream, err_empty, ok, fault}
use nftp_codec.Mem.{cut}
use nftp_codec.Iovs
use nftp_codec.Iovs.{Iovs, Iov}
use nftp_codec.Codec.Stream.{decode_iovs, decode_iovs-encode_iovs}
use nftp_codec.Codec.{Nftp, hello, kind_of, decode}
use nftp_codec.Codec.Encode.{Ptr, null_ptr, encode, encode_iovs, read_ptr, read_block}
use nftp_codec.Codec.Encode.Row.{piece}
use nftp_codec.Codec.Encode.Bytes.{Grants, encode-layout}
use nftp_codec.Codec.Encode.Layout.{layout, body}
use nftp_codec.Codec.Decode.{granted, decode_outcome, decoded, bytes_read}
use nftp_codec.Codec.Roundtrip.{Fits, received, decode-encode}

memory : ℕ → Option (List ℕ)
memory n = some (replicate n 0)

memory-Grants : Grants memory
unfolding memory
memory-Grants n = (replicate n 0, refl, length-replicate n 0)

abbrev cells : List (Iov Ptr)
cells = replicate 32 (piece null_ptr 0)

abbrev empty : Nftp
empty = record {
  type = 0;
  len = 0;
  id = 0;
  blocks = 0;
  blockseq = 0;
  fpath = none;
  fname = none;
  namelen = 0;
  fileid = 0;
  hashcode = 0;
  content = none;
  ctlen = 0;
  exbuf = replicate 14 0;
}

-- A HELLO for the file "a.b" of 2 blocks.
abbrev greeting : Nftp
greeting = record empty {
  type = 1;
  len = 17;
  id = 5;
  blocks = 2;
  fname = some (b'a' ∷ b'.' ∷ b'b' ∷ 0 ∷ []);
  namelen = 3;
  hashcode = 0x01020304;
}

abbrev greeting_bytes : List ℕ
greeting_bytes = 1 ∷ 0 ∷ 0 ∷ 0 ∷ 17 ∷ 5 ∷ 0 ∷ 2 ∷ 0 ∷ 3 ∷ b'a' ∷ b'.' ∷ b'b' ∷ 1 ∷ 2 ∷ 3 ∷ 4 ∷ []

greeting-Fits : Fits greeting
greeting-Fits = omega arith

program : Unit {0}
unfolding layout body kind_of read_block cut received
program = tt

encode-layout_example :
    encode true (some cells) memory greeting ≡ ok (success, some (greeting_bytes, 17))
unfolding program
encode-layout_example =
    encode-layout memory greeting cells (b'a' ∷ b'.' ∷ b'b' ∷ []) [] memory-Grants refl refl refl
      (omega arith)

decode-encode_example :
    (bytes : List ℕ) × (encode true (some cells) memory greeting
      ≡ ok (success, some (bytes, length bytes)))
    × (decode granted (some empty) (some bytes)
        ≡ ok (success, some (record greeting { ctlen = 4; content = some (1 ∷ 2 ∷ 3 ∷ 4 ∷ []) })))
unfolding program
decode-encode_example =
    decode-encode memory greeting empty cells (b'a' ∷ b'.' ∷ b'b' ∷ []) [] memory-Grants refl refl
      refl greeting-Fits refl

decode_iovs-encode_iovs_example :
    (s : Iovs Ptr) × (q : Nftp) × (w : Iovs Ptr) × (Iovs.alloc true (some cells)
      ≡ (success, some s))
    × (encode_iovs (greeting, s) ≡ ok (success, some (q, w)))
    × (decode_iovs (read_ptr q) memory granted (some empty) (some w)
        ≡ ok (success, some (record greeting { ctlen = 4; content = some (1 ∷ 2 ∷ 3 ∷ 4 ∷ []) })))
unfolding program
decode_iovs-encode_iovs_example =
    decode_iovs-encode_iovs memory greeting empty cells (b'a' ∷ b'.' ∷ b'b' ∷ []) [] memory-Grants
      refl refl refl greeting-Fits refl

-- A HELLO of ten bytes that announces a name of three.
abbrev cut_short : List ℕ
cut_short = 1 ∷ 0 ∷ 0 ∷ 0 ∷ 10 ∷ 5 ∷ 0 ∷ 2 ∷ 0 ∷ 3 ∷ []

decode_outcome_example :
    (length cut_short ≡ 0
      → decode granted (some empty) (some cut_short) ≡ ok (err_empty, some empty))
    × (0 < length cut_short
        → length cut_short < 6
        → decode granted (some empty) (some cut_short) ≡ ok (err_stream, some empty))
    × (6 ≤ length cut_short
        → length cut_short ≢ 10
        → decode granted (some empty) (some cut_short)
          ≡ ok (err_stream, some (record empty { type = 1; len = 10 })))
    × (6 ≤ length cut_short
        → length cut_short ≡ 10
        → bytes_read hello cut_short ≤ length cut_short
        → decode granted (some empty) (some cut_short)
          ≡ ok (success, some (decoded hello (record empty { type = 1; len = 10 }) cut_short)))
    × (6 ≤ length cut_short
        → length cut_short ≡ 10
        → length cut_short < bytes_read hello cut_short
        → decode granted (some empty) (some cut_short) ≡ fault)
unfolding program
decode_outcome_example = decode_outcome empty cut_short (omega arith)
