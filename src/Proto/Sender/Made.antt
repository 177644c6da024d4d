-- ===== src/Proto/Sender/Made.antt =====
-- Packets that `nftp_proto_maker` makes, as the other side decodes them.
use nftp_codec.Prelude.{
  ℕ, ◌+◌, ◌^◌, ◌<◌, List, none, some, length, true, false, Bool, ◌≡◌, refl, arith,
}
use nftp_codec.Prelude.Int.{ℤ}
use nftp_codec.Errors.{success, ok, ◌>>=◌}
use nftp_codec.Iovs.{Iov}
use nftp_codec.Hash.Bitwise.{xor_below_word}
use nftp_codec.Hash.Remainder.{AreBytes, crc_of_digits}
use nftp_codec.Hash.Crc32c.{poly}
use nftp_codec.Hash.Crc32c.Slices.{crc_of_digits-word}
use nftp_codec.Codec
use nftp_codec.Codec.{Nftp, Kind, file, end, giveme, kind_of, decode}
use nftp_codec.Codec.Decode.{granted}
use nftp_codec.Codec.Encode.{Ptr}
use nftp_codec.Codec.Encode.Bytes.{Holds, Grants}
use nftp_codec.Codec.Encode.Layout.{layout}
use nftp_codec.Codec.Roundtrip.{Fits, received, decode-encode}
use nftp_codec.Proto.{Env, State}
use nftp_codec.Proto.Receiver.Finish.{sum_of}
use nftp_codec.Proto.Sender.{new_packet, encode_made, make_kind, maker}

-- All requests for memory are met.
pub record Plenty (env : Env) : Type 0 where
  pub grants : (k n : ℕ) → env.memory.grants k n ≡ true
  pub buffer : Grants env.memory.buffer
  pub row : List (Iov Ptr)
  pub cells : env.memory.cells ≡ some row
  pub full : length row ≡ 32
  pub bytes : List ℕ
  pub exbuf : env.memory.exbuf ≡ some bytes
  pub exbuf_size : length bytes ≡ 14

-- A packet as `nftp_alloc` leaves it.
abbrev pub blank : List ℕ → Nftp
blank exbuf = record {
  type = 0;
  len = 0;
  id = 0;
  blocks = 0;
  blockseq = 0;
  fpath = none;
  fname = none;
  namelen = 0;
  fileid = 0;
  hashcode = 0;
  content = none;
  ctlen = 0;
  exbuf = exbuf;
}

-- The type of the packet with a block: END for the last one, and FILE.
abbrev pub block_type : Bool → ℕ
block_type true = 4
block_type false = 3

pub sum_of-word : (v : List ℕ) → AreBytes v → sum_of v < 2 ^ 32
sum_of-word v h =
    xor_below_word (crc_of_digits poly 0xffffffff v) 0xffffffff
      (crc_of_digits-word 0xffffffff v (omega arith) h) (omega arith)

module _ {env : Env} where
  -- A message that the maker delivers, the state behind it, and what packet `r` is after decoding it.
  abbrev pub Sends : State env → List ℕ → ℕ → ℤ → ℤ → State env → Nftp → Nftp → Type 0
  Sends st path type key n st' r arrived =
      (bytes : List ℕ) × (maker st (some path) type key n ≡ ok (success, some bytes, st'))
      × (decode granted (some r) (some bytes) ≡ ok (success, some arrived))

module _ {env : Env} (plenty : Plenty env) where
  pub new_packet_lem : new_packet env ≡ (success, some (blank plenty.bytes))
  unfolding new_packet Codec.alloc
  new_packet_lem = rw (plenty.grants 1 96, new_packet, Codec.alloc, plenty.exbuf, Codec.alloc) refl

  -- The packet that was made is whole, and can be encoded.
  pub record Whole (p : Nftp) (name content : List ℕ) : Type 0 where
    pub exbuf : length p.exbuf ≡ 14
    pub held : Holds (kind_of p.type) p name content
    pub fits : Fits p
    pub sized : p.len ≡ length (layout (kind_of p.type) p name content)

  pub maker_made :
      (st st' : State env) (path : List ℕ) (type : ℕ) (key n : ℤ) (p r : Nftp)
      (name content : List ℕ)
      → make_kind (kind_of type) st (blank plenty.bytes) type path (env.base_name path) key n
        ≡ ok (success, some p, st')
      → Whole p name content
      → Sends st path type key n st' r (received (kind_of p.type) r p name content)
  unfolding maker encode_made
  maker_made st st' path type key n p r name content made w =
      let (bytes, encoded, decoded) =
        decode-encode env.memory.buffer p r plenty.row name content plenty.buffer plenty.full
          w.exbuf w.held w.fits w.sized in
      (
        bytes,
        rw
            (
              plenty.grants 0 (length path + 16),
              maker,
              new_packet_lem,
              maker,
              made,
              ◌>>=◌,
              encode_made,
              plenty.grants 4 56,
              plenty.cells,
              encoded,
              ◌>>=◌,
            )
            refl,
        decoded,
      )
