-- ===== src/Proto/Sender/Packets.antt =====
-- The ACK, GIVEME, FILE and END packets that `nftp_proto_maker` makes.
use nftp_codec.Prelude.{
  ℕ, ◌+◌, ◌%◌, ◌^◌, ◌<◌, List, some, length, true, false, Bool, [], ◌≡◌, refl, arith,
}
use nftp_codec.Prelude.Int.{ℤ, pos, as_size}
use nftp_codec.Errors.{success, ok, ◌>>=◌}
use nftp_codec.File.{file_readblk}
use nftp_codec.Hash.Remainder.{AreBytes}
use nftp_codec.Hash.Crc32c.Slices.{crc32c_lem}
use nftp_codec.Codec.{Nftp, file, kind_of}
use nftp_codec.Codec.Encode.Layout.{layout, body}
use nftp_codec.Codec.Roundtrip.{Fits, received}
use nftp_codec.Proto.{Env, State}
use nftp_codec.Proto.Blocks.Receiving.{read_block_all}
use nftp_codec.Proto.Receiver.Finish.{sum_of}
use nftp_codec.Proto.Sender.{make_ack, make_file, make_giveme, make_kind}
use nftp_codec.Proto.Sender.Made.{Plenty, blank, block_type, sum_of-word, Sends, maker_made}

module _ {env : Env} (plenty : Plenty env) where
  -- The packet with block n of the file.
  abbrev pub block_packet : ℕ → List ℕ → ℕ → List ℕ → Nftp
  block_packet type fname n part = record (blank plenty.bytes) {
    type = type;
    len = 15 + length part;
    fileid = sum_of fname;
    blockseq = n;
    ctlen = length part;
    content = some part;
  }

  -- What the other side's packet holds when it has decoded that one.
  abbrev pub arrived : Nftp → ℕ → List ℕ → ℕ → List ℕ → Nftp
  arrived r type fname n part = received file r (block_packet type fname n part) [] part

  module _ (st : State env) (path fname : List ℕ) (base : env.base_name path ≡ fname)
      (named : AreBytes fname) (n : ℕ) (short : n < 2 ^ 16) (r : Nftp) where
    -- An ACK, whose id is the key's last byte.
    pub maker_ack :
        (key : ℤ)
        → Sends st path 2 key
            (pos n)
            st
            r
            (record r { type = 2; len = 10; id = as_size key % 2 ^ 8; fileid = sum_of fname })
    unfolding make_kind make_ack received layout body kind_of
    maker_ack key =
        let p : Nftp = record (blank plenty.bytes) {
          type = 2;
          len = 10;
          id = as_size key % 2 ^ 8;
          fileid = sum_of fname;
        } in
        let made : make_ack st (blank plenty.bytes) (env.base_name path) key
            ≡ ok (success, some p, st) =
          rw (base, make_ack, crc32c_lem 0 fname named, ◌>>=◌) refl in
        maker_made plenty st st path 2 key (pos n) p r [] [] made (record {
          exbuf = plenty.exbuf_size;
          held = tt;
          fits = record {
            len = omega arith;
            blocks = omega arith;
            blockseq = omega arith;
            namelen = omega arith;
            fileid = sum_of-word fname named;
            hashcode = omega arith;
            ctlen = omega arith;
          };
          sized = refl;
        })

    -- A GIVEME for a block.
    pub maker_giveme :
        (key : ℤ)
        → Sends st path 5 key
            (pos n)
            st
            r
            (record r { type = 5; len = 11; fileid = sum_of fname; blockseq = n })
    unfolding make_kind make_giveme received layout body kind_of
    maker_giveme key =
        let p : Nftp = record (blank plenty.bytes) {
          type = 5;
          len = 11;
          fileid = sum_of fname;
          blockseq = n;
        } in
        let word : n % 2 ^ 16 ≡ n = omega (arith, short) in
        let made : make_giveme st (blank plenty.bytes) (env.base_name path) (pos n)
            ≡ ok (success, some p, st) =
          rw (base, make_giveme, crc32c_lem 0 fname named, ◌>>=◌, word) refl in
        maker_made plenty st st path 5 key (pos n) p r [] [] made (record {
          exbuf = plenty.exbuf_size;
          held = tt;
          fits = record {
            len = omega arith;
            blocks = omega arith;
            blockseq = short;
            namelen = omega arith;
            fileid = sum_of-word fname named;
            hashcode = omega arith;
            ctlen = omega arith;
          };
          sized = refl;
        })

    module _ (content : List ℕ) (small : length content < 2 ^ 31)
        (read : file_readblk (env.sys.disk st.disk) (env.memory.grants 3) st.blocksz path (pos n)
          ≡ ok (success, some (content, length content))) where
      made_file :
          (type : ℕ)
          → make_file st (blank plenty.bytes) type path (env.base_name path) (pos n)
            ≡ ok (success, some (block_packet type fname n content), st)
      unfolding make_file
      made_file type =
          let word : n % 2 ^ 16 ≡ n = omega (arith, short) in
          let size : (15 + length content) % 2 ^ 32 ≡ 15 + length content = omega (arith, small) in
          rw (read, base, ◌>>=◌, make_file, crc32c_lem 0 fname named, ◌>>=◌, word, size) refl

      block_packet-Fits : (type : ℕ) → Fits (block_packet type fname n content)
      block_packet-Fits type = record {
        len = omega (arith, small);
        blocks = omega arith;
        blockseq = short;
        namelen = omega arith;
        fileid = sum_of-word fname named;
        hashcode = omega arith;
        ctlen = omega (arith, small);
      }

      -- A FILE packet, or an END packet, with a block.
      pub maker_block :
          (last : Bool) (key : ℤ)
          → Sends st path
              (block_type last)
              key
              (pos n)
              st
              r
              (arrived r (block_type last) fname n content)
      unfolding make_kind received layout body kind_of
      maker_block true key =
          maker_made plenty st st path 4 key (pos n) (block_packet 4 fname n content) r [] content
            (made_file 4)
            (record {
              exbuf = plenty.exbuf_size;
              held = read_block_all content;
              fits = block_packet-Fits 4;
              sized = omega arith;
            })
      maker_block false key =
          maker_made plenty st st path 3 key (pos n) (block_packet 3 fname n content) r [] content
            (made_file 3)
            (record {
              exbuf = plenty.exbuf_size;
              held = read_block_all content;
              fits = block_packet-Fits 3;
              sized = omega arith;
            })
