-- ===== src/Proto/Sender/Greets.antt =====
-- The HELLO of a file, and the file's entry in the table of files to send.
use nftp_codec.Prelude.{
  ℕ, ◌+◌, ◌/◌, ◌%◌, ◌^◌, ◌<◌, List, [], ◌∷◌, ◌++◌, some, length, if◌then◌else◌, ◌≡◌, refl, ap, ◌∙◌,
  arith, ne→==, le→ltb, le→leb, length-append, take-append, be32,
}
use nftp_codec.Prelude.Int.{ℤ, pos, as_size}
use nftp_codec.Errors.{success, ok, ◌>>=◌}
use nftp_codec.Mem.{cut}
use nftp_codec.File.Name.{full_path}
use nftp_codec.File.Blocks.{Ready, size_lem}
use nftp_codec.File.Write.{IsSystem}
use nftp_codec.File.Write.Changes.{file_hash_lem}
use nftp_codec.Hash.Remainder.{AreBytes}
use nftp_codec.Hash.Crc32c.Slices.{crc32c_lem}
use nftp_codec.Codec.{Nftp, hello, kind_of}
use nftp_codec.Codec.Encode.{read_block}
use nftp_codec.Codec.Encode.Layout.{layout, body}
use nftp_codec.Codec.Roundtrip.{received}
use nftp_codec.Proto.{Env, State, IsHashtable, inserted}
use nftp_codec.Proto.Receiver.Finish.{sum_of}
use nftp_codec.Proto.Sender.{note_sender, hash_hello, make_hello, make_kind}
use nftp_codec.Proto.Sender.Made.{Plenty, Sends, blank, sum_of-word, maker_made}
use nftp_codec.Proto.Sender.Answer.{Offers}

pub read_block_front :
    (name : List ℕ) (n : ℕ) → length name ≡ n → read_block (some (name ++ 0 ∷ [])) n ≡ some name
unfolding read_block cut
read_block_front name n e =
    rw (le→leb (0 + n) (length (name ++ 0 ∷ [])) (omega (arith, length-append name (0 ∷ []))))
      (ap some (take-append n name (0 ∷ []) e))

module _ {env : Env} where
  -- A file that can be announced: it can be read, it has at most 65535 blocks, and its path and its
  -- name fit.
  pub record Announces (st : State env) (path fname sent : List ℕ) : Type 0 where
    pub ready : Ready (env.sys.disk st.disk) (env.memory.grants 3) st.blocksz path sent
    pub base : env.base_name path ≡ fname
    pub named : AreBytes fname
    pub short : length fname < 2 ^ 16
    pub fits : length path < 320
    pub few : length sent / st.blocksz < 0xffff
    pub bytes : AreBytes sent

  -- The table without the entry that stood under the key, and with the new one.
  abbrev pub cleared : State env → ℕ → env.senders.Table
  cleared st key =
      if env.senders.contains st.senderfiles key
      then (env.senders.erase st.senderfiles key).1
      else st.senderfiles

  abbrev pub noted : State env → ℕ → List ℕ → State env
  noted st key path = record st { senderfiles = (env.senders.insert (cleared st key) key path).1 }

module _ {env : Env} (law : IsSystem env.sys) (table : IsHashtable env.senders)
    (plenty : Plenty env) (st : State env) (path fname sent : List ℕ)
    (file : Announces st path fname sent)
    (new : (env.senders.insert (cleared st (sum_of fname)) (sum_of fname) path).0 ≡ inserted) where
  note_sender_lem : note_sender st (sum_of fname) path ≡ ok (success, noted st (sum_of fname) path)
  unfolding note_sender full_path
  note_sender_lem = rw (le→leb (length path + 1) 320 (omega (arith, file.fits)), ◌>>=◌, new) refl

  hash_hello_lem :
      (p : Nftp)
      → hash_hello st p path fname
        ≡ ok (success, some (record p { hashcode = sum_of sent }), noted st (sum_of fname) path)
  unfolding hash_hello
  hash_hello_lem p =
      rw
        (
          (file_hash_lem env.sys law (env.memory.grants 2) st.disk path).1 sent file.ready.found
              file.ready.opened (plenty.grants 2 (length sent)) file.bytes,
          ◌>>=◌,
          crc32c_lem 0 fname file.named,
          ◌>>=◌,
          note_sender_lem,
          ◌>>=◌,
        )
        refl

  -- The HELLO as it is made.
  abbrev pub hello_packet : ℤ → Nftp
  hello_packet key = record (blank plenty.bytes) {
    type = 1;
    len = 14 + length fname;
    id = as_size key % 2 ^ 8;
    blocks = length sent / st.blocksz + 1;
    fname = some (fname ++ 0 ∷ []);
    namelen = length fname;
    hashcode = sum_of sent;
  }

  made_hello :
      (key : ℤ)
      → make_hello st (blank plenty.bytes) path fname key
        ≡ ok (success, some (hello_packet key), noted st (sum_of fname) path)
  unfolding make_hello
  made_hello key =
      let size : (14 + length fname) % 2 ^ 32 ≡ 14 + length fname = omega (arith, file.short) in
      let name : length fname % 2 ^ 16 ≡ length fname = omega (arith, file.short) in
      rw
        (
          size_lem (env.sys.disk st.disk) (env.memory.grants 3) st.blocksz path sent file.ready,
          make_hello,
          ne→== st.blocksz 0 (omega (arith, file.ready.some_bytes)),
          le→ltb 0xffff (length sent / st.blocksz + 1) (omega (arith, file.few)),
          size,
          name,
          hash_hello_lem (record (hello_packet key) { hashcode = 0 }),
        )
        refl

  pub maker_hello :
      (key : ℤ) (r : Nftp)
      → Sends st path 1 key
          (pos 0)
          (noted st (sum_of fname) path)
          r
          (received hello r (hello_packet key) fname [])
  unfolding make_kind received layout body kind_of
  maker_hello key r =
      maker_made plenty st (noted st (sum_of fname) path) path 1 key (pos 0) (hello_packet key) r
        fname []
        (ap (λ f. make_hello st (blank plenty.bytes) path f key) file.base ∙ made_hello key)
        (record {
          exbuf = plenty.exbuf_size;
          held = read_block_front fname (length fname) refl;
          fits = record {
            len = omega (arith, file.short);
            blocks = omega (arith, file.few);
            blockseq = omega arith;
            namelen = file.short;
            fileid = omega arith;
            hashcode = sum_of-word sent file.bytes;
            ctlen = omega arith;
          };
          sized = omega (arith, length-append fname (be32 (sum_of sent)));
        })

  -- Behind it the file is offered.
  pub noted-Offers : Offers (noted st (sum_of fname) path) path fname sent
  noted-Offers =
      let (listed, found) = table.inserts (cleared st (sum_of fname)) (sum_of fname) path new in
      record {
        listed = listed;
        found = found;
        base = file.base;
        named = file.named;
        ready = file.ready;
      }
