-- ===== src/Proto/Sender.antt =====
-- src/proto.c: `nftp_proto_maker`, which makes the packets, and the answer to a GIVEME.
pub mod Made
pub mod Packets
pub mod Answer
pub mod Greets
use nftp_codec.Prelude.{
  ℕ, ◌+◌, ◌-◌, ◌/◌, ◌%◌, ◌^◌, List, [], ◌∷◌, ◌++◌, Option, none, some, length, true, false, ltb,
  ◌==◌, if◌then◌else◌,
}
use nftp_codec.Prelude.Int.{ℤ, pos, negsuc, as_size}
use nftp_codec.Errors.{
  Status, success, err_filepath, err_blocks, err_id, err_ht, Run, ok, fault, ◌>>=◌,
}
use nftp_codec.Mem.{or_fault}
use nftp_codec.File.{file_size, file_blocks, file_readblk}
use nftp_codec.File.Name.{full_path}
use nftp_codec.File.Write.{file_hash}
use nftp_codec.Hash.Crc32c.{crc32c}
use nftp_codec.Codec
use nftp_codec.Codec.{Nftp, Kind, hello, ack, file, end, giveme, unknown, kind_of}
use nftp_codec.Codec.Encode.{encode}
use nftp_codec.Proto.{Env, State, inserted, updated, failed}
use nftp_codec.Proto.Receiver.{Reply, refuse}

-- `nftp_alloc`; the two fields that it leaves are taken to hold 0.
unfoldable pub new_packet : Env → Status × Option Nftp
new_packet env = Codec.alloc (env.memory.grants 1 96) 0 0 env.memory.exbuf

-- The packet as far as it is filled, or the status of an early return; and the state behind it.
abbrev pub Made : Env → Type 0
Made env = Status × Option Nftp × State env

module _ {env : Env} where
  -- The key goes into the table of sent files, with a copy of the path.
  pub note_sender : State env → ℕ → List ℕ → Run (Status × State env)
  note_sender st key fpath = do
    path ← full_path none fpath
    let cleared =
        if env.senders.contains st.senderfiles key
        then (env.senders.erase st.senderfiles key).1
        else st.senderfiles
    let (how, senders) = env.senders.insert cleared key path
    let st' : State env = record st { senderfiles = senders }
    elim how [
      | inserted ↦ ok (success, st')
      | updated ↦ ok (err_ht, st')
      | failed ↦ ok (err_ht, st')
    ]

  -- The checksum of the file, and the entry for it.
  pub hash_hello : State env → Nftp → List ℕ → List ℕ → Run (Made env)
  hash_hello st p fpath fname = do
    (rv, hashcode) ← file_hash env.sys (env.memory.grants 2) st.disk fpath
    elim rv [
      | success ↦ do
        key ← crc32c 0 fname
        (rv', st') ← note_sender st key fpath
        elim rv' [
          | success ↦ ok (success, some (record p { hashcode = hashcode }), st')
          | e ↦ ok (e, none, st')
        ]
      | e ↦ ok (e, none, st)
    ]

  pub make_hello : State env → Nftp → List ℕ → List ℕ → ℤ → Run (Made env)
  make_hello st p fpath fname key = do
    let (rv, size) = file_size (env.sys.disk st.disk) fpath
    elim size [
      | none ↦ ok (rv, none, st)
      | some len ↦
          let blocks = len / st.blocksz + 1 in
          let named : Nftp = record p {
            type = 1;
            len = (14 + length fname) % 2 ^ 32;
            id = as_size key % 2 ^ 8;
            blocks = blocks;
            fname = some (fname ++ 0 ∷ []);
            namelen = length fname % 2 ^ 16;
          } in
          if st.blocksz == 0
          then fault
          else if ltb 0xffff blocks
          then ok (err_blocks, none, st)
          else hash_hello st named fpath fname
    ]

  pub make_ack : State env → Nftp → List ℕ → ℤ → Run (Made env)
  make_ack st p fname key = do
    fileid ← crc32c 0 fname
    let made : Nftp = record p { type = 2; len = 10; id = as_size key % 2 ^ 8; fileid = fileid }
    ok (success, some made, st)

  -- A block number is an int, and a FILE or END packet has one that is not negative.
  pub make_file : State env → Nftp → ℕ → List ℕ → List ℕ → ℤ → Run (Made env)
  make_file st p type fpath fname (negsuc n) = ok (err_id, none, st)
  make_file st p type fpath fname (pos n) = do
    (rv, got) ← file_readblk (env.sys.disk st.disk) (env.memory.grants 3) st.blocksz fpath (pos n)
    elim got [
      | none ↦ ok (rv, none, st)
      | some read ↦ do
        fileid ← crc32c 0 fname
        let made : Nftp = record p {
          type = type;
          len = (15 + read.1) % 2 ^ 32;
          fileid = fileid;
          blockseq = n % 2 ^ 16;
          ctlen = read.1;
          content = some read.0;
        }
        ok (success, some made, st)
    ]

  pub make_giveme : State env → Nftp → List ℕ → ℤ → Run (Made env)
  make_giveme st p fname (negsuc n) = ok (err_id, none, st)
  make_giveme st p fname (pos n) = do
    fileid ← crc32c 0 fname
    let made : Nftp = record p { type = 5; len = 11; fileid = fileid; blockseq = n % 2 ^ 16 }
    ok (success, some made, st)

  -- The switch; a type that is none of the five leaves the packet as it is.
  pub make_kind : Kind → State env → Nftp → ℕ → List ℕ → List ℕ → ℤ → ℤ → Run (Made env)
  make_kind hello st p type fpath fname key n = make_hello st p fpath fname key
  make_kind ack st p type fpath fname key n = make_ack st p fname key
  make_kind file st p type fpath fname key n = make_file st p type fpath fname n
  make_kind end st p type fpath fname key n = make_file st p type fpath fname n
  make_kind giveme st p type fpath fname key n = make_giveme st p fname n
  make_kind unknown st p type fpath fname key n = ok (success, some p, st)

  -- `nftp_encode` of the packet, with its memory.
  pub encode_made : Made env → Run (Status × Option (List ℕ) × State env)
  encode_made (rv, none, st) = ok (rv, none, st)
  encode_made (rv, some p, st) = do
    (rv', out) ← encode (env.memory.grants 4 56) env.memory.cells env.memory.buffer p
    elim out [ none ↦ ok (rv', none, st) | some bytes ↦ ok (rv', some bytes.0, st) ]

  -- What comes back is the status, the bytes in `*rmsg`, if they are written, and the state.
  pub maker : State env → Option (List ℕ) → ℕ → ℤ → ℤ → Run (Status × Option (List ℕ) × State env)
  maker st none type key n = ok (err_filepath, none, st)
  maker st (some fpath) type key n =
      let (rv, p) = new_packet env in
      let fname = env.base_name fpath in
      let made = elim p as (λ _. Run (Status × Option (List ℕ) × State env)) [
        | none ↦ ok (rv, none, st)
        | some p' ↦ do m ← make_kind (kind_of type) st p' type fpath fname key n; encode_made m
      ] in
      if env.memory.grants 0 (length fpath + 16) then made else ok (err_filepath, none, st)

  -- The answer to a GIVEME: what the maker returns is not looked at.
  unfoldable pub on_giveme : State env → Nftp → Run (Reply × State env)
  on_giveme st n = elim (env.senders.contains st.senderfiles n.fileid) [
    | false ↦ ok (refuse err_ht, st)
    | true ↦ do
      path ← or_fault (env.senders.lookup st.senderfiles n.fileid)
      (rv, got) ← file_blocks (env.sys.disk st.disk) st.blocksz path
      elim got [
        | none ↦ ok (refuse rv, st)
        | some blocks ↦ do
          let type = if n.blockseq == blocks - 1 then 4 else 3
          (rv', out, st') ← maker st (some path) type (pos n.fileid) (pos n.blockseq)
          ok (record { status = success; rmsg = out }, st')
      ]
  ]
