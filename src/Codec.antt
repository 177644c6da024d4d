-- ===== src/Codec.antt =====
-- src/codec.c: NFTP packets. A byte is a number below 2 ^ 8, a `char *` is NULL or an allocated
-- block given by its bytes, and the bits above a field's width are cut where the code casts.
pub mod Decode
pub mod Encode
pub mod Roundtrip
pub mod Stream
mod Tests
use nftp_codec.Mem.{load, slice}
use nftp_codec.Prelude.{◌+◌, word16, word32, length, ◌++◌, [], ◌∷◌, ltb}
use nftp_codec.Iovs.{add_size, sub_size}
use nftp_codec.Errors.{err_empty, err_stream, err_type, Run, ok, ◌>>=◌}
use nftp_codec.Prelude.{ℕ, List, Option, none, some, Bool, true, false, ◌==◌, if◌then◌else◌}
use nftp_codec.Errors.{Status, success, err_mem}

-- `nftp`
pub record Nftp : Type 0 where
  pub type : ℕ
  pub len : ℕ
  pub id : ℕ
  pub blocks : ℕ
  pub blockseq : ℕ
  pub fpath : Option (List ℕ)
  pub fname : Option (List ℕ)
  pub namelen : ℕ
  pub fileid : ℕ
  pub hashcode : ℕ
  pub content : Option (List ℕ)
  pub ctlen : ℕ
  pub exbuf : List ℕ

-- `NFTP_TYPE_HELLO` and the other packet types, as the switches of the code take them apart.
pub data Kind : Type 0 where
  hello ack file end giveme unknown : Kind

unfoldable pub kind_of : ℕ → Kind
kind_of n =
    if n == 0x01
    then hello
    else if n == 0x02
    then ack
    else if n == 0x03
    then file
    else if n == 0x04
    then end
    else if n == 0x05
    then giveme
    else unknown

-- `malloc` answers for the struct, whose fields `len` and `blockseq` keep what the memory held, and
-- for the 14 bytes of `exbuf`.
unfoldable pub alloc : Bool → ℕ → ℕ → Option (List ℕ) → Status × Option Nftp
alloc false len blockseq exbuf = (err_mem, none)
alloc true len blockseq none = (err_mem, none)
alloc true len blockseq (some exbuf) = (
  success,
  some (record {
    type = 0;
    len = len;
    id = 0;
    blocks = 0;
    blockseq = blockseq;
    fpath = none;
    fname = none;
    namelen = 0;
    fileid = 0;
    hashcode = 0;
    content = none;
    ctlen = 0;
    exbuf = exbuf;
  }),
)

-- `nftp_get_u16(v + at, …)` and `nftp_get_u32(v + at, …)`
unfoldable pub get_u16 : List ℕ → ℕ → Run ℕ
get_u16 v at = do a ← load v at; b ← load v (at + 1); ok (word16 a b)

pub get_u32 : List ℕ → ℕ → Run ℕ
get_u32 v at = do
  a ← load v at
  b ← load v (at + 1)
  c ← load v (at + 2)
  d ← load v (at + 3)
  ok (word32 a b c d)

-- `v` is the `len` bytes of the message, so that a read behind them faults. `malloc` says whether
-- the first and the second request of a call, of the given size, is granted.
module _ (malloc : ℕ → ℕ → Bool) where
  pub decode_hello : Nftp → List ℕ → Run (Status × Nftp)
  decode_hello p v = do
    id ← load v 5
    blocks ← get_u16 v 6
    namelen ← get_u16 v 8
    let p₁ : Nftp = record p { id = id; blocks = blocks; namelen = namelen }
    elim (malloc 0 (1 + namelen)) [
      | false ↦ ok (err_mem, record p₁ { fname = none })
      | true ↦ do
        name ← slice v 10 namelen
        let ctlen = sub_size p.len (10 + namelen)
        let p₂ : Nftp = record p₁ { fname = some (name ++ 0 ∷ []); ctlen = ctlen }
        elim (malloc 1 ctlen) [
          | false ↦ ok (err_mem, record p₂ { content = none })
          | true ↦ do
            content ← slice v (10 + namelen) ctlen
            hashcode ← get_u32 content 0
            ok (success, record p₂ { content = some content; hashcode = hashcode })
        ]
    ]

  pub decode_ack : Nftp → List ℕ → Run (Status × Nftp)
  decode_ack p v = do
    id ← load v 5
    fileid ← get_u32 v 6
    ok (success, record p { id = id; fileid = fileid })

  pub decode_file : Nftp → List ℕ → Run (Status × Nftp)
  decode_file p v = do
    fileid ← get_u32 v 5
    blockseq ← get_u16 v 9
    ctlen ← get_u32 v 11
    let p₁ : Nftp = record p { fileid = fileid; blockseq = blockseq; ctlen = ctlen }
    elim (malloc 0 ctlen) [
      | false ↦ ok (err_mem, record p₁ { content = none })
      | true ↦ do content ← slice v 15 ctlen; ok (success, record p₁ { content = some content })
    ]

  pub decode_giveme : Nftp → List ℕ → Run (Status × Nftp)
  decode_giveme p v = do
    fileid ← get_u32 v 5
    blockseq ← get_u16 v 9
    ok (success, record p { fileid = fileid; blockseq = blockseq })

  -- The switch over the type.
  pub decode_kind : Kind → Nftp → List ℕ → Run (Status × Nftp)
  decode_kind hello p v = decode_hello p v
  decode_kind ack p v = decode_ack p v
  decode_kind file p v = decode_file p v
  decode_kind end p v = decode_file p v
  decode_kind giveme p v = decode_giveme p v
  decode_kind unknown p v = ok (err_type, p)

  pub decode_some : Nftp → List ℕ → Run (Status × Nftp)
  decode_some p v =
      if length v == 0
      then ok (err_empty, p)
      else if ltb (length v) 6
      then ok (err_stream, p)
      else (do
        type ← load v 0
        len ← get_u32 v 1
        let p₁ : Nftp = record p { type = type; len = len }
        let rest = decode_kind (kind_of type) p₁ v
        if length v == len then rest else ok (err_stream, p₁))

  -- `if (!p || !v || !len) return (NFTP_ERR_EMPTY);`
  pub decode : Option Nftp → Option (List ℕ) → Run (Status × Option Nftp)
  decode none v = ok (err_empty, none)
  decode (some p) none = ok (err_empty, some p)
  decode (some p) (some v) = do (status, q) ← decode_some p v; ok (status, some q)
