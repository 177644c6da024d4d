-- ===== src/Codec/Roundtrip.antt =====
-- `nftp_decode` after `nftp_encode`.
use nftp_codec.Prelude.{
  true, ℕ, ◌+◌, ◌-◌, ◌^◌, ◌≤◌, ◌<◌, List, [], ◌∷◌, ◌++◌, Option, some, length, drop, length-append,
  take-append, drop-append, drop-drop, take_all, ◌≡◌, refl, sym, ◌∙◌, arith, be32, word16-be16,
  word32-be32,
}
use nftp_codec.Errors.{success, ok}
use nftp_codec.Iovs.{Iov}
use nftp_codec.Codec.{Nftp, Kind, hello, ack, file, end, giveme, unknown, kind_of, decode}
use nftp_codec.Codec.Encode.{Ptr, encode}
use nftp_codec.Codec.Encode.Bytes.{Holds, Grants, encode-layout, length-read_block}
use nftp_codec.Codec.Encode.Layout.{layout, body}
use nftp_codec.Codec.Decode.{granted, bytes_read, decoded, verdict, decode_outcome}

-- The fields of a packet fit their C types.
pub record Fits (p : Nftp) : Type 0 where
  pub len : p.len < 2 ^ 32
  pub blocks : p.blocks < 2 ^ 16
  pub blockseq : p.blockseq < 2 ^ 16
  pub namelen : p.namelen < 2 ^ 16
  pub fileid : p.fileid < 2 ^ 32
  pub hashcode : p.hashcode < 2 ^ 32
  pub ctlen : p.ctlen < 2 ^ 32

-- What the receiver's packet `r` holds after it decoded `p`: the fields that the type carries, the
-- name as a C string, and of a HELLO the checksum's bytes as its content.
unfoldable pub received : Kind → Nftp → Nftp → List ℕ → List ℕ → Nftp
received hello r p name content = record r {
  type = p.type;
  len = p.len;
  id = p.id;
  blocks = p.blocks;
  namelen = p.namelen;
  fname = some (name ++ 0 ∷ []);
  ctlen = 4;
  content = some (be32 p.hashcode);
  hashcode = p.hashcode;
}
received ack r p name content = record r {
  type = p.type;
  len = p.len;
  id = p.id;
  fileid = p.fileid;
}
received giveme r p name content = record r {
  type = p.type;
  len = p.len;
  fileid = p.fileid;
  blockseq = p.blockseq;
}
received unknown r p name content = record r { type = p.type; len = p.len }
received _ r p name content = record r {
  type = p.type;
  len = p.len;
  fileid = p.fileid;
  blockseq = p.blockseq;
  ctlen = p.ctlen;
  content = some content;
}

-- The message as the decoder sees it.
abbrev header : Nftp → Nftp → Nftp
header r p = record r { type = p.type; len = p.len }

abbrev Arrives : Kind → Nftp → Nftp → List ℕ → List ℕ → Type 0
Arrives kind r p name content =
    let v = layout kind p name content in
    (bytes_read kind v ≤ length v) × (decoded kind (header r p) v ≡ received kind r p name content)

module _ (r p : Nftp) (name content : List ℕ) (fits : Fits p) where
  giveme-Arrives : Arrives giveme r p name content
  unfolding layout body bytes_read decoded received
  giveme-Arrives =
      (omega arith, rw (word32-be32 p.fileid fits.fileid, word16-be16 p.blockseq fits.blockseq))

  ack-Arrives : Arrives ack r p name content
  unfolding layout body bytes_read decoded received
  ack-Arrives = (omega arith, rw (word32-be32 p.fileid fits.fileid))

  file-Arrives : length content ≡ p.ctlen → Arrives file r p name content
  unfolding layout body bytes_read decoded received
  file-Arrives sized = (
    rw (word32-be32 p.ctlen fits.ctlen) (omega arith),
    rw (
      word32-be32 p.fileid fits.fileid,
      word16-be16 p.blockseq fits.blockseq,
      word32-be32 p.ctlen fits.ctlen,
      take_all p.ctlen content (omega arith),
    ),
  )

  -- An END packet is read as a FILE packet is.
  end-Arrives : length content ≡ p.ctlen → Arrives end r p name content
  unfolding layout body bytes_read decoded received
  end-Arrives sized = file-Arrives sized

  hello-Arrives : length name ≡ p.namelen → Arrives hello r p name content
  unfolding layout body bytes_read decoded received
  hello-Arrives sized =
      let v = layout hello p name content in
      let size : length v ≡ 14 + p.namelen = ground (arith, length-append name (be32 p.hashcode)) in
      let rest : drop (10 + p.namelen) v ≡ be32 p.hashcode =
        sym (drop-drop 10 p.namelen v) ∙ drop-append p.namelen name (be32 p.hashcode) sized in
      let left : length v - (10 + p.namelen) ≡ 4 = omega (arith, size) in
      (
        rw (word16-be16 p.namelen fits.namelen) (omega (arith, size)),
        rw (
          word16-be16 p.blocks fits.blocks,
          word16-be16 p.namelen fits.namelen,
          rest,
          left,
          word32-be32 p.hashcode fits.hashcode,
          take-append p.namelen name (be32 p.hashcode) sized,
        ),
      )

  kind-Arrives : (kind : Kind) → Holds kind p name content → Arrives kind r p name content
  kind-Arrives hello held = hello-Arrives (length-read_block p.fname p.namelen name held)
  kind-Arrives ack held = ack-Arrives
  kind-Arrives file held = file-Arrives (length-read_block p.content p.ctlen content held)
  kind-Arrives end held = end-Arrives (length-read_block p.content p.ctlen content held)
  kind-Arrives giveme held = giveme-Arrives
  kind-Arrives unknown held = absurd held

known :
    (kind : Kind) (p : Nftp) (name content : List ℕ)
    → Holds kind p name content
    → verdict kind ≡ success
known hello p name content held = refl
known ack p name content held = refl
known file p name content held = refl
known end p name content held = refl
known giveme p name content held = refl
known unknown p name content held = absurd held

least :
    (kind : Kind) (p : Nftp) (name content v : List ℕ)
    → Holds kind p name content
    → 6 ≤ bytes_read kind v
unfolding bytes_read
least hello p name content v held = omega arith
least ack p name content v held = omega arith
least file p name content v held = omega arith
least end p name content v held = omega arith
least giveme p name content v held = omega arith
least unknown p name content v held = absurd held

-- The layout of a packet is decoded to the fields that its type carries.
pub decode-layout :
    (p r : Nftp) (name content : List ℕ)
    → Holds (kind_of p.type) p name content
    → Fits p
    → p.len ≡ length (layout (kind_of p.type) p name content)
    → decode granted (some r) (some (layout (kind_of p.type) p name content))
      ≡ ok (success, some (received (kind_of p.type) r p name content))
unfolding layout
decode-layout p r name content held fits whole =
    let kind = kind_of p.type in
    let v = layout kind p name content in
    let (enough, same) = kind-Arrives r p name content fits kind held in
    let word = word32-be32 p.len fits.len in
    rw (← same, ← known kind p name content held)
      (rw word at (
        (decode_outcome r v (omega (arith, fits.len))).3
          (omega (arith, least kind p name content v held)) (rw word (sym whole)) enough))

-- A packet of one of the five types survives the wire. If its fields fit their C types, its length
-- field is the length of its layout, `exbuf` has its 14 bytes, the name or content that it sends is
-- there in its announced length, and memory is granted, then `nftp_encode` returns 0 and some bytes,
-- and `nftp_decode` of these returns 0 and puts exactly the fields that the type carries into the
-- receiver's packet, whatever that held before.
pub decode-encode :
    (malloc : ℕ → Option (List ℕ)) (p r : Nftp) (cells : List (Iov Ptr)) (name content : List ℕ)
    → Grants malloc
    → length cells ≡ 32
    → length p.exbuf ≡ 14
    → Holds (kind_of p.type) p name content
    → Fits p
    → p.len ≡ length (layout (kind_of p.type) p name content)
    → (bytes : List ℕ) × (encode true (some cells) malloc p
        ≡ ok (success, some (bytes, length bytes)))
      × (decode granted (some r) (some bytes)
          ≡ ok (success, some (received (kind_of p.type) r p name content)))
decode-encode malloc p r cells name content grants full exbuf held fits whole = (
  layout (kind_of p.type) p name content,
  encode-layout malloc p cells name content grants full exbuf held (omega (arith, fits.len, whole)),
  decode-layout p r name content held fits whole,
)
