-- ===== src/Codec/Encode/Bytes.antt =====
-- What `nftp_encode` makes of a packet.
use nftp_codec.Prelude.{
  ℕ, ◌^◌, ◌<◌, List, [], ◌∷◌, Option, none, some, length, get_or, tabulate, ◌≡◌, ap, ◌∙◌, arith,
  true, list_eq_tabulate, eq→==,
}
use nftp_codec.Errors.{success, err_type, ok}
use nftp_codec.Mem.{length-cut}
use nftp_codec.Iovs.{Iovs, Iov, iovs2stream}
use nftp_codec.Iovs
use nftp_codec.Iovs.Valid.{contents}
use nftp_codec.Iovs.Stream.{join, length-join, iovs2stream_lem}
use nftp_codec.Codec.{Nftp, Kind, hello, ack, file, end, giveme, unknown, kind_of}
use nftp_codec.Codec.Encode.{
  Ptr, null_ptr, id_ptr, type_ptr, fname_ptr, content_ptr, exbuf_ptr, read_ptr, read_block,
  encode_switch, encode_iovs, encode_stream, encode, encode_row,
}
use nftp_codec.Codec.Encode.Row.{IsRow, alloc-IsRow}
use nftp_codec.Codec.Encode.Layout.{
  Encodes, layout, encode_hello_lem, encode_ack_lem, encode_file_lem, encode_giveme_lem,
}

-- The blocks that a kind of packet sends: a HELLO its name, a FILE or END its content.
abbrev pub Holds : Kind → Nftp → List ℕ → List ℕ → Type 0
Holds hello p name content = read_block p.fname p.namelen ≡ some name
Holds ack p name content = Unit
Holds giveme p name content = Unit
Holds unknown p name content = ⊥
Holds _ p name content = read_block p.content p.ctlen ≡ some content

kind-Encodes :
    (kind : Kind) (p : Nftp) (g : ℕ → ℕ) {s : Iovs Ptr} (name content : List ℕ)
    → IsRow 10 [] s
    → Holds kind p name content
    → Encodes kind p g s name content
kind-Encodes hello p g name content row h = encode_hello_lem p g row name content h
kind-Encodes ack p g name content row h = encode_ack_lem p g row name content
kind-Encodes file p g name content row h = (encode_file_lem p g row name content h).0
kind-Encodes end p g name content row h = (encode_file_lem p g row name content h).1
kind-Encodes giveme p g name content row h = encode_giveme_lem p g row name content
kind-Encodes unknown p g name content row h = absurd h

pub length-read_block :
    (block : Option (List ℕ)) (n : ℕ) (b : List ℕ) → read_block block n ≡ some b → length b ≡ n
unfolding read_block
length-read_block none n b h = absurd (cc h)
length-read_block (some block) n b h = length-cut block 0 n b h

length-read_ptr :
    (p : Nftp) (ptr : Ptr) (n : ℕ) (b : List ℕ) → read_ptr p ptr n ≡ some b → length b ≡ n
unfolding read_ptr
length-read_ptr p null_ptr n b h = absurd (cc h)
length-read_ptr p id_ptr n b h = length-cut (p.id ∷ []) 0 n b h
length-read_ptr p type_ptr n b h = length-cut (p.type ∷ []) 0 n b h
length-read_ptr p fname_ptr n b h = length-read_block p.fname n b h
length-read_ptr p content_ptr n b h = length-read_block p.content n b h
length-read_ptr p (exbuf_ptr k) n b h = length-cut p.exbuf k n b h

-- A `malloc` that grants every request.
abbrev pub Grants : (ℕ → Option (List ℕ)) → Type 0
Grants malloc = (n : ℕ) → (b : List ℕ) × (malloc n ≡ some b) × (length b ≡ n)

-- The row that `nftp_encode_iovs` makes of a packet reads as the packet's layout.
pub encode_iovs-layout :
    (malloc : ℕ → Option (List ℕ)) (p : Nftp) (cells : List (Iov Ptr)) (name content : List ℕ)
    → Grants malloc
    → length cells ≡ 32
    → length p.exbuf ≡ 14
    → Holds (kind_of p.type) p name content
    → length (layout (kind_of p.type) p name content) < 2 ^ 64
    → let bytes = layout (kind_of p.type) p name content in
      (s : Iovs Ptr) × (q : Nftp) × (w : Iovs Ptr) × (Iovs.alloc true (some cells)
        ≡ (success, some s))
      × (encode_iovs (p, s) ≡ ok (success, some (q, w)))
      × (iovs2stream (read_ptr q) malloc w ≡ ok (success, some (bytes, length bytes)))
unfolding encode_iovs
encode_iovs-layout malloc p cells name content grants full exbuf held small =
    let kind = kind_of p.type in
    let (s, made, row, empty) = alloc-IsRow cells full in
    let (q, w, pieces, run, ends, reads) =
      kind-Encodes kind p (λ k. get_or p.exbuf k 0) name content row held in
    let (buf, given, sized) = grants w.iolen in
    let same : p.exbuf ≡ tabulate 14 (λ k. get_or p.exbuf k 0) =
      list_eq_tabulate 0 p.exbuf 14 exbuf in
    let read : join (read_ptr q) (contents null_ptr w) ≡ some (layout kind p name content) =
      ap (join (read_ptr q)) ends.holds ∙ reads in
    let size = length-join (read_ptr q) (length-read_ptr q) (contents null_ptr w) read in
    (
      s,
      q,
      w,
      made,
      rw (eq→== s.len 0 empty, encode_iovs)
          (ap (λ b. encode_switch kind (record p { exbuf = b }, s)) same ∙ run),
      (iovs2stream_lem (read_ptr q) (length-read_ptr q) null_ptr malloc ends.valid
          (omega (arith, size)) given sized read).0,
    )

-- `nftp_encode` of a packet of one of the five types returns 0 and the bytes of its layout, with
-- their number, if memory is granted, `exbuf` has its 14 bytes, the name or the content that the
-- type sends is there in its announced length, and there are fewer than 2 ^ 64 bytes.
pub encode-layout :
    (malloc : ℕ → Option (List ℕ)) (p : Nftp) (cells : List (Iov Ptr)) (name content : List ℕ)
    → Grants malloc
    → length cells ≡ 32
    → length p.exbuf ≡ 14
    → Holds (kind_of p.type) p name content
    → length (layout (kind_of p.type) p name content) < 2 ^ 64
    → let bytes = layout (kind_of p.type) p name content in
      encode true (some cells) malloc p ≡ ok (success, some (bytes, length bytes))
unfolding encode encode_row encode_stream
encode-layout malloc p cells name content grants full exbuf held small =
    let (s, q, w, made, run, stream) =
      encode_iovs-layout malloc p cells name content grants full exbuf held small in
    rw (made, encode_row, run, encode_stream) stream

-- A packet of any other type is refused by NFTP_ERR_TYPE.
pub encode-unknown :
    (malloc : ℕ → Option (List ℕ)) (p : Nftp) (cells : List (Iov Ptr))
    → kind_of p.type ≡ unknown
    → encode true (some cells) malloc p ≡ ok (err_type, none)
unfolding encode encode_row encode_iovs encode_stream encode_switch Iovs.alloc
encode-unknown malloc p cells e = rw (e, encode_switch)
