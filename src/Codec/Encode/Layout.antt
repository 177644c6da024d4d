-- ===== src/Codec/Encode/Layout.antt =====
-- The bytes of an encoded packet.
use nftp_codec.Prelude.{
  ℕ, List, [], ◌∷◌, ◌++◌, some, tabulate, ◌≡◌, refl, arith, append-nil, be16, be32,
}
use nftp_codec.Errors.{success, ok}
use nftp_codec.Mem.{blit, cut}
use nftp_codec.Iovs.{Iovs, Iov}
use nftp_codec.Iovs.Stream.{join}
use nftp_codec.Codec.{Nftp, Kind, hello, ack, file, end, giveme, unknown}
use nftp_codec.Codec.Encode.{
  Ptr, id_ptr, type_ptr, fname_ptr, content_ptr, exbuf_ptr, read_ptr, read_block, add, add_head,
  put, encode_hello, encode_ack, encode_file, encode_giveme, encode_front, encode_switch,
}
use nftp_codec.Codec.Encode.Row.{IsRow, append-IsRow, push_head-IsRow}

-- The layout of a packet: its fields in order, big-endian.
unfoldable pub body : Kind → Nftp → List ℕ → List ℕ → List ℕ
body hello p name content = p.id ∷ be16 p.blocks ++ (be16 p.namelen ++ (name ++ be32 p.hashcode))
body ack p name content = p.id ∷ be32 p.fileid
body giveme p name content = be32 p.fileid ++ be16 p.blockseq
body unknown p name content = []
body _ p name content = be32 p.fileid ++ (be16 p.blockseq ++ (be32 p.ctlen ++ content))

unfoldable pub layout : Kind → Nftp → List ℕ → List ℕ → List ℕ
layout kind p name content = p.type ∷ be32 p.len ++ body kind p name content

-- A packet whose `exbuf` holds 14 bytes.
abbrev pub with_exbuf : Nftp → (ℕ → ℕ) → Nftp
with_exbuf p g = record p { exbuf = tabulate 14 g }

-- What the switch leaves: a row of the packet's pieces, which read as the layout.
abbrev pub Encodes : Kind → Nftp → (ℕ → ℕ) → Iovs Ptr → List ℕ → List ℕ → Type 0
Encodes kind p g s name content =
    (q : Nftp) × (w : Iovs Ptr) × (pieces : List (Iov Ptr)) × (encode_switch kind
        (with_exbuf p g, s)
      ≡ ok (success, some (q, w)))
    × IsRow 8 pieces w
    × (join (read_ptr q) pieces ≡ some (layout kind p name content))

module _ (p : Nftp) (g : ℕ → ℕ) {s : Iovs Ptr} (row : IsRow 10 [] s) where
  pub encode_giveme_lem : (name content : List ℕ) → Encodes giveme p g s name content
  unfolding encode_switch encode_giveme encode_front add add_head put blit cut join read_ptr layout
      body
  encode_giveme_lem name content =
      let (s₁, e₁, r₁) = append-IsRow row (exbuf_ptr 4) 4 (omega arith) in
      let (s₂, e₂, r₂) = append-IsRow r₁ (exbuf_ptr 8) 2 (omega arith) in
      let (s₃, e₃, r₃) = push_head-IsRow r₂ (exbuf_ptr 0) 4 (omega arith) in
      let (s₄, e₄, r₄) = push_head-IsRow r₃ type_ptr 1 (omega arith) in
      let exbuf =
        be32 p.len ++ (be32 p.fileid ++ (be16 p.blockseq ++ (g 10 ∷ g 11 ∷ g 12 ∷ g 13 ∷ []))) in
      (record p { exbuf = exbuf }, s₄, _, rw (e₁, e₂, e₃, e₄), r₄, refl)

  pub encode_ack_lem : (name content : List ℕ) → Encodes ack p g s name content
  unfolding encode_switch encode_ack encode_front add add_head put blit cut join read_ptr layout
      body
  encode_ack_lem name content =
      let (s₁, e₁, r₁) = append-IsRow row id_ptr 1 (omega arith) in
      let (s₂, e₂, r₂) = append-IsRow r₁ (exbuf_ptr 4) 4 (omega arith) in
      let (s₃, e₃, r₃) = push_head-IsRow r₂ (exbuf_ptr 0) 4 (omega arith) in
      let (s₄, e₄, r₄) = push_head-IsRow r₃ type_ptr 1 (omega arith) in
      let exbuf = be32 p.len ++ (be32 p.fileid ++ (g 8 ∷ g 9 ∷ g 10 ∷ g 11 ∷ g 12 ∷ g 13 ∷ [])) in
      (record p { exbuf = exbuf }, s₄, _, rw (e₁, e₂, e₃, e₄), r₄, refl)

  pub encode_hello_lem :
      (name content : List ℕ)
      → read_block p.fname p.namelen ≡ some name
      → Encodes hello p g s name content
  unfolding encode_switch encode_hello encode_front add add_head put blit cut join read_ptr layout
      body
  encode_hello_lem name content held =
      let (s₁, e₁, r₁) = append-IsRow row id_ptr 1 (omega arith) in
      let (s₂, e₂, r₂) = append-IsRow r₁ (exbuf_ptr 4) 2 (omega arith) in
      let (s₃, e₃, r₃) = append-IsRow r₂ (exbuf_ptr 6) 2 (omega arith) in
      let (s₄, e₄, r₄) = append-IsRow r₃ fname_ptr p.namelen (omega arith) in
      let (s₅, e₅, r₅) = append-IsRow r₄ (exbuf_ptr 8) 4 (omega arith) in
      let (s₆, e₆, r₆) = push_head-IsRow r₅ (exbuf_ptr 0) 4 (omega arith) in
      let (s₇, e₇, r₇) = push_head-IsRow r₆ type_ptr 1 (omega arith) in
      let exbuf =
        be32 p.len
        ++ (be16 p.blocks ++ (be16 p.namelen ++ (be32 p.hashcode ++ (g 12 ∷ g 13 ∷ [])))) in
      (record p { exbuf = exbuf }, s₇, _, rw (e₁, e₂, e₃, e₄, e₅, e₆, e₇), r₇, rw (join, held))

  module _ (name content : List ℕ) (held : read_block p.content p.ctlen ≡ some content) where
    pub encode_file_lem : Encodes file p g s name content × Encodes end p g s name content
    unfolding encode_switch encode_file encode_front add add_head put blit cut join read_ptr layout
        body
    encode_file_lem =
        let (s₁, e₁, r₁) = append-IsRow row (exbuf_ptr 4) 4 (omega arith) in
        let (s₂, e₂, r₂) = append-IsRow r₁ (exbuf_ptr 8) 2 (omega arith) in
        let (s₃, e₃, r₃) = append-IsRow r₂ (exbuf_ptr 10) 4 (omega arith) in
        let (s₄, e₄, r₄) = append-IsRow r₃ content_ptr p.ctlen (omega arith) in
        let (s₅, e₅, r₅) = push_head-IsRow r₄ (exbuf_ptr 0) 4 (omega arith) in
        let (s₆, e₆, r₆) = push_head-IsRow r₅ type_ptr 1 (omega arith) in
        let exbuf = be32 p.len ++ (be32 p.fileid ++ (be16 p.blockseq ++ be32 p.ctlen)) in
        let q : Nftp = record p { exbuf = exbuf } in
        (
          (q, s₆, _, rw (e₁, e₂, e₃, e₄, e₅, e₆), r₆, rw (join, held, append-nil)),
          (q, s₆, _, rw (e₁, e₂, e₃, e₄, e₅, e₆), r₆, rw (join, held, append-nil)),
        )
