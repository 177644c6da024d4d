-- ===== src/Codec/Stream.antt =====
-- src/codec.c: `nftp_decode_iovs`, which decodes a row of pieces.
use nftp_codec.Prelude.{ℕ, List, Option, none, some, length, true, Bool, ◌≡◌, arith}
use nftp_codec.Errors.{Status, success, err_empty, err_iovs, Run, ok, ◌>>=◌}
use nftp_codec.Iovs
use nftp_codec.Iovs.{Iovs, Iov, iovs2stream}
use nftp_codec.Codec.{Nftp, kind_of, decode}
use nftp_codec.Codec.Decode.{granted}
use nftp_codec.Codec.Encode.{Ptr, read_ptr, encode_iovs}
use nftp_codec.Codec.Encode.Bytes.{Holds, Grants, encode_iovs-layout}
use nftp_codec.Codec.Encode.Layout.{layout}
use nftp_codec.Codec.Roundtrip.{Fits, received, decode-layout}

-- `read` gives the bytes at a pointer, `buffer` the memory of the stream, and `malloc` answers for
-- the decoder; the variables of the stream are not initialized before.
pub decode_iovs :
    {P : Type 0}
    → (P → ℕ → Option (List ℕ))
    → (ℕ → Option (List ℕ))
    → (ℕ → ℕ → Bool)
    → Option Nftp
    → Option (Iovs P)
    → Run (Status × Option Nftp)
decode_iovs read buffer malloc none iovs = ok (err_empty, none)
decode_iovs read buffer malloc (some p) none = ok (err_empty, some p)
decode_iovs read buffer malloc (some p) (some iovs) = do
  (rv, stream) ← iovs2stream read buffer iovs
  elim stream [ none ↦ ok (err_iovs, some p) | some v ↦ decode malloc (some p) (some v.0) ]

-- A packet of one of the five types whose fields fit and whose length field is right comes back from
-- the row that `nftp_encode_iovs` makes of it with exactly the fields that its type carries, if memory
-- is granted, `exbuf` has its 14 bytes, and the name or content is there; the pieces of the row point
-- into the packet that is behind the encoding.
pub decode_iovs-encode_iovs :
    (malloc : ℕ → Option (List ℕ)) (p r : Nftp) (cells : List (Iov Ptr)) (name content : List ℕ)
    → Grants malloc
    → length cells ≡ 32
    → length p.exbuf ≡ 14
    → Holds (kind_of p.type) p name content
    → Fits p
    → p.len ≡ length (layout (kind_of p.type) p name content)
    → (s : Iovs Ptr) × (q : Nftp) × (w : Iovs Ptr) × (Iovs.alloc true (some cells)
        ≡ (success, some s))
      × (encode_iovs (p, s) ≡ ok (success, some (q, w)))
      × (decode_iovs (read_ptr q) malloc granted (some r) (some w)
          ≡ ok (success, some (received (kind_of p.type) r p name content)))
unfolding decode_iovs
decode_iovs-encode_iovs malloc p r cells name content grants full exbuf held fits whole =
    let (s, q, w, made, run, stream) =
      encode_iovs-layout malloc p cells name content grants full exbuf held
        (omega (arith, fits.len, whole)) in
    (s, q, w, made, run, rw (stream, ◌>>=◌) (decode-layout p r name content held fits whole))
