-- ===== src/Codec/Decode.antt =====
-- `nftp_decode` on every message: which bytes it accepts, refuses, or reads past.
use nftp_codec.Prelude.{
  ℕ, ◌+◌, ◌-◌, ◌^◌, ◌≤◌, ◌<◌, List, [], ◌∷◌, ◌++◌, some, length, get_or, take, drop, Bool, true,
  ◌≡◌, ◌≢◌, refl, sym, ap, ◌∙◌, arith, ◌==◌, if◌then◌else◌, le→ltb, lt→ltb, eq→==, ne→==, word16,
  word32, take_all, length-drop,
}
use nftp_codec.Errors.{Status, success, err_empty, err_stream, err_type, Run, ok, fault}
use nftp_codec.Mem.{load_lem, load_outside, slice, slice_lem, slice_outside}
use nftp_codec.Codec.{
  Nftp, Kind, hello, ack, file, end, giveme, unknown, kind_of, get_u16, get_u32, decode,
  decode_some, decode_kind, decode_hello, decode_ack, decode_file, decode_giveme,
}
use nftp_codec.Iovs.{sub_size}
use native.Mathlib.Decide.{dec_lt}

-- The byte at a position.
abbrev pub byte : List ℕ → ℕ → ℕ
byte v i = get_or v i 0

pub get_u16_lem :
    (v : List ℕ) (at : ℕ)
    → at + 2 ≤ length v
    → get_u16 v at ≡ ok (word16 (byte v at) (byte v (at + 1)))
unfolding get_u16
get_u16_lem v at h = rw (load_lem v at 0 (omega arith), load_lem v (at + 1) 0 (omega arith))

pub get_u16_short : (v : List ℕ) (at : ℕ) → length v < at + 2 → get_u16 v at ≡ fault
unfolding get_u16
get_u16_short v at h = elim (dec_lt at (length v)) [
  | yes p ↦ rw (load_lem v at 0 p, load_outside v (at + 1) (omega arith))
  | no p ↦ rw (load_outside v at (omega arith))
]

pub get_u32_lem :
    (v : List ℕ) (at : ℕ)
    → at + 4 ≤ length v
    → get_u32 v at ≡ ok (word32 (byte v at) (byte v (at + 1)) (byte v (at + 2)) (byte v (at + 3)))
unfolding get_u32
get_u32_lem v at h = rw (
  load_lem v at 0 (omega arith),
  load_lem v (at + 1) 0 (omega arith),
  load_lem v (at + 2) 0 (omega arith),
  load_lem v (at + 3) 0 (omega arith),
)

pub get_u32_short : (v : List ℕ) (at : ℕ) → length v < at + 4 → get_u32 v at ≡ fault
unfolding get_u32
get_u32_short v at h = grind (
  arith,
  load_lem v at 0,
  load_outside v at,
  load_lem v (at + 1) 0,
  load_outside v (at + 1),
  load_lem v (at + 2) 0,
  load_outside v (at + 2),
  load_outside v (at + 3),
)

-- How many bytes the code reads of a message of a kind: the fixed part, and what the length fields
-- in it announce.
unfoldable pub bytes_read : Kind → List ℕ → ℕ
bytes_read hello v = 14 + word16 (byte v 8) (byte v 9)
bytes_read ack v = 10
bytes_read file v = 15 + word32 (byte v 11) (byte v 12) (byte v 13) (byte v 14)
bytes_read end v = 15 + word32 (byte v 11) (byte v 12) (byte v 13) (byte v 14)
bytes_read giveme v = 11
bytes_read unknown v = 0

-- What the switch returns when nothing goes wrong.
abbrev pub verdict : Kind → Status
verdict unknown = err_type
verdict _ = success

-- All requests for memory are granted.
abbrev pub granted : ℕ → ℕ → Bool
granted k n = true

-- The message as the fields stand in it, over what `p` held before.
unfoldable pub decoded : Kind → Nftp → List ℕ → Nftp
decoded hello p v =
    let namelen = word16 (byte v 8) (byte v 9) in
    let rest = drop (10 + namelen) v in
    record p {
      id = byte v 5;
      blocks = word16 (byte v 6) (byte v 7);
      namelen = namelen;
      fname = some (take namelen (drop 10 v) ++ 0 ∷ []);
      ctlen = length v - (10 + namelen);
      content = some rest;
      hashcode = word32 (byte rest 0) (byte rest 1) (byte rest 2) (byte rest 3);
    }
decoded ack p v = record p {
  id = byte v 5;
  fileid = word32 (byte v 6) (byte v 7) (byte v 8) (byte v 9);
}
decoded giveme p v = record p {
  fileid = word32 (byte v 5) (byte v 6) (byte v 7) (byte v 8);
  blockseq = word16 (byte v 9) (byte v 10);
}
decoded unknown p v = p
decoded _ p v =
    let ctlen = word32 (byte v 11) (byte v 12) (byte v 13) (byte v 14) in
    record p {
      fileid = word32 (byte v 5) (byte v 6) (byte v 7) (byte v 8);
      blockseq = word16 (byte v 9) (byte v 10);
      ctlen = ctlen;
      content = some (take ctlen (drop 15 v));
    }

abbrev Outcome : Kind → Nftp → List ℕ → Run (Status × Nftp) → Type 0
Outcome kind p v run =
    (bytes_read kind v ≤ length v → run ≡ ok (verdict kind, decoded kind p v))
    × (length v < bytes_read kind v → run ≡ fault)

module _ (p : Nftp) (v : List ℕ) (header : 6 ≤ length v) where
  giveme-Outcome : Outcome giveme p v (decode_giveme granted p v)
  unfolding decode_giveme bytes_read decoded
  giveme-Outcome = (
    λ fits. rw (get_u32_lem v 5 (omega arith), get_u16_lem v 9 (omega arith)),
    λ short. elim (dec_lt (length v) 9) [
      | yes s ↦ rw (get_u32_short v 5 (omega arith))
      | no s ↦ rw (get_u32_lem v 5 (omega arith), get_u16_short v 9 (omega arith))
    ],
  )

  ack-Outcome : Outcome ack p v (decode_ack granted p v)
  unfolding decode_ack bytes_read decoded
  ack-Outcome = (
    λ fits. rw (load_lem v 5 0 (omega arith), get_u32_lem v 6 (omega arith)),
    λ short. rw (load_lem v 5 0 (omega arith), get_u32_short v 6 (omega arith)),
  )

  file-Outcome : Outcome file p v (decode_file granted p v)
  unfolding decode_file bytes_read decoded
  file-Outcome = (
    λ fits. rw (
      get_u32_lem v 5 (omega arith),
      get_u16_lem v 9 (omega arith),
      get_u32_lem v 11 (omega arith),
      slice_lem v 15 (word32 (byte v 11) (byte v 12) (byte v 13) (byte v 14)) fits,
    ),
    λ short. elim (dec_lt (length v) 9) [
      | yes s ↦ rw (get_u32_short v 5 (omega arith))
      | no s ↦ elim (dec_lt (length v) 11) [
        | yes t ↦ rw (get_u32_lem v 5 (omega arith), get_u16_short v 9 (omega arith))
        | no t ↦
            rw (get_u32_lem v 5 (omega arith), get_u16_lem v 9 (omega arith))
              (elim (dec_lt (length v) 15) [
                | yes u ↦ rw (get_u32_short v 11 (omega arith))
                | no u ↦ rw (
                  get_u32_lem v 11 (omega arith),
                  slice_outside v 15 (word32 (byte v 11) (byte v 12) (byte v 13) (byte v 14)) short,
                )
              ])
      ]
    ],
  )

  module _ (whole : p.len ≡ length v) (small : length v < 2 ^ 64) where
    -- `p->len - pos`, and what is copied from `pos` on.
    left : (n : ℕ) → 10 + n ≤ length v → sub_size p.len (10 + n) ≡ length v - (10 + n)
    left n h = omega arith

    slice_rest :
        (n : ℕ) → 10 + n ≤ length v → slice v (10 + n) (length v - (10 + n)) ≡ ok (drop (10 + n) v)
    slice_rest n h =
        slice_lem v (10 + n) (length v - (10 + n)) (omega arith)
        ∙ ap ok (take_all (length v - (10 + n)) (drop (10 + n) v) (rw length-drop (omega arith)))

    hello-Outcome : Outcome hello p v (decode_hello granted p v)
    unfolding decode_hello bytes_read decoded
    hello-Outcome =
        let n = word16 (byte v 8) (byte v 9) in
        (
          λ fits. rw (
            load_lem v 5 0 (omega arith),
            get_u16_lem v 6 (omega arith),
            get_u16_lem v 8 (omega arith),
            slice_lem v 10 n (omega arith),
            left n (omega arith),
            slice_rest n (omega arith),
            get_u32_lem (drop (10 + n) v) 0 (rw length-drop (omega arith)),
          ),
          λ short. elim (dec_lt (length v) 8) [
            | yes s ↦ rw (load_lem v 5 0 (omega arith), get_u16_short v 6 (omega arith))
            | no s ↦ elim (dec_lt (length v) 10) [
              | yes t ↦ rw (
                load_lem v 5 0 (omega arith),
                get_u16_lem v 6 (omega arith),
                get_u16_short v 8 (omega arith),
              )
              | no t ↦
                  rw
                    (
                      load_lem v 5 0 (omega arith),
                      get_u16_lem v 6 (omega arith),
                      get_u16_lem v 8 (omega arith),
                    )
                    (elim (dec_lt (length v) (10 + n)) [
                      | yes u ↦ rw (slice_outside v 10 n u)
                      | no u ↦ rw (
                        slice_lem v 10 n (omega arith),
                        left n (omega arith),
                        slice_rest n (omega arith),
                        get_u32_short (drop (10 + n) v) 0 (rw length-drop (omega arith)),
                      )
                    ])
            ]
          ],
        )

    kind-Outcome : (kind : Kind) → Outcome kind p v (decode_kind granted kind p v)
    unfolding decode_kind bytes_read decoded
    kind-Outcome hello = hello-Outcome
    kind-Outcome ack = ack-Outcome
    kind-Outcome file = file-Outcome
    kind-Outcome end = file-Outcome
    kind-Outcome giveme = giveme-Outcome
    kind-Outcome unknown = (λ fits. refl, λ short. absurd (omega arith))

-- The type and length fields are read, and the length is checked.
decode_start :
    (p : Nftp) (v : List ℕ)
    → 6 ≤ length v
    → let len = word32 (byte v 1) (byte v 2) (byte v 3) (byte v 4) in
      let p₁ : Nftp = record p { type = byte v 0; len = len } in
      decode_some granted p v ≡ (
        if length v == len
        then decode_kind granted (kind_of (byte v 0)) p₁ v
        else ok (err_stream, p₁))
unfolding decode_some
decode_start p v h = rw (
  ne→== (length v) 0 (omega arith),
  le→ltb (length v) 6 h,
  load_lem v 0 0 (omega arith),
  get_u32_lem v 1 (omega arith),
)

decode_none : (p : Nftp) (v : List ℕ) → length v ≡ 0 → decode_some granted p v ≡ ok (err_empty, p)
unfolding decode_some
decode_none p v e = rw (eq→== (length v) 0 e)

decode_short :
    (p : Nftp) (v : List ℕ)
    → 0 < length v
    → length v < 6
    → decode_some granted p v ≡ ok (err_stream, p)
unfolding decode_some
decode_short p v h short = rw (ne→== (length v) 0 (omega arith), lt→ltb (length v) 6 short)

-- What `nftp_decode` does with any message of fewer than 2 ^ 64 bytes, when memory is granted. It
-- refuses one of no bytes by
-- NFTP_ERR_EMPTY, and one of fewer than 6 bytes, or whose length field is not its length, by
-- NFTP_ERR_STREAM. Of the others it reads `bytes_read` bytes: if the message has them it returns 0
-- and the fields as they stand in it, or NFTP_ERR_TYPE if the type is none of the five, and if it has
-- not it reads past its end.
pub decode_outcome :
    (p : Nftp) (v : List ℕ)
    → length v < 2 ^ 64
    → let kind = kind_of (byte v 0) in
      let len = word32 (byte v 1) (byte v 2) (byte v 3) (byte v 4) in
      let p₁ : Nftp = record p { type = byte v 0; len = len } in
      let run = decode granted (some p) (some v) in
      (length v ≡ 0 → run ≡ ok (err_empty, some p))
      × (0 < length v → length v < 6 → run ≡ ok (err_stream, some p))
      × (6 ≤ length v → length v ≢ len → run ≡ ok (err_stream, some p₁))
      × (6 ≤ length v
          → length v ≡ len
          → bytes_read kind v ≤ length v
          → run ≡ ok (verdict kind, some (decoded kind p₁ v)))
      × (6 ≤ length v → length v ≡ len → length v < bytes_read kind v → run ≡ fault)
unfolding decode
decode_outcome p v small =
    let len = word32 (byte v 1) (byte v 2) (byte v 3) (byte v 4) in
    let p₁ : Nftp = record p { type = byte v 0; len = len } in
    let kind = kind_of (byte v 0) in
    (
      λ e. rw (decode_none p v e),
      λ some_bytes short. rw (decode_short p v some_bytes short),
      λ header wrong. rw (decode_start p v header, ne→== (length v) len wrong),
      λ header right fits. rw (
        decode_start p v header,
        eq→== (length v) len right,
        (kind-Outcome p₁ v header (sym right) small kind).0 fits,
      ),
      λ header right short. rw (
        decode_start p v header,
        eq→== (length v) len right,
        (kind-Outcome p₁ v header (sym right) small kind).1 short,
      ),
    )
