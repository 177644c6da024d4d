-- ===== src/Hash/Small/Undone.antt =====
-- The small hashes of src/hash.c, undone from the last byte to the first.
use nftp_codec.Prelude.{
  ℕ, zero, suc, ◌+◌, ◌*◌, ◌/◌, ◌%◌, ◌^◌, ◌<◌, List, [], ◌∷◌, ◌++◌, true, ◌==◌, ltb, ◌&&◌,
  if◌then◌else◌, ◌≡◌, ◌≢◌, refl, sym, ap, ◌∙◌, arith,
}
use Prim.Native.Nat.{bit_xor}
use nftp_codec.Hash.Bitwise.{xor_cancel, xor_comm, xor_below_word, xor_below_byte}
use nftp_codec.Hash.Remainder.{AreBytes, all_below, all_below_lem}
use nftp_codec.Hash.Small.{
  djb_from, djb_hashn, fnv1a_from, fnv1a_hashn, crc_digit, crc_digits, crc_from, crc,
}

-- A step with each byte, from the first on.
over : (ℕ → ℕ → ℕ) → ℕ → List ℕ → ℕ
over step hash [] = hash
over step hash (b ∷ bs) = over step (step hash b) bs

-- A step with each byte, from the last one back.
pub back : (ℕ → ℕ → ℕ) → ℕ → List ℕ → ℕ
back step hash [] = hash
back step hash (b ∷ bs) = step (back step hash bs) b

over-append :
    (step : ℕ → ℕ → ℕ) (hash : ℕ) (v w : List ℕ)
    → over step hash (v ++ w) ≡ over step (over step hash v) w
unfolding over
over-append step hash [] w = refl
over-append step hash (b ∷ v) w = over-append step (step hash b) v w

-- A step that stays below a bound on bytes, and one that undoes it.
record Undoes (bound : ℕ) (step undo : ℕ → ℕ → ℕ) : Type 0 where
  kept : (hash b : ℕ) → hash < bound → b < 2 ^ 8 → step hash b < bound
  undone : (hash b : ℕ) → hash < bound → b < 2 ^ 8 → undo (step hash b) b ≡ hash
  apart : (hash a b : ℕ) → hash < bound → a < 2 ^ 8 → b < 2 ^ 8 → step hash a ≡ step hash b → a ≡ b

module _ {bound : ℕ} {step undo : ℕ → ℕ → ℕ} (law : Undoes bound step undo) where
  over-kept : (hash : ℕ) (v : List ℕ) → hash < bound → AreBytes v → over step hash v < bound
  unfolding over
  over-kept hash [] h bytes = h
  over-kept hash (b ∷ v) h (byte, bytes) = over-kept (step hash b) v (law.kept hash b h byte) bytes

  back-over :
      (hash : ℕ) (v : List ℕ) → hash < bound → AreBytes v → back undo (over step hash v) v ≡ hash
  unfolding over back
  back-over hash [] h bytes = refl
  back-over hash (b ∷ v) h (byte, bytes) =
      ap (λ k. undo k b) (back-over (step hash b) v (law.kept hash b h byte) bytes)
      ∙ law.undone hash b h byte

  -- Two texts that differ in one byte have different hashes.
  one_byte :
      (hash a b : ℕ) (v w : List ℕ)
      → hash < bound
      → AreBytes v
      → AreBytes w
      → a < 2 ^ 8
      → b < 2 ^ 8
      → over step hash (v ++ a ∷ w) ≡ over step hash (v ++ b ∷ w)
      → a ≡ b
  unfolding over
  one_byte hash a b v w h before behind byte_a byte_b same =
      let here = over step hash v in
      let fits = over-kept hash v h before in
      let at = λ (c : ℕ) (byte : c < 2 ^ 8).
        ap (λ k. back undo k w) (over-append step hash v (c ∷ w))
        ∙ back-over (step here c) w (law.kept here c fits byte) behind in
      law.apart here a b fits byte_a byte_b
        (sym (at a byte_a) ∙ ap (λ k. back undo k w) same ∙ at b byte_b)

xor_apart : (x a b : ℕ) → bit_xor x a ≡ bit_xor x b → a ≡ b
xor_apart x a b same =
    sym (xor_cancel a x)
    ∙ ap (λ k. bit_xor k x) (xor_comm a x ∙ same ∙ xor_comm x b)
    ∙ xor_cancel b x

-- 33 and its inverse modulo 2 ^ 32.
pub djb_undo : ℕ → ℕ → ℕ
djb_undo hash b = bit_xor hash b * 0x3e0f83e1 % 2 ^ 32

abbrev djb_step : ℕ → ℕ → ℕ
djb_step hash b = bit_xor (33 * hash % 2 ^ 32) b

djb_inverse : (hash : ℕ) → hash < 2 ^ 32 → 33 * hash % 2 ^ 32 * 0x3e0f83e1 % 2 ^ 32 ≡ hash
djb_inverse hash h = omega arith

djb-Undoes : Undoes (2 ^ 32) djb_step djb_undo
unfolding djb_undo
djb-Undoes = record {
  kept = λ hash b h byte. xor_below_word (33 * hash % 2 ^ 32) b (omega arith) (omega arith);
  undone = λ hash b h byte.
      ap (λ k. k * 0x3e0f83e1 % 2 ^ 32) (xor_cancel (33 * hash % 2 ^ 32) b) ∙ djb_inverse hash h;
  apart = λ hash a b h byte_a byte_b same. xor_apart (33 * hash % 2 ^ 32) a b same;
}

djb_from-over : (hash : ℕ) (v : List ℕ) → djb_from hash v ≡ over djb_step hash v
unfolding djb_from over
djb_from-over hash [] = refl
djb_from-over hash (b ∷ v) = djb_from-over (djb_step hash b) v

-- The prime 0x01000193 and its inverse modulo 2 ^ 32.
pub fnv1a_undo : ℕ → ℕ → ℕ
fnv1a_undo hash b = bit_xor (hash * 0x359c449b % 2 ^ 32) b

abbrev fnv1a_step : ℕ → ℕ → ℕ
fnv1a_step hash b = bit_xor hash b * 0x01000193 % 2 ^ 32

fnv1a_inverse : (x : ℕ) → x < 2 ^ 32 → x * 0x01000193 % 2 ^ 32 * 0x359c449b % 2 ^ 32 ≡ x
fnv1a_inverse x h = omega arith

fnv1a-back :
    (hash b : ℕ)
    → hash < 2 ^ 32
    → b < 2 ^ 8
    → fnv1a_step hash b * 0x359c449b % 2 ^ 32 ≡ bit_xor hash b
fnv1a-back hash b h byte = fnv1a_inverse (bit_xor hash b) (xor_below_word hash b h (omega arith))

fnv1a-Undoes : Undoes (2 ^ 32) fnv1a_step fnv1a_undo
unfolding fnv1a_undo
fnv1a-Undoes = record {
  kept = λ hash b h byte.
      let x = bit_xor hash b in let below : x * 0x01000193 % 2 ^ 32 < 2 ^ 32 = omega arith in below;
  undone = λ hash b h byte. ap (λ k. bit_xor k b) (fnv1a-back hash b h byte) ∙ xor_cancel hash b;
  apart = λ hash a b h byte_a byte_b same. xor_apart hash a b (
      sym (fnv1a-back hash a h byte_a)
      ∙ ap (λ k. k * 0x359c449b % 2 ^ 32) same
      ∙ fnv1a-back hash b h byte_b);
}

fnv1a_from-over : (hash : ℕ) (v : List ℕ) → fnv1a_from hash v ≡ over fnv1a_step hash v
unfolding fnv1a_from over
fnv1a_from-over hash [] = refl
fnv1a_from-over hash (b ∷ v) = fnv1a_from-over (fnv1a_step hash b) v

-- A digit put back: an odd value comes of a digit that was shifted out.
crc_undigit : ℕ → ℕ
crc_undigit c = if c % 2 == 1 then bit_xor c 0x31 / 2 + 0x80 else c / 2

crc_undigits : ℕ → ℕ → ℕ
crc_undigits zero c = c
crc_undigits (suc rounds) c = crc_undigits rounds (crc_undigit c)

pub crc_undo : ℕ → ℕ → ℕ
crc_undo c b = bit_xor (crc_undigits 8 c) b

abbrev crc_step : ℕ → ℕ → ℕ
crc_step c b = crc_digits 8 (bit_xor c b)

-- Of each byte, and it is a byte.
crc_checked :
    all_below 256 (λ c. (crc_undigits 8 (crc_digits 8 c) == c) && ltb (crc_digits 8 c) 256) ≡ true
unfolding crc_digits crc_digit crc_undigits crc_undigit
crc_checked = refl

crc_inverse : (c : ℕ) → c < 2 ^ 8 → (crc_undigits 8 (crc_digits 8 c) ≡ c) × (crc_digits 8 c < 2 ^ 8)
crc_inverse c h = ground (
  arith,
  all_below_lem 256 (λ (c : ℕ). (crc_undigits 8 (crc_digits 8 c) == c) && ltb (crc_digits 8 c) 256)
      c crc_checked h,
)

crc-Undoes : Undoes (2 ^ 8) crc_step crc_undo
unfolding crc_undo
crc-Undoes = record {
  kept = λ c b h byte. (crc_inverse (bit_xor c b) (xor_below_byte c b h byte)).1;
  undone = λ c b h byte.
      ap (λ k. bit_xor k b) (crc_inverse (bit_xor c b) (xor_below_byte c b h byte)).0
      ∙ xor_cancel c b;
  apart = λ c a b h byte_a byte_b same. xor_apart c a b (
      sym (crc_inverse (bit_xor c a) (xor_below_byte c a h byte_a)).0
      ∙ ap (crc_undigits 8) same
      ∙ (crc_inverse (bit_xor c b) (xor_below_byte c b h byte_b)).0);
}

crc_from-over : (c : ℕ) (v : List ℕ) → crc_from c v ≡ over crc_step c v
unfolding crc_from over
crc_from-over c [] = refl
crc_from-over c (b ∷ v) = crc_from-over (crc_step c b) v

-- Of bytes v: from `nftp_djb_hashn`, `nftp_fnv1a_hashn` or `nftp_crc` of them, undoing a step with
-- each byte from the last one on, by the inverse of 33, by the inverse of the prime, and by putting
-- back eight digits, gives the value that the function starts with. And two texts of bytes of
-- which only one byte differs have different hashes, by each of the three.
pub hashes_undone :
    (v w : List ℕ) (a b : ℕ)
    → AreBytes v
    → AreBytes w
    → a < 2 ^ 8
    → b < 2 ^ 8
    → a ≢ b
    → (back djb_undo (djb_hashn v) v ≡ 5381)
      × (back fnv1a_undo (fnv1a_hashn v) v ≡ 0x811c9dc5)
      × (back crc_undo (crc v) v ≡ 0xff)
      × (djb_hashn (v ++ a ∷ w) ≢ djb_hashn (v ++ b ∷ w))
      × (fnv1a_hashn (v ++ a ∷ w) ≢ fnv1a_hashn (v ++ b ∷ w))
      × (crc (v ++ a ∷ w) ≢ crc (v ++ b ∷ w))
unfolding djb_hashn fnv1a_hashn crc
hashes_undone v w a b bytes_v bytes_w byte_a byte_b differ =
    let to = v ++ a ∷ w in
    let to' = v ++ b ∷ w in
    (
      ap (λ k. back djb_undo k v) (djb_from-over 5381 v)
          ∙ back-over djb-Undoes 5381 v (omega arith) bytes_v,
      ap (λ k. back fnv1a_undo k v) (fnv1a_from-over 0x811c9dc5 v)
          ∙ back-over fnv1a-Undoes 0x811c9dc5 v (omega arith) bytes_v,
      ap (λ k. back crc_undo k v) (crc_from-over 0xff v)
          ∙ back-over crc-Undoes 0xff v (omega arith) bytes_v,
      λ same. differ (
          one_byte djb-Undoes 5381 a b v w (omega arith) bytes_v bytes_w byte_a byte_b
            (sym (djb_from-over 5381 to) ∙ same ∙ djb_from-over 5381 to')),
      λ same. differ (
          one_byte fnv1a-Undoes 0x811c9dc5 a b v w (omega arith) bytes_v bytes_w byte_a byte_b
            (sym (fnv1a_from-over 0x811c9dc5 to) ∙ same ∙ fnv1a_from-over 0x811c9dc5 to')),
      λ same. differ (
          one_byte crc-Undoes 0xff a b v w (omega arith) bytes_v bytes_w byte_a byte_b
            (sym (crc_from-over 0xff to) ∙ same ∙ crc_from-over 0xff to')),
    )
