-- ===== src/Hash/Crc32c/Slices.antt =====
-- Eight look-ups take in eight bytes, and `nftp_crc32c` is the CRC whatever the address.
use nftp_codec.Prelude.{
  ℕ, suc, ◌+◌, ◌*◌, ◌/◌, ◌%◌, ◌^◌, ◌<◌, List, [], ◌∷◌, length, ◌≡◌, refl, sym, ap, ap₂, ◌∙◌, arith,
  ◌==◌, Bool-cases, inl, inr,
}
use Prim.Native.Nat.{bit_xor}
use nftp_codec.Errors.{ok}
use nftp_codec.Hash.Bitwise.{zero-xor, xor-zero, xor_assoc, xor_above, xor_word, xor_below_word}
use nftp_codec.Hash.Remainder.{
  AreBytes, up, xor_up, shift_out, shift_out_all, shift_out_all-xor, shift_out_all-xor_up,
  shift_out_all_more, shift_out_all_byte, shift_out_all-word, crc_of_digits,
}
use nftp_codec.Hash.Crc32c.{
  poly, one_byte, bytes_left, word_le, eight_bytes, slices, from_address, crc32c_sw, crc32c,
}
use nftp_codec.Hash.Crc32c.Table.{after, table, entry_lem, crc32c_init_sw-table}

one_byte_lem : (c b : ℕ) → b < 256 → one_byte table c b ≡ ok (after 8 (bit_xor c b))
unfolding one_byte
one_byte_lem c b h = rw (
  entry_lem 0 (bit_xor c b % 2 ^ 8) (omega arith) (omega arith),
  shift_out_all_byte poly (bit_xor c b),
  xor_above c b h,
)

bytes_left_lem :
    (c : ℕ) (v : List ℕ) → AreBytes v → bytes_left table c v ≡ ok (crc_of_digits poly c v)
unfolding bytes_left crc_of_digits
bytes_left_lem c [] h = refl
bytes_left_lem c (b ∷ bs) (h, hs) =
    rw (one_byte_lem c b h) (bytes_left_lem (after 8 (bit_xor c b)) bs hs)

after-none : (c : ℕ) → after 0 c ≡ c
unfolding shift_out_all
after-none c = refl

-- Bytes one by one are all their digits at once.
crc_of_digits-word_le :
    (c : ℕ) (v : List ℕ)
    → AreBytes v
    → crc_of_digits poly c v ≡ after (8 * length v) (bit_xor c (word_le v))
unfolding crc_of_digits
crc_of_digits-word_le c [] h = sym (after-none (bit_xor c 0) ∙ xor-zero c)
crc_of_digits-word_le c (b ∷ bs) (h, hs) =
    let w = word_le bs in
    let raised : 2 ^ 8 * w ≡ up 8 w = omega arith in
    let joined : bit_xor b (up 8 w) ≡ b + 2 ^ 8 * w = xor_up 8 b w (omega arith) ∙ omega arith in
    let count : 8 + 8 * length bs ≡ 8 * suc (length bs) = omega arith in
    crc_of_digits-word_le (after 8 (bit_xor c b)) bs hs
    ∙ ap (after (8 * length bs)) (sym (shift_out_all-xor_up poly 8 (bit_xor c b) w))
    ∙ shift_out_all_more poly 8 (8 * length bs) (bit_xor (bit_xor c b) (up 8 w))
    ∙ ap₂ after count (xor_assoc c b (up 8 w) ∙ ap (bit_xor c) joined)

after-zero : after 8 0 ≡ 0
unfolding shift_out_all shift_out
after-zero = refl

-- The last byte taken apart from the others.
after_byte : (m x : ℕ) → after (8 + m) x ≡ bit_xor (after (8 + m) (x % 256)) (after m (x / 256))
after_byte m x =
    let h = x / 256 in
    let whole : bit_xor (x % 256) (up 8 h) ≡ x = xor_up 8 (x % 256) h (omega arith) ∙ omega arith in
    let above : after (8 + m) (up 8 h) ≡ after m h =
      sym (shift_out_all_more poly 8 m (up 8 h))
      ∙ ap (after m) (
          ap (after 8) (sym (zero-xor (up 8 h)))
          ∙ shift_out_all-xor_up poly 8 0 h
          ∙ ap (λ k. bit_xor k h) after-zero
          ∙ zero-xor h) in
    ap (after (8 + m)) (sym whole)
    ∙ shift_out_all-xor poly (8 + m) (x % 256) (up 8 h)
    ∙ ap (bit_xor (after (8 + m) (x % 256))) above

-- One look-up, and what is left to look up.
look_up :
    (m k acc x y : ℕ)
    → 8 + m ≡ k
    → x / 256 ≡ y
    → bit_xor acc (after k x) ≡ bit_xor (bit_xor acc (after k (x % 256))) (after m y)
look_up m k acc x y e f =
    ap (λ j. bit_xor acc (after j x)) (sym e)
    ∙ ap (bit_xor acc) (after_byte m x)
    ∙ sym (xor_assoc acc (after (8 + m) (x % 256)) (after m (x / 256)))
    ∙ ap (λ j. bit_xor (bit_xor acc (after j (x % 256))) (after m (x / 256))) e
    ∙ ap (λ r. bit_xor (bit_xor acc (after k (x % 256))) (after m r)) f

eight_bytes_lem : (x : ℕ) → x < 2 ^ 64 → eight_bytes table x ≡ ok (after 64 x)
unfolding eight_bytes
eight_bytes_lem x h =
    let t₇ = after 64 (x % 256) in
    let a₆ = bit_xor t₇ (after 56 (x / 2 ^ 8 % 256)) in
    let a₅ = bit_xor a₆ (after 48 (x / 2 ^ 16 % 256)) in
    let a₄ = bit_xor a₅ (after 40 (x / 2 ^ 24 % 256)) in
    let a₃ = bit_xor a₄ (after 32 (x / 2 ^ 32 % 256)) in
    let a₂ = bit_xor a₃ (after 24 (x / 2 ^ 40 % 256)) in
    let a₁ = bit_xor a₂ (after 16 (x / 2 ^ 48 % 256)) in
    let first : x / 256 ≡ x / 2 ^ 8 = omega arith in
    rw
      (
        entry_lem 7 (x % 2 ^ 8) (omega arith) (omega arith),
        entry_lem 6 (x / 2 ^ 8 % 2 ^ 8) (omega arith) (omega arith),
        entry_lem 5 (x / 2 ^ 16 % 2 ^ 8) (omega arith) (omega arith),
        entry_lem 4 (x / 2 ^ 24 % 2 ^ 8) (omega arith) (omega arith),
        entry_lem 3 (x / 2 ^ 32 % 2 ^ 8) (omega arith) (omega arith),
        entry_lem 2 (x / 2 ^ 40 % 2 ^ 8) (omega arith) (omega arith),
        entry_lem 1 (x / 2 ^ 48 % 2 ^ 8) (omega arith) (omega arith),
        entry_lem 0 (x / 2 ^ 56) (omega arith) (omega arith),
      )
      (ap ok (
        sym (
          after_byte 56 x
          ∙ look_up 48 56 t₇ (x / 256) (x / 2 ^ 16) (omega arith) (omega arith)
          ∙ look_up 40 48 a₆ (x / 2 ^ 16) (x / 2 ^ 24) (omega arith) (omega arith)
          ∙ look_up 32 40 a₅ (x / 2 ^ 24) (x / 2 ^ 32) (omega arith) (omega arith)
          ∙ look_up 24 32 a₄ (x / 2 ^ 32) (x / 2 ^ 40) (omega arith) (omega arith)
          ∙ look_up 16 24 a₃ (x / 2 ^ 40) (x / 2 ^ 48) (omega arith) (omega arith)
          ∙ look_up 8 16 a₂ (x / 2 ^ 48) (x / 2 ^ 56) (omega arith) (omega arith))))

-- A word and eight bytes are below 2 ^ 64 together.
wide_bound : (c w : ℕ) → c < 2 ^ 32 → w < 2 ^ 64 → bit_xor c w < 2 ^ 64
wide_bound c w p q =
    let above : c / 2 ^ 32 ≡ 0 = omega arith in
    omega (arith, xor_word c w, ap (λ k. bit_xor k (w / 2 ^ 32)) above, zero-xor (w / 2 ^ 32))

pub crc_of_digits-word :
    (c : ℕ) (v : List ℕ) → c < 2 ^ 32 → AreBytes v → crc_of_digits poly c v < 2 ^ 32
unfolding crc_of_digits
crc_of_digits-word c [] p h = p
crc_of_digits-word c (b ∷ bs) p (h, hs) =
    crc_of_digits-word (after 8 (bit_xor c b)) bs
      (shift_out_all-word poly (omega arith) 8 (bit_xor c b) (xor_below_word c b p (omega arith)))
      hs

slices_lem :
    (c : ℕ) (v : List ℕ) → c < 2 ^ 32 → AreBytes v → slices table c v ≡ ok (crc_of_digits poly c v)
unfolding slices crc_of_digits
slices_lem c [] small h = bytes_left_lem c [] h
slices_lem c (b₀ ∷ []) small h = bytes_left_lem c (b₀ ∷ []) h
slices_lem c (b₀ ∷ b₁ ∷ []) small h = bytes_left_lem c (b₀ ∷ b₁ ∷ []) h
slices_lem c (b₀ ∷ b₁ ∷ b₂ ∷ []) small h = bytes_left_lem c (b₀ ∷ b₁ ∷ b₂ ∷ []) h
slices_lem c (b₀ ∷ b₁ ∷ b₂ ∷ b₃ ∷ []) small h = bytes_left_lem c (b₀ ∷ b₁ ∷ b₂ ∷ b₃ ∷ []) h
slices_lem c (b₀ ∷ b₁ ∷ b₂ ∷ b₃ ∷ b₄ ∷ []) small h =
    bytes_left_lem c (b₀ ∷ b₁ ∷ b₂ ∷ b₃ ∷ b₄ ∷ []) h
slices_lem c (b₀ ∷ b₁ ∷ b₂ ∷ b₃ ∷ b₄ ∷ b₅ ∷ []) small h =
    bytes_left_lem c (b₀ ∷ b₁ ∷ b₂ ∷ b₃ ∷ b₄ ∷ b₅ ∷ []) h
slices_lem c (b₀ ∷ b₁ ∷ b₂ ∷ b₃ ∷ b₄ ∷ b₅ ∷ b₆ ∷ []) small h =
    bytes_left_lem c (b₀ ∷ b₁ ∷ b₂ ∷ b₃ ∷ b₄ ∷ b₅ ∷ b₆ ∷ []) h
slices_lem c (b₀ ∷ b₁ ∷ b₂ ∷ b₃ ∷ b₄ ∷ b₅ ∷ b₆ ∷ b₇ ∷ bs) small
      (h₀, (h₁, (h₂, (h₃, (h₄, (h₅, (h₆, (h₇, hs)))))))) =
    let eight = b₀ ∷ b₁ ∷ b₂ ∷ b₃ ∷ b₄ ∷ b₅ ∷ b₆ ∷ b₇ ∷ [] in
    let are : AreBytes eight = (h₀, (h₁, (h₂, (h₃, (h₄, (h₅, (h₆, (h₇, tt)))))))) in
    let wide = wide_bound c (word_le eight) small (omega arith) in
    let next = crc_of_digits poly c eight in
    rw (eight_bytes_lem (bit_xor c (word_le eight)) wide, sym (crc_of_digits-word_le c eight are))
      (slices_lem next bs (crc_of_digits-word c eight small are) hs)

from_address_lem :
    (address c : ℕ) (v : List ℕ)
    → c < 2 ^ 32
    → AreBytes v
    → from_address table address c v ≡ ok (crc_of_digits poly c v)
unfolding from_address crc_of_digits
from_address_lem address c [] small h = slices_lem c [] small h
from_address_lem address c (b ∷ bs) small (h, hs) = elim (Bool-cases (address % 8 == 0)) [
  | inl e ↦ rw (e, from_address) (slices_lem c (b ∷ bs) small (h, hs))
  | inr e ↦
      rw (e, from_address, one_byte_lem c b h)
        (from_address_lem (address + 1) (after 8 (bit_xor c b)) bs
          (crc_of_digits-word c (b ∷ []) small (h, tt)) hs)
]

-- On bytes `nftp_crc32c` does not fault. Whatever the address of the bytes, it returns the CRC of the
-- reflected polynomial 0x82f63b78, taken in digit by digit from 0xffffffff, and inverted.
pub crc32c_lem :
    (address : ℕ) (v : List ℕ)
    → AreBytes v
    → crc32c address v ≡ ok (bit_xor (crc_of_digits poly 0xffffffff v) 0xffffffff)
unfolding crc32c crc32c_sw
crc32c_lem address v h =
    let crc = crc_of_digits poly 0xffffffff v in
    let word : crc % 2 ^ 32 ≡ crc =
      omega (arith, crc_of_digits-word 0xffffffff v (omega arith) h) in
    rw (crc32c_init_sw-table, from_address_lem address 0xffffffff v (omega arith) h, word)
