-- ===== src/Hash/Crc.antt =====
-- `nftp_crc32` computes the CRC of its polynomial, digit by digit.
use nftp_codec.Prelude.{ℕ, ◌%◌, ◌<◌, ◌≡◌, refl, arith, true, ◌==◌, List, [], ◌∷◌, get_or, ==→eq}
use Prim.Native.Nat.{bit_xor}
use nftp_codec.Errors.{Run, ok, fault, ◌>>=◌}
use nftp_codec.Mem.{load_lem}
use nftp_codec.Hash.{crc32_table, feed, feed_rest, feed_eights, crc32}
use nftp_codec.Hash.Bitwise.{xor_above}
use nftp_codec.Hash.Remainder.{
  AreBytes, all_below, all_below_lem, shift_out, shift_out_all, shift_out_all_byte, crc_of_digits,
}

-- The reflected polynomial of the CRC.
abbrev pub crc32_poly : ℕ
crc32_poly = 0xedb88320

table_checked : all_below 256 (λ i. get_or crc32_table i 0 == shift_out_all crc32_poly 8 i) ≡ true
unfolding shift_out_all shift_out
table_checked = refl

-- Every entry of the table is the remainder that its index leaves after eight digits.
pub get_or-crc32_table : (i : ℕ) → i < 256 → get_or crc32_table i 0 ≡ shift_out_all crc32_poly 8 i
get_or-crc32_table i h = ==→eq (get_or crc32_table i 0) (shift_out_all crc32_poly 8 i) (
    all_below_lem 256 (λ i. get_or crc32_table i 0 == shift_out_all crc32_poly 8 i) i table_checked
      h)

-- One step with the table is eight digits.
feed_lem : (c b : ℕ) → b < 256 → feed c b ≡ ok (shift_out_all crc32_poly 8 (bit_xor c b))
unfolding feed
feed_lem c b h =
    let x = bit_xor c b in
    rw (
      load_lem crc32_table (x % 256) 0 (omega arith),
      get_or-crc32_table (x % 256) (omega arith),
      shift_out_all_byte crc32_poly x,
      xor_above c b h,
    )

feed_rest_lem :
    (c : ℕ) (v : List ℕ) → AreBytes v → feed_rest c v ≡ ok (crc_of_digits crc32_poly c v)
unfolding feed_rest crc_of_digits
feed_rest_lem c [] h = refl
feed_rest_lem c (b ∷ bs) (h, hs) =
    rw (feed_lem c b h) (feed_rest_lem (shift_out_all crc32_poly 8 (bit_xor c b)) bs hs)

then_same : (m : Run ℕ) {f g : ℕ → Run ℕ} → ((c : ℕ) → f c ≡ g c) → (m >>= f) ≡ (m >>= g)
then_same (ok c) same = same c
then_same fault same = refl

-- Eight bytes at a time are the bytes one by one.
feed_eights-feed_rest : (c : ℕ) (v : List ℕ) → feed_eights c v ≡ feed_rest c v
unfolding feed_eights feed_rest
feed_eights-feed_rest c [] = refl
feed_eights-feed_rest c (b₀ ∷ []) = refl
feed_eights-feed_rest c (b₀ ∷ b₁ ∷ []) = refl
feed_eights-feed_rest c (b₀ ∷ b₁ ∷ b₂ ∷ []) = refl
feed_eights-feed_rest c (b₀ ∷ b₁ ∷ b₂ ∷ b₃ ∷ []) = refl
feed_eights-feed_rest c (b₀ ∷ b₁ ∷ b₂ ∷ b₃ ∷ b₄ ∷ []) = refl
feed_eights-feed_rest c (b₀ ∷ b₁ ∷ b₂ ∷ b₃ ∷ b₄ ∷ b₅ ∷ []) = refl
feed_eights-feed_rest c (b₀ ∷ b₁ ∷ b₂ ∷ b₃ ∷ b₄ ∷ b₅ ∷ b₆ ∷ []) = refl
feed_eights-feed_rest c (b₀ ∷ b₁ ∷ b₂ ∷ b₃ ∷ b₄ ∷ b₅ ∷ b₆ ∷ b₇ ∷ bs) = then_same (feed c b₀) λ c₁.
    then_same (feed c₁ b₁) λ c₂. then_same (feed c₂ b₂) λ c₃. then_same (feed c₃ b₃) λ c₄.
      then_same (feed c₄ b₄) λ c₅.
        then_same (feed c₅ b₅) λ c₆.
          then_same (feed c₆ b₆) λ c₇. then_same (feed c₇ b₇) λ c₈. feed_eights-feed_rest c₈ bs

-- On bytes `nftp_crc32` does not fault. It returns the CRC of the reflected polynomial 0xedb88320,
-- taken in digit by digit from 0xffffffff, and inverted.
pub crc32_lem :
    (v : List ℕ)
    → AreBytes v
    → crc32 v ≡ ok (bit_xor (crc_of_digits crc32_poly 0xffffffff v) 0xffffffff)
unfolding crc32
crc32_lem v h = rw (feed_eights-feed_rest 0xffffffff v, feed_rest_lem 0xffffffff v h)
