-- ===== src/Hash/Remainder.antt =====
-- Remainders by a reflected polynomial, digit by digit: what a table of 256 entries has to hold, and
-- how several digits are taken in at once.
use nftp_codec.Prelude.{
  ℕ, zero, suc, ◌+◌, ◌*◌, ◌/◌, ◌%◌, ◌^◌, ◌<◌, ◌≡◌, refl, sym, ap, ◌∙◌, arith, Bool, true, false,
  ◌&&◌, ◌==◌, if◌then◌else◌, List, [], ◌∷◌, Bool-cases, inl, inr,
}
use Prim.Native.Nat.{bit_xor}
use nftp_codec.Hash.Bitwise.{
  xor_half, xor_parity, xor_swap, xor_assoc, xor_cancel, xor_step, zero-xor, xor_below_word,
}

-- The numbers are bytes.
abbrev pub AreBytes : List ℕ → Type 0
AreBytes [] = Unit
AreBytes (b ∷ bs) = (b < 256) × AreBytes bs

abbrev pub all_below : ℕ → (ℕ → Bool) → Bool
all_below zero p = true
all_below (suc n) p = p n && all_below n p

pub all_below_lem : (n : ℕ) (p : ℕ → Bool) (i : ℕ) → all_below n p ≡ true → i < n → p i ≡ true
all_below_lem zero p i h below = absurd (omega arith)
all_below_lem (suc n) p i h below = ground (arith, all_below_lem n p i)

-- k digits further up.
abbrev pub up : ℕ → ℕ → ℕ
up zero h = h
up (suc k) h = up k h * 2

-- Nothing is carried between the last k digits and what stands above them.
pub xor_up : (k l h : ℕ) → l < up k 1 → bit_xor l (up k h) ≡ l + up k h
xor_up zero zero h below = omega (arith, zero-xor h)
xor_up zero (suc l) h below = absurd (omega arith)
xor_up (suc k) l h below =
    let half : up k h * 2 / 2 ≡ up k h = omega arith in
    let rest : bit_xor (l / 2) (up k h * 2 / 2) ≡ l / 2 + up k h =
      ap (bit_xor (l / 2)) half ∙ xor_up k (l / 2) h (omega arith) in
    omega (arith, xor_step l (up k h * 2), rest)

module _ (poly : ℕ) where
  -- One more digit.
  unfoldable pub shift_out : ℕ → ℕ
  shift_out c = if c % 2 == 1 then bit_xor (c / 2) poly else c / 2

  unfoldable pub shift_out_all : ℕ → ℕ → ℕ
  shift_out_all zero c = c
  shift_out_all (suc k) c = shift_out_all k (shift_out c)

  -- The CRC: no table, and no loop but over the bytes and the eight digits of each.
  unfoldable pub crc_of_digits : ℕ → List ℕ → ℕ
  crc_of_digits c [] = c
  crc_of_digits c (b ∷ bs) = crc_of_digits (shift_out_all 8 (bit_xor c b)) bs

  shift_out-xor_even : (l h : ℕ) → shift_out (bit_xor l (h * 2)) ≡ bit_xor (shift_out l) h
  unfolding shift_out
  shift_out-xor_even l h =
      let half : bit_xor l (h * 2) / 2 ≡ bit_xor (l / 2) h =
        xor_half l (h * 2) ∙ ap (bit_xor (l / 2)) (omega arith) in
      let parity : bit_xor l (h * 2) % 2 ≡ l % 2 = omega (arith, xor_parity l (h * 2)) in
      rw (parity, half)
        (elim (Bool-cases (l % 2 == 1)) [ inl e ↦ rw e (xor_swap (l / 2) h poly) | inr e ↦ rw e ])

  pub shift_out_all-xor_up :
      (k l h : ℕ) → shift_out_all k (bit_xor l (up k h)) ≡ bit_xor (shift_out_all k l) h
  unfolding shift_out_all
  shift_out_all-xor_up zero l h = refl
  shift_out_all-xor_up (suc k) l h =
      ap (shift_out_all k) (shift_out-xor_even l (up k h)) ∙ shift_out_all-xor_up k (shift_out l) h

  -- Exclusive or goes through the digits.
  shift_out-xor : (a b : ℕ) → shift_out (bit_xor a b) ≡ bit_xor (shift_out a) (shift_out b)
  unfolding shift_out
  shift_out-xor a b =
      let p = a / 2 in
      let q = b / 2 in
      let parity = xor_parity a b in
      rw (xor_half a b) (elim (Bool-cases (a % 2 == 1)) [
        | inl e ↦ elim (Bool-cases (b % 2 == 1)) [
          | inl f ↦
              let g : (bit_xor a b % 2 == 1) ≡ false = ground (arith, parity) in
              rw (e, f, g)
                (sym (
                  sym (xor_assoc (bit_xor p poly) q poly)
                  ∙ ap (λ k. bit_xor k poly) (xor_swap p poly q)
                  ∙ xor_cancel (bit_xor p q) poly))
          | inr f ↦
              let g : (bit_xor a b % 2 == 1) ≡ true = ground (arith, parity) in
              rw (e, f, g) (xor_swap p q poly)
        ]
        | inr e ↦ elim (Bool-cases (b % 2 == 1)) [
          | inl f ↦
              let g : (bit_xor a b % 2 == 1) ≡ true = ground (arith, parity) in
              rw (e, f, g) (xor_assoc p q poly)
          | inr f ↦ let g : (bit_xor a b % 2 == 1) ≡ false = ground (arith, parity) in rw (e, f, g)
        ]
      ])

  pub shift_out_all-xor :
      (k a b : ℕ) → shift_out_all k (bit_xor a b) ≡ bit_xor (shift_out_all k a) (shift_out_all k b)
  unfolding shift_out_all
  shift_out_all-xor zero a b = refl
  shift_out_all-xor (suc k) a b =
      ap (shift_out_all k) (shift_out-xor a b) ∙ shift_out_all-xor k (shift_out a) (shift_out b)

  pub shift_out_all_more :
      (j k c : ℕ) → shift_out_all k (shift_out_all j c) ≡ shift_out_all (j + k) c
  unfolding shift_out_all
  shift_out_all_more zero k c =
      let same : k ≡ 0 + k = omega arith in ap (λ n. shift_out_all n c) same
  shift_out_all_more (suc j) k c =
      let more : suc (j + k) ≡ suc j + k = omega arith in
      shift_out_all_more j k (shift_out c) ∙ ap (λ n. shift_out_all n c) more

  -- A word stays a word.
  pub shift_out_all-word : poly < 2 ^ 32 → (k c : ℕ) → c < 2 ^ 32 → shift_out_all k c < 2 ^ 32
  unfolding shift_out_all shift_out
  shift_out_all-word small zero c h = h
  shift_out_all-word small (suc k) c h =
      shift_out_all-word small k (shift_out c) (elim (Bool-cases (c % 2 == 1)) [
        | inl e ↦ rw e (
            let below : bit_xor (c / 2) poly < 2 ^ 32 =
              xor_below_word (c / 2) poly (omega arith) small in
            below)
        | inr e ↦ rw e (let below : c / 2 < 2 ^ 32 = omega arith in below)
      ])

  -- A number in two parts, its last byte and the rest.
  pub shift_out_all_byte :
      (x : ℕ) → shift_out_all 8 x ≡ bit_xor (shift_out_all 8 (x % 256)) (x / 256)
  shift_out_all_byte x =
      let whole : bit_xor (x % 256) (up 8 (x / 256)) ≡ x =
        xor_up 8 (x % 256) (x / 256) (omega arith) ∙ omega arith in
      ap (shift_out_all 8) (sym whole) ∙ shift_out_all-xor_up 8 (x % 256) (x / 256)
