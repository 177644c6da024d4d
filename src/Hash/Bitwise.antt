-- ===== src/Hash/Bitwise.antt =====
-- Laws of exclusive or on numbers: digit by digit, halves, and order of operands.
use nftp_codec.Prelude.{
  ℕ, zero, suc, ◌+◌, ◌*◌, ◌/◌, ◌%◌, ◌^◌, ◌≤◌, ◌<◌, ◌≡◌, refl, sym, ap, ap₂, ◌∙◌, arith,
}
use Prim.Native.Nat.{bit_xor, digits, differ, bit_xor-bitwise}

abbrev xor_digits : ℕ → ℕ → ℕ → ℕ
xor_digits n a b = digits (λ b. b) differ n a b

differ-digit : (a b : ℕ) → a < 2 → b < 2 → differ a b ≡ (a + b) % 2
differ-digit zero zero p q = refl
differ-digit zero (suc zero) p q = refl
differ-digit (suc zero) zero p q = refl
differ-digit (suc zero) (suc zero) p q = refl
differ-digit zero (suc (suc b)) p q = absurd (omega arith)
differ-digit (suc zero) (suc (suc b)) p q = absurd (omega arith)
differ-digit (suc (suc a)) b p q = absurd (omega arith)

-- The recursion has enough rounds when it has as many as the first number.
xor_digits_more : (n m a b : ℕ) → a ≤ n → a ≤ m → xor_digits n a b ≡ xor_digits m a b
xor_digits_more zero zero a b p q = refl
xor_digits_more zero (suc m) zero b p q = refl
xor_digits_more zero (suc m) (suc a) b p q = absurd (omega arith)
xor_digits_more (suc n) zero zero b p q = refl
xor_digits_more (suc n) zero (suc a) b p q = absurd (omega arith)
xor_digits_more (suc n) (suc m) zero b p q = refl
xor_digits_more (suc n) (suc m) (suc a) b p q =
    ap (λ k. k * 2 + differ (suc a % 2) (b % 2))
      (xor_digits_more n m (suc a / 2) (b / 2) (omega arith) (omega arith))

pub zero-xor : (b : ℕ) → bit_xor 0 b ≡ b
zero-xor b = bit_xor-bitwise 0 b

pub xor_step : (a b : ℕ) → bit_xor a b ≡ bit_xor (a / 2) (b / 2) * 2 + (a + b) % 2
xor_step zero b = omega (arith, zero-xor b, zero-xor (b / 2))
xor_step (suc a) b = omega (
  arith,
  bit_xor-bitwise (suc a) b,
  bit_xor-bitwise (suc a / 2) (b / 2),
  xor_digits_more a (suc a / 2) (suc a / 2) (b / 2) (omega arith) (omega arith),
  differ-digit (suc a % 2) (b % 2) (omega arith) (omega arith),
)

pub xor_half : (a b : ℕ) → bit_xor a b / 2 ≡ bit_xor (a / 2) (b / 2)
xor_half a b = omega (arith, xor_step a b)

pub xor_parity : (a b : ℕ) → bit_xor a b % 2 ≡ (a + b) % 2
xor_parity a b = omega (arith, xor_step a b)

xor_quarter : (a b : ℕ) → bit_xor a b / 4 ≡ bit_xor (a / 4) (b / 4)
xor_quarter a b =
    let p : bit_xor a b / 4 ≡ bit_xor a b / 2 / 2 = omega arith in
    let q : a / 2 / 2 ≡ a / 4 = omega arith in
    let r : b / 2 / 2 ≡ b / 4 = omega arith in
    p ∙ ap (λ k. k / 2) (xor_half a b) ∙ xor_half (a / 2) (b / 2) ∙ ap₂ bit_xor q r

xor_nibble : (a b : ℕ) → bit_xor a b / 16 ≡ bit_xor (a / 16) (b / 16)
xor_nibble a b =
    let p : bit_xor a b / 16 ≡ bit_xor a b / 4 / 4 = omega arith in
    let q : a / 4 / 4 ≡ a / 16 = omega arith in
    let r : b / 4 / 4 ≡ b / 16 = omega arith in
    p ∙ ap (λ k. k / 4) (xor_quarter a b) ∙ xor_quarter (a / 4) (b / 4) ∙ ap₂ bit_xor q r

pub xor_byte : (a b : ℕ) → bit_xor a b / 256 ≡ bit_xor (a / 256) (b / 256)
xor_byte a b =
    let p : bit_xor a b / 256 ≡ bit_xor a b / 16 / 16 = omega arith in
    let q : a / 16 / 16 ≡ a / 256 = omega arith in
    let r : b / 16 / 16 ≡ b / 256 = omega arith in
    p ∙ ap (λ k. k / 16) (xor_nibble a b) ∙ xor_nibble (a / 16) (b / 16) ∙ ap₂ bit_xor q r

-- Two numbers are the same when their halves and their parities are.
by_half : (x y : ℕ) → x / 2 ≡ y / 2 → x % 2 ≡ y % 2 → x ≡ y
by_half x y p q = omega arith

swap_below :
    (n a b c : ℕ) → a ≤ n → b ≤ n → c ≤ n → bit_xor (bit_xor a b) c ≡ bit_xor (bit_xor a c) b
swap_below zero zero zero zero p q r = refl
swap_below zero (suc a) b c p q r = absurd (omega arith)
swap_below zero zero (suc b) c p q r = absurd (omega arith)
swap_below zero zero zero (suc c) p q r = absurd (omega arith)
swap_below (suc n) a b c p q r =
    let half = λ (x y : ℕ). xor_half (bit_xor a x) y ∙ ap (λ k. bit_xor k (y / 2)) (xor_half a x) in
    by_half (bit_xor (bit_xor a b) c) (bit_xor (bit_xor a c) b)
      (half b c
        ∙ swap_below n (a / 2) (b / 2) (c / 2) (omega arith) (omega arith) (omega arith)
        ∙ sym (half c b))
      (omega (
        arith,
        xor_parity (bit_xor a b) c,
        xor_parity (bit_xor a c) b,
        xor_parity a b,
        xor_parity a c,
      ))

pub xor_swap : (a b c : ℕ) → bit_xor (bit_xor a b) c ≡ bit_xor (bit_xor a c) b
xor_swap a b c = swap_below (a + b + c) a b c (omega arith) (omega arith) (omega arith)

zero_right_below : (n a : ℕ) → a ≤ n → bit_xor a 0 ≡ a
zero_right_below zero zero h = refl
zero_right_below zero (suc a) h = absurd (omega arith)
zero_right_below (suc n) zero h = refl
zero_right_below (suc n) (suc a) h =
    omega (arith, xor_step (suc a) 0, zero_right_below n (suc a / 2) (omega arith))

pub xor-zero : (a : ℕ) → bit_xor a 0 ≡ a
xor-zero a = zero_right_below a a (omega arith)

pub xor_comm : (a b : ℕ) → bit_xor a b ≡ bit_xor b a
xor_comm a b =
    ap (λ k. bit_xor k b) (sym (zero-xor a)) ∙ xor_swap 0 a b ∙ ap (λ k. bit_xor k a) (zero-xor b)

pub xor_assoc : (a b c : ℕ) → bit_xor (bit_xor a b) c ≡ bit_xor a (bit_xor b c)
xor_assoc a b c = ap (λ k. bit_xor k c) (xor_comm a b) ∙ xor_swap b a c ∙ xor_comm (bit_xor b c) a

self_below : (n a : ℕ) → a ≤ n → bit_xor a a ≡ 0
self_below zero zero h = refl
self_below zero (suc a) h = absurd (omega arith)
self_below (suc n) a h = omega (arith, xor_step a a, self_below n (a / 2) (omega arith))

-- Twice the same is nothing.
pub xor_cancel : (a b : ℕ) → bit_xor (bit_xor a b) b ≡ a
xor_cancel a b = xor_assoc a b b ∙ ap (bit_xor a) (self_below b b (omega arith)) ∙ xor-zero a

xor_half_word : (a b : ℕ) → bit_xor a b / 2 ^ 16 ≡ bit_xor (a / 2 ^ 16) (b / 2 ^ 16)
xor_half_word a b =
    let p : bit_xor a b / 2 ^ 16 ≡ bit_xor a b / 256 / 256 = omega arith in
    let q : a / 256 / 256 ≡ a / 2 ^ 16 = omega arith in
    let r : b / 256 / 256 ≡ b / 2 ^ 16 = omega arith in
    p ∙ ap (λ k. k / 256) (xor_byte a b) ∙ xor_byte (a / 256) (b / 256) ∙ ap₂ bit_xor q r

pub xor_word : (a b : ℕ) → bit_xor a b / 2 ^ 32 ≡ bit_xor (a / 2 ^ 32) (b / 2 ^ 32)
xor_word a b =
    let p : bit_xor a b / 2 ^ 32 ≡ bit_xor a b / 2 ^ 16 / 2 ^ 16 = omega arith in
    let q : a / 2 ^ 16 / 2 ^ 16 ≡ a / 2 ^ 32 = omega arith in
    let r : b / 2 ^ 16 / 2 ^ 16 ≡ b / 2 ^ 32 = omega arith in
    p
    ∙ ap (λ k. k / 2 ^ 16) (xor_half_word a b)
    ∙ xor_half_word (a / 2 ^ 16) (b / 2 ^ 16)
    ∙ ap₂ bit_xor q r

-- Words of 32 bits and bytes are closed under it.
pub xor_below_word : (a b : ℕ) → a < 2 ^ 32 → b < 2 ^ 32 → bit_xor a b < 2 ^ 32
xor_below_word a b p q =
    let a_zero : a / 2 ^ 32 ≡ 0 = omega arith in
    let b_zero : b / 2 ^ 32 ≡ 0 = omega arith in
    omega (arith, xor_word a b, ap₂ bit_xor a_zero b_zero)

pub xor_below_byte : (a b : ℕ) → a < 2 ^ 8 → b < 2 ^ 8 → bit_xor a b < 2 ^ 8
xor_below_byte a b p q =
    let a_zero : a / 256 ≡ 0 = omega arith in
    let b_zero : b / 256 ≡ 0 = omega arith in omega (arith, xor_byte a b, ap₂ bit_xor a_zero b_zero)

-- A byte changes the last byte only.
pub xor_above : (c b : ℕ) → b < 256 → bit_xor c b / 256 ≡ c / 256
xor_above c b h =
    let zero_above : b / 256 ≡ 0 = omega arith in
    xor_byte c b ∙ ap (bit_xor (c / 256)) zero_above ∙ xor-zero (c / 256)
