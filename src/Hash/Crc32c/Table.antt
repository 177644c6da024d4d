-- ===== src/Hash/Crc32c/Table.antt =====
-- The eight rows of `crc32c_table`: row k holds what an index leaves after 8 * (k + 1) digits.
use nftp_codec.Prelude.{
  ℕ, zero, suc, ◌+◌, ◌*◌, ◌/◌, ◌%◌, ◌^◌, ◌<◌, List, [], ◌∷◌, get_or, tabulate, tabulate_ext,
  length-tabulate, ◌≡◌, refl, sym, ap, ◌∙◌, arith,
}
use Prim.Native.Nat.{bit_xor}
use nftp_codec.Errors.{ok}
use nftp_codec.Mem.{load, load_lem}
use nftp_codec.Hash.Remainder.{shift_out, shift_out_all, shift_out_all_more, shift_out_all_byte}
use nftp_codec.Hash.Crc32c.{
  poly, one_digit, eight_digits, next_row, next_rows, rows_from, crc32c_init_sw, entry,
}

-- After k digits.
abbrev pub after : ℕ → ℕ → ℕ
after k c = shift_out_all poly k c

eight_digits_lem : (n : ℕ) → eight_digits n ≡ after 8 n
unfolding eight_digits one_digit shift_out_all shift_out
eight_digits_lem n = refl

pub row : ℕ → List ℕ
row k = tabulate 256 (after k)

first_lem : tabulate 256 eight_digits ≡ row 8
unfolding row
first_lem = tabulate_ext 256 eight_digits (after 8) (λ n h. eight_digits_lem n)

-- What stands at an index of a tabulated list.
get_or-tabulate : (n : ℕ) (f : ℕ → ℕ) (i : ℕ) → i < n → get_or (tabulate n f) i 0 ≡ f i
get_or-tabulate zero f i h = absurd (omega arith)
get_or-tabulate (suc n) f zero h = refl
get_or-tabulate (suc n) f (suc i) h = get_or-tabulate n (λ k. f (suc k)) i (omega arith)

load-tabulate : (n : ℕ) (f : ℕ → ℕ) (i : ℕ) → i < n → load (tabulate n f) i ≡ ok (f i)
load-tabulate n f i h =
    load_lem (tabulate n f) i 0 (omega (arith, length-tabulate n f))
    ∙ ap ok (get_or-tabulate n f i h)

pub load-row : (k i : ℕ) → i < 256 → load (row k) i ≡ ok (after k i)
unfolding row
load-row k i h = load-tabulate 256 (after k) i h

-- One step of the inner loop is eight more digits.
step_lem : (c : ℕ) → bit_xor (after 8 (c % 2 ^ 8)) (c / 2 ^ 8) ≡ after 8 c
step_lem c = sym (shift_out_all_byte poly c)

next_row-tabulate :
    (k n : ℕ) (f : ℕ → ℕ)
    → next_row (row 8) (tabulate n (λ i. after k (f i)))
      ≡ ok (tabulate n (λ i. after (k + 8) (f i)))
unfolding next_row
next_row-tabulate k zero f = refl
next_row-tabulate k (suc n) f = rw (
  load-row 8 (after k (f 0) % 2 ^ 8) (omega arith),
  next_row-tabulate k n (λ i. f (suc i)),
  step_lem (after k (f 0)),
  shift_out_all_more poly k 8 (f 0),
)

next_row-row : (k : ℕ) → next_row (row 8) (row k) ≡ ok (row (k + 8))
unfolding row
next_row-row k = next_row-tabulate k 256 (λ i. i)

-- `count` rows from the one after k digits on.
rows : ℕ → ℕ → List (List ℕ)
rows zero k = []
rows (suc count) k = row k ∷ rows count (k + 8)

next_rows_lem : (count k : ℕ) → next_rows count (row 8) (row k) ≡ ok (rows count (k + 8))
unfolding next_rows rows
next_rows_lem zero k = refl
next_rows_lem (suc count) k = rw (next_row-row k, next_rows_lem count (k + 8))

pub table : List (List ℕ)
table = rows 8 8

rows_from_lem : rows_from (row 8) ≡ ok table
unfolding rows_from table rows
rows_from_lem = rw (next_rows_lem 7 8)

pub crc32c_init_sw-table : crc32c_init_sw ≡ ok table
unfolding crc32c_init_sw
crc32c_init_sw-table = ap rows_from first_lem ∙ rows_from_lem

pub entry_lem : (k i : ℕ) → k < 8 → i < 256 → entry table k i ≡ ok (after (8 * k + 8) i)
unfolding entry table rows load
entry_lem zero i h below = load-row 8 i below
entry_lem (suc zero) i h below = load-row 16 i below
entry_lem (suc (suc zero)) i h below = load-row 24 i below
entry_lem (suc (suc (suc zero))) i h below = load-row 32 i below
entry_lem (suc (suc (suc (suc zero)))) i h below = load-row 40 i below
entry_lem (suc (suc (suc (suc (suc zero))))) i h below = load-row 48 i below
entry_lem (suc (suc (suc (suc (suc (suc zero)))))) i h below = load-row 56 i below
entry_lem (suc (suc (suc (suc (suc (suc (suc zero))))))) i h below = load-row 64 i below
entry_lem (suc (suc (suc (suc (suc (suc (suc (suc k)))))))) i h below = absurd (omega arith)
