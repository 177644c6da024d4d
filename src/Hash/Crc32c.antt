-- ===== src/Hash/Crc32c.antt =====
-- src/hash.c: `nftp_crc32c`, which `NFTP_HASH` stands for. The tables are rows of 256 words; the
-- flag that keeps them from being built twice is left out.
pub mod Table
pub mod Slices
use nftp_codec.Prelude.{
  ℕ, zero, suc, ◌+◌, ◌*◌, ◌/◌, ◌%◌, ◌^◌, List, [], ◌∷◌, tabulate, ◌==◌, if◌then◌else◌, true, false,
}
use Prim.Native.Nat.{bit_xor}
use nftp_codec.Errors.{Run, ok, fault, ◌>>=◌}
use nftp_codec.Mem.{load}

-- `POLY`
abbrev pub poly : ℕ
poly = 0x82f63b78

-- `crc = crc & 1 ? (crc >> 1) ^ POLY : crc >> 1;`
pub one_digit : ℕ → ℕ
one_digit crc = if crc % 2 == 1 then bit_xor (crc / 2) poly else crc / 2

pub eight_digits : ℕ → ℕ
unfolding one_digit
eight_digits n =
    let crc = one_digit (one_digit (one_digit (one_digit n))) in
    one_digit (one_digit (one_digit (one_digit crc)))

-- `crc = crc32c_table[0][crc & 0xff] ^ (crc >> 8);` over a row, for the loop over `n`.
pub next_row : List ℕ → List ℕ → Run (List ℕ)
next_row first [] = ok []
next_row first (crc ∷ row) = do
  t ← load first (crc % 2 ^ 8)
  rest ← next_row first row
  ok (bit_xor t (crc / 2 ^ 8) ∷ rest)

-- The loop over `k` with the rounds left.
pub next_rows : ℕ → List ℕ → List ℕ → Run (List (List ℕ))
next_rows zero first row = ok []
next_rows (suc k) first row = do
  next ← next_row first row
  rest ← next_rows k first next
  ok (next ∷ rest)

pub rows_from : List ℕ → Run (List (List ℕ))
rows_from first = do rest ← next_rows 7 first first; ok (first ∷ rest)

pub crc32c_init_sw : Run (List (List ℕ))
crc32c_init_sw = rows_from (tabulate 256 eight_digits)

-- `crc32c_table[k][i]`
pub entry : List (List ℕ) → ℕ → ℕ → Run ℕ
entry table k i = do row ← load table k; load row i

-- `crc = crc32c_table[0][(crc ^ *next++) & 0xff] ^ (crc >> 8);`
pub one_byte : List (List ℕ) → ℕ → ℕ → Run ℕ
one_byte table crc byte = do
  t ← entry table 0 (bit_xor crc byte % 2 ^ 8)
  ok (bit_xor t (crc / 2 ^ 8))

-- The last loop, `while (len)`.
pub bytes_left : List (List ℕ) → ℕ → List ℕ → Run ℕ
bytes_left table crc [] = ok crc
bytes_left table crc (b ∷ bs) = do c ← one_byte table crc b; bytes_left table c bs

-- Eight bytes as the little-endian word that `le64toh` gives.
abbrev pub word_le : List ℕ → ℕ
word_le [] = 0
word_le (b ∷ bs) = b + 2 ^ 8 * word_le bs

-- The eight look-ups of one round.
pub eight_bytes : List (List ℕ) → ℕ → Run ℕ
eight_bytes table crc = do
  t₇ ← entry table 7 (crc % 2 ^ 8)
  t₆ ← entry table 6 (crc / 2 ^ 8 % 2 ^ 8)
  t₅ ← entry table 5 (crc / 2 ^ 16 % 2 ^ 8)
  t₄ ← entry table 4 (crc / 2 ^ 24 % 2 ^ 8)
  t₃ ← entry table 3 (crc / 2 ^ 32 % 2 ^ 8)
  t₂ ← entry table 2 (crc / 2 ^ 40 % 2 ^ 8)
  t₁ ← entry table 1 (crc / 2 ^ 48 % 2 ^ 8)
  t₀ ← entry table 0 (crc / 2 ^ 56)
  let a = bit_xor (bit_xor (bit_xor t₇ t₆) t₅) t₄
  ok (bit_xor (bit_xor (bit_xor (bit_xor a t₃) t₂) t₁) t₀)

-- The loop `while (len >= 8)`, and the last one.
pub slices : List (List ℕ) → ℕ → List ℕ → Run ℕ
slices table crc (b₀ ∷ b₁ ∷ b₂ ∷ b₃ ∷ b₄ ∷ b₅ ∷ b₆ ∷ b₇ ∷ bs) = do
  let word = word_le (b₀ ∷ b₁ ∷ b₂ ∷ b₃ ∷ b₄ ∷ b₅ ∷ b₆ ∷ b₇ ∷ [])
  c ← eight_bytes table (bit_xor crc word)
  slices table c bs
slices table crc bs = bytes_left table crc bs

-- The first loop, while the address of the next byte is not a multiple of 8, and the others.
pub from_address : List (List ℕ) → ℕ → ℕ → List ℕ → Run ℕ
from_address table address crc [] = slices table crc []
from_address table address crc (b ∷ bs) = elim (address % 8 == 0) [
  | true ↦ slices table crc (b ∷ bs)
  | false ↦ do c ← one_byte table crc b; from_address table (address + 1) c bs
]

pub crc32c_sw : List (List ℕ) → ℕ → ℕ → List ℕ → Run ℕ
crc32c_sw table crci address buf = do
  crc ← from_address table address (bit_xor crci 0xffffffff) buf
  ok (bit_xor (crc % 2 ^ 32) 0xffffffff)

pub crc32c : ℕ → List ℕ → Run ℕ
crc32c address bytes = do table ← crc32c_init_sw; crc32c_sw table 0 address bytes
