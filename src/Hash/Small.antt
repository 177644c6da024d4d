-- ===== src/Hash/Small.antt =====
-- src/hash.c: the two multiplicative hashes and the checksum of eight bits.
pub mod Undone
use nftp_codec.Prelude.{
  ℕ, zero, suc, ◌*◌, ◌%◌, ◌^◌, ◌<◌, List, [], ◌∷◌, leb, if◌then◌else◌, arith, Bool-cases, inl, inr,
}
use Prim.Native.Nat.{bit_xor}
use nftp_codec.Hash.Bitwise.{xor_below_word, xor_below_byte}
use nftp_codec.Hash.Remainder.{AreBytes}

-- The loop of `nftp_djb_hashn`.
pub djb_from : ℕ → List ℕ → ℕ
djb_from hash [] = hash
djb_from hash (b ∷ bs) = djb_from (bit_xor (33 * hash % 2 ^ 32) b) bs

pub djb_hashn : List ℕ → ℕ
unfolding djb_from
djb_hashn cp = djb_from 5381 cp

-- The loop of `nftp_fnv1a_hashn`.
pub fnv1a_from : ℕ → List ℕ → ℕ
fnv1a_from hash [] = hash
fnv1a_from hash (b ∷ bs) = fnv1a_from (bit_xor hash b * 0x01000193 % 2 ^ 32) bs

pub fnv1a_hashn : List ℕ → ℕ
unfolding fnv1a_from
fnv1a_hashn cp = fnv1a_from 0x811c9dc5 cp

-- `crc & 0x80` of a byte says whether it is 0x80 or more.
pub crc_digit : ℕ → ℕ
crc_digit crc = if leb 0x80 crc then bit_xor (crc * 2) 0x31 % 2 ^ 8 else crc * 2 % 2 ^ 8

-- The inner loop with the rounds left.
pub crc_digits : ℕ → ℕ → ℕ
crc_digits zero crc = crc
crc_digits (suc rounds) crc = crc_digits rounds (crc_digit crc)

pub crc_from : ℕ → List ℕ → ℕ
crc_from crc [] = crc
crc_from crc (b ∷ bs) = crc_from (crc_digits 8 (bit_xor crc b)) bs

pub crc : List ℕ → ℕ
unfolding crc_from crc_digits crc_digit
crc bytes = crc_from 0xff bytes
