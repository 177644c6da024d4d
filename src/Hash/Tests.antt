-- ===== src/Hash/Tests.antt =====
-- src/hash.c on the check value of the CRC.
use nftp_codec.Prelude.{◌++◌, ◌≢◌, List, ℕ, [], ◌∷◌, ◌≡◌, arith}
use nftp_codec.Errors.{ok}
use nftp_codec.Hash.{crc32}
use nftp_codec.Hash.Remainder.{crc_of_digits, shift_out_all, shift_out}
use nftp_codec.Hash.Crc32c.{crc32c}
use nftp_codec.Hash.Crc32c.Slices.{crc32c_lem}
use nftp_codec.Hash.Small.{djb_hashn, fnv1a_hashn, crc}
use nftp_codec.Hash.Small.Undone.{back, djb_undo, fnv1a_undo, crc_undo, hashes_undone}
use nftp_codec.Hash.Crc.{crc32_lem}

-- "123456789"
abbrev digits_in_order : List ℕ
digits_in_order = b'1' ∷ b'2' ∷ b'3' ∷ b'4' ∷ b'5' ∷ b'6' ∷ b'7' ∷ b'8' ∷ b'9' ∷ []

crc32_lem_example : crc32 digits_in_order ≡ ok 0xcbf43926
unfolding crc_of_digits shift_out_all shift_out
crc32_lem_example = crc32_lem digits_in_order (omega arith)

crc32c_lem_example : crc32c 5 digits_in_order ≡ ok 0xe3069283
unfolding crc_of_digits shift_out_all shift_out
crc32c_lem_example = crc32c_lem 5 digits_in_order (omega arith)

-- "1" and "2", before "3".
hashes_undone_example :
    (back djb_undo (djb_hashn digits_in_order) digits_in_order ≡ 5381)
    × (back fnv1a_undo (fnv1a_hashn digits_in_order) digits_in_order ≡ 0x811c9dc5)
    × (back crc_undo (crc digits_in_order) digits_in_order ≡ 0xff)
    × (djb_hashn (digits_in_order ++ b'1' ∷ b'3' ∷ [])
        ≢ djb_hashn (digits_in_order ++ b'2' ∷ b'3' ∷ []))
    × (fnv1a_hashn (digits_in_order ++ b'1' ∷ b'3' ∷ [])
        ≢ fnv1a_hashn (digits_in_order ++ b'2' ∷ b'3' ∷ []))
    × (crc (digits_in_order ++ b'1' ∷ b'3' ∷ []) ≢ crc (digits_in_order ++ b'2' ∷ b'3' ∷ []))
hashes_undone_example =
    hashes_undone digits_in_order (b'3' ∷ []) b'1' b'2' (omega arith) (omega arith) (omega arith)
      (omega arith) (omega arith)
