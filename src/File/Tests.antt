-- ===== src/File/Tests.antt =====
-- src/file.c on a file of five bytes, in blocks of two.
use nftp_codec.Prelude.{
  Bool, false, ◌++◌, ◌==◌, ℕ, ◌≤◌, ◌<◌, List, [], ◌∷◌, none, some, true, ◌≡◌, refl, arith, take,
  drop,
}
use nftp_codec.Prelude.Int.{pos}
use nftp_codec.Errors.{err_filename, success, err_blocks, ok}
use nftp_codec.File.{open_file, Disk, file_blocks, file_readblk}
use nftp_codec.File.Text.{IsText, line, until_zero, read_lines, file_read, file_read_lem}
use nftp_codec.File.Name.{suffix, dir_bytes, file_newname, file_newname_lem}
use nftp_codec.File.Blocks.{Ready, read_file, file_readblk_lem, read_file_lem}
use nftp_codec.Hash.Remainder.{crc_of_digits, shift_out_all, shift_out}
use nftp_codec.File.Write.{stored, file_append, file_exist, write_out, file_hash}
use nftp_codec.File.Write.Changes.{file_append_lem, file_hash_lem}
use nftp_codec.File.Write.Memory.{Files, put, same_path, memory_system, memory_system-IsSystem}
use native.Mathlib.Decide.{ℕ_discrete}

abbrev text : List ℕ
text = b'h' ∷ b'e' ∷ b'l' ∷ b'l' ∷ b'o' ∷ []

abbrev disk : Disk
disk = record {
  stored = λ path. some text;
  opens = λ path. true;
  fread = λ n m file. take m (drop n file);
}

disk-Ready : Ready disk (λ n. true) 2 [] text
disk-Ready = record {
  found = refl;
  opened = refl;
  reading = λ n m file. refl;
  granted = λ n. refl;
  some_bytes = omega arith;
  small = omega arith;
}

file_readblk_lem_example :
    (2 ≤ 2 → file_readblk disk (λ n. true) 2 [] (pos 2) ≡ ok (success, some (b'o' ∷ [], 1)))
    × (2 < 2 → file_readblk disk (λ n. true) 2 [] (pos 2) ≡ ok (err_blocks, none))
    × (file_blocks disk 2 [] ≡ ok (success, some 3))
file_readblk_lem_example = file_readblk_lem disk (λ n. true) 2 [] text disk-Ready 2 (omega arith)

read_file_lem_example : read_file disk (λ n. true) 2 [] ≡ ok (some text)
read_file_lem_example = read_file_lem disk (λ n. true) 2 [] text disk-Ready

-- "a_01" exists.
abbrev exists_first : List ℕ → Bool
exists_first (a ∷ b ∷ c ∷ d ∷ []) = d == b'1'
exists_first _ = false

file_newname_lem_example :
    ((i : ℕ)
      → 1 ≤ i
      → i < 100
      → ((j : ℕ)
          → 1 ≤ j
          → j < i
          → exists_first (dir_bytes none ++ ((b'a' ∷ []) ++ suffix j)) ≡ true)
      → exists_first (dir_bytes none ++ ((b'a' ∷ []) ++ suffix i)) ≡ false
      → file_newname exists_first true (b'a' ∷ []) none
        ≡ ok (success, some ((b'a' ∷ []) ++ suffix i)))
    × (((j : ℕ)
          → 1 ≤ j
          → j < 100
          → exists_first (dir_bytes none ++ ((b'a' ∷ []) ++ suffix j)) ≡ true)
        → file_newname exists_first true (b'a' ∷ []) none ≡ ok (err_filename, none))
file_newname_lem_example = file_newname_lem exists_first (b'a' ∷ []) none (omega arith)

-- A disk with one file, "a".
abbrev name_a : List ℕ
name_a = b'a' ∷ []

abbrev one_file : Files
one_file = put (λ path. none) name_a (some text)

file_append_lem_example :
    stored memory_system (put one_file name_a (some (text ++ name_a))) name_a
    ≡ some (text ++ name_a)
unfolding put same_path file_append file_exist write_out ℕ_discrete
file_append_lem_example =
    ((file_append_lem memory_system memory_system-IsSystem one_file
        (put one_file name_a (some (text ++ name_a))) name_a name_a).1
      text refl refl).0

file_hash_lem_example :
    file_hash memory_system (λ n. true) one_file name_a ≡ ok (success, 0x9a71bb4c)
unfolding crc_of_digits shift_out_all shift_out put same_path ℕ_discrete
file_hash_lem_example =
    (file_hash_lem memory_system memory_system-IsSystem (λ n. true) one_file name_a).1 text refl
      refl refl (omega arith)

text-IsText : IsText text
text-IsText = (
  λ same. absurd (omega arith),
  (
    λ same. absurd (omega arith),
    (
      λ same. absurd (omega arith),
      (λ same. absurd (omega arith), (λ same. absurd (omega arith), tt)),
    ),
  ),
)

file_read_lem_example : file_read disk (λ n. true) [] ≡ ok (success, some (text ++ 0 ∷ [], 5))
file_read_lem_example = (file_read_lem disk (λ n. true) []).1 text refl refl refl text-IsText

-- What stands behind a zero in a line is lost.
abbrev cut_text : List ℕ
cut_text = b'a' ∷ 0 ∷ b'b' ∷ 10 ∷ b'c' ∷ []

file_read_cut :
    file_read (record disk { stored = λ path. some cut_text }) (λ n. true) []
    ≡ ok (success, some (b'a' ∷ b'c' ∷ 0 ∷ 0 ∷ 0 ∷ 0 ∷ [], 5))
unfolding file_read read_lines line until_zero open_file
file_read_cut = refl
