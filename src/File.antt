-- ===== src/File.antt =====
-- The reading half of src/file.c: the size of a file, the number of its blocks, and one block. A path
-- and a file are lists of bytes.
pub mod Blocks
pub mod Name
pub mod Text
pub mod Write
mod Tests
use nftp_codec.Prelude.{
  ℕ, ◌+◌, ◌-◌, ◌*◌, ◌/◌, ◌%◌, ◌^◌, List, Option, none, some, length, take, drop, Bool, true, false,
  ltb, ◌==◌, if◌then◌else◌,
}
use nftp_codec.Prelude.Int.{ℤ, as_size}
use nftp_codec.Errors.{
  Status, success, err_filepath, err_file, err_blocks, err_filerd, Run, ok, fault,
}

-- The file system, which is not part of the library: `stored` gives the file that exists under a path,
-- `opens` says whether `fopen` opens it to read, and `fread n m f` is what reading m bytes from place
-- n of the file f gives.
pub record Disk : Type 0 where
  pub stored : List ℕ → Option (List ℕ)
  pub opens : List ℕ → Bool
  pub fread : ℕ → ℕ → List ℕ → List ℕ

-- `(uint32_t)n` of an int.
abbrev pub as_word : ℤ → ℕ
as_word n = as_size n % 2 ^ 32

module _ (disk : Disk) where
  -- The guards that the functions start with: `nftp_file_exist`, and `fopen`.
  unfoldable pub open_file : List ℕ → Status × Option (List ℕ)
  open_file path = elim (disk.stored path) [
    | none ↦ (err_filepath, none)
    | some file ↦ if disk.opens path then (success, some file) else (err_file, none)
  ]

  pub file_size : List ℕ → Status × Option ℕ
  file_size path =
      let (status, got) = open_file path in
      elim got [ none ↦ (status, none) | some file ↦ (status, some (length file)) ]

  -- `blocksz` is what `nftp_get_blocksz` returns.
  pub file_blocks : ℕ → List ℕ → Run (Status × Option ℕ)
  unfolding file_size
  file_blocks blocksz path =
      let (status, got) = file_size path in
      elim got [
        | none ↦ ok (status, none)
        | some sz ↦ if blocksz == 0 then fault else ok (status, some (sz / blocksz + 1))
      ]

  -- The end of `nftp_file_readblk`: `malloc` says whether the buffer is given, which is not tested.
  pub read_at : (ℕ → Bool) → List ℕ → ℕ → ℕ → Run (Status × Option (List ℕ × ℕ))
  read_at malloc file from blksz =
      let str = disk.fread from blksz file in
      if malloc (blksz + 1)
      then (if length str == blksz then ok (success, some (str, blksz)) else ok (err_filerd, none))
      else fault

  -- The product of the number and the size is an `uint32_t`.
  pub file_readblk : (ℕ → Bool) → ℕ → List ℕ → ℤ → Run (Status × Option (List ℕ × ℕ))
  unfolding open_file
  file_readblk malloc blocksz path n =
      let (status, got) = open_file path in
      elim got [
        | none ↦ ok (status, none)
        | some file ↦
            let last = length file / blocksz in
            let from = as_word n * blocksz % 2 ^ 32 in
            let rest = (length file + 2 ^ 64 - from) % 2 ^ 64 in
            let blksz = if as_size n == last then rest else blocksz in
            if blocksz == 0
            then fault
            else if ltb last (as_size n)
            then ok (err_blocks, none)
            else read_at malloc file from blksz
      ]
