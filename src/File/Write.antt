-- ===== src/File/Write.antt =====
-- The writing half of src/file.c: the functions that change the disk, and the hash of a file. A disk
-- that changes is a state of a `System`.
pub mod Changes
pub mod Memory
use nftp_codec.Prelude.{
  ℕ, ◌+◌, ◌<◌, ◌^◌, List, [], ◌∷◌, ◌++◌, Option, none, some, length, take, drop, Bool, true, false,
  ◌==◌, if◌then◌else◌, ◌≡◌, ◌≢◌, refl, sym, ap, ◌∙◌, arith, eq→==, ==→eq, take_all, Bool-cases, inl,
  inr,
}
use nftp_codec.Errors.{
  Status, success, err_filepath, err_file, err_filewr, err_filerd, err_mem, err_system, Run, ok,
  fault, ◌>>=◌,
}
use nftp_codec.File.{Disk, open_file, file_size}
use nftp_codec.Hash.Crc32c.{crc32c, poly}
use nftp_codec.Hash.Crc32c.Slices.{crc32c_lem}
use nftp_codec.Hash.Remainder.{AreBytes, crc_of_digits}
use Prim.Native.Nat.{bit_xor}

-- The file system as the functions use it, which is not part of the library. `fopen` for writing or
-- for appending may refuse, and gives the state behind it; `fwrite` gives how many bytes were written
-- at the end of the file, and the state; `unlink` stands for `remove`, and `move` for `rename`.
pub record System : Type 1 where
  pub State : Type 0
  pub disk : State → Disk
  pub open_new : State → List ℕ → Option State
  pub open_end : State → List ℕ → Option State
  pub fwrite : State → List ℕ → List ℕ → ℕ × State
  pub unlink : State → List ℕ → Bool × State
  pub move : State → List ℕ → List ℕ → Bool × State

-- The part of `nftp_file_hash` behind `malloc`, for a file of `sz` bytes: `fopen`, `fread`, and
-- `NFTP_HASH` of a buffer that `malloc` aligned.
pub hash_read : Disk → List ℕ → ℕ → Run (Status × ℕ)
hash_read disk path sz =
    let (status, got) = open_file disk path in
    elim got [
      | none ↦ ok (err_file, 0)
      | some file ↦
          let str = disk.fread 0 sz file in
          let hashed = (do h ← crc32c 0 str; ok (success, h)) in
          if length str == sz then hashed else ok (err_filerd, 0)
    ]

module _ (sys : System) where
  abbrev pub stored : sys.State → List ℕ → Option (List ℕ)
  stored d path = (sys.disk d).stored path

  unfoldable pub file_exist : sys.State → List ℕ → Bool
  file_exist d path = elim (stored d path) [ none ↦ false | some file ↦ true ]

  pub file_remove : sys.State → List ℕ → Status × sys.State
  file_remove d path = elim (file_exist d path) [
    | false ↦ (err_filepath, d)
    | true ↦ let (done, d') = sys.unlink d path in (if done then success else err_file, d')
  ]

  pub file_rename : sys.State → List ℕ → List ℕ → Status × sys.State
  file_rename d from to = elim (file_exist d from) [
    | false ↦ (err_filepath, d)
    | true ↦ let (done, d') = sys.move d from to in (if done then success else err_system, d')
  ]

  -- `fwrite` and the test of what it returns.
  unfoldable pub write_out : sys.State → List ℕ → List ℕ → Status × sys.State
  write_out d path str =
      let (count, d') = sys.fwrite d path str in
      (if count == length str then success else err_filewr, d')

  unfoldable pub file_write : sys.State → List ℕ → List ℕ → Status × sys.State
  file_write d path str = elim (sys.open_new d path) [
    | none ↦ (err_file, d)
    | some d' ↦ write_out d' path str
  ]

  unfoldable pub file_append : sys.State → List ℕ → List ℕ → Status × sys.State
  file_append d path str = elim (file_exist d path) [
    | false ↦ (err_filepath, d)
    | true ↦ elim (sys.open_end d path) [ none ↦ (err_file, d) | some d' ↦ write_out d' path str ]
  ]

  pub file_clear : sys.State → List ℕ → Status × sys.State
  file_clear d path = elim (file_exist d path) [
    | false ↦ (err_filepath, d)
    | true ↦ elim (sys.open_new d path) [ none ↦ (err_file, d) | some d' ↦ (success, d') ]
  ]

  -- The hash value is 0 where the function leaves `*hashval` as it was.
  pub file_hash : (ℕ → Bool) → sys.State → List ℕ → Run (Status × ℕ)
  file_hash malloc d path =
      let (status, size) = file_size (sys.disk d) path in
      elim size [
        | none ↦ ok (status, 0)
        | some sz ↦ elim (malloc sz) [
          | false ↦ ok (err_mem, 0)
          | true ↦ hash_read (sys.disk d) path sz
        ]
      ]

-- What is documented of the calls, where they succeed: which files there are afterwards.
pub record IsSystem (sys : System) : Type 0 where
  pub truncates :
      (d d' : sys.State) (path : List ℕ)
      → sys.open_new d path ≡ some d'
      → stored sys d' path ≡ some []
  pub truncates_one :
      (d d' : sys.State) (path other : List ℕ)
      → sys.open_new d path ≡ some d'
      → other ≢ path
      → stored sys d' other ≡ stored sys d other
  pub opens_end :
      (d d' : sys.State) (path other file : List ℕ)
      → sys.open_end d path ≡ some d'
      → stored sys d path ≡ some file
      → stored sys d' other ≡ stored sys d other
  pub writes :
      (d : sys.State) (path file str : List ℕ)
      → stored sys d path ≡ some file
      → (sys.fwrite d path str).0 ≡ length str
      → stored sys (sys.fwrite d path str).1 path ≡ some (file ++ str)
  pub writes_one :
      (d : sys.State) (path other str : List ℕ)
      → other ≢ path
      → stored sys (sys.fwrite d path str).1 other ≡ stored sys d other
  pub removes :
      (d : sys.State) (path : List ℕ)
      → (sys.unlink d path).0 ≡ true
      → stored sys (sys.unlink d path).1 path ≡ none
  pub moves :
      (d : sys.State) (from to : List ℕ)
      → (sys.move d from to).0 ≡ true
      → stored sys (sys.move d from to).1 to ≡ stored sys d from
  pub reads :
      (d : sys.State) (n m : ℕ) (file : List ℕ) → (sys.disk d).fread n m file ≡ take m (drop n file)
