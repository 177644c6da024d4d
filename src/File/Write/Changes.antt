-- ===== src/File/Write/Changes.antt =====
-- What the functions that write leave on the disk, and the hash of a file.
use nftp_codec.Prelude.{
  ℕ, List, [], ◌++◌, Option, none, some, length, Bool, true, ◌==◌, if◌then◌else◌, ◌≡◌, ◌≢◌, refl,
  ap, ◌∙◌, arith, eq→==, ==→eq, take_all, Bool-cases, inl, inr,
}
use nftp_codec.Errors.{success, err_filepath, err_file, err_filewr, ok}
use nftp_codec.File.{open_file, file_size}
use nftp_codec.Hash.Crc32c.{poly}
use nftp_codec.Hash.Crc32c.Slices.{crc32c_lem}
use nftp_codec.Hash.Remainder.{AreBytes, crc_of_digits}
use Prim.Native.Nat.{bit_xor}
use nftp_codec.File.Write.{
  System, IsSystem, stored, file_exist, file_remove, file_rename, file_write, write_out,
  file_append, hash_read, file_hash,
}

module _ (sys : System) (law : IsSystem sys) where
  file_exist_lem :
      (d : sys.State) (path file : List ℕ)
      → stored sys d path ≡ some file
      → file_exist sys d path ≡ true
  unfolding file_exist
  file_exist_lem d path file e = rw (e, file_exist)

  pub file_rename_lem :
      (d : sys.State) (from to file : List ℕ)
      → stored sys d from ≡ some file
      → (sys.move d from to).0 ≡ true
      → (file_rename sys d from to ≡ (success, (sys.move d from to).1))
        × (stored sys (sys.move d from to).1 to ≡ some file)
  unfolding file_rename
  file_rename_lem d from to file there done = (
    rw (file_exist_lem d from file there, file_rename, done) refl,
    law.moves d from to done ∙ there,
  )

  pub file_remove_lem :
      (d : sys.State) (path file : List ℕ)
      → stored sys d path ≡ some file
      → (sys.unlink d path).0 ≡ true
      → (file_remove sys d path ≡ (success, (sys.unlink d path).1))
        × (stored sys (sys.unlink d path).1 path ≡ none)
  unfolding file_remove
  file_remove_lem d path file there done =
      (rw (file_exist_lem d path file there, file_remove, done) refl, law.removes d path done)

  -- Where a file `path` was extended by some bytes, and every other file is as it was.
  abbrev pub Extended : sys.State → sys.State → List ℕ → List ℕ → List ℕ → Type 0
  Extended d d' path file str =
      (stored sys d' path ≡ some (file ++ str))
      × ((other : List ℕ) → other ≢ path → stored sys d' other ≡ stored sys d other)

  write_out_lem :
      (d d' : sys.State) (path file str : List ℕ)
      → stored sys d path ≡ some file
      → write_out sys d path str ≡ (success, d')
      → Extended d d' path file str
  unfolding write_out
  write_out_lem d d' path file str there done =
      let w = sys.fwrite d path str in
      elim (Bool-cases (w.0 == length str)) [
        | inl e ↦
            let same : w.1 ≡ d' = ap (λ r. r.1) done in
            rw (← same) (
              law.writes d path file str there (==→eq w.0 (length str) e),
              λ other ne. law.writes_one d path other str ne,
            )
        | inr e ↦
            let status : (if w.0 == length str then success else err_filewr) ≡ success =
              ap (λ r. r.0) done in
            absurd (cc (rw e at status))
      ]

  write_opened :
      (d d' : sys.State) (path str : List ℕ) (opened : Option sys.State)
      → sys.open_new d path ≡ opened
      → file_write sys d path str ≡ (success, d')
      → Extended d d' path [] str
  unfolding file_write
  write_opened d d' path str none e done =
      let refused : (err_file, d) ≡ (success, d') = rw (file_write, e) at done in
      let status : err_file ≡ success = ap (λ r. r.0) refused in absurd (cc status)
  write_opened d d' path str (some d₁) e done =
      let run : write_out sys d₁ path str ≡ (success, d') = rw (file_write, e) at done in
      let (own, others) = write_out_lem d₁ d' path [] str (law.truncates d d₁ path e) run in
      (own, λ other ne. others other ne ∙ law.truncates_one d d₁ path other e ne)

  -- If `nftp_file_write` returns 0, the file has the bytes and every other file is as it was.
  pub file_write_lem :
      (d d' : sys.State) (path str : List ℕ)
      → file_write sys d path str ≡ (success, d')
      → Extended d d' path [] str
  file_write_lem d d' path str done = write_opened d d' path str (sys.open_new d path) refl done

  append_there :
      (d d' : sys.State) (path file str : List ℕ) (opened : Option sys.State)
      → stored sys d path ≡ some file
      → sys.open_end d path ≡ opened
      → file_append sys d path str ≡ (success, d')
      → Extended d d' path file str
  unfolding file_append
  append_there d d' path file str none there e done =
      let refused : (err_file, d) ≡ (success, d') =
        rw (file_exist_lem d path file there, file_append, e) at done in
      let status : err_file ≡ success = ap (λ r. r.0) refused in absurd (cc status)
  append_there d d' path file str (some d₁) there e done =
      let run : write_out sys d₁ path str ≡ (success, d') =
        rw (file_exist_lem d path file there, file_append, e) at done in
      let same = λ (other : List ℕ). law.opens_end d d₁ path other file e there in
      let (own, others) = write_out_lem d₁ d' path file str (same path ∙ there) run in
      (own, λ other ne. others other ne ∙ same other)

  -- If `nftp_file_append` to a file that is there returns 0, the file has the bytes behind what it had,
  -- and every other file is as it was. If the file is not there it returns NFTP_ERR_FILEPATH and
  -- changes nothing.
  pub file_append_lem :
      (d d' : sys.State) (path str : List ℕ)
      → (stored sys d path ≡ none → file_append sys d path str ≡ (err_filepath, d))
        × ((file : List ℕ)
            → stored sys d path ≡ some file
            → file_append sys d path str ≡ (success, d')
            → Extended d d' path file str)
  unfolding file_append file_exist
  file_append_lem d d' path str = (
    λ missing. rw (missing, file_exist, file_append),
    λ file there done. append_there d d' path file str (sys.open_end d path) there refl done,
  )

  open_file-some :
      (d : sys.State) (path file : List ℕ)
      → stored sys d path ≡ some file
      → (sys.disk d).opens path ≡ true
      → open_file (sys.disk d) path ≡ (success, some file)
  unfolding open_file
  open_file-some d path file there opens = rw (there, open_file, opens)

  file_size-some :
      (d : sys.State) (path file : List ℕ)
      → stored sys d path ≡ some file
      → (sys.disk d).opens path ≡ true
      → file_size (sys.disk d) path ≡ (success, some (length file))
  unfolding file_size
  file_size-some d path file there opens =
      rw (open_file-some d path file there opens, file_size)
        (ap (λ r. (r.0, some (length file))) (open_file-some d path file there opens))

  file_size-none :
      (d : sys.State) (path : List ℕ)
      → stored sys d path ≡ none
      → file_size (sys.disk d) path ≡ (err_filepath, none)
  unfolding file_size open_file
  file_size-none d path missing =
      let opened : open_file (sys.disk d) path ≡ (err_filepath, none) = rw (missing, open_file) in
      rw (opened, file_size) (ap (λ r. (r.0, none)) opened)

  hash_read_lem :
      (d : sys.State) (path file : List ℕ)
      → stored sys d path ≡ some file
      → (sys.disk d).opens path ≡ true
      → AreBytes file
      → hash_read (sys.disk d) path (length file)
        ≡ ok (success, bit_xor (crc_of_digits poly 0xffffffff file) 0xffffffff)
  unfolding hash_read
  hash_read_lem d path file there opens bytes =
      let whole : (sys.disk d).fread 0 (length file) file ≡ file =
        law.reads d 0 (length file) file ∙ take_all (length file) file (omega arith) in
      rw (
        open_file-some d path file there opens,
        hash_read,
        whole,
        eq→== (length file) (length file) refl,
        crc32c_lem 0 file bytes,
      )

  -- `nftp_file_hash` of a file that is there, opens, and holds bytes delivers its CRC, if memory is
  -- granted; of a file that is not there it returns NFTP_ERR_FILEPATH.
  pub file_hash_lem :
      (malloc : ℕ → Bool) (d : sys.State) (path : List ℕ)
      → (stored sys d path ≡ none → file_hash sys malloc d path ≡ ok (err_filepath, 0))
        × ((file : List ℕ)
            → stored sys d path ≡ some file
            → (sys.disk d).opens path ≡ true
            → malloc (length file) ≡ true
            → AreBytes file
            → file_hash sys malloc d path
              ≡ ok (success, bit_xor (crc_of_digits poly 0xffffffff file) 0xffffffff))
  unfolding file_hash
  file_hash_lem malloc d path = (
    λ missing.
        rw (file_size-none d path missing, file_hash)
          (ap (λ r. ok (r.0, 0)) (file_size-none d path missing)),
    λ file there opens granted bytes.
        rw (file_size-some d path file there opens, file_hash, granted, file_hash)
          (hash_read_lem d path file there opens bytes),
  )
