-- ===== src/File/Name.antt =====
-- `nftp_file_newname` of src/file.c: the first free name with a number.
use nftp_codec.Prelude.{
  ℕ, zero, suc, ◌+◌, ◌-◌, ◌/◌, ◌%◌, ◌≤◌, ◌<◌, List, [], ◌∷◌, ◌++◌, Option, none, some, length, Bool,
  true, false, leb, if◌then◌else◌, ◌≡◌, refl, ap, ◌∙◌, arith, le→leb, length-append,
}
use nftp_codec.Errors.{Status, success, err_mem, err_filename, Run, ok, fault, ◌>>=◌}

-- What `sprintf(…, "_%02d", i)` writes for a number below 100.
abbrev pub suffix : ℕ → List ℕ
suffix i = b'_' ∷ (48 + i / 10) ∷ (48 + i % 10) ∷ []

-- The directory, which may be NULL, as it is copied to the front of the path.
abbrev pub dir_bytes : Option (List ℕ) → List ℕ
dir_bytes none = []
dir_bytes (some dir) = dir

-- `nftp_file_fullpath` into a buffer of NFTP_FNAME_LEN + NFTP_FDIR_LEN bytes.
unfoldable pub full_path : Option (List ℕ) → List ℕ → Run (List ℕ)
full_path dir fname =
    let full = dir_bytes dir ++ fname in if leb (length full + 1) 320 then ok full else fault

-- `exists_at` is `nftp_file_exist`, and `grants` whether `malloc` gives the name's bytes.
module _ (exists_at : List ℕ → Bool) where
  -- The loop with the rounds left, from number i on.
  pub try_names : List ℕ → Option (List ℕ) → ℕ → ℕ → Run (Status × Option (List ℕ))
  unfolding full_path
  try_names fname dir zero i = ok (err_filename, none)
  try_names fname dir (suc rounds) i = do
    full ← full_path dir (fname ++ suffix i)
    let rest = try_names fname dir rounds (suc i)
    if exists_at full then rest else ok (success, some (fname ++ suffix i))

  pub file_newname : Bool → List ℕ → Option (List ℕ) → Run (Status × Option (List ℕ))
  file_newname false fname dir = ok (err_mem, none)
  file_newname true fname dir = try_names fname dir 99 1

  module _ (fname : List ℕ) (dir : Option (List ℕ))
      (room : length (dir_bytes dir) + length fname < 317) where
    abbrev taken : ℕ → Bool
    taken i = exists_at (dir_bytes dir ++ (fname ++ suffix i))

    full_path_lem :
        (i : ℕ) → full_path dir (fname ++ suffix i) ≡ ok (dir_bytes dir ++ (fname ++ suffix i))
    unfolding full_path
    full_path_lem i =
        let whole = length-append (dir_bytes dir) (fname ++ suffix i) in
        let name = length-append fname (suffix i) in
        rw (
          le→leb (length (dir_bytes dir ++ (fname ++ suffix i)) + 1) 320
            (omega (arith, whole, name)))

    try_taken :
        (rounds i : ℕ)
        → taken i ≡ true
        → try_names fname dir (suc rounds) i ≡ try_names fname dir rounds (suc i)
    unfolding try_names
    try_taken rounds i h = rw (full_path_lem i, h)

    try_free :
        (rounds i : ℕ)
        → taken i ≡ false
        → try_names fname dir (suc rounds) i ≡ ok (success, some (fname ++ suffix i))
    unfolding try_names
    try_free rounds i h = rw (full_path_lem i, h)

    try_first :
        (before rounds i k : ℕ)
        → i + before ≡ k
        → before < rounds
        → ((j : ℕ) → i ≤ j → j < k → taken j ≡ true)
        → taken k ≡ false
        → try_names fname dir rounds i ≡ ok (success, some (fname ++ suffix k))
    try_first before zero i k e h used free = absurd (omega arith)
    try_first zero (suc rounds) i k e h used free =
        let here : i ≡ k = omega arith in
        try_free rounds i (ap taken here ∙ free)
        ∙ ap (λ n. ok (success, some (fname ++ suffix n))) here
    try_first (suc before) (suc rounds) i k e h used free =
        try_taken rounds i (used i (omega arith) (omega arith))
        ∙ try_first before rounds (suc i) k (omega arith) (omega arith)
            (λ j p q. used j (omega arith) q) free

    try_none :
        (rounds i : ℕ)
        → ((j : ℕ) → i ≤ j → j < i + rounds → taken j ≡ true)
        → try_names fname dir rounds i ≡ ok (err_filename, none)
    unfolding try_names
    try_none zero i used = refl
    try_none (suc rounds) i used =
        try_taken rounds i (used i (omega arith) (omega arith))
        ∙ try_none rounds (suc i) (λ j p q. used j (omega arith) (omega arith))

    file_newname_start : file_newname true fname dir ≡ try_names fname dir 99 1
    unfolding file_newname
    file_newname_start = refl

    -- If memory is granted and the path fits its buffer, `nftp_file_newname` delivers the name with
    -- the first number from 1 to 99 under which no file exists, and NFTP_ERR_FILENAME if all exist.
    pub file_newname_lem :
        ((i : ℕ)
          → 1 ≤ i
          → i < 100
          → ((j : ℕ) → 1 ≤ j → j < i → taken j ≡ true)
          → taken i ≡ false
          → file_newname true fname dir ≡ ok (success, some (fname ++ suffix i)))
        × (((j : ℕ) → 1 ≤ j → j < 100 → taken j ≡ true)
            → file_newname true fname dir ≡ ok (err_filename, none))
    file_newname_lem = (
      λ i p q used free.
          file_newname_start ∙ try_first (i - 1) 99 1 i (omega arith) (omega arith) used free,
      λ used. file_newname_start ∙ try_none 99 1 used,
    )
