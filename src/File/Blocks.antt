-- ===== src/File/Blocks.antt =====
-- The blocks of a file are its parts in order, and together they are the file.
use nftp_codec.Prelude.{
  ℕ, zero, suc, ◌+◌, ◌-◌, ◌*◌, ◌/◌, ◌%◌, ◌^◌, ◌≤◌, ◌<◌, List, [], ◌++◌, Option, none, some, length,
  take, drop, Bool, true, ◌≡◌, refl, sym, ap, ◌∙◌, arith, eq→==, ne→==, lt→ltb, le→ltb, take_all,
  length-take, length-drop, drop-drop, take-append-drop, drop_all,
}
use nftp_codec.Prelude.Int.{pos}
use nftp_codec.Errors.{success, err_blocks, Run, ok, ◌>>=◌}
use nftp_codec.File.{Disk, open_file, file_size, file_blocks, file_readblk, read_at, as_word}
use native.Mathlib.Nat.{le-div_iff_mul-le, div-lt_iff_lt-mul, suc-mul, mul-le-mul_left}
use native.Mathlib.Decide.{ℕ_discrete}

-- A disk that reads what stands in the file, as far as it goes.
abbrev pub Reads : Disk → Type 0
Reads disk = (n m : ℕ) (file : List ℕ) → disk.fread n m file ≡ take m (drop n file)

module _ (disk : Disk) (malloc : ℕ → Bool) (blocksz : ℕ) (path : List ℕ) where
  -- The bytes of some block and of those behind it, if both are there.
  abbrev joined : Option (List ℕ × ℕ) → Option (List ℕ) → Option (List ℕ)
  joined (some (str, n)) (some bytes) = some (str ++ bytes)
  joined _ _ = none

  -- Blocks read one after the other from block n on, as a sender does who is told their number.
  pub read_blocks : ℕ → ℕ → Run (Option (List ℕ))
  read_blocks zero n = ok (some [])
  read_blocks (suc count) n = do
    (status, got) ← file_readblk disk malloc blocksz path (pos n)
    bytes ← read_blocks count (suc n)
    ok (joined got bytes)

  -- A file read block by block: what `nftp_file_blocks` counts is how many `nftp_file_readblk` is
  -- asked for.
  pub read_file : Run (Option (List ℕ))
  read_file = do
    (status, got) ← file_blocks disk blocksz path
    elim got [ none ↦ ok none | some count ↦ read_blocks count 0 ]

-- Block n of a file.
abbrev pub block_of : ℕ → List ℕ → ℕ → List ℕ
block_of blocksz file n = take blocksz (drop (n * blocksz) file)

module _ (disk : Disk) (malloc : ℕ → Bool) (blocksz : ℕ) (path file : List ℕ) where
  -- The file is there, opens and reads, memory is granted, blocks have bytes, and no place in the file
  -- passes the range of `uint32_t`.
  pub record Ready : Type 0 where
    pub found : disk.stored path ≡ some file
    pub opened : disk.opens path ≡ true
    pub reading : Reads disk
    pub granted : (n : ℕ) → malloc n ≡ true
    pub some_bytes : 0 < blocksz
    pub small : length file < 2 ^ 31

  module _ (ready : Ready) where
    opened_lem : open_file disk path ≡ (success, some file)
    unfolding open_file
    opened_lem = rw (ready.found, open_file, ready.opened)

    from_small : (n : ℕ) → n ≤ length file / blocksz → n * blocksz ≤ length file
    from_small n h = (le-div_iff_mul-le ready.some_bytes).0 h

    inner : (n : ℕ) → n < length file / blocksz → n * blocksz + blocksz ≤ length file
    inner n h = let full = from_small (suc n) (omega arith) in omega (arith, rw suc-mul at full)

    last_short : (n : ℕ) → n ≡ length file / blocksz → length file < n * blocksz + blocksz
    last_short n h =
        let past =
          (div-lt_iff_lt-mul {x = length file} {y = suc n} ready.some_bytes).0 (omega arith) in
        omega (arith, rw suc-mul at past)

    abbrev part_of : ℕ → List ℕ
    part_of n = take blocksz (drop (n * blocksz) file)

    from_lem :
        (n : ℕ)
        → n < 2 ^ 31
        → n ≤ length file / blocksz
        → as_word (pos n) * blocksz % 2 ^ 32 ≡ n * blocksz
    from_lem n h within =
        let small : n % 2 ^ 32 ≡ n = omega arith in
        ap (λ k. k * blocksz % 2 ^ 32) small ∙ omega (arith, from_small n within, ready.small)

    -- A read that lies in the file gives what stands there.
    read_at_lem :
        (from blksz : ℕ)
        → from + blksz ≤ length file
        → read_at disk malloc file from blksz
          ≡ ok (success, some (take blksz (drop from file), blksz))
    unfolding read_at
    read_at_lem from blksz h =
        let whole : length (take blksz (drop from file)) ≡ blksz =
          omega (arith, length-take blksz (drop from file), length-drop from file) in
        rw (
          ready.reading from blksz file,
          ready.granted (blksz + 1),
          eq→== (length (take blksz (drop from file))) blksz whole,
        )

    inner_length : (n : ℕ) → n < length file / blocksz → length (part_of n) ≡ blocksz
    inner_length n h = omega (
      arith,
      length-take blocksz (drop (n * blocksz) file),
      length-drop (n * blocksz) file,
      inner n h,
    )

    last_length :
        (n : ℕ)
        → n ≡ length file / blocksz
        → (length file + 2 ^ 64 - n * blocksz) % 2 ^ 64 ≡ length (part_of n)
    last_length n h = omega (
      arith,
      length-take blocksz (drop (n * blocksz) file),
      length-drop (n * blocksz) file,
      last_short n h,
      from_small n (omega arith),
      ready.small,
    )

    last_part :
        (n : ℕ)
        → n ≡ length file / blocksz
        → take (length (part_of n)) (drop (n * blocksz) file) ≡ part_of n
    last_part n h =
        let rest = drop (n * blocksz) file in
        let size = length-drop (n * blocksz) file in
        let short = last_short n h in
        let all : part_of n ≡ rest = take_all blocksz rest (omega (arith, size, short)) in
        take_all (length (part_of n)) rest (omega (arith, ap length all)) ∙ sym all

    pub size_lem : file_size disk path ≡ (success, some (length file))
    unfolding file_size
    size_lem = rw (opened_lem, file_size) (ap (λ r. (r.0, some (length file))) opened_lem)

    pub sized_lem : file_blocks disk blocksz path ≡ ok (success, some (length file / blocksz + 1))
    unfolding file_blocks
    sized_lem =
        rw (size_lem, file_blocks, ne→== blocksz 0 (omega (arith, ready.some_bytes)))
          (ap (λ r. ok (r.0, some (length file / blocksz + 1))) size_lem)

    -- For a file that is ready and a number below 2 ^ 31: `nftp_file_readblk` delivers block n of the
    -- file, its part from n times the block size on, one block long or, for the last one, as long as
    -- the rest, and refuses a number past the last by NFTP_ERR_BLOCKS. `nftp_file_blocks` delivers
    -- the size over the block size, plus one.
    pub file_readblk_lem :
        (n : ℕ)
        → n < 2 ^ 31
        → let part = take blocksz (drop (n * blocksz) file) in
          (n ≤ length file / blocksz
            → file_readblk disk malloc blocksz path (pos n)
              ≡ ok (success, some (part, length part)))
          × (length file / blocksz < n
              → file_readblk disk malloc blocksz path (pos n) ≡ ok (err_blocks, none))
          × (file_blocks disk blocksz path ≡ ok (success, some (length file / blocksz + 1)))
    unfolding file_readblk
    file_readblk_lem n h = (
      λ within.
          rw
            (
              opened_lem,
              file_readblk,
              ne→== blocksz 0 (omega (arith, ready.some_bytes)),
              le→ltb (length file / blocksz) n within,
              from_lem n h within,
            )
            (elim (ℕ_discrete n (length file / blocksz)) [
              | yes end ↦
                  rw (eq→== n (length file / blocksz) end, last_length n end)
                    (read_at_lem (n * blocksz) (length (part_of n))
                        (omega (arith, last_length n end, from_small n within))
                      ∙ ap (λ b. ok (success, some (b, length (part_of n)))) (last_part n end))
              | no before ↦
                  rw (ne→== n (length file / blocksz) before, inner_length n (omega arith))
                    (read_at_lem (n * blocksz) blocksz (inner n (omega arith)))
            ]),
      λ past. rw (
        opened_lem,
        file_readblk,
        ne→== blocksz 0 (omega (arith, ready.some_bytes)),
        lt→ltb (length file / blocksz) n past,
      ),
      sized_lem,
    )

    pub in_range : (n : ℕ) → n ≤ length file / blocksz → n < 2 ^ 31
    in_range n h = omega (
      arith,
      from_small n h,
      mul-le-mul_left {m = 1} {n = blocksz} n ready.some_bytes,
      ready.small,
    )

    pub part-append : (n : ℕ) → part_of n ++ drop (suc n * blocksz) file ≡ drop (n * blocksz) file
    part-append n =
        let next : n * blocksz + blocksz ≡ suc n * blocksz = sym (suc-mul n blocksz) in
        ap (λ k. part_of n ++ drop k file) (sym next)
        ∙ ap (λ r. part_of n ++ r) (sym (drop-drop (n * blocksz) blocksz file))
        ∙ take-append-drop blocksz (drop (n * blocksz) file)

    pub none_behind : (n : ℕ) → n ≡ length file / blocksz + 1 → drop (n * blocksz) file ≡ []
    none_behind n h =
        let past = last_short (length file / blocksz) refl in
        let end : n ≡ suc (length file / blocksz) = omega arith in
        let outside : length file ≤ n * blocksz =
          rw (end, suc-mul (length file / blocksz) blocksz) (omega (arith, past)) in
        drop_all (n * blocksz) file outside

    read_blocks_from :
        (count n : ℕ)
        → n + count ≡ length file / blocksz + 1
        → read_blocks disk malloc blocksz path count n ≡ ok (some (drop (n * blocksz) file))
    unfolding read_blocks
    read_blocks_from zero n h = ap (λ r. ok (some r)) (sym (none_behind n (omega arith)))
    read_blocks_from (suc count) n h =
        let within : n ≤ length file / blocksz = omega arith in
        rw (
          (file_readblk_lem n (in_range n within)).0 within,
          read_blocks_from count (suc n) (omega arith),
          part-append n,
        )

    -- For a file that is ready: the blocks from 0 on that `nftp_file_readblk` reads, as many as
    -- `nftp_file_blocks` counts, are all delivered, and one after the other they are the file.
    pub read_file_lem : read_file disk malloc blocksz path ≡ ok (some file)
    unfolding read_file
    read_file_lem =
        let start : 0 * blocksz ≡ 0 = omega arith in
        rw (sized_lem, ◌>>=◌)
          (read_blocks_from (length file / blocksz + 1) 0 (omega arith)
            ∙ ap (λ k. ok (some (drop k file))) start)
