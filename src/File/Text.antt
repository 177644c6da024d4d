-- ===== src/File/Text.antt =====
-- `nftp_file_read` of src/file.c, which reads a file by its lines.
use nftp_codec.Prelude.{
  ℕ, zero, suc, ◌+◌, ◌-◌, ◌≤◌, ◌<◌, List, [], ◌∷◌, ◌++◌, Option, none, some, length, replicate,
  Bool, true, leb, ◌==◌, if◌then◌else◌, Bool-cases, inl, inr, le→leb, append-nil, append_assoc,
  length-append, ◌≡◌, ◌≢◌, refl, sym, ap, arith,
}
use nftp_codec.Errors.{Status, success, err_filepath, Run, ok, fault, ◌>>=◌}
use nftp_codec.File.{Disk, open_file}

-- What `fgets` reads into a buffer for n bytes and the zero, and what it leaves: to the end of a line.
unfoldable pub line : ℕ → List ℕ → List ℕ × List ℕ
line zero file = ([], file)
line (suc n) [] = ([], [])
line (suc n) (b ∷ bs) =
    let (txt, rest) = line n bs in if b == 10 then (b ∷ [], bs) else (b ∷ txt, rest)

-- A string ends at its first zero.
unfoldable pub until_zero : List ℕ → List ℕ
until_zero [] = []
until_zero (zero ∷ bs) = []
until_zero (suc b ∷ bs) = suc b ∷ until_zero bs

-- The loop with the rounds left: `strcat` behind what is in the block of `size` bytes and the zero.
unfoldable pub read_lines : ℕ → ℕ → List ℕ → List ℕ → Run (List ℕ)
read_lines zero size str file = fault
read_lines (suc rounds) size str [] = ok str
read_lines (suc rounds) size str (b ∷ bs) =
    let (txt, rest) = line 999 (b ∷ bs) in
    let joined = str ++ until_zero txt in
    let further = read_lines rounds size joined rest in
    if leb (length joined) size then further else fault

-- The block, with zeros behind the text, and the size of the file. What `malloc` returns is not
-- looked at.
unfoldable pub file_read : Disk → (ℕ → Bool) → List ℕ → Run (Status × Option (List ℕ × ℕ))
file_read disk malloc path =
    let (rv, got) = open_file disk path in
    elim got as (λ _. Run (Status × Option (List ℕ × ℕ))) [
      | none ↦ ok (rv, none)
      | some file ↦
          let size = length file in
          let read = (do
            str ← read_lines (suc size) size [] file
            ok (success, some (str ++ replicate (size - length str + 1) 0, size))) in
          if malloc (size + 1) then read else fault
    ]

open_missing :
    (disk : Disk) (path : List ℕ)
    → disk.stored path ≡ none
    → open_file disk path ≡ (err_filepath, none)
unfolding open_file
open_missing disk path missing = rw (missing, open_file)

open_there :
    (disk : Disk) (path file : List ℕ)
    → disk.stored path ≡ some file
    → disk.opens path ≡ true
    → open_file disk path ≡ (success, some file)
unfolding open_file
open_there disk path file there opens = rw (there, open_file, opens)

-- There is no zero among the bytes.
abbrev pub IsText : List ℕ → Type 0
IsText [] = Unit
IsText (b ∷ bs) = (b ≢ 0) × IsText bs

until_zero_lem : (txt : List ℕ) → IsText txt → until_zero txt ≡ txt
unfolding until_zero
until_zero_lem [] h = refl
until_zero_lem (zero ∷ bs) h = absurd (h.0 refl)
until_zero_lem (suc b ∷ bs) h = ap (λ t. suc b ∷ t) (until_zero_lem bs h.1)

-- A line and what is behind it.
record Parts (file txt rest : List ℕ) : Type 0 where
  whole : txt ++ rest ≡ file
  text : IsText txt
  text_behind : IsText rest

line_lem : (n : ℕ) (file : List ℕ) → IsText file → Parts file (line n file).0 (line n file).1
unfolding line
line_lem zero file h = record { whole = refl; text = tt; text_behind = h }
line_lem (suc n) [] h = record { whole = refl; text = tt; text_behind = tt }
line_lem (suc n) (b ∷ bs) (nonzero, h) =
    let p = line_lem n bs h in
    elim (Bool-cases (b == 10)) [
      | inl newline ↦ rw (newline) (record { whole = refl; text = (nonzero, tt); text_behind = h })
      | inr other ↦ rw (other) (record {
        whole = ap (λ t. b ∷ t) p.whole;
        text = (nonzero, p.text);
        text_behind = p.text_behind;
      })
    ]

-- It has a byte at least.
line_some : (n b : ℕ) (bs : List ℕ) → IsText (b ∷ bs) → length (line (suc n) (b ∷ bs)).1 ≤ length bs
unfolding line
line_some n b bs (nonzero, h) = elim (Bool-cases (b == 10)) [
  | inl newline ↦ rw (newline) (omega arith)
  | inr other ↦
      let p = line_lem n bs h in
      rw (other) (omega (arith, ap length p.whole, length-append (line n bs).0 (line n bs).1))
]

read_lines_lem :
    (rounds size : ℕ) (str file : List ℕ)
    → IsText file
    → length file < rounds
    → length str + length file ≤ size
    → read_lines rounds size str file ≡ ok (str ++ file)
unfolding read_lines
read_lines_lem zero size str file h enough room = absurd (omega arith)
read_lines_lem (suc rounds) size str [] h enough room = ap ok (sym (append-nil str))
read_lines_lem (suc rounds) size str (b ∷ bs) h enough room =
    let txt = (line 999 (b ∷ bs)).0 in
    let rest = (line 999 (b ∷ bs)).1 in
    let p = line_lem 999 (b ∷ bs) h in
    let behind = line_some 998 b bs h in
    let sizes = length-append txt rest in
    let grown = length-append str txt in
    rw
      (
        until_zero_lem txt p.text,
        le→leb (length (str ++ txt)) size (omega (arith, sizes, grown, ap length p.whole)),
        read_lines_lem rounds size (str ++ txt) rest p.text_behind (omega (arith, behind))
            (omega (arith, sizes, grown, ap length p.whole)),
        append_assoc str txt rest,
        p.whole,
      )
      refl

pub file_read_lem :
    (disk : Disk) (malloc : ℕ → Bool) (path : List ℕ)
    → (disk.stored path ≡ none → file_read disk malloc path ≡ ok (err_filepath, none))
      × ((file : List ℕ)
          → disk.stored path ≡ some file
          → disk.opens path ≡ true
          → malloc (length file + 1) ≡ true
          → IsText file
          → file_read disk malloc path ≡ ok (success, some (file ++ 0 ∷ [], length file)))
unfolding file_read
file_read_lem disk malloc path = (
  λ missing.
      let refused : open_file disk path ≡ (err_filepath, none) = open_missing disk path missing in
      rw (refused, file_read) (ap (λ r. ok (r.0, none)) refused),
  λ file there opens granted text.
      let opened = open_there disk path file there opens in
      let none_left : length file - length file ≡ 0 = omega arith in
      rw
        (
          opened,
          file_read,
          granted,
          read_lines_lem (suc (length file)) (length file) [] file text (omega arith) (omega arith),
          ◌>>=◌,
          none_left,
        )
        refl,
)
