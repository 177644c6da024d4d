-- ===== src/Iovs/Tests.antt =====
-- src/iovs.c on rows of six cells. A pointer is the address of a block that holds its bytes.
use nftp_codec.Prelude.{
  ℕ, ◌+◌, ◌<◌, ◌≤◌, ◌==◌, if◌then◌else◌, ◌≢◌, List, [], ◌∷◌, Option, none, some, ◌≡◌, refl, arith,
  replicate, length,
}
use nftp_codec.Errors.{success, err_overflow, ok, fault}
use nftp_codec.Mem.{length-cut, cut, nftp_head, nftp_tail}
use nftp_codec.Iovs.{Iov, Iovs, push, pop, insert, cat, iovs2stream}
use nftp_codec.Iovs.Valid.{IsValid, Implements, Delivers, contents, total}
use nftp_codec.Iovs.Ends.{push_head_refines, push_tail_refines, iovs_pop_refines}
use nftp_codec.Iovs.Insert.{iovs_insert_refines, insert_loses}
use nftp_codec.Iovs.Cat.{cat_refines}
use nftp_codec.Iovs.Stream.{join, iovs2stream_lem}
use nftp_codec.Vec.Deque

abbrev piece : ℕ → ℕ → Iov ℕ
piece p n = record { base = p; len = n }

abbrev none_here : Iov ℕ
none_here = piece 0 0

-- Two pieces, of two bytes and of three.
abbrev row : Iovs ℕ
row = record {
  iovs = none_here ∷ none_here ∷ piece 7 2 ∷ piece 8 3 ∷ none_here ∷ none_here ∷ [];
  low = 2;
  len = 2;
  cap = 6;
  iolen = 5;
}

-- The same at the first cell.
abbrev low_row : Iovs ℕ
low_row = record row {
  iovs = piece 7 2 ∷ piece 8 3 ∷ none_here ∷ none_here ∷ none_here ∷ none_here ∷ [];
  low = 0;
}

row-IsValid : IsValid 0 row
row-IsValid = record { cells = refl; inside = omega arith; counted = refl }

low_row-IsValid : IsValid 0 low_row
low_row-IsValid = record { cells = refl; inside = omega arith; counted = refl }

push_head_refines_example :
    (row.low ≢ 0
      → Implements 0 6 (push row 9 4 nftp_head) (success, piece 9 4 ∷ piece 7 2 ∷ piece 8 3 ∷ []))
    × (row.low ≡ 0 → push row 9 4 nftp_head ≡ ok (err_overflow, row))
push_head_refines_example = push_head_refines 0 row-IsValid 9 4

push_tail_refines_example :
    (row.low + row.len < row.cap
      → Implements 0 6 (push row 9 4 nftp_tail) (success, piece 7 2 ∷ piece 8 3 ∷ piece 9 4 ∷ []))
    × (row.low + row.len ≡ row.cap → push row 9 4 nftp_tail ≡ fault)
push_tail_refines_example = push_tail_refines 0 row-IsValid 9 4

iovs_pop_refines_example :
    Delivers 0 6 (pop 0 row nftp_head) (success, some (piece 7 2), piece 8 3 ∷ [])
unfolding Deque.pop
iovs_pop_refines_example = iovs_pop_refines 0 row-IsValid nftp_head

iovs_insert_refines_example :
    Implements 0 6 (insert low_row 9 4 1) (success, piece 7 2 ∷ piece 9 4 ∷ piece 8 3 ∷ [])
iovs_insert_refines_example = iovs_insert_refines 0 9 4 1 low_row-IsValid refl (omega arith)

insert_loses_example :
    (w : Iovs ℕ) × (insert row 9 4 1 ≡ ok (success, w))
    × (contents 0 w ≡ piece 7 2 ∷ piece 8 3 ∷ piece 8 3 ∷ [])
    × (w.iolen ≡ 9)
insert_loses_example = insert_loses 0 9 4 1 row-IsValid (omega arith) (omega arith) (omega arith)

cat_refines_example :
    (row.low + row.len + low_row.len ≤ row.cap
      → Implements 0 6
          (cat row low_row)
          (success, piece 7 2 ∷ piece 8 3 ∷ piece 7 2 ∷ piece 8 3 ∷ []))
    × (row.cap < row.low + row.len + low_row.len → cat row low_row ≡ ok (err_overflow, row))
cat_refines_example = cat_refines 0 row-IsValid low_row-IsValid

-- Block 7 holds two bytes, and block 8 four.
read : ℕ → ℕ → Option (List ℕ)
read p n =
    if p == 7
    then cut (10 ∷ 11 ∷ []) 0 n
    else if p == 8
    then cut (20 ∷ 21 ∷ 22 ∷ 23 ∷ []) 0 n
    else none

read_exact : (p n : ℕ) (b : List ℕ) → read p n ≡ some b → length b ≡ n
unfolding read
read_exact p n b e =
    ground (arith, length-cut (10 ∷ 11 ∷ []) 0 n b, length-cut (20 ∷ 21 ∷ 22 ∷ 23 ∷ []) 0 n b)

memory : ℕ → Option (List ℕ)
memory n = some (replicate n 0)

iovs2stream_lem_example :
    (iovs2stream read memory row ≡ ok (success, some (10 ∷ 11 ∷ 20 ∷ 21 ∷ 22 ∷ [], 5)))
    × (length {A = ℕ} (10 ∷ 11 ∷ 20 ∷ 21 ∷ 22 ∷ []) ≡ total (contents 0 row))
unfolding read memory cut join
iovs2stream_lem_example =
    iovs2stream_lem read read_exact 0 memory row-IsValid (omega arith) refl refl refl
