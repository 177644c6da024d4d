-- ===== src/Iter/Tests.antt =====
-- The iterators on a vector of two entries and on a row of two pieces.
use nftp_codec.Prelude.{replicate, ℕ, [], ◌∷◌, none, some, ◌≡◌, arith}
use nftp_codec.Errors.{ok, fault}
use nftp_codec.Mem.{nftp_tail}
use nftp_codec.Vec.{Vec}
use nftp_codec.Vec.Valid.{IsValid}
use nftp_codec.Iovs.{Iovs}
use nftp_codec.Iter.Row.{iovs_iter_next-cells}
use nftp_codec.Iter.{vec_iter, iovs_iter_next}
use nftp_codec.Iter.Walk.{walk}
use nftp_codec.Prelude.{true, inl}
use nftp_codec.Iter.Handle.{
  vec_source, iter_alloc, iter_next, visits, as_entry, as_entries, visits-contents,
}

abbrev two : Vec ℕ
two = record { cap = 4; len = 2; low = 3; vec = 9 ∷ 0 ∷ 0 ∷ 8 ∷ [] }

two-IsValid : IsValid two
two-IsValid = omega arith

visits-contents_example :
    (visits 3 (iter_alloc {P = ℕ} true (vec_source two))
      ≡ ok (some (inl 8) ∷ some (inl 9) ∷ none ∷ []))
    × (iter_next {A = ℕ} {P = ℕ} none ≡ ok none)
unfolding as_entries as_entry
visits-contents_example = visits-contents ℕ two 0 two-IsValid

abbrev row : Iovs ℕ
row = record {
  iovs = replicate 4 (record { base = 7; len = 1 });
  low = 1;
  len = 2;
  cap = 4;
  iolen = 2;
}

iovs_iter_next-cells_example :
    (walk (iovs_iter_next row) 3 vec_iter
      ≡ ok (some 1 ∷ some 2 ∷ none ∷ [], record { key = nftp_tail; val = none }))
    × (iovs_iter_next row (record { key = nftp_tail; val = none }) ≡ fault)
iovs_iter_next-cells_example = iovs_iter_next-cells row (omega arith)
