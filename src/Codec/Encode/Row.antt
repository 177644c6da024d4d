-- ===== src/Codec/Encode/Row.antt =====
-- The row that the encoder builds: 32 cells, of which it uses those round the tenth.
use nftp_codec.Prelude.{
  ℕ, ◌+◌, ◌-◌, ◌<◌, List, [], ◌∷◌, ◌++◌, some, length, ◌≡◌, ◌≢◌, refl, ap, ◌∙◌, arith, true,
}
use nftp_codec.Errors.{success, ok}
use nftp_codec.Mem.{nftp_head}
use nftp_codec.Iovs.{Iovs, Iov, append, push}
use nftp_codec.Iovs
use nftp_codec.Iovs.Valid.{IsValid, contents, length-contents}
use nftp_codec.Iovs.Ends.{push_head_refines, push_tail_refines, low-push_head, low-push_tail}
use nftp_codec.Codec.Encode.{Ptr, null_ptr}

pub record IsRow (low : ℕ) (q : List (Iov Ptr)) (s : Iovs Ptr) : Type 0 where
  pub valid : IsValid null_ptr s
  pub cells : s.cap ≡ 32
  pub starts : s.low ≡ low
  pub holds : contents null_ptr s ≡ q

abbrev pub piece : Ptr → ℕ → Iov Ptr
piece ptr n = record { base = ptr; len = n }

-- A fresh row.
pub alloc-IsRow :
    (cells : List (Iov Ptr))
    → length cells ≡ 32
    → (s : Iovs Ptr) × (Iovs.alloc true (some cells) ≡ (success, some s))
      × IsRow 10 [] s
      × (s.len ≡ 0)
unfolding Iovs.alloc
alloc-IsRow cells h = (
  _,
  refl,
  record {
    valid = record { cells = h; inside = omega arith; counted = refl };
    cells = refl;
    starts = refl;
    holds = refl;
  },
  refl,
)

module _ {low : ℕ} {q : List (Iov Ptr)} {s : Iovs Ptr} (row : IsRow low q s) (ptr : Ptr)
    (n : ℕ) where
  pub append-IsRow :
      low + length q < 32
      → (w : Iovs Ptr) × (append s ptr n ≡ ok (success, w)) × IsRow low (q ++ piece ptr n ∷ []) w
  unfolding append
  append-IsRow room =
      let size = length-contents null_ptr s in
      let (w, e, valid, cap, holds) =
        (push_tail_refines null_ptr row.valid ptr n).0
          (omega (arith, row.cells, row.starts, size, ap length row.holds)) in
      (
        w,
        e,
        record {
          valid = valid;
          cells = cap ∙ row.cells;
          starts = low-push_tail s ptr n e ∙ row.starts;
          holds = holds ∙ ap (λ l. l ++ piece ptr n ∷ []) row.holds;
        },
      )

  pub push_head-IsRow :
      low ≢ 0
      → (w : Iovs Ptr) × (push s ptr n nftp_head ≡ ok (success, w))
        × IsRow (low - 1) (piece ptr n ∷ q) w
  push_head-IsRow room =
      let (w, e, valid, cap, holds) =
        (push_head_refines null_ptr row.valid ptr n).0 (omega (arith, row.starts)) in
      (
        w,
        e,
        record {
          valid = valid;
          cells = cap ∙ row.cells;
          starts = low-push_head s ptr n e ∙ ap (λ k. k - 1) row.starts;
          holds = holds ∙ ap (λ l. piece ptr n ∷ l) row.holds;
        },
      )
