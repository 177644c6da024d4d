-- ===== src/Vec/Reads.antt =====
-- `nftp_vec_get` at an entry of a vector, and just behind the last one.
use nftp_codec.Prelude.{ℕ, ◌+◌, ◌%◌, ◌<◌, none, some, ◌≡◌, arith, lt→ltb, le→ltb}
use nftp_codec.Prelude.Int.{pos}
use nftp_codec.Errors.{success, err_overflow, ok}
use nftp_codec.Mem.{load_lem}
use nftp_codec.Vec.{Vec, get}
use nftp_codec.Vec.Index.{entry}
use nftp_codec.Vec.Valid.{IsValid}

module _ {A : Type 0} (null : A) {v : Vec A} (valid : IsValid v) where
  pub get_within :
      (k : ℕ) → k < v.len → get v (pos k) ≡ ok (success, some (entry null v.vec v.cap v.low k))
  unfolding get
  get_within k h = rw (lt→ltb k v.len h, load_lem v.vec ((v.low + k) % v.cap) null (omega arith))

  pub get_past : get v (pos v.len) ≡ ok (err_overflow, none)
  unfolding get
  get_past = rw (le→ltb v.len v.len (omega arith))
