-- ===== src/Errors.antt =====
-- Status codes of src/nftp.h, and runs that may leave the defined behaviour of C.

-- `enum NFTP_ERR`; `success` is the 0 that every function returns when there is no error, and
-- `err_system` the -1 of `rename`, which `nftp_file_rename` passes on.
pub data Status : Type 0 where
  success : Status
  err_hash err_filepath err_filename err_blocks err_id err_content err_file : Status
  err_mem err_overflow err_empty err_proto err_dirty err_vec err_iovs : Status
  err_flag err_stream err_ht err_type err_filewr err_filerd err_system : Status

-- `fault` is an access outside an allocated object, which C leaves undefined.
pub data Run {ℓ} (A : Type ℓ) : Type ℓ where
  ok : A → Run A
  fault : Run A

infixl 5 ◌>>=◌
abbrev pub ◌>>=◌ {ℓ κ} : {A : Type ℓ} {B : Type κ} → Run A → (A → Run B) → Run B
ok a >>= f = f a
fault >>= f = fault
