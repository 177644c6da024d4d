-- ===== src/Proto/Handler/Begun.antt =====
-- What a HELLO finds, and what it leaves.
use nftp_codec.Prelude.{
  ℕ, zero, suc, ◌+◌, ◌≤◌, ◌^◌, ◌%◌, List, [], ◌∷◌, ◌++◌, none, some, length, set, ◌≡◌, ◌≢◌, refl,
  ap, ◌∙◌, arith, length-append,
}
use nftp_codec.Prelude.Int.{pos, as_size}
use nftp_codec.Errors.{success, Run, ok, ◌>>=◌}
use nftp_codec.Mem.{store, store_lem}
use nftp_codec.File.Name.{dir_bytes}
use nftp_codec.File.Write.{stored, file_write}
use nftp_codec.Codec.{Nftp, decode}
use nftp_codec.Codec.Decode.{granted}
use nftp_codec.Proto.{Env, State, FileCb, Nctx, c_string}
use nftp_codec.Proto.Blocks.Receiving.{Receiving}
use nftp_codec.Proto.Receiver.{Reply}
use nftp_codec.Proto.Receiver.Finish.{sum_of, IsDefault}
use nftp_codec.Proto.Receiver.Steps.{Transfer}

-- The characters of a name, none of which ends a string.
abbrev pub IsName : List ℕ → Type 0
IsName [] = Unit
IsName (b ∷ bs) = (b ≢ 0) × IsName bs

pub c_string_lem : (name : List ℕ) → IsName name → c_string (name ++ 0 ∷ []) ≡ ok name
unfolding c_string
c_string_lem [] h = refl
c_string_lem (zero ∷ bs) h = absurd (h.0 refl)
c_string_lem (suc b ∷ bs) h = rw (c_string_lem bs h.1, ◌>>=◌) refl

-- The last cell of a store is written.
set_last :
    {A : Type 0} (heap : List A) (x y : A) → set (heap ++ x ∷ []) (length heap) y ≡ heap ++ y ∷ []
set_last [] x y = refl
set_last (z ∷ heap) x y = ap (λ h. z ∷ h) (set_last heap x y)

pub stored_last :
    {A : Type 0} (heap : List A) (x y : A)
    → store (heap ++ x ∷ []) (length heap) y ≡ ok (heap ++ y ∷ [])
stored_last heap x y =
    store_lem (heap ++ x ∷ []) (length heap) y (omega (arith, length-append heap (x ∷ [])))
    ∙ ap ok (set_last heap x y)

-- `.part`
abbrev pub part_suffix : List ℕ
part_suffix = b'.' ∷ b'p' ∷ b'a' ∷ b'r' ∷ b't' ∷ []

-- Where the part file stands.
abbrev pub part_path : {env : Env} → State env → List ℕ → List ℕ
part_path st fname = dir_bytes st.recvdir ++ (fname ++ part_suffix)

module _ {env : Env} where
  -- A name that fits the buffers, under which no file stands yet, and whose part file can be written.
  pub record Vacant (st : State env) (fname : List ℕ) : Type 0 where
    pub short : length fname ≤ 66
    pub room : length (dir_bytes st.recvdir) + length fname ≤ 314
    pub new : stored env.sys st.disk (dir_bytes st.recvdir ++ fname) ≡ none
    pub writes :
        (file_write env.sys st.disk (dir_bytes st.recvdir ++ (fname ++ part_suffix)) []).0 ≡ success

  -- What a HELLO leaves: its file is entered, with nothing of it received, and the first callback.
  pub record Begun (st : State env) (n : Nftp) (fname : List ℕ) (first : FileCb) (at : ℕ)
      (ctx : Nctx) (address : ℕ) (st' : State env) : Type 0 where
    pub transfer :
        Transfer st' (sum_of fname) at ctx fname (dir_bytes st.recvdir ++ (fname ++ part_suffix))
    pub receiving :
        (blocks : ℕ → List ℕ)
        → Receiving env.sys
            (dir_bytes st.recvdir ++ (fname ++ part_suffix))
            blocks
            ctx.cap
            ctx.nextid
            ctx.entries
            st'.disk
    pub nextid : ctx.nextid ≡ 0
    pub cap : ctx.cap ≡ n.blocks
    pub hashcode : ctx.hashcode ≡ n.hashcode
    pub fileid : ctx.fileid ≡ sum_of fname
    pub fcb : ctx.fcb ≡ some address
    pub default : IsDefault st' address first
    pub recvdir : st'.recvdir ≡ st.recvdir
    pub ran : st'.ran ≡ st.ran

  -- The answer is an ACK.
  abbrev pub Acked : Nftp → List ℕ → Nftp → State env → Run (Reply × State env) → Type 0
  Acked n fname r st' run =
      (ack : List ℕ) × (run ≡ ok (record { status = success; rmsg = some ack }, st'))
      × (decode granted (some r) (some ack)
          ≡ ok (
            success,
            some (record r {
              type = 2;
              len = 10;
              id = as_size (pos n.id) % 2 ^ 8;
              fileid = sum_of (env.base_name fname);
            }),
          ))
