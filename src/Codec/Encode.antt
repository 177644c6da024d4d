-- ===== src/Codec/Encode.antt =====
-- `nftp_encode_iovs` and `nftp_encode`. The row of pieces points into the packet, and the bytes are
-- read only when the stream is made, so each field written to `exbuf` has a place of its own.
pub mod Row
pub mod Layout
pub mod Bytes
use nftp_codec.Prelude.{
  ℕ, ◌+◌, List, [], ◌∷◌, ◌++◌, Option, none, some, Bool, true, false, ◌==◌, if◌then◌else◌, be16,
  be32,
}
use nftp_codec.Errors.{Status, success, err_empty, err_iovs, err_mem, err_type, Run, ok, fault}
use nftp_codec.Errors
use nftp_codec.Mem.{blit, cut, nftp_head}
use nftp_codec.Iovs.{Iovs, Iov, append, push, iovs2stream}
use nftp_codec.Iovs
use nftp_codec.Codec.{Nftp, Kind, hello, ack, file, end, giveme, unknown, kind_of}

-- The pointers that the encoder puts into a row: to the fields `id` and `type` of the packet, to a
-- byte of `exbuf`, and to the blocks of `fname` and `content`.
pub data Ptr : Type 0 where
  null_ptr id_ptr type_ptr fname_ptr content_ptr : Ptr
  exbuf_ptr : ℕ → Ptr

unfoldable pub read_block : Option (List ℕ) → ℕ → Option (List ℕ)
read_block none n = none
read_block (some block) n = cut block 0 n

-- The `n` bytes at a pointer, for a packet as it is at that time.
pub read_ptr : Nftp → Ptr → ℕ → Option (List ℕ)
read_ptr p null_ptr n = none
read_ptr p id_ptr n = cut (p.id ∷ []) 0 n
read_ptr p type_ptr n = cut (p.type ∷ []) 0 n
read_ptr p (exbuf_ptr k) n = cut p.exbuf k n
read_ptr p fname_ptr n = read_block p.fname n
read_ptr p content_ptr n = read_block p.content n

-- The packet and the row that the encoder works on.
abbrev pub State : Type 0
State = Nftp × Iovs Ptr

-- A step that may `goto error`, which is none.
infixl 5 ◌>>=◌
abbrev pub ◌>>=◌ : Run (Option State) → (State → Run (Option State)) → Run (Option State)
ok none >>= f = ok none
ok (some st) >>= f = f st
fault >>= f = fault

-- Whether `push` or `append` returned 0.
abbrev pub unless_error : Nftp → Run (Status × Iovs Ptr) → Run (Option State)
unless_error p (ok (success, s)) = ok (some (p, s))
unless_error p (ok (_, s)) = ok none
unless_error p fault = fault

pub add : Ptr → ℕ → State → Run (Option State)
add ptr n (p, s) = unless_error p (append s ptr n)

pub add_head : Ptr → ℕ → State → Run (Option State)
add_head ptr n (p, s) = unless_error p (push s ptr n nftp_head)

-- `nftp_put_u16(p->exbuf + k, …)` and `nftp_put_u32(p->exbuf + k, …)`
pub put : ℕ → List ℕ → State → Run (Option State)
put k bytes (p, s) =
    let written = λ (b : List ℕ). let q : Nftp = record p { exbuf = b } in some (q, s) in
    Errors.◌>>=◌ (blit p.exbuf k bytes) (λ b. ok (written b))

pub encode_hello : State → Run (Option State)
encode_hello st =
    add id_ptr 1 st
    >>= (λ t. put 4 (be16 t.0.blocks) t)
    >>= add (exbuf_ptr 4) 2
    >>= (λ t. put 6 (be16 t.0.namelen) t)
    >>= add (exbuf_ptr 6) 2
    >>= (λ t. add fname_ptr t.0.namelen t)
    >>= (λ t. put 8 (be32 t.0.hashcode) t)
    >>= add (exbuf_ptr 8) 4

pub encode_ack : State → Run (Option State)
encode_ack st = add id_ptr 1 st >>= (λ t. put 4 (be32 t.0.fileid) t) >>= add (exbuf_ptr 4) 4

pub encode_file : State → Run (Option State)
encode_file st =
    put 4 (be32 st.0.fileid) st
    >>= add (exbuf_ptr 4) 4
    >>= (λ t. put 8 (be16 t.0.blockseq) t)
    >>= add (exbuf_ptr 8) 2
    >>= (λ t. put 10 (be32 t.0.ctlen) t)
    >>= add (exbuf_ptr 10) 4
    >>= (λ t. add content_ptr t.0.ctlen t)

pub encode_giveme : State → Run (Option State)
encode_giveme st =
    put 4 (be32 st.0.fileid) st
    >>= add (exbuf_ptr 4) 4
    >>= (λ t. put 8 (be16 t.0.blockseq) t)
    >>= add (exbuf_ptr 8) 2

-- The end of the function, after the switch.
pub encode_front : State → Run (Option State)
encode_front st = put 0 (be32 st.0.len) st >>= add_head (exbuf_ptr 0) 4 >>= add_head type_ptr 1

-- `error: return (NFTP_ERR_IOVS);`. After an error the packet and the row are not used.
abbrev pub finish : Run (Option State) → Run (Status × Option State)
finish (ok none) = ok (err_iovs, none)
finish (ok (some st)) = ok (success, some st)
finish fault = fault

pub encode_switch : Kind → State → Run (Status × Option State)
encode_switch hello st = finish (encode_hello st >>= encode_front)
encode_switch ack st = finish (encode_ack st >>= encode_front)
encode_switch file st = finish (encode_file st >>= encode_front)
encode_switch end st = finish (encode_file st >>= encode_front)
encode_switch giveme st = finish (encode_giveme st >>= encode_front)
encode_switch unknown st = ok (err_type, none)

pub encode_iovs : State → Run (Status × Option State)
encode_iovs (p, s) =
    if s.len == 0 then encode_switch (kind_of p.type) (p, s) else ok (err_iovs, none)

-- The allocations: the row's struct and cells, and the stream's buffer.
pub encode_stream :
    (ℕ → Option (List ℕ)) → Status × Option State → Run (Status × Option (List ℕ × ℕ))
encode_stream malloc (success, some (p, s)) = iovs2stream (read_ptr p) malloc s
encode_stream malloc (status, st) = ok (status, none)

pub encode_row :
    (ℕ → Option (List ℕ)) → Nftp → Status × Option (Iovs Ptr) → Run (Status × Option (List ℕ × ℕ))
encode_row malloc p (status, none) = ok (status, none)
encode_row malloc p (status, some s) = Errors.◌>>=◌ (encode_iovs (p, s)) (encode_stream malloc)

pub encode :
    Bool
    → Option (List (Iov Ptr))
    → (ℕ → Option (List ℕ))
    → Nftp
    → Run (Status × Option (List ℕ × ℕ))
encode row cells malloc p = encode_row malloc p (Iovs.alloc row cells)
