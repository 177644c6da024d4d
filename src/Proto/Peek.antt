-- ===== src/Proto/Peek.antt =====
-- src/proto.c: what a client can ask of it besides: the name in a HELLO, and the settings.
use nftp_codec.Prelude.{
  ℕ, zero, suc, ◌+◌, List, [], ◌∷◌, ◌++◌, Option, none, some, length, drop, replicate, Bool, true,
  ◌==◌, if◌then◌else◌, ◌≡◌, ◌≢◌, refl, ap, arith, be32, word16-be16, ne→==,
}
use nftp_codec.Errors.{Status, success, err_type, err_filepath, Run, ok, fault, ◌>>=◌}
use nftp_codec.Mem.{load}
use nftp_codec.Codec.{Nftp, hello, kind_of, get_u16, decode}
use nftp_codec.Codec.Decode.{granted}
use nftp_codec.Codec.Encode.{read_block}
use nftp_codec.Codec.Encode.Bytes.{Holds, length-read_block}
use nftp_codec.Codec.Roundtrip.{Fits, received, decode-layout}
use mathlib.Core.Path.{subst}
use nftp_codec.Codec.Encode.Layout.{layout, body}
use nftp_codec.Proto.{Env, State}
use nftp_codec.Proto.Handler.Begun.{IsName}

-- The bytes that `strncpy(…, …, n)` writes, from a source that starts the list.
pub strncpy : List ℕ → ℕ → Run (List ℕ)
strncpy src zero = ok []
strncpy [] (suc n) = fault
strncpy (zero ∷ bs) (suc n) = ok (replicate (suc n) 0)
strncpy (suc b ∷ bs) (suc n) = do rest ← strncpy bs n; ok (suc b ∷ rest)

-- `nftp_proto_hello_get_fname`: the name's block and its length; the length of the message is not used, and
-- what `malloc` returns is not looked at.
pub hello_get_fname : (ℕ → Bool) → List ℕ → Run (Status × Option (List ℕ × ℕ))
hello_get_fname malloc rmsg = do
  type ← load rmsg 0
  let read = (do
    namelen ← get_u16 rmsg 8
    let copied = (do
      name ← strncpy (drop 10 rmsg) namelen
      ok (success, some (name ++ 0 ∷ [], namelen)))
    if malloc (namelen + 1) then copied else fault)
  if type == 1 then read else ok (err_type, none)

-- `nftp_proto_send_start`, which only looks whether the path has a name.
pub send_start : Env → Option (List ℕ) → Status
send_start env none = err_filepath
send_start env (some fpath) =
    if env.memory.grants 0 (length fpath + 16) then success else err_filepath

-- `nftp_get_blocksz`
pub get_blocksz : {env : Env} → State env → ℕ
get_blocksz st = st.blocksz

strncpy_lem :
    (name rest : List ℕ) (n : ℕ)
    → IsName name
    → length name ≡ n
    → strncpy (name ++ rest) n ≡ ok name
unfolding strncpy
strncpy_lem [] rest zero h e = refl
strncpy_lem [] rest (suc n) h e = absurd (omega arith)
strncpy_lem (b ∷ bs) rest zero h e = absurd (omega arith)
strncpy_lem (zero ∷ bs) rest (suc n) h e = absurd (h.0 refl)
strncpy_lem (suc b ∷ bs) rest (suc n) h e = rw (strncpy_lem bs rest n h.1 (omega arith), ◌>>=◌) refl

-- Of the bytes of a HELLO packet whose fields fit, whose length field is right, and whose name has no
-- zero and is as long as the packet says, it delivers the block that `nftp_decode` makes for the name,
-- and its length, if memory is granted. A message that does not start with a HELLO's type is refused.
pub hello_get_fname_lem :
    (malloc : ℕ → Bool) (p r : Nftp) (name : List ℕ)
    → p.type ≡ 1
    → IsName name
    → read_block p.fname p.namelen ≡ some name
    → Fits p
    → p.len ≡ length (layout hello p name [])
    → malloc (p.namelen + 1) ≡ true
    → let v = layout hello p name [] in
      (hello_get_fname malloc v ≡ ok (success, some (name ++ 0 ∷ [], p.namelen)))
      × (decode granted (some r) (some v) ≡ ok (success, some (received hello r p name [])))
      × ((type : ℕ) (rest : List ℕ)
          → type ≢ 1
          → hello_get_fname malloc (type ∷ rest) ≡ ok (err_type, none))
unfolding hello_get_fname get_u16 load layout body kind_of
hello_get_fname_lem malloc p r name greets h held fits whole grants =
    let sized = length-read_block p.fname p.namelen name held in
    let is_hello : kind_of p.type ≡ hello = ap kind_of greets in
    (
      rw
          (
            greets,
            word16-be16 p.namelen fits.namelen,
            grants,
            strncpy_lem name (be32 p.hashcode) p.namelen h sized,
            ◌>>=◌,
          )
          refl,
      subst
          (λ k.
            Holds k p name []
            → p.len ≡ length (layout k p name [])
            → decode granted (some r) (some (layout k p name []))
              ≡ ok (success, some (received k r p name [])))
          is_hello (λ holds long. decode-layout p r name [] holds fits long) held whole,
      λ type rest other. rw (ne→== type 1 other) refl,
    )
