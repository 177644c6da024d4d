-- ===== src/Proto.antt =====
-- src/proto.c: what the protocol handler keeps, and what it uses. Objects that are shared by pointers
-- stand in two stores, `fcbs` and `ctxs`, whose addresses are places in a list; a freed one is none.
pub mod Registry
pub mod Blocks
pub mod Receiver
pub mod Transfers
pub mod Sender
pub mod Handler
pub mod Shutdown
pub mod Exchange
pub mod Peek
pub mod Example
pub mod World
mod Tests
use nftp_codec.Prelude.{
  ℕ, zero, suc, ◌+◌, ◌*◌, List, [], ◌∷◌, ◌++◌, Option, none, some, length, set, Bool, ◌≢◌, true,
  false, leb, ◌==◌, ◌≡◌, ◌&&◌, if◌then◌else◌,
}
use nftp_codec.Errors.{Run, ok, fault, ◌>>=◌}
use nftp_codec.Mem.{load, store, or_fault}
use nftp_codec.Iovs.{Iov}
use nftp_codec.Vec.{Vec}
use nftp_codec.File.Write.{System}
use nftp_codec.Codec.Encode.{Ptr}

-- What `ht_insert` returns: HT_INSERTED, HT_UPDATED or HT_ERROR.
pub data Insertion : Type 0 where
  inserted updated failed : Insertion

-- The hash table of hashtable/, which is another project's library, with keys of 32 bits. `lookup` is
-- none for the NULL of `ht_lookup`, `erase` says whether it returned HT_SUCCESS, and
-- `visits` are the values that `ht_iterate` gives to its callback.
pub record Hashtable (V : Type 0) : Type 1 where
  pub Table : Type 0
  pub contains : Table → ℕ → Bool
  pub lookup : Table → ℕ → Option V
  pub insert : Table → ℕ → V → Insertion × Table
  pub erase : Table → ℕ → Bool × Table
  pub visits : Table → List V
  pub clear : Table → Table

-- What is documented of them, for the keys and values that are put in.
pub record IsHashtable {V : Type 0} (t : Hashtable V) : Type 0 where
  pub inserts :
      (s : t.Table) (k : ℕ) (v : V)
      → (t.insert s k v).0 ≡ inserted
      → (t.contains (t.insert s k v).1 k ≡ true) × (t.lookup (t.insert s k v).1 k ≡ some v)
  pub erases : (s : t.Table) (k : ℕ) → t.contains s k ≡ true → (t.erase s k).0 ≡ true
  pub renews : (s : t.Table) (k : ℕ) (v : V) → t.contains s k ≡ true → (t.insert s k v).0 ≢ inserted
  pub forgets :
      (s : t.Table) (k : ℕ) → (t.erase s k).0 ≡ true → t.contains (t.erase s k).1 k ≡ false

-- What `malloc` gives: `grants` says of a request, by its place in the function and its size, whether
-- it is met; the others are the memory of an encoding, and of a packet.
pub record Memory : Type 0 where
  pub grants : ℕ → ℕ → Bool
  pub buffer : ℕ → Option (List ℕ)
  pub cells : Option (List (Iov Ptr))
  pub exbuf : Option (List ℕ)

-- What the code uses that is not part of the repository's own: the file system, the two hash tables,
-- memory, and `basename`.
pub record Env : Type 1 where
  pub sys : System
  pub files : Hashtable ℕ
  pub senders : Hashtable (List ℕ)
  pub memory : Memory
  pub base_name : List ℕ → List ℕ

-- `struct file_cb`. The callback is named by a number, and none is NULL.
pub record FileCb : Type 0 where
  pub fname : List ℕ
  pub cb : Option ℕ
  pub arg : ℕ

-- `struct buf`
pub record Buf : Type 0 where
  pub body : Option (List ℕ)
  pub len : ℕ

-- `enum NFTP_STATUS`
pub data Progress : Type 0 where
  status_hello status_ack status_transfer status_end status_finish : Progress

-- `struct nctx`; `fcb` is an address or NULL, and `status` is none before it is first set.
pub record Nctx : Type 0 where
  pub len : ℕ
  pub cap : ℕ
  pub nextid : ℕ
  pub entries : List Buf
  pub fileid : ℕ
  pub hashcode : ℕ
  pub fcb : Option ℕ
  pub wfname : Option (List ℕ)
  pub status : Option Progress

-- The static variables, the disk, and the callbacks that were run with their arguments.
pub record State (env : Env) : Type 0 where
  pub recvdir : Option (List ℕ)
  pub blocksz : ℕ
  pub files : env.files.Table
  pub senderfiles : env.senders.Table
  pub fcb_reg : Vec ℕ
  pub fcbs : List (Option FileCb)
  pub ctxs : List (Option Nctx)
  pub disk : env.sys.State
  pub ran : List (ℕ × ℕ)

-- The object at an address, unless it was freed.
unfoldable pub deref : {A : Type 0} → List (Option A) → ℕ → Run A
deref store_of address = do cell ← load store_of address; or_fault cell

-- `strcmp(…) == 0`
abbrev pub same_name : List ℕ → List ℕ → Bool
same_name [] [] = true
same_name (a ∷ xs) (b ∷ ys) = (a == b) && same_name xs ys
same_name _ _ = false

-- The string that starts a block.
pub c_string : List ℕ → Run (List ℕ)
c_string [] = fault
c_string (zero ∷ bs) = ok []
c_string (suc b ∷ bs) = do rest ← c_string bs; ok (suc b ∷ rest)

-- `nftp_file_partname` into a buffer of NFTP_FNAME_LEN + 8 bytes.
unfoldable pub part_name : List ℕ → Run (List ℕ)
part_name fname =
    if leb (length fname + 6) 72 then ok (fname ++ b'.' ∷ b'p' ∷ b'a' ∷ b'r' ∷ b't' ∷ []) else fault

-- `sz` empty buffers.
unfoldable pub empty_entries : ℕ → List Buf
empty_entries zero = []
empty_entries (suc n) = record { body = none; len = 0 } ∷ empty_entries n

-- A new context: the fields `fileid` and `hashcode` keep what the memory held.
abbrev pub new_nctx : ℕ → ℕ → ℕ → Nctx
new_nctx sz fileid hashcode = record {
  len = 0;
  cap = sz;
  nextid = 0;
  entries = empty_entries sz;
  fileid = fileid;
  hashcode = hashcode;
  fcb = none;
  wfname = none;
  status = none;
}

-- `nctx_alloc`
unfoldable pub nctx_alloc : Memory → ℕ → ℕ → ℕ → Option Nctx
nctx_alloc memory sz fileid hashcode =
    if memory.grants 0 56 && memory.grants 1 (16 * sz)
    then some (new_nctx sz fileid hashcode)
    else none
