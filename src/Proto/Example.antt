-- ===== src/Proto/Example.antt =====
-- A small world for src/proto.c: a file of three blocks, and an environment that meets what is assumed.
use nftp_codec.Prelude.{
  map, ℕ, ◌+◌, List, [], ◌∷◌, Option, none, some, true, false, ◌==◌, if◌then◌else◌, length,
  Bool-cases, inl, inr, refl, ap, ◌≡◌, ◌≢◌, Bool, eq→==,
}
use nftp_codec.File.Write.{file_append, file_exist, write_out}
use nftp_codec.File.Write.Memory.{Files, put, memory_system}
use nftp_codec.Proto.{Memory, new_nctx}
use nftp_codec.Proto.Blocks.Receiving.{Appends}
use nftp_codec.Proto.{
  Nctx, Env, Hashtable, IsHashtable, Insertion, inserted, updated, State, FileCb,
}

abbrev pub part : List ℕ
part = b'p' ∷ []

-- Block j is one letter.
abbrev pub letter : ℕ → List ℕ
letter j = (b'a' + j) ∷ []

abbrev pub memory : Memory
memory = record { grants = λ place n. true; buffer = λ n. none; cells = none; exbuf = none }

-- The part file, empty.
abbrev pub disk : Files
disk = put (λ path. none) part (some [])

pub appends : (path : List ℕ) → Appends memory_system path
unfolding file_append file_exist write_out
appends path d file str there =
    rw (there, file_exist, file_append, write_out, eq→== (length str) (length str) refl) refl

-- Block 1 comes twice, and block 0 in between.
abbrev pub order : List ℕ
order = 1 ∷ 0 ∷ 1 ∷ 2 ∷ []

abbrev pub others : {V : Type 0} → List (ℕ × V) → ℕ → List (ℕ × V)
others [] k = []
others ((j, v) ∷ entries) k = if j == k then others entries k else (j, v) ∷ others entries k

-- A hash table as the list of its entries.
abbrev pub find : {V : Type 0} → List (ℕ × V) → ℕ → Option V
find [] k = none
find ((j, v) ∷ entries) k = if j == k then some v else find entries k

abbrev pub is_there : {V : Type 0} → Option V → Bool
is_there none = false
is_there (some v) = true

abbrev pub told : {V : Type 0} → Option V → Insertion
told none = inserted
told (some v) = updated

abbrev pub table : (V : Type 0) → Hashtable V
table V = record {
  Table = List (ℕ × V);
  contains = λ t k. is_there (find t k);
  lookup = find;
  insert = λ t k v. (told (find t k), (k, v) ∷ t);
  erase = λ t k. (true, others t k);
  visits = λ t. map (λ entry. entry.1) t;
  clear = λ t. [];
}

find-others : {V : Type 0} (t : List (ℕ × V)) (k : ℕ) → find (others t k) k ≡ none
find-others [] k = refl
find-others ((j, v) ∷ t) k = elim (Bool-cases (j == k)) [
  | inl same ↦ rw (same) (find-others t k)
  | inr other ↦ rw (other, find, other) (find-others t k)
]

told-renewed : {V : Type 0} (got : Option V) → is_there got ≡ true → told got ≢ inserted
told-renewed none there = cc
told-renewed (some v) there = λ same. absurd (cc same)

pub table-IsHashtable : (V : Type 0) → IsHashtable (table V)
table-IsHashtable V = record {
  inserts = λ t k v new.
      let found : find ((k, v) ∷ t) k ≡ some v = rw (eq→== k k refl) refl in
      (ap (λ got. is_there got) found, found);
  erases = λ t k listed. refl;
  renews = λ t k v listed. told-renewed (find t k) listed;
  forgets = λ t k erased. ap (λ got. is_there got) (find-others t k);
}

abbrev pub env : Env
env = record {
  sys = memory_system;
  files = table ℕ;
  senders = table (List ℕ);
  memory = memory;
  base_name = λ path. path;
}

abbrev pub fcb_star : FileCb
fcb_star = record { fname = b'*' ∷ []; cb = some 3; arg = 8 }

-- The transfer of "abc", which is whole, under the name "f".
abbrev pub done : Nctx
done = record (new_nctx 1 7 0x364b3fb7) { nextid = 1; fcb = some 0; wfname = some (b'f' ∷ []) }

abbrev pub last_state : State env
last_state = record {
  recvdir = none;
  blocksz = 3;
  files = (7, 0) ∷ [];
  senderfiles = [];
  fcb_reg = record { cap = 1; len = 1; low = 0; vec = 0 ∷ [] };
  fcbs = some fcb_star ∷ [];
  ctxs = some done ∷ [];
  disk = put (λ path. none) part (some (b'a' ∷ b'b' ∷ b'c' ∷ []));
  ran = [];
}

abbrev pub name_f : List ℕ
name_f = b'f' ∷ []

-- A registry with the first entry, and a new one.
abbrev pub fcb_g : FileCb
fcb_g = record { fname = b'g' ∷ []; cb = some 4; arg = 1 }

-- The transfer of the three letters under the name "f", at its beginning.
abbrev pub begun : Nctx
begun = record (new_nctx 3 7 0x364b3fb7) { fcb = some 0; wfname = some name_f }

abbrev pub f_part : List ℕ
f_part = b'f' ∷ b'.' ∷ b'p' ∷ b'a' ∷ b'r' ∷ b't' ∷ []

abbrev pub first_state : State env
first_state = record last_state {
  ctxs = some begun ∷ [];
  disk = put (λ path. none) f_part (some []);
}
