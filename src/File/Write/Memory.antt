-- ===== src/File/Write/Memory.antt =====
-- A file system in memory, on which the functions of src/file.c can be run.
use nftp_codec.Prelude.{
  ℕ, List, [], ◌++◌, Option, none, some, length, take, drop, true, ◌≡◌, ◌≢◌, refl, sym, some-eq,
}
use nftp_codec.File.Write.{System, IsSystem}
use native.Mathlib.Decide.{ℕ_discrete}

-- Each path with its file, if it has one.
abbrev pub Files : Type 0
Files = List ℕ → Option (List ℕ)

unfoldable pub same_path : (p q : List ℕ) → Dec (p ≡ q)
same_path = hlevel (ℕ_discrete)

unfoldable pub put : Files → List ℕ → Option (List ℕ) → Files
put d p v q = elim (same_path p q) [ yes _ ↦ v | no _ ↦ d q ]

put_self : (d : Files) (p : List ℕ) (v : Option (List ℕ)) → put d p v p ≡ v
unfolding put
put_self d p v = elim (same_path p p) as (λ w. elim w [ yes _ ↦ v | no _ ↦ d p ] ≡ v) [
  | yes _ ↦ refl
  | no other ↦ absurd (other refl)
]

put_other : (d : Files) (p q : List ℕ) (v : Option (List ℕ)) → q ≢ p → put d p v q ≡ d q
unfolding put
put_other d p q v ne = elim (same_path p q) as (λ w. elim w [ yes _ ↦ v | no _ ↦ d q ] ≡ d q) [
  | yes same ↦ absurd (ne (sym same))
  | no _ ↦ refl
]

-- The bytes behind what is there.
abbrev extend : Option (List ℕ) → List ℕ → List ℕ
extend none str = str
extend (some file) str = file ++ str

abbrev pub memory_system : System
memory_system = record {
  State = Files;
  disk = λ d. record { stored = d; opens = λ path. true; fread = λ n m file. take m (drop n file) };
  open_new = λ d path. some (put d path (some []));
  open_end = λ d path. some d;
  fwrite = λ d path str. (length str, put d path (some (extend (d path) str)));
  unlink = λ d path. (true, put d path none);
  move = λ d from to. (true, put (put d from none) to (d from));
}

pub memory_system-IsSystem : IsSystem memory_system
memory_system-IsSystem = record {
  truncates = λ d d' path opened. rw (← some-eq opened) (put_self d path (some []));
  truncates_one =
      λ d d' path other opened ne. rw (← some-eq opened) (put_other d path other (some []) ne);
  opens_end = λ d d' path other file opened there. rw (← some-eq opened) refl;
  writes = λ d path file str there done. rw (put_self, there) refl;
  writes_one = λ d path other str ne. put_other d path other (some (extend (d path) str)) ne;
  removes = λ d path done. put_self d path none;
  moves = λ d from to done. put_self (put d from none) to (d from);
  reads = λ d n m file. refl;
}
