-- ===== src/Mem.antt =====
-- Reads and writes of one cell of an allocated C array, and the ends at which a container works.
use nftp_codec.Prelude.{
  Bool-cases, some-eq, leb→le, length-take, length-drop, length-append, le→leb, lt→leb, take-append,
  drop-append_add, ◌⊎◌, inl, inr, ◌≡◌, refl, ℕ, ◌<◌, List, Option, none, some, get_elem?, get_or,
  set, length, ltb, if◌then◌else◌, get_elem?-eq-get_or, get_elem?-eq-none, ◌≤◌, arith, leb, take,
  drop, ◌++◌, ◌+◌,
}
use nftp_codec.Prelude.Int.{ℤ, pos, negsuc, eq_int}
use nftp_codec.Errors.{Run, ok, fault}

-- The value of an optional cell, where none means that there is no such cell.
abbrev pub or_fault {ℓ} : {A : Type ℓ} → Option A → Run A
or_fault none = fault
or_fault (some a) = ok a

module _ {ℓ} {A : Type ℓ} where
  unfoldable pub load : List A → ℕ → Run A
  load buf i = or_fault (get_elem? buf i)

  unfoldable pub store : List A → ℕ → A → Run (List A)
  store buf i x = if ltb i (length buf) then ok (set buf i x) else fault

  pub load_lem : (buf : List A) (i : ℕ) (d : A) → i < length buf → load buf i ≡ ok (get_or buf i d)
  unfolding load
  load_lem buf i d h = ground (arith, get_elem?-eq-get_or buf i d h)

  pub store_lem : (buf : List A) (i : ℕ) (x : A) → i < length buf → store buf i x ≡ ok (set buf i x)
  unfolding store
  store_lem buf i x h = ground arith

  pub load_outside : (buf : List A) (i : ℕ) → length buf ≤ i → load buf i ≡ fault
  unfolding load
  load_outside buf i h = ground (arith, get_elem?-eq-none buf i h)

  pub store_outside : (buf : List A) (i : ℕ) (x : A) → length buf ≤ i → store buf i x ≡ fault
  unfolding store
  store_outside buf i x h = ground arith

-- `NFTP_HEAD` and `NFTP_TAIL`, which the push and pop functions take as `int flag`.
abbrev pub nftp_head : ℤ
nftp_head = negsuc 0

abbrev pub nftp_tail : ℤ
nftp_tail = pos 0x7fffffff

pub data End : Type 0 where
  head tail other : End

-- The if-else ladder over `flag`.
abbrev pub end_of : ℤ → End
end_of flag =
    if eq_int flag nftp_head
    then End.head
    else if eq_int flag nftp_tail
    then End.tail
    else End.other

pub End-cases : (e : End) → (e ≡ End.head) ⊎ ((e ≡ End.tail) ⊎ (e ≡ End.other))
End-cases End.head = inl refl
End-cases End.tail = inr (inl refl)
End-cases End.other = inr (inr refl)

-- `memcpy` of the bytes `src` to `dst + at`.
unfoldable pub blit : List ℕ → ℕ → List ℕ → Run (List ℕ)
blit dst at src =
    if leb (at + length src) (length dst)
    then ok (take at dst ++ (src ++ drop (at + length src) dst))
    else fault

-- The bytes behind what is copied stay.
pub blit_lem :
    (front back src : List ℕ) (at : ℕ)
    → length front ≡ at
    → length src ≤ length back
    → blit (front ++ back) at src ≡ ok (front ++ (src ++ drop (length src) back))
unfolding blit
blit_lem front back src at e room = rw (
  length-append,
  le→leb (at + length src) (length front + length back) (omega arith),
  take-append at front back e,
  drop-append_add at (length src) front back e,
)

-- The `n` bytes from `src + at` on, if they lie in the object.
unfoldable pub cut : List ℕ → ℕ → ℕ → Option (List ℕ)
cut src at n = if leb (at + n) (length src) then some (take n (drop at src)) else none

-- `memcpy` of them.
abbrev pub slice : List ℕ → ℕ → ℕ → Run (List ℕ)
slice src at n = or_fault (cut src at n)

pub slice_lem :
    (src : List ℕ) (at n : ℕ) → at + n ≤ length src → slice src at n ≡ ok (take n (drop at src))
unfolding cut
slice_lem src at n h = ground (arith, le→leb (at + n) (length src) h)

pub slice_outside : (src : List ℕ) (at n : ℕ) → length src < at + n → slice src at n ≡ fault
unfolding cut
slice_outside src at n h = ground (arith, lt→leb (at + n) (length src) h)

-- What is cut out has the length that was asked for.
pub length-cut : (src : List ℕ) (at n : ℕ) (b : List ℕ) → cut src at n ≡ some b → length b ≡ n
unfolding cut
length-cut src at n b h = elim (Bool-cases (leb (at + n) (length src))) [
  | inl within ↦
      rw (← some-eq (rw (within, cut) at h), length-take, length-drop)
        (omega (arith, leb→le (at + n) (length src) within))
  | inr past ↦ absurd (cc (rw (past, cut) at h))
]
