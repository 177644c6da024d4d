-- ===== src/Proto/Registry/Objects.antt =====
-- Objects in a store, at the addresses that a list has.
use nftp_codec.Prelude.{
  ℕ, zero, suc, ◌<◌, List, [], ◌∷◌, ◌++◌, Option, none, some, length, set, get_elem?, remove_at,
  some-eq, ◌≡◌, ◌≢◌, refl, sym, ap, ◌∙◌, arith,
}
use nftp_codec.Errors.{ok}
use nftp_codec.Mem.{load}
use nftp_codec.Proto.{FileCb, deref}

-- The entries at some addresses.
abbrev pub Objects : List (Option FileCb) → List ℕ → List FileCb → Type 0
Objects heap [] [] = Unit
Objects heap [] (f ∷ fs) = ⊥
Objects heap (a ∷ ads) [] = ⊥
Objects heap (a ∷ ads) (f ∷ fs) = (deref heap a ≡ ok f) × Objects heap ads fs

-- A new object at a new address, behind what is there.
grown :
    (heap : List (Option FileCb)) (a : ℕ) (f : FileCb) (x : Option FileCb)
    → deref heap a ≡ ok f
    → deref (heap ++ x ∷ []) a ≡ ok f
unfolding deref load
grown [] a f x h = cc
grown (y ∷ heap) zero f x h = h
grown (y ∷ heap) (suc a) f x h = grown heap a f x h

pub at_end :
    {A : Type 0} (heap : List (Option A)) (f : A) → deref (heap ++ some f ∷ []) (length heap) ≡ ok f
unfolding deref load
at_end [] f = refl
at_end (y ∷ heap) f = at_end heap f

pub append-Objects :
    (heap : List (Option FileCb)) (ads : List ℕ) (fs : List FileCb) (f : FileCb)
    → Objects heap ads fs
    → Objects (heap ++ some f ∷ []) (ads ++ length heap ∷ []) (fs ++ f ∷ [])
append-Objects heap [] [] f objects = (at_end heap f, tt)
append-Objects heap [] (g ∷ fs) f objects = absurd objects
append-Objects heap (a ∷ ads) [] f objects = absurd objects
append-Objects heap (a ∷ ads) (g ∷ fs) f objects =
    (grown heap a g (some f) objects.0, append-Objects heap ads fs f objects.1)

-- An address that none in a list is.
abbrev pub Fresh : ℕ → List ℕ → Type 0
Fresh a [] = Unit
Fresh a (b ∷ ads) = (b ≢ a) × Fresh a ads

abbrev pub Distinct : List ℕ → Type 0
Distinct [] = Unit
Distinct (a ∷ ads) = Fresh a ads × Distinct ads

append-Fresh : (a x : ℕ) (ads : List ℕ) → Fresh a ads → x ≢ a → Fresh a (ads ++ x ∷ [])
append-Fresh a x [] fresh ne = (ne, tt)
append-Fresh a x (b ∷ ads) fresh ne = (fresh.0, append-Fresh a x ads fresh.1 ne)

pub append-Distinct : (x : ℕ) (ads : List ℕ) → Distinct ads → Fresh x ads → Distinct (ads ++ x ∷ [])
append-Distinct x [] distinct fresh = (tt, tt)
append-Distinct x (a ∷ ads) distinct fresh = (
  append-Fresh a x ads distinct.0 (λ same. fresh.0 (sym same)),
  append-Distinct x ads distinct.1 fresh.1,
)

remove_at-Fresh : (a p : ℕ) (ads : List ℕ) → Fresh a ads → Fresh a (remove_at ads p)
remove_at-Fresh a p [] fresh = tt
remove_at-Fresh a zero (b ∷ ads) fresh = fresh.1
remove_at-Fresh a (suc p) (b ∷ ads) fresh = (fresh.0, remove_at-Fresh a p ads fresh.1)

pub remove_at-Distinct : (p : ℕ) (ads : List ℕ) → Distinct ads → Distinct (remove_at ads p)
remove_at-Distinct p [] distinct = tt
remove_at-Distinct zero (a ∷ ads) distinct = distinct.1
remove_at-Distinct (suc p) (a ∷ ads) distinct =
    (remove_at-Fresh a p ads distinct.0, remove_at-Distinct p ads distinct.1)

past_end : (heap : List (Option FileCb)) (f : FileCb) → deref heap (length heap) ≢ ok f
unfolding deref load
past_end [] f h = cc
past_end (y ∷ heap) f h = past_end heap f h

-- The next address is new.
pub Objects-Fresh :
    (heap : List (Option FileCb)) (ads : List ℕ) (fs : List FileCb)
    → Objects heap ads fs
    → Fresh (length heap) ads
Objects-Fresh heap [] fs objects = tt
Objects-Fresh heap (a ∷ ads) [] objects = absurd objects
Objects-Fresh heap (a ∷ ads) (f ∷ fs) objects = (
  λ same. past_end heap f (ap (deref heap) (sym same) ∙ objects.0),
  Objects-Fresh heap ads fs objects.1,
)

freed_other :
    (heap : List (Option FileCb)) (a b : ℕ) (f : FileCb)
    → b ≢ a
    → deref heap b ≡ ok f
    → deref (set heap a none) b ≡ ok f
unfolding deref load
freed_other [] a b f ne h = h
freed_other (y ∷ heap) zero zero f ne h = absurd (ne refl)
freed_other (y ∷ heap) zero (suc b) f ne h = h
freed_other (y ∷ heap) (suc a) zero f ne h = h
freed_other (y ∷ heap) (suc a) (suc b) f ne h = freed_other heap a b f (λ same. ne (ap suc same)) h

freed-Fresh :
    (heap : List (Option FileCb)) (a : ℕ) (ads : List ℕ) (fs : List FileCb)
    → Fresh a ads
    → Objects heap ads fs
    → Objects (set heap a none) ads fs
freed-Fresh heap a [] [] fresh objects = tt
freed-Fresh heap a [] (f ∷ fs) fresh objects = absurd objects
freed-Fresh heap a (b ∷ ads) [] fresh objects = absurd objects
freed-Fresh heap a (b ∷ ads) (f ∷ fs) fresh objects =
    (freed_other heap a b f fresh.0 objects.0, freed-Fresh heap a ads fs fresh.1 objects.1)

pub Fresh-at : (a b p : ℕ) (ads : List ℕ) → Fresh b ads → get_elem? ads p ≡ some a → a ≢ b
Fresh-at a b p [] fresh there = cc
Fresh-at a b zero (c ∷ ads) fresh there = λ same. fresh.0 (some-eq there ∙ same)
Fresh-at a b (suc p) (c ∷ ads) fresh there = Fresh-at a b p ads fresh.1 there

-- The object at a place is freed, and taken out of the list.
pub remove_at-Objects :
    (heap : List (Option FileCb)) (a p : ℕ) (ads : List ℕ) (fs : List FileCb)
    → Distinct ads
    → Objects heap ads fs
    → get_elem? ads p ≡ some a
    → Objects (set heap a none) (remove_at ads p) (remove_at fs p)
remove_at-Objects heap a p [] fs distinct objects there = cc
remove_at-Objects heap a p (b ∷ ads) [] distinct objects there = absurd objects
remove_at-Objects heap a zero (b ∷ ads) (f ∷ fs) distinct objects there =
    freed-Fresh heap a ads fs (rw (← some-eq there) distinct.0) objects.1
remove_at-Objects heap a (suc p) (b ∷ ads) (f ∷ fs) distinct objects there = (
  freed_other heap a b f (λ same. Fresh-at a b p ads distinct.0 there (sym same)) objects.0,
  remove_at-Objects heap a p ads fs distinct.1 objects.1 there,
)

inside : (heap : List (Option FileCb)) (a : ℕ) (f : FileCb) → deref heap a ≡ ok f → a < length heap
unfolding deref load
inside [] a f h = cc
inside (y ∷ heap) zero f h = omega arith
inside (y ∷ heap) (suc a) f h = omega (arith, inside heap a f h)

-- The object at a place of the list.
pub Objects-at :
    (heap : List (Option FileCb)) (a p : ℕ) (ads : List ℕ) (fs : List FileCb)
    → Objects heap ads fs
    → get_elem? ads p ≡ some a
    → (f : FileCb) × (deref heap a ≡ ok f) × (a < length heap)
unfolding deref load
Objects-at heap a p [] fs objects there = cc
Objects-at heap a p (b ∷ ads) [] objects there = absurd objects
Objects-at heap a zero (b ∷ ads) (f ∷ fs) objects there =
    let here : deref heap a ≡ ok f = ap (deref heap) (sym (some-eq there)) ∙ objects.0 in
    (f, here, inside heap a f here)
Objects-at heap a (suc p) (b ∷ ads) (f ∷ fs) objects there =
    Objects-at heap a p ads fs objects.1 there

pub length-Objects :
    (heap : List (Option FileCb)) (ads : List ℕ) (fs : List FileCb)
    → Objects heap ads fs
    → length ads ≡ length fs
length-Objects heap [] [] objects = refl
length-Objects heap [] (f ∷ fs) objects = absurd objects
length-Objects heap (a ∷ ads) [] objects = absurd objects
length-Objects heap (a ∷ ads) (f ∷ fs) objects = ap suc (length-Objects heap ads fs objects.1)

pub Objects-entry :
    (heap : List (Option FileCb)) (a p : ℕ) (f : FileCb) (ads : List ℕ) (fs : List FileCb)
    → Objects heap ads fs
    → get_elem? ads p ≡ some a
    → get_elem? fs p ≡ some f
    → deref heap a ≡ ok f
Objects-entry heap a p f [] fs objects there entry = cc
Objects-entry heap a p f (b ∷ ads) [] objects there entry = absurd objects
Objects-entry heap a zero f (b ∷ ads) (g ∷ fs) objects there entry =
    ap (deref heap) (sym (some-eq there)) ∙ objects.0 ∙ ap ok (some-eq entry)
Objects-entry heap a (suc p) f (b ∷ ads) (g ∷ fs) objects there entry =
    Objects-entry heap a p f ads fs objects.1 there entry
