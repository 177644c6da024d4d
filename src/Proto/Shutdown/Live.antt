-- ===== src/Proto/Shutdown/Live.antt =====
-- Objects of a store that are freed, each once.
use nftp_codec.Prelude.{
  ℕ, zero, suc, ◌<◌, List, [], ◌∷◌, Option, none, some, length, get_elem?, set, ◌≡◌, ◌≢◌, refl, ap,
  arith,
}
use nftp_codec.Errors.{ok, ◌>>=◌}
use nftp_codec.Mem.{load, store_lem}
use nftp_codec.Proto.{deref}
use nftp_codec.Proto.Registry.Objects.{Fresh}
use nftp_codec.Proto.Shutdown.{free_at}

-- The store without the objects at some addresses.
abbrev pub without : {A : Type 0} → List (Option A) → List ℕ → List (Option A)
without heap [] = heap
without heap (a ∷ ads) = without (set heap a none) ads

-- There is an object at each of them, and no address stands twice.
abbrev pub Live : {A : Type 0} → List (Option A) → List ℕ → Type 0
Live heap [] = Unit
Live {A} heap (a ∷ ads) = ((x : A) × (deref heap a ≡ ok x)) × Fresh a ads × Live heap ads

module _ {A : Type 0} where
  live_inside : (heap : List (Option A)) (a : ℕ) (x : A) → deref heap a ≡ ok x → a < length heap
  unfolding deref load
  live_inside [] a x h = cc
  live_inside (y ∷ heap) zero x h = omega arith
  live_inside (y ∷ heap) (suc a) x h = omega (arith, live_inside heap a x h)

  pub free_at_lem :
      (heap : List (Option A)) (a : ℕ) (x : A)
      → deref heap a ≡ ok x
      → free_at heap a ≡ ok (set heap a none)
  unfolding free_at
  free_at_lem heap a x there =
      rw (there, ◌>>=◌, store_lem heap a none (live_inside heap a x there)) refl

  kept_other :
      (heap : List (Option A)) (a b : ℕ) (x : A)
      → b ≢ a
      → deref heap b ≡ ok x
      → deref (set heap a none) b ≡ ok x
  unfolding deref load
  kept_other [] a b x ne h = h
  kept_other (y ∷ heap) zero zero x ne h = absurd (ne refl)
  kept_other (y ∷ heap) zero (suc b) x ne h = h
  kept_other (y ∷ heap) (suc a) zero x ne h = h
  kept_other (y ∷ heap) (suc a) (suc b) x ne h = kept_other heap a b x (λ same. ne (ap suc same)) h

  pub set-Live :
      (heap : List (Option A)) (a : ℕ) (ads : List ℕ)
      → Fresh a ads
      → Live heap ads
      → Live (set heap a none) ads
  set-Live heap a [] fresh live = tt
  set-Live heap a (b ∷ ads) fresh ((x, there), apart, live) =
      ((x, kept_other heap a b x fresh.0 there), apart, set-Live heap a ads fresh.1 live)

-- All of them are free.
abbrev pub AllFree : {A : Type 0} → List (Option A) → List ℕ → Type 0
AllFree heap [] = Unit
AllFree heap (a ∷ ads) = (get_elem? heap a ≡ some none) × AllFree heap ads

module _ {A : Type 0} where
  set-none :
      (heap : List (Option A)) (a b : ℕ)
      → get_elem? heap b ≡ some none
      → get_elem? (set heap a none) b ≡ some none
  set-none [] a b h = h
  set-none (y ∷ heap) zero zero h = refl
  set-none (y ∷ heap) zero (suc b) h = h
  set-none (y ∷ heap) (suc a) zero h = h
  set-none (y ∷ heap) (suc a) (suc b) h = set-none heap a b h

  without-none :
      (ads : List ℕ) (heap : List (Option A)) (b : ℕ)
      → get_elem? heap b ≡ some none
      → get_elem? (without heap ads) b ≡ some none
  without-none [] heap b h = h
  without-none (a ∷ ads) heap b h = without-none ads (set heap a none) b (set-none heap a b h)

  none_self :
      (heap : List (Option A)) (a : ℕ) → a < length heap → get_elem? (set heap a none) a ≡ some none
  none_self [] a h = absurd (omega arith)
  none_self (y ∷ heap) zero h = refl
  none_self (y ∷ heap) (suc a) h = none_self heap a (omega arith)

  pub without-AllFree :
      (ads : List ℕ) (heap : List (Option A)) → Live heap ads → AllFree (without heap ads) ads
  without-AllFree [] heap live = tt
  without-AllFree (a ∷ ads) heap ((x, there), apart, live) = (
    without-none ads (set heap a none) a (none_self heap a (live_inside heap a x there)),
    without-AllFree ads (set heap a none) (set-Live heap a ads apart live),
  )
