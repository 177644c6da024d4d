-- ===== src/Prelude/Sequence.antt =====
-- Lists given by their values at each position, and lists changed at a position.
use nftp_codec.Prelude.Tests.{ltb, leb, ◌==◌, if◌then◌else◌}
use nftp_codec.Prelude.Lists.{length, get_or, get_elem?}
use Prim.Native.Nat.{ℕ, zero, suc, ◌+◌, ◌-◌, ◌<◌, ◌≤◌}
use mathlib.Core.Path.{◌≡◌, refl, sym, ap, ap₂, ◌∙◌}
use mathlib.Core.List.{List, [], ◌∷◌, ◌++◌}
use mathlib.Core.Bool.{◌&&◌}
use mathlib.Core.Option.{some}
use native.Mathlib.Nat.{zero-add, suc-add}
use native.Mathlib.Omega.{arith}

-- The first `n` values of a sequence.
abbrev pub tabulate {ℓ} : {A : Type ℓ} → ℕ → (ℕ → A) → List A
tabulate zero f = []
tabulate (suc n) f = f 0 ∷ tabulate n (λ k. f (suc k))

module _ {ℓ} {A : Type ℓ} where
  pub length-tabulate : (n : ℕ) (f : ℕ → A) → length (tabulate n f) ≡ n
  length-tabulate zero f = refl
  length-tabulate (suc n) f = ap suc (length-tabulate n (λ k. f (suc k)))

  pub tabulate_ext :
      (n : ℕ) (f g : ℕ → A) → ((k : ℕ) → k < n → f k ≡ g k) → tabulate n f ≡ tabulate n g
  tabulate_ext zero f g h = refl
  tabulate_ext (suc n) f g h =
      ap₂ ◌∷◌ (h 0 (omega arith)) (tabulate_ext n _ _ (λ k p. h (suc k) (omega arith)))

  pub tabulate_snoc : (n : ℕ) (f : ℕ → A) → tabulate (suc n) f ≡ tabulate n f ++ f n ∷ []
  tabulate_snoc zero f = refl
  tabulate_snoc (suc n) f = ap (λ t. f 0 ∷ t) (tabulate_snoc n (λ k. f (suc k)))

  pub get_elem?-tabulate :
      (n : ℕ) (f : ℕ → A) (k : ℕ) → k < n → get_elem? (tabulate n f) k ≡ some (f k)
  get_elem?-tabulate zero f k h = absurd (omega arith)
  get_elem?-tabulate (suc n) f zero h = refl
  get_elem?-tabulate (suc n) f (suc k) h = get_elem?-tabulate n (λ j. f (suc j)) k (omega arith)

module _ {A : Type 0} where
  -- Past the end, the entry is put last.
  abbrev pub insert_at : List A → ℕ → A → List A
  insert_at [] p x = x ∷ []
  insert_at (y ∷ q) zero x = x ∷ y ∷ q
  insert_at (y ∷ q) (suc p) x = y ∷ insert_at q p x

  abbrev pub remove_at : List A → ℕ → List A
  remove_at [] p = []
  remove_at (y ∷ q) zero = q
  remove_at (y ∷ q) (suc p) = y ∷ remove_at q p

  -- The same, of a sequence: `x` at `p`, and what follows one further.
  abbrev pub put_at : (ℕ → A) → ℕ → A → ℕ → A
  put_at f p x k = if ltb k p then f k else if k == p then x else f (k - 1)

  -- The sequence without its value at `p`.
  abbrev pub leave_out : (ℕ → A) → ℕ → ℕ → A
  leave_out f p k = if ltb k p then f k else f (suc k)

  put_at-suc :
      (f : ℕ → A) (p : ℕ) (x : A) (k : ℕ)
      → put_at f (suc p) x (suc k) ≡ put_at (λ j. f (suc j)) p x k
  put_at-suc f p x k = ground arith

  pub tabulate-insert_at :
      (n p : ℕ) (f : ℕ → A) (x : A)
      → p ≤ n
      → tabulate (suc n) (put_at f p x) ≡ insert_at (tabulate n f) p x
  tabulate-insert_at zero zero f x h = refl
  tabulate-insert_at zero (suc p) f x h = absurd (omega arith)
  tabulate-insert_at (suc n) zero f x h =
      ap (λ t. x ∷ t) (tabulate_ext (suc n) (λ k. put_at f 0 x (suc k)) f (λ k _. ground arith))
  tabulate-insert_at (suc n) (suc p) f x h = ap₂ ◌∷◌ (ground arith) (
      tabulate_ext (suc n) _ _ (λ k _. put_at-suc f p x k)
      ∙ tabulate-insert_at n p (λ k. f (suc k)) x (omega arith))

  leave_out-suc :
      (f : ℕ → A) (p k : ℕ) → leave_out f (suc p) (suc k) ≡ leave_out (λ j. f (suc j)) p k
  leave_out-suc f p k = ground arith

  pub tabulate-remove_at :
      (n p : ℕ) (f : ℕ → A) → p ≤ n → tabulate n (leave_out f p) ≡ remove_at (tabulate (suc n) f) p
  tabulate-remove_at n zero f h =
      tabulate_ext n (leave_out f 0) (λ k. f (suc k)) (λ k _. ground arith)
  tabulate-remove_at zero (suc p) f h = absurd (omega arith)
  tabulate-remove_at (suc n) (suc p) f h = ap₂ ◌∷◌ (ground arith) (
      tabulate_ext n _ _ (λ k _. leave_out-suc f p k)
      ∙ tabulate-remove_at n p (λ k. f (suc k)) (omega arith))

  pub insert_at_past : (q : List A) (p : ℕ) (x : A) → length q ≤ p → insert_at q p x ≡ q ++ x ∷ []
  insert_at_past [] p x h = refl
  insert_at_past (y ∷ q) zero x h = absurd (omega arith)
  insert_at_past (y ∷ q) (suc p) x h = ap (λ t. y ∷ t) (insert_at_past q p x (omega arith))

-- One round, at the value level: `g` is `f` with the value at `p + n` put at the position after it.
pub up_round :
    {A : Type 0} (n p k : ℕ) (f g h : ℕ → A)
    → ((j : ℕ) → j ≤ k → g j ≡ (if j == p + suc n then f (p + n) else f j))
    → h k ≡ (if ltb p k && leb k (p + n) then g (k - 1) else g k)
    → h k ≡ (if ltb p k && leb k (p + suc n) then f (k - 1) else f k)
up_round n p k f g h set moved = ground (arith, set k, set (k - 1))

-- One round of the other loop: `g` is `f` with the value at `p + 1` put at `p`.
pub down_round :
    {A : Type 0} (cap n p k : ℕ) (f g h : ℕ → A)
    → k < cap
    → p + suc n < cap
    → ((j : ℕ) → j < cap → g j ≡ (if j == p then f (suc p) else f j))
    → h k ≡ (if leb (suc p) k && ltb k (suc p + n) then g (suc k) else g k)
    → h k ≡ (if leb p k && ltb k (p + suc n) then f (suc k) else f k)
down_round cap n p k f g h inside fits set moved = ground (arith, set k, set (suc k))

pub tabulate-append :
    {A : Type 0} (n m : ℕ) (f : ℕ → A)
    → tabulate (n + m) f ≡ tabulate n f ++ tabulate m (λ k. f (n + k))
tabulate-append zero m f = rw zero-add (tabulate_ext m _ _ (λ k _. ap f (sym (zero-add k))))
tabulate-append (suc n) m f = rw suc-add (
    ap (λ t. f 0 ∷ t)
      (tabulate-append n m (λ k. f (suc k))
        ∙ ap (λ t. tabulate n (λ k. f (suc k)) ++ t)
            (tabulate_ext m _ _ (λ k _. ap f (sym (suc-add n k))))))

pub list_eq_tabulate :
    {A : Type 0} (d : A) (xs : List A) (n : ℕ)
    → length xs ≡ n
    → xs ≡ tabulate n (λ k. get_or xs k d)
list_eq_tabulate d [] zero h = refl
list_eq_tabulate d [] (suc n) h = absurd (omega arith)
list_eq_tabulate d (x ∷ xs) zero h = absurd (omega arith)
list_eq_tabulate d (x ∷ xs) (suc n) h = ap (λ t. x ∷ t) (list_eq_tabulate d xs n (omega arith))
