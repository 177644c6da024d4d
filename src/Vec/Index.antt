-- ===== src/Vec/Index.antt =====
-- Arithmetic of the ring: a cell's position counted from `low`, going round at the capacity.
use nftp_codec.Prelude.{
  ℕ, suc, ◌+◌, ◌-◌, ◌%◌, ◌<◌, ◌≤◌, List, get_or, set, length, ◌==◌, if◌then◌else◌, ◌≡◌, ◌≢◌, arith,
  get_or-set_self, get_or-set_ne, ap, ◌∙◌,
}
use native.Mathlib.Nat.{mod-eq_of_lt, mod-eq-sub-mod, mod-add-mod, add-mod_right}
use native.Mathlib.Decide.{ℕ_discrete}

-- The index of the k-th cell from `low` has at most one turn to go.
pub mod_turn : (cap a : ℕ) → cap ≤ a → a < cap + cap → a % cap ≡ a - cap
mod_turn cap a h k =
    omega (
      arith,
      mod-eq-sub-mod {n = a} {m = cap} h,
      mod-eq_of_lt {n = a - cap} {m = cap} (omega arith),
    )

-- Different positions are different cells.
pub cell-ne :
    (cap low a b : ℕ) → low < cap → a < cap → b < cap → a ≢ b → (low + a) % cap ≢ (low + b) % cap
cell-ne cap low a b hl ha hb ne = grind (
  arith,
  mod_turn cap (low + a),
  mod_turn cap (low + b),
  mod-eq_of_lt {n = low + a} {m = cap},
  mod-eq_of_lt {n = low + b} {m = cap},
)

module _ {A : Type 0} (d : A) where
  -- The entry at position `k` of the ring.
  abbrev pub entry : List A → ℕ → ℕ → ℕ → A
  entry buf cap low k = get_or buf ((low + k) % cap) d

  -- A write at one position is read back there, and nowhere else.
  pub entry-set :
      (buf : List A) (cap low p : ℕ) (x : A) (k : ℕ)
      → length buf ≡ cap
      → low < cap
      → p < cap
      → k < cap
      → entry (set buf ((low + p) % cap) x) cap low k ≡ (if k == p then x else entry buf cap low k)
  entry-set buf cap low p x k hb hl hp hk = elim (ℕ_discrete k p) [
    | yes e ↦ ground (arith, get_or-set_self buf ((low + p) % cap) x d (omega arith))
    | no ne ↦ ground (
      arith,
      get_or-set_ne buf ((low + p) % cap) ((low + k) % cap) x d,
      cell-ne cap low p k hl hp hk,
    )
  ]

module _ {A : Type 0} (d : A) where
  -- The same, where the cell is named by its index.
  pub entry-set_cell :
      (buf : List A) (cap low p i : ℕ) (x : A) (k : ℕ)
      → i ≡ (low + p) % cap
      → length buf ≡ cap
      → low < cap
      → p < cap
      → k < cap
      → entry d (set buf i x) cap low k ≡ (if k == p then x else entry d buf cap low k)
  entry-set_cell buf cap low p i x k e hb hl hp hk =
      rw e (entry-set d buf cap low p x k hb hl hp hk)

-- Counting on from the cell after, or before, `low`.
pub step_on : (cap low k : ℕ) → ((low + 1) % cap + k) % cap ≡ (low + suc k) % cap
step_on cap low k = mod-add-mod (low + 1) cap k ∙ ap (λ a. a % cap) (omega arith)

pub step_back :
    (cap low k : ℕ) → low < cap → ((low + cap - 1) % cap + suc k) % cap ≡ (low + k) % cap
step_back cap low k h =
    mod-add-mod (low + cap - 1) cap (suc k) ∙ ap (λ a. a % cap) turned ∙ add-mod_right (low + k) cap
  where
    turned : low + cap - 1 + suc k ≡ low + k + cap
    turned = omega arith
