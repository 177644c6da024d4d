-- ===== src/Vec/Deque.antt =====
-- What src/vector.c promises: a list of at most `cap` entries, in order, worked on at both ends
-- and at positions.
use nftp_codec.Prelude.{
  insert_at, remove_at, ℕ, ◌-◌, List, [], ◌∷◌, ◌++◌, Option, none, length, get_elem?, ltb, ◌==◌,
  if◌then◌else◌,
}
use nftp_codec.Prelude.Int.{ℤ, pos, negsuc}
use nftp_codec.Errors.{Status, success, err_overflow, err_flag, err_empty}
use nftp_codec.Mem.{End, end_of}

module _ {A : Type 0} where
  module _ (cap : ℕ) where
    unfoldable pub push : List A → A → ℤ → Status × List A
    push q x flag = if length q == cap then (err_overflow, q) else elim (end_of flag) [
      | End.head ↦ (success, x ∷ q)
      | End.tail ↦ (success, q ++ x ∷ [])
      | End.other ↦ (err_flag, q)
    ]

    unfoldable pub insert : List A → A → ℕ → Status × List A
    insert q x p = if length q == cap then (err_overflow, q) else (success, insert_at q p x)

  unfoldable pub delete : List A → ℤ → Status × Option A × List A
  delete q (negsuc p) = (err_overflow, none, q)
  delete q (pos p) =
      if ltb p (length q) then (success, get_elem? q p, remove_at q p) else (err_overflow, none, q)

  unfoldable pub pop : List A → ℤ → Status × Option A × List A
  pop q flag = if length q == 0 then (err_empty, none, q) else elim (end_of flag) [
    | End.head ↦ (success, get_elem? q 0, remove_at q 0)
    | End.tail ↦ (success, get_elem? q (length q - 1), remove_at q (length q - 1))
    | End.other ↦ (err_flag, none, q)
  ]

  unfoldable pub get : List A → ℤ → Status × Option A
  get q (negsuc i) = (err_overflow, none)
  get q (pos i) = if ltb i (length q) then (success, get_elem? q i) else (err_overflow, none)
