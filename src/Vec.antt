-- ===== src/Vec.antt =====
-- src/vector.c: a ring of pointers with a fixed number of cells, `struct _vec`. Each function is
-- given for a vector that is there; `call` puts the guard against NULL back. A function that
-- writes through `v` returns the new vector, and one that writes `*entryp` returns what it wrote.
-- The mutex makes each call one step.
pub mod Index
pub mod Deque
pub mod Valid
pub mod Shift
pub mod Contents
pub mod Ends
pub mod Middle
pub mod Refine
pub mod Search
pub mod Reads
pub mod Calls
mod Tests
use nftp_codec.Prelude.{
  ℕ, zero, suc, ◌+◌, ◌-◌, ◌/◌, ◌%◌, Bool, true, false, List, [], ◌∷◌, Option, none, some, ltb, ◌==◌,
  if◌then◌else◌,
}
use nftp_codec.Prelude.Int.{ℤ, pos, negsuc, pred_int, add_int, distance_below, lt_int}
use nftp_codec.Errors.{
  Status, success, err_mem, err_vec, err_overflow, err_flag, err_empty, Run, ok, fault, ◌>>=◌,
}
use nftp_codec.Mem.{load, store, End, end_of, nftp_tail}

-- The cells are `void *`, of the caller's choice `A`.
pub record Vec (A : Type 0) : Type 0 where
  pub cap : ℕ
  pub len : ℕ
  pub low : ℕ
  pub vec : List A

-- The number of cells to allocate: `NFTP_SIZE` if `sz <= 0`.
unfoldable pub cells_for : ℤ → ℕ
cells_for (pos (suc n)) = suc n
cells_for _ = 32

-- `i % v->cap` for an `int i`: the remainder takes the sign of `i`, and a negative one is outside.
pub slot : ℤ → ℕ → Run ℕ
slot (pos n) cap = ok (n % cap)
slot (negsuc n) cap = if (n + 1) % cap == 0 then ok 0 else fault

module _ {A : Type 0} where
  -- `malloc` answers for the struct, and for the cells with their first contents.
  unfoldable pub alloc : Bool → (ℕ → Option (List A)) → ℤ → Status × Option (Vec A)
  unfolding cells_for
  alloc false malloc sz = (err_mem, none)
  alloc true malloc sz = elim (malloc (cells_for sz)) [
    | none ↦ (err_mem, none)
    | some cells ↦ (
      success,
      some (record { cap = cells_for sz; len = 0; low = cells_for sz / 4; vec = cells }),
    )
  ]

  -- One call puts the entry into cell `i`, with `low` as given.
  pub put : Vec A → ℕ → ℕ → A → Run (Status × Vec A)
  put v low i x = do
    cells ← store v.vec i x
    ok (success, record v { len = v.len + 1; low = low; vec = cells })

  pub push : Vec A → A → ℤ → Run (Status × Vec A)
  unfolding put
  push v x flag = if v.len == v.cap then ok (err_overflow, v) else elim (end_of flag) [
    | End.head ↦ let low = (v.low + v.cap - 1) % v.cap in put v low low x
    | End.tail ↦ put v v.low ((v.low + v.len) % v.cap) x
    | End.other ↦ ok (err_flag, v)
  ]

  pub append : Vec A → A → Run (Status × Vec A)
  unfolding push
  append v x = push v x nftp_tail

  -- The loop of `insert` with the rounds left, from `i` down: `vec[i] = vec[i - 1]`.
  pub shift_up : ℕ → ℕ → ℤ → List A → Run (List A)
  unfolding slot
  shift_up cap zero i buf = ok buf
  shift_up cap (suc rounds) i buf = do
    from ← slot (pred_int i) cap
    to ← slot i cap
    x ← load buf from
    buf' ← store buf to x
    shift_up cap rounds (pred_int i) buf'

  pub insert_inside : Vec A → A → ℤ → Run (Status × Vec A)
  unfolding shift_up
  insert_inside v x p = do
    cells ← shift_up v.cap (distance_below v.len p) (pos (v.low + v.len)) v.vec
    i ← slot (add_int v.low p) v.cap
    cells' ← store cells i x
    ok (success, record v { len = v.len + 1; vec = cells' })

  pub insert : Vec A → A → ℤ → Run (Status × Vec A)
  unfolding push insert_inside
  insert v x p =
      if v.len == v.cap
      then ok (err_overflow, v)
      else if lt_int v.len p
      then push v x nftp_tail
      else insert_inside v x p

  -- The loop of `delete` with the rounds left, from `i` up: `vec[i - 1] = vec[i]`.
  pub shift_down : ℕ → ℕ → ℕ → List A → Run (List A)
  shift_down cap zero i buf = ok buf
  shift_down cap (suc rounds) i buf = do
    x ← load buf (i % cap)
    buf' ← store buf ((i - 1) % cap) x
    shift_down cap rounds (i + 1) buf'

  pub delete_inside : Vec A → ℕ → Run (Status × Option A × Vec A)
  unfolding shift_down
  delete_inside v p = do
    x ← load v.vec ((v.low + p) % v.cap)
    cells ← shift_down v.cap (v.len - p - 1) (v.low + p + 1) v.vec
    ok (success, some x, record v { len = v.len - 1; vec = cells })

  pub delete : Vec A → ℤ → Run (Status × Option A × Vec A)
  unfolding delete_inside
  delete v (negsuc p) = ok (err_overflow, none, v)
  delete v (pos p) = if ltb p v.len then delete_inside v p else ok (err_overflow, none, v)

  unfoldable pub get : Vec A → ℤ → Run (Status × Option A)
  get v (negsuc i) = ok (err_overflow, none)
  get v (pos i) =
      if ltb i v.len
      then (do x ← load v.vec ((v.low + i) % v.cap); ok (success, some x))
      else ok (err_overflow, none)

  -- `same` compares pointers. The loop stands at `i` with the rounds left.
  pub search_from : (A → A → Bool) → Vec A → A → ℕ → ℕ → Run (Status × Option ℕ)
  search_from same v x zero i = ok (err_empty, none)
  search_from same v x (suc rounds) i = do
    y ← load v.vec (i % v.cap)
    let rest = search_from same v x rounds (i + 1)
    if same y x then ok (success, some ((i - v.low) % v.cap)) else rest

  pub get_idx : (A → A → Bool) → Vec A → A → Run (Status × Option ℕ)
  unfolding search_from
  get_idx same v x = search_from same v x v.len v.low

module _ {A : Type 0} (null : A) where
  -- Take the entry out of cell `i`, which becomes NULL, with `low` as given.
  pub take_out : Vec A → ℕ → ℕ → Run (Status × Option A × Vec A)
  take_out v low i = do
    x ← load v.vec i
    cells ← store v.vec i null
    ok (success, some x, record v { len = v.len - 1; low = low; vec = cells })

  pub pop : Vec A → ℤ → Run (Status × Option A × Vec A)
  unfolding take_out
  pop v flag = if v.len == 0 then ok (err_empty, none, v) else elim (end_of flag) [
    | End.head ↦ take_out v ((v.low + 1) % v.cap) v.low
    | End.tail ↦ take_out v v.low ((v.low + v.len - 1) % v.cap)
    | End.other ↦ ok (err_flag, none, v)
  ]
