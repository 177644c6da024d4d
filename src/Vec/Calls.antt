-- ===== src/Vec/Calls.antt =====
-- Sequences of calls through a handle that may be NULL, on the vector and on its list.
use nftp_codec.Prelude.{ℕ, List, [], ◌∷◌, Option, none, some, length, ◌≡◌, refl, ap₂}
use nftp_codec.Prelude.Int.{ℤ, pos}
use nftp_codec.Errors.{Status, err_vec, Run, ok, fault, ◌>>=◌}
use nftp_codec.Mem.{nftp_tail}
use nftp_codec.Vec.{Vec, push, pop, insert, delete, get, append}
use nftp_codec.Vec.Deque
use nftp_codec.Vec.Valid.{IsValid, contents, length-contents}
use nftp_codec.Vec.Refine.{push_refines, pop_refines, insert_refines, delete_refines, get_refines}

-- A client's call. The position of an insertion is not negative.
pub data Call (A : Type 0) : Type 0 where
  append_call : A → Call A
  push_call : A → ℤ → Call A
  insert_call : A → ℕ → Call A
  pop_call : ℤ → Call A
  delete_call : ℤ → Call A
  get_call : ℤ → Call A
  len_call : Call A

-- What the client sees: the status, the status with what came through `entryp`, or the number of
-- entries.
pub data Reply (A : Type 0) : Type 0 where
  status : Status → Reply A
  delivered : Status → Option A → Reply A
  count : ℕ → Reply A

module _ {A : Type 0} (null : A) where
  -- One call on a vector that is there.
  pub step : Vec A → Call A → Run (Reply A × Vec A)
  step v (append_call x) = do (s, w) ← append v x; ok (status s, w)
  step v (push_call x flag) = do (s, w) ← push v x flag; ok (status s, w)
  step v (insert_call x p) = do (s, w) ← insert v x (pos p); ok (status s, w)
  step v (pop_call flag) = do (s, out, w) ← pop null v flag; ok (delivered s out, w)
  step v (delete_call p) = do (s, out, w) ← delete v p; ok (delivered s out, w)
  step v (get_call i) = do (s, out) ← get v i; ok (delivered s out, v)
  step v len_call = ok (count v.len, v)

  -- `if (!v) return (NFTP_ERR_VEC);`, which every function has but `nftp_vec_len`.
  on_null : Call A → Run (Reply A × Option (Vec A))
  on_null (append_call x) = ok (status err_vec, none)
  on_null (push_call x flag) = ok (status err_vec, none)
  on_null (insert_call x p) = ok (status err_vec, none)
  on_null (pop_call flag) = ok (delivered err_vec none, none)
  on_null (delete_call p) = ok (delivered err_vec none, none)
  on_null (get_call i) = ok (delivered err_vec none, none)
  on_null len_call = fault

  pub call : Option (Vec A) → Call A → Run (Reply A × Option (Vec A))
  unfolding step on_null
  call none c = on_null c
  call (some v) c = do (r, w) ← step v c; ok (r, some w)

  pub run : Option (Vec A) → List (Call A) → Run (List (Reply A))
  unfolding call
  run h [] = ok []
  run h (c ∷ cs) = do (r, h') ← call h c; rs ← run h' cs; ok (r ∷ rs)

module _ {A : Type 0} (cap : ℕ) where
  -- The same calls on the list.
  unfoldable pub deque_step : List A → Call A → Reply A × List A
  deque_step q (append_call x) = let (s, q') = Deque.push cap q x nftp_tail in (status s, q')
  deque_step q (push_call x flag) = let (s, q') = Deque.push cap q x flag in (status s, q')
  deque_step q (insert_call x p) = let (s, q') = Deque.insert cap q x p in (status s, q')
  deque_step q (pop_call flag) = let (s, out, q') = Deque.pop q flag in (delivered s out, q')
  deque_step q (delete_call p) = let (s, out, q') = Deque.delete q p in (delivered s out, q')
  deque_step q (get_call i) = let (s, out) = Deque.get q i in (delivered s out, q)
  deque_step q len_call = (count (length q), q)

  unfoldable pub deque_run : List A → List (Call A) → List (Reply A)
  deque_run q [] = []
  deque_run q (c ∷ cs) = let (r, q') = deque_step q c in r ∷ deque_run q' cs

module _ {A : Type 0} (null : A) where
  step_refines :
      {v : Vec A} (c : Call A)
      → IsValid v
      → (w : Vec A) × (step null v c ≡ ok ((deque_step v.cap (contents null v) c).0, w))
        × IsValid w
        × (w.cap ≡ v.cap)
        × (contents null w ≡ (deque_step v.cap (contents null v) c).1)
  unfolding step deque_step append
  step_refines (append_call x) h =
      let (w, e, a, b, c) = push_refines null h x nftp_tail in (w, rw e, a, b, c)
  step_refines (push_call x flag) h =
      let (w, e, a, b, c) = push_refines null h x flag in (w, rw e, a, b, c)
  step_refines (insert_call x p) h =
      let (w, e, a, b, c) = insert_refines null h x p in (w, rw e, a, b, c)
  step_refines (pop_call flag) h =
      let (w, e, a, b, c) = pop_refines null h flag in (w, rw e, a, b, c)
  step_refines (delete_call p) h =
      let (w, e, a, b, c) = delete_refines null h p in (w, rw e, a, b, c)
  step_refines {v} (get_call i) h = (v, rw (get_refines null h i), h, refl, refl)
  step_refines {v} len_call h = (v, rw (length-contents null v), h, refl, refl)

  -- No sequence of calls faults on a valid vector, and none tells it from the list of its entries
  -- with the same capacity. The calls are append, push, insert (at positions that are not negative),
  -- pop, delete, get and len.
  pub run_refines :
      (cs : List (Call A)) {v : Vec A}
      → IsValid v
      → run null (some v) cs ≡ ok (deque_run v.cap (contents null v) cs)
  unfolding run deque_run call
  run_refines [] h = refl
  run_refines (c ∷ cs) {v} h =
      let (w, e, valid, same, left) = step_refines c h in
      rw (e, run_refines cs valid)
        (ap₂ (λ n q. ok ((deque_step v.cap (contents null v) c).0 ∷ deque_run n q cs)) same left)
