-- ===== src/Vec/Tests.antt =====
-- src/vector.c on a ring of four cells that goes round its end.
use nftp_codec.Prelude.{
  ℕ, List, [], ◌∷◌, Option, some, ◌≡◌, refl, arith, replicate, length-replicate, length,
}
use nftp_codec.Prelude.Int.{pos, negsuc}
use nftp_codec.Errors.{success, err_overflow, ok, fault}
use nftp_codec.Mem.{load, store, nftp_head, nftp_tail}
use nftp_codec.Vec.{Vec, insert}
use nftp_codec.Vec.Deque
use nftp_codec.Vec.Valid.{IsValid, contents}
use nftp_codec.Vec.Calls.{
  Call, append_call, push_call, pop_call, delete_call, get_call, len_call, Reply, status, delivered,
  count, run, deque_run, deque_step, run_refines,
}

-- 7, 8 and 9 from the third cell on, round the end.
abbrev ring : Vec ℕ
ring = record { cap = 4; len = 3; low = 2; vec = 9 ∷ 0 ∷ 7 ∷ 8 ∷ [] }

ring-IsValid : IsValid ring
ring-IsValid = omega arith

contents-ring : contents 0 ring ≡ 7 ∷ 8 ∷ 9 ∷ []
contents-ring = refl

insert_in_the_middle :
    insert ring 5 (pos 1)
    ≡ ok (success, record { cap = 4; len = 4; low = 2; vec = 8 ∷ 9 ∷ 7 ∷ 5 ∷ [] })
unfolding insert load store
insert_in_the_middle = refl

-- A negative position is not refused: this one writes below the first entry.
insert_below :
    insert ring 5 (negsuc 0)
    ≡ ok (success, record { cap = 4; len = 4; low = 2; vec = 8 ∷ 5 ∷ 9 ∷ 7 ∷ [] })
unfolding insert load store
insert_below = refl

-- And this one reads below the array.
insert_far_below : insert ring 5 (negsuc 3) ≡ fault
unfolding insert load store
insert_far_below = refl

abbrev calls : List (Call ℕ)
calls =
    push_call 5 nftp_head
    ∷ append_call 6
    ∷ delete_call (pos 2)
    ∷ get_call (pos 2)
    ∷ pop_call nftp_tail
    ∷ len_call
    ∷ []

abbrev replies : List (Reply ℕ)
replies =
    status success
    ∷ status err_overflow
    ∷ delivered success (some 8)
    ∷ delivered success (some 9)
    ∷ delivered success (some 9)
    ∷ count 2
    ∷ []

run_refines_example : run 0 (some ring) calls ≡ ok replies
unfolding deque_run deque_step Deque.push Deque.delete Deque.get Deque.pop
run_refines_example = run_refines 0 calls ring-IsValid

cells : ℕ → Option (List ℕ)
cells n = some (replicate n 0)

cells_sized : (n : ℕ) (b : List ℕ) → cells n ≡ some b → length b ≡ n
unfolding cells
cells_sized n b e = ground (arith, length-replicate {A = ℕ} n 0)

abbrev fresh : Vec ℕ
fresh = record { cap = 3; len = 0; low = 0; vec = 0 ∷ 0 ∷ 0 ∷ [] }
