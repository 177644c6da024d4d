-- ===== src/Proto/Blocks/Receiving.antt =====
-- What is there of a file that is being received: the first blocks in the part file, and others kept.
use nftp_codec.Prelude.{
  ℕ, zero, suc, ◌+◌, ◌≤◌, ◌<◌, List, [], ◌++◌, Option, none, some, length, get_or, set,
  get_or-set_self, get_or-set_ne, le→leb, ne→==, ◌≡◌, ◌≢◌, ◌⊎◌, inl, inr, refl, sym, ap, ◌∙◌, arith,
  take_all,
}
use nftp_codec.Errors.{Status, success, Run, ok, fault}
use nftp_codec.Mem.{load_outside, cut}
use nftp_codec.File.Write.{System, stored, file_append}
use nftp_codec.Codec.Encode.{read_block}
use nftp_codec.Proto.{Nctx, Buf}
use nftp_codec.Proto.Blocks.{no_buf, keep_block, block_in}
use native.Mathlib.Decide.{ℕ_discrete}

-- The buffer at a place.
abbrev pub at : List Buf → ℕ → Buf
at e j = get_or e j no_buf

-- Block j is in the file, of which the first n blocks are, or kept.
abbrev pub Has : ℕ → List Buf → ℕ → Type 0
Has n e j = (j < n) ⊎ ((at e j).body ≢ none)

module _ (blocks : ℕ → List ℕ) where
  -- The first n blocks.
  abbrev pub up_to : ℕ → List ℕ
  up_to zero = []
  up_to (suc n) = up_to n ++ blocks n

  -- What is kept at a place is nothing, or the block.
  abbrev pub Kept : ℕ → Buf → Type 0
  Kept j buf = (buf.body ≡ none) ⊎ ((buf.body ≡ some (blocks j)) × (buf.len ≡ length (blocks j)))

-- The part file has the first n blocks, others are kept, and the next is not there.
pub record Receiving (sys : System) (path : List ℕ) (blocks : ℕ → List ℕ) (cap n : ℕ) (e : List Buf)
    (d : sys.State) : Type 0 where
  pub cells : length e ≡ cap
  pub in_file : stored sys d path ≡ some (up_to blocks n)
  pub below : n ≤ cap
  pub kept : (j : ℕ) → Kept blocks j (at e j)
  pub waiting : n < cap → (at e n).body ≡ none

-- A disk on which appending to the file that is at `path` does not fail.
abbrev pub Appends : (sys : System) → List ℕ → Type 0
Appends sys path =
    (d : sys.State) (file str : List ℕ)
    → stored sys d path ≡ some file
    → (file_append sys d path str).0 ≡ success

module _ (sys : System) (path : List ℕ) (blocks : ℕ → List ℕ) where
  -- What the loop leaves, when the block at `n` was just appended.
  abbrev pub Drained : Nctx → Run (Status × Nctx × sys.State) → Type 0
  Drained ctx run =
      (n : ℕ) × (e : List Buf) × (d' : sys.State) × (run
        ≡ ok (success, record ctx { nextid = n; entries = e }, d'))
      × Receiving sys path blocks ctx.cap n e d'
      × (ctx.nextid < n)
      × ((j : ℕ) → Has (suc ctx.nextid) ctx.entries j → Has n e j)

  -- What a block leaves: the context with other blocks, and the disk.
  abbrev pub Taken : Nctx → ℕ → Run (Status × Nctx × sys.State) → Type 0
  Taken ctx seq run =
      (n : ℕ) × (e : List Buf) × (l : ℕ) × (d : sys.State) × (run
        ≡ ok (success, record ctx { len = l; nextid = n; entries = e }, d))
      × Receiving sys path blocks ctx.cap n e d
      × Has n e seq
      × ((j : ℕ) → Has ctx.nextid ctx.entries j → Has n e j)

pub read_block_all : (b : List ℕ) → read_block (some b) (length b) ≡ some b
unfolding read_block cut
read_block_all b =
    rw (le→leb (0 + length b) (length b) (omega arith))
      (ap some (take_all (length b) b (omega arith)))

pub set-Has : (e : List Buf) (n j : ℕ) → Has n e j → Has (suc n) (set e n no_buf) j
set-Has e n j (inl before) = inl (omega arith)
set-Has e n j (inr full) = elim (ℕ_discrete n j) [
  | yes here ↦ inl (omega arith)
  | no other ↦ inr (rw (get_or-set_ne e n j no_buf no_buf other) full)
]

pub suc-Has : (e : List Buf) (n j : ℕ) → Has n e j → Has (suc n) e j
suc-Has e n j (inl before) = inl (omega arith)
suc-Has e n j (inr full) = inr full

some-ne-none : (b : List ℕ) → some b ≢ none
some-ne-none b same = cc

module _ (blocks : ℕ → List ℕ) where
  -- The place of the last block appended is emptied.
  pub set-Kept :
      (e : List Buf) (n : ℕ)
      → ((j : ℕ) → Kept blocks j (at e j))
      → n < length e
      → (j : ℕ) → Kept blocks j (at (set e n no_buf) j)
  set-Kept e n kept room j = elim (ℕ_discrete n j) [
    | yes here ↦
        let gone : at (set e n no_buf) j ≡ no_buf =
          rw (← here) (get_or-set_self e n no_buf no_buf room) in
        inl (ap (λ (b : Buf). b.body) gone)
    | no other ↦ rw (get_or-set_ne e n j no_buf no_buf other) (kept j)
  ]

  -- A place that is filled with its block.
  abbrev pub fill : ℕ → Buf
  fill j = record { body = some (blocks j); len = length (blocks j) }

  pub fill-Kept :
      (e : List Buf) (n : ℕ)
      → ((j : ℕ) → Kept blocks j (at e j))
      → n < length e
      → (j : ℕ) → Kept blocks j (at (set e n (fill n)) j)
  fill-Kept e n kept room j = elim (ℕ_discrete n j) [
    | yes here ↦
        let put : at (set e n (fill n)) n ≡ fill n = get_or-set_self e n (fill n) no_buf room in
        rw (← here) (inr (ap (λ (b : Buf). b.body) put, ap (λ (b : Buf). b.len) put))
    | no other ↦ rw (get_or-set_ne e n j (fill n) no_buf other) (kept j)
  ]

  pub filled : (e : List Buf) (n : ℕ) → n < length e → (at (set e n (fill n)) n).body ≢ none
  filled e n room gone =
      let put = ap (λ (b : Buf). b.body) (get_or-set_self e n (fill n) no_buf room) in
      absurd (some-ne-none (blocks n) (sym put ∙ gone))

  pub fill-Has : (e : List Buf) (m n j : ℕ) → n < length e → Has m e j → Has m (set e n (fill n)) j
  fill-Has e m n j room (inl before) = inl before
  fill-Has e m n j room (inr full) = elim (ℕ_discrete n j) [
    | yes here ↦ rw (← here) (inr (filled e n room))
    | no other ↦ inr (rw (get_or-set_ne e n j (fill n) no_buf other) full)
  ]

pub block_in_outside :
    (sys : System) (path : List ℕ) (ctx : Nctx) (seq : ℕ) (content : Option (List ℕ)) (ctlen : ℕ)
    (d : sys.State)
    → length ctx.entries ≡ ctx.cap
    → ctx.cap ≤ seq
    → seq ≢ ctx.nextid
    → block_in sys path ctx seq content ctlen d ≡ fault
unfolding block_in keep_block
block_in_outside sys path ctx seq content ctlen d cells past other =
    rw
      (ne→== seq ctx.nextid other, block_in, keep_block, load_outside ctx.entries seq (omega arith))
      refl
