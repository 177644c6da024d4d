-- ===== src/Iovs/Stream.antt =====
-- `nftp_iovs2stream`: the bytes of the pieces, one after the other.
use nftp_codec.Prelude.{
  drop-drop, drop_all, some-eq, ℕ, zero, suc, ◌+◌, ◌^◌, ◌≤◌, ◌<◌, List, [], ◌∷◌, ◌++◌, append_assoc,
  append-nil, Option, none, some, length, length-append, length-drop, drop, ◌≡◌, refl, sym, ap, ap₂,
  ◌∙◌, arith, tabulate,
}
use nftp_codec.Errors.{success, ok}
use native.Mathlib.Nat.{add-zero}
use nftp_codec.Mem.{blit_lem, load_lem}
use nftp_codec.Iovs.{Iovs, Iov, gather, iovs2stream}
use nftp_codec.Iovs.Valid.{total, cell, contents, IsValid}

module _ {P : Type 0} (read : P → ℕ → Option (List ℕ)) where
  -- What the stream should be: the bytes of each piece in turn, if all can be read.
  unfoldable pub join : List (Iov P) → Option (List ℕ)
  join [] = some []
  join (x ∷ q) = elim (read x.base x.len) [
    | none ↦ none
    | some bytes ↦ elim (join q) [ none ↦ none | some rest ↦ some (bytes ++ rest) ]
  ]

  regroup :
      (front b r back : List ℕ)
      → (front ++ b) ++ (r ++ drop (length r) (drop (length b) back))
        ≡ front ++ ((b ++ r) ++ drop (length (b ++ r)) back)
  regroup front b r back = rw (drop-drop, length-append, append_assoc front b, append_assoc b r)

  -- The parts of a joined stream.
  join-cons :
      (x : Iov P) (q : List (Iov P)) {out : List ℕ}
      → join (x ∷ q) ≡ some out
      → (bytes rest : List ℕ) × (read x.base x.len ≡ some bytes)
        × (join q ≡ some rest)
        × (out ≡ bytes ++ rest)
  unfolding join
  join-cons x q {out} h = go (read x.base x.len) refl (join q) refl
    where
      go :
          (b : Option (List ℕ))
          → read x.base x.len ≡ b
          → (r : Option (List ℕ)) → join q ≡ r
          → (bytes rest : List ℕ) × (read x.base x.len ≡ some bytes)
            × (join q ≡ some rest)
            × (out ≡ bytes ++ rest)
      go none e r f = absurd (cc (rw (e, join) at h))
      go (some b) e none f = absurd (cc (rw (e, f, join) at h))
      go (some b) e (some r) f = (b, r, e, f, some-eq (sym (rw (e, f, join) at h)))

  module _ (exact : (p : P) (n : ℕ) (b : List ℕ) → read p n ≡ some b → length b ≡ n) where
    pub length-join : (q : List (Iov P)) {out : List ℕ} → join q ≡ some out → length out ≡ total q
    unfolding join
    length-join [] h = ap length (sym (some-eq h))
    length-join (x ∷ q) h =
        let (b, r, e, f, g) = join-cons x q h in
        rw (g, length-append) (omega (arith, length-join q f, exact x.base x.len b e))

    -- The loop overwrites the buffer from `at` on.
    gather_lem :
        (null : P) (n i at : ℕ) (cells : List (Iov P)) (f : ℕ → Iov P) (front back : List ℕ)
        {out : List ℕ}
        → length front ≡ at
        → i + n ≤ length cells
        → ((k : ℕ) → k < n → cell null cells (i + k) ≡ f k)
        → join (tabulate n f) ≡ some out
        → length out ≤ length back
        → gather read n i at cells (front ++ back) ≡ ok (front ++ (out ++ drop (length out) back))
    unfolding gather join
    gather_lem null zero i at cells f front back e given same joined room =
        ap (λ o. ok (front ++ (o ++ drop (length o) back))) (some-eq joined)
    gather_lem null (suc n) i at cells f front back e given same joined room =
        let (b, r, got, rest, g) = join-cons (f 0) (tabulate n (λ k. f (suc k))) joined in
        let here : cell null cells i ≡ f 0 =
          ap (cell null cells) (sym (add-zero i)) ∙ same 0 (omega arith) in
        let size = exact (f 0).base (f 0).len b got in
        rw
          (
            load_lem cells i (record { base = null; len = 0 }) (omega arith),
            here,
            got,
            blit_lem front back b at e (omega (arith, ap length g, length-append b r)),
            g,
          )
          (ap (gather read n (i + 1) (at + (f 0).len) cells)
              (sym (append_assoc front b (drop (length b) back)))
            ∙ gather_lem null n (i + 1) (at + (f 0).len) cells (λ k. f (suc k)) (front ++ b)
                (drop (length b) back) (rw length-append (omega (arith, size))) (omega arith)
                (λ k h. ap (cell null cells) (next k) ∙ same (suc k) (omega arith)) rest
                (rw length-drop (omega (arith, ap length g, length-append b r)))
            ∙ ap ok (regroup front b r back))
      where
        next : (k : ℕ) → i + 1 + k ≡ i + suc k
        next k = omega arith

    -- The stream of a valid row is the bytes of its pieces in order, and `iolen` is their number, if
    -- every piece can be read, there are fewer than 2 ^ 64 bytes, and `malloc` gives a buffer of the
    -- size that it is asked for.
    pub iovs2stream_lem :
        (null : P) (malloc : ℕ → Option (List ℕ)) {s : Iovs P} {buf out : List ℕ}
        → IsValid null s
        → total (contents null s) < 2 ^ 64
        → malloc s.iolen ≡ some buf
        → length buf ≡ s.iolen
        → join (contents null s) ≡ some out
        → (iovs2stream read malloc s ≡ ok (success, some (out, length out)))
          × (length out ≡ total (contents null s))
    unfolding iovs2stream
    iovs2stream_lem null malloc {s} {buf} {out} valid small given sized joined =
        let size = length-join (contents null s) joined in
        let loop =
          gather_lem null s.len s.low 0 s.iovs (λ k. cell null s.iovs (s.low + k)) [] buf refl
            (omega arith) (λ k h. refl) joined (omega arith) in
        (
          rw (given, iovs2stream, loop)
              (ap₂ (λ o n. ok (success, some (o, n)))
                (rw (drop_all (length out) buf (omega arith)) (append-nil out)) (omega arith)),
          size,
        )
