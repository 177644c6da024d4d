-- ===== src/Proto/Blocks/Reassembly.antt =====
-- The blocks of a file come to the part file in their order, in whatever order they are received.
use nftp_codec.Prelude.{
  ℕ, zero, suc, ◌+◌, ◌≤◌, ◌<◌, List, none, some, length, set, length-set, get_or-set_ne, le→leb,
  lt→leb, eq→==, ne→==, ◌≡◌, ◌≢◌, inl, inr, refl, ap, ◌∙◌, arith,
}
use nftp_codec.Errors.{success, ok, ◌>>=◌}
use nftp_codec.Mem.{load_lem, store_lem, or_fault}
use nftp_codec.File.Write.{System, IsSystem, stored, file_append}
use nftp_codec.File.Write.Changes.{file_append_lem}
use nftp_codec.Proto.{Nctx}
use nftp_codec.Proto.Blocks.{no_buf, drain, append_block, keep_block, count_kept, block_in}
use native.Mathlib.Decide.{ℕ_discrete, dec_lt}
use nftp_codec.Proto.Blocks.Receiving.{
  at, up_to, Kept, Receiving, Appends, Drained, Taken, read_block_all, set-Has, suc-Has, set-Kept,
  fill, fill-Kept, filled, fill-Has,
}

module _ (sys : System) (law : IsSystem sys) (path : List ℕ) (blocks : ℕ → List ℕ)
    (appends : Appends sys path) where
  appended :
      (d : sys.State) (n : ℕ)
      → stored sys d path ≡ some (up_to blocks n)
      → stored sys (file_append sys d path (blocks n)).1 path ≡ some (up_to blocks (suc n))
  appended d n there =
      let r = file_append sys d path (blocks n) in
      let whole : r ≡ (success, r.1) =
        ap (λ s. (s, r.1)) (appends d (up_to blocks n) (blocks n) there) in
      ((file_append_lem sys law d r.1 path (blocks n)).1 (up_to blocks n) there whole).0

  module _ (rounds : ℕ) (ctx : Nctx) (d : sys.State) where
    drain_end :
        ctx.cap ≤ suc ctx.nextid
        → drain sys path (suc rounds) ctx d
          ≡ ok (success, record ctx { nextid = suc ctx.nextid }, d)
    unfolding drain
    drain_end last = rw (le→leb ctx.cap (suc ctx.nextid) last, drain)

    drain_stop :
        suc ctx.nextid < ctx.cap
        → length ctx.entries ≡ ctx.cap
        → (at ctx.entries (suc ctx.nextid)).body ≡ none
        → drain sys path (suc rounds) ctx d
          ≡ ok (success, record ctx { nextid = suc ctx.nextid }, d)
    unfolding drain
    drain_stop more cells empty = rw (
      lt→leb ctx.cap (suc ctx.nextid) more,
      drain,
      load_lem ctx.entries (suc ctx.nextid) no_buf (omega arith),
      ◌>>=◌,
      empty,
      drain,
    )

    drain_on :
        (b : List ℕ)
        → suc ctx.nextid < ctx.cap
        → length ctx.entries ≡ ctx.cap
        → (at ctx.entries (suc ctx.nextid)).body ≡ some b
        → (at ctx.entries (suc ctx.nextid)).len ≡ length b
        → (file_append sys d path b).0 ≡ success
        → drain sys path (suc rounds) ctx d
          ≡ drain sys path rounds
              (record ctx {
                nextid = suc ctx.nextid;
                entries = set ctx.entries (suc ctx.nextid) no_buf;
              })
              (file_append sys d path b).1
    unfolding drain
    drain_on b more cells full size done = rw (
      lt→leb ctx.cap (suc ctx.nextid) more,
      drain,
      load_lem ctx.entries (suc ctx.nextid) no_buf (omega arith),
      ◌>>=◌,
      full,
      size,
      drain,
      read_block_all b,
      done,
      drain,
      store_lem ctx.entries (suc ctx.nextid) no_buf (omega arith),
    )

  drain_lem :
      (rounds : ℕ) (ctx : Nctx) (d : sys.State)
      → length ctx.entries ≡ ctx.cap
      → stored sys d path ≡ some (up_to blocks (suc ctx.nextid))
      → ((j : ℕ) → Kept blocks j (at ctx.entries j))
      → ctx.nextid < ctx.cap
      → ctx.cap ≤ ctx.nextid + rounds
      → Drained sys path blocks ctx (drain sys path rounds ctx d)
  drain_lem zero ctx d cells there kept room enough = absurd (omega arith)
  drain_lem (suc rounds) ctx d cells there kept room enough =
      let n = suc ctx.nextid in
      elim (dec_lt n ctx.cap) [
        | no last ↦ (
          n,
          ctx.entries,
          d,
          drain_end rounds ctx d (omega arith),
          record {
            cells = cells;
            in_file = there;
            below = omega arith;
            kept = kept;
            waiting = λ more. absurd (last more);
          },
          omega arith,
          λ j h. h,
        )
        | yes more ↦ elim (kept n) [
          | inl empty ↦ (
            n,
            ctx.entries,
            d,
            drain_stop rounds ctx d more cells empty,
            record {
              cells = cells;
              in_file = there;
              below = omega arith;
              kept = kept;
              waiting = λ _. empty;
            },
            omega arith,
            λ j h. h,
          )
          | inr full ↦
              let b = blocks n in
              let done = appends d (up_to blocks n) b there in
              let next : Nctx = record ctx { nextid = n; entries = set ctx.entries n no_buf } in
              let (m, e, d', run, receiving, later, mono) =
                drain_lem rounds next (file_append sys d path b).1
                  (length-set ctx.entries n no_buf ∙ cells) (appended d n there)
                  (set-Kept blocks ctx.entries n kept (omega arith)) more (omega arith) in
              (
                m,
                e,
                d',
                drain_on rounds ctx d b more cells full.0 full.1 done ∙ run,
                receiving,
                omega arith,
                λ j h. mono j (set-Has ctx.entries n j h),
              )
        ]
      ]

  module _ (ctx : Nctx) (d : sys.State)
      (now : Receiving sys path blocks ctx.cap ctx.nextid ctx.entries d) where
    append_next :
        ctx.nextid < ctx.cap
        → Drained sys path blocks ctx
            (append_block sys path ctx (some (blocks ctx.nextid)) (length (blocks ctx.nextid)) d)
    unfolding append_block
    append_next room =
        let b = blocks ctx.nextid in
        let done = appends d (up_to blocks ctx.nextid) b now.in_file in
        rw (read_block_all b, or_fault, ◌>>=◌, done, append_block)
          (drain_lem (suc ctx.cap) ctx (file_append sys d path b).1 now.cells
            (appended d ctx.nextid now.in_file) now.kept room (omega arith))

    next_block :
        (seq : ℕ)
        → seq ≡ ctx.nextid
        → ctx.nextid < ctx.cap
        → Taken sys path blocks ctx seq
            (block_in sys path ctx seq (some (blocks seq)) (length (blocks seq)) d)
    unfolding block_in
    next_block seq is_next room =
        let (n, e, d', run, receiving, later, mono) = append_next room in
        (
          n,
          e,
          ctx.len,
          d',
          rw (eq→== seq ctx.nextid is_next, block_in, is_next) run,
          receiving,
          inl (omega arith),
          λ j h. mono j (suc-Has ctx.entries ctx.nextid j h),
        )

    other_block :
        (seq : ℕ)
        → seq ≢ ctx.nextid
        → seq < ctx.cap
        → Taken sys path blocks ctx seq
            (block_in sys path ctx seq (some (blocks seq)) (length (blocks seq)) d)
    unfolding block_in keep_block
    other_block seq not_next room =
        let e = set ctx.entries seq (fill blocks seq) in
        let inside : seq < length ctx.entries = rw (now.cells) room in
        (
          ctx.nextid,
          e,
          count_kept sys path ctx.len (at ctx.entries seq),
          d,
          rw
              (
                ne→== seq ctx.nextid not_next,
                block_in,
                keep_block,
                load_lem ctx.entries seq no_buf inside,
                store_lem ctx.entries seq (fill blocks seq) inside,
              )
              refl,
          record {
            cells = length-set ctx.entries seq (fill blocks seq) ∙ now.cells;
            in_file = now.in_file;
            below = now.below;
            kept = fill-Kept blocks ctx.entries seq now.kept inside;
            waiting = λ more.
                rw (get_or-set_ne ctx.entries seq ctx.nextid (fill blocks seq) no_buf not_next)
                  (now.waiting more);
          },
          inr (filled blocks ctx.entries seq inside),
          λ j h. fill-Has blocks ctx.entries ctx.nextid seq j inside h,
        )

    -- Of a file that is not yet whole, on a disk that meets what is documented of it and on which
    -- appending to the part file does not fail, each block whose number is below that of the blocks is
    -- taken in: the call does not fault and succeeds, the part file is again the first blocks, the other
    -- blocks are kept or still to come, and this block and those that were there are there.
    pub block_in_lem :
        (seq : ℕ)
        → ctx.nextid < ctx.cap
        → seq < ctx.cap
        → Taken sys path blocks ctx seq
            (block_in sys path ctx seq (some (blocks seq)) (length (blocks seq)) d)
    block_in_lem seq room inside = elim (ℕ_discrete seq ctx.nextid) [
      | yes same ↦ next_block seq same room
      | no other ↦ other_block seq other inside
    ]
