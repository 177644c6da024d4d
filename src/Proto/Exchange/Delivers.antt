-- ===== src/Proto/Exchange/Delivers.antt =====
-- The blocks that are asked for are the file that is sent.
use nftp_codec.Prelude.{
  ℕ, zero, suc, ◌+◌, ◌*◌, ◌/◌, ◌^◌, ◌≤◌, ◌<◌, List, [], ◌∷◌, ◌++◌, none, some, length, drop, true,
  Bool, ◌==◌, ◌≡◌, ◌⊎◌, refl, sym, ap, ◌∙◌, arith, append_assoc, append-nil,
}
use nftp_codec.Prelude.Int.{pos}
use nftp_codec.Errors.{Run, ok, ◌>>=◌}
use nftp_codec.Mem.{or_fault}
use nftp_codec.File.Blocks.{block_of, Ready, part-append, none_behind}
use nftp_codec.File.{Disk}
use nftp_codec.File.Write.{IsSystem}
use nftp_codec.Codec.{Nftp}
use nftp_codec.Codec.Roundtrip.{received}
use nftp_codec.Proto.{Env, State, Nctx, FileCb}
use nftp_codec.Proto.Receiver.{Reply, on_file}
use nftp_codec.Proto.Receiver.Finish.{sum_of, IsDefault}
use nftp_codec.Proto.Receiver.Steps.{Transfer}
use nftp_codec.Proto.Receiver.Stream.{packets_in, numbers, AllCarry}
use nftp_codec.Proto.Receiver.Delivery.{Finishable, Delivered, packets_in-Delivered}
use nftp_codec.Proto.Blocks.Receiving.{Has, up_to, Receiving, Appends}
use nftp_codec.Proto.Handler.Messages.{handler_giveme, handler_block}
use nftp_codec.Proto.Sender.Made.{Plenty, blank, block_type}
use nftp_codec.Proto.Sender.Packets.{arrived, maker_giveme}
use nftp_codec.Proto.Sender.Answer.{Offers, on_giveme_lem}
use mathlib.Core.List.{Memᴰ}
use mathlib.Core.Path.{subst}
use nftp_codec.Proto.Exchange.{exchange}

module _ {here there : Env} where
  module _ (plenty : Plenty here) (plenty' : Plenty there) (snd : State there)
      (path fname sent : List ℕ) (offers : Offers snd path fname sent) (rpath : List ℕ)
      (base : here.base_name rpath ≡ fname) where
    -- The packet that comes back when block n is asked for.
    abbrev packet_for : ℕ → Bool × Nftp
    packet_for n = (
      n == length sent / snd.blocksz,
      arrived plenty' (blank plenty.bytes) (block_type (n == length sent / snd.blocksz)) fname n
          (block_of snd.blocksz sent n),
    )

    abbrev packets_for : List ℕ → List (Bool × Nftp)
    packets_for [] = []
    packets_for (n ∷ ns) = packet_for n ∷ packets_for ns

    exchange-packets_in :
        (js : List ℕ) (rcv : State here)
        → ((j : ℕ) → Memᴰ j js → (j ≤ length sent / snd.blocksz) × (j < 2 ^ 16))
        → exchange snd rcv rpath js ≡ packets_in rcv (packets_for js)
    unfolding exchange packets_in received
    exchange-packets_in [] rcv inside = refl
    exchange-packets_in (j ∷ js) rcv inside =
        let (within, short) = inside j (Memᴰ.head refl) in
        let asked : Nftp = record (blank plenty'.bytes) {
          type = 5;
          len = 11;
          fileid = sum_of fname;
          blockseq = j;
        } in
        let (ask, made, decoded) =
          maker_giveme plenty rcv rpath fname base offers.named j short (blank plenty'.bytes)
            (pos 0) in
        let (message, given, decoded') =
          on_giveme_lem plenty' snd path fname sent offers j within short (blank plenty.bytes) asked
            refl refl in
        let behind = λ (k : State here → Run (Reply × State here)).
          on_file rcv (packet_for j).0 (packet_for j).1 >>= λ (r : Reply × State here).
          elim r.0.rmsg [ none ↦ k r.1 | some name ↦ ok (r.0, r.1) ] in
        rw
          (
            made,
            ◌>>=◌,
            or_fault,
            ◌>>=◌,
            handler_giveme plenty' snd ask asked decoded refl,
            given,
            ◌>>=◌,
            or_fault,
            ◌>>=◌,
            handler_block plenty rcv message (packet_for j).1 (packet_for j).0 decoded' refl,
          )
          (ap behind (λ i rcv'. exchange-packets_in js rcv' (λ k m. inside k (Memᴰ.tail m)) i))

    numbers-packets_for : (js : List ℕ) → numbers (packets_for js) ≡ js
    unfolding received
    numbers-packets_for [] = refl
    numbers-packets_for (j ∷ js) = ap (λ ks. j ∷ ks) (numbers-packets_for js)

    packets_for-AllCarry :
        (js : List ℕ) → AllCarry (block_of snd.blocksz sent) (sum_of fname) (packets_for js)
    unfolding received
    packets_for-AllCarry [] = tt
    packets_for-AllCarry (j ∷ js) =
        (record { for_file = refl; content = refl; size = refl }, packets_for-AllCarry js)

module _ (disk : Disk) (malloc : ℕ → Bool) (blocksz : ℕ) (path sent : List ℕ)
    (ready : Ready disk malloc blocksz path sent) where
  up_to-append : (n : ℕ) → up_to (block_of blocksz sent) n ++ drop (n * blocksz) sent ≡ sent
  up_to-append zero = let start : 0 * blocksz ≡ 0 = omega arith in ap (λ k. drop k sent) start
  up_to-append (suc n) =
      append_assoc (up_to (block_of blocksz sent) n) (block_of blocksz sent n)
        (drop (suc n * blocksz) sent)
      ∙ ap (λ r. up_to (block_of blocksz sent) n ++ r)
          (part-append disk malloc blocksz path sent ready n)
      ∙ up_to-append n

  -- All blocks together are the file.
  up_to-file : up_to (block_of blocksz sent) (length sent / blocksz + 1) ≡ sent
  up_to-file =
      let count = length sent / blocksz + 1 in
      sym (append-nil (up_to (block_of blocksz sent) count))
      ∙ ap (λ r. up_to (block_of blocksz sent) count ++ r)
          (sym (none_behind disk malloc blocksz path sent ready count refl))
      ∙ up_to-append count

-- A sender that offers a file, and a receiver with a transfer of it under way, who has perhaps part of
-- its blocks, and asks for blocks until each of the others was asked for, in any order and however
-- often. Memory is granted on both sides, appending to the part file does not fail, and the file can
-- then be renamed, read and hashed. Then all messages are made, decoded and answered, and the exchange
-- delivers the sender's file.
pub exchange-Delivered :
    {here there : Env} (law : IsSystem here.sys) (plenty : Plenty here) (plenty' : Plenty there)
    (snd : State there) (path fname sent : List ℕ)
    → Offers snd path fname sent
    → (rcv : State here) (rpath wfname part target : List ℕ) (at : ℕ) (ctx : Nctx) (address : ℕ)
      (fcb : FileCb) (js : List ℕ)
    → here.base_name rpath ≡ fname
    → Transfer rcv (sum_of fname) at ctx wfname part
    → Receiving here.sys part (block_of snd.blocksz sent) ctx.cap ctx.nextid ctx.entries rcv.disk
    → ctx.nextid < ctx.cap
    → ctx.cap ≡ length sent / snd.blocksz + 1
    → ctx.cap ≤ 2 ^ 16
    → Appends here.sys part
    → Finishable rcv wfname part target sent
    → ctx.fcb ≡ some address
    → IsDefault rcv address fcb
    → (here.files.erase rcv.files ctx.fileid).0 ≡ true
    → ((j : ℕ) → Memᴰ j js → j < ctx.cap)
    → ((j : ℕ) → j < ctx.cap → Has ctx.nextid ctx.entries j ⊎ Memᴰ j js)
    → Delivered rcv ctx wfname target sent fcb (exchange snd rcv rpath js)
exchange-Delivered {here} {there} law plenty plenty' snd path fname sent offers rcv rpath wfname
      part target at ctx address fcb js base t now more cap short appends able own default erased
      inside covered =
    let blocks = block_of snd.blocksz sent in
    let whole : up_to blocks ctx.cap ≡ sent =
      ap (up_to blocks) cap
      ∙ up_to-file (there.sys.disk snd.disk) (there.memory.grants 3) snd.blocksz path sent
          offers.ready in
    let ps = packets_for plenty plenty' snd path fname sent offers rpath base js in
    let same = numbers-packets_for plenty plenty' snd path fname sent offers rpath base js in
    let runs =
      exchange-packets_in plenty plenty' snd path fname sent offers rpath base js rcv
        (λ j m. (omega (arith, inside j m, cap), omega (arith, inside j m, short))) in
    rw (runs) (
      subst (λ file. Delivered rcv ctx wfname target file fcb (packets_in rcv ps)) whole
        (packets_in-Delivered law part wfname target blocks appends (sum_of fname) at ps rcv ctx
          address fcb t now more
          (subst (λ file. Finishable rcv wfname part target file) (sym whole) able) own default
          erased (packets_for-AllCarry plenty plenty' snd path fname sent offers rpath base js)
          (λ j. subst (λ ks. Memᴰ j ks → j < ctx.cap) (sym same) (inside j))
          (λ j.
            subst (λ ks. j < ctx.cap → Has ctx.nextid ctx.entries j ⊎ Memᴰ j ks) (sym same)
              (covered j))))
