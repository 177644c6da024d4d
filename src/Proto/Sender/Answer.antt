-- ===== src/Proto/Sender/Answer.antt =====
-- A GIVEME is answered by the block that it asks for.
use nftp_codec.Prelude.{
  ℕ, ◌+◌, ◌-◌, ◌/◌, ◌^◌, ◌≤◌, ◌<◌, List, some, length, drop, true, false, Bool, if◌then◌else◌, ◌==◌,
  ◌≡◌, refl, ◌*◌, arith, length-take, length-drop,
}
use nftp_codec.Prelude.Int.{pos}
use nftp_codec.Errors.{success, ok, ◌>>=◌}
use nftp_codec.Mem.{or_fault}
use nftp_codec.File.Blocks.{Ready, block_of, sized_lem, in_range, file_readblk_lem}
use nftp_codec.Hash.Remainder.{AreBytes}
use nftp_codec.Codec.{Nftp, decode}
use nftp_codec.Codec.Decode.{granted}
use nftp_codec.Proto.{Env, State}
use nftp_codec.Proto.Receiver.Finish.{sum_of}
use nftp_codec.Proto.Sender.{on_giveme}
use nftp_codec.Proto.Sender.Made.{Plenty, Sends, block_type}
use nftp_codec.Proto.Sender.Packets.{arrived, maker_block}

if-block_type : (last : Bool) → (if last then 4 else 3) ≡ block_type last
if-block_type true = refl
if-block_type false = refl

module _ {env : Env} where
  -- The file is in the table of files to send, under the checksum of its name, and can be read.
  pub record Offers (st : State env) (path fname sent : List ℕ) : Type 0 where
    pub listed : env.senders.contains st.senderfiles (sum_of fname) ≡ true
    pub found : env.senders.lookup st.senderfiles (sum_of fname) ≡ some path
    pub base : env.base_name path ≡ fname
    pub named : AreBytes fname
    pub ready : Ready (env.sys.disk st.disk) (env.memory.grants 3) st.blocksz path sent

module _ {env : Env} (plenty : Plenty env) (st : State env) (path fname sent : List ℕ)
    (offers : Offers st path fname sent) (n : ℕ) (within : n ≤ length sent / st.blocksz)
    (short : n < 2 ^ 16) (r : Nftp) where
  part-short : length (block_of st.blocksz sent n) < 2 ^ 31
  part-short = omega (
    arith,
    length-take st.blocksz (drop (n * st.blocksz) sent),
    length-drop (n * st.blocksz) sent,
    offers.ready.small,
  )

  -- The packet with block n, as the receiver decodes it.
  abbrev pub answered : Nftp
  answered =
      arrived plenty r (block_type (n == length sent / st.blocksz)) fname n
        (block_of st.blocksz sent n)

  block_sent :
      (last : Bool)
      → let part = block_of st.blocksz sent n in
        Sends st path
          (block_type last)
          (pos (sum_of fname))
          (pos n)
          st
          r
          (arrived plenty r (block_type last) fname n part)
  block_sent last =
      maker_block plenty st path fname offers.base offers.named n short r
        (block_of st.blocksz sent n) part-short
        ((file_readblk_lem (env.sys.disk st.disk) (env.memory.grants 3) st.blocksz path sent
            offers.ready n
            (in_range (env.sys.disk st.disk) (env.memory.grants 3) st.blocksz path sent offers.ready
              n within)).0
          within)
        last (pos (sum_of fname))

  -- If the file is offered and memory is granted, a GIVEME for a block that it has is answered by 0 and a
  -- message that decodes to the file's id, the block's number, and that block of the file; it is an END
  -- packet for the last block, and a FILE packet for the others. The state does not change.
  pub on_giveme_lem :
      (q : Nftp)
      → q.fileid ≡ sum_of fname
      → q.blockseq ≡ n
      → (m : List ℕ) × (on_giveme st q ≡ ok (record { status = success; rmsg = some m }, st))
        × (decode granted (some r) (some m) ≡ ok (success, some answered))
  unfolding on_giveme
  on_giveme_lem q same asked =
      let (m, made, decoded) = block_sent (n == length sent / st.blocksz) in
      let count : length sent / st.blocksz + 1 - 1 ≡ length sent / st.blocksz = omega arith in
      (
        m,
        rw
            (
              same,
              offers.listed,
              on_giveme,
              same,
              offers.found,
              or_fault,
              ◌>>=◌,
              sized_lem (env.sys.disk st.disk) (env.memory.grants 3) st.blocksz path sent
                  offers.ready,
              ◌>>=◌,
              asked,
              count,
              if-block_type (n == length sent / st.blocksz),
              same,
              made,
              ◌>>=◌,
            )
            refl,
        decoded,
      )
