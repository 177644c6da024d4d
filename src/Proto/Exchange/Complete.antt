-- ===== src/Proto/Exchange/Complete.antt =====
-- A file is sent from the first packet to the last.
use nftp_codec.Prelude.{
  ℕ, ◌+◌, ◌/◌, ◌≤◌, List, [], ◌∷◌, ◌++◌, some, length, false, ◌≡◌, refl, inr, ap, ◌∙◌, sym, arith,
}
use nftp_codec.Prelude.Int.{pos}
use nftp_codec.Errors.{success, ok, ◌>>=◌}
use nftp_codec.Mem.{or_fault}
use nftp_codec.File.Name.{full_path, dir_bytes}
use nftp_codec.File.Write.{IsSystem, stored}
use nftp_codec.Codec.{Nftp, hello}
use nftp_codec.Codec.Roundtrip.{received}
use nftp_codec.Hash.Remainder.{AreBytes}
use nftp_codec.Proto.{Env, State, Nctx, FileCb, IsHashtable, inserted, same_name}
use nftp_codec.Proto.Registry.{star}
use nftp_codec.Proto.Registry.Names.{Registered, has_name}
use nftp_codec.Proto.Blocks.Receiving.{Appends}
use nftp_codec.File.Blocks.{block_of}
use nftp_codec.Proto.Receiver.{call_cb}
use nftp_codec.Proto.Receiver.Finish.{sum_of}
use nftp_codec.Proto.Receiver.Delivery.{Finishable, Delivered}
use nftp_codec.Proto.Sender.Made.{Plenty, blank}
use nftp_codec.Proto.Sender.Greets.{
  Announces, cleared, noted, hello_packet, maker_hello, noted-Offers,
}
use nftp_codec.Proto.Handler.Messages.{handler_hello, handler_ack}
use nftp_codec.Proto.Handler.Begun.{Vacant, IsName, Begun, part_suffix}
use nftp_codec.Proto.Handler.Greeting.{on_hello_lem}
use nftp_codec.Proto.Exchange.{exchange, send_file}
use nftp_codec.Proto.Exchange.Delivers.{exchange-Delivered}
use mathlib.Core.List.{Memᴰ}
use mathlib.Core.Path.{subst}

-- What the two sides need for a file to be sent: what is documented of what they use, and memory.
pub record Works (here there : Env) : Type 0 where
  pub system : IsSystem here.sys
  pub system' : IsSystem there.sys
  pub files : IsHashtable here.files
  pub senders : IsHashtable there.senders
  pub plenty : Plenty here
  pub plenty' : Plenty there

-- A receiver to whom the file is new, under a name of its own that no callback is registered for.
pub record Welcomes {here : Env} (rcv : State here) (fname sent target : List ℕ) (first : FileCb)
    (fs : List FileCb) : Type 0 where
  pub vacant : Vacant rcv fname
  pub registered : Registered rcv (first ∷ fs)
  pub plain : same_name star fname ≡ false
  pub free : has_name (first ∷ fs) fname ≡ false
  pub name : IsName fname
  pub base : here.base_name fname ≡ fname
  pub unknown : here.files.contains rcv.files 0 ≡ false
  pub entered : (here.files.insert rcv.files (sum_of fname) (length rcv.ctxs)).0 ≡ inserted
  pub appends : Appends here.sys (dir_bytes rcv.recvdir ++ (fname ++ part_suffix))
  pub able : Finishable rcv fname (dir_bytes rcv.recvdir ++ (fname ++ part_suffix)) target sent

module _ {here there : Env} (works : Works here there) (snd : State there) (rcv : State here)
    (path fname sent target : List ℕ) (first : FileCb) (fs : List FileCb)
    (file : Announces snd path fname sent)
    (new : (there.senders.insert (cleared snd (sum_of fname)) (sum_of fname) path).0 ≡ inserted)
    (wel : Welcomes rcv fname sent target first fs) where
  -- The HELLO as the receiver decodes it.
  abbrev greeting_packet : Nftp
  greeting_packet =
      received hello (blank works.plenty.bytes)
        (hello_packet works.system' works.senders works.plenty' snd path fname sent file new
          (pos 0))
        fname []

  -- A receiver that has handled it gets the whole file.
  Begun-Delivered :
      (js : List ℕ) (rcv' : State here) (at : ℕ) (ctx : Nctx) (address : ℕ)
      → Begun rcv greeting_packet fname first at ctx address rcv'
      → ((j : ℕ) → Memᴰ j js → j ≤ length sent / snd.blocksz)
      → ((j : ℕ) → j ≤ length sent / snd.blocksz → Memᴰ j js)
      → Delivered rcv' ctx fname target sent first
          (exchange (noted snd (sum_of fname) path) rcv' fname js)
  unfolding received
  Begun-Delivered js rcv' at ctx address begun inside covered =
      let able : Finishable rcv' fname (dir_bytes rcv.recvdir ++ (fname ++ part_suffix)) target
          sent =
        record {
          named = ap (λ dir. full_path dir fname) begun.recvdir ∙ wel.able.named;
          moves = wel.able.moves;
          opens = wel.able.opens;
          granted = wel.able.granted;
          bytes = wel.able.bytes;
        } in
      let cap : ctx.cap ≡ length sent / snd.blocksz + 1 = begun.cap in
      exchange-Delivered works.system works.plenty works.plenty' (noted snd (sum_of fname) path)
        path fname sent
        (noted-Offers works.system' works.senders works.plenty' snd path fname sent file new) rcv'
        fname fname (dir_bytes rcv.recvdir ++ (fname ++ part_suffix)) target at ctx address first js
        wel.base begun.transfer (begun.receiving (block_of snd.blocksz sent))
        (omega (arith, begun.nextid, cap)) cap (omega (arith, cap, file.few)) wel.appends able
        begun.fcb begun.default
        (ap (λ k. (here.files.erase rcv'.files k).0) begun.fileid
          ∙ works.files.erases rcv'.files (sum_of fname) begun.transfer.listed)
        (λ j m. omega (arith, inside j m, cap))
        (λ j room. inr (covered j (omega (arith, room, cap))))

  -- A sender whose file can be read and announced, and has at most 65535 blocks, and a receiver to
  -- whom the file is new, under a name that fits, that no callback is registered for, and under which
  -- no file stands. The hash tables and the file systems do what is documented of them, memory is
  -- granted, the tables take the new entries, and on the receiver's disk the part file can be appended
  -- to and renamed, and the file read. If the receiver asks for every block, in any order and however
  -- often, then all messages of the HELLO, the ACK and of each block can be made, sent, decoded and
  -- handled; the last answer is 0 with the file's name, the file stands at the receiver under its name
  -- with the sender's bytes, and the receiver's first callback was run once, unless it is NULL, and no
  -- other.
  pub send_file-Delivered :
      (js : List ℕ)
      → ((j : ℕ) → Memᴰ j js → j ≤ length sent / snd.blocksz)
      → ((j : ℕ) → j ≤ length sent / snd.blocksz → Memᴰ j js)
      → (st : State here) × (send_file snd rcv path fname js
          ≡ ok (record { status = success; rmsg = some fname }, st))
        × (stored here.sys st.disk target ≡ some sent)
        × (st.ran ≡ call_cb first rcv.ran)
  unfolding send_file received
  send_file-Delivered js inside covered =
      let (greeting, made, decoded) =
        maker_hello works.system' works.senders works.plenty' snd path fname sent file new (pos 0)
          (blank works.plenty.bytes) in
      let (rcv', at, ctx, address, (ack, answered, decoded'), begun) =
        on_hello_lem works.system works.files works.plenty rcv greeting_packet fname
          (blank works.plenty'.bytes) first fs (subst AreBytes (sym wel.base) file.named) wel.vacant
          wel.registered wel.plain wel.free refl wel.name file.named wel.unknown wel.entered in
      let (rv, st, run, there_it_is, good, _) =
        Begun-Delivered js rcv' at ctx address begun inside covered in
      let acked : Nftp = record (blank works.plenty'.bytes) {
        type = 2;
        len = 10;
        id = 0;
        fileid = sum_of (here.base_name fname);
      } in
      let (right, ran, _) = good begun.hashcode in
      (
        st,
        rw
            (
              made,
              ◌>>=◌,
              or_fault,
              ◌>>=◌,
              handler_hello works.plenty rcv greeting greeting_packet decoded refl,
              answered,
              ◌>>=◌,
              or_fault,
              ◌>>=◌,
              handler_ack works.plenty' (noted snd (sum_of fname) path) ack acked decoded' refl,
              ◌>>=◌,
              run,
              right,
            )
            refl,
        there_it_is,
        ran ∙ ap (call_cb first) begun.ran,
      )
