-- ===== src/Proto/Exchange.antt =====
-- src/proto.c on both sides: a receiver asks for blocks, and a sender answers.
pub mod Delivers
pub mod Complete
mod Tests
use nftp_codec.Prelude.{
  ℕ, zero, suc, ◌+◌, ◌-◌, ◌*◌, ◌/◌, ◌^◌, ◌≤◌, ◌<◌, List, [], ◌∷◌, ◌++◌, Option, none, some, length,
  take, drop, true, false, Bool, ◌==◌, ◌≡◌, ◌⊎◌, refl, sym, ap, ◌∙◌, arith, append_assoc,
  append-nil,
}
use nftp_codec.Prelude.Int.{pos}
use nftp_codec.Errors.{success, Run, ok, ◌>>=◌}
use nftp_codec.Mem.{or_fault}
use nftp_codec.File.Blocks.{block_of, Ready, part-append, none_behind}
use nftp_codec.File.{Disk}
use nftp_codec.File.Write.{IsSystem, stored}
use nftp_codec.Codec.{Nftp, kind_of}
use nftp_codec.Codec.Roundtrip.{received}
use nftp_codec.Proto.{Env, State, Nctx, FileCb}
use nftp_codec.Proto.Receiver.{Reply, refuse, on_file}
use nftp_codec.Proto.Receiver.Finish.{sum_of, IsDefault}
use nftp_codec.Proto.Receiver.Steps.{Transfer, Carries}
use nftp_codec.Proto.Receiver.Stream.{packets_in, numbers, AllCarry}
use nftp_codec.Proto.Receiver.Delivery.{Finishable, Delivered, packets_in-Delivered}
use nftp_codec.Proto.Blocks.Receiving.{Has, up_to, Receiving, Appends}
use nftp_codec.Proto.Handler.{handler}
use nftp_codec.Proto.Handler.Messages.{handler_giveme, handler_block}
use nftp_codec.Proto.Sender.{maker}
use nftp_codec.Proto.Sender.Made.{Plenty, blank, block_type}
use nftp_codec.Proto.Sender.Packets.{arrived, maker_giveme}
use nftp_codec.Proto.Sender.Answer.{Offers, answered, on_giveme_lem}
use nftp_codec.Hash.Remainder.{AreBytes}
use mathlib.Core.List.{Memᴰ}

module _ {here there : Env} where
  -- The receiver makes a GIVEME for each block in turn, the sender handles it, and the receiver handles
  -- the answer, until an answer of its own is a file's name.
  unfoldable pub exchange : State there → State here → List ℕ → List ℕ → Run (Reply × State here)
  exchange snd rcv path [] = ok (refuse success, rcv)
  exchange snd rcv path (j ∷ js) = do
    (rv, ask, asking) ← maker rcv (some path) 5 (pos 0) (pos j)
    question ← or_fault ask
    (answer, snd') ← handler snd question
    message ← or_fault answer.rmsg
    (reply, rcv') ← handler asking message
    elim reply.rmsg [ none ↦ exchange snd' rcv' path js | some name ↦ ok (reply, rcv') ]

  -- The sender greets the receiver and handles its ACK, and then the blocks are asked for.
  unfoldable pub send_file :
      State there → State here → List ℕ → List ℕ → List ℕ → Run (Reply × State here)
  send_file snd rcv path fname js = do
    (rv, hello, snd') ← maker snd (some path) 1 (pos 0) (pos 0)
    greeting ← or_fault hello
    (reply, rcv') ← handler rcv greeting
    ack ← or_fault reply.rmsg
    (taken, snd'') ← handler snd' ack
    exchange snd'' rcv' fname js
