-- ===== src/Proto/Handler/Messages.antt =====
-- A message that decodes goes to the case of its packet.
use nftp_codec.Prelude.{ℕ, ◌+◌, List, some, Bool, true, false, ◌≡◌, refl, ap, ◌∙◌}
use nftp_codec.Errors.{success, ok, ◌>>=◌}
use nftp_codec.Mem.{or_fault}
use nftp_codec.Codec.{Nftp, kind_of, decode}
use nftp_codec.Codec.Decode.{granted}
use nftp_codec.Proto.{Env, State}
use nftp_codec.Proto.Handler.{on_hello, handle, handler}
use nftp_codec.Proto.Receiver.{refuse, on_file}
use nftp_codec.Proto.Sender.{on_giveme}
use nftp_codec.Proto.Sender.Made.{Plenty, blank, block_type, new_packet_lem}

module _ {env : Env} (plenty : Plenty env) (st : State env) where
  handler_lem :
      (msg : List ℕ) (n : Nftp)
      → decode granted (some (blank plenty.bytes)) (some msg) ≡ ok (success, some n)
      → handler st msg ≡ handle (kind_of n.type) st n
  unfolding handler
  handler_lem msg n decoded =
      let met : (λ (k : ℕ). env.memory.grants (6 + k)) ≡ granted =
        λ i k size. plenty.grants (6 + k) size i in
      rw
        (
          new_packet_lem plenty,
          handler,
          ap (λ m. decode m (some (blank plenty.bytes)) (some msg)) met ∙ decoded,
          ◌>>=◌,
          or_fault,
          ◌>>=◌,
        )
        refl

  pub handler_hello :
      (msg : List ℕ) (n : Nftp)
      → decode granted (some (blank plenty.bytes)) (some msg) ≡ ok (success, some n)
      → n.type ≡ 1
      → handler st msg ≡ on_hello st n
  unfolding handle kind_of
  handler_hello msg n decoded greets =
      handler_lem msg n decoded ∙ ap (λ t. handle (kind_of t) st n) greets

  pub handler_ack :
      (msg : List ℕ) (n : Nftp)
      → decode granted (some (blank plenty.bytes)) (some msg) ≡ ok (success, some n)
      → n.type ≡ 2
      → handler st msg ≡ ok (refuse success, st)
  unfolding handle kind_of
  handler_ack msg n decoded takes =
      handler_lem msg n decoded ∙ ap (λ t. handle (kind_of t) st n) takes

  pub handler_giveme :
      (msg : List ℕ) (n : Nftp)
      → decode granted (some (blank plenty.bytes)) (some msg) ≡ ok (success, some n)
      → n.type ≡ 5
      → handler st msg ≡ on_giveme st n
  unfolding handle kind_of
  handler_giveme msg n decoded asks =
      handler_lem msg n decoded ∙ ap (λ t. handle (kind_of t) st n) asks

  pub handler_block :
      (msg : List ℕ) (n : Nftp) (last : Bool)
      → decode granted (some (blank plenty.bytes)) (some msg) ≡ ok (success, some n)
      → n.type ≡ block_type last
      → handler st msg ≡ on_file st last n
  unfolding handle kind_of
  handler_block msg n true decoded brings =
      handler_lem msg n decoded ∙ ap (λ t. handle (kind_of t) st n) brings
  handler_block msg n false decoded brings =
      handler_lem msg n decoded ∙ ap (λ t. handle (kind_of t) st n) brings
