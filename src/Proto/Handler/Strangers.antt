-- ===== src/Proto/Handler/Strangers.antt =====
-- Messages that `nftp_proto_handler` does not act on, by their bytes.
use nftp_codec.Prelude.{
  ℕ, ◌+◌, ◌^◌, ◌≤◌, ◌<◌, List, some, length, false, ◌≡◌, ◌≢◌, ◌⊎◌, refl, ap, ◌∙◌, arith, word32,
}
use nftp_codec.Errors.{
  Status, success, err_empty, err_stream, err_type, err_ht, Run, ok, fault, ◌>>=◌,
}
use nftp_codec.Mem.{or_fault}
use nftp_codec.Codec.{Nftp, Kind, hello, ack, file, end, giveme, unknown, kind_of, decode}
use nftp_codec.Codec.Decode.{byte, bytes_read, verdict, decoded, granted, decode_outcome}
use nftp_codec.Proto.{Env, State}
use nftp_codec.Proto.Receiver.{Reply, refuse, on_file}
use nftp_codec.Proto.Sender.{on_giveme}
use nftp_codec.Proto.Sender.Made.{Plenty, blank, new_packet_lem}
use nftp_codec.Proto.Handler.{handle, handler}

-- The file id in a FILE, an END or a GIVEME message.
abbrev pub id_in : List ℕ → ℕ
id_in msg = word32 (byte msg 5) (byte msg 6) (byte msg 7) (byte msg 8)

module _ {env : Env} (plenty : Plenty env) (st : State env) where
  -- What the handler does behind `nftp_decode`.
  abbrev behind : Status → Nftp → Run (Reply × State env)
  behind rv n = elim rv as (λ _. Run (Reply × State env)) [
    | success ↦ handle (kind_of n.type) st n
    | e ↦ ok (refuse e, st)
  ]

  met : (λ (k : ℕ). env.memory.grants (6 + k)) ≡ granted
  met i k size = plenty.grants (6 + k) size i

  handler-behind :
      (msg : List ℕ) (rv : Status) (n : Nftp)
      → decode granted (some (blank plenty.bytes)) (some msg) ≡ ok (rv, some n)
      → handler st msg ≡ behind rv n
  unfolding handler
  handler-behind msg rv n decoded =
      rw
        (
          new_packet_lem plenty,
          handler,
          ap (λ m. decode m (some (blank plenty.bytes)) (some msg)) met ∙ decoded,
          ◌>>=◌,
          or_fault,
          ◌>>=◌,
        )
        refl

  handler-fault :
      (msg : List ℕ)
      → decode granted (some (blank plenty.bytes)) (some msg) ≡ fault
      → handler st msg ≡ fault
  unfolding handler
  handler-fault msg decoded =
      rw
        (
          new_packet_lem plenty,
          handler,
          ap (λ m. decode m (some (blank plenty.bytes)) (some msg)) met ∙ decoded,
          ◌>>=◌,
        )
        refl

  -- A whole message, by its type: no table has its file id, or it holds none.
  abbrev Strange : Kind → List ℕ → Run (Reply × State env) → Type 0
  Strange kind msg run =
      (kind ≡ unknown → run ≡ ok (refuse err_type, st))
      × (kind ≡ ack → run ≡ ok (refuse success, st))
      × ((kind ≡ file) ⊎ (kind ≡ end)
          → env.files.contains st.files (id_in msg) ≡ false
          → run ≡ ok (refuse err_ht, st))
      × (kind ≡ giveme
          → env.senders.contains st.senderfiles (id_in msg) ≡ false
          → run ≡ ok (refuse err_ht, st))

  behind-Strange :
      (kind : Kind) (p : Nftp) (msg : List ℕ)
      → kind_of p.type ≡ kind
      → Strange kind msg (behind (verdict kind) (decoded kind p msg))
  unfolding handle on_file on_giveme decoded
  behind-Strange hello p msg e = ground arith
  behind-Strange ack p msg e =
      (λ q. absurd cc, λ q. rw e refl, λ q. absurd (ground arith), λ q. absurd cc)
  behind-Strange file p msg e = (
    λ q. absurd cc,
    λ q. absurd cc,
    λ q absent. rw (e, handle, on_file, absent) refl,
    λ q. absurd cc,
  )
  behind-Strange end p msg e = (
    λ q. absurd cc,
    λ q. absurd cc,
    λ q absent. rw (e, handle, on_file, absent) refl,
    λ q. absurd cc,
  )
  behind-Strange giveme p msg e = (
    λ q. absurd cc,
    λ q. absurd cc,
    λ q. absurd (ground arith),
    λ q absent. rw (e, handle, on_giveme, absent) refl,
  )
  behind-Strange unknown p msg e =
      (λ q. refl, λ q. absurd cc, λ q. absurd (ground arith), λ q. absurd cc)

  -- For a message of fewer than 2 ^ 31 bytes, when memory is granted. `nftp_proto_handler` refuses no
  -- bytes by NFTP_ERR_EMPTY, and fewer than 6, or another number than the length field says, by
  -- NFTP_ERR_STREAM. Of the others it reads `bytes_read` bytes, and past the end of a message that
  -- has fewer. One that has them is refused by NFTP_ERR_TYPE if its type is none of the five, and by
  -- NFTP_ERR_HT if it is a FILE or END and the table of transfers has not the file id in it, or a
  -- GIVEME and the table of files that are sent has not. An ACK is taken with 0. But for the reading
  -- past the end, nothing is answered in all of these cases, and the state stays as it is.
  pub handler_strange :
      (msg : List ℕ)
      → length msg < 2 ^ 31
      → let kind = kind_of (byte msg 0) in
        let len = word32 (byte msg 1) (byte msg 2) (byte msg 3) (byte msg 4) in
        let run = handler st msg in
        (length msg ≡ 0 → run ≡ ok (refuse err_empty, st))
        × (0 < length msg → length msg < 6 → run ≡ ok (refuse err_stream, st))
        × (6 ≤ length msg → length msg ≢ len → run ≡ ok (refuse err_stream, st))
        × (6 ≤ length msg → length msg ≡ len → length msg < bytes_read kind msg → run ≡ fault)
        × (6 ≤ length msg
            → length msg ≡ len
            → bytes_read kind msg ≤ length msg
            → (kind ≡ unknown → run ≡ ok (refuse err_type, st))
              × (kind ≡ ack → run ≡ ok (refuse success, st))
              × ((kind ≡ file) ⊎ (kind ≡ end)
                  → env.files.contains st.files (id_in msg) ≡ false
                  → run ≡ ok (refuse err_ht, st))
              × (kind ≡ giveme
                  → env.senders.contains st.senderfiles (id_in msg) ≡ false
                  → run ≡ ok (refuse err_ht, st)))
  handler_strange msg small =
      let p = blank plenty.bytes in
      let len = word32 (byte msg 1) (byte msg 2) (byte msg 3) (byte msg 4) in
      let p₁ : Nftp = record p { type = byte msg 0; len = len } in
      let kind = kind_of (byte msg 0) in
      let outcome = decode_outcome p msg (omega arith) in
      (
        λ e. handler-behind msg err_empty p (outcome.0 e),
        λ some_bytes short. handler-behind msg err_stream p (outcome.1 some_bytes short),
        λ header wrong. handler-behind msg err_stream p₁ (outcome.2 header wrong),
        λ header right short. handler-fault msg (outcome.4 header right short),
        λ header right fits.
            rw
              (handler-behind msg (verdict kind) (decoded kind p₁ msg)
                (outcome.3 header right fits))
              (behind-Strange kind p₁ msg refl),
      )
