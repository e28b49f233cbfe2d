-- ===== src/Tcpclv4/Codec/RoundTrip.antt =====
-- tcpclv4/src/codec.rs: the codec reads back what it wrote.
mod Small
mod Init
mod Transfer
pub use Small.{IsType}
pub use Init.{IsSessionInit}
pub use Transfer.{IsSegment}
use hardy.Prelude.{ℕ, ◌^◌, ◌<◌, ◌≡◌, refl, ◌∙◌, List, [], ◌∷◌, ◌++◌}
use hardy.Tcpclv4.Wire.{done, Reader}
use hardy.Tcpclv4.Wire.Reads.{Reads, Reads-bind, Reads-advance, Reads-bind_last, Reads-return}
use hardy.Tcpclv4.Codec.Octet.{IsReserved}
use hardy.Tcpclv4.Codec.MessageType.{
  MessageType, as_u8, try_from, xfer_segment, xfer_ack, xfer_refuse, sess_term, msg_reject,
  sess_init,
}
use hardy.Eid.Text.{TextCrates}
use hardy.Tcpclv4.Codec.SessionInit
use hardy.Tcpclv4.Codec.SessionTerm
use hardy.Tcpclv4.Codec.Segment
use hardy.Tcpclv4.Codec.Ack
use hardy.Tcpclv4.Codec.Refuse
use hardy.Tcpclv4.Codec.Reject
use hardy.Tcpclv4.Codec.MessageCodec.{
  Message, session_init, session_term, keepalive, transfer_segment, transfer_ack, transfer_refuse,
  reject, message_type, encode, decode, decode_as,
}
use hardy.Tcpclv4.Codec.RoundTrip.Small.{session_term-Reads, refuse-Reads, ack-Reads, reject-Reads}
use hardy.Tcpclv4.Codec.RoundTrip.Init.{session_init-Reads}
use hardy.Tcpclv4.Codec.RoundTrip.Transfer.{segment-Reads}

module _ (crates : TextCrates) where
  -- A message whose fields fit where the wire puts them, and whose node id is parsed from its text
  abbrev pub IsMessage : Message → Type 0
  IsMessage (session_init m) = IsSessionInit crates m
  IsMessage (session_term m) =
      IsReserved 1 m.message_flags.reserved × SessionTerm.IsReason m.reason_code
  IsMessage keepalive = Unit
  IsMessage (transfer_segment m) = IsSegment m
  IsMessage (transfer_ack m) =
      IsReserved 3 m.message_flags.reserved
      × (m.transfer_id < 2 ^ 64)
      × (m.acknowledged_length < 2 ^ 64)
  IsMessage (transfer_refuse m) = Refuse.IsReason m.reason_code × (m.transfer_id < 2 ^ 64)
  IsMessage (reject m) = Reject.IsReason m.reason_code × IsType m.rejected_message

  decode_first :
      (t : MessageType) (src : List ℕ)
      → decode crates (as_u8 t ∷ src) ≡ decode_as crates t (as_u8 t ∷ src)
  unfolding decode try_from
  decode_first xfer_segment src = refl
  decode_first xfer_ack src = refl
  decode_first xfer_refuse src = refl
  decode_first MessageType.keepalive src = refl
  decode_first sess_term src = refl
  decode_first msg_reject src = refl
  decode_first sess_init src = refl

  arm-Reads :
      (m : Message) → IsMessage m → Reads (decode_as crates (message_type m)) (encode crates m) [] m
  unfolding decode_as encode message_type
  arm-Reads (session_init m) h = Reads-bind_last _ (session_init-Reads crates m h) Reads-return
  arm-Reads (session_term m) (h, k) = Reads-bind_last _ (session_term-Reads m h k) Reads-return
  arm-Reads keepalive h = Reads-bind _ {bs = 4 ∷ []} (Reads-advance refl) Reads-return
  arm-Reads (transfer_segment m) h = Reads-bind_last _ (segment-Reads m h) Reads-return
  arm-Reads (transfer_ack m) (h, k, l) = Reads-bind_last _ (ack-Reads m h k l) Reads-return
  arm-Reads (transfer_refuse m) (h, k) = Reads-bind_last _ (refuse-Reads m h k) Reads-return
  arm-Reads (reject m) (h, k) = Reads-bind_last _ (reject-Reads m h k) Reads-return

  encode_first : (m : Message) → (tail : List ℕ) × (encode crates m ≡ as_u8 (message_type m) ∷ tail)
  unfolding encode message_type SessionInit.encode SessionTerm.encode Segment.encode Ack.encode
      Refuse.encode Reject.encode
  encode_first (session_init m) = (_, refl)
  encode_first (session_term m) = (_, refl)
  encode_first keepalive = (_, refl)
  encode_first (transfer_segment m) = (_, refl)
  encode_first (transfer_ack m) = (_, refl)
  encode_first (transfer_refuse m) = (_, refl)
  encode_first (reject m) = (_, refl)

  -- A message whose fields fit, with no bit set that its flags do not have, and with a node id, if any, that needs no percent-encoding and has no number that stands for another endpoint, is read back from its octets as it was, whatever follows them, and what follows them is left in the buffer.
  pub decode-encode :
      (m : Message) (rest : List ℕ)
      → IsMessage m
      → decode crates (encode crates m ++ rest) ≡ (done m, rest)
  decode-encode m rest h =
      let (tail, first) = encode_first m in
      let dispatched : decode crates (encode crates m ++ rest)
          ≡ decode_as crates (message_type m) (encode crates m ++ rest) =
        rw first (decode_first (message_type m) (tail ++ rest)) in
      dispatched ∙ (arm-Reads m h).apply rest
