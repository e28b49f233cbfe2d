-- ===== src/Tcpclv4/Codec/MessageCodec.antt =====
-- tcpclv4/src/codec.rs: `Message` and `MessageCodec`.
use hardy.Eid.Text.{TextCrates}
use hardy.Prelude.{ℕ, List, [], ◌∷◌}
use hardy.Tcpclv4.Wire.{Reader, ◌>>=◌, ◌>>◌, return, more, advance}
use hardy.Tcpclv4.Codec.MessageType.{MessageType, as_u8, try_from}
use hardy.Tcpclv4.Codec.SessionInit.{SessionInitMessage}
use hardy.Tcpclv4.Codec.SessionTerm.{SessionTermMessage}
use hardy.Tcpclv4.Codec.Segment.{TransferSegmentMessage}
use hardy.Tcpclv4.Codec.Ack.{TransferAckMessage}
use hardy.Tcpclv4.Codec.Refuse.{TransferRefuseMessage}
use hardy.Tcpclv4.Codec.Reject.{MessageRejectMessage}
use hardy.Tcpclv4.Codec.SessionInit
use hardy.Tcpclv4.Codec.SessionTerm
use hardy.Tcpclv4.Codec.Segment
use hardy.Tcpclv4.Codec.Ack
use hardy.Tcpclv4.Codec.Refuse
use hardy.Tcpclv4.Codec.Reject

pub data Message : Type 0 where
  session_init : SessionInitMessage → Message
  session_term : SessionTermMessage → Message
  keepalive : Message
  transfer_segment : TransferSegmentMessage → Message
  transfer_ack : TransferAckMessage → Message
  transfer_refuse : TransferRefuseMessage → Message
  reject : MessageRejectMessage → Message

unfoldable pub message_type : Message → MessageType
message_type (session_init _) = MessageType.sess_init
message_type (session_term _) = MessageType.sess_term
message_type keepalive = MessageType.keepalive
message_type (transfer_segment _) = MessageType.xfer_segment
message_type (transfer_ack _) = MessageType.xfer_ack
message_type (transfer_refuse _) = MessageType.xfer_refuse
message_type (reject _) = MessageType.msg_reject

module _ (crates : TextCrates) where
  -- `MessageCodec::encode`: the octets that it appends
  unfoldable pub encode : Message → List ℕ
  encode (session_init m) = SessionInit.encode crates m
  encode (session_term m) = SessionTerm.encode m
  encode keepalive = as_u8 MessageType.keepalive ∷ []
  encode (transfer_segment m) = Segment.encode m
  encode (transfer_ack m) = Ack.encode m
  encode (transfer_refuse m) = Refuse.encode m
  encode (reject m) = Reject.encode m

  -- The arms of the `match` in `MessageCodec::decode`
  unfoldable pub decode_as : MessageType → Reader Message
  decode_as MessageType.xfer_segment = Segment.decode >>= λ m. return (transfer_segment m)
  decode_as MessageType.xfer_ack = Ack.decode >>= λ m. return (transfer_ack m)
  decode_as MessageType.xfer_refuse = Refuse.decode >>= λ m. return (transfer_refuse m)
  decode_as MessageType.keepalive = advance 1 >> return keepalive
  decode_as MessageType.sess_term = SessionTerm.decode >>= λ m. return (session_term m)
  decode_as MessageType.msg_reject = Reject.decode >>= λ m. return (reject m)
  decode_as MessageType.sess_init = SessionInit.decode crates >>= λ m. return (session_init m)

  -- `MessageCodec::decode`
  unfoldable pub decode : Reader Message
  decode [] = (more, [])
  decode (b ∷ src) = (try_from b >>= decode_as) (b ∷ src)
