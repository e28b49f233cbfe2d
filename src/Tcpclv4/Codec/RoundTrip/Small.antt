-- ===== src/Tcpclv4/Codec/RoundTrip/Small.antt =====
-- tcpclv4/src/codec.rs: the messages of fixed size are read back as they were written.
use hardy.Prelude.{ℕ, ◌^◌, ◌<◌, ◌≤◌, refl, [], ◌∷◌, arith, length-append}
use hardy.Cbor.Bytes.{to_be_bytes, length-to_be_bytes}
use hardy.Tcpclv4.Wire.Reads.{
  Reads, Reads-bind, Reads-bind_last, Reads-return, Reads-need, Reads-get_uint, Reads-get_u8,
  Reads-advance,
}
use hardy.Tcpclv4.Codec.Octet.{IsReserved}
use hardy.Tcpclv4.Codec.MessageType.{try_from}
use hardy.Tcpclv4.Codec.Reject
use hardy.Tcpclv4.Codec.Reject.{MessageRejectMessage}
use hardy.Tcpclv4.Codec.Refuse
use hardy.Tcpclv4.Codec.Refuse.{TransferRefuseMessage}
use hardy.Tcpclv4.Codec.SegmentFlags
use hardy.Tcpclv4.Codec.Ack
use hardy.Tcpclv4.Codec.Ack.{TransferAckMessage}
use hardy.Tcpclv4.Codec.SessionTerm
use hardy.Tcpclv4.Codec.SessionTerm.{SessionTermMessage}

pub session_term-Reads :
    (m : SessionTermMessage)
    → IsReserved 1 m.message_flags.reserved
    → SessionTerm.IsReason m.reason_code
    → Reads SessionTerm.decode (SessionTerm.encode m) [] m
unfolding SessionTerm.decode SessionTerm.encode
session_term-Reads m h k = Reads-need (omega arith) (
    Reads-bind _ {bs = 5 ∷ []} (Reads-advance refl) (
      Reads-bind _ {bs = flags ∷ []} Reads-get_u8 (
        Reads-bind _ {bs = reason ∷ []} {cs = []} Reads-get_u8 (
          rw
            (
              SessionTerm.flags_of_u8-to_u8 m.message_flags h,
              SessionTerm.reason_of_u8-to_u8 m.reason_code k,
            )
            Reads-return))))
  where
    flags : ℕ
    flags = SessionTerm.flags_to_u8 m.message_flags

    reason : ℕ
    reason = SessionTerm.reason_to_u8 m.reason_code

pub refuse-Reads :
    (m : TransferRefuseMessage)
    → Refuse.IsReason m.reason_code
    → m.transfer_id < 2 ^ 64
    → Reads Refuse.decode (Refuse.encode m) [] m
unfolding Refuse.decode Refuse.encode
refuse-Reads m k h = Reads-need (omega (arith, length-to_be_bytes 8 m.transfer_id)) (
    Reads-bind _ {bs = 3 ∷ []} (Reads-advance refl) (
      Reads-bind _ {bs = reason ∷ []} Reads-get_u8 (
        Reads-bind_last _ (Reads-get_uint 8 m.transfer_id h)
          (rw (Refuse.reason_of_u8-to_u8 m.reason_code k) Reads-return))))
  where
    reason : ℕ
    reason = Refuse.reason_to_u8 m.reason_code

pub ack-Reads :
    (m : TransferAckMessage)
    → IsReserved 3 m.message_flags.reserved
    → m.transfer_id < 2 ^ 64
    → m.acknowledged_length < 2 ^ 64
    → Reads Ack.decode (Ack.encode m) [] m
unfolding Ack.decode Ack.encode
ack-Reads m k h h' =
    Reads-need
      (omega (
        arith,
        length-append (to_be_bytes 8 m.transfer_id) (to_be_bytes 8 m.acknowledged_length),
        length-to_be_bytes 8 m.transfer_id,
        length-to_be_bytes 8 m.acknowledged_length,
      ))
      (Reads-bind _ {bs = 2 ∷ []} (Reads-advance refl) (
        Reads-bind _ {bs = flags ∷ []} Reads-get_u8 (
          Reads-bind _ (Reads-get_uint 8 m.transfer_id h) (
            Reads-bind_last _ (Reads-get_uint 8 m.acknowledged_length h')
              (rw (SegmentFlags.flags_of_u8-to_u8 m.message_flags k) Reads-return)))))
  where
    flags : ℕ
    flags = SegmentFlags.flags_to_u8 m.message_flags

-- A message type that `MessageType::try_from` knows
abbrev pub IsType : ℕ → Type 0
IsType n = (1 ≤ n) × (n ≤ 7)

pub reject-Reads :
    (m : MessageRejectMessage)
    → Reject.IsReason m.reason_code
    → IsType m.rejected_message
    → Reads Reject.decode (Reject.encode m) [] m
unfolding Reject.decode Reject.encode try_from
reject-Reads m k h = Reads-need (omega arith) (
    Reads-bind _ {bs = 6 ∷ []} (Reads-advance refl) (
      Reads-bind _ {bs = reason ∷ []} Reads-get_u8 (
        Reads-bind _ {bs = m.rejected_message ∷ []} {cs = []} Reads-get_u8 (
          rw (Reject.reason_of_u8-to_u8 m.reason_code k)
            (record { apply = λ rest. ground arith })))))
  where
    reason : ℕ
    reason = Reject.reason_to_u8 m.reason_code
