-- ===== src/Tcpclv4/Codec/Ack.antt =====
-- tcpclv4/src/codec.rs: XFER_ACK.
use hardy.Prelude.{ℕ, List, ◌∷◌, ◌++◌}
use hardy.Cbor.Bytes.{to_be_bytes}
use hardy.Tcpclv4.Wire.{Reader, ◌>>=◌, ◌>>◌, return, need, advance, get_uint}
use hardy.Tcpclv4.Codec.MessageType.{as_u8, xfer_ack}
use hardy.Tcpclv4.Codec.SegmentFlags.{TransferSegmentMessageFlags, flags_of_u8, flags_to_u8}

pub record TransferAckMessage : Type 0 where
  pub message_flags : TransferSegmentMessageFlags
  pub transfer_id : ℕ
  pub acknowledged_length : ℕ

-- The octets that `encode` appends
unfoldable pub encode : TransferAckMessage → List ℕ
encode m =
    as_u8 xfer_ack
    ∷ flags_to_u8 m.message_flags
    ∷ (to_be_bytes 8 m.transfer_id ++ to_be_bytes 8 m.acknowledged_length)

unfoldable pub decode : Reader TransferAckMessage
decode = do
  need 18
  advance 1
  flags ← get_uint 1
  transfer_id ← get_uint 8
  acknowledged_length ← get_uint 8
  return (record {
    message_flags = flags_of_u8 flags;
    transfer_id = transfer_id;
    acknowledged_length = acknowledged_length;
  })
