-- ===== src/Tcpclv4/Codec/Segment.antt =====
-- tcpclv4/src/codec.rs: XFER_SEGMENT.
use hardy.Prelude.{ℕ, suc, List, [], ◌∷◌, ◌++◌, Bool, true, false, ◌+◌, length}
use Prim.Native.Nat.{bit_and}
use hardy.Cbor.Bytes.{to_be_bytes}
use hardy.Tcpclv4.Wire.{Reader, ◌>>=◌, ◌>>◌, return, need, advance, split_to, get_uint, on_clone}
use hardy.Tcpclv4.Codec.Octet.{is_set, or_if}
use hardy.Tcpclv4.Codec.MessageType.{as_u8, xfer_segment}
use hardy.Tcpclv4.Codec.Extension.{Extension, byte_length, encode_items, decode_items}
use hardy.Tcpclv4.Codec.SegmentFlags.{TransferSegmentMessageFlags}
use hardy.Tcpclv4.Codec.SegmentFlags

pub record TransferSegmentExtensionFlags : Type 0 where
  pub critical : Bool
  pub reserved : ℕ

unfoldable pub flags_of_u8 : ℕ → TransferSegmentExtensionFlags
flags_of_u8 value = record { critical = is_set value 1; reserved = bit_and value 0xFE }

unfoldable pub flags_to_u8 : TransferSegmentExtensionFlags → ℕ
flags_to_u8 value = or_if value.critical 1 value.reserved

pub record TransferSegmentMessage : Type 0 where
  pub message_flags : TransferSegmentMessageFlags
  pub transfer_id : ℕ
  pub transfer_extensions : List (Extension TransferSegmentExtensionFlags)
  pub payload : List ℕ

-- The extension items, which only the first segment of a transfer carries
unfoldable pub encode_extensions : Bool → List (Extension TransferSegmentExtensionFlags) → List ℕ
encode_extensions true es = to_be_bytes 4 (byte_length es) ++ encode_items flags_to_u8 es
encode_extensions false es = []

-- The octets that `encode` appends; `payload` is the field `data`.
unfoldable pub encode : TransferSegmentMessage → List ℕ
encode m =
    as_u8 xfer_segment
    ∷ SegmentFlags.flags_to_u8 m.message_flags
    ∷ (to_be_bytes 8 m.transfer_id
        ++ (encode_extensions m.message_flags.start m.transfer_extensions
            ++ (to_be_bytes 8 (length m.payload) ++ m.payload)))

unfoldable pub decode_extensions :
    Bool → Reader (List (Extension TransferSegmentExtensionFlags) × ℕ)
decode_extensions true = do
  need 4
  byte_length ← get_uint 4
  decode_items flags_of_u8 (suc byte_length) byte_length (10 + 4) []
decode_extensions false = return ([], 10)

-- What `decode` reads from the clone, up to the length of the payload
pub record Header : Type 0 where
  pub message_flags : TransferSegmentMessageFlags
  pub transfer_id : ℕ
  pub transfer_extensions : List (Extension TransferSegmentExtensionFlags)
  pub consumed : ℕ
  pub data_length : ℕ

unfoldable pub decode_clone : Reader Header
decode_clone = do
  advance 1
  flags ← get_uint 1
  transfer_id ← get_uint 8
  (transfer_extensions, consumed) ← decode_extensions ((SegmentFlags.flags_of_u8 flags).start)
  need 8
  data_length ← get_uint 8
  need data_length
  return (record {
    message_flags = SegmentFlags.flags_of_u8 flags;
    transfer_id = transfer_id;
    transfer_extensions = transfer_extensions;
    consumed = consumed;
    data_length = data_length;
  })

-- The header leaves the buffer, then the payload.
unfoldable pub take_payload : Header → Reader TransferSegmentMessage
take_payload h = do
  _ ← split_to (h.consumed + 8)
  payload ← split_to h.data_length
  return (record {
    message_flags = h.message_flags;
    transfer_id = h.transfer_id;
    transfer_extensions = h.transfer_extensions;
    payload = payload;
  })

unfoldable pub decode : Reader TransferSegmentMessage
decode = need 10 >> (on_clone decode_clone >>= take_payload)
