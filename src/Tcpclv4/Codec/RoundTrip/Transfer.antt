-- ===== src/Tcpclv4/Codec/RoundTrip/Transfer.antt =====
-- tcpclv4/src/codec.rs: an XFER_SEGMENT is read back as it was written.
use hardy.Prelude.{
  ℕ, ◌+◌, ◌^◌, ◌<◌, ◌≤◌, ◌≡◌, refl, sym, List, [], ◌∷◌, ◌++◌, arith, length, length-append, Bool,
  true, false,
}
use mathlib.Core.List.{append_assoc, append-nil}
use hardy.Cbor.Bytes.{to_be_bytes, length-to_be_bytes, All}
use hardy.Tcpclv4.Wire.Reads.{
  Reads, Reads-bind, Reads-bind_last, Reads-return, Reads-need, Reads-split_to, Reads-get_uint,
  Reads-get_u8, Reads-advance, Reads-on_clone,
}
use hardy.Tcpclv4.Codec.Octet.{IsReserved, one_flag}
use hardy.Tcpclv4.Codec.SegmentFlags
use hardy.Tcpclv4.Codec.Extension.{Extension, encode_items, byte_length}
use hardy.Tcpclv4.Codec.Extension.Items.{IsItem, message_items-Reads, byte_length_lem}
use hardy.Tcpclv4.Codec.Segment
use hardy.Tcpclv4.Codec.Segment.{TransferSegmentMessage, TransferSegmentExtensionFlags, Header}

-- Flags whose reserved bits are those of an octet, beside the flag
abbrev AreFlags : TransferSegmentExtensionFlags → Type 0
AreFlags f = IsReserved 1 f.reserved

flags_of_u8-to_u8 :
    (f : TransferSegmentExtensionFlags)
    → AreFlags f
    → Segment.flags_of_u8 (Segment.flags_to_u8 f) ≡ f
unfolding Segment.flags_of_u8 Segment.flags_to_u8
flags_of_u8-to_u8 f h = ground (arith, one_flag f.reserved h)

-- What an XFER_SEGMENT must be for the wire to carry it as it is: extension items are written for the
-- first segment only.
pub record IsSegment (m : TransferSegmentMessage) : Type 0 where
  pub flags_right : IsReserved 3 m.message_flags.reserved
  pub id_fits : m.transfer_id < 2 ^ 64
  pub items_right : All (IsItem AreFlags) m.transfer_extensions
  pub items_fit : length (encode_items Segment.flags_to_u8 m.transfer_extensions) < 2 ^ 32
  pub items_at_start : m.message_flags.start ≡ false → m.transfer_extensions ≡ []
  pub payload_fits : length m.payload < 2 ^ 64

extensions-Reads :
    (start : Bool) (es : List (Extension TransferSegmentExtensionFlags)) (ahead : List ℕ)
    → All (IsItem AreFlags) es
    → length (encode_items Segment.flags_to_u8 es) < 2 ^ 32
    → (start ≡ false → es ≡ [])
    → Reads
        (Segment.decode_extensions start)
        (Segment.encode_extensions start es)
        ahead
        (es, 10 + length (Segment.encode_extensions start es))
unfolding Segment.decode_extensions Segment.encode_extensions
extensions-Reads true es ahead h l empty =
    let total : 10 + length (to_be_bytes 4 (byte_length es) ++ encode_items Segment.flags_to_u8 es)
        ≡ 10 + 4 + length (encode_items Segment.flags_to_u8 es) =
      simp (length-append, length-to_be_bytes) (omega arith) in
    rw total (
      Reads-need (simp (length-append, length-to_be_bytes) (omega arith)) (
        Reads-bind _
          (Reads-get_uint 4 (byte_length es)
            (omega (arith, byte_length_lem Segment.flags_of_u8 Segment.flags_to_u8 es l)))
          (message_items-Reads Segment.flags_of_u8 Segment.flags_to_u8 AreFlags flags_of_u8-to_u8 es
            (10 + 4) ahead h l)))
extensions-Reads false es ahead h l empty = rw (empty refl) Reads-return

header_of : TransferSegmentMessage → Header
header_of m = record {
  message_flags = m.message_flags;
  transfer_id = m.transfer_id;
  transfer_extensions = m.transfer_extensions;
  consumed = 10 + length (Segment.encode_extensions m.message_flags.start m.transfer_extensions);
  data_length = length m.payload;
}

-- The octets before the payload
header_bytes : TransferSegmentMessage → List ℕ
header_bytes m =
    1
    ∷ SegmentFlags.flags_to_u8 m.message_flags
    ∷ (to_be_bytes 8 m.transfer_id
        ++ (Segment.encode_extensions m.message_flags.start m.transfer_extensions
            ++ to_be_bytes 8 (length m.payload)))

length-header_bytes :
    (m : TransferSegmentMessage) → length (header_bytes m) ≡ (header_of m).consumed + 8
unfolding header_bytes header_of
length-header_bytes m = simp (length-append, length-to_be_bytes) (omega arith)

header_bytes-append : (m : TransferSegmentMessage) → Segment.encode m ≡ header_bytes m ++ m.payload
unfolding header_bytes Segment.encode
header_bytes-append m = simp append_assoc

segment_clone-Reads :
    (m : TransferSegmentMessage)
    → IsSegment m
    → Reads Segment.decode_clone (header_bytes m) m.payload (header_of m)
unfolding Segment.decode_clone header_bytes header_of
segment_clone-Reads m h = Reads-bind _ {bs = 1 ∷ []} (Reads-advance refl) (
    Reads-bind _ {bs = SegmentFlags.flags_to_u8 m.message_flags ∷ []} Reads-get_u8 (
      rw (SegmentFlags.flags_of_u8-to_u8 m.message_flags h.flags_right) (
        Reads-bind _ (Reads-get_uint 8 m.transfer_id h.id_fits) (
          Reads-bind _
            (extensions-Reads m.message_flags.start m.transfer_extensions _ h.items_right
              h.items_fit h.items_at_start)
            (Reads-need (omega (arith, length-to_be_bytes 8 (length m.payload))) (
              Reads-bind_last _ (Reads-get_uint 8 (length m.payload) h.payload_fits)
                (Reads-need (omega arith) Reads-return)))))))

consumed_least : (m : TransferSegmentMessage) → 10 ≤ (header_of m).consumed
unfolding header_of
consumed_least m = omega arith

take_payload-Reads :
    (m : TransferSegmentMessage)
    → Reads (Segment.take_payload (header_of m)) (header_bytes m ++ m.payload) [] m
unfolding Segment.take_payload header_of
take_payload-Reads m =
    Reads-bind _ (Reads-split_to (sym (length-header_bytes m)))
      (Reads-bind_last _ (Reads-split_to refl) Reads-return)

pub segment-Reads :
    (m : TransferSegmentMessage) → IsSegment m → Reads Segment.decode (Segment.encode m) [] m
unfolding Segment.decode Segment.take_payload
segment-Reads m h = rw (header_bytes-append m) (
    Reads-need
      (omega
        (arith, length-append (header_bytes m) m.payload, length-header_bytes m, consumed_least m))
      (Reads-on_clone _ (header_bytes m) m.payload (header_of m)
        (append-nil (header_bytes m ++ m.payload)) (segment_clone-Reads m h)
        (take_payload-Reads m)))
