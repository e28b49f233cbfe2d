-- ===== src/Tcpclv4/Codec/SegmentFlags.antt =====
-- tcpclv4/src/codec.rs: the flags of XFER_SEGMENT and XFER_ACK.
use hardy.Prelude.{ℕ, Bool, ◌≡◌, arith}
use Prim.Native.Nat.{bit_and}
use hardy.Tcpclv4.Codec.Octet.{is_set, or_if, IsReserved, two_flags}

pub record TransferSegmentMessageFlags : Type 0 where
  pub start : Bool
  pub end : Bool
  pub reserved : ℕ

unfoldable pub flags_of_u8 : ℕ → TransferSegmentMessageFlags
flags_of_u8 value = record {
  end = is_set value 1;
  start = is_set value 2;
  reserved = bit_and value 0xFC;
}

unfoldable pub flags_to_u8 : TransferSegmentMessageFlags → ℕ
flags_to_u8 value = or_if value.start 2 (or_if value.end 1 value.reserved)

pub flags_of_u8-to_u8 :
    (f : TransferSegmentMessageFlags) → IsReserved 3 f.reserved → flags_of_u8 (flags_to_u8 f) ≡ f
unfolding flags_of_u8 flags_to_u8
flags_of_u8-to_u8 f h = ground (arith, two_flags f.reserved h)
