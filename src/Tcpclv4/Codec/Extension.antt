-- ===== src/Tcpclv4/Codec/Extension.antt =====
-- tcpclv4/src/codec.rs: the extension items of SESS_INIT and XFER_SEGMENT, which differ in their flags.
pub mod Items
use hardy.Prelude.{
  ◌≢◌, ℕ, zero, suc, List, [], ◌∷◌, ◌++◌, Bool, true, false, Option, none, some, ltb, leb, ◌==◌,
  ◌<◌, ◌≡◌, ◌≤◌, ◌+◌, ◌-◌, ◌%◌, ◌^◌, arith, refl, length, map, if◌then◌else◌,
}
use Prim.Native.Nat.{bit_and, bit_or}
use hardy.Cbor.Bytes.{to_be_bytes}
use hardy.Tcpclv4.Wire.{
  Reader, ◌>>=◌, ◌>>◌, return, throw, out_of_fuel, need, advance, split_to, get_uint, on_clone,
  is_utf8, Error, invalid_message_type, invalid_node_id_utf8, invalid_node_id,
  invalid_extension_length,
}
use hardy.Tcpclv4.Codec.Octet.{is_set, or_if, IsReserved, one_flag, two_flags}
use hardy.Tcpclv4.Codec.MessageType.{
  MessageType, as_u8, xfer_segment, xfer_ack, xfer_refuse, keepalive, sess_term, msg_reject,
  sess_init, try_from,
}

pub record Extension (F : Type 0) : Type 0 where
  pub flags : F
  pub item_type : ℕ
  pub item_length : ℕ
  pub item_value : List ℕ

-- The sum of the items' sizes, in `u32`
unfoldable pub byte_length : {F : Type 0} → List (Extension F) → ℕ
byte_length [] = 0
byte_length (e ∷ es) = (1 + 2 + 2 + length e.item_value % 2 ^ 32 + byte_length es) % 2 ^ 32

unfoldable pub encode_item : {F : Type 0} → (F → ℕ) → Extension F → List ℕ
encode_item flags_to_u8 e =
    flags_to_u8 e.flags
    ∷ (to_be_bytes 2 e.item_type ++ (to_be_bytes 2 e.item_length ++ e.item_value))

unfoldable pub encode_items : {F : Type 0} → (F → ℕ) → List (Extension F) → List ℕ
encode_items flags_to_u8 [] = []
encode_items flags_to_u8 (e ∷ es) = encode_item flags_to_u8 e ++ encode_items flags_to_u8 es

-- The body of the loop: an item and its size
unfoldable pub decode_item : {F : Type 0} → (ℕ → F) → Reader (Extension F × ℕ)
decode_item flags_of_u8 = do
  need 5
  flags ← get_uint 1
  item_type ← get_uint 2
  item_length ← get_uint 2
  need item_length
  item_value ← split_to item_length
  return (
    record {
      flags = flags_of_u8 flags;
      item_type = item_type;
      item_length = item_length;
      item_value = item_value;
    },
    5 + item_length,
  )

-- `while ext_remaining >= 5`, with fuel: the items and `consumed`. A round lessens
-- `ext_remaining` by five at least, so a successor of it is fuel enough.
unfoldable pub decode_items :
    {F : Type 0} → (ℕ → F) → ℕ → ℕ → ℕ → List (Extension F) → Reader (List (Extension F) × ℕ)
decode_items flags_of_u8 zero ext_remaining consumed extensions = out_of_fuel
decode_items flags_of_u8 (suc fuel) ext_remaining consumed extensions = elim (leb 5 ext_remaining) [
  | false ↦ return (extensions, consumed)
  | true ↦ decode_item flags_of_u8 >>= λ (e, ext_size).
      if ltb ext_remaining ext_size
      then throw invalid_extension_length
      else decode_items flags_of_u8 fuel (ext_remaining - ext_size) (consumed + ext_size)
          (extensions ++ (e ∷ []))
]
