-- ===== src/Tcpclv4/Codec/Extension/Items.antt =====
-- tcpclv4/src/codec.rs: the loop over extension items reads back what the encoders wrote.
use hardy.Prelude.{
  ℕ, zero, suc, ◌+◌, ◌-◌, ◌^◌, ◌<◌, ◌≡◌, refl, List, [], ◌∷◌, ◌++◌, arith, length, length-append,
  true, false, ltb, leb,
}
use mathlib.Core.List.{append_assoc, append-nil}
use hardy.Cbor.Bytes.{to_be_bytes, length-to_be_bytes, All}
use hardy.Tcpclv4.Wire.Reads.{
  Reads, Reads-bind, Reads-bind_last, Reads-return, Reads-need, Reads-split_to, Reads-get_uint,
  Reads-get_u8,
}
use hardy.Tcpclv4.Codec.Extension.{
  Extension, byte_length, encode_item, encode_items, decode_item, decode_items,
}

-- An item that the wire carries as it is: its flags have the bits that they may have, its type and its
-- length fit in their fields, and its length is that of its value.
pub record IsItem {F : Type 0} (AreFlags : F → Type 0) (e : Extension F) : Type 0 where
  pub flags_right : AreFlags e.flags
  pub type_fits : e.item_type < 2 ^ 16
  pub length_fits : e.item_length < 2 ^ 16
  pub length_right : e.item_length ≡ length e.item_value

module _ {F : Type 0} (flags_of_u8 : ℕ → F) (flags_to_u8 : F → ℕ) where
  length-encode_item :
      (e : Extension F) → length (encode_item flags_to_u8 e) ≡ 5 + length e.item_value
  unfolding encode_item
  length-encode_item e = omega (
    arith,
    length-append (to_be_bytes 2 e.item_type) (to_be_bytes 2 e.item_length ++ e.item_value),
    length-append (to_be_bytes 2 e.item_length) e.item_value,
    length-to_be_bytes 2 e.item_type,
    length-to_be_bytes 2 e.item_length,
  )

  -- The sum does not wrap.
  pub byte_length_lem :
      (es : List (Extension F))
      → length (encode_items flags_to_u8 es) < 2 ^ 32
      → byte_length es ≡ length (encode_items flags_to_u8 es)
  unfolding byte_length encode_items
  byte_length_lem [] h = refl
  byte_length_lem (e ∷ es) h =
      let sum = length-append (encode_item flags_to_u8 e) (encode_items flags_to_u8 es) in
      let size = length-encode_item e in let rest = byte_length_lem es (omega arith) in omega arith

module _ {F : Type 0} (flags_of_u8 : ℕ → F) (flags_to_u8 : F → ℕ) (AreFlags : F → Type 0)
    (kept : (f : F) → AreFlags f → flags_of_u8 (flags_to_u8 f) ≡ f) where
  item-Reads :
      (e : Extension F) (ahead : List ℕ)
      → IsItem AreFlags e
      → Reads (decode_item flags_of_u8) (encode_item flags_to_u8 e) ahead (e, 5 + e.item_length)
  unfolding decode_item encode_item
  item-Reads e ahead h =
      Reads-need (unfold encode_item in omega (arith, length-encode_item flags_of_u8 flags_to_u8 e))
        (Reads-bind _ {bs = flags_to_u8 e.flags ∷ []} Reads-get_u8 (
          Reads-bind _ (Reads-get_uint 2 e.item_type h.type_fits) (
            Reads-bind _ (Reads-get_uint 2 e.item_length h.length_fits) (
              Reads-need (omega (arith, h.length_right)) (
                Reads-bind_last _ (Reads-split_to h.length_right)
                  (rw (kept e.flags h.flags_right) Reads-return))))))

  -- The items of a list, behind others that are read already; fewer than five octets may be left.
  items-Reads :
      (es : List (Extension F)) (fuel k consumed : ℕ) (found : List (Extension F)) (ahead : List ℕ)
      → All (IsItem AreFlags) es
      → k < 5
      → length (encode_items flags_to_u8 es) + k < fuel
      → Reads
          (decode_items flags_of_u8 fuel (length (encode_items flags_to_u8 es) + k) consumed found)
          (encode_items flags_to_u8 es)
          ahead
          (found ++ es, consumed + length (encode_items flags_to_u8 es))
  unfolding decode_items encode_items
  items-Reads es zero k consumed found ahead h l m = absurd (omega arith)
  items-Reads [] (suc fuel) k consumed found ahead h l m =
      let short : leb 5 (0 + k) ≡ false = ground arith in
      let same : consumed + 0 ≡ consumed = omega arith in
      rw (short, append-nil, same, decode_items) Reads-return
  items-Reads (e ∷ es) (suc fuel) k consumed found ahead h l m =
      let sum = length-append (encode_item flags_to_u8 e) (encode_items flags_to_u8 es) in
      let size = length-encode_item flags_of_u8 flags_to_u8 e in
      let remaining = length (encode_item flags_to_u8 e ++ encode_items flags_to_u8 es) + k in
      let right : e.item_length ≡ length e.item_value = h.0.length_right in
      let long : leb 5 remaining ≡ true = ground arith in
      let inside : ltb remaining (5 + e.item_length) ≡ false = ground arith in
      let left : remaining - (5 + e.item_length) ≡ length (encode_items flags_to_u8 es) + k =
        omega arith in
      let total : consumed + length (encode_item flags_to_u8 e ++ encode_items flags_to_u8 es)
          ≡ consumed + (5 + e.item_length) + length (encode_items flags_to_u8 es) =
        omega arith in
      rw (long, total, ← append_assoc found (e ∷ []) es, decode_items)
        (Reads-bind _ (item-Reads e (encode_items flags_to_u8 es ++ ahead) h.0) (
          rw (inside, left)
            (items-Reads es fuel k (consumed + (5 + e.item_length)) (found ++ (e ∷ [])) ahead h.1 l
              (omega arith))))

  -- All the items of a message
  pub message_items-Reads :
      (es : List (Extension F)) (consumed : ℕ) (ahead : List ℕ)
      → All (IsItem AreFlags) es
      → length (encode_items flags_to_u8 es) < 2 ^ 32
      → Reads
          (decode_items flags_of_u8 (suc (byte_length es)) (byte_length es) consumed [])
          (encode_items flags_to_u8 es)
          ahead
          (es, consumed + length (encode_items flags_to_u8 es))
  message_items-Reads es consumed ahead h l =
      let none_left : length (encode_items flags_to_u8 es) + 0 ≡ byte_length es =
        omega (arith, byte_length_lem flags_of_u8 flags_to_u8 es l) in
      rw none_left at (
        items-Reads es (suc (byte_length es)) 0 consumed [] ahead h (omega arith)
          (omega (arith, none_left)))
