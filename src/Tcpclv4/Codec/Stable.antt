-- ===== src/Tcpclv4/Codec/Stable.antt =====
-- tcpclv4/src/codec.rs: what the codec makes of a buffer stays when more octets arrive.
use hardy.Prelude.{
  ℕ, zero, suc, ◌+◌, ◌-◌, Bool, Bool-cases, Option-cases, inl, inr, true, false, leb, ltb, List, [],
  ◌∷◌, ◌++◌,
}
use hardy.Tcpclv4.Wire.{invalid_extension_length}
use hardy.Tcpclv4.Wire.Stable.{
  IsStable, Extends, stable, if-IsStable, bind-IsStable, return-IsStable, throw-IsStable,
  out_of_fuel-IsStable,
}
use hardy.Tcpclv4.Codec.MessageType.{MessageType, try_from}
use hardy.Tcpclv4.Codec.Extension.{Extension, decode_item, decode_items}
use hardy.Eid.Text.{from_str, TextCrates}
use hardy.Tcpclv4.Codec.SessionInit
use hardy.Tcpclv4.Codec.SessionTerm
use hardy.Tcpclv4.Codec.Segment
use hardy.Tcpclv4.Codec.Ack
use hardy.Tcpclv4.Codec.Refuse
use hardy.Tcpclv4.Codec.Reject
use hardy.Tcpclv4.Codec.MessageCodec.{decode, decode_as}

session_term-IsStable : IsStable SessionTerm.decode
unfolding SessionTerm.decode
session_term-IsStable = search stable depth 20

ack-IsStable : IsStable Ack.decode
unfolding Ack.decode
ack-IsStable = search stable depth 20

refuse-IsStable : IsStable Refuse.decode
unfolding Refuse.decode
refuse-IsStable = search stable depth 20

try_from-IsStable : (n : ℕ) → IsStable (try_from n)
unfolding try_from
try_from-IsStable n = search stable depth 20

reject-IsStable : IsStable Reject.decode
unfolding Reject.decode
reject-IsStable = search (stable, try_from-IsStable) depth 20

module _ {F : Type 0} (flags_of_u8 : ℕ → F) where
  decode_item-IsStable : IsStable (decode_item flags_of_u8)
  unfolding decode_item
  decode_item-IsStable = search stable depth 20

  decode_items-IsStable :
      (fuel ext_remaining consumed : ℕ) (extensions : List (Extension F))
      → IsStable (decode_items flags_of_u8 fuel ext_remaining consumed extensions)
  unfolding decode_items
  decode_items-IsStable zero ext_remaining consumed extensions = out_of_fuel-IsStable
  decode_items-IsStable (suc fuel) ext_remaining consumed extensions =
      elim (Bool-cases (leb 5 ext_remaining)) [
        | inl long ↦
            rw (long, decode_items)
              (bind-IsStable decode_item-IsStable (λ (e, ext_size).
                if-IsStable (ltb ext_remaining ext_size) (throw-IsStable invalid_extension_length) (
                  decode_items-IsStable fuel (ext_remaining - ext_size) (consumed + ext_size)
                    (extensions ++ (e ∷ [])))))
        | inr short ↦ rw (short, decode_items) (return-IsStable (extensions, consumed))
      ]

decode_extensions-IsStable : (start : Bool) → IsStable (Segment.decode_extensions start)
unfolding Segment.decode_extensions
decode_extensions-IsStable true = search (stable, decode_items-IsStable) depth 20
decode_extensions-IsStable false = search stable

segment-IsStable : IsStable Segment.decode
unfolding Segment.decode Segment.decode_clone Segment.take_payload
segment-IsStable = search (stable, decode_extensions-IsStable) depth 20

module _ (crates : TextCrates) where
  node_id_of-IsStable : (bs : List ℕ) → IsStable (SessionInit.node_id_of crates bs)
  unfolding SessionInit.node_id_of
  node_id_of-IsStable bs = elim (Option-cases (from_str crates bs)) [
    | inl e ↦ rw e (search stable)
    | inr (n, e) ↦ rw e (search stable)
  ]

  decode_node_id-IsStable : (n : ℕ) → IsStable (SessionInit.decode_node_id crates n)
  unfolding SessionInit.decode_node_id
  decode_node_id-IsStable n = search (stable, node_id_of-IsStable) depth 20

  session_init-IsStable : IsStable (SessionInit.decode crates)
  unfolding SessionInit.decode SessionInit.decode_clone
  session_init-IsStable = search (stable, decode_node_id-IsStable, decode_items-IsStable) depth 20

  decode_as-IsStable : (t : MessageType) → IsStable (decode_as crates t)
  unfolding decode_as
  decode_as-IsStable MessageType.xfer_segment = search (stable, segment-IsStable)
  decode_as-IsStable MessageType.xfer_ack = search (stable, ack-IsStable)
  decode_as-IsStable MessageType.xfer_refuse = search (stable, refuse-IsStable)
  decode_as-IsStable MessageType.keepalive = search stable
  decode_as-IsStable MessageType.sess_term = search (stable, session_term-IsStable)
  decode_as-IsStable MessageType.msg_reject = search (stable, reject-IsStable)
  decode_as-IsStable MessageType.sess_init = search (stable, session_init-IsStable)

  pub decode-Extends :
      (src suffix : List ℕ) → Extends suffix (decode crates src) (decode crates (src ++ suffix))
  unfolding decode
  decode-Extends [] suffix = tt
  decode-Extends (b ∷ src) suffix =
      (bind-IsStable (try_from-IsStable b) decode_as-IsStable).apply (b ∷ src) suffix
