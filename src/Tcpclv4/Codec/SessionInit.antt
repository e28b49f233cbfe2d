-- ===== src/Tcpclv4/Codec/SessionInit.antt =====
-- tcpclv4/src/codec.rs: SESS_INIT, over what its text form takes from other crates.
use hardy.Prelude.{
  ℕ, suc, List, [], ◌∷◌, ◌++◌, Bool, Option, none, some, ltb, ◌+◌, ◌%◌, ◌^◌, length, if◌then◌else◌,
}
use Prim.Native.Nat.{bit_and}
use hardy.Cbor.Bytes.{to_be_bytes}
use hardy.Tcpclv4.Wire.{
  Reader, ◌>>=◌, ◌>>◌, return, throw, need, advance, split_to, get_uint, on_clone, is_utf8,
  invalid_node_id_utf8, invalid_node_id,
}
use hardy.Tcpclv4.Codec.Octet.{is_set, or_if}
use hardy.Tcpclv4.Codec.MessageType.{as_u8, sess_init}
use hardy.Eid.{NodeId}
use hardy.Eid.Text.{TextCrates, to_string, from_str}
use hardy.Tcpclv4.Codec.Extension.{Extension, byte_length, encode_items, decode_items}

pub record SessionInitExtensionFlags : Type 0 where
  pub critical : Bool
  pub reserved : ℕ

unfoldable pub flags_of_u8 : ℕ → SessionInitExtensionFlags
flags_of_u8 value = record { critical = is_set value 1; reserved = bit_and value 0xFE }

-- The reserved bits are not written.
unfoldable pub flags_to_u8 : SessionInitExtensionFlags → ℕ
flags_to_u8 value = or_if value.critical 1 0

pub record SessionInitMessage : Type 0 where
  pub keepalive_interval : ℕ
  pub segment_mru : ℕ
  pub transfer_mru : ℕ
  pub node_id : Option NodeId
  pub session_extensions : List (Extension SessionInitExtensionFlags)

module _ (crates : TextCrates) where
  -- The text of the node id behind its length in a `u16`
  unfoldable pub encode_node_id : Option NodeId → List ℕ
  encode_node_id none = to_be_bytes 2 0
  encode_node_id (some node_id) =
      let node_id_str = to_string node_id in
      to_be_bytes 2 (length node_id_str % 2 ^ 16) ++ node_id_str

  -- The octets that `encode` appends
  unfoldable pub encode : SessionInitMessage → List ℕ
  encode m =
      as_u8 sess_init
      ∷ (to_be_bytes 2 m.keepalive_interval
          ++ (to_be_bytes 8 m.segment_mru
              ++ (to_be_bytes 8 m.transfer_mru
                  ++ (encode_node_id m.node_id
                      ++ (to_be_bytes 4 (byte_length m.session_extensions)
                          ++ encode_items flags_to_u8 m.session_extensions)))))

  unfoldable pub node_id_of : List ℕ → Reader (Option NodeId)
  node_id_of bs =
      if is_utf8 bs
      then elim (from_str crates bs) [ none ↦ throw invalid_node_id | some n ↦ return (some n) ]
      else throw invalid_node_id_utf8

  unfoldable pub decode_node_id : ℕ → Reader (Option NodeId)
  decode_node_id node_id_length =
      if ltb 0 node_id_length
      then need node_id_length >> (split_to node_id_length >>= node_id_of)
      else return none

  -- What `decode` does with the clone: the message and `consumed`
  unfoldable pub decode_clone : Reader (SessionInitMessage × ℕ)
  decode_clone = do
    advance 1
    keepalive_interval ← get_uint 2
    segment_mru ← get_uint 8
    transfer_mru ← get_uint 8
    node_id_length ← get_uint 2
    node_id ← decode_node_id node_id_length
    need 4
    byte_length ← get_uint 4
    let consumed = 1 + 2 + 8 + 8 + 2 + node_id_length + 4
    (session_extensions, total) ← decode_items flags_of_u8 (suc byte_length) byte_length consumed []
    return (
      record {
        keepalive_interval = keepalive_interval;
        segment_mru = segment_mru;
        transfer_mru = transfer_mru;
        node_id = node_id;
        session_extensions = session_extensions;
      },
      total,
    )

  unfoldable pub decode : Reader SessionInitMessage
  decode = do need 21; (m, consumed) ← on_clone decode_clone; advance consumed; return m
