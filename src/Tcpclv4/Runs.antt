-- ===== src/Tcpclv4/Runs.antt =====
-- tcpclv4/src/codec.rs at concrete messages.
use hardy.Prelude.{ℕ, ◌<◌, ◌≡◌, ◌⊎◌, refl, List, [], ◌∷◌, ◌++◌, length, arith, true, some}
use hardy.Eid.{NodeId, eq_str}
use hardy.Eid.Text.{to_string, digits}
use hardy.Eid.Text.Numbers.{crates}
use hardy.Tcpclv4.Wire.{
  more, done, fail, Error, need, advance, split_to, get_uint, on_clone, utf8_from, is_utf8,
}
use hardy.Cbor.Bytes.{from_be_bytes, to_be_bytes}
use hardy.Tcpclv4.Codec.MessageType.{try_from}
use hardy.Tcpclv4.Codec.Extension.{decode_items, encode_item, encode_items}
use hardy.Tcpclv4.Codec.SessionInit.{SessionInitMessage}
use hardy.Tcpclv4.Codec.SessionInit
use hardy.Tcpclv4.Codec.MessageCodec.{Message, session_init, encode, decode, decode_as}
use hardy.Tcpclv4.Codec.RoundTrip.{IsMessage, decode-encode}
use hardy.Tcpclv4.Codec.Framing.{decode_total, decode-append, decode_part}

abbrev node : NodeId
node = NodeId.ipn (record { allocator_id = 977; node_number = 40 })

-- A SESS_INIT with a node id and an extension item
abbrev hello : SessionInitMessage
hello = record {
  keepalive_interval = 60;
  segment_mru = 70000;
  transfer_mru = 1000000;
  node_id = some node;
  session_extensions =
      record {
        flags = record { critical = true; reserved = 0 };
        item_type = 1;
        item_length = 2;
        item_value = 8 ∷ 9 ∷ [];
      }
      ∷ [];
}

hello-IsMessage : IsMessage crates (session_init hello)
unfolding SessionInit.flags_of_u8 SessionInit.flags_to_u8 encode_items encode_item is_utf8 utf8_from
    eq_str to_be_bytes
hello-IsMessage = record {
  keepalive_fits = omega arith;
  segment_fits = omega arith;
  transfer_fits = omega arith;
  node_id_right = ((omega arith, omega arith, λ e. cc), unfold to_string digits in omega arith);
  items_right = (
    record {
      flags_right = refl;
      type_fits = omega arith;
      length_fits = omega arith;
      length_right = refl;
    },
    tt,
  );
  items_fit = omega arith;
}

decode-encode_example :
    decode crates (encode crates (session_init hello) ++ (4 ∷ []))
    ≡ (done (session_init hello), 4 ∷ [])
decode-encode_example = decode-encode crates (session_init hello) (4 ∷ []) hello-IsMessage

-- Two octets of a KEEPALIVE and of another message
decode_total_example :
    (decode crates (4 ∷ 9 ∷ []) ≡ (more, 4 ∷ 9 ∷ []))
    ⊎ ((e : Error) × ((decode crates (4 ∷ 9 ∷ [])).0 ≡ fail e))
    ⊎ ((m : Message) × (rest : List ℕ) × (decode crates (4 ∷ 9 ∷ []) ≡ (done m, rest))
        × (length rest < length {A = ℕ} (4 ∷ 9 ∷ [])))
decode_total_example = decode_total crates (4 ∷ 9 ∷ [])

decode-append_example : decode crates (4 ∷ 5 ∷ []) ≡ (done Message.keepalive, 5 ∷ [])
unfolding decode decode_as try_from advance split_to
decode-append_example = decode-append crates (4 ∷ []) (5 ∷ []) [] Message.keepalive refl

decode_part_example : decode crates (7 ∷ 0 ∷ []) ≡ (more, 7 ∷ 0 ∷ [])
unfolding encode SessionInit.encode SessionInit.encode_node_id to_be_bytes
decode_part_example =
    decode_part crates (session_init hello) (7 ∷ 0 ∷ []) _ hello-IsMessage refl (λ e. cc)

-- A SESS_INIT whose extension items claim three octets: these stay in the buffer, where the next call
-- takes them for messages.
abbrev leftover : List ℕ
leftover =
    7 ∷ 0 ∷ 60 ∷ 0 ∷ 0 ∷ 0 ∷ 0 ∷ 0 ∷ 0 ∷ 0 ∷ 1 ∷ 0 ∷ 0 ∷ 0 ∷ 0 ∷ 0 ∷ 0 ∷ 0 ∷ 1 ∷ 0 ∷ 0 ∷ 0 ∷ 0 ∷ 0
    ∷ 3 ∷ 4 ∷ 4 ∷ 4 ∷ []

leftover_kept : (decode crates leftover).1 ≡ 4 ∷ 4 ∷ 4 ∷ []
unfolding decode decode_as try_from advance split_to get_uint need on_clone from_be_bytes
    SessionInit.decode SessionInit.decode_clone SessionInit.decode_node_id decode_items
leftover_kept = refl
