-- ===== src/Tcpclv4/Codec/RoundTrip/Init.antt =====
-- tcpclv4/src/codec.rs: a SESS_INIT is read back as it was written.
use hardy.Prelude.{
  all, ℕ, ◌+◌, ◌^◌, ◌%◌, ◌<◌, ◌≡◌, refl, sym, List, [], ◌∷◌, ◌++◌, arith, length, length-append,
  true, Option, none, some, ltb,
}
use mathlib.Core.List.{append_assoc, append-nil}
use hardy.Cbor.Bytes.{to_be_bytes, length-to_be_bytes, All}
use hardy.Tcpclv4.Wire.Reads.{
  Reads, Reads-bind, Reads-bind_last, Reads-return, Reads-need, Reads-split_to, Reads-get_uint,
  Reads-advance, Reads-on_clone,
}
use hardy.Eid.{NodeId}
use hardy.Eid.Text.{TextCrates, to_string}
use hardy.Eid.Text.RoundTrip.{
  IsPrintable, from_str-to_string, is_ascii, to_string_ascii, to_string_filled,
}
use hardy.Tcpclv4.Wire.{is_utf8, utf8_from}
use hardy.Tcpclv4.Codec.Extension.{encode_items, byte_length}
use hardy.Tcpclv4.Codec.Extension.Items.{IsItem, message_items-Reads, byte_length_lem}
use hardy.Tcpclv4.Codec.SessionInit
use hardy.Tcpclv4.Codec.SessionInit.{SessionInitMessage, SessionInitExtensionFlags}

-- Flags without reserved bits, which are not written
abbrev pub AreFlags : SessionInitExtensionFlags → Type 0
AreFlags f = f.reserved ≡ 0

flags_of_u8-to_u8 :
    (f : SessionInitExtensionFlags)
    → AreFlags f
    → SessionInit.flags_of_u8 (SessionInit.flags_to_u8 f) ≡ f
unfolding SessionInit.flags_of_u8 SessionInit.flags_to_u8
flags_of_u8-to_u8 f h = ground (arith, h)

ascii_utf8 : (bs : List ℕ) → all bs is_ascii ≡ true → utf8_from 0 0 0 bs ≡ true
unfolding utf8_from
ascii_utf8 [] h = refl
ascii_utf8 (b ∷ bs) h = ground (arith, ascii_utf8 bs)

module _ (crates : TextCrates) where
  -- A node id that is parsed from its text, which fits in its field
  abbrev pub IsNodeId : Option NodeId → Type 0
  IsNodeId none = Unit
  IsNodeId (some n) = IsPrintable n × (length (to_string n) < 2 ^ 16)

  abbrev node_id_text : Option NodeId → List ℕ
  node_id_text none = []
  node_id_text (some n) = to_string n

  node_id_text-lt : (o : Option NodeId) → IsNodeId o → length (node_id_text o) < 2 ^ 16
  node_id_text-lt none h = omega arith
  node_id_text-lt (some n) h = h.1

  encode_node_id_lem :
      (o : Option NodeId)
      → IsNodeId o
      → SessionInit.encode_node_id crates o
        ≡ to_be_bytes 2 (length (node_id_text o)) ++ node_id_text o
  unfolding SessionInit.encode_node_id
  encode_node_id_lem none h = rw append-nil
  encode_node_id_lem (some n) h =
      let e : length (to_string n) % 2 ^ 16 ≡ length (to_string n) = omega (arith, h.1) in rw e

  node_id-Reads :
      (o : Option NodeId) (ahead : List ℕ)
      → IsNodeId o
      → Reads (SessionInit.decode_node_id crates (length (node_id_text o))) (node_id_text o) ahead o
  unfolding SessionInit.decode_node_id SessionInit.node_id_of
  node_id-Reads none ahead h = Reads-return
  node_id-Reads (some n) ahead h =
      let filled : ltb 0 (length (to_string n)) ≡ true = ground (arith, to_string_filled n) in
      let utf8 : is_utf8 (to_string n) ≡ true =
        unfold is_utf8 in ascii_utf8 (to_string n) (to_string_ascii n h.0) in
      rw filled (
        Reads-need (omega arith) (
          Reads-bind_last _ (Reads-split_to refl)
            (rw (utf8, from_str-to_string crates n h.0) Reads-return)))

  -- What a SESS_INIT must be for the wire to carry it as it is; the reserved bits of an item's flags
  -- are not carried.
  pub record IsSessionInit (m : SessionInitMessage) : Type 0 where
    pub keepalive_fits : m.keepalive_interval < 2 ^ 16
    pub segment_fits : m.segment_mru < 2 ^ 64
    pub transfer_fits : m.transfer_mru < 2 ^ 64
    pub node_id_right : IsNodeId m.node_id
    pub items_right : All (IsItem AreFlags) m.session_extensions
    pub items_fit : length (encode_items SessionInit.flags_to_u8 m.session_extensions) < 2 ^ 32

  length-encode :
      (m : SessionInitMessage)
      → IsSessionInit m
      → length (SessionInit.encode crates m)
        ≡ 1
          + 2
          + 8
          + 8
          + 2
          + length (node_id_text m.node_id)
          + 4
          + length (encode_items SessionInit.flags_to_u8 m.session_extensions)
  unfolding SessionInit.encode
  length-encode m h =
      rw (encode_node_id_lem m.node_id h.node_id_right)
        (simp (length-append, length-to_be_bytes) (omega arith))

  init_clone-Reads :
      (m : SessionInitMessage)
      → IsSessionInit m
      → Reads (SessionInit.decode_clone crates) (SessionInit.encode crates m) [] (
        m,
        1
            + 2
            + 8
            + 8
            + 2
            + length (node_id_text m.node_id)
            + 4
            + length (encode_items SessionInit.flags_to_u8 m.session_extensions),
      )
  unfolding SessionInit.decode_clone SessionInit.encode
  init_clone-Reads m h =
      rw (encode_node_id_lem m.node_id h.node_id_right, append_assoc)
        (Reads-bind _ {bs = 7 ∷ []} (Reads-advance refl) (
          Reads-bind _ (Reads-get_uint 2 m.keepalive_interval h.keepalive_fits) (
            Reads-bind _ (Reads-get_uint 8 m.segment_mru h.segment_fits) (
              Reads-bind _ (Reads-get_uint 8 m.transfer_mru h.transfer_fits) (
                Reads-bind _
                  (Reads-get_uint 2 (length (node_id_text m.node_id))
                    (node_id_text-lt m.node_id h.node_id_right))
                  (Reads-bind _ (node_id-Reads m.node_id _ h.node_id_right) (
                    Reads-need (simp (length-append, length-to_be_bytes) (omega arith)) (
                      Reads-bind _
                        (Reads-get_uint 4 (byte_length m.session_extensions) (
                          omega (
                            arith,
                            byte_length_lem SessionInit.flags_of_u8 SessionInit.flags_to_u8
                                m.session_extensions h.items_fit,
                          )))
                        (Reads-bind_last _
                          (message_items-Reads SessionInit.flags_of_u8 SessionInit.flags_to_u8
                            AreFlags flags_of_u8-to_u8 m.session_extensions
                            (1 + 2 + 8 + 8 + 2 + length (node_id_text m.node_id) + 4) []
                            h.items_right h.items_fit)
                          Reads-return)))))))))

  pub session_init-Reads :
      (m : SessionInitMessage)
      → IsSessionInit m
      → Reads (SessionInit.decode crates) (SessionInit.encode crates m) [] m
  unfolding SessionInit.decode
  session_init-Reads m h =
      let size = length-encode m h in
      Reads-need (omega arith) (
        Reads-on_clone _ (SessionInit.encode crates m) [] _ refl (init_clone-Reads m h)
          (Reads-bind_last _ (Reads-advance (sym size)) Reads-return))
