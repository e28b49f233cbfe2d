-- ===== src/Tcpclv4/Codec/Safe.antt =====
-- tcpclv4/src/codec.rs: the decoders read nothing behind the end of the buffer.
use hardy.Prelude.{length, ◌<◌, ◌≤◌, arith, refl}
use hardy.Tcpclv4.Wire.Safe.{
  Runs, Post, clone-Post, Runs-return, Runs-throw, Runs-need, Runs-split_to, Runs-get_uint,
  Runs-advance, Runs-bind, Runs-on_clone, Runs_mono,
}
use hardy.Tcpclv4.Codec.SessionInit.{SessionInitMessage}
use hardy.Tcpclv4.Codec.Segment.{TransferSegmentExtensionFlags, Header}
use hardy.Prelude.{
  ℕ, zero, suc, ◌+◌, ◌-◌, Bool, Bool-cases, Option-cases, inl, inr, true, false, leb, ltb, List, [],
  ◌∷◌, ◌++◌, ◌≡◌,
}
use hardy.Tcpclv4.Wire.{
  Reader, ◌>>=◌, return, is_utf8, invalid_extension_length, invalid_node_id, invalid_node_id_utf8,
}
use hardy.Tcpclv4.Codec.MessageType.{MessageType, try_from}
use hardy.Tcpclv4.Codec.Extension.{Extension, decode_item, decode_items}
use hardy.Eid.Text.{from_str, TextCrates}
use hardy.Tcpclv4.Codec.SessionInit
use hardy.Tcpclv4.Codec.SessionTerm
use hardy.Tcpclv4.Codec.Segment
use hardy.Tcpclv4.Codec.SegmentFlags
use hardy.Tcpclv4.Codec.Ack
use hardy.Tcpclv4.Codec.Refuse
use hardy.Tcpclv4.Codec.Reject
use hardy.Tcpclv4.Codec.MessageCodec.{
  Message, session_init, session_term, transfer_segment, transfer_ack, transfer_refuse, reject,
  decode, decode_as,
}

-- What is decoded takes some of the buffer.
abbrev pub Shrinks : {T : Type 0} → ℕ → T → ℕ → Type 0
Shrinks l v l' = l' < l

session_term_safe : Runs 0 SessionTerm.decode Shrinks
unfolding SessionTerm.decode
session_term_safe = Runs-need 3 (
    Runs-advance 1 _ (omega arith) (
      Runs-get_uint 1 _ (omega arith)
        (λ flags. Runs-get_uint 1 _ (omega arith) (λ reason. Runs-return _ (λ l k. omega arith)))))

ack_safe : Runs 0 Ack.decode Shrinks
unfolding Ack.decode
ack_safe = Runs-need 18 (
    Runs-advance 1 _ (omega arith) (
      Runs-get_uint 1 _ (omega arith) (λ flags.
        Runs-get_uint 8 _ (omega arith)
          (λ id. Runs-get_uint 8 _ (omega arith) (λ length. Runs-return _ (λ l k. omega arith))))))

refuse_safe : Runs 0 Refuse.decode Shrinks
unfolding Refuse.decode
refuse_safe = Runs-need 10 (
    Runs-advance 1 _ (omega arith) (
      Runs-get_uint 1 _ (omega arith)
        (λ reason. Runs-get_uint 8 _ (omega arith) (λ id. Runs-return _ (λ l k. omega arith)))))

try_from-Runs : (n : ℕ) → Runs 0 (try_from n) (λ l v l'. l' ≡ l)
unfolding try_from
try_from-Runs n = record { apply = λ src h. ground arith }

reject_safe : Runs 0 Reject.decode Shrinks
unfolding Reject.decode
reject_safe = Runs-need 3 (
    Runs-advance 1 _ (omega arith) (
      Runs-get_uint 1 _ (omega arith) (λ reason. Runs-get_uint 1 _ (omega arith) (λ rejected.
        Runs-bind _ _ (λ l v l'. l' ≡ l) (λ v l w l'. l' ≡ l) (try_from-Runs rejected)
          (λ t l k p. Runs-return _ (λ l k. refl)) (λ v w l k j h p q. omega arith)))))

pub try_from_keeps : (n : ℕ) (src : List ℕ) → try_from n src ≡ ((try_from n src).0, src)
unfolding try_from
try_from_keeps n src = ground arith

module _ {F : Type 0} (flags_of_u8 : ℕ → F) where
  -- An item's size is what it takes.
  decode_item_safe : Runs 0 (decode_item flags_of_u8) (λ l e l'. (e.1 + l' ≡ l) × (5 ≤ e.1))
  unfolding decode_item
  decode_item_safe = Runs-need 5 (
      Runs-get_uint 1 _ (omega arith) (λ flags. Runs-get_uint 2 _ (omega arith) (λ item_type.
        Runs-get_uint 2 _ (omega arith) (λ item_length. Runs-need item_length (
          Runs-split_to item_length _ (omega arith)
            (λ item_value. Runs-return _ (λ l k. (omega arith, omega arith))))))))

  -- The loop does not run out of fuel, and what it adds to `consumed` is what it takes.
  decode_items_safe :
      (fuel ext_remaining consumed : ℕ) (extensions : List (Extension F))
      → ext_remaining < fuel
      → Runs 0
          (decode_items flags_of_u8 fuel ext_remaining consumed extensions)
          (λ l v l'. (v.1 + l' ≡ consumed + l) × (consumed ≤ v.1))
  unfolding decode_items
  decode_items_safe zero ext_remaining consumed extensions h = absurd (omega arith)
  decode_items_safe (suc fuel) ext_remaining consumed extensions h =
      elim (Bool-cases (leb 5 ext_remaining)) [
        | inl long ↦
            rw (long, decode_items)
              (Runs-bind _ _ (λ l e l'. (e.1 + l' ≡ l) × (5 ≤ e.1))
                (λ e l v l'. (v.1 + l' ≡ consumed + e.1 + l) × (consumed + e.1 ≤ v.1))
                decode_item_safe
                (λ (e, ext_size) l' k p. elim (Bool-cases (ltb ext_remaining ext_size)) [
                  | inl over ↦ rw over (Runs-throw invalid_extension_length)
                  | inr inside ↦ rw inside (
                      decode_items_safe fuel (ext_remaining - ext_size) (consumed + ext_size)
                        (extensions ++ (e ∷ [])) (ground arith))
                ])
                (λ v w l k j n p q. (omega arith, omega arith)))
        | inr short ↦ rw (short, decode_items) (Runs-return _ (λ l k. (refl, omega arith)))
      ]

decode_extensions_safe :
    (start : Bool) → Runs 0 (Segment.decode_extensions start) (λ l v l'. v.1 + l' ≡ 10 + l)
unfolding Segment.decode_extensions
decode_extensions_safe true = Runs-need 4 (
    Runs-get_uint 4 _ (omega arith) (λ byte_length.
      Runs_mono _
        (decode_items_safe Segment.flags_of_u8 (suc byte_length) byte_length (10 + 4) []
          (omega arith))
        (omega arith) (λ l v k p. omega arith)))
decode_extensions_safe false = Runs-return _ (λ l k. refl)

segment_clone_safe :
    Runs 10 Segment.decode_clone (λ l h _. (h.consumed + 8 + h.data_length ≤ l) × Unit)
unfolding Segment.decode_clone
segment_clone_safe = Runs-advance 1 _ (omega arith) (
    Runs-get_uint 1 _ (omega arith) (λ flags. Runs-get_uint 8 _ (omega arith) (λ id.
      Runs-bind _ _ _ (λ v l h _. h.consumed + 8 + h.data_length ≤ v.1 + l)
        (decode_extensions_safe (SegmentFlags.flags_of_u8 flags).start)
        (λ v l k p. Runs-need 8 (
          Runs-get_uint 8 _ (omega arith)
            (λ data_length. Runs-need data_length (Runs-return _ (λ l k. omega arith)))))
        (λ v w l k j n p q. (omega arith, tt)))))

segment_safe : Runs 0 Segment.decode Shrinks
unfolding Segment.decode Segment.take_payload
segment_safe = Runs-need 10 (
    Runs-on_clone _ _ (λ h. h.consumed + 8 + h.data_length) (λ _. Unit) segment_clone_safe
      (λ h _. Runs-split_to (h.consumed + 8) _ (omega arith) (λ bs.
        Runs-split_to h.data_length _ (omega arith)
          (λ payload. Runs-return _ (λ l k. omega arith)))))

tagged_safe :
    {T : Type 0} {m : Reader T} (tag : T → Message)
    → Runs 0 m Shrinks
    → Runs 1 (m >>= λ v. return (tag v)) Shrinks
tagged_safe tag h =
    Runs-bind _ _ _ (λ v l w l'. l' ≡ l) (Runs_mono _ h (omega arith) (λ l v k p. p))
      (λ v l k p. Runs-return _ (λ l k. refl)) (λ v w l k j n p q. omega arith)

module _ (crates : TextCrates) where
  node_id_of_safe : (bs : List ℕ) → Runs 0 (SessionInit.node_id_of crates bs) (λ l v l'. l' ≡ l)
  unfolding SessionInit.node_id_of
  node_id_of_safe bs = elim (Bool-cases (is_utf8 bs)) [
    | inl e ↦ rw e (elim (Option-cases (from_str crates bs)) [
      | inl f ↦ rw f (Runs-throw invalid_node_id)
      | inr (n, f) ↦ rw f (Runs-return _ (λ l k. refl))
    ])
    | inr e ↦ rw e (Runs-throw invalid_node_id_utf8)
  ]

  decode_node_id_safe :
      (n : ℕ) → Runs 0 (SessionInit.decode_node_id crates n) (λ l v l'. n + l' ≡ l)
  unfolding SessionInit.decode_node_id
  decode_node_id_safe n = elim (Bool-cases (ltb 0 n)) [
    | inl e ↦ rw e (
        Runs-need n (
          Runs-split_to n _ (omega arith)
            (λ bs. Runs_mono _ (node_id_of_safe bs) (omega arith) (λ l v k p. omega arith))))
    | inr e ↦ rw e (Runs-return _ (λ l k. ground arith))
  ]

  init_clone_safe : Runs 21 (SessionInit.decode_clone crates) (λ l v _. (v.1 ≤ l) × (0 < v.1))
  unfolding SessionInit.decode_clone
  init_clone_safe = Runs-advance 1 _ (omega arith) (
      Runs-get_uint 2 _ (omega arith) (λ keepalive_interval.
        Runs-get_uint 8 _ (omega arith) (λ segment_mru.
          Runs-get_uint 8 _ (omega arith) (λ transfer_mru.
            Runs-get_uint 2 _ (omega arith) (λ node_id_length.
              Runs-bind _ _ _ (λ v l w _. (w.1 ≤ 21 + node_id_length + l) × (0 < w.1))
                (decode_node_id_safe node_id_length)
                (λ node_id l k p. Runs-need 4 (
                  Runs-get_uint 4 _ (omega arith) (λ byte_length.
                    Runs-bind _ _ _ (λ v l w l'. (w.1 ≡ v.1) × (l' ≡ l))
                      (decode_items_safe SessionInit.flags_of_u8 (suc byte_length) byte_length
                        (1 + 2 + 8 + 8 + 2 + node_id_length + 4) [] (omega arith))
                      (λ v l k p. Runs-return _ (λ l k. (refl, refl)))
                      (λ v w l k j n p q. (omega arith, omega arith)))))
                (λ v w l k j n p q. (omega arith, omega arith)))))))

  session_init_safe : Runs 0 (SessionInit.decode crates) Shrinks
  unfolding SessionInit.decode
  session_init_safe = Runs-need 21 (
      Runs-on_clone _ _ (λ v. v.1) (λ v. 0 < v.1) init_clone_safe
        (λ (m, consumed) pos.
          Runs-advance consumed _ (omega arith) (Runs-return _ (λ l k. omega arith))))

  decode_as_safe : (t : MessageType) → Runs 1 (decode_as crates t) Shrinks
  unfolding decode_as
  decode_as_safe MessageType.xfer_segment = tagged_safe transfer_segment segment_safe
  decode_as_safe MessageType.xfer_ack = tagged_safe transfer_ack ack_safe
  decode_as_safe MessageType.xfer_refuse = tagged_safe transfer_refuse refuse_safe
  decode_as_safe MessageType.keepalive =
      Runs-advance 1 _ (omega arith) (Runs-return _ (λ l k. omega arith))
  decode_as_safe MessageType.sess_term = tagged_safe session_term session_term_safe
  decode_as_safe MessageType.msg_reject = tagged_safe reject reject_safe
  decode_as_safe MessageType.sess_init = tagged_safe session_init session_init_safe

  pub decode_safe : (src : List ℕ) → Post (Shrinks (length src)) (decode crates src)
  unfolding decode
  decode_safe [] = tt
  decode_safe (b ∷ src) = rw (try_from_keeps b (b ∷ src)) (
      clone-Post (try_from b (b ∷ src)) (decode_as crates) (b ∷ src) (λ _. Unit)
        (Shrinks (length (b ∷ src)))
        ((Runs_mono {n' = 0} (λ l v l'. l' ≡ l) {Q = λ _ _ _. Unit} (try_from-Runs b) (omega arith)
            (λ l v k p. tt)).apply
          (b ∷ src) (omega arith))
        (λ t _. (decode_as_safe t).apply (b ∷ src) (omega arith)))
