-- ===== src/Tcpclv4/Codec/Framing.antt =====
-- tcpclv4/src/codec.rs: the codec under partial input.
use hardy.Prelude.{ℕ, ◌<◌, ◌≡◌, ◌≢◌, ◌⊎◌, inl, inr, refl, ap, List, [], ◌∷◌, ◌++◌, length}
use mathlib.Core.List.{append-nil}
use hardy.Tcpclv4.Wire.{Outcome, stuck, panic, more, fail, done, Error}
use hardy.Tcpclv4.Wire.Waits.{
  Answers, Waits, Kept, clone-Kept, answers, bind-Waits, need-Waits, on_clone-Waits, Answers-Waits,
}
use hardy.Tcpclv4.Codec.MessageType.{MessageType, try_from}
use hardy.Eid.Text.{TextCrates}
use hardy.Tcpclv4.Codec.SessionInit
use hardy.Tcpclv4.Codec.SessionTerm
use hardy.Tcpclv4.Codec.Segment
use hardy.Tcpclv4.Codec.Ack
use hardy.Tcpclv4.Codec.Refuse
use hardy.Tcpclv4.Codec.Reject
use hardy.Tcpclv4.Codec.MessageCodec.{Message, encode, decode, decode_as}
use hardy.Tcpclv4.Codec.Safe.{decode_safe, try_from_keeps}
use hardy.Tcpclv4.Wire.Stable.{Extends-fail}
use hardy.Tcpclv4.Wire.Safe.{Post}
use hardy.Tcpclv4.Codec.Stable.{decode-Extends}
use hardy.Tcpclv4.Codec.RoundTrip.{IsMessage, decode-encode}

try_from-Answers : (n : ℕ) → Answers (try_from n)
unfolding try_from
try_from-Answers n = search answers depth 20

module _ (crates : TextCrates) where
  decode_as-Waits : (t : MessageType) → Waits (decode_as crates t)
  unfolding decode_as Segment.decode Segment.take_payload Ack.decode Refuse.decode
      SessionTerm.decode Reject.decode SessionInit.decode
  decode_as-Waits MessageType.xfer_segment =
      search (bind-Waits, need-Waits, on_clone-Waits, Answers-Waits, answers) depth 20
  decode_as-Waits MessageType.xfer_ack =
      search (bind-Waits, need-Waits, Answers-Waits, answers) depth 20
  decode_as-Waits MessageType.xfer_refuse =
      search (bind-Waits, need-Waits, Answers-Waits, answers) depth 20
  decode_as-Waits MessageType.keepalive = search (Answers-Waits, answers) depth 20
  decode_as-Waits MessageType.sess_term =
      search (bind-Waits, need-Waits, Answers-Waits, answers) depth 20
  decode_as-Waits MessageType.msg_reject =
      search (bind-Waits, need-Waits, Answers-Waits, answers, try_from-Answers) depth 20
  decode_as-Waits MessageType.sess_init =
      search (bind-Waits, need-Waits, on_clone-Waits, Answers-Waits, answers) depth 20

  decode-Kept : (src : List ℕ) → Kept src (decode crates src)
  unfolding decode
  decode-Kept [] = refl
  decode-Kept (b ∷ src) = rw (try_from_keeps b (b ∷ src)) (
      clone-Kept (try_from b (b ∷ src)).0 (decode_as crates) (b ∷ src)
        (λ t. (decode_as-Waits t).apply (b ∷ src)))

tail_nil : (xs ys : List ℕ) → xs ++ ys ≡ [] → ys ≡ []
tail_nil [] ys h = h
tail_nil (x ∷ xs) ys h = cc

outcome :
    {T : Type 0} (o : Outcome T × List ℕ) (src : List ℕ)
    → Post (λ v k. k < length src) o
    → Kept src o
    → (o ≡ (more, src))
      ⊎ ((e : Error) × (o.0 ≡ fail e))
      ⊎ ((v : T) × (rest : List ℕ) × (o ≡ (done v, rest)) × (length rest < length src))
outcome (stuck, s) src p k = absurd p
outcome (panic, s) src p k = absurd p
outcome (more, s) src p k = inl (ap (λ r. (more, r)) k)
outcome (fail e, s) src p k = inr (inl (e, refl))
outcome (done v, s) src p k = inr (inr (v, s, refl, p))

module _ (crates : TextCrates) where
  -- The codec never panics and never runs out of fuel. On any buffer it asks for more octets and
  -- leaves the buffer as it was, or it fails, or it returns a message and takes at least one octet.
  pub decode_total :
      (src : List ℕ)
      → (decode crates src ≡ (more, src))
        ⊎ ((e : Error) × ((decode crates src).0 ≡ fail e))
        ⊎ ((m : Message) × (rest : List ℕ) × (decode crates src ≡ (done m, rest))
            × (length rest < length src))
  decode_total src =
      outcome (decode crates src) src (decode_safe crates src) (decode-Kept crates src)

  -- A message that the codec returns stays the same when more octets follow, and these stay behind
  -- what it had left.
  pub decode-append :
      (src suffix rest : List ℕ) (m : Message)
      → decode crates src ≡ (done m, rest)
      → decode crates (src ++ suffix) ≡ (done m, rest ++ suffix)
  decode-append src suffix rest m h = rw h at (decode-Extends crates src suffix)

  whole_again :
      (m : Message) (part tail : List ℕ)
      → IsMessage crates m
      → encode crates m ≡ part ++ tail
      → decode crates (part ++ tail) ≡ (done m, [])
  whole_again m part tail h e = rw (append-nil, e) at (decode-encode crates m [] h)

  -- With only a part of a message in the buffer, the codec asks for more and leaves the buffer as it was, for messages whose fields fit, with no bit set that its flags do not have, and with a node id, if any, that is parsed from its text.
  pub decode_part :
      (m : Message) (part tail : List ℕ)
      → IsMessage crates m
      → encode crates m ≡ part ++ tail
      → tail ≢ []
      → decode crates part ≡ (more, part)
  decode_part m part tail h e t = elim (decode_total part) [
    | inl p ↦ p
    | inr (inl (x, p)) ↦ cc (
      Extends-fail tail (decode crates part) (decode crates (part ++ tail)) x p
          (decode-Extends crates part tail),
      whole_again m part tail h e,
    )
    | inr (inr (m', rest, p, lt)) ↦ absurd (
        t (
          tail_nil rest tail (cc (decode-append part tail rest m' p, whole_again m part tail h e))))
  ]
