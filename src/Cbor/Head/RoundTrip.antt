-- ===== src/Cbor/Head/RoundTrip.antt =====
-- What the encoder of cbor/src/encode.rs writes for a head is what `Head::from_cbor` reads.
use mathlib.Core.List.{append_assoc, append-nil}
use Prim.Native.Nat.add
use mathlib.Core.Path.{subst}
use hardy.Prelude.{
  ℕ, ◌+◌, ◌-◌, ◌*◌, ◌/◌, ◌%◌, ◌^◌, ◌≤◌, ◌<◌, ◌≡◌, refl, ap, ◌∙◌, List, [], ◌∷◌, ◌++◌, Bool, Option,
  some, arith, ◌==◌, length, length-append, drop-append_length,
}
use hardy.Cbor.Item.{Marker, ok}
use hardy.Cbor.Bytes.{All, IsU64}
use hardy.Cbor.Encode.{
  Encoder, new, emit_uint_minor, emit_tag, emit_bool, emit_option, byte_stream_new, text_stream_new,
  sequence_new,
}
use hardy.Cbor.Minor.Laws.{minor_of, tail_of, buffer-emit_uint_minor}
use hardy.Cbor.Head.{Floats, from_cbor}
use hardy.Cbor.Head.Reference.{reference, from_cbor-eq_reference}
use hardy.Cbor.Head.Canonical.{
  marker_bytes, uint_bytes, tags_bytes, tags_bytes-Reads, MarkerFits, Reads, marker_bytes-Reads,
}

unfoldable pub emit_tags : List ℕ → Encoder → Encoder
emit_tags [] e = e
emit_tags (t ∷ ts) e = emit_tags ts (emit_tag t e)

-- How the encoder writes a marker: by `emit` of a `u64`, a `bool` or `None`, by the first byte of a
-- stream, or by `Sequence::new`. The program has no encoder for `null` and for other simple values,
-- and floats are not modelled.
pub data Written {F : Type 0} (e : Encoder) : Marker F → Encoder → Type 0 where
  unsigned : (v : ℕ) → IsU64 v → Written e (Marker.unsigned_integer v) (emit_uint_minor 0 v e)
  negative : (v : ℕ) → IsU64 v → Written e (Marker.negative_integer v) (emit_uint_minor 1 v e)
  bytes : (v : ℕ) → IsU64 v → Written e (Marker.bytes (some v)) (emit_uint_minor 2 v e)
  byte_stream : Written e (Marker.bytes Option.none) (byte_stream_new e)
  text : (v : ℕ) → IsU64 v → Written e (Marker.text (some v)) (emit_uint_minor 3 v e)
  text_stream : Written e (Marker.text Option.none) (text_stream_new e)
  array : (v : ℕ) → IsU64 v → Written e (Marker.array (some v)) (sequence_new 1 (some v) e).0
  open_array : Written e (Marker.array Option.none) (sequence_new 1 Option.none e).0
  map : (v : ℕ) → IsU64 v → Written e (Marker.map (some v)) (sequence_new 2 (some v) e).0
  open_map : Written e (Marker.map Option.none) (sequence_new 2 Option.none e).0
  false : Written e Marker.false (emit_bool Bool.false e)
  true : Written e Marker.true (emit_bool Bool.true e)
  none : Written e Marker.undefined (emit_option {A = ℕ} (emit_uint_minor 0) Option.none e)

buffer-emit_tags :
    (ts : List ℕ) (e : Encoder) → All IsU64 ts → (emit_tags ts e).buffer ≡ e.buffer ++ tags_bytes ts
unfolding emit_tags emit_tag tags_bytes
buffer-emit_tags [] e h = rw append-nil
buffer-emit_tags (t ∷ ts) e (ht, hts) =
    buffer-emit_tags ts (emit_uint_minor 6 t e) hts
    ∙ rw (buffer-emit_uint_minor 6 t e (omega arith) ht)
        (append_assoc e.buffer ((6 * 32 + minor_of t) ∷ tail_of t) (tags_bytes ts))

-- A type byte and the bytes behind it, as a marker's encoding.
record Encodes {F : Type 0} (e : Encoder) (m : Marker F) (e' : Encoder) (b : ℕ × List ℕ)
    : Type 0 where
  marked : marker_bytes m ≡ some b
  pushed : e'.buffer ≡ e.buffer ++ (b.0 ∷ b.1)
  no_tag : (b.0 / 32 == 6) ≡ Bool.false
  fits : MarkerFits m

uint-no_tag : (major v : ℕ) → major < 6 → ((major * 32 + minor_of v) / 32 == 6) ≡ Bool.false
unfolding minor_of
uint-no_tag major v h = ground arith

u64_mod : (v : ℕ) → IsU64 v → v % 2 ^ 64 ≡ v
u64_mod v h = omega arith

uint-Encodes :
    {F : Type 0} (major v : ℕ) (e : Encoder) (m : Marker F)
    → major < 6
    → IsU64 v
    → marker_bytes m ≡ some (uint_bytes major v)
    → MarkerFits m
    → Encodes e m (emit_uint_minor major v e) (uint_bytes major v)
uint-Encodes major v e m hm hv marked fits = record {
  marked = marked;
  pushed = buffer-emit_uint_minor major v e (omega arith) hv;
  no_tag = uint-no_tag major v hm;
  fits = fits;
}

-- `Sequence::new` with a count
count-Encodes :
    {F : Type 0} (major v : ℕ) (e : Encoder) (m : Marker F)
    → major < 6
    → IsU64 v
    → marker_bytes m ≡ some (uint_bytes major v)
    → MarkerFits m
    → Encodes e m (emit_uint_minor major (v % 2 ^ 64) e) (uint_bytes major v)
count-Encodes major v e m hm hv marked fits =
    rw (u64_mod v hv) (uint-Encodes major v e m hm hv marked fits)

Written-Encodes :
    {F : Type 0} {e : Encoder} {m : Marker F} {e' : Encoder}
    → Written e m e'
    → (b : ℕ × List ℕ) × Encodes e m e' b
unfolding marker_bytes byte_stream_new text_stream_new sequence_new emit_bool emit_option
Written-Encodes {e = e} (unsigned v h) = (_, uint-Encodes 0 v e _ (omega arith) h refl h)
Written-Encodes {e = e} (negative v h) = (_, uint-Encodes 1 v e _ (omega arith) h refl h)
Written-Encodes {e = e} (bytes v h) = (_, uint-Encodes 2 v e _ (omega arith) h refl h)
Written-Encodes {e = e} (text v h) = (_, uint-Encodes 3 v e _ (omega arith) h refl h)
Written-Encodes {e = e} (array v h) = (_, count-Encodes 4 v e _ (omega arith) h refl h)
Written-Encodes {e = e} (map v h) = (_, count-Encodes 5 v e _ (omega arith) h refl h)
Written-Encodes {e = e} _ = (_, record { marked = refl; pushed = refl; no_tag = refl; fits = tt })

length-tags_bytes : (ts : List ℕ) → length ts ≤ length (tags_bytes ts)
unfolding tags_bytes
length-tags_bytes [] = omega arith
length-tags_bytes (t ∷ ts) =
    omega (arith, length-append (tail_of t) (tags_bytes ts), length-tags_bytes ts)

-- The decoder on the bytes of a head.
reference-bytes :
    (fl : Floats) (ts : List ℕ) (m : Marker fl.F64) (t : ℕ) (tail rest : List ℕ)
    → All IsU64 ts
    → Reads fl m (some (t, tail))
    → (t / 32 == 6) ≡ Bool.false
    → reference fl (tags_bytes ts ++ (t ∷ (tail ++ rest)))
      ≡ ok (record { tags = ts; marker = m }, Bool.true, length (tags_bytes ts) + 1 + length tail)
unfolding reference
reference-bytes fl ts m t tail rest h reads e =
    let input = tags_bytes ts ++ (t ∷ (tail ++ rest)) in
    let k = length input - length ts in
    let fuel : length input ≡ length ts + k =
      omega (arith, length-append (tags_bytes ts) (t ∷ (tail ++ rest)), length-tags_bytes ts) in
    let read =
      rw (add.zero (length (tags_bytes ts))) at
        (tags_bytes-Reads ts k t (tail ++ rest) [] Bool.true 0 h e) in
    rw (fuel, read) (rw (drop-append_length (tags_bytes ts) (t ∷ (tail ++ rest)), reads rest))

-- `Head::from_cbor` reads back every head that the encoder writes, with any tags before it and
-- any bytes behind it, less than 2^63 in all, for tags and values that are `u64`: the same tags and marker, reported as shortest, and of the written length.
pub from_cbor-emit :
    (fl : Floats) (ts : List ℕ) (m : Marker fl.F64) (e : Encoder) (rest : List ℕ)
    → All IsU64 ts
    → Written (emit_tags ts new) m e
    → length (e.buffer ++ rest) < 2 ^ 63
    → from_cbor fl (e.buffer ++ rest)
      ≡ ok (record { tags = ts; marker = m }, Bool.true, length e.buffer)
from_cbor-emit fl ts m e rest h w small =
    let ((t, tail), x) = Written-Encodes w in
    let bytes : e.buffer ≡ tags_bytes ts ++ (t ∷ tail) =
      x.pushed ∙ ap (λ l. l ++ (t ∷ tail)) (buffer-emit_tags ts new h) in
    let whole : e.buffer ++ rest ≡ tags_bytes ts ++ (t ∷ (tail ++ rest)) =
      ap (λ l. l ++ rest) bytes ∙ append_assoc (tags_bytes ts) (t ∷ tail) rest in
    let size : length (tags_bytes ts) + 1 + length tail ≡ length e.buffer =
      omega (arith, ap length bytes, length-append (tags_bytes ts) (t ∷ tail)) in
    let reads = subst (Reads fl m) x.marked (marker_bytes-Reads fl m x.fits) in
    from_cbor-eq_reference fl (e.buffer ++ rest) small
    ∙ ap (reference fl) whole
    ∙ reference-bytes fl ts m t tail rest h reads x.no_tag
    ∙ ap (λ n. ok (record { tags = ts; marker = m }, Bool.true, n)) size
