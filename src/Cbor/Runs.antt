-- ===== src/Cbor/Runs.antt =====
-- Runs of cbor/src/encode.rs and cbor/src/decode/head.rs on concrete bytes.
use hardy.Prelude.{
  ℕ, ◌≤◌, ◌≡◌, refl, List, [], ◌∷◌, ◌++◌, Bool, none, some, arith, length, take, ◌==◌,
}
use hardy.Cbor.Item.{Marker, ok, err, need_more_data}
use hardy.Cbor.Bytes.{from_be_bytes, to_be_bytes}
use hardy.Cbor.Encode.{new, emit_uint_minor, emit_tag, sequence_new}
use hardy.Cbor.Minor.{first_chunk9, to_array, parse_uint_minor, parse_uint_minor_fast}
use hardy.Cbor.Head.{
  Floats, FpCategory, checked_add, tags_loop, parse_tags, slow_match, fast_match, read_marker,
  from_cbor,
}
use hardy.Cbor.Head.Reference.{reference, from_cbor-eq_reference}
use hardy.Cbor.Head.Canonical.{marker_bytes, tags_bytes}
use hardy.Cbor.Head.RoundTrip.{emit_tags, Written, from_cbor-emit}
use hardy.Cbor.Head.Shortest.{from_cbor-shortest}

-- Floats as their bits, where no conversion to a shorter type succeeds.
abbrev bits : Floats
bits = record {
  F16 = ℕ;
  F32 = ℕ;
  F64 = ℕ;
  f16_from_bits = λ n. n;
  f32_from_bits = λ n. n;
  f64_from_bits = λ n. n;
  f64_of_f16 = λ n. n;
  f64_of_f32 = λ n. n;
  classify_f32 = λ n. FpCategory.normal;
  classify_f64 = λ n. FpCategory.normal;
  f16_from_f32 = λ n. none;
  f16_to_f32 = λ n. some n;
  f32_from_f64 = λ n. none;
  f32_to_f64 = λ n. some n;
  f16_from_f64 = λ n. none;
  f16_to_f64 = λ n. some n;
  eq_f32 = λ a b. a == b;
  eq_f64 = λ a b. a == b;
}

-- A tag, the head of an array of 500 items, and a byte behind it
abbrev array_bytes : List ℕ
array_bytes = 217 ∷ 217 ∷ 247 ∷ 153 ∷ 1 ∷ 244 ∷ 1 ∷ []

-- Long enough for the path for nine bytes
abbrev long_bytes : List ℕ
long_bytes = 193 ∷ 27 ∷ 0 ∷ 0 ∷ 0 ∷ 1 ∷ 0 ∷ 0 ∷ 0 ∷ 0 ∷ 7 ∷ []

from_cbor_truncated : from_cbor bits (193 ∷ 25 ∷ 1 ∷ []) ≡ err (need_more_data 1)
unfolding from_cbor parse_tags tags_loop first_chunk9 parse_uint_minor parse_uint_minor_fast
    to_array from_be_bytes checked_add read_marker slow_match fast_match
from_cbor_truncated = refl

from_cbor_long :
    from_cbor bits long_bytes
    ≡ ok (record { tags = 1 ∷ []; marker = Marker.unsigned_integer 4294967296 }, Bool.true, 10)
unfolding from_cbor parse_tags tags_loop first_chunk9 parse_uint_minor parse_uint_minor_fast
    to_array from_be_bytes checked_add read_marker slow_match fast_match
from_cbor_long = refl

from_cbor-emit_example :
    from_cbor bits array_bytes
    ≡ ok (record { tags = 55799 ∷ []; marker = Marker.array (some 500) }, Bool.true, 6)
unfolding sequence_new emit_uint_minor emit_tags emit_tag to_be_bytes
from_cbor-emit_example =
    from_cbor-emit bits (55799 ∷ []) (Marker.array (some 500))
      (sequence_new 1 (some 500) (emit_tags (55799 ∷ []) new)).0 (1 ∷ []) (omega arith, tt)
      (Written.array 500 (omega arith)) (omega arith)

from_cbor-eq_reference_example : from_cbor bits long_bytes ≡ reference bits long_bytes
from_cbor-eq_reference_example = from_cbor-eq_reference bits long_bytes (omega arith)

from_cbor-shortest_example :
    (b : ℕ × List ℕ) × (marker_bytes {F = ℕ} (Marker.unsigned_integer 4294967296) ≡ some b)
    × (take 10 long_bytes ≡ tags_bytes (1 ∷ []) ++ (b.0 ∷ b.1))
    × (10 ≤ length long_bytes)
unfolding marker_bytes
from_cbor-shortest_example =
    from_cbor-shortest bits long_bytes (1 ∷ []) (Marker.unsigned_integer 4294967296) 10
      (omega arith) (ground arith) from_cbor_long (λ e. cc e)
