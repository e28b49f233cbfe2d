-- ===== src/Cbor/Head.antt =====
-- `Head::from_cbor` of cbor/src/decode/head.rs, with its path for at least nine bytes and its slow path.
pub mod Reference
pub mod Canonical
pub mod RoundTrip
pub mod Shortest
use hardy.Prelude.{
  ℕ, zero, suc, ◌+◌, ◌/◌, ◌%◌, ◌^◌, List, [], ◌∷◌, ◌++◌, Bool, true, false, ◌&&◌, not, Option, none,
  some, ltb, leb, ◌==◌, length, get_elem?, drop, if◌then◌else◌,
}
use hardy.Cbor.Item.{
  Marker, Head, Result, ok, err, panic, stuck, ◌>>=◌, too_big, need_more_data, invalid_simple_type,
}
use hardy.Cbor.Bytes.{from_be_bytes}
use hardy.Cbor.Minor.{Bytes8, first_chunk9, to_array, parse_uint_minor, parse_uint_minor_fast}

-- `core::num::FpCategory`
pub data FpCategory : Type 0 where
  nan infinite zero_value subnormal normal : FpCategory

-- The floating-point types and conversions of the standard library and of the crates `half` and
-- `num_traits`.
pub record Floats : Type 1 where
  pub F16 : Type 0
  pub F32 : Type 0
  pub F64 : Type 0
  pub f16_from_bits : ℕ → F16
  pub f32_from_bits : ℕ → F32
  pub f64_from_bits : ℕ → F64
  pub f64_of_f16 : F16 → F64
  pub f64_of_f32 : F32 → F64
  pub classify_f32 : F32 → FpCategory
  pub classify_f64 : F64 → FpCategory
  pub f16_from_f32 : F32 → Option F16
  pub f16_to_f32 : F16 → Option F32
  pub f32_from_f64 : F64 → Option F32
  pub f32_to_f64 : F32 → Option F64
  pub f16_from_f64 : F64 → Option F16
  pub f16_to_f64 : F16 → Option F64
  pub eq_f32 : F32 → F32 → Bool
  pub eq_f64 : F64 → F64 → Bool

-- `offset.checked_add(o).ok_or(Error::TooBig)?` on a 64-bit `usize`
unfoldable pub checked_add : ℕ → ℕ → Result ℕ
checked_add a b = if ltb (a + b) (2 ^ 64) then ok (a + b) else err too_big

-- The loop of `parse_tags`: the tags so far, the `shortest` flag and the offset.
unfoldable pub tags_loop : ℕ → List ℕ → List ℕ → Bool → ℕ → Result (List ℕ × Bool × ℕ)
tags_loop zero input tags shortest offset = stuck
tags_loop (suc fuel) input tags shortest offset = elim (first_chunk9 (drop offset input)) [
  | some (marker, c) ↦ elim (marker / 32 == 6) [
    | true ↦ do
      (tag, s, o) ← parse_uint_minor_fast (marker % 32) c
      next ← checked_add (offset + 1) o
      tags_loop fuel input (tags ++ (tag ∷ [])) (shortest && s) next
    | false ↦ ok (tags, shortest, offset)
  ]
  | none ↦ elim (get_elem? input offset) [
    | none ↦ ok (tags, shortest, offset)
    | some marker ↦ elim (marker / 32 == 6) [
      | true ↦ do
        (tag, s, o) ← parse_uint_minor (marker % 32) (drop (offset + 1) input)
        next ← checked_add (offset + 1) o
        tags_loop fuel input (tags ++ (tag ∷ [])) (shortest && s) next
      | false ↦ ok (tags, shortest, offset)
    ]
  ]
]

-- A round takes a byte at least, and the last one may see the end of the input.
unfoldable pub parse_tags : List ℕ → Result (List ℕ × Bool × ℕ)
parse_tags input = tags_loop (suc (length input)) input [] true 0

-- `half::f16` agrees with the `f32` value `v`
abbrev fits_f16 : (fl : Floats) → fl.F32 → Bool
fits_f16 fl v = elim (fl.f16_from_f32 v) [
  | none ↦ false
  | some v16 ↦ elim (fl.f16_to_f32 v16) [ none ↦ false | some w ↦ fl.eq_f32 w v ]
]

-- The `if`/`else if` of the FP64 arm: the `f16` test is made only where `f32::from_f64` fails.
abbrev fits_shorter : (fl : Floats) → fl.F64 → Bool
fits_shorter fl v = elim (fl.f32_from_f64 v) [
  | some v32 ↦ elim (fl.f32_to_f64 v32) [ none ↦ false | some w ↦ fl.eq_f64 w v ]
  | none ↦ elim (fl.f16_from_f64 v) [
    | none ↦ false
    | some v16 ↦ elim (fl.f16_to_f64 v16) [ none ↦ false | some w ↦ fl.eq_f64 w v ]
  ]
]

abbrev narrows : FpCategory → Bool → Bool
narrows nan b = true
narrows infinite b = true
narrows zero_value b = true
narrows subnormal b = b
narrows normal b = b

module _ (fl : Floats) where
  -- The arms `(7, minor)` of the slow match.
  unfoldable pub simple_or_float : ℕ → Bool → List ℕ → Result (Marker fl.F64 × Bool × ℕ)
  simple_or_float minor shortest input =
      if minor == 20
      then ok (Marker.false, shortest, 0)
      else if minor == 21
      then ok (Marker.true, shortest, 0)
      else if minor == 22
      then ok (Marker.null, shortest, 0)
      else if minor == 23
      then ok (Marker.undefined, shortest, 0)
      else if leb minor 19
      then ok (Marker.simple minor, shortest, 0)
      else if minor == 24
      then elim input [
        | [] ↦ err (need_more_data 1)
        | v ∷ _ ↦
            if ltb v 32 then err (invalid_simple_type v) else ok (Marker.simple v, shortest, 1)
      ]
      else if minor == 25
      then (do
        a ← to_array 2 input
        ok (Marker.float (fl.f64_of_f16 (fl.f16_from_bits (from_be_bytes a))), shortest, 2))
      else if minor == 26
      then (do
        a ← to_array 4 input
        let v = fl.f32_from_bits (from_be_bytes a)
        ok (
          Marker.float (fl.f64_of_f32 v),
          shortest && not (narrows (fl.classify_f32 v) (fits_f16 fl v)),
          4,
        ))
      else if minor == 27
      then (do
        a ← to_array 8 input
        let v = fl.f64_from_bits (from_be_bytes a)
        ok (Marker.float v, shortest && not (narrows (fl.classify_f64 v) (fits_shorter fl v)), 8))
      else err (invalid_simple_type minor)

-- The marker that a definite head of a major type up to 5 carries.
abbrev pub definite : {F : Type 0} → ℕ → ℕ → Result (Marker F)
definite major v =
    if major == 0
    then ok (Marker.unsigned_integer v)
    else if major == 1
    then ok (Marker.negative_integer v)
    else if major == 2
    then ok (Marker.bytes (some v))
    else if major == 3
    then ok (Marker.text (some v))
    else if major == 4
    then ok (Marker.array (some v))
    else if major == 5
    then ok (Marker.map (some v))
    else panic

abbrev pub indefinite : {F : Type 0} → ℕ → Result (Marker F)
indefinite major =
    if major == 2
    then ok (Marker.bytes none)
    else if major == 3
    then ok (Marker.text none)
    else if major == 4
    then ok (Marker.array none)
    else if major == 5
    then ok (Marker.map none)
    else panic

-- The slow match: major types 0 to 5 by `parse_uint_minor`, or of indefinite length.
unfoldable pub slow_match :
    (fl : Floats) → ℕ → ℕ → Bool → List ℕ → Result (Marker fl.F64 × Bool × ℕ)
slow_match fl major minor shortest input =
    if leb major 5
    then (if (minor == 31) && leb 2 major
        then (do m ← indefinite major; ok (m, shortest, 0))
        else (do
          (v, s, len) ← parse_uint_minor minor input
          m ← definite major v
          ok (m, shortest && s, len)))
    else if major == 7
    then simple_or_float fl minor shortest input
    else panic

-- The match of the path for at least nine bytes, for a major type up to 5.
unfoldable pub fast_match : {F : Type 0} → ℕ → ℕ → Bool → Bytes8 → Result (Marker F × Bool × ℕ)
fast_match major minor shortest c =
    if (minor == 31) && leb 2 major then (do m ← indefinite major; ok (m, shortest, 0)) else (do
      (v, s, len) ← parse_uint_minor_fast minor c
      m ← definite major v
      ok (m, shortest && s, len))

-- The reading of the marker at `offset`, behind the tags.
unfoldable pub read_marker : (fl : Floats) → List ℕ → Bool → ℕ → Result (Marker fl.F64 × Bool × ℕ)
read_marker fl input shortest offset = elim (first_chunk9 (drop offset input)) [
  | some (marker, c) ↦
      if leb (marker / 32) 5
      then fast_match (marker / 32) (marker % 32) shortest c
      else slow_match fl (marker / 32) (marker % 32) shortest (drop (offset + 1) input)
  | none ↦ elim (get_elem? input offset) [
    | none ↦ err (need_more_data 1)
    | some marker ↦ slow_match fl (marker / 32) (marker % 32) shortest (drop (offset + 1) input)
  ]
]

unfoldable pub from_cbor : (fl : Floats) → List ℕ → Result (Head fl.F64 × Bool × ℕ)
from_cbor fl input = do
  (tags, shortest, offset) ← parse_tags input
  (m, s, len) ← read_marker fl input shortest offset
  ok (record { tags = tags; marker = m }, s, offset + 1 + len)
