-- ===== src/Cbor/Head/Canonical.antt =====
-- The one encoding of each head that `Head::from_cbor` reports as shortest.
use mathlib.Core.List.{append_assoc, append-nil}
use hardy.Prelude.{
  ℕ, suc, ◌+◌, ◌*◌, ◌/◌, ◌%◌, ◌≤◌, ◌<◌, ◌≡◌, refl, ◌∙◌, List, [], ◌∷◌, ◌++◌, Bool, true, false,
  ◌&&◌, ◌||◌, Option, none, some, arith, ltb, leb, ◌==◌, length, length-append, drop-append_length,
  if◌then◌else◌,
}
use native.Mathlib.Nat.{add-zero}
use Prim.Native.Nat.add
use hardy.Cbor.Item.{Marker, ok}
use hardy.Cbor.Bytes.{All, IsU64}
use hardy.Cbor.Minor.Laws.{minor_of, tail_of, parse_uint_minor-tail_of}
use hardy.Cbor.Head.{Floats, slow_match, simple_or_float, definite, indefinite}
use hardy.Cbor.Head.Reference.{reference_tags, reference_marker}

-- A type byte and what follows it, for an integer in its shortest form.
abbrev pub uint_bytes : ℕ → ℕ → ℕ × List ℕ
uint_bytes major v = (major * 32 + minor_of v, tail_of v)

abbrev pub sized_bytes : ℕ → Option ℕ → ℕ × List ℕ
sized_bytes major (some v) = uint_bytes major v
sized_bytes major none = (major * 32 + 31, [])

abbrev simple_bytes : ℕ → ℕ × List ℕ
simple_bytes v = if ltb v 24 then (7 * 32 + v, []) else (7 * 32 + 24, v ∷ [])

-- The type byte of a marker and the bytes behind it; `none` where they depend on a float.
unfoldable pub marker_bytes : {F : Type 0} → Marker F → Option (ℕ × List ℕ)
marker_bytes (Marker.unsigned_integer v) = some (uint_bytes 0 v)
marker_bytes (Marker.negative_integer v) = some (uint_bytes 1 v)
marker_bytes (Marker.bytes n) = some (sized_bytes 2 n)
marker_bytes (Marker.text n) = some (sized_bytes 3 n)
marker_bytes (Marker.array n) = some (sized_bytes 4 n)
marker_bytes (Marker.map n) = some (sized_bytes 5 n)
marker_bytes Marker.false = some (0xf4, [])
marker_bytes Marker.true = some (0xf5, [])
marker_bytes Marker.null = some (0xf6, [])
marker_bytes Marker.undefined = some (0xf7, [])
marker_bytes (Marker.simple v) = some (simple_bytes v)
marker_bytes (Marker.float _) = none

unfoldable pub tags_bytes : List ℕ → List ℕ
tags_bytes [] = []
tags_bytes (t ∷ ts) = ((6 * 32 + minor_of t) ∷ tail_of t) ++ tags_bytes ts

abbrev pub SizeFits : Option ℕ → Type 0
SizeFits none = Unit
SizeFits (some v) = IsU64 v

-- The values that a marker can hold: `u64` everywhere, and the simple values of RFC 8949.
abbrev pub MarkerFits : {F : Type 0} → Marker F → Type 0
MarkerFits (Marker.unsigned_integer v) = IsU64 v
MarkerFits (Marker.negative_integer v) = IsU64 v
MarkerFits (Marker.bytes n) = SizeFits n
MarkerFits (Marker.text n) = SizeFits n
MarkerFits (Marker.array n) = SizeFits n
MarkerFits (Marker.map n) = SizeFits n
MarkerFits (Marker.simple v) = (ltb v 20 || (leb 32 v && ltb v 256)) ≡ true
MarkerFits _ = Unit

minor_of-le : (v : ℕ) → minor_of v ≤ 27
unfolding minor_of
minor_of-le v = ground arith

type_byte_parts :
    (major minor : ℕ)
    → minor < 32
    → ((major * 32 + minor) / 32 ≡ major) × ((major * 32 + minor) % 32 ≡ minor)
type_byte_parts major minor h = omega arith

-- Every type byte of a major type below 6 that holds an integer is read back.
reference_marker-uint :
    (fl : Floats) (major v : ℕ) (rest : List ℕ) (m : Marker fl.F64)
    → major ≤ 5
    → IsU64 v
    → definite major v ≡ ok m
    → reference_marker fl ((major * 32 + minor_of v) ∷ (tail_of v ++ rest)) true
      ≡ ok (m, true, length (tail_of v))
unfolding reference_marker slow_match
reference_marker-uint fl major v rest m hm hv e =
    let (a, b) = type_byte_parts major (minor_of v) (omega (arith, minor_of-le v)) in
    rw (a, b) (ground (arith, minor_of-le v, parse_uint_minor-tail_of v rest hv))

reference_marker-indefinite :
    (fl : Floats) (major : ℕ) (rest : List ℕ) (m : Marker fl.F64)
    → major ≤ 5
    → 2 ≤ major
    → indefinite major ≡ ok m
    → reference_marker fl ((major * 32 + 31) ∷ rest) true ≡ ok (m, true, 0)
unfolding reference_marker slow_match
reference_marker-indefinite fl major rest m hm h2 e =
    let (a, b) = type_byte_parts major 31 (omega arith) in rw (a, b) (ground arith)

abbrev pub Reads : (fl : Floats) → Marker fl.F64 → Option (ℕ × List ℕ) → Type 0
Reads fl m none = Unit
Reads fl m (some (t, tail)) =
    (rest : List ℕ) → reference_marker fl (t ∷ (tail ++ rest)) true ≡ ok (m, true, length tail)

simple_bytes-Reads :
    (fl : Floats) (v : ℕ)
    → MarkerFits {F = fl.F64} (Marker.simple v)
    → (rest : List ℕ)
    → reference_marker fl ((simple_bytes v).0 ∷ ((simple_bytes v).1 ++ rest)) true
      ≡ ok (Marker.simple v, true, length (simple_bytes v).1)
unfolding reference_marker slow_match simple_or_float
simple_bytes-Reads fl v h rest = ground arith

pub marker_bytes-Reads :
    (fl : Floats) (m : Marker fl.F64) → MarkerFits m → Reads fl m (marker_bytes m)
unfolding marker_bytes
marker_bytes-Reads fl (Marker.unsigned_integer v) h =
    λ rest. reference_marker-uint fl 0 v rest _ (omega arith) h refl
marker_bytes-Reads fl (Marker.negative_integer v) h =
    λ rest. reference_marker-uint fl 1 v rest _ (omega arith) h refl
marker_bytes-Reads fl (Marker.bytes (some v)) h =
    λ rest. reference_marker-uint fl 2 v rest _ (omega arith) h refl
marker_bytes-Reads fl (Marker.bytes none) h =
    λ rest. reference_marker-indefinite fl 2 rest _ (omega arith) (omega arith) refl
marker_bytes-Reads fl (Marker.text (some v)) h =
    λ rest. reference_marker-uint fl 3 v rest _ (omega arith) h refl
marker_bytes-Reads fl (Marker.text none) h =
    λ rest. reference_marker-indefinite fl 3 rest _ (omega arith) (omega arith) refl
marker_bytes-Reads fl (Marker.array (some v)) h =
    λ rest. reference_marker-uint fl 4 v rest _ (omega arith) h refl
marker_bytes-Reads fl (Marker.array none) h =
    λ rest. reference_marker-indefinite fl 4 rest _ (omega arith) (omega arith) refl
marker_bytes-Reads fl (Marker.map (some v)) h =
    λ rest. reference_marker-uint fl 5 v rest _ (omega arith) h refl
marker_bytes-Reads fl (Marker.map none) h =
    λ rest. reference_marker-indefinite fl 5 rest _ (omega arith) (omega arith) refl
marker_bytes-Reads fl Marker.false h =
    λ rest. unfold reference_marker slow_match simple_or_float in refl
marker_bytes-Reads fl Marker.true h =
    λ rest. unfold reference_marker slow_match simple_or_float in refl
marker_bytes-Reads fl Marker.null h =
    λ rest. unfold reference_marker slow_match simple_or_float in refl
marker_bytes-Reads fl Marker.undefined h =
    λ rest. unfold reference_marker slow_match simple_or_float in refl
marker_bytes-Reads fl (Marker.simple v) h = λ rest. simple_bytes-Reads fl v h rest
marker_bytes-Reads fl (Marker.float v) h = tt

and-true : (b : Bool) → (b && true) ≡ b
and-true true = refl
and-true false = refl

reference_tags-uint :
    (fuel x : ℕ) (more seen : List ℕ) (shortest : Bool) (offset : ℕ)
    → IsU64 x
    → reference_tags (suc fuel) ((6 * 32 + minor_of x) ∷ (tail_of x ++ more)) seen shortest offset
      ≡ reference_tags fuel more (seen ++ (x ∷ [])) shortest (offset + 1 + length (tail_of x))
unfolding reference_tags
reference_tags-uint fuel x more seen shortest offset h =
    let (a, b) = type_byte_parts 6 (minor_of x) (omega (arith, minor_of-le x)) in
    rw (a, reference_tags)
      (rw (b, parse_uint_minor-tail_of x more h, and-true shortest)
        (rw (drop-append_length (tail_of x) more)))

-- The tags that `emit_tag` writes are read back, and the loop stops at the first other byte.
pub tags_bytes-Reads :
    (ts : List ℕ) (k : ℕ) (t : ℕ) (rest seen : List ℕ) (shortest : Bool) (offset : ℕ)
    → All IsU64 ts
    → (t / 32 == 6) ≡ false
    → reference_tags (suc (length ts + k)) (tags_bytes ts ++ (t ∷ rest)) seen shortest offset
      ≡ ok (seen ++ ts, shortest, offset + length (tags_bytes ts))
unfolding tags_bytes
tags_bytes-Reads [] k t rest seen shortest offset h e =
    unfold reference_tags in rw (e, append-nil, add-zero, reference_tags)
tags_bytes-Reads (x ∷ ts) k t rest seen shortest offset (hx, hts) e =
    let more = tags_bytes ts ++ (t ∷ rest) in
    let reach : offset + 1 + length (tail_of x) + length (tags_bytes ts)
        ≡ offset + suc (length (tail_of x ++ tags_bytes ts)) =
      omega (arith, length-append (tail_of x) (tags_bytes ts)) in
    rw (append_assoc (tail_of x) (tags_bytes ts) (t ∷ rest), add.suc (length ts) k)
      (reference_tags-uint (suc (length ts + k)) x more seen shortest offset hx
        ∙ tags_bytes-Reads ts k t rest (seen ++ (x ∷ [])) shortest (offset + 1 + length (tail_of x))
            hts e
        ∙ rw (append_assoc seen (x ∷ []) ts, reach))
