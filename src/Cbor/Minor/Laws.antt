-- ===== src/Cbor/Minor/Laws.antt =====
-- `parse_uint_minor` against what `emit_uint_minor` of cbor/src/encode.rs writes.
use mathlib.Core.List.{append_assoc}
use hardy.Prelude.{
  some, drop, ℕ, ◌+◌, ◌*◌, ◌≤◌, ◌<◌, ◌≡◌, List, [], ◌∷◌, ◌++◌, Bool, true, arith, ltb, length,
  length-append, take-append_length, take, if◌then◌else◌,
}
use hardy.Cbor.Item.{ok}
use hardy.Cbor.Bytes.{
  All, IsByte, IsU64, to_be_bytes, length-to_be_bytes, from_be_bytes-to_be_bytes, read_word,
}
use hardy.Cbor.Encode.{Encoder, emit_uint_minor}
use hardy.Cbor.Minor.{first_chunk9, Bytes8, to_array, parse_uint_minor, parse_uint_minor_fast}

-- The shortest form of an integer: the minor of its type byte and the bytes behind it.
unfoldable pub minor_of : ℕ → ℕ
minor_of v =
    if ltb v 24
    then v
    else if ltb v 256
    then 24
    else if ltb v 65536
    then 25
    else if ltb v 4294967296
    then 26
    else 27

unfoldable pub tail_of : ℕ → List ℕ
tail_of v =
    if ltb v 24
    then []
    else if ltb v 256
    then v ∷ []
    else if ltb v 65536
    then to_be_bytes 2 v
    else if ltb v 4294967296
    then to_be_bytes 4 v
    else to_be_bytes 8 v

pub buffer-emit_uint_minor :
    (major v : ℕ) (e : Encoder)
    → major < 8
    → IsU64 v
    → (emit_uint_minor major v e).buffer ≡ e.buffer ++ ((major * 32 + minor_of v) ∷ tail_of v)
unfolding emit_uint_minor minor_of tail_of
buffer-emit_uint_minor major v e hm hv = ground (
  arith,
  append_assoc e.buffer ((major * 32 + 24) ∷ []) (v ∷ []),
  append_assoc e.buffer ((major * 32 + 25) ∷ []) (to_be_bytes 2 v),
  append_assoc e.buffer ((major * 32 + 26) ∷ []) (to_be_bytes 4 v),
  append_assoc e.buffer ((major * 32 + 27) ∷ []) (to_be_bytes 8 v),
)

to_array-append :
    (n v : ℕ) (rest : List ℕ) → to_array n (to_be_bytes n v ++ rest) ≡ ok (to_be_bytes n v)
unfolding to_array
to_array-append n v rest =
    let same : take n (to_be_bytes n v ++ rest) ≡ to_be_bytes n v =
      rw (length-to_be_bytes n v) at (take-append_length (to_be_bytes n v) rest) in
    ground (arith, same, length-append (to_be_bytes n v) rest, length-to_be_bytes n v)

pub parse_uint_minor-tail_of :
    (v : ℕ) (rest : List ℕ)
    → IsU64 v
    → parse_uint_minor (minor_of v) (tail_of v ++ rest) ≡ ok (v, true, length (tail_of v))
unfolding parse_uint_minor minor_of tail_of
parse_uint_minor-tail_of v rest h = ground (
  arith,
  to_array-append 2 v rest,
  to_array-append 4 v rest,
  to_array-append 8 v rest,
  from_be_bytes-to_be_bytes 2 v,
  from_be_bytes-to_be_bytes 4 v,
  from_be_bytes-to_be_bytes 8 v,
  length-to_be_bytes 2 v,
  length-to_be_bytes 4 v,
  length-to_be_bytes 8 v,
)

abbrev pub bytes_of : Bytes8 → List ℕ
bytes_of c = c.b0 ∷ c.b1 ∷ c.b2 ∷ c.b3 ∷ c.b4 ∷ c.b5 ∷ c.b6 ∷ c.b7 ∷ []

-- The variant on a fixed array reads what the slice version reads.
pub parse_uint_minor_fast-eq :
    (minor : ℕ) (c : Bytes8) (rest : List ℕ)
    → parse_uint_minor_fast minor c ≡ parse_uint_minor minor (bytes_of c ++ rest)
unfolding parse_uint_minor parse_uint_minor_fast to_array
parse_uint_minor_fast-eq minor c rest = ground arith

-- A minor that reads as shortest is the one that would be written.
pub parse_uint_minor-eq_ok :
    (minor : ℕ) (input : List ℕ) (v n : ℕ)
    → parse_uint_minor minor input ≡ ok (v, true, n)
    → All IsByte input
    → (minor ≡ minor_of v) × (take n input ≡ tail_of v) × (n ≤ length input) × IsU64 v
unfolding parse_uint_minor minor_of tail_of to_array
parse_uint_minor-eq_ok minor [] v n e h = ground arith
parse_uint_minor-eq_ok minor (b ∷ bs) v n e h =
    ground (arith, read_word 2 (b ∷ bs) h, read_word 4 (b ∷ bs) h, read_word 8 (b ∷ bs) h)

-- What is read is a `u64`, out of bytes that are there.
pub parse_uint_minor_bounds :
    (minor : ℕ) (input : List ℕ) (v : ℕ) (s : Bool) (n : ℕ)
    → parse_uint_minor minor input ≡ ok (v, s, n)
    → All IsByte input
    → (n ≤ length input) × IsU64 v
unfolding parse_uint_minor to_array
parse_uint_minor_bounds minor [] v s n e h = ground arith
parse_uint_minor_bounds minor (b ∷ bs) v s n e h =
    ground (arith, read_word 2 (b ∷ bs) h, read_word 4 (b ∷ bs) h, read_word 8 (b ∷ bs) h)

pub parse_uint_minor-le :
    (minor : ℕ) (input : List ℕ) (v : ℕ) (s : Bool) (n : ℕ)
    → parse_uint_minor minor input ≡ ok (v, s, n)
    → n ≤ length input
unfolding parse_uint_minor to_array
parse_uint_minor-le minor [] v s n e = ground arith
parse_uint_minor-le minor (b ∷ bs) v s n e = ground arith

pub first_chunk9-eq_some :
    (l : List ℕ) (m : ℕ) (c : Bytes8)
    → first_chunk9 l ≡ some (m, c)
    → l ≡ m ∷ (bytes_of c ++ drop 9 l)
unfolding first_chunk9
first_chunk9-eq_some (a ∷ b ∷ c ∷ d ∷ e ∷ f ∷ g ∷ h ∷ i ∷ l) m x p = ground arith
first_chunk9-eq_some _ m x p = ground arith
