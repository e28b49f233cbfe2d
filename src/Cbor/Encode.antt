-- ===== src/Cbor/Encode.antt =====
-- cbor/src/encode.rs: the encoder's buffer and what is pushed to it. A `usize` has 64 bits.
use hardy.Prelude.{
  ℕ, ◌+◌, ◌*◌, ◌%◌, ◌^◌, List, [], ◌∷◌, ◌++◌, Bool, Option, none, some, ltb, length, ◌==◌,
  if◌then◌else◌,
}
use hardy.Cbor.Bytes.{to_be_bytes}

pub record Encoder : Type 0 where
  pub buffer : List ℕ

pub record Range : Type 0 where
  pub start : ℕ
  pub end : ℕ

-- `Encoder::new`
abbrev pub new : Encoder
new = record { buffer = [] }

-- `Encoder::offset`
abbrev pub offset : Encoder → ℕ
offset e = length e.buffer

-- `Vec::push`, `Vec::extend`
abbrev pub extend : Encoder → List ℕ → Encoder
extend e bs = record { buffer = e.buffer ++ bs }

abbrev pub push : Encoder → ℕ → Encoder
push e b = extend e (b ∷ [])

-- `(major << 5) | minor` on a `u8`, for a minor of five bits
abbrev pub type_byte : ℕ → ℕ → ℕ
type_byte major minor = major * 32 % 256 + minor

unfoldable pub emit_extend : List ℕ → Encoder → Encoder × Range
emit_extend b e = let e' = extend e b in (e', record { start = offset e; end = offset e' })

-- The arms of the `match` are tried in order.
unfoldable pub emit_uint_minor : ℕ → ℕ → Encoder → Encoder
emit_uint_minor major val e =
    if ltb val 24
    then push e (type_byte major (val % 256))
    else if ltb val 256
    then push (push e (type_byte major 24)) (val % 256)
    else if ltb val 65536
    then extend (push e (type_byte major 25)) (to_be_bytes 2 (val % 2 ^ 16))
    else if ltb val 4294967296
    then extend (push e (type_byte major 26)) (to_be_bytes 4 (val % 2 ^ 32))
    else extend (push e (type_byte major 27)) (to_be_bytes 8 val)

unfoldable pub emit_tag : ℕ → Encoder → Encoder
unfolding emit_uint_minor
emit_tag tag e = emit_uint_minor 6 tag e

unfoldable pub emit_raw : List ℕ → Encoder → Encoder × Range
emit_raw bytes e = let e' = extend e bytes in (e', record { start = offset e; end = offset e' })

unfoldable pub emit_bytes : List ℕ → Encoder → Encoder × Range
unfolding emit_uint_minor emit_extend
emit_bytes value e = emit_extend value (emit_uint_minor 2 (length value % 2 ^ 64) e)

unfoldable pub emit_string : List ℕ → Encoder → Encoder × Range
unfolding emit_uint_minor emit_extend
emit_string value e = emit_extend value (emit_uint_minor 3 (length value % 2 ^ 64) e)

-- `ToCbor for u64`
unfoldable pub emit_u64 : ℕ → Encoder → Encoder
unfolding emit_uint_minor
emit_u64 v e = emit_uint_minor 0 v e

-- `ToCbor for bool`
unfoldable pub emit_bool : Bool → Encoder → Encoder
emit_bool b e = push e (type_byte 7 (if b then 21 else 20))

-- `ToCbor for Option<T>`, with the encoder of `T` as an argument
unfoldable pub emit_option {ℓ} :
    {A : Type ℓ} → (A → Encoder → Encoder) → Option A → Encoder → Encoder
emit_option emit (some value) e = emit value e
emit_option emit none e = push e (type_byte 7 23)

-- `ByteStream::new` and `TextStream::new`
unfoldable pub byte_stream_new : Encoder → Encoder
byte_stream_new e = push e (type_byte 2 31)

unfoldable pub text_stream_new : Encoder → Encoder
text_stream_new e = push e (type_byte 3 31)

-- `Sequence<D>`, without the encoder that it borrows
pub record Sequence : Type 0 where
  pub start : ℕ
  pub count : Option ℕ
  pub idx : ℕ

-- `Sequence::new`: `dim` is the const parameter `D`, 1 for an array and 2 for a map.
unfoldable pub sequence_new : ℕ → Option ℕ → Encoder → Encoder × Sequence
unfolding emit_uint_minor
sequence_new dim (some count) e = (
  emit_uint_minor (if dim == 1 then 4 else 5) (count % 2 ^ 64) e,
  record { start = offset e; count = some (count * dim); idx = 0 },
)
sequence_new dim none e = (
  push e (type_byte (if dim == 1 then 4 else 5) 31),
  record { start = offset e; count = none; idx = 0 },
)
