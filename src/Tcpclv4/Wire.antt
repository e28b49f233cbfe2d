-- ===== src/Tcpclv4/Wire.antt =====
-- What tcpclv4/src/codec.rs uses of `BytesMut`, and the outcomes of its decoders.
pub mod Reads
pub mod Stable
pub mod Safe
pub mod Waits
use hardy.Prelude.{
  ℕ, zero, suc, List, [], ◌∷◌, Bool, true, false, ◌&&◌, Option, none, some, ltb, leb, ◌==◌, length,
  take, drop, if◌then◌else◌,
}
use hardy.Cbor.Bytes.{from_be_bytes}

-- `Error`, without the variant for the stream's own failures. What the two wrapped errors say of the
-- node id is left out.
pub data Error : Type 0 where
  invalid_message_type : ℕ → Error
  invalid_node_id_utf8 invalid_node_id invalid_extension_length : Error

-- `Result<Option<T>, Error>`: `more` is `Ok(None)`, and `done v` is `Ok(Some(v))`. `panic` is a read
-- behind the end of a buffer; `stuck` is no value of the program: the fuel of a loop ran out.
pub data Outcome (T : Type 0) : Type 0 where
  stuck panic more : Outcome T
  fail : Error → Outcome T
  done : T → Outcome T

-- Code that reads from a buffer, which it passes on.
abbrev pub Reader : Type 0 → Type 0
Reader T = List ℕ → Outcome T × List ℕ

abbrev pub and_then : {T U : Type 0} → Outcome T × List ℕ → (T → Reader U) → Outcome U × List ℕ
and_then (stuck, src) f = (stuck, src)
and_then (panic, src) f = (panic, src)
and_then (more, src) f = (more, src)
and_then (fail e, src) f = (fail e, src)
and_then (done v, src) f = f v src

infixl 5 ◌>>=◌ ◌>>◌
abbrev pub ◌>>=◌ : {T U : Type 0} → Reader T → (T → Reader U) → Reader U
◌>>=◌ m f src = and_then (m src) f

abbrev pub ◌>>◌ : {U : Type 0} → Reader (Unit {0}) → Reader U → Reader U
m >> k = m >>= λ _. k

abbrev pub return : {T : Type 0} → T → Reader T
return v src = (done v, src)

abbrev pub throw : {T : Type 0} → Error → Reader T
throw e src = (fail e, src)

abbrev pub out_of_fuel : {T : Type 0} → Reader T
out_of_fuel src = (stuck, src)

-- `if src.len() < n { return Ok(None) }`
unfoldable pub need : ℕ → Reader (Unit {0})
need n src = if ltb (length src) n then (more, src) else (done tt, src)

-- `BytesMut::split_to`
unfoldable pub split_to : ℕ → Reader (List ℕ)
split_to n src = if ltb (length src) n then (panic, src) else (done (take n src), drop n src)

-- `BytesMut::advance`
unfoldable pub advance : ℕ → Reader (Unit {0})
advance n = split_to n >>= λ _. return tt

-- `get_u8`, `get_u16`, `get_u32` and `get_u64`, for a width of `n` bytes
unfoldable pub get_uint : ℕ → Reader ℕ
get_uint n = split_to n >>= λ bs. return (from_be_bytes bs)

-- Code that runs on a clone of the buffer.
unfoldable pub on_clone : {T : Type 0} → Reader T → Reader T
on_clone m src = ((m src).0, src)

-- `std::str::from_utf8`: what may follow a first byte, as a count of bytes and the range of the next.
abbrev pub utf8_start : ℕ → Option (ℕ × ℕ × ℕ)
utf8_start b =
    if ltb b 0x80
    then some (0, 0, 0)
    else if ltb b 0xC2
    then none
    else if ltb b 0xE0
    then some (1, 0x80, 0xBF)
    else if b == 0xE0
    then some (2, 0xA0, 0xBF)
    else if b == 0xED
    then some (2, 0x80, 0x9F)
    else if ltb b 0xF0
    then some (2, 0x80, 0xBF)
    else if b == 0xF0
    then some (3, 0x90, 0xBF)
    else if ltb b 0xF4
    then some (3, 0x80, 0xBF)
    else if b == 0xF4
    then some (3, 0x80, 0x8F)
    else none

unfoldable pub utf8_from : ℕ → ℕ → ℕ → List ℕ → Bool
utf8_from k lo hi [] = k == 0
utf8_from zero lo hi (b ∷ bs) = elim (utf8_start b) [
  | none ↦ false
  | some (k, lo', hi') ↦ utf8_from k lo' hi' bs
]
utf8_from (suc k) lo hi (b ∷ bs) = leb lo b && leb b hi && utf8_from k 0x80 0xBF bs

unfoldable pub is_utf8 : List ℕ → Bool
unfolding utf8_from
is_utf8 bs = utf8_from 0 0 0 bs
