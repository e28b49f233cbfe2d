-- ===== src/Cbor/Minor.antt =====
-- The integers that follow a type byte: `parse_uint_minor` of cbor/src/decode/head.rs and its variant
-- on a fixed array.
pub mod Laws
use hardy.Prelude.{
  ℕ, ◌-◌, List, [], ◌∷◌, Bool, true, Option, none, some, ltb, ◌==◌, length, take, if◌then◌else◌,
}
use hardy.Cbor.Item.{Result, ok, err, ◌>>=◌, need_more_data, invalid_minor_value}
use hardy.Cbor.Bytes.{from_be_bytes}

-- `[u8; 8]`
pub record Bytes8 : Type 0 where
  pub b0 : ℕ
  pub b1 : ℕ
  pub b2 : ℕ
  pub b3 : ℕ
  pub b4 : ℕ
  pub b5 : ℕ
  pub b6 : ℕ
  pub b7 : ℕ

-- `first_chunk::<9>`, split into its first byte and the others
unfoldable pub first_chunk9 : List ℕ → Option (ℕ × Bytes8)
first_chunk9 (m ∷ b0 ∷ b1 ∷ b2 ∷ b3 ∷ b4 ∷ b5 ∷ b6 ∷ b7 ∷ _) =
    some (m, record { b0 = b0; b1 = b1; b2 = b2; b3 = b3; b4 = b4; b5 = b5; b6 = b6; b7 = b7 })
first_chunk9 _ = none

unfoldable pub to_array : ℕ → List ℕ → Result (List ℕ)
to_array n input =
    if ltb (length input) n then err (need_more_data (n - length input)) else ok (take n input)

unfoldable pub parse_uint_minor : ℕ → List ℕ → Result (ℕ × Bool × ℕ)
unfolding to_array
parse_uint_minor minor input =
    if minor == 24
    then elim input [ [] ↦ err (need_more_data 1) | val ∷ _ ↦ ok (val, ltb 23 val, 1) ]
    else if minor == 25
    then (do a ← to_array 2 input; ok (from_be_bytes a, ltb 255 (from_be_bytes a), 2))
    else if minor == 26
    then (do a ← to_array 4 input; ok (from_be_bytes a, ltb 65535 (from_be_bytes a), 4))
    else if minor == 27
    then (do a ← to_array 8 input; ok (from_be_bytes a, ltb 4294967295 (from_be_bytes a), 8))
    else if ltb minor 24
    then ok (minor, true, 0)
    else err (invalid_minor_value minor)

unfoldable pub parse_uint_minor_fast : ℕ → Bytes8 → Result (ℕ × Bool × ℕ)
parse_uint_minor_fast minor c =
    if ltb minor 24
    then ok (minor, true, 0)
    else if minor == 24
    then ok (c.b0, ltb 23 c.b0, 1)
    else if minor == 25
    then (let v = from_be_bytes (c.b0 ∷ c.b1 ∷ []) in ok (v, ltb 255 v, 2))
    else if minor == 26
    then (let v = from_be_bytes (c.b0 ∷ c.b1 ∷ c.b2 ∷ c.b3 ∷ []) in ok (v, ltb 65535 v, 4))
    else if minor == 27
    then (let v = from_be_bytes (c.b0 ∷ c.b1 ∷ c.b2 ∷ c.b3 ∷ c.b4 ∷ c.b5 ∷ c.b6 ∷ c.b7 ∷ []) in
        ok (v, ltb 4294967295 v, 8))
    else err (invalid_minor_value minor)
