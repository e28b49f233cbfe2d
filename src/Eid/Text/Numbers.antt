-- ===== src/Eid/Text/Numbers.antt =====
-- bpv7/src/eid/parse.rs: decimal numbers, and functions for what the parsers take from other crates.
use hardy.Prelude.{
  Option, none, ℕ, zero, suc, ◌+◌, ◌-◌, ◌*◌, ◌/◌, ◌%◌, ◌^◌, ◌<◌, ◌≤◌, ◌≡◌, refl, ◌∙◌, Bool, true,
  false, ◌&&◌, ◌==◌, leb, ltb, some, [], ◌∷◌, ◌++◌, all, if◌then◌else◌, arith, Bool-cases, inl, inr,
  length, length-append,
}
use native.Mathlib.Nat.{pow-suc}
use hardy.Eid.{Str, u32_max}
use hardy.Eid.Text.{zero_char, digits, decimal, is_digit, stops, TextCrates}

-- Functions for the crates winnow and percent_encoding: a literal, the longest run of bytes that pass a test, and `dec_uint` of a
-- `u32`, which reads no digit behind a leading zero
unfoldable pub literal : Str → Str → Option Str
literal [] input = some input
literal (c ∷ cs) [] = none
literal (c ∷ cs) (d ∷ input) = if c == d then literal cs input else none

unfoldable pub take_while : (ℕ → Bool) → Str → Str × Str
take_while p [] = ([], [])
take_while p (c ∷ cs) =
    let rest = take_while p cs in if p c then (c ∷ rest.0, rest.1) else ([], c ∷ cs)

unfoldable pub value : ℕ → Str → ℕ
value n [] = n
value n (c ∷ cs) = value (n * 10 + (c - zero_char)) cs

abbrev pub within : ℕ → Str → Option (ℕ × Str)
within n rest = if leb n u32_max then some (n, rest) else none

unfoldable pub dec_uint : Str → Option (ℕ × Str)
dec_uint [] = none
dec_uint (c ∷ cs) =
    if c == zero_char
    then some (0, cs)
    else if is_digit c
    then within (value 0 (c ∷ (take_while is_digit cs).0)) (take_while is_digit cs).1
    else none

value-append : (n : ℕ) (xs ys : Str) → value n (xs ++ ys) ≡ value (value n xs) ys
unfolding value
value-append n [] ys = refl
value-append n (x ∷ xs) ys = value-append (n * 10 + (x - zero_char)) xs ys

pub all-append :
    (p : ℕ → Bool) (xs ys : Str) → all xs p ≡ true → all ys p ≡ true → all (xs ++ ys) p ≡ true
all-append p [] ys h k = k
all-append p (x ∷ xs) ys h k = ground (arith, all-append p xs ys)

-- The text starts with a digit that is not zero.
abbrev pub leads : Str → Bool
leads [] = false
leads (c ∷ cs) = leb 49 c && leb c 57

leads-append : (xs ys : Str) → leads xs ≡ true → leads (xs ++ ys) ≡ true
leads-append [] ys h = cc
leads-append (x ∷ xs) ys h = h

-- What the digits of a number are, by the number of digits
record Digits (fuel n : ℕ) (ds : Str) : Type 0 where
  valued : value 0 ds ≡ n
  numeric : all ds is_digit ≡ true
  few : length ds ≤ fuel
  led : 0 < n → leads ds ≡ true

digits-Digits : (fuel n : ℕ) → n < 10 ^ fuel → 0 < n → Digits fuel n (digits fuel n)
unfolding digits
digits-Digits zero n h p = absurd (omega arith)
digits-Digits (suc fuel) n h p = elim (Bool-cases (ltb n 10)) [
  | inl q ↦ rw q (
      unfold value in
      record {
        valued = omega arith;
        numeric = ground arith;
        few = omega arith;
        led = λ p. ground arith;
      })
  | inr q ↦
      let r = digits-Digits fuel (n / 10) (ground (arith, pow-suc 10 fuel)) (ground arith) in
      rw q (record {
        valued =
            value-append 0 (digits fuel (n / 10)) ((zero_char + n % 10) ∷ [])
            ∙ rw r.valued (unfold value in omega arith);
        numeric = all-append is_digit (digits fuel (n / 10)) _ r.numeric (ground arith);
        few =
            omega (arith, r.few, length-append (digits fuel (n / 10)) ((zero_char + n % 10) ∷ []));
        led = λ p. leads-append (digits fuel (n / 10)) _ (r.led (ground arith));
      })
]

pub take_while-stops :
    (p : ℕ → Bool) (xs ys : Str)
    → all xs p ≡ true
    → stops p ys ≡ true
    → take_while p (xs ++ ys) ≡ (xs, ys)
unfolding take_while
take_while-stops p [] [] h k = refl
take_while-stops p [] (y ∷ ys) h k = ground arith
take_while-stops p (x ∷ xs) ys h k = ground (arith, take_while-stops p xs ys)

dec_uint-led :
    (n : ℕ) (ds rest : Str)
    → leads ds ≡ true
    → all ds is_digit ≡ true
    → value 0 ds ≡ n
    → n ≤ u32_max
    → stops is_digit rest ≡ true
    → dec_uint (ds ++ rest) ≡ some (n, rest)
unfolding dec_uint
dec_uint-led n [] rest l a v h e = cc
dec_uint-led n (c ∷ cs) rest l a v h e =
    let t = take_while-stops is_digit cs rest (ground arith) e in
    let other : (c == zero_char) ≡ false = ground arith in
    let numeric : is_digit c ≡ true = ground arith in
    let fits : leb n u32_max ≡ true = ground arith in rw (other, numeric, t, v, fits) refl

-- A `u32` is read back from its decimal form, where no digit follows.
pub dec_uint-decimal :
    (n : ℕ) (rest : Str)
    → n ≤ u32_max
    → stops is_digit rest ≡ true
    → dec_uint (decimal n ++ rest) ≡ some (n, rest)
dec_uint-decimal zero rest h e = unfold dec_uint digits in refl
dec_uint-decimal (suc n) rest h e =
    let d = digits-Digits 10 (suc n) (omega arith) (omega arith) in
    dec_uint-led (suc n) (decimal (suc n)) rest (d.led (omega arith)) d.numeric d.valued h e

pub decimal_digits : (n : ℕ) → n ≤ u32_max → all (decimal n) is_digit ≡ true
decimal_digits zero h = unfold digits in refl
decimal_digits (suc n) h = (digits-Digits 10 (suc n) (omega arith) (omega arith)).numeric

pub decimal_few : (n : ℕ) → n ≤ u32_max → length (decimal n) ≤ 10
decimal_few zero h = unfold digits in omega arith
decimal_few (suc n) h = (digits-Digits 10 (suc n) (omega arith) (omega arith)).few

pub literal-front : (p input : Str) → literal p (p ++ input) ≡ some input
unfolding literal
literal-front [] input = refl
literal-front (c ∷ cs) input =
    let same : (c == c) ≡ true = ground arith in rw same (literal-front cs input)

-- The functions behave as the parsers rely on, with a decoding that keeps every text.
abbrev pub crates : TextCrates
unfolding literal
crates = record {
  literal = literal;
  take_while = take_while;
  dec_uint = dec_uint;
  decode = λ v. some v;
  literal_same = literal-front;
  literal_other = λ c d p input h. rw h refl;
  literal_end = λ c p. refl;
  take_while_run = take_while-stops;
  dec_uint_reads = dec_uint-decimal;
  decode_plain = λ v h. refl;
}
