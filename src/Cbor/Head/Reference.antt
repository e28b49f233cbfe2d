-- ===== src/Cbor/Head/Reference.antt =====
-- `Head::from_cbor` without its path for nine bytes: a decoder that takes one byte after another.
use hardy.Prelude.{
  ℕ, zero, suc, ◌+◌, ◌/◌, ◌%◌, ◌^◌, ◌≤◌, ◌<◌, ◌≡◌, refl, ap, ◌∙◌, List, [], ◌∷◌, ◌++◌, Bool, true,
  false, ◌&&◌, Option, none, some, arith, ◌==◌, length, drop, ltb, lt→ltb, Bool-cases, inl, inr,
  get_elem?-of_drop, get_elem?-of_drop_nil, drop-suc_of_drop, drop-drop, length-of_drop,
}
use mathlib.Core.Path.{fun_ext}
use hardy.Cbor.Item.{Marker, Head, Result, ok, err, panic, stuck, ◌>>=◌, need_more_data}
use hardy.Cbor.Minor.{Bytes8, first_chunk9, parse_uint_minor, parse_uint_minor_fast}
use hardy.Cbor.Minor.Laws.{
  bytes_of, parse_uint_minor_fast-eq, parse_uint_minor-le, first_chunk9-eq_some,
}
use hardy.Cbor.Head.{
  Floats, checked_add, tags_loop, parse_tags, slow_match, fast_match, read_marker, from_cbor,
}

unfoldable pub reference_tags : ℕ → List ℕ → List ℕ → Bool → ℕ → Result (List ℕ × Bool × ℕ)
reference_tags zero input tags shortest offset = stuck
reference_tags (suc fuel) [] tags shortest offset = ok (tags, shortest, offset)
reference_tags (suc fuel) (m ∷ input) tags shortest offset = elim (m / 32 == 6) [
  | true ↦ do
    (tag, s, o) ← parse_uint_minor (m % 32) input
    reference_tags fuel (drop o input) (tags ++ (tag ∷ [])) (shortest && s) (offset + 1 + o)
  | false ↦ ok (tags, shortest, offset)
]

unfoldable pub reference_marker : (fl : Floats) → List ℕ → Bool → Result (Marker fl.F64 × Bool × ℕ)
reference_marker fl [] shortest = err (need_more_data 1)
reference_marker fl (m ∷ input) shortest = slow_match fl (m / 32) (m % 32) shortest input

unfoldable pub reference : (fl : Floats) → List ℕ → Result (Head fl.F64 × Bool × ℕ)
reference fl input = do
  (tags, shortest, offset) ← reference_tags (suc (length input)) input [] true 0
  (m, s, len) ← reference_marker fl (drop offset input) shortest
  ok (record { tags = tags; marker = m }, s, offset + 1 + len)

-- On a marker that the nine-byte path takes, the slow match does as well.
fast_match-eq_slow :
    (fl : Floats) (major minor : ℕ) (shortest : Bool) (c : Bytes8) (rest : List ℕ)
    → major ≤ 5
    → fast_match major minor shortest c ≡ slow_match fl major minor shortest (bytes_of c ++ rest)
unfolding fast_match slow_match
fast_match-eq_slow fl major minor shortest c rest h =
    rw (parse_uint_minor_fast-eq minor c rest) (ground arith)

first_chunk9-nil : first_chunk9 [] ≡ none
unfolding first_chunk9
first_chunk9-nil = refl

-- What the nine-byte path reads of a tag, the other path reads as well.
parse_fast-eq :
    (m : ℕ) (rest : List ℕ) (m' : ℕ) (c : Bytes8)
    → first_chunk9 (m ∷ rest) ≡ some (m', c)
    → (m' ≡ m) × (parse_uint_minor_fast (m' % 32) c ≡ parse_uint_minor (m % 32) rest)
parse_fast-eq m rest m' c f =
    let l = first_chunk9-eq_some (m ∷ rest) m' c f in
    (cc l, cc (l, parse_uint_minor_fast-eq (m' % 32) c (drop 9 (m ∷ rest))))

read_marker-eq :
    (fl : Floats) (input : List ℕ) (shortest : Bool) (offset : ℕ)
    → read_marker fl input shortest offset ≡ reference_marker fl (drop offset input) shortest
unfolding read_marker reference_marker
read_marker-eq fl input shortest offset = go (drop offset input) refl
  where
    at_byte :
        (m : ℕ) (rest : List ℕ)
        → drop offset input ≡ m ∷ rest
        → (o : Option (ℕ × Bytes8)) → first_chunk9 (m ∷ rest) ≡ o
        → read_marker fl input shortest offset ≡ slow_match fl (m / 32) (m % 32) shortest rest
    at_byte m rest e none f = rw (
      e,
      f,
      get_elem?-of_drop input offset m rest e,
      drop-suc_of_drop input offset m rest e,
      read_marker,
    )
    at_byte m rest e (some (m', c)) f =
        let l = first_chunk9-eq_some (m ∷ rest) m' c f in
        ground (
          arith,
          e,
          f,
          l,
          drop-suc_of_drop input offset m rest e,
          fast_match-eq_slow fl (m / 32) (m % 32) shortest c (drop 9 (m ∷ rest)),
        )

    go :
        (rest : List ℕ)
        → drop offset input ≡ rest
        → read_marker fl input shortest offset ≡ reference_marker fl rest shortest
    go [] e = rw (e, first_chunk9-nil, get_elem?-of_drop_nil input offset e, read_marker)
    go (m ∷ rest) e = at_byte m rest e (first_chunk9 (m ∷ rest)) refl

-- Both loops behind one tag that was read, given that they agree from then on.
module _ (fuel : ℕ) (input : List ℕ) (fits : length input < 2 ^ 63)
    (later : (tags : List ℕ) (shortest : Bool) (offset : ℕ)
      → offset ≤ length input
      → tags_loop fuel input tags shortest offset
        ≡ reference_tags fuel (drop offset input) tags shortest offset) where
  behind_tag :
      (tags : List ℕ) (shortest : Bool) (offset m : ℕ) (rest : List ℕ)
      → drop offset input ≡ m ∷ rest
      → (r : Result (ℕ × Bool × ℕ)) → parse_uint_minor (m % 32) rest ≡ r
      → (do
        (tag, s, o) ← r
        next ← checked_add (offset + 1) o
        tags_loop fuel input (tags ++ (tag ∷ [])) (shortest && s) next)
        ≡ (do
          (tag, s, o) ← r
          reference_tags fuel (drop o rest) (tags ++ (tag ∷ [])) (shortest && s) (offset + 1 + o))
  unfolding checked_add
  behind_tag tags shortest offset m rest e (ok (tag, s, o)) p =
      let room : offset + 1 + o ≤ length input = omega (
        arith,
        parse_uint_minor-le (m % 32) rest tag s o p,
        length-of_drop input offset m rest e,
      ) in
      let small : ltb (offset + 1 + o) (2 ^ 64) ≡ true = lt→ltb _ _ (omega arith) in
      rw small (
        later (tags ++ (tag ∷ [])) (shortest && s) (offset + 1 + o) room
        ∙ rw (← drop-drop (offset + 1) o input, drop-suc_of_drop input offset m rest e))
  behind_tag tags shortest offset m rest e (err x) p = refl
  behind_tag tags shortest offset m rest e panic p = refl
  behind_tag tags shortest offset m rest e stuck p = refl

  at_tag :
      (tags : List ℕ) (shortest : Bool) (offset m : ℕ) (rest : List ℕ)
      → drop offset input ≡ m ∷ rest
      → (o : Option (ℕ × Bytes8)) → first_chunk9 (m ∷ rest) ≡ o
      → tags_loop (suc fuel) input tags shortest offset
        ≡ reference_tags (suc fuel) (m ∷ rest) tags shortest offset
  unfolding tags_loop reference_tags
  at_tag tags shortest offset m rest e none f = elim (Bool-cases (m / 32 == 6)) [
    | inl tag ↦
        rw
          (
            e,
            f,
            get_elem?-of_drop input offset m rest e,
            tag,
            drop-suc_of_drop input offset m rest e,
            tags_loop,
            reference_tags,
          )
          (behind_tag tags shortest offset m rest e (parse_uint_minor (m % 32) rest) refl)
    | inr other ↦
        rw (e, f, get_elem?-of_drop input offset m rest e, other, tags_loop, reference_tags)
  ]
  at_tag tags shortest offset m rest e (some (m', c)) f =
      let (same, fast) = parse_fast-eq m rest m' c f in
      elim (Bool-cases (m / 32 == 6)) [
        | inl tag ↦
            rw (e, f, same, tag, fast, tags_loop, reference_tags)
              (behind_tag tags shortest offset m rest e (parse_uint_minor (m % 32) rest) refl)
        | inr other ↦ rw (e, f, same, other, tags_loop, reference_tags)
      ]

  at_end :
      (tags : List ℕ) (shortest : Bool) (offset : ℕ)
      → drop offset input ≡ []
      → tags_loop (suc fuel) input tags shortest offset ≡ ok (tags, shortest, offset)
  unfolding tags_loop
  at_end tags shortest offset e =
      rw (e, first_chunk9-nil, get_elem?-of_drop_nil input offset e, tags_loop)

  tags_loop-suc_eq :
      (tags : List ℕ) (shortest : Bool) (offset : ℕ) (rest : List ℕ)
      → drop offset input ≡ rest
      → tags_loop (suc fuel) input tags shortest offset
        ≡ reference_tags (suc fuel) rest tags shortest offset
  tags_loop-suc_eq tags shortest offset [] e =
      at_end tags shortest offset e ∙ unfold reference_tags in refl
  tags_loop-suc_eq tags shortest offset (m ∷ rest) e =
      at_tag tags shortest offset m rest e (first_chunk9 (m ∷ rest)) refl

tags_loop-eq :
    (fuel : ℕ) (input : List ℕ)
    → length input < 2 ^ 63
    → (tags : List ℕ) (shortest : Bool) (offset : ℕ) → offset ≤ length input
    → tags_loop fuel input tags shortest offset
      ≡ reference_tags fuel (drop offset input) tags shortest offset
tags_loop-eq zero input h tags shortest offset k = unfold tags_loop reference_tags in refl
tags_loop-eq (suc fuel) input h tags shortest offset k =
    tags_loop-suc_eq fuel input h (tags_loop-eq fuel input h) tags shortest offset
      (drop offset input) refl

-- On a slice, whose length is below 2^63, `Head::from_cbor` is the decoder that never takes the
-- nine-byte path: the same tags, marker, flag and length, and the same errors.
pub from_cbor-eq_reference :
    (fl : Floats) (input : List ℕ) → length input < 2 ^ 63 → from_cbor fl input ≡ reference fl input
unfolding from_cbor parse_tags reference
from_cbor-eq_reference fl input h =
    rw (tags_loop-eq (suc (length input)) input h [] true 0 (omega arith)) (
      ap (λ f. reference_tags (suc (length input)) input [] true 0 >>= f)
        (fun_ext λ t. rw (read_marker-eq fl input t.1 t.2)))
