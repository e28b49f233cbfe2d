-- ===== src/Cbor/Head/Shortest.antt =====
-- The flag of `Head::from_cbor`: a head that it reports as shortest is in its canonical encoding.
use mathlib.Core.List.{append_assoc, append-nil}
use native.Mathlib.Nat.{add-zero}
use hardy.Prelude.{
  ℕ, zero, suc, ◌+◌, ◌*◌, ◌/◌, ◌%◌, ◌^◌, ◌≤◌, ◌<◌, ◌≡◌, ◌≢◌, refl, ap, ◌∙◌, sym, List, [], ◌∷◌,
  ◌++◌, Bool, true, ◌&&◌, none, some, arith, leb, ◌==◌, length, length-append, length-take,
  length-of_drop, drop-append_length, take-append_add, take, drop, take-append-drop, Bool-cases,
  inl, inr,
}
use hardy.Cbor.Item.{Marker, Head, Result, ok, err, panic, stuck, ◌>>=◌, >>=-eq_ok}
use hardy.Cbor.Bytes.{All, IsByte, IsU64, All-drop}
use hardy.Cbor.Minor.{parse_uint_minor}
use hardy.Cbor.Minor.Laws.{minor_of, tail_of, parse_uint_minor-eq_ok}
use hardy.Cbor.Head.{Floats, slow_match, simple_or_float, definite, indefinite, from_cbor}
use hardy.Cbor.Head.Reference.{reference_tags, reference_marker, reference, from_cbor-eq_reference}
use hardy.Cbor.Head.Canonical.{marker_bytes, uint_bytes, tags_bytes}

definite-bytes :
    {F : Type 0} (major v : ℕ) (m : Marker F)
    → definite major v ≡ ok m
    → marker_bytes m ≡ some (uint_bytes major v)
unfolding marker_bytes
definite-bytes major v m e = ground arith

indefinite-bytes :
    {F : Type 0} (major : ℕ) (m : Marker F)
    → indefinite major ≡ ok m
    → marker_bytes m ≡ some (major * 32 + 31, [])
unfolding marker_bytes
indefinite-bytes major m e = ground arith

simple_or_float-bytes :
    (fl : Floats) (minor : ℕ) (shortest : Bool) (input : List ℕ) (m : Marker fl.F64) (n : ℕ)
    → simple_or_float fl minor shortest input ≡ ok (m, true, n)
    → marker_bytes m ≢ none
    → (shortest ≡ true)
      × (marker_bytes m ≡ some (7 * 32 + minor, take n input))
      × (n ≤ length input)
unfolding simple_or_float marker_bytes
simple_or_float-bytes fl minor shortest [] m n e f = ground arith
simple_or_float-bytes fl minor shortest (b ∷ input) m n e f = ground arith

and-true_inv : (a b : Bool) → (a && b) ≡ true → (a ≡ true) × (b ≡ true)
and-true_inv a b h = ground arith

-- A definite head, with what its integer and its marker were computed to.
definite_head-bytes :
    {F : Type 0} (major minor : ℕ) (shortest : Bool) (input : List ℕ) (m : Marker F) (n : ℕ)
    (r : Result (ℕ × Bool × ℕ)) (d : ℕ → Result (Marker F))
    → parse_uint_minor minor input ≡ r
    → ((v : ℕ) → definite major v ≡ d v)
    → ◌≡◌ {A = Result (Marker F × Bool × ℕ)}
        (do (v, s, len) ← r; m' ← d v; ok (m', shortest && s, len))
        (ok (m, true, n))
    → All IsByte input
    → (shortest ≡ true)
      × (marker_bytes m ≡ some (major * 32 + minor, take n input))
      × (n ≤ length input)
definite_head-bytes major minor shortest input m n (ok (v, s, len)) d p q e h =
    let (m', dm, r) = >>=-eq_ok (d v) _ e in
    ground (
      arith,
      q v,
      definite-bytes major v m,
      and-true_inv shortest s,
      parse_uint_minor-eq_ok minor input v n,
    )
definite_head-bytes major minor shortest input m n (err x) d p q e h = cc
definite_head-bytes major minor shortest input m n panic d p q e h = cc
definite_head-bytes major minor shortest input m n stuck d p q e h = cc

indefinite_head-bytes :
    {F : Type 0} (major : ℕ) (shortest : Bool) (input : List ℕ) (m : Marker F) (n : ℕ)
    → ◌≡◌ {A = Result (Marker F × Bool × ℕ)}
        (do m' ← indefinite major; ok (m', shortest, 0))
        (ok (m, true, n))
    → (shortest ≡ true)
      × (marker_bytes m ≡ some (major * 32 + 31, take n input))
      × (n ≤ length input)
indefinite_head-bytes major shortest input m n e =
    let (m', i, r) = >>=-eq_ok (indefinite major) _ e in ground (arith, indefinite-bytes major m)

slow_match-bytes :
    (fl : Floats) (major minor : ℕ) (shortest : Bool) (input : List ℕ) (m : Marker fl.F64) (n : ℕ)
    → slow_match fl major minor shortest input ≡ ok (m, true, n)
    → All IsByte input
    → marker_bytes m ≢ none
    → (shortest ≡ true)
      × (marker_bytes m ≡ some (major * 32 + minor, take n input))
      × (n ≤ length input)
unfolding slow_match
slow_match-bytes fl major minor shortest input m n e h f = elim (Bool-cases (leb major 5)) [
  | inl low ↦ elim (Bool-cases ((minor == 31) && leb 2 major)) [
    | inl endless ↦
        let is_31 : 31 ≡ minor = ground arith in
        rw (← is_31) (indefinite_head-bytes major shortest input m n (rw (low, endless) at e))
    | inr sized ↦
        definite_head-bytes major minor shortest input m n _ _ refl (λ v. refl)
          (rw (low, sized) at e) h
  ]
  | inr high ↦ elim (Bool-cases (major == 7)) [
    | inl seven ↦
        let is_7 : 7 ≡ major = ground arith in
        rw (← is_7) (simple_or_float-bytes fl minor shortest input m n (rw (high, seven) at e) f)
    | inr six ↦ cc (rw (high, six) at e)
  ]
]

reference_marker-bytes :
    (fl : Floats) (t : ℕ) (input : List ℕ) (shortest : Bool) (m : Marker fl.F64) (n : ℕ)
    → reference_marker fl (t ∷ input) shortest ≡ ok (m, true, n)
    → All IsByte input
    → marker_bytes m ≢ none
    → (shortest ≡ true) × (marker_bytes m ≡ some (t, take n input)) × (n ≤ length input)
unfolding reference_marker
reference_marker-bytes fl t input shortest m n e h f =
    let whole : t / 32 * 32 + t % 32 ≡ t = omega arith in
    rw whole at (slow_match-bytes fl (t / 32) (t % 32) shortest input m n e h f)

-- The tags that the loop adds to `seen` between two offsets, their encoding, and what is behind it.
record TagsRead (input seen tags : List ℕ) (offset end : ℕ) (ts rest : List ℕ) : Type 0 where
  appended : tags ≡ seen ++ ts
  bytes : input ≡ tags_bytes ts ++ rest
  reached : end ≡ offset + length (tags_bytes ts)

no_tags :
    (input seen : List ℕ) (shortest : Bool) (offset : ℕ) (tags : List ℕ) (end : ℕ)
    → ◌≡◌ {A = Result (List ℕ × Bool × ℕ)} (ok (seen, shortest, offset)) (ok (tags, true, end))
    → (shortest ≡ true) × TagsRead input seen tags offset end [] input
unfolding tags_bytes
no_tags input seen shortest offset tags end e =
    (cc e, record { appended = rw append-nil (cc e); bytes = refl; reached = rw add-zero (cc e) })

one_tag :
    (m tag o : ℕ) (input seen tags : List ℕ) (offset end : ℕ) (ts rest : List ℕ)
    → (m / 32 == 6) ≡ true
    → (m % 32 ≡ minor_of tag) × (take o input ≡ tail_of tag) × (o ≤ length input) × IsU64 tag
    → TagsRead (drop o input) (seen ++ (tag ∷ [])) tags (offset + 1 + o) end ts rest
    → TagsRead (m ∷ input) seen tags offset end (tag ∷ ts) rest
unfolding tags_bytes
one_tag m tag o input seen tags offset end ts rest six (a, b, c, _) x =
    let byte : m ≡ 6 * 32 + minor_of tag = ground arith in
    let split : input ≡ tail_of tag ++ (tags_bytes ts ++ rest) =
      cc (take-append-drop o input, b, x.bytes) in
    record {
      appended = x.appended ∙ append_assoc seen (tag ∷ []) ts;
      bytes = cc (byte, split, append_assoc (tail_of tag) (tags_bytes ts) rest);
      reached = omega (
        arith,
        x.reached,
        ap length b,
        length-take o input,
        length-append (tail_of tag) (tags_bytes ts),
      );
    }

behind_tag :
    (m tag o : ℕ) (input seen : List ℕ) (shortest s : Bool) (offset : ℕ) (tags : List ℕ) (end : ℕ)
    → (m / 32 == 6) ≡ true
    → parse_uint_minor (m % 32) input ≡ ok (tag, s, o)
    → All IsByte input
    → ((shortest && s) ≡ true)
      × ((ts : List ℕ) × (rest : List ℕ) × TagsRead
            (drop o input)
            (seen ++ (tag ∷ []))
            tags
            (offset + 1 + o)
            end
            ts
            rest)
    → (shortest ≡ true)
      × ((ts : List ℕ) × (rest : List ℕ) × TagsRead (m ∷ input) seen tags offset end ts rest)
behind_tag m tag o input seen shortest s offset tags end six p h (flag, (ts, rest, x)) =
    let (f, g) = and-true_inv shortest s flag in
    let shape = parse_uint_minor-eq_ok (m % 32) input tag o (cc (p, g)) h in
    (f, (tag ∷ ts, rest, one_tag m tag o input seen tags offset end ts rest six shape x))

reference_tags-TagsRead :
    (fuel : ℕ) (input seen : List ℕ) (shortest : Bool) (offset : ℕ) (tags : List ℕ) (end : ℕ)
    → reference_tags fuel input seen shortest offset ≡ ok (tags, true, end)
    → All IsByte input
    → (shortest ≡ true)
      × ((ts : List ℕ) × (rest : List ℕ) × TagsRead input seen tags offset end ts rest)
unfolding reference_tags
reference_tags-TagsRead zero input seen shortest offset tags end e h = cc
reference_tags-TagsRead (suc fuel) [] seen shortest offset tags end e h =
    let (flag, x) = no_tags [] seen shortest offset tags end e in (flag, ([], [], x))
reference_tags-TagsRead (suc fuel) (m ∷ input) seen shortest offset tags end e (hm, h) =
    elim (Bool-cases (m / 32 == 6)) [
      | inl six ↦
          let ((tag, s, o), p, r) =
            >>=-eq_ok (parse_uint_minor (m % 32) input) _ (rw (six, reference_tags) at e) in
          behind_tag m tag o input seen shortest s offset tags end six p h (
            reference_tags-TagsRead fuel (drop o input) (seen ++ (tag ∷ [])) (shortest && s)
              (offset + 1 + o) tags end r (All-drop IsByte o input h))
      | inr other ↦
          let (flag, x) =
            no_tags (m ∷ input) seen shortest offset tags end (rw (other, reference_tags) at e) in
          (flag, ([], m ∷ input, x))
    ]

-- The two parts of the decoder put together: tags up to `offset`, and a marker behind them.
head-bytes :
    (fl : Floats) (fuel : ℕ) (input rest tags : List ℕ) (shortest : Bool) (offset : ℕ)
    (m : Marker fl.F64) (len : ℕ)
    → reference_tags fuel input [] true 0 ≡ ok (tags, shortest, offset)
    → drop offset input ≡ rest
    → reference_marker fl rest shortest ≡ ok (m, true, len)
    → All IsByte input
    → marker_bytes m ≢ none
    → (b : ℕ × List ℕ) × (marker_bytes m ≡ some b)
      × (take (offset + 1 + len) input ≡ tags_bytes tags ++ (b.0 ∷ b.1))
      × (offset + 1 + len ≤ length input)
head-bytes fl fuel input [] tags shortest offset m len p d q h f = unfold reference_marker in cc
head-bytes fl fuel input (t ∷ rest) tags shortest offset m len p d q h f =
    let tail_IsByte : All IsByte (t ∷ rest) = rw d at (All-drop IsByte offset input h) in
    let (flag, marked, inside) =
      reference_marker-bytes fl t rest shortest m len q tail_IsByte.1 f in
    let (_, (ts, rest', x)) =
      reference_tags-TagsRead fuel input [] true 0 tags offset (cc (p, flag)) h in
    let same : tags ≡ ts = x.appended in
    let end : offset ≡ 0 + length (tags_bytes tags) = cc (x.reached, same) in
    let reached : offset ≡ length (tags_bytes tags) = omega (arith, end) in
    let bytes : input ≡ tags_bytes tags ++ rest' = cc (x.bytes, same) in
    let behind : rest' ≡ t ∷ rest =
      cc (drop-append_length (tags_bytes tags) rest', bytes, reached, d) in
    let whole : input ≡ tags_bytes tags ++ (t ∷ rest) = cc (bytes, behind) in
    let split : offset + 1 + len ≡ length (tags_bytes tags) + suc len = omega (arith, reached) in
    (
      (t, take len rest),
      marked,
      cc (split, whole, take-append_add (tags_bytes tags) (t ∷ rest) (suc len)),
      omega (arith, length-of_drop input offset t rest d),
    )

-- `head-bytes` with the values that the two binds of `reference` pass on.
parts-bytes :
    (fl : Floats) (fuel : ℕ) (input tags : List ℕ) (m : Marker fl.F64) (n : ℕ) (tags' : List ℕ)
    (shortest : Bool) (offset : ℕ) (m' : Marker fl.F64) (s : Bool) (len : ℕ)
    → reference_tags fuel input [] true 0 ≡ ok (tags', shortest, offset)
    → reference_marker fl (drop offset input) shortest ≡ ok (m', s, len)
    → ◌≡◌ {A = Result (Head fl.F64 × Bool × ℕ)}
        (ok (record { tags = tags'; marker = m' }, s, offset + 1 + len))
        (ok (record { tags = tags; marker = m }, true, n))
    → All IsByte input
    → marker_bytes m ≢ none
    → (b : ℕ × List ℕ) × (marker_bytes m ≡ some b)
      × (take n input ≡ tags_bytes tags ++ (b.0 ∷ b.1))
      × (n ≤ length input)
parts-bytes fl fuel input tags m n tags' shortest offset m' s len p q r h f =
    let end : offset + 1 + len ≡ n = cc r in
    rw (← end) (
      head-bytes fl fuel input (drop offset input) tags shortest offset m len (cc (p, r)) refl
        (cc (q, r)) h f)

-- What `Head::from_cbor` reports as shortest, of less than 2^63 bytes, is the canonical encoding of what it read, unless that
-- is a float: the bytes that it consumed are those of the tags and of the marker in shortest form.
pub from_cbor-shortest :
    (fl : Floats) (input tags : List ℕ) (m : Marker fl.F64) (n : ℕ)
    → length input < 2 ^ 63
    → All IsByte input
    → from_cbor fl input ≡ ok (record { tags = tags; marker = m }, true, n)
    → marker_bytes m ≢ none
    → (b : ℕ × List ℕ) × (marker_bytes m ≡ some b)
      × (take n input ≡ tags_bytes tags ++ (b.0 ∷ b.1))
      × (n ≤ length input)
unfolding reference
from_cbor-shortest fl input tags m n small h e f =
    let ((tags', shortest, offset), p, r) =
      >>=-eq_ok (reference_tags (suc (length input)) input [] true 0) _
        (sym (from_cbor-eq_reference fl input small) ∙ e) in
    let ((m', s, len), q, r') = >>=-eq_ok (reference_marker fl (drop offset input) shortest) _ r in
    parts-bytes fl _ input tags m n tags' shortest offset m' s len p q r' h f
