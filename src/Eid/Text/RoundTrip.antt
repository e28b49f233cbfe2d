-- ===== src/Eid/Text/RoundTrip.antt =====
-- bpv7/src/eid: the text of a node identifier is parsed as that node identifier.
use hardy.Prelude.{
  ℕ, ◌<◌, ◌≤◌, ◌≡◌, ◌≢◌, refl, ◌∙◌, sym, ap, Bool, true, false, ◌==◌, ltb, none, some, [], ◌∷◌,
  ◌++◌, all, arith, Bool-cases, inl, inr, length,
}
use hardy.Eid.{Str, u32_max, IpnNodeId, NodeId, Eid, try_node_id}
use mathlib.Core.List.{append-nil}
use hardy.Eid.Text.{
  zero_char, dot, slash, bang, ipn_prefix, dtn_prefix, digits, decimal, to_string, is_digit, stops,
  dot_uint, ipn_of_parts, parse_ipn_parts, parse_local_node, parse_ipn, is_plain, is_regname,
  is_visible, TextCrates, parse_dtn_parts, parse_dtn, parse_eid, from_str,
}
use hardy.Eid.Text.Numbers.{all-append, decimal_digits}

-- The node identifiers whose text is parsed as they are: the numbers are `u32`, under the allocator 0
-- neither 0 nor the last, which stand for other endpoints, and a name needs no `%`.
abbrev pub IsPrintable : NodeId → Type 0
IsPrintable NodeId.local_node = Unit
IsPrintable (NodeId.ipn ipn) =
    (ipn.allocator_id ≤ u32_max)
    × (ipn.node_number ≤ u32_max)
    × (ipn.allocator_id ≡ 0 → (ipn.node_number ≢ 0) × (ipn.node_number ≢ u32_max))
IsPrintable (NodeId.dtn dtn) = all dtn.node_name is_plain ≡ true

module _ (crates : TextCrates) where
  -- A text that starts with a digit is not that of the local node.
  not_bang :
      (ds rest : Str)
      → all ds is_digit ≡ true
      → crates.literal (bang ∷ dot ∷ []) (ds ++ (dot ∷ rest)) ≡ none
  not_bang [] rest h = crates.literal_other bang dot (dot ∷ []) rest refl
  not_bang (c ∷ cs) rest h =
      crates.literal_other bang c (dot ∷ []) (cs ++ (dot ∷ rest)) (ground arith)

  -- A number behind a point, ".0" at the end, and no point
  dot_part :
      (n : ℕ) (rest : Str)
      → n ≤ u32_max
      → stops is_digit rest ≡ true
      → dot_uint crates (dot ∷ (decimal n ++ rest)) ≡ some (n, rest)
  unfolding dot_uint
  dot_part n rest h e =
      rw (crates.literal_same (dot ∷ []) (decimal n ++ rest)) (crates.dec_uint_reads n rest h e)

  decimal_zero : decimal 0 ≡ zero_char ∷ []
  unfolding digits
  decimal_zero = refl

  zero_part : crates.dec_uint (zero_char ∷ []) ≡ some (0, [])
  zero_part = rw (decimal_zero, append-nil) at (crates.dec_uint_reads 0 [] (omega arith) refl)

  last_part : dot_uint crates (dot ∷ zero_char ∷ []) ≡ some (0, [])
  unfolding dot_uint
  last_part = rw (crates.literal_same (dot ∷ []) (zero_char ∷ [])) zero_part

  no_third : dot_uint crates [] ≡ none
  unfolding dot_uint
  no_third = rw (crates.literal_end dot []) refl

  two_numbers :
      (n : ℕ)
      → n ≤ u32_max
      → n ≢ 0
      → n ≢ u32_max
      → parse_ipn crates (decimal n ++ (dot ∷ zero_char ∷ []))
        ≡ some (Eid.ipn (record { allocator_id = 0; node_number = n }) 0, [])
  unfolding parse_ipn parse_local_node parse_ipn_parts ipn_of_parts
  two_numbers n h p q =
      let a : (n == 0) ≡ false = ground arith in
      let b : (n == u32_max) ≡ false = ground arith in
      rw
        (
          not_bang (decimal n) (zero_char ∷ []) (decimal_digits n h),
          crates.dec_uint_reads n (dot ∷ zero_char ∷ []) h refl,
          last_part,
          no_third,
          a,
          b,
        )
        refl

  three_numbers :
      (a n : ℕ)
      → a ≤ u32_max
      → n ≤ u32_max
      → a ≢ 0
      → parse_ipn crates (decimal a ++ (dot ∷ (decimal n ++ (dot ∷ zero_char ∷ []))))
        ≡ some (Eid.ipn (record { allocator_id = a; node_number = n }) 0, [])
  unfolding parse_ipn parse_local_node parse_ipn_parts ipn_of_parts
  three_numbers a n h k p =
      let z : (a == 0) ≡ false = ground arith in
      rw
        (
          not_bang (decimal a) (decimal n ++ (dot ∷ zero_char ∷ [])) (decimal_digits a h),
          crates.dec_uint_reads a (dot ∷ (decimal n ++ (dot ∷ zero_char ∷ []))) h refl,
          dot_part n (dot ∷ zero_char ∷ []) k refl,
          last_part,
          z,
        )
        refl

  regname_plain : (v : Str) → all v is_plain ≡ true → all v is_regname ≡ true
  regname_plain [] h = refl
  regname_plain (c ∷ v) h = ground (arith, regname_plain v)

  dtn_text :
      (name : Str)
      → all name is_plain ≡ true
      → parse_dtn crates (slash ∷ slash ∷ (name ++ (slash ∷ [])))
        ≡ some (Eid.dtn (record { node_name = name }) [], [])
  unfolding parse_dtn parse_dtn_parts
  dtn_text name h =
      rw
        (
          crates.literal_other 110 slash (111 ∷ 110 ∷ 101 ∷ []) (slash ∷ (name ++ (slash ∷ [])))
              refl,
          crates.literal_same (slash ∷ slash ∷ []) (name ++ (slash ∷ [])),
          crates.take_while_run is_regname name (slash ∷ []) (regname_plain name h) refl,
          crates.decode_plain name h,
          crates.literal_same (slash ∷ []) [],
          crates.take_while_run is_visible [] [] refl refl,
        )
        refl

  ipn_text :
      (input : Str) (e : Eid)
      → parse_ipn crates input ≡ some (e, [])
      → from_str crates (ipn_prefix ++ input) ≡ try_node_id e
  unfolding from_str parse_eid
  ipn_text input e h =
      rw
        (
          crates.literal_other 100 105 (116 ∷ 110 ∷ 58 ∷ []) (112 ∷ 110 ∷ 58 ∷ input) refl,
          crates.literal_same ipn_prefix input,
          h,
        )
        refl

  local_text : parse_ipn crates (bang ∷ dot ∷ zero_char ∷ []) ≡ some (Eid.local_node 0, [])
  unfolding parse_ipn parse_local_node
  local_text = rw (crates.literal_same (bang ∷ dot ∷ []) (zero_char ∷ []), zero_part) refl

  ipn_string :
      (ipn : IpnNodeId)
      → IsPrintable (NodeId.ipn ipn)
      → from_str crates (to_string (NodeId.ipn ipn)) ≡ some (NodeId.ipn ipn)
  unfolding to_string
  ipn_string ipn (h, k, m) = elim (Bool-cases (ipn.allocator_id == 0)) [
    | inl q ↦
        let zero_id : ipn.allocator_id ≡ 0 = ground arith in
        let n = m zero_id in
        rw q (
          ipn_text _ _ (two_numbers ipn.node_number k n.0 n.1)
          ∙ unfold try_node_id in
            ap (λ a. some (NodeId.ipn (record { allocator_id = a; node_number = ipn.node_number })))
              (sym zero_id))
    | inr q ↦ rw q (
        ipn_text _ _ (three_numbers ipn.allocator_id ipn.node_number h k (ground arith))
        ∙ unfold try_node_id in refl)
  ]

  -- The text of a node identifier is parsed as that node identifier: for the local node, for the numbers that are `u32` and under the allocator 0 neither 0 nor the last, and for the names of the bytes that a name may have but for `%`, over crates that read and decode as they document.
  pub from_str-to_string : (n : NodeId) → IsPrintable n → from_str crates (to_string n) ≡ some n
  from_str-to_string NodeId.local_node h =
      unfold to_string in
      ipn_text (bang ∷ dot ∷ zero_char ∷ []) _ local_text ∙ unfold try_node_id in refl
  from_str-to_string (NodeId.ipn ipn) h = ipn_string ipn h
  from_str-to_string (NodeId.dtn dtn) h =
      unfold to_string from_str parse_eid in
      rw
        (
          crates.literal_same dtn_prefix (slash ∷ slash ∷ (dtn.node_name ++ (slash ∷ []))),
          dtn_text dtn.node_name h,
        )
        (unfold try_node_id in refl)

-- The text is ASCII and not empty.
abbrev pub is_ascii : ℕ → Bool
is_ascii c = ltb c 0x80

digits_ascii : (ds : Str) → all ds is_digit ≡ true → all ds is_ascii ≡ true
digits_ascii [] h = refl
digits_ascii (d ∷ ds) h = ground (arith, digits_ascii ds)

plain_ascii : (v : Str) → all v is_plain ≡ true → all v is_ascii ≡ true
plain_ascii [] h = refl
plain_ascii (c ∷ v) h = ground (arith, plain_ascii v)

pub to_string_ascii : (n : NodeId) → IsPrintable n → all (to_string n) is_ascii ≡ true
unfolding to_string
to_string_ascii NodeId.local_node h = refl
to_string_ascii (NodeId.ipn ipn) (h, k, m) =
    let a = digits_ascii (decimal ipn.allocator_id) (decimal_digits ipn.allocator_id h) in
    let b = digits_ascii (decimal ipn.node_number) (decimal_digits ipn.node_number k) in
    let tail = all-append is_ascii (decimal ipn.node_number) (dot ∷ zero_char ∷ []) b refl in
    elim (Bool-cases (ipn.allocator_id == 0)) [
      | inl q ↦ rw q tail
      | inr q ↦ rw q (
          all-append is_ascii (decimal ipn.allocator_id)
            (dot ∷ (decimal ipn.node_number ++ (dot ∷ zero_char ∷ []))) a tail)
    ]
to_string_ascii (NodeId.dtn dtn) h =
    all-append is_ascii dtn.node_name (slash ∷ []) (plain_ascii dtn.node_name h) refl

pub to_string_filled : (n : NodeId) → 0 < length (to_string n)
unfolding to_string
to_string_filled NodeId.local_node = omega arith
to_string_filled (NodeId.ipn ipn) = elim (Bool-cases (ipn.allocator_id == 0)) [
  | inl q ↦ rw q (omega arith)
  | inr q ↦ rw q (omega arith)
]
to_string_filled (NodeId.dtn dtn) = omega arith
