-- ===== src/Eid/Text.antt =====
-- bpv7/src/eid/mod.rs and bpv7/src/eid/parse.rs: the text forms of node identifiers and endpoints.
-- Texts are their bytes. A parser answers what it read and what is left, or none.
pub mod Numbers
pub mod RoundTrip
mod Runs
use hardy.Prelude.{
  ◌≤◌, ℕ, zero, suc, ◌+◌, ◌-◌, ◌*◌, ◌/◌, ◌%◌, Bool, true, false, ◌&&◌, ◌||◌, not, ◌==◌, leb, ltb,
  Option, none, some, List, [], ◌∷◌, ◌++◌, any, if◌then◌else◌, ◌≡◌, all,
}
use hardy.Eid.{Str, u32_max, IpnNodeId, DtnNodeId, NodeId, Eid, try_node_id}

abbrev pub zero_char : ℕ
zero_char = 48

abbrev pub dot : ℕ
dot = 46

abbrev pub slash : ℕ
slash = 47

abbrev pub bang : ℕ
bang = 33

-- "ipn:" and "dtn:"
abbrev pub ipn_prefix : Str
ipn_prefix = 105 ∷ 112 ∷ 110 ∷ 58 ∷ []

abbrev pub dtn_prefix : Str
dtn_prefix = 100 ∷ 116 ∷ 110 ∷ 58 ∷ []

-- `{}` of a `u32`, which has ten digits at most
unfoldable pub digits : ℕ → ℕ → Str
digits zero n = []
digits (suc fuel) n =
    let front = digits fuel (n / 10) in
    if ltb n 10 then (zero_char + n) ∷ [] else front ++ ((zero_char + n % 10) ∷ [])

abbrev pub decimal : ℕ → Str
decimal n = digits 10 n

-- `Display` of `IpnNodeId`, `DtnNodeId` and `NodeId`
abbrev pub ipn_to_string : IpnNodeId → Str
ipn_to_string ipn =
    if ipn.allocator_id == 0
    then ipn_prefix ++ (decimal ipn.node_number ++ (dot ∷ zero_char ∷ []))
    else ipn_prefix
      ++ (decimal ipn.allocator_id ++ (dot ∷ (decimal ipn.node_number ++ (dot ∷ zero_char ∷ []))))

unfoldable pub to_string : NodeId → Str
to_string NodeId.local_node = ipn_prefix ++ (bang ∷ dot ∷ zero_char ∷ [])
to_string (NodeId.ipn ipn) = ipn_to_string ipn
to_string (NodeId.dtn dtn) = dtn_prefix ++ (slash ∷ slash ∷ (dtn.node_name ++ (slash ∷ [])))

abbrev pub is_digit : ℕ → Bool
is_digit c = leb 48 c && leb c 57

-- The text does not go on with a byte that passes the test.
abbrev pub stops : (ℕ → Bool) → Str → Bool
stops p [] = true
stops p (c ∷ cs) = not (p c)

-- The bytes of a name other than `%`, and those with it
abbrev pub is_plain : ℕ → Bool
is_plain c =
    (leb 65 c && leb c 90)
    || ((leb 97 c && leb c 122)
        || (is_digit c
            || (c == 33
                || (c == 36
                    || ((leb 38 c && leb c 46)
                        || (c == 59 || (c == 61 || (c == 95 || c == 126))))))))

abbrev pub is_regname : ℕ → Bool
is_regname c = is_plain c || c == 37

abbrev pub is_visible : ℕ → Bool
is_visible c = leb 0x21 c && leb c 0x7E

-- What the parsers use of the crates winnow and percent_encoding, with their documented behaviour: a
-- literal, the longest run of bytes that pass a test, `dec_uint` of a `u32`, and
-- `percent_decode_str(v).decode_utf8()`
pub record TextCrates : Type 0 where
  pub literal : Str → Str → Option Str
  pub take_while : (ℕ → Bool) → Str → Str × Str
  pub dec_uint : Str → Option (ℕ × Str)
  pub decode : Str → Option Str
  pub literal_same : (p input : Str) → literal p (p ++ input) ≡ some input
  pub literal_other :
      (c d : ℕ) (p input : Str) → (c == d) ≡ false → literal (c ∷ p) (d ∷ input) ≡ none
  pub literal_end : (c : ℕ) (p : Str) → literal (c ∷ p) [] ≡ none
  pub take_while_run :
      (p : ℕ → Bool) (xs ys : Str)
      → all xs p ≡ true
      → stops p ys ≡ true
      → take_while p (xs ++ ys) ≡ (xs, ys)
  pub dec_uint_reads :
      (n : ℕ) (rest : Str)
      → n ≤ u32_max
      → stops is_digit rest ≡ true
      → dec_uint (decimal n ++ rest) ≡ some (n, rest)
  pub decode_plain : (v : Str) → all v is_plain ≡ true → decode v ≡ some v

-- The match of `parse_ipn_parts`; none is an error.
unfoldable pub ipn_of_parts : ℕ → ℕ → Option ℕ → Option Eid
ipn_of_parts a b none =
    if a == 0
    then (if b == 0 then some Eid.null else none)
    else if a == u32_max
    then some (Eid.local_node b)
    else some (Eid.ipn (record { allocator_id = 0; node_number = a }) b)
ipn_of_parts a b (some c) =
    if a == 0 && b == 0
    then (if c == 0 then some Eid.null else none)
    else if a == 0 && b == u32_max
    then some (Eid.local_node c)
    else some (Eid.ipn (record { allocator_id = a; node_number = b }) c)

abbrev pub with_rest {ℓ} : {A : Type ℓ} → Option A → Str → Option (A × Str)
with_rest none rest = none
with_rest (some a) rest = some (a, rest)

-- `alt`
abbrev pub or_else {ℓ} : {A : Type ℓ} → Option A → Option A → Option A
or_else none b = b
or_else (some a) b = some a

module _ (crates : TextCrates) where
  abbrev pub behind_dot : Option Str → Option (ℕ × Str)
  behind_dot none = none
  behind_dot (some rest) = crates.dec_uint rest

  -- `preceded(".", dec_uint)`
  unfoldable pub dot_uint : Str → Option (ℕ × Str)
  dot_uint input = behind_dot (crates.literal (dot ∷ []) input)

  -- Behind the second number: `opt(preceded(".", dec_uint))`, and the match
  abbrev pub third_part : ℕ → ℕ → Str → Option (ℕ × Str) → Option (Eid × Str)
  third_part a b rest none = with_rest (ipn_of_parts a b none) rest
  third_part a b rest (some (c, rest')) = with_rest (ipn_of_parts a b (some c)) rest'

  abbrev pub second_part : ℕ → Option (ℕ × Str) → Option (Eid × Str)
  second_part a none = none
  second_part a (some (b, rest)) = third_part a b rest (dot_uint rest)

  abbrev pub first_part : Option (ℕ × Str) → Option (Eid × Str)
  first_part none = none
  first_part (some (a, rest)) = second_part a (dot_uint rest)

  unfoldable pub parse_ipn_parts : Str → Option (Eid × Str)
  parse_ipn_parts input = first_part (crates.dec_uint input)

  abbrev pub local_part : Option (ℕ × Str) → Option (Eid × Str)
  local_part none = none
  local_part (some (n, rest)) = some (Eid.local_node n, rest)

  abbrev pub local_digits : Option Str → Option (Eid × Str)
  local_digits none = none
  local_digits (some rest) = local_part (crates.dec_uint rest)

  unfoldable pub parse_local_node : Str → Option (Eid × Str)
  parse_local_node input = local_digits (crates.literal (bang ∷ dot ∷ []) input)

  unfoldable pub parse_ipn : Str → Option (Eid × Str)
  parse_ipn input = or_else (parse_local_node input) (parse_ipn_parts input)

  -- `terminated(parse_regname, "/")`, and `parse_dtn_service_name` behind it
  abbrev pub dtn_service : DtnNodeId → Option Str → Option (Eid × Str)
  dtn_service node_name none = none
  dtn_service node_name (some rest) = some (
    Eid.dtn node_name (crates.take_while is_visible rest).0,
    (crates.take_while is_visible rest).1,
  )

  abbrev pub dtn_name : Option Str → Str → Option (Eid × Str)
  dtn_name none rest = none
  dtn_name (some name) rest =
      dtn_service (record { node_name = name }) (crates.literal (slash ∷ []) rest)

  unfoldable pub parse_dtn_parts : Str → Option (Eid × Str)
  parse_dtn_parts input =
      dtn_name (crates.decode (crates.take_while is_regname input).0)
        (crates.take_while is_regname input).1

  abbrev pub dtn_parts : Option Str → Option (Eid × Str)
  dtn_parts none = none
  dtn_parts (some rest) = parse_dtn_parts rest

  abbrev pub dtn_none : Option Str → Option (Eid × Str)
  dtn_none none = none
  dtn_none (some rest) = some (Eid.null, rest)

  -- "none", or "//" and the parts
  unfoldable pub parse_dtn : Str → Option (Eid × Str)
  parse_dtn input =
      or_else (dtn_none (crates.literal (110 ∷ 111 ∷ 110 ∷ 101 ∷ []) input))
        (dtn_parts (crates.literal (slash ∷ slash ∷ []) input))

  abbrev pub in_dtn : Option Str → Option (Eid × Str)
  in_dtn none = none
  in_dtn (some rest) = parse_dtn rest

  abbrev pub in_ipn : Option Str → Option (Eid × Str)
  in_ipn none = none
  in_ipn (some rest) = parse_ipn rest

  unfoldable pub parse_eid : Str → Option (Eid × Str)
  parse_eid input =
      or_else (in_dtn (crates.literal dtn_prefix input)) (in_ipn (crates.literal ipn_prefix input))

  -- The whole text is read, and the endpoint is that of a node.
  abbrev pub whole : Option (Eid × Str) → Option NodeId
  whole none = none
  whole (some (e, [])) = try_node_id e
  whole (some (e, c ∷ rest)) = none

  -- `FromStr for NodeId`, over `FromStr for Eid`
  unfoldable pub from_str : Str → Option NodeId
  from_str s = whole (parse_eid s)
