-- ===== src/Eid/Text/Runs.antt =====
-- bpv7/src/eid: texts of concrete node identifiers.
use hardy.Prelude.{ℕ, ◌≡◌, refl, true, Option, none, some, List, [], ◌∷◌, all, arith}
use hardy.Eid.{NodeId, try_node_id}
use hardy.Eid.Text.{
  to_string, digits, from_str, parse_eid, parse_ipn, parse_local_node, parse_ipn_parts, dot_uint,
  ipn_of_parts, parse_dtn, parse_dtn_parts, is_plain,
}
use hardy.Eid.Text.Numbers.{crates, literal, take_while, dec_uint}
use hardy.Eid.Text.RoundTrip.{from_str-to_string}

abbrev node : NodeId
node = NodeId.ipn (record { allocator_id = 977; node_number = 40 })

-- "ipn:977.40.0"
node_text : to_string node ≡ 105 ∷ 112 ∷ 110 ∷ 58 ∷ 57 ∷ 55 ∷ 55 ∷ 46 ∷ 52 ∷ 48 ∷ 46 ∷ 48 ∷ []
unfolding to_string digits
node_text = refl

from_str-to_string_example : from_str crates (to_string node) ≡ some node
from_str-to_string_example = from_str-to_string crates node (omega arith, omega arith, λ e. cc)

-- The text of a node with the number 0 is that of the null endpoint, which is no node.
zero_text :
    from_str crates (to_string (NodeId.ipn (record { allocator_id = 0; node_number = 0 }))) ≡ none
unfolding to_string digits from_str parse_eid literal parse_ipn parse_local_node parse_ipn_parts
    dec_uint dot_uint ipn_of_parts try_node_id
zero_text = refl

-- A name with a `%` in it is displayed as it is, and where "a%41" is decoded to "aA", another is read.
percent_text :
    (decode : List ℕ → Option (List ℕ))
    (plain : (v : List ℕ) → all v is_plain ≡ true → decode v ≡ some v)
    → decode (97 ∷ 37 ∷ 52 ∷ 49 ∷ []) ≡ some (97 ∷ 65 ∷ [])
    → from_str
        (record crates { decode = decode; decode_plain = plain })
        (to_string (NodeId.dtn (record { node_name = 97 ∷ 37 ∷ 52 ∷ 49 ∷ [] })))
      ≡ some (NodeId.dtn (record { node_name = 97 ∷ 65 ∷ [] }))
unfolding to_string from_str parse_eid literal parse_dtn parse_dtn_parts take_while try_node_id
percent_text decode plain e = rw e refl
