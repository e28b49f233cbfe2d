-- ===== src/Eid/Laws.antt =====
-- Equality of endpoint identifiers, and their parts.
use hardy.Prelude.{◌≡◌, ◌↔◌, [], ◌∷◌, true, arith}
use hardy.Eid.{Str, IpnNodeId, DtnNodeId, Eid, eq_str, eq_ipn, eq_dtn, eq_eid}

pub eq_str_iff : (a b : Str) → (eq_str a b ≡ true) ↔ (a ≡ b)
unfolding eq_str
eq_str_iff [] [] = ground arith
eq_str_iff (a ∷ as') (b ∷ bs) = ground (arith, eq_str_iff as' bs)
eq_str_iff [] (b ∷ bs) = ground arith
eq_str_iff (a ∷ as') [] = ground arith

pub eq_ipn_iff : (a b : IpnNodeId) → (eq_ipn a b ≡ true) ↔ (a ≡ b)
unfolding eq_ipn
eq_ipn_iff a b = ground arith

pub eq_dtn_iff : (a b : DtnNodeId) → (eq_dtn a b ≡ true) ↔ (a ≡ b)
unfolding eq_dtn
eq_dtn_iff a b = ground (arith, eq_str_iff a.node_name b.node_name)

pub eq_eid_iff : (a b : Eid) → (eq_eid a b ≡ true) ↔ (a ≡ b)
unfolding eq_eid
eq_eid_iff (Eid.legacy_ipn a m) (Eid.legacy_ipn b n) = ground (arith, eq_ipn_iff a b)
eq_eid_iff (Eid.ipn a m) (Eid.ipn b n) = ground (arith, eq_ipn_iff a b)
eq_eid_iff (Eid.dtn a m) (Eid.dtn b n) = ground (arith, eq_dtn_iff a b, eq_str_iff m n)
eq_eid_iff (Eid.unknown a m) (Eid.unknown b n) = ground (arith, eq_str_iff m n)
eq_eid_iff _ _ = ground arith
