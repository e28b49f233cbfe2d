-- ===== src/Eid.antt =====
-- bpv7/src/eid/mod.rs: node identifiers, services and endpoint identifiers. Texts are lists of bytes.
pub mod Laws
pub mod Text
use hardy.Prelude.{
  ℕ, zero, suc, ◌^◌, ◌-◌, List, [], ◌∷◌, Bool, true, false, ◌&&◌, Option, none, some, ◌==◌,
  if◌then◌else◌,
}

-- `Box<str>`, as its bytes
abbrev pub Str : Type 0
Str = List ℕ

-- `str::is_empty`
abbrev pub is_empty : Str → Bool
is_empty [] = true
is_empty (c ∷ cs) = false

abbrev pub u32_max : ℕ
u32_max = 2 ^ 32 - 1

pub record IpnNodeId : Type 0 where
  pub allocator_id : ℕ
  pub node_number : ℕ

pub record DtnNodeId : Type 0 where
  pub node_name : Str

pub data NodeId : Type 0 where
  local_node : NodeId
  ipn : IpnNodeId → NodeId
  dtn : DtnNodeId → NodeId

pub data Service : Type 0 where
  ipn : ℕ → Service
  dtn : Str → Service

-- `UnknownSsp` is kept as its bytes.
pub data Eid : Type 0 where
  null : Eid
  local_node : ℕ → Eid
  legacy_ipn : IpnNodeId → ℕ → Eid
  ipn : IpnNodeId → ℕ → Eid
  dtn : DtnNodeId → Str → Eid
  unknown : ℕ → Str → Eid

-- The derived `PartialEq` of these types
unfoldable pub eq_str : Str → Str → Bool
eq_str [] [] = true
eq_str (a ∷ as') (b ∷ bs) = a == b && eq_str as' bs
eq_str _ _ = false

unfoldable pub eq_ipn : IpnNodeId → IpnNodeId → Bool
eq_ipn a b = a.allocator_id == b.allocator_id && a.node_number == b.node_number

unfoldable pub eq_dtn : DtnNodeId → DtnNodeId → Bool
unfolding eq_str
eq_dtn a b = eq_str a.node_name b.node_name

unfoldable pub eq_eid : Eid → Eid → Bool
unfolding eq_str eq_ipn eq_dtn
eq_eid Eid.null Eid.null = true
eq_eid (Eid.local_node a) (Eid.local_node b) = a == b
eq_eid (Eid.legacy_ipn a m) (Eid.legacy_ipn b n) = eq_ipn a b && m == n
eq_eid (Eid.ipn a m) (Eid.ipn b n) = eq_ipn a b && m == n
eq_eid (Eid.dtn a m) (Eid.dtn b n) = eq_dtn a b && eq_str m n
eq_eid (Eid.unknown a m) (Eid.unknown b n) = a == b && eq_str m n
eq_eid _ _ = false

-- `Eid::is_null`
unfoldable pub is_null : Eid → Bool
is_null Eid.null = true
is_null _ = false

-- `Eid::service`
unfoldable pub service : Eid → Option Service
service (Eid.local_node n) = if n == 0 then none else some (Service.ipn n)
service (Eid.legacy_ipn _ n) = if n == 0 then none else some (Service.ipn n)
service (Eid.ipn _ n) = if n == 0 then none else some (Service.ipn n)
service (Eid.dtn _ name) = if is_empty name then none else some (Service.dtn name)
service _ = none

-- `Eid::is_admin_endpoint`
unfoldable pub is_admin_endpoint : Eid → Bool
is_admin_endpoint (Eid.local_node n) = n == 0
is_admin_endpoint (Eid.legacy_ipn _ n) = n == 0
is_admin_endpoint (Eid.ipn _ n) = n == 0
is_admin_endpoint (Eid.dtn _ name) = is_empty name
is_admin_endpoint _ = false

-- `Eid::to_node_id` and `Eid::try_to_node_id`; `none` is `Error::InvalidNodeId`.
unfoldable pub to_node_id : Eid → Option NodeId
to_node_id (Eid.local_node _) = some NodeId.local_node
to_node_id (Eid.legacy_ipn fqnn _) = some (NodeId.ipn fqnn)
to_node_id (Eid.ipn fqnn _) = some (NodeId.ipn fqnn)
to_node_id (Eid.dtn node_name _) = some (NodeId.dtn node_name)
to_node_id _ = none

-- `From<NodeId> for Eid`
unfoldable pub of_node_id : NodeId → Eid
of_node_id NodeId.local_node = Eid.local_node 0
of_node_id (NodeId.ipn node_id) = Eid.ipn node_id 0
of_node_id (NodeId.dtn node_id) = Eid.dtn node_id []

-- `TryFrom<Eid> for NodeId`; `none` is `Error::InvalidNodeId`.
unfoldable pub try_node_id : Eid → Option NodeId
try_node_id (Eid.local_node zero) = some NodeId.local_node
try_node_id (Eid.legacy_ipn fqnn n) = if n == 0 then some (NodeId.ipn fqnn) else none
try_node_id (Eid.ipn fqnn n) = if n == 0 then some (NodeId.ipn fqnn) else none
try_node_id (Eid.dtn node_name name) = if is_empty name then some (NodeId.dtn node_name) else none
try_node_id _ = none

-- `TryFrom<(NodeId, Service)> for Eid`; `none` is `Error::MismatchedService`.
unfoldable pub of_node_service : NodeId → Service → Option Eid
of_node_service NodeId.local_node (Service.ipn n) = some (Eid.local_node n)
of_node_service (NodeId.ipn fqnn) (Service.ipn n) = some (Eid.ipn fqnn n)
of_node_service (NodeId.dtn node_name) (Service.dtn name) = some (Eid.dtn node_name name)
of_node_service _ _ = none
