-- ===== src/Bpa/NodeIds.antt =====
-- bpa/src/node_ids.rs: the node's own identity.
use hardy.Prelude.{
  ◌≡◌, ◌↔◌, ◌⊎◌, inl, inr, Bool, true, false, Option, none, some, arith, if◌then◌else◌, ◌==◌,
}
use hardy.Eid.{
  is_empty, IpnNodeId, DtnNodeId, NodeId, Service, Eid, eq_ipn, eq_dtn, is_admin_endpoint,
  of_node_id,
}
use hardy.Eid.Laws.{eq_ipn_iff, eq_dtn_iff}

pub record NodeIds : Type 0 where
  pub ipn : Option IpnNodeId
  pub dtn : Option DtnNodeId

-- `Error`; the error of an endpoint identifier inside `InvalidEid` is left out.
pub data Error : Type 0 where
  local_node multiple_ipn_node_ids multiple_dtn_node_ids no_ipn_node_id no_dtn_node_id : Error
  invalid_eid : Error

unfoldable pub service_is_admin_endpoint : Service → Bool
service_is_admin_endpoint (Service.ipn n) = n == 0
service_is_admin_endpoint (Service.dtn name) = is_empty name

-- `self.ipn == Some(fqnn)` and `self.dtn.as_ref() == Some(node_name)`
abbrev is_ipn : Option IpnNodeId → IpnNodeId → Bool
is_ipn none fqnn = false
is_ipn (some n) fqnn = eq_ipn n fqnn

abbrev is_dtn : Option DtnNodeId → DtnNodeId → Bool
is_dtn none node_name = false
is_dtn (some n) node_name = eq_dtn n node_name

-- `none` is the `unreachable!` of a node without any id.
unfoldable pub get_admin_endpoint : NodeIds → Eid → Option Eid
unfolding of_node_id
get_admin_endpoint ids e = elim ids.ipn [
  | some n ↦ elim e [
    | Eid.legacy_ipn _ _ ↦ some (Eid.legacy_ipn n 0)
    | Eid.dtn _ _ ↦ elim ids.dtn [
      | some d ↦ some (of_node_id (NodeId.dtn d))
      | none ↦ some (of_node_id (NodeId.ipn n))
    ]
    | _ ↦ some (of_node_id (NodeId.ipn n))
  ]
  | none ↦ elim ids.dtn [ some d ↦ some (of_node_id (NodeId.dtn d)) | none ↦ none ]
]

unfoldable pub expand_local_node : NodeIds → Eid → Option Eid
expand_local_node ids (Eid.local_node n) = elim ids.ipn [
  | some fqnn ↦ some (Eid.ipn fqnn n)
  | none ↦ none
]
expand_local_node ids _ = none

unfoldable pub local_service_eid : NodeIds → Eid → Option Eid
unfolding expand_local_node eq_ipn eq_dtn
local_service_eid ids (Eid.local_node n) = expand_local_node ids (Eid.local_node n)
local_service_eid ids (Eid.ipn fqnn n) = if is_ipn ids.ipn fqnn then some (Eid.ipn fqnn n) else none
local_service_eid ids (Eid.legacy_ipn fqnn n) =
    if is_ipn ids.ipn fqnn then some (Eid.ipn fqnn n) else none
local_service_eid ids (Eid.dtn d name) = if is_dtn ids.dtn d then some (Eid.dtn d name) else none
local_service_eid ids _ = none

abbrev is_some : Option Eid → Bool
is_some none = false
is_some (some e) = true

unfoldable pub is_local : NodeIds → Eid → Bool
unfolding local_service_eid
is_local ids (Eid.local_node _) = true
is_local ids e = is_some (local_service_eid ids e)

unfoldable pub resolve_eid : NodeIds → Service → Error ⊎ Eid
resolve_eid ids (Service.ipn n) = elim ids.ipn [
  | some fqnn ↦ inr (Eid.ipn fqnn n)
  | none ↦ inl Error.no_ipn_node_id
]
resolve_eid ids (Service.dtn name) = elim ids.dtn [
  | some d ↦ inr (Eid.dtn d name)
  | none ↦ inl Error.no_dtn_node_id
]

is_ipn_iff : (o : Option IpnNodeId) (f : IpnNodeId) → (is_ipn o f ≡ true) ↔ (o ≡ some f)
is_ipn_iff none f = ground arith
is_ipn_iff (some n) f = ground (arith, eq_ipn_iff n f)

is_dtn_iff : (o : Option DtnNodeId) (d : DtnNodeId) → (is_dtn o d ≡ true) ↔ (o ≡ some d)
is_dtn_iff none d = ground arith
is_dtn_iff (some n) d = ground (arith, eq_dtn_iff n d)

-- The endpoint that a service resolves to is its own registration key, on this node; it is the
-- administrative endpoint exactly for the service of that endpoint.
pub resolve_eid-local :
    (ids : NodeIds) (s : Service) (e : Eid)
    → resolve_eid ids s ≡ inr e
    → (local_service_eid ids e ≡ some e)
      × (is_local ids e ≡ true)
      × (is_admin_endpoint e ≡ service_is_admin_endpoint s)
unfolding resolve_eid local_service_eid is_local is_admin_endpoint service_is_admin_endpoint
resolve_eid-local ids s (Eid.ipn f n) h = ground (arith, is_ipn_iff ids.ipn f)
resolve_eid-local ids s (Eid.dtn d n) h = ground (arith, is_dtn_iff ids.dtn d)
resolve_eid-local ids s e h = ground arith

-- The admin endpoint that a node answers with is local to the node, and an admin endpoint.
pub get_admin_endpoint-local :
    (ids : NodeIds) (e a : Eid)
    → get_admin_endpoint ids e ≡ some a
    → (is_local ids a ≡ true) × (is_admin_endpoint a ≡ true)
unfolding get_admin_endpoint is_local local_service_eid is_admin_endpoint of_node_id
get_admin_endpoint-local ids e (Eid.ipn f n) h = ground (arith, is_ipn_iff ids.ipn f)
get_admin_endpoint-local ids e (Eid.legacy_ipn f n) h = ground (arith, is_ipn_iff ids.ipn f)
get_admin_endpoint-local ids e (Eid.dtn d n) h = ground (arith, is_dtn_iff ids.dtn d)
get_admin_endpoint-local ids e a h = ground arith
