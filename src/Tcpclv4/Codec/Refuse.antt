-- ===== src/Tcpclv4/Codec/Refuse.antt =====
-- tcpclv4/src/codec.rs: XFER_REFUSE.
use hardy.Prelude.{ℕ, List, ◌∷◌, ltb, ◌==◌, ◌<◌, ◌≡◌, ◌≤◌, arith, refl, if◌then◌else◌}
use hardy.Cbor.Bytes.{to_be_bytes}
use hardy.Tcpclv4.Wire.{Reader, ◌>>=◌, ◌>>◌, return, need, advance, get_uint}
use hardy.Tcpclv4.Codec.MessageType.{as_u8, xfer_refuse}

pub data TransferRefuseReasonCode : Type 0 where
  unknown completed no_resources retransmit not_acceptable : TransferRefuseReasonCode
  extension_failure session_terminating : TransferRefuseReasonCode
  unassigned private : ℕ → TransferRefuseReasonCode

unfoldable pub reason_of_u8 : ℕ → TransferRefuseReasonCode
reason_of_u8 value =
    if value == 0
    then unknown
    else if value == 1
    then completed
    else if value == 2
    then no_resources
    else if value == 3
    then retransmit
    else if value == 4
    then not_acceptable
    else if value == 5
    then extension_failure
    else if value == 6
    then session_terminating
    else if ltb value 0xF0
    then unassigned value
    else private value

unfoldable pub reason_to_u8 : TransferRefuseReasonCode → ℕ
reason_to_u8 unknown = 0
reason_to_u8 completed = 1
reason_to_u8 no_resources = 2
reason_to_u8 retransmit = 3
reason_to_u8 not_acceptable = 4
reason_to_u8 extension_failure = 5
reason_to_u8 session_terminating = 6
reason_to_u8 (unassigned n) = n
reason_to_u8 (private n) = n

pub record TransferRefuseMessage : Type 0 where
  pub reason_code : TransferRefuseReasonCode
  pub transfer_id : ℕ

-- The octets that `encode` appends
unfoldable pub encode : TransferRefuseMessage → List ℕ
encode m = as_u8 xfer_refuse ∷ reason_to_u8 m.reason_code ∷ to_be_bytes 8 m.transfer_id

unfoldable pub decode : Reader TransferRefuseMessage
decode = do
  need 10
  advance 1
  reason ← get_uint 1
  transfer_id ← get_uint 8
  return (record { reason_code = reason_of_u8 reason; transfer_id = transfer_id })

-- The values that the wire carries as they are
abbrev pub IsReason : TransferRefuseReasonCode → Type 0
IsReason (unassigned n) = (7 ≤ n) × (n < 0xF0)
IsReason (private n) = (0xF0 ≤ n) × (n < 256)
IsReason _ = Unit

pub reason_of_u8-to_u8 :
    (c : TransferRefuseReasonCode) → IsReason c → reason_of_u8 (reason_to_u8 c) ≡ c
unfolding reason_of_u8 reason_to_u8
reason_of_u8-to_u8 unknown h = refl
reason_of_u8-to_u8 completed h = refl
reason_of_u8-to_u8 no_resources h = refl
reason_of_u8-to_u8 retransmit h = refl
reason_of_u8-to_u8 not_acceptable h = refl
reason_of_u8-to_u8 extension_failure h = refl
reason_of_u8-to_u8 session_terminating h = refl
reason_of_u8-to_u8 (unassigned n) h = ground arith
reason_of_u8-to_u8 (private n) h = ground arith
