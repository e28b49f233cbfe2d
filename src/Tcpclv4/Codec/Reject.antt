-- ===== src/Tcpclv4/Codec/Reject.antt =====
-- tcpclv4/src/codec.rs: MSG_REJECT.
use hardy.Prelude.{◌≢◌, ℕ, List, [], ◌∷◌, ltb, ◌==◌, ◌<◌, ◌≡◌, ◌≤◌, arith, refl, if◌then◌else◌}
use hardy.Tcpclv4.Wire.{Reader, ◌>>=◌, ◌>>◌, return, need, advance, get_uint}
use hardy.Tcpclv4.Codec.MessageType.{as_u8, msg_reject, try_from}

pub data MessageRejectionReasonCode : Type 0 where
  unknown_type unsupported unexpected : MessageRejectionReasonCode
  unassigned private : ℕ → MessageRejectionReasonCode

unfoldable pub reason_of_u8 : ℕ → MessageRejectionReasonCode
reason_of_u8 value =
    if value == 1
    then unknown_type
    else if value == 2
    then unsupported
    else if value == 3
    then unexpected
    else if ltb value 0xF0
    then unassigned value
    else private value

unfoldable pub reason_to_u8 : MessageRejectionReasonCode → ℕ
reason_to_u8 unknown_type = 1
reason_to_u8 unsupported = 2
reason_to_u8 unexpected = 3
reason_to_u8 (unassigned n) = n
reason_to_u8 (private n) = n

pub record MessageRejectMessage : Type 0 where
  pub reason_code : MessageRejectionReasonCode
  pub rejected_message : ℕ

-- The octets that `encode` appends
unfoldable pub encode : MessageRejectMessage → List ℕ
encode m = as_u8 msg_reject ∷ reason_to_u8 m.reason_code ∷ m.rejected_message ∷ []

unfoldable pub decode : Reader MessageRejectMessage
decode = do
  need 3
  advance 1
  reason ← get_uint 1
  rejected ← get_uint 1
  message_type ← try_from rejected
  return (record { reason_code = reason_of_u8 reason; rejected_message = as_u8 message_type })

-- The values that the wire carries as they are
abbrev pub IsReason : MessageRejectionReasonCode → Type 0
IsReason (unassigned n) = (n < 0xF0) × (n ≢ 1) × (n ≢ 2) × (n ≢ 3)
IsReason (private n) = (0xF0 ≤ n) × (n < 256)
IsReason _ = Unit

pub reason_of_u8-to_u8 :
    (c : MessageRejectionReasonCode) → IsReason c → reason_of_u8 (reason_to_u8 c) ≡ c
unfolding reason_of_u8 reason_to_u8
reason_of_u8-to_u8 unknown_type h = refl
reason_of_u8-to_u8 unsupported h = refl
reason_of_u8-to_u8 unexpected h = refl
reason_of_u8-to_u8 (unassigned n) h = ground arith
reason_of_u8-to_u8 (private n) h = ground arith
