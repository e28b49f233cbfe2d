-- ===== src/Tcpclv4/Codec/SessionTerm.antt =====
-- tcpclv4/src/codec.rs: SESS_TERM.
use hardy.Prelude.{ℕ, List, [], ◌∷◌, Bool, ltb, ◌==◌, ◌<◌, ◌≡◌, ◌≤◌, arith, refl, if◌then◌else◌}
use Prim.Native.Nat.{bit_and}
use hardy.Tcpclv4.Wire.{Reader, ◌>>=◌, ◌>>◌, return, need, advance, get_uint}
use hardy.Tcpclv4.Codec.Octet.{is_set, or_if, IsReserved, one_flag}
use hardy.Tcpclv4.Codec.MessageType.{as_u8, sess_term}

pub record SessionTermMessageFlags : Type 0 where
  pub reply : Bool
  pub reserved : ℕ

unfoldable pub flags_of_u8 : ℕ → SessionTermMessageFlags
flags_of_u8 value = record { reply = is_set value 1; reserved = bit_and value 0xFE }

unfoldable pub flags_to_u8 : SessionTermMessageFlags → ℕ
flags_to_u8 value = or_if value.reply 1 value.reserved

pub data SessionTermReasonCode : Type 0 where
  unknown idle_timeout version_mismatch busy contact_failure : SessionTermReasonCode
  resource_exhaustion : SessionTermReasonCode
  unassigned private : ℕ → SessionTermReasonCode

unfoldable pub reason_of_u8 : ℕ → SessionTermReasonCode
reason_of_u8 value =
    if value == 0
    then unknown
    else if value == 1
    then idle_timeout
    else if value == 2
    then version_mismatch
    else if value == 3
    then busy
    else if value == 4
    then contact_failure
    else if value == 5
    then resource_exhaustion
    else if ltb value 0xF0
    then unassigned value
    else private value

unfoldable pub reason_to_u8 : SessionTermReasonCode → ℕ
reason_to_u8 unknown = 0
reason_to_u8 idle_timeout = 1
reason_to_u8 version_mismatch = 2
reason_to_u8 busy = 3
reason_to_u8 contact_failure = 4
reason_to_u8 resource_exhaustion = 5
reason_to_u8 (unassigned n) = n
reason_to_u8 (private n) = n

pub record SessionTermMessage : Type 0 where
  pub message_flags : SessionTermMessageFlags
  pub reason_code : SessionTermReasonCode

-- The octets that `encode` appends
unfoldable pub encode : SessionTermMessage → List ℕ
encode m = as_u8 sess_term ∷ flags_to_u8 m.message_flags ∷ reason_to_u8 m.reason_code ∷ []

unfoldable pub decode : Reader SessionTermMessage
decode = do
  need 3
  advance 1
  flags ← get_uint 1
  reason ← get_uint 1
  return (record { message_flags = flags_of_u8 flags; reason_code = reason_of_u8 reason })

-- The values that the wire carries as they are
abbrev pub IsReason : SessionTermReasonCode → Type 0
IsReason (unassigned n) = (6 ≤ n) × (n < 0xF0)
IsReason (private n) = (0xF0 ≤ n) × (n < 256)
IsReason _ = Unit

pub flags_of_u8-to_u8 :
    (f : SessionTermMessageFlags) → IsReserved 1 f.reserved → flags_of_u8 (flags_to_u8 f) ≡ f
unfolding flags_of_u8 flags_to_u8
flags_of_u8-to_u8 f h = ground (arith, one_flag f.reserved h)

pub reason_of_u8-to_u8 :
    (c : SessionTermReasonCode) → IsReason c → reason_of_u8 (reason_to_u8 c) ≡ c
unfolding reason_of_u8 reason_to_u8
reason_of_u8-to_u8 unknown h = refl
reason_of_u8-to_u8 idle_timeout h = refl
reason_of_u8-to_u8 version_mismatch h = refl
reason_of_u8-to_u8 busy h = refl
reason_of_u8-to_u8 contact_failure h = refl
reason_of_u8-to_u8 resource_exhaustion h = refl
reason_of_u8-to_u8 (unassigned n) h = ground arith
reason_of_u8-to_u8 (private n) h = ground arith
