-- ===== src/Tcpclv4/Codec/MessageType.antt =====
-- tcpclv4/src/codec.rs: the first octet of a message.
use hardy.Prelude.{ℕ, ◌==◌, if◌then◌else◌}
use hardy.Tcpclv4.Wire.{Reader, return, throw, invalid_message_type}

pub data MessageType : Type 0 where
  xfer_segment xfer_ack xfer_refuse keepalive sess_term msg_reject sess_init : MessageType

abbrev pub as_u8 : MessageType → ℕ
as_u8 xfer_segment = 1
as_u8 xfer_ack = 2
as_u8 xfer_refuse = 3
as_u8 keepalive = 4
as_u8 sess_term = 5
as_u8 msg_reject = 6
as_u8 sess_init = 7

unfoldable pub try_from : ℕ → Reader MessageType
try_from value =
    if value == 1
    then return xfer_segment
    else if value == 2
    then return xfer_ack
    else if value == 3
    then return xfer_refuse
    else if value == 4
    then return keepalive
    else if value == 5
    then return sess_term
    else if value == 6
    then return msg_reject
    else if value == 7
    then return sess_init
    else throw (invalid_message_type value)
