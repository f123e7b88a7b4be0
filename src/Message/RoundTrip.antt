-- ===== src/Message/RoundTrip.antt =====
-- A message and its dictionary (common/message_handler.py).
use multi_daq.Prelude.{Option, some, none, ◌≡◌, refl}
use multi_daq.Prelude.Dict.{find}
use multi_daq.Message.Protocol.{
  ProtocolMessage, from_dict, to_dict, get, MessageType, MessageStatus, Channel, type_value,
  channel_value, status_value, type_named, channel_named, status_named, value_or_null, optional,
  to_channel, to_status,
}

type_named-type_value : (t : MessageType) → type_named (type_value t) ≡ some t
unfolding type_named type_value
type_named-type_value MessageType.handshake = refl
type_named-type_value MessageType.command = refl
type_named-type_value MessageType.reply = refl
type_named-type_value MessageType.event = refl
type_named-type_value MessageType.sample = refl
type_named-type_value MessageType.error = refl

channel_of-value :
    (c : Option Channel) → optional to_channel (value_or_null channel_value c) ≡ some c
unfolding channel_named channel_value
channel_of-value none = refl
channel_of-value (some Channel.system) = refl
channel_of-value (some Channel.rc) = refl
channel_of-value (some Channel.hv) = refl
channel_of-value (some Channel.main) = refl
channel_of-value (some Channel.monitoring) = refl
channel_of-value (some Channel.acquisition) = refl

status_of-value :
    (c : Option MessageStatus) → optional to_status (value_or_null status_value c) ≡ some c
unfolding status_named status_value
status_of-value none = refl
status_of-value (some MessageStatus.ok) = refl
status_of-value (some MessageStatus.error) = refl
status_of-value (some MessageStatus.accepted) = refl
status_of-value (some MessageStatus.rejected) = refl
status_of-value (some MessageStatus.busy) = refl

-- Every message comes back from its dictionary, whatever its fields hold.
pub from_dict-to_dict : (m : ProtocolMessage) → from_dict (to_dict m) ≡ some m
unfolding from_dict to_dict get find
from_dict-to_dict m =
    rw (type_named-type_value m.msg_type, channel_of-value m.channel, status_of-value m.status) refl
