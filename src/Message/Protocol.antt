-- ===== src/Message/Protocol.antt =====
-- The data of common/message_handler.py: the enumerations, ProtocolMessage, `to_dict`, `from_dict`.
-- A field that Python does not convert holds any JSON value, and `null` is None. An exception is
-- `none`.
use multi_daq.Prelude.{
  Bool, Option, none, some, map_option, String, [], ◌∷◌, if◌then◌else◌, get_or, str_eq, ◌>>=◌,
}
use multi_daq.Prelude.Dict.{Dict, find}
use multi_daq.Prelude.Int.{ℤ}

-- What `json.loads` returns; a float is kept as it is written. The members of an object stand in the
-- order of the text.
mutual
  pub data Json : Type 0 where
    null : Json
    boolean : Bool → Json
    integer : ℤ → Json
    real : String → Json
    text : String → Json
    array : JsonList → Json
    object : JsonMembers → Json

  pub data JsonList : Type 0 where
    no_items : JsonList
    item : Json → JsonList → JsonList

  pub data JsonMembers : Type 0 where
    no_members : JsonMembers
    member : String → Json → JsonMembers → JsonMembers

pub data MessageType : Type 0 where
  handshake command reply event sample error : MessageType

pub data Channel : Type 0 where
  system rc hv main monitoring acquisition : Channel

pub data MessageStatus : Type 0 where
  ok error accepted rejected busy : MessageStatus

-- The values of the enumerations.
unfoldable pub type_value : MessageType → String
type_value MessageType.handshake = "handshake"
type_value MessageType.command = "command"
type_value MessageType.reply = "reply"
type_value MessageType.event = "event"
type_value MessageType.sample = "sample"
type_value MessageType.error = "error"

unfoldable pub channel_value : Channel → String
channel_value Channel.system = "system"
channel_value Channel.rc = "rc"
channel_value Channel.hv = "hv"
channel_value Channel.main = "main"
channel_value Channel.monitoring = "monitoring"
channel_value Channel.acquisition = "acquisition"

unfoldable pub status_value : MessageStatus → String
status_value MessageStatus.ok = "ok"
status_value MessageStatus.error = "error"
status_value MessageStatus.accepted = "accepted"
status_value MessageStatus.rejected = "rejected"
status_value MessageStatus.busy = "busy"

-- The member with a given value; `none` is ValueError.
unfoldable pub type_named : String → Option MessageType
type_named s =
    if str_eq s "handshake"
    then some MessageType.handshake
    else if str_eq s "command"
    then some MessageType.command
    else if str_eq s "reply"
    then some MessageType.reply
    else if str_eq s "event"
    then some MessageType.event
    else if str_eq s "sample"
    then some MessageType.sample
    else if str_eq s "error"
    then some MessageType.error
    else none

unfoldable pub channel_named : String → Option Channel
channel_named s =
    if str_eq s "system"
    then some Channel.system
    else if str_eq s "rc"
    then some Channel.rc
    else if str_eq s "hv"
    then some Channel.hv
    else if str_eq s "main"
    then some Channel.main
    else if str_eq s "monitoring"
    then some Channel.monitoring
    else if str_eq s "acquisition"
    then some Channel.acquisition
    else none

unfoldable pub status_named : String → Option MessageStatus
status_named s =
    if str_eq s "ok"
    then some MessageStatus.ok
    else if str_eq s "error"
    then some MessageStatus.error
    else if str_eq s "accepted"
    then some MessageStatus.accepted
    else if str_eq s "rejected"
    then some MessageStatus.rejected
    else if str_eq s "busy"
    then some MessageStatus.busy
    else none

-- `MessageType(value)`, and `Channel(value)` and `MessageStatus(value)` where the value is not None.
abbrev pub to_type : Json → Option MessageType
to_type (text s) = type_named s
to_type _ = none

abbrev pub to_channel : Json → Option Channel
to_channel (text s) = channel_named s
to_channel _ = none

abbrev pub to_status : Json → Option MessageStatus
to_status (text s) = status_named s
to_status _ = none

-- `E(v) if v is not None else None`
abbrev pub optional {ℓ} : {E : Type ℓ} → (Json → Option E) → Json → Option (Option E)
optional f null = some none
optional f v = map_option some (f v)

pub record ProtocolMessage : Type 0 where
  pub protocol_version : Json
  pub msg_type : MessageType
  pub request_id : Json
  pub timestamp : Json
  pub payload : Json
  pub channel : Option Channel
  pub command : Json
  pub phase : Json
  pub in_reply_to : Json
  pub sender : Json
  pub status : Option MessageStatus
  pub priority : Json

abbrev pub value_or_null {ℓ} : {E : Type ℓ} → (E → String) → Option E → Json
value_or_null f none = null
value_or_null f (some e) = text (f e)

-- `to_dict`
unfoldable pub to_dict : ProtocolMessage → Dict Json
to_dict m =
    ("protocol_version", m.protocol_version)
    ∷ ("msg_type", text (type_value m.msg_type))
    ∷ ("request_id", m.request_id)
    ∷ ("timestamp", m.timestamp)
    ∷ ("payload", m.payload)
    ∷ ("channel", value_or_null channel_value m.channel)
    ∷ ("command", m.command)
    ∷ ("phase", m.phase)
    ∷ ("in_reply_to", m.in_reply_to)
    ∷ ("sender", m.sender)
    ∷ ("status", value_or_null status_value m.status)
    ∷ ("priority", m.priority)
    ∷ []

-- `data.get(key)`
unfoldable pub get : String → Dict Json → Json
get k d = get_or (find k d) null

-- `from_dict`
unfoldable pub from_dict : Dict Json → Option ProtocolMessage
from_dict d = do
  version ← find "protocol_version" d
  kind ← find "msg_type" d
  type ← to_type kind
  id ← find "request_id" d
  time ← find "timestamp" d
  channel ← optional to_channel (get "channel" d)
  status ← optional to_status (get "status" d)
  some (record {
    protocol_version = version;
    msg_type = type;
    request_id = id;
    timestamp = time;
    payload = get_or (find "payload" d) (object no_members);
    channel = channel;
    command = get "command" d;
    phase = get "phase" d;
    in_reply_to = get "in_reply_to" d;
    sender = get "sender" d;
    status = status;
    priority = get "priority" d;
  })
