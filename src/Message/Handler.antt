-- ===== src/Message/Handler.antt =====
-- The methods of MessageHandler (common/message_handler.py). The JSON library, the clock and the
-- generator of request ids are parameters.
use multi_daq.Prelude.{Option, none, some, String, [], ◌∷◌, if◌then◌else◌}
use multi_daq.Prelude.Dict.{Dict}
use multi_daq.Prelude.Int.{pos}
use multi_daq.Message.Protocol.{
  Json, null, integer, text, object, JsonMembers, no_members, member, MessageType, Channel,
  MessageStatus, ProtocolMessage, to_dict, from_dict,
}
use multi_daq.Message.Validation.{Reason, Verdict, valid, refused, validate, truthy}

-- A Python dictionary as a JSON object, and back.
unfoldable pub members_of : Dict Json → JsonMembers
members_of [] = no_members
members_of ((k, v) ∷ d) = member k v (members_of d)

unfoldable pub dict_of : JsonMembers → Dict Json
dict_of no_members = []
dict_of (member k v ms) = (k, v) ∷ dict_of ms

-- `json.dumps` with the encoding of the text, and its inverse; `none` is any exception.
pub record JsonLibrary (Bytes : Type 0) : Type 0 where
  pub empty : Bytes
  pub dumps : Json → Option Bytes
  pub loads : Bytes → Option Json

-- `validate_message_object`
unfoldable pub validate_message_object : ProtocolMessage → Verdict
validate_message_object m = validate (to_dict m)

pub data Received : Type 0 where
  received : ProtocolMessage → Received
  rejected : Reason → Received

-- `from_dict`, once both tests are passed.
abbrev pub converted : Option ProtocolMessage → Received
converted none = rejected Reason.conversion
converted (some m) = received m

abbrev pub judged : Verdict → Dict Json → Received
judged (refused r) d = rejected r
judged valid d = converted (from_dict d)

-- `deserialize`, once the text is decoded.
unfoldable pub accept : Dict Json → Received
accept [] = rejected Reason.empty_message
accept ((k, v) ∷ d) = judged (validate ((k, v) ∷ d)) ((k, v) ∷ d)

module _ {Bytes : Type 0} (lib : JsonLibrary Bytes) where
  -- `encode`
  unfoldable pub encode : Dict Json → Bytes
  unfolding members_of
  encode d = elim (lib.dumps (object (members_of d))) [ none ↦ lib.empty | some b ↦ b ]

  -- `decode`
  unfoldable pub decode : Bytes → Dict Json
  unfolding dict_of
  decode b = elim (lib.loads b) [ none ↦ [] | some j ↦ elim j [ object ms ↦ dict_of ms | _ ↦ [] ] ]

  -- `serialize`
  unfoldable pub serialize : ProtocolMessage → Bytes
  serialize m = elim (validate_message_object m) [
    | refused r ↦ lib.empty
    | valid ↦ encode (to_dict m)
  ]

  -- `deserialize`
  unfoldable pub deserialize : Bytes → Received
  deserialize b = accept (decode b)

-- `a or b`
abbrev pub or_else : Json → Json → Json
or_else a b = if truthy a then a else b

-- The arguments of the methods that build messages, with None for one that is not given.
pub record Arguments : Type 0 where
  pub payload : Json
  pub request_id : Json
  pub sender : Json
  pub in_reply_to : Json

-- `build_message`: `new_id` is what the generator returns; `now` is the given timestamp, or the time.
unfoldable pub build_message :
    Json
    → Json
    → MessageType
    → Arguments
    → Option Channel
    → Json
    → Json
    → Option MessageStatus
    → Json
    → ProtocolMessage
build_message new_id now kind a channel command phase status priority = record {
  protocol_version = integer (pos 1);
  msg_type = kind;
  request_id = or_else a.request_id new_id;
  timestamp = now;
  payload = or_else a.payload (object no_members);
  channel = channel;
  command = command;
  phase = phase;
  in_reply_to = a.in_reply_to;
  sender = a.sender;
  status = status;
  priority = priority;
}

module _ (new_id now : Json) where
  -- `create_handshake`
  unfoldable pub create_handshake : String → Arguments → Option MessageStatus → ProtocolMessage
  create_handshake phase a status =
      build_message new_id now MessageType.handshake a (some Channel.system) null (text phase)
        status null

  -- `create_command`: there is no `in_reply_to` to give.
  unfoldable pub create_command : Channel → String → Arguments → Json → ProtocolMessage
  create_command channel command a priority =
      build_message new_id now MessageType.command (record a { in_reply_to = null }) (some channel)
        (text command) null none priority

  -- `create_reply`
  unfoldable pub create_reply : Channel → String → Arguments → MessageStatus → ProtocolMessage
  create_reply channel in_reply_to a status =
      build_message new_id now MessageType.reply (record a { in_reply_to = text in_reply_to })
        (some channel) null null (some status) null

  -- `create_event`
  unfoldable pub create_event : Channel → Arguments → Option MessageStatus → ProtocolMessage
  create_event channel a status =
      build_message new_id now MessageType.event (record a { in_reply_to = null }) (some channel)
        null null status null

  -- `create_error`
  unfoldable pub create_error : Channel → Arguments → MessageStatus → ProtocolMessage
  create_error channel a status =
      build_message new_id now MessageType.error a (some channel) null null (some status) null

  -- `create_sample`
  unfoldable pub create_sample : Channel → Arguments → MessageStatus → ProtocolMessage
  create_sample channel a status =
      build_message new_id now MessageType.sample a (some channel) null null (some status) null
