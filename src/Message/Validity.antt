-- ===== src/Message/Validity.antt =====
-- What is accepted from the wire can be sent again (common/message_handler.py).
use multi_daq.Prelude.{
  false, Option, some, none, String, ◌≡◌, ◌≢◌, refl, sym, ap, arith, eq_iff, Bool-cases, inl, inr,
}
use multi_daq.Prelude.Dict.{Dict, find}
use multi_daq.Message.Protocol.{
  Json, text, ProtocolMessage, from_dict, to_dict, get, MessageType, MessageStatus, Channel,
  type_value, channel_value, status_value, type_named, channel_named, status_named, value_or_null,
  optional, to_type, to_channel, to_status,
}
use multi_daq.Message.Validation.{
  valid, lacks_fields, validate_raw_dict, validate_semantics, validate,
}

type_named-inv : (s : String) (t : MessageType) → type_named s ≡ some t → s ≡ type_value t
unfolding type_named type_value
type_named-inv s t e = ground (
  arith,
  eq_iff s "handshake",
  eq_iff s "command",
  eq_iff s "reply",
  eq_iff s "event",
  eq_iff s "sample",
  eq_iff s "error",
)

channel_named-inv : (s : String) (t : Channel) → channel_named s ≡ some t → s ≡ channel_value t
unfolding channel_named channel_value
channel_named-inv s t e = ground (
  arith,
  eq_iff s "system",
  eq_iff s "rc",
  eq_iff s "hv",
  eq_iff s "main",
  eq_iff s "monitoring",
  eq_iff s "acquisition",
)

status_named-inv : (s : String) (t : MessageStatus) → status_named s ≡ some t → s ≡ status_value t
unfolding status_named status_value
status_named-inv s t e = ground (
  arith,
  eq_iff s "ok",
  eq_iff s "error",
  eq_iff s "accepted",
  eq_iff s "rejected",
  eq_iff s "busy",
)

to_type-inv : (j : Json) (t : MessageType) → to_type j ≡ some t → j ≡ text (type_value t)
to_type-inv (text s) t e = ap text (type_named-inv s t e)
to_type-inv _ t e = ground arith

to_channel-inv :
    (j : Json) (c : Option Channel)
    → optional to_channel j ≡ some c
    → j ≡ value_or_null channel_value c
to_channel-inv (text s) (some c) e = ap text (channel_named-inv s c (ground arith))
to_channel-inv j c e = ground arith

to_status-inv :
    (j : Json) (c : Option MessageStatus)
    → optional to_status j ≡ some c
    → j ≡ value_or_null status_value c
to_status-inv (text s) (some c) e = ap text (status_named-inv s c (ground arith))
to_status-inv j c e = ground arith

-- The required fields are there.
pub record HasFields (d : Dict Json) (m : ProtocolMessage) : Type 0 where
  protocol_version : find "protocol_version" d ≡ some m.protocol_version
  msg_type : find "msg_type" d ≡ some (text (type_value m.msg_type))
  request_id : find "request_id" d ≡ some m.request_id
  timestamp : find "timestamp" d ≡ some m.timestamp
  payload : find "payload" d ≡ some m.payload
  channel : get "channel" d ≡ value_or_null channel_value m.channel
  command : get "command" d ≡ m.command
  phase : get "phase" d ≡ m.phase
  in_reply_to : get "in_reply_to" d ≡ m.in_reply_to
  sender : get "sender" d ≡ m.sender
  status : get "status" d ≡ value_or_null status_value m.status
  priority : get "priority" d ≡ m.priority

pub from_dict-HasFields :
    (d : Dict Json) (m : ProtocolMessage)
    → lacks_fields d ≡ false
    → from_dict d ≡ some m
    → HasFields d m
unfolding from_dict lacks_fields get
from_dict-HasFields d m l e =
    let (version, kind, id, time, load) = required in
    let (channel, status, command, phase, reference, sender, priority) = optional_fields in
    record {
      protocol_version = version;
      msg_type = kind;
      request_id = id;
      timestamp = time;
      payload = load;
      channel = to_channel-inv (get "channel" d) m.channel channel;
      command = command;
      phase = phase;
      in_reply_to = reference;
      sender = sender;
      status = to_status-inv (get "status" d) m.status status;
      priority = priority;
    }
  where
    kind_found :
        (k : Json) (t : MessageType) → to_type k ≡ some t → some k ≡ some (text (type_value t))
    kind_found k t h = ap some (to_type-inv k t h)

    required :
        (find "protocol_version" d ≡ some m.protocol_version)
        × (find "msg_type" d ≡ some (text (type_value m.msg_type)))
        × (find "request_id" d ≡ some m.request_id)
        × (find "timestamp" d ≡ some m.timestamp)
        × (find "payload" d ≡ some m.payload)
    required = ground (arith, kind_found (get "msg_type" d) m.msg_type)

    optional_fields :
        (optional to_channel (get "channel" d) ≡ some m.channel)
        × (optional to_status (get "status" d) ≡ some m.status)
        × (get "command" d ≡ m.command)
        × (get "phase" d ≡ m.phase)
        × (get "in_reply_to" d ≡ m.in_reply_to)
        × (get "sender" d ≡ m.sender)
        × (get "priority" d ≡ m.priority)
    optional_fields = ground arith

-- A key of the dictionary of `m` and of `d`.
module _ (d : Dict Json) (m : ProtocolMessage) (h : HasFields d m) where
  same_protocol_version : get "protocol_version" (to_dict m) ≡ get "protocol_version" d
  unfolding get to_dict find
  same_protocol_version = rw h.protocol_version refl

  same_msg_type : get "msg_type" (to_dict m) ≡ get "msg_type" d
  unfolding get to_dict find
  same_msg_type = rw h.msg_type refl

  same_request_id : get "request_id" (to_dict m) ≡ get "request_id" d
  unfolding get to_dict find
  same_request_id = rw h.request_id refl

  same_timestamp : get "timestamp" (to_dict m) ≡ get "timestamp" d
  unfolding get to_dict find
  same_timestamp = rw h.timestamp refl

  same_payload : get "payload" (to_dict m) ≡ get "payload" d
  unfolding get to_dict find
  same_payload = rw h.payload refl

  same_channel : get "channel" (to_dict m) ≡ get "channel" d
  unfolding get to_dict find
  same_channel = sym h.channel

  same_command : get "command" (to_dict m) ≡ get "command" d
  unfolding get to_dict find
  same_command = sym h.command

  same_phase : get "phase" (to_dict m) ≡ get "phase" d
  unfolding get to_dict find
  same_phase = sym h.phase

  same_in_reply_to : get "in_reply_to" (to_dict m) ≡ get "in_reply_to" d
  unfolding get to_dict find
  same_in_reply_to = sym h.in_reply_to

  same_sender : get "sender" (to_dict m) ≡ get "sender" d
  unfolding get to_dict find
  same_sender = sym h.sender

  same_status : get "status" (to_dict m) ≡ get "status" d
  unfolding get to_dict find
  same_status = sym h.status

  same_priority : get "priority" (to_dict m) ≡ get "priority" d
  unfolding get to_dict find
  same_priority = sym h.priority

  complete : lacks_fields (to_dict m) ≡ false
  unfolding lacks_fields to_dict find
  complete = refl

  raw : lacks_fields d ≡ false → validate_raw_dict (to_dict m) ≡ validate_raw_dict d
  unfolding validate_raw_dict
  raw l =
      rw
        (
          complete, l, same_protocol_version, same_request_id, same_timestamp, same_payload,
          same_msg_type, same_channel, same_status, same_command, same_phase, same_in_reply_to,
          same_sender, same_priority,
        )
        refl

  meaning : validate_semantics (to_dict m) ≡ validate_semantics d
  unfolding validate_semantics
  meaning = rw (same_msg_type, same_phase, same_command, same_channel, same_in_reply_to) refl

  -- The tests read no more of a dictionary than its fields.
  pub to_dict-validate : lacks_fields d ≡ false → validate (to_dict m) ≡ validate d
  unfolding validate
  to_dict-validate l = rw (raw l, meaning) refl

pub validate-lacks_fields : (d : Dict Json) → validate d ≡ valid → lacks_fields d ≡ false
unfolding validate validate_raw_dict
validate-lacks_fields d v = elim (Bool-cases (lacks_fields d)) [ inl e ↦ ground arith | inr e ↦ e ]

-- A dictionary that passes the tests is converted.
pub converted_valid : (d : Dict Json) → validate d ≡ valid → from_dict d ≢ none
unfolding validate validate_raw_dict from_dict lacks_fields get
converted_valid d v = ground arith
