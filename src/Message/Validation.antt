-- ===== src/Message/Validation.antt =====
-- `validate_raw_dict` and `validate_semantics` of common/message_handler.py.
use multi_daq.Prelude.{
  Bool, true, false, not, Option, none, some, String, ◌&&◌, ◌||◌, if◌then◌else◌, is_some, str_eq,
  ◌==◌,
}
use multi_daq.Prelude.Dict.{Dict, find}
use multi_daq.Prelude.Int.{pos, negsuc}
use multi_daq.Message.Protocol.{
  Json, null, boolean, integer, real, text, array, object, no_items, no_members, item, member, get,
  to_type, to_channel, to_status, MessageType,
}

-- Why a message is refused: one constructor for each message text of the source.
pub data Reason : Type 0 where
  empty_message missing_fields unsupported_version request_id_type timestamp_type : Reason
  payload_type invalid_type invalid_channel invalid_status command_type phase_type : Reason
  in_reply_to_type sender_type priority_type handshake_phase command_name command_channel : Reason
  reply_reference error_reference conversion : Reason

pub data Verdict : Type 0 where
  valid : Verdict
  refused : Reason → Verdict

-- `v == PROTOCOL_VERSION`: a bool and a float may equal 1.
abbrev is_version : Json → Bool
is_version (integer (pos n)) = n == 1
is_version (boolean b) = b
is_version (real s) = str_eq s "1.0"
is_version _ = false

abbrev is_string : Json → Bool
is_string (text s) = true
is_string _ = false

-- `isinstance(v, (int, float))`: a bool is an int.
abbrev is_number : Json → Bool
is_number (integer n) = true
is_number (boolean b) = true
is_number (real s) = true
is_number _ = false

abbrev is_integer : Json → Bool
is_integer (integer n) = true
is_integer (boolean b) = true
is_integer _ = false

abbrev is_object : Json → Bool
is_object (object ms) = true
is_object _ = false

abbrev is_null : Json → Bool
is_null null = true
is_null _ = false

abbrev has_key : String → Dict Json → Bool
has_key k d = is_some (find k d)

unfoldable pub lacks_fields : Dict Json → Bool
lacks_fields d = not (
    has_key "protocol_version" d
    && has_key "msg_type" d
    && has_key "request_id" d
    && has_key "timestamp" d
    && has_key "payload" d)

-- A key that is missing passes like one whose value is None.
unfoldable pub validate_raw_dict : Dict Json → Verdict
validate_raw_dict d =
    if lacks_fields d
    then refused Reason.missing_fields
    else if not (is_version (get "protocol_version" d))
    then refused Reason.unsupported_version
    else if not (is_string (get "request_id" d))
    then refused Reason.request_id_type
    else if not (is_number (get "timestamp" d))
    then refused Reason.timestamp_type
    else if not (is_object (get "payload" d))
    then refused Reason.payload_type
    else if not (is_some (to_type (get "msg_type" d)))
    then refused Reason.invalid_type
    else if not (is_null (get "channel" d) || is_some (to_channel (get "channel" d)))
    then refused Reason.invalid_channel
    else if not (is_null (get "status" d) || is_some (to_status (get "status" d)))
    then refused Reason.invalid_status
    else if not (is_null (get "command" d) || is_string (get "command" d))
    then refused Reason.command_type
    else if not (is_null (get "phase" d) || is_string (get "phase" d))
    then refused Reason.phase_type
    else if not (is_null (get "in_reply_to" d) || is_string (get "in_reply_to" d))
    then refused Reason.in_reply_to_type
    else if not (is_null (get "sender" d) || is_string (get "sender" d))
    then refused Reason.sender_type
    else if not (is_null (get "priority" d) || is_integer (get "priority" d))
    then refused Reason.priority_type
    else valid

-- `bool(v)`
abbrev pub truthy : Json → Bool
truthy null = false
truthy (boolean b) = b
truthy (integer (pos n)) = not (n == 0)
truthy (integer (negsuc n)) = true
truthy (real s) = not (str_eq s "0.0" || str_eq s "-0.0")
truthy (text s) = not (str_eq s "")
truthy (array no_items) = false
truthy (array (item v vs)) = true
truthy (object no_members) = false
truthy (object (member k v ms)) = true

-- What a message of each type needs: phase, command, channel, in_reply_to.
abbrev semantics : Option MessageType → Json → Json → Json → Json → Verdict
semantics none phase command channel in_reply_to = refused Reason.invalid_type
semantics (some MessageType.handshake) phase command channel in_reply_to =
    if truthy phase then valid else refused Reason.handshake_phase
semantics (some MessageType.command) phase command channel in_reply_to =
    if not (truthy command)
    then refused Reason.command_name
    else if is_null channel
    then refused Reason.command_channel
    else valid
semantics (some MessageType.reply) phase command channel in_reply_to =
    if truthy in_reply_to then valid else refused Reason.reply_reference
semantics (some MessageType.error) phase command channel in_reply_to =
    if truthy in_reply_to then valid else refused Reason.error_reference
semantics (some MessageType.event) phase command channel in_reply_to = valid
semantics (some MessageType.sample) phase command channel in_reply_to = valid

unfoldable pub validate_semantics : Dict Json → Verdict
validate_semantics d =
    semantics (to_type (get "msg_type" d)) (get "phase" d) (get "command" d) (get "channel" d)
      (get "in_reply_to" d)

abbrev pub and_then : Verdict → Verdict → Verdict
and_then (refused r) next = refused r
and_then valid next = next

-- Both tests, in the order in which `deserialize` and `validate_message_object` make them.
unfoldable pub validate : Dict Json → Verdict
validate d = and_then (validate_raw_dict d) (validate_semantics d)
