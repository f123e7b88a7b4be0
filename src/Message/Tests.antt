-- ===== src/Message/Tests.antt =====
-- Some messages, and the theorems about them at concrete inputs.
use multi_daq.Prelude.{some, ◌≡◌, refl, sym}
use multi_daq.Prelude.Dict.{find}
use multi_daq.Message.Protocol.{
  Json, null, real, text, object, Channel, MessageStatus, ProtocolMessage, from_dict, to_dict, get,
  type_value, channel_value, status_value, type_named, channel_named, status_named,
}
use multi_daq.Message.Validation.{
  valid, validate, validate_raw_dict, validate_semantics, lacks_fields,
}
use multi_daq.Message.Handler.{
  JsonLibrary, Arguments, build_message, create_command, create_error, validate_message_object,
  received, serialize, deserialize, encode, decode, accept, members_of, dict_of,
}
use multi_daq.Message.Wire.{
  ReadsBack, deserialize-serialize, deserialized-valid, deserialize-receives,
}

-- A library whose texts are the documents themselves.
abbrev library : JsonLibrary Json
library = record { empty = null; dumps = λ j. some j; loads = λ j. some j }

abbrev no_arguments : Arguments
no_arguments = record {
  payload = null;
  request_id = null;
  sender = text "server";
  in_reply_to = null;
}

abbrev hv_on : ProtocolMessage
hv_on = create_command (text "id-1") (real "12.5") Channel.hv "hv_on" no_arguments null

abbrev document : Json
document = object (members_of (to_dict hv_on))

-- To unfold this is to unfold all that the functions compute with.
sent : ProtocolMessage → Json
unfolding serialize deserialize encode decode accept members_of dict_of validate_message_object
    validate validate_raw_dict validate_semantics lacks_fields find to_dict from_dict get type_value
    channel_value status_value type_named channel_named status_named create_command create_error
    build_message
sent m = serialize library m

-- An error that refers to no message cannot be serialized.
error_refused :
    serialize library
      (create_error (text "id-1") (real "12.5") Channel.system no_arguments MessageStatus.error)
    ≡ null
unfolding sent
error_refused = refl

reads_back : ReadsBack library
reads_back j b e = sym e

deserialize-serialize_example :
    (serialize library hv_on ≡ document)
    × (deserialize library (serialize library hv_on) ≡ received hv_on)
unfolding sent
deserialize-serialize_example = deserialize-serialize library hv_on document reads_back refl refl

deserialized-valid_example : validate_message_object hv_on ≡ valid
unfolding sent
deserialized-valid_example = deserialized-valid library document hv_on refl

deserialize-receives_example : (m : ProtocolMessage) × (deserialize library document ≡ received m)
unfolding sent
deserialize-receives_example = deserialize-receives library document refl
