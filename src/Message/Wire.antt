-- ===== src/Message/Wire.antt =====
-- Messages on the wire (common/message_handler.py).
use multi_daq.Prelude.{
  Option, some, none, [], ◌∷◌, ◌≡◌, ◌≢◌, ap, refl, ◌∙◌, arith, Option-cases, inl, inr,
}
use multi_daq.Prelude.Dict.{Dict, find}
use multi_daq.Message.Protocol.{Json, object, ProtocolMessage, from_dict, to_dict}
use multi_daq.Message.Validation.{
  Verdict, valid, refused, validate, validate_raw_dict, lacks_fields,
}
use multi_daq.Message.RoundTrip.{from_dict-to_dict}
use multi_daq.Message.Handler.{
  JsonLibrary, members_of, dict_of, validate_message_object, received, converted, judged, accept,
  encode, decode, serialize, deserialize,
}
use multi_daq.Message.Validity.{
  converted_valid, validate-lacks_fields, from_dict-HasFields, to_dict-validate,
}

dict_of-members_of : (d : Dict Json) → dict_of (members_of d) ≡ d
unfolding dict_of members_of
dict_of-members_of [] = refl
dict_of-members_of ((k, v) ∷ d) = ground (arith, dict_of-members_of d)

accept_full : (m : ProtocolMessage) → accept (to_dict m) ≡ judged (validate (to_dict m)) (to_dict m)
unfolding accept to_dict
accept_full m = refl

accept-to_dict :
    (m : ProtocolMessage) → validate (to_dict m) ≡ valid → accept (to_dict m) ≡ received m
accept-to_dict m v = rw (accept_full m, v, from_dict-to_dict m) refl

converted-inv :
    (o : Option ProtocolMessage) (m : ProtocolMessage) → converted o ≡ received m → o ≡ some m
converted-inv none m e = ground arith
converted-inv (some n) m e = ground arith

judged-inv :
    (v : Verdict) (d : Dict Json) (m : ProtocolMessage)
    → judged v d ≡ received m
    → (v ≡ valid) × (from_dict d ≡ some m)
judged-inv (refused r) d m e = ground arith
judged-inv valid d m e = (refl, converted-inv (from_dict d) m e)

judged-valid :
    (d : Dict Json) (m : ProtocolMessage)
    → judged (validate d) d ≡ received m
    → validate (to_dict m) ≡ valid
judged-valid d m e =
    let (passed, made) = judged-inv (validate d) d m e in
    let complete = validate-lacks_fields d passed in
    to_dict-validate d m (from_dict-HasFields d m complete made) complete ∙ passed

accept-valid :
    (d : Dict Json) (m : ProtocolMessage) → accept d ≡ received m → validate (to_dict m) ≡ valid
unfolding accept
accept-valid [] m e = ground arith
accept-valid ((k, v) ∷ d) m e = judged-valid ((k, v) ∷ d) m e

judged-received :
    (d : Dict Json)
    → validate d ≡ valid
    → (m : ProtocolMessage) × (judged (validate d) d ≡ received m)
judged-received d v = elim (Option-cases (from_dict d)) [
  | inl none_made ↦ absurd (converted_valid d v none_made)
  | inr (m, made) ↦ (m, rw (v, made) refl)
]

empty-refused : validate [] ≢ valid
unfolding validate validate_raw_dict lacks_fields find
empty-refused e = ground arith

accept-received :
    (d : Dict Json) → validate d ≡ valid → (m : ProtocolMessage) × (accept d ≡ received m)
unfolding accept
accept-received [] v = absurd (empty-refused v)
accept-received ((k, v) ∷ d) e = judged-received ((k, v) ∷ d) e

-- What the documents of the library say: a text that `dumps` makes is read back by `loads`.
abbrev pub ReadsBack : {Bytes : Type 0} → JsonLibrary Bytes → Type 0
ReadsBack {Bytes} lib = (j : Json) (b : Bytes) → lib.dumps j ≡ some b → lib.loads b ≡ some j

module _ {Bytes : Type 0} (lib : JsonLibrary Bytes) where
  serialized :
      (m : ProtocolMessage) (b : Bytes)
      → validate (to_dict m) ≡ valid
      → lib.dumps (object (members_of (to_dict m))) ≡ some b
      → serialize lib m ≡ b
  unfolding serialize encode validate_message_object
  serialized m b v made = ground arith

  decoded :
      (m : ProtocolMessage) (b : Bytes)
      → lib.loads b ≡ some (object (members_of (to_dict m)))
      → decode lib b ≡ to_dict m
  unfolding decode
  decoded m b loaded = ground (arith, dict_of-members_of (to_dict m))

  -- With a JSON library that reads back what it writes, a valid message for which `dumps` makes a
  -- text is serialized to that text, and the other side gets the message back from it.
  pub deserialize-serialize :
      (m : ProtocolMessage) (b : Bytes)
      → ReadsBack lib
      → validate_message_object m ≡ valid
      → lib.dumps (object (members_of (to_dict m))) ≡ some b
      → (serialize lib m ≡ b) × (deserialize lib (serialize lib m) ≡ received m)
  unfolding deserialize validate_message_object
  deserialize-serialize m b back v made =
      let sent = serialized m b v made in
      let got = decoded m b (back _ b made) in
      (sent, ap accept (ap (decode lib) sent ∙ got) ∙ accept-to_dict m v)

  -- A message that `deserialize` returns passes `validate_message_object`, so that it can be sent on.
  pub deserialized-valid :
      (b : Bytes) (m : ProtocolMessage)
      → deserialize lib b ≡ received m
      → validate_message_object m ≡ valid
  unfolding deserialize validate_message_object
  deserialized-valid b m e = accept-valid (decode lib b) m e

  -- Whatever text decodes to a dictionary that passes both tests gives a message.
  pub deserialize-receives :
      (b : Bytes)
      → validate (decode lib b) ≡ valid
      → (m : ProtocolMessage) × (deserialize lib b ≡ received m)
  unfolding deserialize
  deserialize-receives b v = accept-received (decode lib b) v
