-- ===== src/Protocol/Messages.antt =====
-- protocol/messages.py: the three messages and their maps. Python checks no field's type, so a field
-- that a peer fills holds any value.
pub mod RoundTrip
use tsanet.Prelude.{String, ◌≡◌, Option, none, some, if◌then◌else◌}
use tsanet.Errors.Chain.{◌>>=◌}
use tsanet.Errors.{Result, ok, err, raise_error, Kind}
use tsanet.Protocol.Value.{
  Value, Fields, null, text, dict, end, field, get?, get_or, is_truthy, is_text,
}

pub data MessageType : Type 0 where
  request response event : MessageType

pub data Status : Type 0 where
  ok_status error_status : Status

pub record Request : Type 0 where
  pub id : Value
  pub domain : Value
  pub op : Value
  pub args : Value

pub record Response : Type 0 where
  pub id : Value
  pub status : Status
  pub payload : Value
  pub error : Value

pub record Event : Type 0 where
  pub subscription_id : Value
  pub domain : Value
  pub op : Value
  pub payload : Value

pub data Message : Type 0 where
  request_message : Request → Message
  response_message : Response → Message
  event_message : Event → Message

-- `MessageType(...).value`, `Status(...).value`
abbrev pub type_value : MessageType → String
type_value request = "request"
type_value response = "response"
type_value event = "event"

abbrev pub status_value : Status → String
status_value ok_status = "ok"
status_value error_status = "error"

-- `Request.to_dict`, `Response.to_dict`, `Event.to_dict`
unfoldable pub to_dict : Message → Value
to_dict (request_message m) = dict (
    field "type" (text (type_value request))
      (field "id" m.id (field "domain" m.domain (field "op" m.op (field "args" m.args end)))))
to_dict (response_message m) = dict (
    field "type" (text (type_value response)) (
      field "id" m.id (
        field "status" (text (status_value m.status))
          (field "data" m.payload (field "error" m.error end)))))
to_dict (event_message m) = dict (
    field "type" (text (type_value event)) (
      field "subscription_id" m.subscription_id
        (field "domain" m.domain (field "op" m.op (field "data" m.payload end)))))

-- The look-up of an enum's member by its value; `none` is the `ValueError`.
abbrev pub message_type : Value → Option MessageType
message_type v =
    if is_text v "request"
    then some request
    else if is_text v "response"
    then some response
    else if is_text v "event"
    then some event
    else none

abbrev pub status_of : Value → Result Status
status_of v =
    if is_text v "ok"
    then ok ok_status
    else if is_text v "error"
    then ok error_status
    else raise_error Kind.frame_error "not a valid Status"

-- `obj[k]` under the handler that turns a `KeyError` into a `FrameError`
abbrev pub require : String → Fields → Result Value
require k obj = elim (get? k obj) [ none ↦ raise_error Kind.frame_error k | some v ↦ ok v ]

-- `obj.get("args") or {}`
abbrev pub or_empty : Value → Value
or_empty v = if is_truthy v then v else dict end

build : MessageType → Fields → Result Message
build request obj = do
  id ← require "id" obj
  domain ← require "domain" obj
  op ← require "op" obj
  ok (
      request_message
        (record { id = id; domain = domain; op = op; args = or_empty (get_or "args" null obj) }))
build response obj = do
  id ← require "id" obj
  raw ← require "status" obj
  status ← status_of raw
  ok (
      response_message (record {
        id = id;
        status = status;
        payload = get_or "data" null obj;
        error = get_or "error" null obj;
      }))
build event obj = do
  subscription_id ← require "subscription_id" obj
  domain ← require "domain" obj
  op ← require "op" obj
  ok (
      event_message (record {
        subscription_id = subscription_id;
        domain = domain;
        op = op;
        payload = get_or "data" null obj;
      }))

unfoldable pub message_from_dict : Value → Result Message
unfolding build
message_from_dict (dict obj) = elim (message_type (get_or "type" null obj)) [
  | none ↦ raise_error Kind.frame_error "unknown message type"
  | some kind ↦ build kind obj
]
message_from_dict _ = raise_error Kind.frame_error "message must be a map"

-- Every message but a request whose arguments are no map.
abbrev pub HasArgs : Message → Type 0
HasArgs (request_message m) = (fields : Fields) × (m.args ≡ dict fields)
HasArgs (response_message m) = Unit
HasArgs (event_message m) = Unit
