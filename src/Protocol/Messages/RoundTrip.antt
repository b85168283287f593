-- ===== src/Protocol/Messages/RoundTrip.antt =====
-- Proofs on `to_dict` and `message_from_dict` of protocol/messages.py.
use tsanet.Prelude.{◌≡◌, refl, arith}
use tsanet.Errors.{Error, ok, err, Kind}
use tsanet.Protocol.Value.{Value, Fields, dict, end, field, text}
use tsanet.Protocol.Messages.{
  Status, ok_status, error_status, Message, request_message, response_message, event_message,
  to_dict, message_from_dict, HasArgs, or_empty, status_of, status_value,
}

or_empty-dict : (fields : Fields) → or_empty (dict fields) ≡ dict fields
or_empty-dict end = refl
or_empty-dict (field k v rest) = refl

status_of-status_value : (s : Status) → status_of (text (status_value s)) ≡ ok s
status_of-status_value ok_status = refl
status_of-status_value error_status = refl

-- `message_from_dict` rebuilds the message that `to_dict` wrote. A request's arguments must be a
-- map, as its constructor's type says.
pub message_from_dict-to_dict : (m : Message) → HasArgs m → message_from_dict (to_dict m) ≡ ok m
unfolding message_from_dict to_dict
message_from_dict-to_dict (request_message m) (fields, e) = rw (e, or_empty-dict fields, ← e)
message_from_dict-to_dict (response_message m) h = rw (status_of-status_value m.status)
message_from_dict-to_dict (event_message m) h = refl

-- Every message that cannot be rebuilt is a `FrameError`, whatever the peer sent.
pub message_from_dict-frame_error :
    (v : Value) {e : Error} → message_from_dict v ≡ err e → e.kind ≡ Kind.frame_error
unfolding message_from_dict
message_from_dict-frame_error (Value.dict obj) h = ground arith
message_from_dict-frame_error _ h = ground arith
