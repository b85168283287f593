-- ===== src/Protocol/Examples.antt =====
-- The protocol's theorems at concrete messages, sockets and tokens.
use tsanet.Prelude.{ℕ, ◌≡◌, ◌≢◌, refl, ap, ◌⊎◌, Option, none, some, List, [], ◌∷◌, arith, sym}
use tsanet.Errors.{Error, Kind, Result, ok, raise_error}
use tsanet.Protocol.Value.Same.{same_text, same, same_fields}
use tsanet.Protocol.Value.{Value, null, text, dict, end}
use tsanet.Protocol.Messages.{Message, request_message, to_dict, message_from_dict}
use tsanet.Protocol.Messages.RoundTrip.{message_from_dict-to_dict, message_from_dict-frame_error}
use tsanet.Protocol.Codec.{MsgPack, IsMsgPack, to_bytes, from_bytes, decode_length, encode}
use tsanet.Protocol.Codec.Laws.{
  IsFrame, encode-IsFrame, decode_length-ok_iff, decode_length-frame_error,
}
use tsanet.Protocol.Transport.{
  Arrival, segment, timeout, recv_loop, recv_exact_or, send, recv, close, socket_sendall,
}
use tsanet.Protocol.Transport.Receive.{stream, IsQuiet, live, recv_exact_or_short}
use tsanet.Protocol.Transport.Fuel.{recv_loop-enough}
use tsanet.Protocol.Transport.RoundTrip.{recvs, recvs-sends, recv_timeout}
use tsanet.Protocol.Security.{verify, present}
use tsanet.Protocol.Security.Handshake.{IsAccepted, IsRefused, handshake_agrees}

abbrev hello : Message
hello =
    request_message
      (record { id = text "7"; domain = text "device"; op = text "info"; args = dict end })

-- A packer that knows one message.
packed : {v : Value} → Option (v ≡ to_dict hello) → Result (List ℕ)
packed (some e) = ok (5 ∷ 6 ∷ [])
packed none = raise_error Kind.type_error "cannot pack"

abbrev one_message : MsgPack
one_message = record {
  packb = λ v. packed (same v (to_dict hello));
  unpackb = λ bytes. ok (to_dict hello);
}

packed-same :
    {v : Value} (o : Option (v ≡ to_dict hello)) {payload : List ℕ}
    → packed o ≡ ok payload
    → ok (to_dict hello) ≡ ok v
unfolding packed
packed-same (some e) h = ap ok (sym e)
packed-same none h = cc h

one_message-IsMsgPack : IsMsgPack one_message
one_message-IsMsgPack = record {
  unpackb-packb = λ v payload h. packed-same (same v (to_dict hello)) h;
}

-- The stream of two such messages in three segments, with a byte more.
abbrev delivered : List Arrival
delivered =
    segment (0 ∷ 0 ∷ 0 ∷ [])
    ∷ segment (2 ∷ 5 ∷ 6 ∷ 0 ∷ 0 ∷ 0 ∷ 2 ∷ 5 ∷ [])
    ∷ segment (6 ∷ 9 ∷ [])
    ∷ []

recvs-sends_example :
    (rest : List Arrival) × (recvs one_message 2 (live delivered [])
      ≡ (ok (hello ∷ hello ∷ []), live rest []))
    × IsQuiet rest
    × (stream rest ≡ 9 ∷ [])
unfolding send encode to_bytes socket_sendall packed same same_fields same_text to_dict
recvs-sends_example =
    recvs-sends one_message one_message-IsMsgPack (hello ∷ hello ∷ []) [] delivered (9 ∷ []) []
      (live [] (0 ∷ 0 ∷ 0 ∷ 2 ∷ 5 ∷ 6 ∷ 0 ∷ 0 ∷ 0 ∷ 2 ∷ 5 ∷ 6 ∷ []))
      ((end, refl), ((end, refl), tt)) refl tt refl

recv_timeout_example :
    recv one_message (live (segment (0 ∷ 0 ∷ []) ∷ timeout ∷ segment (0 ∷ 2 ∷ 5 ∷ 6 ∷ []) ∷ []) [])
    ≡ (raise_error Kind.socket_timeout "timed out", live (segment (0 ∷ 2 ∷ 5 ∷ 6 ∷ []) ∷ []) [])
recv_timeout_example =
    recv_timeout one_message 0 (0 ∷ []) [] (segment (0 ∷ 2 ∷ 5 ∷ 6 ∷ []) ∷ []) (omega arith)

recv_exact_or_short_example :
    (recv_exact_or "gone" 4 (live (segment (1 ∷ []) ∷ segment (2 ∷ 3 ∷ []) ∷ []) [])).0
    ≡ raise_error Kind.connection_closed "gone"
recv_exact_or_short_example =
    recv_exact_or_short "gone" 4 [] (segment (1 ∷ []) ∷ segment (2 ∷ 3 ∷ []) ∷ []) tt (omega arith)

message_from_dict-to_dict_example : message_from_dict (to_dict hello) ≡ ok hello
message_from_dict-to_dict_example = message_from_dict-to_dict hello (end, refl)

abbrev not_a_map : Error
not_a_map = record { kind = Kind.frame_error; text = "message must be a map" }

message_from_dict-frame_error_example : not_a_map.kind ≡ Kind.frame_error
unfolding message_from_dict
message_from_dict-frame_error_example = message_from_dict-frame_error null {e = not_a_map} refl

encode-IsFrame_example : IsFrame one_message hello (0 ∷ 0 ∷ 0 ∷ 2 ∷ 5 ∷ 6 ∷ [])
unfolding encode to_bytes packed same same_fields same_text to_dict
encode-IsFrame_example = encode-IsFrame one_message hello {bytes = 0 ∷ 0 ∷ 0 ∷ 2 ∷ 5 ∷ 6 ∷ []} refl

abbrev number_header : List ℕ
number_header = 0 ∷ 0 ∷ 1 ∷ 2 ∷ []

decode_length-ok_iff_example : decode_length number_header ≡ ok 258
decode_length-ok_iff_example =
    (decode_length-ok_iff number_header 258).1 ((0, 0, 1, 2, refl, refl), omega arith)

abbrev bad_header : Error
bad_header = record { kind = Kind.frame_error; text = "length header must be 4 bytes" }

bad_header-frame_error : bad_header.kind ≡ Kind.frame_error
unfolding decode_length
bad_header-frame_error = decode_length-frame_error (0 ∷ []) {e = bad_header} refl

abbrev to_hub : List Arrival
to_hub = segment (0 ∷ 1 ∷ []) ∷ segment (7 ∷ []) ∷ []

abbrev to_controller : List Arrival
to_controller = segment (0 ∷ []) ∷ []

abbrev controller_token : List ℕ
controller_token = 7 ∷ []

abbrev hub_token : List ℕ
hub_token = 8 ∷ []

handshake_agrees_example :
    ((controller_token ≡ hub_token)
      × IsAccepted (verify hub_token (live to_hub []))
      × IsAccepted (present controller_token (live to_controller [])))
    ⊎ ((controller_token ≢ hub_token)
        × IsRefused (verify hub_token (live to_hub []))
        × IsRefused (present controller_token (live to_controller [])))
unfolding to_bytes verify present recv_exact_or socket_sendall close from_bytes
handshake_agrees_example =
    handshake_agrees hub_token controller_token to_hub to_controller (omega arith) tt tt refl refl

recv_loop-enough_example :
    recv_loop "gone" 5 2 [] (live (segment (1 ∷ []) ∷ timeout ∷ []) [])
    ≡ recv_exact_or "gone" 2 (live (segment (1 ∷ []) ∷ timeout ∷ []) [])
recv_loop-enough_example =
    recv_loop-enough "gone" 5 2 (live (segment (1 ∷ []) ∷ timeout ∷ []) []) (omega arith)
