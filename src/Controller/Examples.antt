-- ===== src/Controller/Examples.antt =====
-- The client's theorems at concrete calls.
use tsanet.Prelude.{
  ℕ, ◌≡◌, ◌≢◌, ◌⊎◌, refl, sym, ap, ◌∙◌, Option, none, some, bytes_eq, List, [], ◌∷◌, All, true,
  false, if◌then◌else◌,
}
use tsanet.Prelude.Int.{pos}
use tsanet.Errors.{Error, Kind, Result, ok, err, raise_error}
use tsanet.Protocol.Value.{Value, null, bool, int, text, dict, field, end}
use tsanet.Protocol.Messages.{Response, ok_status, request_message, response_message, to_dict}
use tsanet.Protocol.Value.Same.{same, same_text, same_int}
use tsanet.Protocol.Codec.{MsgPack, IsMsgPack, encode, to_bytes}
use tsanet.Protocol.Transport.{Arrival, segment, send, recv}
use tsanet.Protocol.Transport.Receive.{live}
use tsanet.Errors.Chain.{ok-eq}
use tsanet.Hub.Session
use tsanet.Hub.Session.{new_manager, new_session, Session}
use tsanet.Hub.Registry.{empty}
use tsanet.Hub.Dispatcher.{route, dispatch, handle_session}
use tsanet.Hub.Dispatcher.Ready.{request_of}
use tsanet.Controller.RpcClient.EndToEnd.{outcome, call-answered}
use tsanet.Hub.State.{Library, Hub}
use tsanet.Controller.RpcClient.{
  RpcClient, Answer, find, begin_call, finish_call, dispatch_response, reader_error, connect,
  new_client, waits,
}
use tsanet.Controller.RpcClient.Kept.{told, response-returned}
use tsanet.Controller.RpcClient.Refused.{serve_start-refused_call}
use tsanet.Hub.Server.{Server, new_server, serve_start}
use tsanet.Controller.RpcClient.Delivery.{
  begin, here, next, Reach-begin_call_fresh, reader_error_strands,
}

-- Two threads wait for the ids 0 and 1.
abbrev two_waiting : RpcClient
two_waiting = record {
  connected = true;
  error = none;
  next_id = 2;
  pending = [];
  reading = true;
  waiting = 1 ∷ 0 ∷ [];
}

abbrev reply : Response
reply = record { id = int (pos 1); status = ok_status; payload = text "tinySA"; error = null }

-- A third call begins between the response and the wake-up.
abbrev three_calls : RpcClient
three_calls = (begin_call (ok tt) (dispatch_response reply two_waiting)).1

response-returned_example :
    (a : Answer) × (d' : RpcClient) × (finish_call 1 three_calls ≡ some (a, d'))
    × ((a ≡ told reply.status reply.payload reply.error)
        ⊎ ((e : Error) × (a ≡ err e) × (three_calls.error ≡ some e)))
response-returned_example =
    response-returned 1 reply two_waiting three_calls refl
      (next here (begin (ok tt) (dispatch_response reply two_waiting))) (tt, tt)

-- A client whose first call has been sent.
abbrev one_call : RpcClient
one_call = (begin_call (ok tt) (connect new_client)).1

Reach-begin_call_fresh_example :
    (find 1 one_call.pending ≡ none) × All (λ j. j ≢ 1) one_call.waiting
unfolding begin_call connect
Reach-begin_call_fresh_example =
    Reach-begin_call_fresh one_call (ok tt) 1 (next here (begin (ok tt) (connect new_client)))
      (tt, tt) refl

abbrev hung_up : Error
hung_up = record { kind = Kind.connection_closed; text = "peer closed the connection" }

reader_error_strands_example : finish_call 0 (reader_error hung_up two_waiting) ≡ none
reader_error_strands_example =
    reader_error_strands hung_up 0 two_waiting (reader_error hung_up two_waiting) refl refl here

-- Arithmetic that no example reaches, and a zlib that stores.
abbrev library : Library
library = record {
  floats = record {
    greater = λ a b. false;
    float_of = λ s. none;
    int_of = λ s. raise_error Kind.value_error s;
    elapsed = λ now started. "0.0";
  };
  zlib = record { compress = λ raw. raw; crc32 = λ bytes. 0 };
}

-- A hub without devices, and the call that asks it for its session.
abbrev empty_hub : Hub
empty_hub = record { registry = empty; sessions = new_manager; subscriptions = none; now = "0.0" }

abbrev asking : Value
asking = to_dict (request_message (request_of (int (pos 0)) "session" "status" end))

abbrev answering : Value
answering = to_dict (
    response_message (record {
      id = int (pos 0);
      status = ok_status;
      payload = dict (field "active" (bool false) end);
      error = null;
    }))

-- A packer that knows the request and the response.
packed : {v : Value} → Option (v ≡ asking) → Option (v ≡ answering) → Result (List ℕ)
packed (some e) other = ok (1 ∷ [])
packed none (some e) = ok (2 ∷ [])
packed none none = raise_error Kind.type_error "cannot pack"

unpacked : List ℕ → Value
unpacked bytes = if bytes_eq bytes (1 ∷ []) then asking else answering

abbrev two_messages : MsgPack
two_messages = record {
  packb = λ v. packed (same v asking) (same v answering);
  unpackb = λ bytes. ok (unpacked bytes);
}

packed-unpacked :
    {v : Value} (o : Option (v ≡ asking)) (o' : Option (v ≡ answering)) {payload : List ℕ}
    → packed o o' ≡ ok payload
    → ok (unpacked payload) ≡ ok v
unfolding packed unpacked
packed-unpacked (some e) other h = ap (λ b. ok (unpacked b)) (sym (ok-eq h)) ∙ ap ok (sym e)
packed-unpacked none (some e) h = ap (λ b. ok (unpacked b)) (sym (ok-eq h)) ∙ ap ok (sym e)
packed-unpacked none none h = cc h

two_messages-IsMsgPack : IsMsgPack two_messages
two_messages-IsMsgPack = record {
  unpackb-packb = λ v payload h. packed-unpacked (same v asking) (same v answering) h;
}

-- The frames in two segments each.
abbrev way_up : List Arrival
way_up = segment (0 ∷ 0 ∷ []) ∷ segment (0 ∷ 1 ∷ 1 ∷ []) ∷ []

abbrev way_down : List Arrival
way_down = segment (0 ∷ 0 ∷ 0 ∷ []) ∷ segment (1 ∷ 2 ∷ []) ∷ []

call-answered_example :
    let request = request_of (int (pos 0)) "session" "status" end in
    let response = (dispatch library request empty_hub).0 in
    let c = connect new_client in
    ((begin_call (send two_messages (request_message request) (live way_down [])).0 c).0
      ≡ waits c.next_id)
    × ((recv two_messages (live way_up [])).0 ≡ ok (request_message request))
    × ((recv two_messages (live way_down [])).0 ≡ ok (response_message response))
    × (c' : RpcClient) × (finish_call c.next_id
          (dispatch_response response (begin_call (ok tt) c).1)
        ≡ some (outcome (route library request empty_hub).0, c'))
unfolding connect encode to_bytes packed same same_text same_int to_dict dispatch route
    handle_session Session.status
call-answered_example =
    call-answered two_messages two_messages-IsMsgPack library empty_hub (connect new_client)
      "session" "status" end way_up way_down (0 ∷ 0 ∷ 0 ∷ 1 ∷ 1 ∷ []) (0 ∷ 0 ∷ 0 ∷ 1 ∷ 2 ∷ []) refl
      refl refl refl tt refl tt refl

abbrev first_client : Session
first_client = new_session 1 "peer" "tcp" "0.0"

abbrev taken : Server
taken = record (new_server empty none "0.0") {
  hub = record empty_hub {
    sessions = record { current = some first_client; takeover_allowed = false; closed = [] };
  };
  serving = 1 ∷ [];
}

serve_start-refused_call_example :
    let s' = serve_start (ok tt) 2 "other" "tcp" taken in
    (s'.hub.sessions.current ≡ some first_client)
    × (s'.serving ≡ 1 ∷ [])
    × (s'.hub.sessions.closed ≡ 2 ∷ [])
    × (r : Response) × (s'.sent ≡ (2, r) ∷ [])
    × (let informed = dispatch_response r (connect new_client) in
        (id : ℕ) × ((begin_call (ok tt) informed).0 ≡ waits id)
        × (c' : RpcClient) × (finish_call id (begin_call (ok tt) informed).1
            ≡ some (raise_error Kind.rpc_error "a controller session is already active", c')))
serve_start-refused_call_example =
    serve_start-refused_call 2 "other" "tcp" taken first_client refl refl
