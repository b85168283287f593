-- ===== src/Controller/RpcClient/EndToEnd.antt =====
-- Proofs on a call from end to end: controller/rpc_client.py, protocol/transport.py on both sides, and
-- hub/dispatcher.py.
use tsanet.Prelude.{
  ℕ, ◌≡◌, refl, sym, ap, ◌∙◌, String, Bool, true, false, not, none, some, List, [], append-nil,
  str_eq, if◌then◌else◌,
}
use tsanet.Prelude.Int.{pos}
use tsanet.Errors.{Kind, Result, ok, err, raise_error}
use tsanet.Protocol.Value.{Value, Fields, int}
use tsanet.Protocol.Value.Text.{str}
use tsanet.Protocol.Messages.{request_message, response_message}
use tsanet.Protocol.Codec.{MsgPack, IsMsgPack, encode}
use tsanet.Protocol.Transport.{Arrival, send, recv}
use tsanet.Protocol.Transport.Receive.{stream, IsQuiet, live}
use tsanet.Protocol.Transport.RoundTrip.{send_lem, recv-encode}
use tsanet.Hub.State.{Library, Hub}
use tsanet.Hub.Dispatcher.{route, respond, dispatch}
use tsanet.Hub.Dispatcher.Ready.{request_of}
use tsanet.Controller.RpcClient.{
  RpcClient, Answer, waits, begin_call, finish_call, answer_of, dispatch_response,
}
use tsanet.Controller.RpcClient.Delivery.{finish_call-dispatch_response}

-- What a caller is to get for what the hub's handler returned or raised.
abbrev pub outcome : Result Value → Answer
outcome (ok v) = ok v
outcome (err e) = raise_error Kind.rpc_error (if str_eq e.text "" then "unknown error" else e.text)

if-not : (b : Bool) (x y : String) → (if not b then x else y) ≡ (if b then y else x)
if-not true x y = refl
if-not false x y = refl

answer_of-respond : (id : Value) (r : Result Value) → answer_of (respond id r) ≡ outcome r
unfolding answer_of str
answer_of-respond id (ok v) = refl
answer_of-respond id (err e) =
    ap (raise_error Kind.rpc_error) (if-not (str_eq e.text "") e.text "unknown error")

respond_id : (id : Value) (r : Result Value) → (respond id r).id ≡ id
respond_id id (ok v) = refl
respond_id id (err e) = refl

begin_call-waits :
    (c : RpcClient) (sent : Result (Unit {0}))
    → c.connected ≡ true
    → c.error ≡ none
    → sent ≡ ok tt
    → (begin_call sent c).0 ≡ waits c.next_id
unfolding begin_call
begin_call-waits c sent connected alive e = rw (connected, begin_call) (rw alive (rw e refl))

pub call-answered :
    (mp : MsgPack)
    → IsMsgPack mp
    → (library : Library) (h : Hub) (c : RpcClient) (domain op : String) (args : Fields)
      (up down : List Arrival) (asked answered : List ℕ)
    → c.connected ≡ true
    → c.error ≡ none
    → let request = request_of (int (pos c.next_id)) domain op args in
      let response = (dispatch library request h).0 in
      encode mp (request_message request) ≡ ok asked
      → encode mp (response_message response) ≡ ok answered
      → IsQuiet up
      → stream up ≡ asked
      → IsQuiet down
      → stream down ≡ answered
      → ((begin_call (send mp (request_message request) (live down [])).0 c).0 ≡ waits c.next_id)
        × ((recv mp (live up [])).0 ≡ ok (request_message request))
        × ((recv mp (live down [])).0 ≡ ok (response_message response))
        × (c' : RpcClient) × (finish_call c.next_id
              (dispatch_response response (begin_call (ok tt) c).1)
            ≡ some (outcome (route library request h).0, c'))
unfolding dispatch
call-answered mp law library h c domain op args up down asked answered connected alive p q quiet_up
      e_up quiet_down e_down =
    let request = request_of (int (pos c.next_id)) domain op args in
    let r = (route library request h).0 in
    let response = respond request.id r in
    let (_, heard, _, _) =
      recv-encode mp law (request_message request) [] [] up (args, refl) p quiet_up
        (e_up ∙ sym (append-nil asked)) in
    let (_, got, _, _) =
      recv-encode mp law (response_message response) [] [] down tt q quiet_down
        (e_down ∙ sym (append-nil answered)) in
    let (c', done) =
      finish_call-dispatch_response c.next_id response (begin_call (ok tt) c).1
        (respond_id request.id r) in
    (
      begin_call-waits c (send mp (request_message request) (live down [])).0 connected alive
          (ap (λ o. o.0) (send_lem mp (request_message request) down [] p)),
      ap (λ o. o.0) heard,
      ap (λ o. o.0) got,
      c',
      done ∙ ap (λ a. some (a, c')) (answer_of-respond request.id r),
    )
