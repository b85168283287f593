-- ===== src/Controller/RpcClient/Delivery.antt =====
-- Proofs on controller/rpc_client.py: which caller gets which response.
use tsanet.Prelude.{
  ℕ, ◌+◌, ◌<◌, ◌≡◌, ◌≢◌, ◌∙◌, refl, ap, true, false, none, some, List, [], ◌∷◌, ◌==◌, All, arith,
  if◌then◌else◌,
}
use tsanet.Errors.{Error, Result, ok, err}
use tsanet.Prelude.Int.{pos}
use tsanet.Protocol.Value.{int}
use tsanet.Protocol.Messages.{Response}
use tsanet.Controller.RpcClient.{
  RpcClient, Answer, find, put, pop, remove_id, overwrite, record_error, waits, begin_call,
  finish_call, answer_of, Place, under, elsewhere, unhashable, place, dispatch_response,
  reader_error, close, connect, new_client,
}
use tsanet.Controller.RpcClient.Ids.{
  all_below, ids_below, all_below-weaken, ids_below-weaken, ids_below-put, ids_below-pop,
  ids_below-overwrite, all_below-remove_id, find-below, all_below-ne,
}

pub find-put :
    (id j : ℕ) (a : Answer) (p : List (ℕ × Answer))
    → find j (put id a p) ≡ (if id == j then some a else find j p)
find-put id j a [] = refl
find-put id j a ((k, b) ∷ p) = ground (arith, find-put id j a p)

pub find-pop_ne : (id j : ℕ) (p : List (ℕ × Answer)) → id ≢ j → find j (pop id p) ≡ find j p
find-pop_ne id j [] h = refl
find-pop_ne id j ((k, b) ∷ p) h = ground (arith, find-pop_ne id j p h)

dispatch_response-under :
    (r : Response) (c : RpcClient) (id : ℕ)
    → r.id ≡ int (pos id)
    → dispatch_response r c ≡ record c { pending = put id (answer_of r) c.pending }
unfolding dispatch_response place
dispatch_response-under r c id e = rw (ap place e, dispatch_response) refl

pub finish_call-found :
    (id : ℕ) (c : RpcClient) {a : Answer}
    → find id c.pending ≡ some a
    → finish_call id c
      ≡ some (a, record c { pending = pop id c.pending; waiting = remove_id id c.waiting })
unfolding finish_call
finish_call-found id c e = rw (e, finish_call) refl

pub find-dispatch_response :
    (id : ℕ) (r : Response) (c : RpcClient)
    → r.id ≡ int (pos id)
    → find id (dispatch_response r c).pending ≡ some (answer_of r)
find-dispatch_response id r c e =
    ap (λ d. find id d.pending) (dispatch_response-under r c id e)
    ∙ find-put id id (answer_of r) c.pending
    ∙ ground arith

-- A response that arrives for an id is what the call with that id returns at once.
pub finish_call-dispatch_response :
    (id : ℕ) (r : Response) (c : RpcClient)
    → r.id ≡ int (pos id)
    → (c' : RpcClient) × (finish_call id (dispatch_response r c) ≡ some (answer_of r, c'))
finish_call-dispatch_response id r c e =
    (_, finish_call-found id (dispatch_response r c) (find-dispatch_response id r c e))

-- The moves of the client's threads until `connect` is called again. The reader hands on responses
-- while its loop runs.
pub data Step : RpcClient → RpcClient → Type 0 where
  begin : (sent : Result (Unit {0})) (c : RpcClient) → Step c (begin_call sent c).1
  finish : (id : ℕ) (a : Answer) (c c' : RpcClient) → finish_call id c ≡ some (a, c') → Step c c'
  respond : (r : Response) (c : RpcClient) → c.reading ≡ true → Step c (dispatch_response r c)
  fail : (e : Error) (c : RpcClient) → Step c (reader_error e c)
  shut : (c : RpcClient) → Step c (close c)

pub data Reach (c : RpcClient) : RpcClient → Type 0 where
  here : Reach c c
  next : {d e : RpcClient} → Reach c d → Step d e → Reach c e

-- Every id that is waited for, and every id with an answer, was given out.
pub record IsNumbered (c : RpcClient) : Type 0 where
  waiting_below : all_below c.next_id c.waiting ≡ true
  pending_below : ids_below c.next_id c.pending ≡ true

begin_call-IsNumbered :
    (sent : Result (Unit {0})) (c : RpcClient) → IsNumbered c → IsNumbered (begin_call sent c).1
unfolding begin_call record_error all_below
begin_call-IsNumbered (ok u) c v = ground (
  arith,
  all_below-weaken c.next_id (c.next_id + 1) c.waiting,
  ids_below-weaken c.next_id (c.next_id + 1) c.pending,
)
begin_call-IsNumbered (err e) c v = ground (
  arith,
  all_below-weaken c.next_id (c.next_id + 1) c.waiting,
  ids_below-weaken c.next_id (c.next_id + 1) c.pending,
  ids_below-overwrite (c.next_id + 1) e c.pending,
)

finish_call-IsNumbered :
    (id : ℕ) (a : Answer) (c c' : RpcClient)
    → finish_call id c ≡ some (a, c')
    → IsNumbered c
    → IsNumbered c'
unfolding finish_call
finish_call-IsNumbered id a c c' h v =
    ground (arith, all_below-remove_id c.next_id id c.waiting, ids_below-pop c.next_id id c.pending)

reader_error-IsNumbered : (e : Error) (c : RpcClient) → IsNumbered c → IsNumbered (reader_error e c)
unfolding reader_error
reader_error-IsNumbered e c v = ground (arith, ids_below-overwrite c.next_id e c.pending)

-- A response for a call that was made.
abbrev pub IsSolicited : Response → RpcClient → Type 0
IsSolicited r c = (id : ℕ) → place r.id ≡ under id → id < c.next_id

dispatch_response-IsNumbered :
    (r : Response) (c : RpcClient)
    → IsSolicited r c
    → IsNumbered c
    → IsNumbered (dispatch_response r c)
unfolding dispatch_response
dispatch_response-IsNumbered r c h v = stored (place r.id) h
  where
    stored :
        (p : Place)
        → ((id : ℕ) → p ≡ under id → id < c.next_id)
        → IsNumbered (elim p [
          | under id ↦ record c { pending = put id (answer_of r) c.pending }
          | elsewhere ↦ c
          | unhashable ↦ record c { reading = false }
        ])
    stored (under id) h = record {
      waiting_below = v.waiting_below;
      pending_below =
          ids_below-put c.next_id id (answer_of r) c.pending (h id refl) v.pending_below;
    }
    stored elsewhere h = v
    stored unhashable h = record {
      waiting_below = v.waiting_below;
      pending_below = v.pending_below;
    }

-- Whether each response that came was one for a call that had been made.
abbrev pub Expected : {c d : RpcClient} → Step c d → Type 0
Expected (respond r c live) = IsSolicited r c
Expected _ = Unit

abbrev pub AreExpected : {c d : RpcClient} → Reach c d → Type 0
AreExpected here = Unit
AreExpected (next r s) = AreExpected r × Expected s

Step-IsNumbered : {c d : RpcClient} (s : Step c d) → Expected s → IsNumbered c → IsNumbered d
unfolding close
Step-IsNumbered (begin sent c) u v = begin_call-IsNumbered sent c v
Step-IsNumbered (finish id a c c' h) u v = finish_call-IsNumbered id a c c' h v
Step-IsNumbered (respond r c live) h v = dispatch_response-IsNumbered r c h v
Step-IsNumbered (fail e c) u v = reader_error-IsNumbered e c v
Step-IsNumbered (shut c) u v = record {
  waiting_below = v.waiting_below;
  pending_below = v.pending_below;
}

Reach-IsNumbered : {c d : RpcClient} → IsNumbered c → (r : Reach c d) → AreExpected r → IsNumbered d
Reach-IsNumbered v here u = v
Reach-IsNumbered v (next r s) (u, expected) = Step-IsNumbered s expected (Reach-IsNumbered v r u)

begin_call_id :
    (sent : Result (Unit {0})) (c : RpcClient) (id : ℕ)
    → (begin_call sent c).0 ≡ waits id
    → c.next_id ≡ id
unfolding begin_call
begin_call_id (ok u) c id h = ground arith
begin_call_id (err e) c id h = ground arith

begin_call_fresh :
    (sent : Result (Unit {0})) (c : RpcClient) (id : ℕ)
    → IsNumbered c
    → (begin_call sent c).0 ≡ waits id
    → (find id c.pending ≡ none) × All (λ j. j ≢ id) c.waiting
begin_call_fresh sent c id v h = rw (← begin_call_id sent c id h) (
  find-below c.next_id c.pending v.pending_below,
  all_below-ne c.next_id c.waiting v.waiting_below,
)

connect-IsNumbered : IsNumbered (connect new_client)
unfolding connect all_below ids_below
connect-IsNumbered = record { waiting_below = refl; pending_below = refl }

-- In any state that the threads of a new client reach, a call that begins gets an id that no other
-- call waits for and that has no answer left over, if each response that came before had the id of a
-- call that had been made by then. The hub's refusal of a second client, with the id 0, has not.
pub Reach-begin_call_fresh :
    (c : RpcClient) (sent : Result (Unit {0})) (id : ℕ) (r : Reach (connect new_client) c)
    → AreExpected r
    → (begin_call sent c).0 ≡ waits id
    → (find id c.pending ≡ none) × All (λ j. j ≢ id) c.waiting
Reach-begin_call_fresh c sent id r expected h =
    begin_call_fresh sent c id (Reach-IsNumbered connect-IsNumbered r expected) h

-- A client whose reader has ended and that has no answer for an id.
record IsStranded (id : ℕ) (c : RpcClient) : Type 0 where
  ended : c.reading ≡ false
  unanswered : find id c.pending ≡ none

find-overwrite :
    (id : ℕ) (e : Error) (p : List (ℕ × Answer)) → find id p ≡ none → find id (overwrite e p) ≡ none
unfolding overwrite
find-overwrite id e [] h = refl
find-overwrite id e ((j, a) ∷ p) h = ground (arith, find-overwrite id e p)

find-pop : (id j : ℕ) (p : List (ℕ × Answer)) → find id p ≡ none → find id (pop j p) ≡ none
find-pop id j [] h = refl
find-pop id j ((k, a) ∷ p) h = ground (arith, find-pop id j p)

Step-IsStranded : {id : ℕ} {c d : RpcClient} → Step c d → IsStranded id c → IsStranded id d
unfolding begin_call record_error finish_call reader_error close
Step-IsStranded {id} (begin (ok u) c) s = ground arith
Step-IsStranded {id} (begin (err e) c) s =
    let over = find-overwrite id e c.pending s.unanswered in ground arith
Step-IsStranded {id} (finish j a c c' h) s =
    let popped = find-pop id j c.pending s.unanswered in ground arith
Step-IsStranded (respond r c live) s = cc (live, s.ended)
Step-IsStranded (fail e c) s = ground arith
Step-IsStranded (shut c) s = record { ended = refl; unanswered = s.unanswered }

Reach-IsStranded : {id : ℕ} {c d : RpcClient} → IsStranded id c → Reach c d → IsStranded id d
Reach-IsStranded s here = s
Reach-IsStranded s (next r st) = Step-IsStranded st (Reach-IsStranded s r)

-- When the reader meets an error, a call that waits for a response which has not come is not woken
-- with that error: `_record_error` writes the error only over answers that are already there, and
-- no later step of the client's threads, until `connect` is called again, lets the call return.
pub reader_error_strands :
    (e : Error) (id : ℕ) (c d : RpcClient)
    → c.reading ≡ true
    → find id c.pending ≡ none
    → Reach (reader_error e c) d
    → finish_call id d ≡ none
unfolding reader_error record_error finish_call
reader_error_strands e id c d live waiting r =
    let over = find-overwrite id e c.pending waiting in
    let start : IsStranded id (reader_error e c) = ground arith in
    let s = Reach-IsStranded start r in rw (s.unanswered, finish_call)
