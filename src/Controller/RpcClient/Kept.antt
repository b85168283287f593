-- ===== src/Controller/RpcClient/Kept.antt =====
-- Proofs on controller/rpc_client.py: how long an answer waits for its caller.
use tsanet.Prelude.{
  ℕ, ◌≡◌, ◌≢◌, ◌⊎◌, refl, ap, ◌∙◌, inl, inr, false, some, List, [], ◌∷◌, ◌==◌, arith, if◌then◌else◌,
  ==_iff, Bool-cases, Option-cases,
}
use tsanet.Prelude.Int.{pos}
use tsanet.Errors.{Error, Kind, Result, ok, err, raise_error}
use tsanet.Protocol.Value.{Value, int, is_truthy}
use tsanet.Protocol.Value.Text.{str}
use tsanet.Protocol.Messages.{Response, Status, ok_status, error_status}
use tsanet.Controller.RpcClient.{
  RpcClient, Answer, find, put, pop, overwrite, record_error, begin_call, finish_call, answer_of,
  Place, under, elsewhere, unhashable, place, dispatch_response, reader_error, close,
}
use tsanet.Controller.RpcClient.Delivery.{
  Step, begin, finish, respond, fail, shut, Reach, here, next, find-put, find-pop_ne,
  finish_call-found, find-dispatch_response,
}

-- What a response tells a caller: the data, or an `RpcError` with the text of the error.
abbrev pub told : Status → Value → Value → Answer
told ok_status payload error = ok payload
told error_status payload error =
    if is_truthy error
    then raise_error Kind.rpc_error (str error)
    else raise_error Kind.rpc_error "unknown error"

-- Steps that neither return from the call with the id nor bring another response for it.
abbrev pub LeavesAlone : ℕ → {c d : RpcClient} → Step c d → Type 0
LeavesAlone id (finish j a c c' h) = j ≢ id
LeavesAlone id (respond r c live) = place r.id ≢ under id
LeavesAlone id _ = Unit

abbrev pub LeaveAlone : ℕ → {c d : RpcClient} → Reach c d → Type 0
LeaveAlone id here = Unit
LeaveAlone id (next r s) = LeaveAlone id r × LeavesAlone id s

-- The answer waits under the id, or the error of the connection in its place.
abbrev Holds : ℕ → Answer → RpcClient → Type 0
Holds id a c =
    (find id c.pending ≡ some a)
    ⊎ ((e : Error) × (find id c.pending ≡ some (err e)) × (c.error ≡ some e))

find-overwrite-some :
    (id : ℕ) (e : Error) (p : List (ℕ × Answer)) {a : Answer}
    → find id p ≡ some a
    → find id (overwrite e p) ≡ some (err e)
unfolding overwrite
find-overwrite-some id e [] h = cc h
find-overwrite-some id e ((j, b) ∷ p) h = elim (Bool-cases (j == id)) [
  | inl mine ↦ rw mine refl
  | inr other ↦ rw other (find-overwrite-some id e p (rw other at h))
]

-- Pending answers that are the same under the id, and the same error.
Holds-same :
    (id : ℕ) (a : Answer) (c d : RpcClient)
    → find id d.pending ≡ find id c.pending
    → d.error ≡ c.error
    → Holds id a c
    → Holds id a d
Holds-same id a c d p q (inl h) = inl (p ∙ h)
Holds-same id a c d p q (inr (e, h, k)) = inr (e, p ∙ h, q ∙ k)

Holds-failed :
    (id : ℕ) (a : Answer) (e : Error) (c d : RpcClient)
    → d.pending ≡ overwrite e c.pending
    → d.error ≡ some e
    → Holds id a c
    → Holds id a d
Holds-failed id a e c d p q (inl h) =
    inr (e, ap (find id) p ∙ find-overwrite-some id e c.pending h, q)
Holds-failed id a e c d p q (inr (x, h, _)) =
    inr (e, ap (find id) p ∙ find-overwrite-some id e c.pending h, q)

begin_call-Holds :
    (id : ℕ) (a : Answer) (sent : Result (Unit {0})) (c : RpcClient)
    → Holds id a c
    → Holds id a (begin_call sent c).1
unfolding begin_call record_error
begin_call-Holds id a (ok u) c h =
    Holds-same id a c (begin_call (ok u) c).1 (ap (find id) (ground arith)) (ground arith) h
begin_call-Holds id a (err e) c h = elim (Bool-cases c.connected) [
  | inr off ↦
      Holds-same id a c (begin_call (err e) c).1 (ap (find id) (ground arith)) (ground arith) h
  | inl on ↦ elim (Option-cases c.error) [
    | inr (x, failed) ↦
        Holds-same id a c (begin_call (err e) c).1 (ap (find id) (ground arith)) (ground arith) h
    | inl alive ↦ Holds-failed id a e c (begin_call (err e) c).1 (ground arith) (ground arith) h
  ]
]

dispatch_response-Holds :
    (id : ℕ) (a : Answer) (r : Response) (c : RpcClient)
    → place r.id ≢ under id
    → Holds id a c
    → Holds id a (dispatch_response r c)
unfolding dispatch_response
dispatch_response-Holds id a r c other h = stored (place r.id) other
  where
    stored :
        (p : Place)
        → p ≢ under id
        → Holds id a (elim p [
          | under j ↦ record c { pending = put j (answer_of r) c.pending }
          | elsewhere ↦ c
          | unhashable ↦ record c { reading = false }
        ])
    stored (under j) other =
        Holds-same id a c (record c { pending = put j (answer_of r) c.pending })
          (elim (Bool-cases (j == id)) [
            | inl same ↦ absurd (other (ap under ((==_iff j id).0 same)))
            | inr differ ↦ find-put j id (answer_of r) c.pending ∙ rw differ refl
          ])
          refl h
    stored elsewhere other = h
    stored unhashable other = h

reader_error-Holds :
    (id : ℕ) (a : Answer) (e : Error) (c : RpcClient) → Holds id a c → Holds id a (reader_error e c)
unfolding reader_error record_error
reader_error-Holds id a e c h = elim (Bool-cases c.reading) [
  | inl live ↦ Holds-failed id a e c (reader_error e c) (ground arith) (ground arith) h
  | inr dead ↦ Holds-same id a c (reader_error e c) (ap (find id) (ground arith)) (ground arith) h
]

Step-Holds :
    (id : ℕ) (a : Answer) {c d : RpcClient} (s : Step c d)
    → LeavesAlone id s
    → Holds id a c
    → Holds id a d
unfolding close finish_call
Step-Holds id a (begin sent c) u h = begin_call-Holds id a sent c h
Step-Holds id a (finish j b c c' e) other h =
    Holds-same id a c c' (ap (find id) (popped e) ∙ find-pop_ne j id c.pending other) (ground arith)
      h
  where
    popped : finish_call j c ≡ some (b, c') → c'.pending ≡ pop j c.pending
    popped e = ground arith
Step-Holds id a (respond r c live) other h = dispatch_response-Holds id a r c other h
Step-Holds id a (fail e c) u h = reader_error-Holds id a e c h
Step-Holds id a (shut c) u h = h

Reach-Holds :
    (id : ℕ) (a : Answer) {c d : RpcClient} (r : Reach c d)
    → LeaveAlone id r
    → Holds id a c
    → Holds id a d
Reach-Holds id a here u h = h
Reach-Holds id a (next r s) (u, v) h = Step-Holds id a s v (Reach-Holds id a r u h)

told_by :
    (status : Status) (payload error : Value)
    → (elim status [
      | ok_status ↦ ok payload
      | error_status ↦
          raise_error Kind.rpc_error (if is_truthy error then str error else "unknown error")
    ])
      ≡ told status payload error
told_by ok_status payload error = refl
told_by error_status payload error = elim (Bool-cases (is_truthy error)) [
  | inl some_text ↦ rw some_text refl
  | inr empty ↦ rw empty refl
]

answer_of-told : (r : Response) → answer_of r ≡ told r.status r.payload r.error
unfolding answer_of
answer_of-told r = told_by r.status r.payload r.error

-- A response for a call is what the call returns or raises, whenever its thread wakes up: the data, or
-- an `RpcError` with the response's error. Only an error of the connection that is recorded before then
-- takes its place. Between the two the client's threads take any steps but the call's own return and
-- another response with its id, until `connect` is called again.
pub response-returned :
    (id : ℕ) (r : Response) (c d : RpcClient)
    → r.id ≡ int (pos id)
    → (steps : Reach (dispatch_response r c) d) → LeaveAlone id steps
    → (a : Answer) × (d' : RpcClient) × (finish_call id d ≡ some (a, d'))
      × ((a ≡ told r.status r.payload r.error) ⊎ ((e : Error) × (a ≡ err e) × (d.error ≡ some e)))
response-returned id r c d e steps apart =
    elim (Reach-Holds id (answer_of r) steps apart (inl (find-dispatch_response id r c e))) [
      | inl h ↦ (answer_of r, _, finish_call-found id d h, inl (answer_of-told r))
      | inr (x, h, failed) ↦ (err x, _, finish_call-found id d h, inr (x, refl, failed))
    ]
