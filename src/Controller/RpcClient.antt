-- ===== src/Controller/RpcClient.antt =====
-- controller/rpc_client.py: the callers' threads and the reader's thread as steps on one state.
pub mod Ids
pub mod Delivery
pub mod Kept
pub mod Refused
pub mod EndToEnd
use tsanet.Prelude.{
  ℕ, ◌+◌, String, Bool, true, false, not, ◌≡◌, Option, none, some, List, [], ◌∷◌, ◌++◌, ◌==◌,
  if◌then◌else◌,
}
use tsanet.Prelude.Int.{ℤ, pos}
use tsanet.Errors.{Error, Kind, Result, ok, err, raise_error}
use tsanet.Protocol.Value.{Value, null, bool, int, text, list, dict, is_truthy}
use tsanet.Protocol.Value.Text.{str}
use tsanet.Protocol.Messages.{Request, Response, Event, Status, ok_status, error_status}

-- What a caller takes out of `_pending`: the data of a response, or an exception.
abbrev pub Answer : Type 0
Answer = Result Value

-- The fields of `RpcClient` that calls use: `_connection is not None`, `_error`, `_next_id`,
-- `_pending`, `_running` while the reader's loop has not ended, and the ids that a thread waits for.
pub record RpcClient : Type 0 where
  pub connected : Bool
  pub error : Option Error
  pub next_id : ℕ
  pub pending : List (ℕ × Answer)
  pub reading : Bool
  pub waiting : List ℕ

-- `RpcClient(config)`
abbrev pub new_client : RpcClient
new_client = record {
  connected = false;
  error = none;
  next_id = 0;
  pending = [];
  reading = false;
  waiting = [];
}

-- `connect()`, once the network has connected; `_next_id` and `_pending` are kept.
unfoldable pub connect : RpcClient → RpcClient
connect c = record c { connected = true; error = none; reading = true }

-- `pending[id]`
abbrev pub find : ℕ → List (ℕ × Answer) → Option Answer
find id [] = none
find id ((j, a) ∷ rest) = if j == id then some a else find id rest

-- `pending[id] = answer`
abbrev pub put : ℕ → Answer → List (ℕ × Answer) → List (ℕ × Answer)
put id answer [] = (id, answer) ∷ []
put id answer ((j, a) ∷ rest) = if j == id then (j, answer) ∷ rest else (j, a) ∷ put id answer rest

-- `pending.pop(id)`
abbrev pub pop : ℕ → List (ℕ × Answer) → List (ℕ × Answer)
pop id [] = []
pop id ((j, a) ∷ rest) = if j == id then rest else (j, a) ∷ pop id rest

-- The exception in place of each answer that is pending.
pub overwrite : Error → List (ℕ × Answer) → List (ℕ × Answer)
overwrite e [] = []
overwrite e ((j, a) ∷ rest) = (j, err e) ∷ overwrite e rest

-- `_record_error(exc)`
unfoldable pub record_error : Error → RpcClient → RpcClient
unfolding overwrite
record_error e c = record c { error = some e; pending = overwrite e c.pending }

-- How a call begins: it raises, or it has sent a request with its id and waits.
pub data Begun : Type 0 where
  raised : Error → Begun
  waits : ℕ → Begun

-- The first half of `call`, under `_lock`: `sent` is what `conn.send(req)` came to.
unfoldable pub begin_call : Result (Unit {0}) → RpcClient → Begun × RpcClient
begin_call sent c =
    if c.connected
    then elim c.error [
      | some e ↦ (raised e, c)
      | none ↦
          let id = c.next_id in
          let numbered : RpcClient = record c { next_id = id + 1 } in
          elim sent [
            | ok _ ↦ (waits id, record numbered { waiting = id ∷ c.waiting })
            | err e ↦ (raised e, record_error e numbered)
          ]
    ]
    else (raised (record { kind = Kind.transport_error; text = "not connected" }), c)

abbrev pub remove_id : ℕ → List ℕ → List ℕ
remove_id id [] = []
remove_id id (j ∷ rest) = if j == id then rest else j ∷ remove_id id rest

-- The second half of `call`, at a wake-up: `none` if the id is not pending, and it waits on.
unfoldable pub finish_call : ℕ → RpcClient → Option (Answer × RpcClient)
finish_call id c = elim (find id c.pending) [
  | none ↦ none
  | some answer ↦
      some (answer, record c { pending = pop id c.pending; waiting = remove_id id c.waiting })
]

-- `RpcError(resp.error or "unknown error")`, or the data
unfoldable pub answer_of : Response → Answer
answer_of r = elim r.status [
  | ok_status ↦ ok r.payload
  | error_status ↦
      raise_error Kind.rpc_error (if is_truthy r.error then str r.error else "unknown error")
]

-- Where `_pending[resp.id]` is: under a number that a call can wait for, under a key that none waits
-- for, or nowhere, as an id that has no hash. `False` and `True` are 0 and 1 as keys; a float, which no
-- hub sends, is taken to be a key that no call waits for.
pub data Place : Type 0 where
  under : ℕ → Place
  elsewhere unhashable : Place

unfoldable pub place : Value → Place
place (int (pos n)) = under n
place (bool false) = under 0
place (bool true) = under 1
place (list _) = unhashable
place (dict _) = unhashable
place _ = elsewhere

-- `_dispatch_response(resp)`; what is stored under a key that no call waits for is left out, and a
-- `TypeError` ends the reader's thread.
unfoldable pub dispatch_response : Response → RpcClient → RpcClient
unfolding answer_of place
dispatch_response r c = elim (place r.id) [
  | under id ↦ record c { pending = put id (answer_of r) c.pending }
  | elsewhere ↦ c
  | unhashable ↦ record c { reading = false }
]

-- The reader's `except Exception`: the error is recorded while the client runs, and the loop ends.
unfoldable pub reader_error : Error → RpcClient → RpcClient
unfolding record_error
reader_error e c = if c.reading then record (record_error e c) { reading = false } else c

-- `close()`: the reader's loop ends, and the connection is closed.
unfoldable pub close : RpcClient → RpcClient
close c = record c { connected = false; reading = false }
