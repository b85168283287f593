-- ===== src/Hub/Dispatcher/Ready.antt =====
-- Proofs on what hub/dispatcher.py makes of a request when a device is selected.
use tsanet.Prelude.{
  ℕ, ◌≡◌, refl, sym, ap, ◌∙◌, inl, inr, String, Bool, true, false, some, List, if◌then◌else◌,
}
use tsanet.Errors.{Kind, Result, Result-cases, ok, err, Exec, pure, lift, continue, raised, ◌>>=◌}
use tsanet.Protocol.Value.{Value, Fields, text, dict}
use tsanet.Protocol.Messages.{Request}
use tsanet.Device.Link.{TinySa, Wire, send, send_binary, write_only}
use tsanet.Hub.Registry.{RegisteredDevice, get}
use tsanet.Hub.State.{Library, Hub}
use tsanet.Hub.Dispatcher.{
  resolve_device, on_device, on_selected, run_handler, route_command, route,
}
use tsanet.Hub.Dispatcher.Handlers.{Handler, handler_for, say}

-- The exceptions that tell that a request has no meaning: its domain or operation is unknown, or an
-- argument is missing or of the wrong type.
abbrev pub is_refusal : Kind → Bool
is_refusal Kind.dispatch_error = true
is_refusal Kind.key_error = true
is_refusal Kind.type_error = true
is_refusal Kind.attribute_error = true
is_refusal _ = false

abbrev pub refuses : {A : Type 0} → Result A → Bool
refuses r = raised is_refusal r

-- What the device raises tells of the device, not of the request.
abbrev pub IsPlain : TinySa → Type 0
IsPlain tx =
    ((sent : List Wire) (command : String) → refuses (tx.answer sent command) ≡ false)
    × ((sent : List Wire) (command : String) (expected : ℕ)
        → refuses (tx.answer_binary sent command expected) ≡ false)
    × ((sent : List Wire) (command : String) → refuses (tx.answer_bare sent command) ≡ false)

-- The session has selected a device that the registry holds.
pub record IsReady (h : Hub) : Type 0 where
  pub id : String
  pub device : RegisteredDevice
  pub selected : resolve_device h ≡ (ok id, h)
  pub known : get id h.registry ≡ ok device
  pub plain : IsPlain device.transport

abbrev pub request_of : Value → String → String → Fields → Request
request_of id domain op args = record {
  id = id;
  domain = text domain;
  op = text op;
  args = dict args;
}

-- A hub on which a device is selected never refuses the request.
pub record IsUnderstood (library : Library) (domain op : String) (args : Fields) : Type 0 where
  pub at :
      (id : Value) (h : Hub)
      → IsReady h
      → refuses (route library (request_of id domain op args) h).0 ≡ false

-- A program on a device that refuses nothing by itself.
abbrev pub Plain : {A : Type 0} → Exec TinySa A → Type 0
Plain m = (tx : TinySa) → IsPlain tx → (refuses (m tx).0 ≡ false) × IsPlain (m tx).1

pub Plain-send : (command : String) → Plain (send command)
unfolding send
Plain-send command tx p = (p.0 tx.sent command, p)

pub Plain-send_binary : (command : String) (expected : ℕ) → Plain (send_binary command expected)
unfolding send_binary
Plain-send_binary command expected tx p = (
  elim (Result-cases (tx.answer_binary tx.sent command expected)) [
    | inl (e, failed) ↦
        rw (failed, send_binary) (ap refuses (sym failed) ∙ p.1 tx.sent command expected)
    | inr (raw, answered) ↦ rw (answered, send_binary) refl
  ],
  p,
)

pub Plain-write_only : (command : String) → Plain (write_only command)
unfolding write_only
Plain-write_only command tx p = (p.2 tx.sent command, p)

pub Plain-lift : {A : Type 0} (r : Result A) → refuses r ≡ false → Plain (lift r)
Plain-lift r h tx p = (h, p)

Plain-continue :
    {A B : Type 0} (k : A → Exec TinySa B) (r : Result A × TinySa)
    → ((a : A) → Plain (k a))
    → refuses r.0 ≡ false
    → IsPlain r.1
    → (refuses (continue k r).0 ≡ false) × IsPlain (continue k r).1
Plain-continue k (ok a, tx) hk h p = hk a tx p
Plain-continue k (err e, tx) hk h p = (h, p)

pub Plain-bind :
    {A B : Type 0} (m : Exec TinySa A) (k : A → Exec TinySa B)
    → Plain m
    → ((a : A) → Plain (k a))
    → Plain (m >>= k)
Plain-bind m k hm hk tx p = let (h, q) = hm tx p in Plain-continue k (m tx) hk h q

pub Plain-say : (command : String) → Plain (say (send command))
Plain-say command =
    Plain-bind (send command) (λ answer. pure (text answer)) (Plain-send command)
      (λ answer tx p. (refl, p))

pub Plain-if :
    {A : Type 0} (b : Bool) (m n : Exec TinySa A) → Plain m → Plain n → Plain (if b then m else n)
Plain-if true m n hm hn = hm
Plain-if false m n hm hn = hn

pub refuses-on_device :
    (id : String) (d : RegisteredDevice) (m : Exec TinySa Value) (h : Hub)
    → get id h.registry ≡ ok d
    → IsPlain d.transport
    → Plain m
    → refuses (on_device id m h).0 ≡ false
unfolding on_device
refuses-on_device id d m h known p hm = rw (known, on_device) ((hm d.transport p).0)

refuses-on_selected :
    (m : Exec TinySa Value) (h : Hub) → IsReady h → Plain m → refuses (on_selected m h).0 ≡ false
unfolding on_selected
refuses-on_selected m h ready hm =
    ap (λ o. refuses (continue (λ id. on_device id m) o).0) ready.selected
    ∙ refuses-on_device ready.id ready.device m h ready.known ready.plain hm

-- A request for a handler of the device.
pub IsUnderstood-command :
    (library : Library) (domain op : String) (args : Fields) (handler : Handler)
    → ((id : Value) (h : Hub)
        → route library (request_of id domain op args) h
          ≡ route_command library (request_of id domain op args) h)
    → handler_for library.floats (text domain) ≡ ok (some handler)
    → Plain (handler (text op) (dict args))
    → IsUnderstood library domain op args
unfolding route_command run_handler
IsUnderstood-command library domain op args handler routed found hm = record {
  at = λ id h ready.
      ap (λ o. refuses o.0) (routed id h)
      ∙ rw (found, route_command) (refuses-on_selected (handler (text op) (dict args)) h ready hm);
}
