-- ===== src/Hub/Dispatcher/Laws.antt =====
-- Proofs on what a request of hub/dispatcher.py does to the sessions.
use tsanet.Prelude.{
  ℕ, String, ◌≡◌, refl, ap, ◌⊎◌, inl, Bool, true, false, Option, none, some, arith, ◌&&◌, ◌||◌,
  if◌then◌else◌,
}
use tsanet.Errors.{Result, ok, err, Exec, lift, ◌>>=◌, bind-keeps}
use tsanet.Protocol.Value.{Value, null, text, is_text}
use tsanet.Protocol.Value.Access.{get_field}
use tsanet.Protocol.Messages.{Request}
use tsanet.Device.Link.{TinySa}
use tsanet.Hub.Session.{SessionManager, disconnect, select_device, allow_takeover}
use tsanet.Hub.State.{Library, Hub, SubscriptionManager}
use tsanet.Hub.Dispatcher.{
  on_sessions, on_device, resolve_device, select_known, handle_devices, select_chosen,
  handle_session, handle_capture, handle_trace_subscription, run_handler, on_selected,
  subscription_request, route_command, route,
}
use tsanet.Hub.Dispatcher.Handlers.{Handler, handler_for}

sessions-on_device :
    {A : Type 0} (id : String) (m : Exec TinySa A) (h : Hub)
    → (on_device id m h).1.sessions ≡ h.sessions
unfolding on_device
sessions-on_device id m h = ground arith

subscriptions-on_device :
    {A : Type 0} (id : String) (m : Exec TinySa A) (h : Hub)
    → (on_device id m h).1.subscriptions ≡ h.subscriptions
unfolding on_device
subscriptions-on_device id m h = ground arith

-- Resolving the device changes nothing.
pub hub-resolve_device : (h : Hub) → (resolve_device h).1 ≡ h
unfolding resolve_device
hub-resolve_device h = ground arith

sessions-handle_capture :
    (library : Library) (id : String) (op : Value) (h : Hub)
    → (handle_capture library id op h).1.sessions ≡ h.sessions
unfolding handle_capture
sessions-handle_capture library id op h = ground arith

sessions-handle_trace_subscription :
    (m : SubscriptionManager) (op args : Value) (h : Hub)
    → (handle_trace_subscription m op args h).1.sessions ≡ h.sessions
unfolding handle_trace_subscription
sessions-handle_trace_subscription m op args h = ground arith

-- What neither a look-up nor a command on a device changes, a device request leaves alone.
module _ {X : Type 0} (view : Hub → X)
    (steady : (id : String) (m : Exec TinySa Value) (h : Hub)
      → view (on_device id m h).1 ≡ view h) where
  view-run_handler :
      (handler : Option Handler) (request : Request) (h : Hub)
      → view (run_handler handler request h).1 ≡ view h
  unfolding run_handler on_selected
  view-run_handler none request h = refl
  view-run_handler (some handler) request h =
      bind-keeps view resolve_device (λ id. on_device id (handler request.op request.args))
        (λ s. ap view (hub-resolve_device s))
        (λ id s. steady id (handler request.op request.args) s) h

  view-route_command :
      (library : Library) (request : Request) (h : Hub)
      → view (route_command library request h).1 ≡ view h
  unfolding route_command
  view-route_command library request h =
      bind-keeps view (lift (handler_for library.floats request.domain))
        (λ handler. run_handler handler request) (λ s. refl)
        (λ handler s. view-run_handler handler request s) h

sessions-route_command :
    (library : Library) (request : Request) (h : Hub)
    → (route_command library request h).1.sessions ≡ h.sessions
sessions-route_command library request h =
    view-route_command (λ h. h.sessions) (λ id m h. sessions-on_device id m h) library request h

-- The connection that owns the session, if there is one.
abbrev pub owner : SessionManager → Option ℕ
owner m = elim m.current [ none ↦ none | some s ↦ some s.connection ]

-- Where a request can leave the sessions: no other connection owns the session after it, and none
-- was closed.
pub record KeepsOwner (before after : SessionManager) : Type 0 where
  pub owner_kept : (owner after ≡ owner before) ⊎ (owner after ≡ none)
  pub none_closed : after.closed ≡ before.closed

KeepsOwner-eq : {a b : SessionManager} → b ≡ a → KeepsOwner a b
KeepsOwner-eq e = record { owner_kept = inl (ap owner e); none_closed = ap (λ m. m.closed) e }

KeepsOwner-refl : (a : SessionManager) → KeepsOwner a a
KeepsOwner-refl a = KeepsOwner-eq refl

select_known-KeepsOwner :
    (v : Value) (h : Hub) → KeepsOwner h.sessions (select_known v h).1.sessions
unfolding select_known on_sessions select_device
select_known-KeepsOwner (text id) h = ground arith
select_known-KeepsOwner _ h = KeepsOwner-eq refl

select_chosen-KeepsOwner :
    (v : Value) (h : Hub) → KeepsOwner h.sessions (select_chosen v h).1.sessions
unfolding select_chosen
select_chosen-KeepsOwner v h = ground (arith, select_known-KeepsOwner v h)

select_arg-KeepsOwner :
    (r : Result Value) (h : Hub) → KeepsOwner h.sessions ((lift r >>= select_chosen) h).1.sessions
select_arg-KeepsOwner (ok v) h = select_chosen-KeepsOwner v h
select_arg-KeepsOwner (err e) h = KeepsOwner-eq refl

handle_devices-KeepsOwner :
    (op args : Value) (h : Hub) → KeepsOwner h.sessions (handle_devices op args h).1.sessions
unfolding handle_devices
handle_devices-KeepsOwner op args h =
    ground
      (arith, select_arg-KeepsOwner (get_field "device_id" null args) h, KeepsOwner-refl h.sessions)

handle_session-KeepsOwner :
    (library : Library) (op : Value) (h : Hub)
    → KeepsOwner h.sessions (handle_session library op h).1.sessions
unfolding handle_session disconnect allow_takeover
handle_session-KeepsOwner library op h = ground arith

sessions-capture :
    (library : Library) (op : Value) (h : Hub)
    → ((resolve_device >>= λ id. handle_capture library id op) h).1.sessions ≡ h.sessions
sessions-capture library op =
    bind-keeps (λ h. h.sessions) resolve_device (λ id. handle_capture library id op)
      (λ h. ap (λ h. h.sessions) (hub-resolve_device h))
      (λ id h. sessions-handle_capture library id op h)

sessions-subscription_request :
    (manager : Option SubscriptionManager) (op args : Value) (h : Hub)
    → (subscription_request manager op args h).1.sessions ≡ h.sessions
unfolding subscription_request
sessions-subscription_request none op args h = refl
sessions-subscription_request (some m) op args h = sessions-handle_trace_subscription m op args h

-- What holds of each outcome that a choice is made from holds of the outcome.
pub outcome-if :
    (P : Hub → Type 0) (b : Bool) (x y : Result Value × Hub)
    → P x.1
    → P y.1
    → P (if b then x else y).1
outcome-if P true x y px py = px
outcome-if P false x y px py = py

-- No request changes who owns the session except by ending it, and no request closes a connection.
pub route-KeepsOwner :
    (library : Library) (request : Request) (h : Hub)
    → KeepsOwner h.sessions (route library request h).1.sessions
unfolding route
route-KeepsOwner library request h =
    let Kept : Hub → Type 0 = λ h'. KeepsOwner h.sessions h'.sessions in
    let manager = h.subscriptions in
    let command = route_command library request h in
    let subscription = subscription_request manager request.op request.args h in
    let capture = (resolve_device >>= λ id. handle_capture library id request.op) h in
    let session = handle_session library request.op h in
    let is_subscription =
      is_text request.domain "trace"
      && (is_text request.op "subscribe" || is_text request.op "unsubscribe") in
    let last = if is_subscription then subscription else command in
    let later = if is_text request.domain "capture" then capture else last in
    outcome-if Kept (is_text request.domain "devices") (handle_devices request.op request.args h)
      (if is_text request.domain "session" then session else later)
      (handle_devices-KeepsOwner request.op request.args h)
      (outcome-if Kept (is_text request.domain "session") session later
        (handle_session-KeepsOwner library request.op h)
        (outcome-if Kept (is_text request.domain "capture") capture last
          (KeepsOwner-eq (sessions-capture library request.op h))
          (outcome-if Kept is_subscription subscription command
            (KeepsOwner-eq (sessions-subscription_request manager request.op request.args h))
            (KeepsOwner-eq (sessions-route_command library request h)))))
