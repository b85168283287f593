-- ===== src/Hub/Dispatcher/Isolation.antt =====
-- Proofs on which devices a request of hub/dispatcher.py reaches.
use tsanet.Prelude.{
  Bool-cases, String, ◌≡◌, ◌≢◌, refl, ap, ◌∙◌, ◌&&◌, ◌||◌, if◌then◌else◌, Option, none, some, inl,
  inr, arith,
}
use tsanet.Errors.{Result-cases, ok, Exec, lift, ◌>>=◌, bind-keeps, bind-ok, bind-err}
use tsanet.Protocol.Value.{Value, null, text, is_text}
use tsanet.Protocol.Value.Access.{get_field}
use tsanet.Protocol.Messages.{Request}
use tsanet.Device.Link.{TinySa}
use tsanet.Hub.Registry.{get}
use tsanet.Hub.Registry.Laws.{get-put_transport_ne}
use tsanet.Hub.State.{Library, Hub, SubscriptionManager}
use tsanet.Hub.Dispatcher.{
  on_sessions, on_device, selected, resolve_device, select_known, select_chosen, handle_devices,
  handle_session, capture_png, handle_capture, handle_trace_subscription, subscription_request,
  on_selected, run_handler, route_command, route,
}
use tsanet.Hub.Dispatcher.Handlers.{Handler, handler_for}
use tsanet.Hub.Dispatcher.Laws.{hub-resolve_device, outcome-if}

-- The id of the device that the session has selected.
abbrev pub selected_id : Hub → Option String
selected_id h = elim h.sessions.current [ none ↦ none | some s ↦ s.selected_device_id ]

resolve_device-selected :
    (h : Hub) (id : String) → (resolve_device h).0 ≡ ok id → selected_id h ≡ some id
unfolding resolve_device selected
resolve_device-selected h id e = ground arith

get-on_device :
    {A : Type 0} (id other : String) (m : Exec TinySa A) (h : Hub)
    → id ≢ other
    → get other (on_device id m h).1.registry ≡ get other h.registry
unfolding on_device
get-on_device id other m h apart = elim (Result-cases (get id h.registry)) [
  | inl (e, p) ↦ rw (p, on_device) refl
  | inr (d, p) ↦
      rw (p, on_device) (get-put_transport_ne (m d.transport).1 id other apart h.registry)
]

-- What a handler of the resolved device does.
isolated-resolved :
    (other : String) (k : String → Exec Hub Value)
    → ((id : String) (h : Hub) → id ≢ other → get other (k id h).1.registry ≡ get other h.registry)
    → (h : Hub) → selected_id h ≢ some other
    → get other ((resolve_device >>= k) h).1.registry ≡ get other h.registry
isolated-resolved other k hk h apart = elim (Result-cases (resolve_device h).0) [
  | inl (e, p) ↦
      ap (λ r. get other r.1.registry)
        (bind-err resolve_device k (λ i. (p i, hub-resolve_device h i)))
  | inr (id, p) ↦
      ap (λ r. get other r.1.registry)
        (bind-ok resolve_device k (λ i. (p i, hub-resolve_device h i)))
      ∙ hk id h (λ same. apart (resolve_device-selected h id p ∙ ap some same))
]

get-handle_capture :
    (library : Library) (op : Value) (id other : String) (h : Hub)
    → id ≢ other
    → get other (handle_capture library id op h).1.registry ≡ get other h.registry
unfolding handle_capture
get-handle_capture library op id other h apart = elim (Bool-cases (is_text op "fetch")) [
  | inl fetch ↦ elim (Result-cases (get id h.registry)) [
    | inl (e, p) ↦ rw (fetch, p, handle_capture) refl
    | inr (d, p) ↦
        rw (fetch, p, handle_capture) (get-on_device id other (capture_png library d) h apart)
  ]
  | inr unknown ↦ rw (unknown, handle_capture) refl
]

get-run_handler :
    (handler : Option Handler) (request : Request) (other : String) (h : Hub)
    → selected_id h ≢ some other
    → get other (run_handler handler request h).1.registry ≡ get other h.registry
unfolding run_handler on_selected
get-run_handler none request other h apart = refl
get-run_handler (some handler) request other h apart =
    isolated-resolved other (λ id. on_device id (handler request.op request.args))
      (λ id h different. get-on_device id other (handler request.op request.args) h different) h
      apart

get-route_command :
    (library : Library) (request : Request) (other : String) (h : Hub)
    → selected_id h ≢ some other
    → get other (route_command library request h).1.registry ≡ get other h.registry
unfolding route_command
get-route_command library request other h apart =
    elim (Result-cases (handler_for library.floats request.domain)) [
      | inl (e, p) ↦ rw (p, route_command) refl
      | inr (handler, p) ↦ rw (p, route_command) (get-run_handler handler request other h apart)
    ]

registry-select_known : (v : Value) (h : Hub) → (select_known v h).1.registry ≡ h.registry
unfolding select_known on_sessions
registry-select_known (text id) h = ground arith
registry-select_known _ h = refl

registry-select_chosen : (v : Value) (h : Hub) → (select_chosen v h).1.registry ≡ h.registry
unfolding select_chosen
registry-select_chosen v h = ground (arith, registry-select_known v h)

registry-handle_devices :
    (op args : Value) (h : Hub) → (handle_devices op args h).1.registry ≡ h.registry
unfolding handle_devices
registry-handle_devices op args h = ground (
  arith,
  bind-keeps (λ h. h.registry) (lift (get_field "device_id" null args)) select_chosen (λ h. refl)
      registry-select_chosen h,
)

registry-handle_session :
    (library : Library) (op : Value) (h : Hub)
    → (handle_session library op h).1.registry ≡ h.registry
unfolding handle_session
registry-handle_session library op h = ground arith

registry-subscription_request :
    (manager : Option SubscriptionManager) (op args : Value) (h : Hub)
    → (subscription_request manager op args h).1.registry ≡ h.registry
unfolding subscription_request handle_trace_subscription
registry-subscription_request none op args h = refl
registry-subscription_request (some m) op args h = ground arith

-- No request changes what the registry has of a device that the session has not selected: its handle,
-- and so the commands that it was sent, whether it is busy, and whether it is registered at all.
pub route-isolated :
    (library : Library) (request : Request) (h : Hub) (other : String)
    → selected_id h ≢ some other
    → get other (route library request h).1.registry ≡ get other h.registry
unfolding route
route-isolated library request h other apart =
    let Same : Hub → Type 0 = λ h'. get other h'.registry ≡ get other h.registry in
    let manager = h.subscriptions in
    let command = route_command library request h in
    let subscription = subscription_request manager request.op request.args h in
    let capture = (resolve_device >>= λ id. handle_capture library id request.op) h in
    let session = handle_session library request.op h in
    let is_subscription =
      is_text request.domain "trace"
      && (is_text request.op "subscribe" || is_text request.op "unsubscribe") in
    let last = if is_subscription then subscription else command in
    let later = if is_text request.domain "capture" then capture else last in
    outcome-if Same (is_text request.domain "devices") (handle_devices request.op request.args h)
      (if is_text request.domain "session" then session else later)
      (ap (get other) (registry-handle_devices request.op request.args h))
      (outcome-if Same (is_text request.domain "session") session later
        (ap (get other) (registry-handle_session library request.op h))
        (outcome-if Same (is_text request.domain "capture") capture last
          (isolated-resolved other (λ id. handle_capture library id request.op)
            (λ id h different. get-handle_capture library request.op id other h different) h apart)
          (outcome-if Same is_subscription subscription command
            (ap (get other) (registry-subscription_request manager request.op request.args h))
            (get-route_command library request other h apart))))
