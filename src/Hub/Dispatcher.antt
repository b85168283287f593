-- ===== src/Hub/Dispatcher.antt =====
-- hub/dispatcher.py: a request is routed to a command of the selected device, to the sessions, the
-- registry or the subscriptions; every exception becomes an error response.
pub mod Handlers
pub mod Laws
pub mod Isolation
pub mod Lna
pub mod Ready
pub mod Capture
pub mod Select
pub mod Unplugged
use tsanet.Prelude.{
  ℕ, String, Bool, true, false, ◌&&◌, ◌||◌, Option, none, some, List, [], ◌∷◌, map, fstring,
  if◌then◌else◌,
}
use tsanet.Errors.{Error, Kind, Result, ok, err, raise_error, Exec, pure, raise, lift, ◌>>=◌, ◌>>◌}
use tsanet.Protocol.Value.{
  Value, Items, Fields, null, bool, int, text, bytes, list, dict, nil, cons, end, field, is_truthy,
  is_text,
}
use tsanet.Protocol.Value.Text.{repr}
use tsanet.Protocol.Value.Access.{index, get_field}
use tsanet.Protocol.Messages.{Request, Response, ok_status, error_status}
use tsanet.Device.Link.{TinySa}
use tsanet.Device.Commands.Basic.{fetch_framebuffer}
use tsanet.Device.Model.{framebuffer}
use tsanet.Device.Rgb565.{decode_rgb565}
use tsanet.Device.Png.{encode_png}
use tsanet.Hub.Session.{
  Session, SessionManager, disconnect, select_device, allow_takeover, status, list_sessions,
  text_or_null,
}
use tsanet.Hub.Registry
use tsanet.Hub.Registry.{RegisteredDevice, DeviceRegistry, put_transport}
use tsanet.Hub.State.{Library, Hub, SubscriptionManager}
use tsanet.Hub.Subscriptions.{subscribe, unsubscribe}
use Handlers.{Handler, handler_for}

-- A method of one of the hub's objects.
on_sessions : {A : Type 0} → Exec SessionManager A → Exec Hub A
on_sessions m h = let (r, s) = m h.sessions in (r, record h { sessions = s })

on_subscriptions : {A : Type 0} → SubscriptionManager → Exec SubscriptionManager A → Exec Hub A
on_subscriptions manager m h = let (r, s) = m manager in (r, record h { subscriptions = some s })

-- A command on the device with the id, whose handle the registry holds.
pub on_device : {A : Type 0} → String → Exec TinySa A → Exec Hub A
on_device device_id m h = elim (Registry.get device_id h.registry) [
  | err e ↦ (err e, h)
  | ok d ↦
      let (r, tx) = m d.transport in
      (r, record h { registry = put_transport tx device_id h.registry })
]

-- `_resolve_device()`: the id of the selected device, if the registry has it.
selected : Option Session → Exec Hub String
selected none h = raise Kind.session_error "no active session" h
selected (some s) h = elim s.selected_device_id [
  | none ↦ raise Kind.dispatch_error "no device selected; use devices.select first" h
  | some device_id ↦ elim (Registry.get device_id h.registry) [
    | err e ↦ (err e, h)
    | ok d ↦ (ok device_id, h)
  ]
]

unfoldable pub resolve_device : Exec Hub String
unfolding selected
resolve_device h = selected h.sessions.current h

unknown_op : {A : Type 0} → String → Value → Exec Hub A
unknown_op domain op =
    raise Kind.dispatch_error (fstring ("unknown " ∷ domain ∷ " op: " ∷ repr op ∷ []))

device_entry : RegisteredDevice → Value
device_entry d = dict (
    field "device_id" (text d.device_id) (
      field "port" (text d.port) (
        field "model" (text d.info.model_string) (
          field "firmware" (text_or_null d.info.firmware)
            (field "hardware" (text d.info.hardware) (field "busy" (bool d.busy) end))))))

device_entries : List RegisteredDevice → Items
device_entries [] = nil
device_entries (d ∷ rest) = cons (device_entry d) (device_entries rest)

-- `self._registry.get(device_id)` and `self._sessions.select_device(device_id)` of any value: only a
-- text is the id of a device.
select_known : Value → Exec Hub Value
select_known (text device_id) h = elim (Registry.get device_id h.registry) [
  | err e ↦ (err e, h)
  | ok d ↦
      (do
        on_sessions (select_device device_id)
        pure (dict (field "selected" (text device_id) end)))
        h
]
select_known v h = raise Kind.key_error (repr v) h

-- `devices.select` of a device id, which may not be null, empty or zero
select_chosen : Value → Exec Hub Value
select_chosen device_id h =
    if is_truthy device_id
    then select_known device_id h
    else raise Kind.dispatch_error "device_id is required for devices.select" h

unfoldable pub handle_devices : Value → Value → Exec Hub Value
unfolding device_entries device_entry select_chosen select_known on_sessions unknown_op
handle_devices op args h =
    if is_text op "list"
    then (ok (list (device_entries (Registry.list h.registry))), h)
    else if is_text op "select"
    then (do device_id ← lift (get_field "device_id" null args); select_chosen device_id) h
    else unknown_op "devices" op h

unfoldable pub handle_session : Library → Value → Exec Hub Value
unfolding unknown_op
handle_session library op h =
    let uptime : String → String = λ started. library.floats.elapsed h.now started in
    if is_text op "status"
    then (ok (status uptime h.sessions), h)
    else if is_text op "list"
    then (ok (list_sessions uptime h.sessions), h)
    else if is_text op "disconnect"
    then (
      ok (dict (field "active" (bool false) end)),
      record h { sessions = disconnect h.sessions },
    )
    else if is_text op "force_takeover"
    then (
      ok (dict (field "active" (bool true) end)),
      record h { sessions = allow_takeover h.sessions },
    )
    else unknown_op "session" op h

-- The picture of a device: the raw framebuffer, decoded and encoded.
pub capture_png : Library → RegisteredDevice → Exec TinySa Value
capture_png library d = do
  let model = d.info.model
  let size = framebuffer model
  raw ← fetch_framebuffer model
  rgba ← lift (decode_rgb565 raw size.0 size.1)
  png ← lift (encode_png library.zlib rgba size.0 size.1)
  pure (bytes png)

unfoldable pub handle_capture : Library → String → Value → Exec Hub Value
unfolding capture_png on_device unknown_op
handle_capture library device_id op h =
    if is_text op "fetch"
    then elim (Registry.get device_id h.registry) [
      | err e ↦ (err e, h)
      | ok d ↦ on_device device_id (capture_png library d) h
    ]
    else unknown_op "capture" op h

-- `_handle_trace_subscription(op, args)`, after the test on the manager
unfoldable pub handle_trace_subscription : SubscriptionManager → Value → Value → Exec Hub Value
unfolding on_subscriptions unknown_op
handle_trace_subscription manager op args h =
    if is_text op "subscribe"
    then (do
      ids ← lift (index "ids" args)
      interval ← lift (get_field "interval" null args)
      on_subscriptions manager (subscribe ids interval h.registry h.sessions))
        h
    else if is_text op "unsubscribe"
    then on_subscriptions manager unsubscribe h
    else unknown_op "trace subscription" op h

-- The test on the manager, and what follows it.
subscription_request : Option SubscriptionManager → Value → Value → Exec Hub Value
subscription_request none op args =
    raise Kind.dispatch_error "subscriptions not configured on this hub"
subscription_request (some manager) op args = handle_trace_subscription manager op args

-- `tx = self._resolve_device()` and a call of the handler on it
pub on_selected : {A : Type 0} → Exec TinySa A → Exec Hub A
on_selected m = do device_id ← resolve_device; on_device device_id m

run_handler : Option Handler → Request → Exec Hub Value
run_handler none request =
    raise Kind.dispatch_error (fstring ("unknown domain: " ∷ repr request.domain ∷ []))
run_handler (some handler) request = on_selected (handler request.op request.args)

-- The look-up of the domain's handler, and its call.
pub route_command : Library → Request → Exec Hub Value
route_command library request = do
  handler ← lift (handler_for library.floats request.domain)
  run_handler handler request

unfoldable pub route : Library → Request → Exec Hub Value
unfolding subscription_request route_command run_handler on_selected on_device
route library request h =
    let op = request.op in
    let args = request.args in
    if is_text request.domain "devices"
    then handle_devices op args h
    else if is_text request.domain "session"
    then handle_session library op h
    else if is_text request.domain "capture"
    then (do device_id ← resolve_device; handle_capture library device_id op) h
    else if is_text request.domain "trace" && (is_text op "subscribe" || is_text op "unsubscribe")
    then subscription_request h.subscriptions op args h
    else route_command library request h

-- `Response(...)` of what a handler returned or raised.
abbrev pub respond : Value → Result Value → Response
respond id (ok payload) = record { id = id; status = ok_status; payload = payload; error = null }
respond id (err e) = record { id = id; status = error_status; payload = null; error = text e.text }

-- `dispatch(request, connection)`
unfoldable pub dispatch : Library → Request → Hub → Response × Hub
dispatch library request h = let (r, h') = route library request h in (respond request.id r, h')
