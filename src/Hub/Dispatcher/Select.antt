-- ===== src/Hub/Dispatcher/Select.antt =====
-- Proofs on the device that hub/dispatcher.py selects and then commands.
use tsanet.Prelude.{
  String, ◌≡◌, refl, sym, ap, ◌∙◌, false, ◌&&◌, ◌||◌, none, some, str_eq, eq_iff, Bool-cases, inl,
  inr,
}
use tsanet.Errors.{ok, Exec}
use tsanet.Errors.Chain.{ok-eq}
use tsanet.Device.Link.{TinySa}
use tsanet.Protocol.Value.{Value, text, dict, end, field, is_text}
use tsanet.Protocol.Value.Access.{get_field, Floats}
use tsanet.Protocol.Messages.{Request}
use tsanet.Hub.Session.{Session, select_device}
use tsanet.Hub.Registry.{RegisteredDevice, get}
use tsanet.Hub.Registry.Laws.{get-put_transport_eq}
use tsanet.Hub.State.{Library, Hub}
use tsanet.Hub.Dispatcher.{
  on_device, on_sessions, on_selected, selected, resolve_device, select_known, select_chosen,
  handle_devices, run_handler, route_command, route,
}
use tsanet.Hub.Dispatcher.Handlers.{Handler, handler_for}
use tsanet.Hub.Dispatcher.Ready.{request_of}

-- The hub of which the session has selected the device.
abbrev pub with_selected : String → Session → Hub → Hub
with_selected id s h = record h {
  sessions = record h.sessions { current = some (record s { selected_device_id = some id }) };
}

module _ (id : String) (s : Session) (d : RegisteredDevice) (h : Hub)
    (known : get id h.registry ≡ ok d) where
  select-route :
      (library : Library) (rid : Value)
      → str_eq id "" ≡ false
      → h.sessions.current ≡ some s
      → route library (request_of rid "devices" "select" (field "device_id" (text id) end)) h
        ≡ (ok (dict (field "selected" (text id) end)), with_selected id s h)
  unfolding route handle_devices get_field select_chosen select_known on_sessions select_device
  select-route library rid named session =
      rw (named, known, session, select_known, select_device) refl

  resolve_device-with_selected :
      resolve_device (with_selected id s h) ≡ (ok id, with_selected id s h)
  unfolding resolve_device selected
  resolve_device-with_selected = rw (known, selected) refl

  -- A command of the selected device runs on its handle, which the registry keeps.
  on_selected-with_selected :
      (m : Exec TinySa Value)
      → let r = on_selected m (with_selected id s h) in
        (r.0 ≡ (m d.transport).0)
        × (get id r.1.registry ≡ ok (record d { transport = (m d.transport).1 }))
  unfolding on_selected on_device
  on_selected-with_selected m =
      rw (resolve_device-with_selected, known, on_device)
        (refl, get-put_transport_eq (m d.transport).1 id h.registry d known)

-- The domains that have a handler are not those that the hub answers itself.
handled :
    (floats : Floats) (domain : Value) (handler : Handler) (other : String)
    → handler_for floats (text other) ≡ ok none
    → handler_for floats domain ≡ ok (some handler)
    → is_text domain other ≡ false
unfolding handler_for
handled floats (text domain) handler other unhandled found =
    elim (Bool-cases (str_eq domain other)) [
      | inl same ↦
          let e : none ≡ some handler = ok-eq (
            sym unhandled
            ∙ ap (λ x. handler_for floats (text x)) (sym ((eq_iff domain other).0 same))
            ∙ found) in
          cc e
      | inr differs ↦ differs
    ]
handled floats _ handler other unhandled found = refl

pub route-route_command :
    (library : Library) (request : Request) (handler : Handler) (h : Hub)
    → handler_for library.floats request.domain ≡ ok (some handler)
    → is_text request.domain "trace"
        && (is_text request.op "subscribe" || is_text request.op "unsubscribe")
      ≡ false
    → route library request h ≡ on_selected (handler request.op request.args) h
unfolding route route_command run_handler handler_for
route-route_command library request handler h found apart =
    rw
      (
        handled library.floats request.domain handler "devices" refl found,
        handled library.floats request.domain handler "session" refl found,
        handled library.floats request.domain handler "capture" refl found,
        apart,
        found,
        route_command,
      )
      refl

-- After `devices.select` of a device that the registry holds, a request of any domain that is answered
-- by commands of the device runs on that device's handle: the answer is what the commands return or
-- raise on it, and the registry has the device with the handle as they left it. The id is not empty,
-- there is a session, and the request is no `trace` subscription and not in the domain `capture`.
pub select-reaches :
    (library : Library) (id : String) (rid : Value) (request : Request) (handler : Handler)
    (s : Session) (d : RegisteredDevice) (h : Hub)
    → str_eq id "" ≡ false
    → h.sessions.current ≡ some s
    → get id h.registry ≡ ok d
    → handler_for library.floats request.domain ≡ ok (some handler)
    → is_text request.domain "trace"
        && (is_text request.op "subscribe" || is_text request.op "unsubscribe")
      ≡ false
    → let h' =
        (route library (request_of rid "devices" "select" (field "device_id" (text id) end)) h).1 in
      let r = route library request h' in
      let o = handler request.op request.args d.transport in
      (r.0 ≡ o.0) × (get id r.1.registry ≡ ok (record d { transport = o.1 }))
select-reaches library id rid request handler s d h named session known found apart =
    rw
      (
        select-route id s d h known library rid named session,
        route-route_command library request handler (with_selected id s h) found apart,
      )
      (on_selected-with_selected id s d h known (handler request.op request.args))
