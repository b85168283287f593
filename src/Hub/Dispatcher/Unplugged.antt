-- ===== src/Hub/Dispatcher/Unplugged.antt =====
-- Proofs on what hub/dispatcher.py answers when the selected device is gone.
use tsanet.Prelude.{String, ℕ, ◌≡◌, refl, ap, ◌∙◌, false, ◌&&◌, ◌||◌, List, some, str_mem}
use tsanet.Errors.{Kind, ok, raise_error, bind-err}
use tsanet.Protocol.Value.{is_text}
use tsanet.Protocol.Value.Text.{repr_text}
use tsanet.Protocol.Messages.{Request}
use tsanet.Device.Discovery.{Opener}
use tsanet.Hub.Session.{Session}
use tsanet.Hub.Registry.{get, scan}
use tsanet.Hub.Registry.Distinct.{IsDistinct}
use tsanet.Hub.Registry.Keyed.{IsKeyed, get-scan}
use tsanet.Hub.State.{Library, Hub}
use tsanet.Hub.Dispatcher.{resolve_device, selected, on_selected, on_device, route}
use tsanet.Hub.Dispatcher.Handlers.{Handler, handler_for}
use tsanet.Hub.Dispatcher.Select.{route-route_command}

-- The hub after the scan of the registry.
abbrev pub rescanned : Opener → ℕ → List String → Hub → Hub
rescanned opener attempts present h = record h {
  registry = (scan opener attempts present h.registry).1;
}

resolve_device-missing :
    (h : Hub) (s : Session) (id : String)
    → h.sessions.current ≡ some s
    → s.selected_device_id ≡ some id
    → get id h.registry ≡ raise_error Kind.key_error (repr_text id)
    → resolve_device h ≡ (raise_error Kind.key_error (repr_text id), h)
unfolding resolve_device selected
resolve_device-missing h s id session chosen missing =
    ap (λ o. selected o h) session ∙ rw (chosen, missing, selected) refl

-- Once a scan that does not fail finds the port of the selected device gone, a command for it is a
-- `KeyError` with the device's id and does nothing: no other device gets the command, and the session
-- and its selection stay. Before the scan no port has two entries and every device stands under its
-- id; the request is no `trace` subscription and not in the domain `capture`.
pub scan-unplugged :
    (library : Library) (opener : Opener) (attempts : ℕ) (present : List String) (request : Request)
    (handler : Handler) (s : Session) (id : String) (h : Hub)
    → IsDistinct h.registry.devices
    → IsKeyed h.registry.devices
    → (scan opener attempts present h.registry).0 ≡ ok tt
    → str_mem id present ≡ false
    → h.sessions.current ≡ some s
    → s.selected_device_id ≡ some id
    → handler_for library.floats request.domain ≡ ok (some handler)
    → is_text request.domain "trace"
        && (is_text request.op "subscribe" || is_text request.op "unsubscribe")
      ≡ false
    → route library request (rescanned opener attempts present h)
      ≡ (raise_error Kind.key_error (repr_text id), rescanned opener attempts present h)
unfolding on_selected
scan-unplugged library opener attempts present request handler s id h distinct keyed done gone
      session chosen found apart =
    let h' = rescanned opener attempts present h in
    route-route_command library request handler h' found apart
    ∙ bind-err resolve_device (λ id. on_device id (handler request.op request.args))
        (resolve_device-missing h' s id session chosen
          (get-scan opener attempts present h.registry id distinct keyed done gone))
