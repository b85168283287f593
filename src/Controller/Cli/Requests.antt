-- ===== src/Controller/Cli/Requests.antt =====
-- Proofs on the requests of controller/cli/app.py: each domain has its handler in hub/dispatcher.py.
pub mod Marker
pub mod Sweep
pub mod Trace
pub mod Basic
use tsanet.Prelude.{refl, String, ◌≡◌, false}
use tsanet.Protocol.Value.{Value, Fields, text, dict, is_text}
use tsanet.Hub.State.{Library}
use tsanet.Hub.Dispatcher.{route, route_command}
use tsanet.Hub.Dispatcher.Handlers.{
  handler_for, device, sweep, marker, trace, signal, menu, preset, raw,
}
use tsanet.Hub.Dispatcher.Ready.{IsUnderstood, Plain, IsUnderstood-command}

module _ (library : Library) (op : String) (args : Fields) where
  pub IsUnderstood-device :
      Plain (device (text op) (dict args)) → IsUnderstood library "device" op args
  unfolding route handler_for
  IsUnderstood-device = IsUnderstood-command library "device" op args device (λ id h. refl) refl

  pub IsUnderstood-sweep :
      Plain (sweep library.floats (text op) (dict args)) → IsUnderstood library "sweep" op args
  unfolding route handler_for
  IsUnderstood-sweep =
      IsUnderstood-command library "sweep" op args (sweep library.floats) (λ id h. refl) refl

  pub IsUnderstood-marker :
      Plain (marker (text op) (dict args)) → IsUnderstood library "marker" op args
  unfolding route handler_for
  IsUnderstood-marker = IsUnderstood-command library "marker" op args marker (λ id h. refl) refl

  pub IsUnderstood-trace :
      is_text (text op) "subscribe" ≡ false
      → is_text (text op) "unsubscribe" ≡ false
      → Plain (trace library.floats (text op) (dict args))
      → IsUnderstood library "trace" op args
  unfolding route handler_for
  IsUnderstood-trace apart apart' =
      IsUnderstood-command library "trace" op args (trace library.floats)
        (λ id h. rw (apart, apart', route) refl) refl

  pub IsUnderstood-signal :
      Plain (signal (text op) (dict args)) → IsUnderstood library "signal" op args
  unfolding route handler_for
  IsUnderstood-signal = IsUnderstood-command library "signal" op args signal (λ id h. refl) refl

  pub IsUnderstood-menu : Plain (menu (text op) (dict args)) → IsUnderstood library "menu" op args
  unfolding route handler_for
  IsUnderstood-menu = IsUnderstood-command library "menu" op args menu (λ id h. refl) refl

  pub IsUnderstood-preset :
      Plain (preset (text op) (dict args)) → IsUnderstood library "preset" op args
  unfolding route handler_for
  IsUnderstood-preset = IsUnderstood-command library "preset" op args preset (λ id h. refl) refl

  pub IsUnderstood-raw : Plain (raw (text op) (dict args)) → IsUnderstood library "raw" op args
  unfolding route handler_for
  IsUnderstood-raw = IsUnderstood-command library "raw" op args raw (λ id h. refl) refl
