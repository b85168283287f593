-- ===== src/Controller/Cli/Requests/Basic.antt =====
-- Proofs on the requests of the other groups of controller/cli/app.py.
use tsanet.Prelude.{refl, String, Bool, List, ◌∷◌, if◌then◌else◌}
use tsanet.Prelude.Int.{ℤ}
use tsanet.Errors.{pure}
use tsanet.Protocol.Value.{null, bool, int, text, list, end, field}
use tsanet.Protocol.Value.Access.{index, get_field, iterate}
use tsanet.Hub.State.{Library}
use tsanet.Hub.Dispatcher.Handlers.{device, signal, menu, preset, raw}
use tsanet.Hub.Dispatcher.Ready.{IsUnderstood, Plain-say, Plain-bind, Plain-write_only}
use tsanet.Controller.Cli.Requests.{
  IsUnderstood-device, IsUnderstood-signal, IsUnderstood-menu, IsUnderstood-preset,
  IsUnderstood-raw,
}
use tsanet.Device.Link.{write_only}
use tsanet.Device.Commands.Basic
use tsanet.Hub.Dispatcher.{route, handle_devices, handle_session}
use tsanet.Controller.Cli.Trace.{int_items}

module _ (library : Library) where
  pub device-get_version : IsUnderstood library "device" "get_version" end
  unfolding device index Basic.get_version
  device-get_version = IsUnderstood-device library "get_version" end (Plain-say _)

  pub device-get_id : IsUnderstood library "device" "get_id" end
  unfolding device index Basic.get_id
  device-get_id = IsUnderstood-device library "get_id" end (Plain-say _)

  pub device-get_battery : IsUnderstood library "device" "get_battery" end
  unfolding device index Basic.get_battery
  device-get_battery = IsUnderstood-device library "get_battery" end (Plain-say _)

  pub device-get_battery_offset : IsUnderstood library "device" "get_battery_offset" end
  unfolding device index Basic.get_battery_offset
  device-get_battery_offset = IsUnderstood-device library "get_battery_offset" end (Plain-say _)

  pub device-set_id : (id : ℤ) → IsUnderstood library "device" "set_id" (field "id" (int id) end)
  unfolding device index Basic.set_id
  device-set_id id = IsUnderstood-device library "set_id" (field "id" (int id) end) (Plain-say _)

  pub device-reset :
      (dfu : Bool) → IsUnderstood library "device" "reset" (field "dfu" (bool dfu) end)
  unfolding device index get_field Basic.reset
  device-reset dfu = IsUnderstood-device library "reset" (field "dfu" (bool dfu) end) (
      Plain-bind (write_only (if dfu then "reset dfu" else "reset")) (λ _. pure null)
        (Plain-write_only _) (λ _ tx p. (refl, p)))

  pub signal-enable_spur : IsUnderstood library "signal" "enable_spur" end
  unfolding signal index Basic.enable_spur
  signal-enable_spur = IsUnderstood-signal library "enable_spur" end (Plain-say _)

  pub signal-disable_spur : IsUnderstood library "signal" "disable_spur" end
  unfolding signal index Basic.disable_spur
  signal-disable_spur = IsUnderstood-signal library "disable_spur" end (Plain-say _)

  pub signal-enable_auto_spur : IsUnderstood library "signal" "enable_auto_spur" end
  unfolding signal index Basic.enable_auto_spur
  signal-enable_auto_spur = IsUnderstood-signal library "enable_auto_spur" end (Plain-say _)

  pub signal-enable_lna : IsUnderstood library "signal" "enable_lna" end
  unfolding signal index Basic.enable_lna
  signal-enable_lna = IsUnderstood-signal library "enable_lna" end (Plain-say _)

  pub signal-disable_lna : IsUnderstood library "signal" "disable_lna" end
  unfolding signal index Basic.disable_lna
  signal-disable_lna = IsUnderstood-signal library "disable_lna" end (Plain-say _)

  pub menu-trigger :
      (i : ℤ) (ids : List ℤ)
      → IsUnderstood library "menu" "trigger" (field "ids" (list (int_items (i ∷ ids))) end)
  unfolding menu index Basic.trigger iterate
  menu-trigger i ids =
      IsUnderstood-menu library "trigger" (field "ids" (list (int_items (i ∷ ids))) end)
        (Plain-say _)

  pub preset-load : (id : ℤ) → IsUnderstood library "preset" "load" (field "id" (int id) end)
  unfolding preset index Basic.load
  preset-load id = IsUnderstood-preset library "load" (field "id" (int id) end) (Plain-say _)

  pub preset-save : (id : ℤ) → IsUnderstood library "preset" "save" (field "id" (int id) end)
  unfolding preset index Basic.save
  preset-save id = IsUnderstood-preset library "save" (field "id" (int id) end) (Plain-say _)

  pub raw-execute :
      (command : String) → IsUnderstood library "raw" "execute" (field "command" (text command) end)
  unfolding raw index Basic.execute
  raw-execute command =
      IsUnderstood-raw library "execute" (field "command" (text command) end) (Plain-say _)

  pub devices-list : IsUnderstood library "devices" "list" end
  unfolding route handle_devices
  devices-list = record { at = λ id h ready. refl }

  pub session-list : IsUnderstood library "session" "list" end
  unfolding route handle_session
  session-list = record { at = λ id h ready. refl }

  pub session-status : IsUnderstood library "session" "status" end
  unfolding route handle_session
  session-status = record { at = λ id h ready. refl }

  pub session-disconnect : IsUnderstood library "session" "disconnect" end
  unfolding route handle_session
  session-disconnect = record { at = λ id h ready. refl }

  pub session-force_takeover : IsUnderstood library "session" "force_takeover" end
  unfolding route handle_session
  session-force_takeover = record { at = λ id h ready. refl }

pub ruleset basic_requests = (
  device-get_version, device-get_id, device-get_battery, device-get_battery_offset, device-set_id,
  device-reset, signal-enable_spur, signal-disable_spur, signal-enable_auto_spur, signal-enable_lna,
  signal-disable_lna, menu-trigger, preset-load, preset-save, raw-execute, devices-list,
  session-list, session-status, session-disconnect, session-force_takeover,
)
