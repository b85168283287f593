-- ===== src/Controller/Cli/Basic/Understood.antt =====
-- Proofs on the requests that the commands of `device`, `signal`, `menu`, `preset`, `capture` and `raw` of controller/cli/app.py send.
use tsanet.Prelude.{
  String, Bool, true, false, Option, none, some, List, [], ◌∷◌, All, str_eq, if◌then◌else◌,
}
use tsanet.Prelude.Int.{ℤ}
use tsanet.Protocol.Value.{Value, end}
use tsanet.Hub.State.{Library}
use tsanet.Hub.Dispatcher.Ready.{IsUnderstood}
use tsanet.Hub.Dispatcher.Capture.{capture-fetch}
use tsanet.Controller.Cli.{Context, Outcome, returns, exits, raises, Environment, Remote, call}
use tsanet.Controller.Cli.Keeps.{Keeps, IsSound, command_rules, Keeps-bind, Keeps-call, Keeps-pure}
use tsanet.Controller.Cli.Basic.{
  devices_list, device_version, device_id, device_battery, device_reset, signal_spur, signal_lna,
  menu_trigger, preset_load, preset_save, capture_save, raw_execute, device_line, device_lines,
  or_unsupported, battery_value, battery_line, spur_op,
}
use tsanet.Controller.Cli.Requests.Basic.{basic_requests}

module _ (library : Library) {S : Type 0} where
  Keeps-device_line : (d : Value) → Keeps library {S = S} (device_line d)
  unfolding device_line
  Keeps-device_line d = search command_rules depth 12

  Keeps-device_lines : (each : List Value) → Keeps library {S = S} (device_lines each)
  unfolding device_lines
  Keeps-device_lines [] = Keeps-pure tt
  Keeps-device_lines (d ∷ rest) =
      Keeps-bind (device_line d) (λ _. device_lines rest) (Keeps-device_line d)
        (λ _. Keeps-device_lines rest)

module _ (library : Library) {S : Type 0} (remote : Remote S) (env : Environment) where
  or_unsupported-keeps_log :
      (r : Outcome Value × Context S)
      → All (IsSound library) r.1.log
      → All (IsSound library) (or_unsupported remote env r).1.log
  unfolding or_unsupported
  or_unsupported-keeps_log (returns a, s) h = h
  or_unsupported-keeps_log (exits c, s) h = h
  or_unsupported-keeps_log (raises e, s) h = h

  Keeps-battery_value :
      (op : String)
      → IsUnderstood library "device" op end
      → Keeps library (battery_value remote env op)
  unfolding battery_value
  Keeps-battery_value op understood = record {
    at = λ s h.
        or_unsupported-keeps_log (call remote env "device" op end s)
          ((Keeps-call library remote env "device" op end understood).at s h);
  }

  Keeps-battery_line :
      (label op : String)
      → IsUnderstood library "device" op end
      → Keeps library (battery_line remote env label op)
  unfolding battery_line
  Keeps-battery_line label op understood = search (command_rules, Keeps-battery_value)

module _ (library : Library) {S : Type 0} (remote : Remote S) (env : Environment) where
  pub Keeps-devices_list : Keeps library (devices_list remote env)
  unfolding devices_list
  Keeps-devices_list = search (command_rules, basic_requests, Keeps-device_lines)

  pub Keeps-device_version : Keeps library (device_version remote env)
  unfolding device_version
  Keeps-device_version = search (command_rules, basic_requests)

  pub Keeps-device_id : (a : Option ℤ) → Keeps library (device_id remote env a)
  unfolding device_id
  Keeps-device_id none = search (command_rules, basic_requests)
  Keeps-device_id (some id) = search (command_rules, basic_requests)

  pub Keeps-device_battery : Keeps library (device_battery remote env)
  unfolding device_battery
  Keeps-device_battery = search (command_rules, basic_requests, Keeps-battery_line)

  pub Keeps-device_reset : (a : Bool) → Keeps library (device_reset remote env a)
  unfolding device_reset
  Keeps-device_reset a = search (command_rules, basic_requests)

  spur_cases :
      (on off : Bool)
      → IsUnderstood library "signal"
          (if on then "enable_spur" else if off then "disable_spur" else "enable_auto_spur")
          end
  spur_cases true off = search basic_requests
  spur_cases false true = search basic_requests
  spur_cases false false = search basic_requests

  spur-IsUnderstood : (mode : String) → IsUnderstood library "signal" (spur_op remote env mode) end
  unfolding spur_op
  spur-IsUnderstood mode = spur_cases (str_eq mode "on") (str_eq mode "off")

  pub Keeps-signal_spur : (a : String) → Keeps library (signal_spur remote env a)
  unfolding signal_spur
  Keeps-signal_spur a = search (command_rules, spur-IsUnderstood)

  lna-IsUnderstood :
      (on : Bool) → IsUnderstood library "signal" (if on then "enable_lna" else "disable_lna") end
  lna-IsUnderstood true = search basic_requests
  lna-IsUnderstood false = search basic_requests

  pub Keeps-signal_lna : (a : String) → Keeps library (signal_lna remote env a)
  unfolding signal_lna
  Keeps-signal_lna a = search (command_rules, lna-IsUnderstood)

  pub Keeps-menu_trigger : (a : List ℤ) → Keeps library (menu_trigger remote env a)
  unfolding menu_trigger
  Keeps-menu_trigger [] = search (command_rules, basic_requests)
  Keeps-menu_trigger (i ∷ ids) = search (command_rules, basic_requests)

  pub Keeps-preset_load : (a : ℤ) → Keeps library (preset_load remote env a)
  unfolding preset_load
  Keeps-preset_load a = search (command_rules, basic_requests)

  pub Keeps-preset_save : (a : ℤ) → Keeps library (preset_save remote env a)
  unfolding preset_save
  Keeps-preset_save a = search (command_rules, basic_requests)

  pub Keeps-capture_save : (a : Option String) → Keeps library (capture_save remote env a)
  unfolding capture_save
  Keeps-capture_save a = search (command_rules, capture-fetch)

  pub Keeps-raw_execute : (a : String) → Keeps library (raw_execute remote env a)
  unfolding raw_execute
  Keeps-raw_execute a = search (command_rules, basic_requests)
