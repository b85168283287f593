-- ===== src/Controller/Cli/Basic.antt =====
-- The groups `device`, `signal`, `menu`, `preset`, `capture` and `raw` of controller/cli/app.py, and
-- `devices-list`.
pub mod Understood
pub mod Battery
use tsanet.Prelude.{
  ℕ, String, Bool, Option, none, some, List, [], ◌∷◌, fstring, str_eq, if◌then◌else◌,
}
use tsanet.Prelude.Int.{ℤ, decimal_ℤ}
use tsanet.Errors.{Kind, Result, ok, raise_error}
use tsanet.Protocol.Value.{Value, Fields, null, bool, int, text, list, end, field, is_truthy}
use tsanet.Protocol.Value.Text.{str}
use tsanet.Protocol.Value.Access.{index, iterate}
use tsanet.Controller.Cli.{
  Command, Context, Outcome, Environment, Remote, returns, exits, raises, wrote, pure, lift, tell,
  echo, echo_value, call, die, choose, ◌>>=◌, ◌>>◌,
}
use tsanet.Controller.Cli.Format.{pad_right}
use tsanet.Controller.Cli.Trace.{int_items}

-- `f"{v:<width}"` with the format of texts
pub padded : ℕ → Value → Result String
padded width (text s) = ok (pad_right width s)
padded width _ = raise_error Kind.type_error "unsupported format string"

-- The line of one device of `devices-list`.
device_line : {S : Type 0} → Value → Command S (Unit {0})
device_line d = do
  device_id ← lift (index "device_id" d)
  id_text ← lift (padded 20 device_id)
  model ← lift (index "model" d)
  model_text ← lift (padded 10 model)
  firmware ← lift (index "firmware" d)
  hardware ← lift (index "hardware" d)
  busy ← lift (index "busy" d)
  echo (
      fstring (
        id_text
        ∷ " "
        ∷ model_text
        ∷ " fw="
        ∷ (if is_truthy firmware then str firmware else "?")
        ∷ "  hw="
        ∷ str hardware
        ∷ "  "
        ∷ (if is_truthy busy then "[BUSY]" else "[free]")
        ∷ []))

device_lines : {S : Type 0} → List Value → Command S (Unit {0})
unfolding device_line
device_lines [] = pure tt
device_lines (d ∷ rest) = do device_line d; device_lines rest

-- `" ".join(str(i) for i in ids)`
join_ids : List ℤ → List String
join_ids [] = []
join_ids (i ∷ []) = decimal_ℤ i ∷ []
join_ids (i ∷ j ∷ rest) = decimal_ℤ i ∷ " " ∷ join_ids (j ∷ rest)

module _ {S : Type 0} (remote : Remote S) (env : Environment) where
  unfoldable pub devices_list : Command S (Unit {0})
  unfolding device_lines
  devices_list = do
    devices ← call remote env "devices" "list" end
    (if is_truthy devices
        then (do each ← lift (iterate devices); device_lines each)
        else echo "no devices found")

  unfoldable pub device_version : Command S (Unit {0})
  device_version = do answer ← call remote env "device" "get_version" end; echo_value answer

  unfoldable pub device_id : Option ℤ → Command S (Unit {0})
  device_id (some new_id) = do
    call remote env "device" "set_id" (field "id" (int new_id) end)
    echo (fstring ("device ID set to " ∷ decimal_ℤ new_id ∷ []))
  device_id none = do answer ← call remote env "device" "get_id" end; echo_value answer

  -- `except typer.Exit`
  or_unsupported : Outcome Value × Context S → Outcome Value × Context S
  or_unsupported (exits code, s) = (returns (text "unsupported by this firmware"), s)
  or_unsupported r = r

  battery_value : String → Command S Value
  unfolding or_unsupported
  battery_value op s = or_unsupported (call remote env "device" op end s)

  -- One round of the loop of `device battery`.
  battery_line : String → String → Command S (Unit {0})
  unfolding battery_value
  battery_line label op = do
    value ← battery_value op
    echo (fstring (label ∷ ": " ∷ str value ∷ []))

  unfoldable pub device_battery : Command S (Unit {0})
  unfolding battery_line
  device_battery = do
    battery_line "voltage" "get_battery"
    battery_line "offset" "get_battery_offset"

  unfoldable pub device_reset : Bool → Command S (Unit {0})
  device_reset dfu = do
    call remote env "device" "reset" (field "dfu" (bool dfu) end)
    echo "reset sent"

  -- `ops[mode]`
  spur_op : String → String
  spur_op mode =
      if str_eq mode "on"
      then "enable_spur"
      else if str_eq mode "off"
      then "disable_spur"
      else "enable_auto_spur"

  unfoldable pub signal_spur : String → Command S (Unit {0})
  unfolding spur_op
  signal_spur name = do
    mode ← choose ("on" ∷ "off" ∷ "auto" ∷ []) name
    call remote env "signal" (spur_op mode) end
    echo (fstring ("spur = " ∷ env.member_text "SpurMode" mode ∷ []))

  unfoldable pub signal_lna : String → Command S (Unit {0})
  signal_lna name = do
    mode ← choose ("on" ∷ "off" ∷ []) name
    call remote env "signal" (if str_eq mode "on" then "enable_lna" else "disable_lna") end
    echo (fstring ("lna = " ∷ env.member_text "LnaMode" mode ∷ []))

  unfoldable pub menu_trigger : List ℤ → Command S (Unit {0})
  unfolding join_ids
  menu_trigger [] = die env "at least one menu ID is required"
  menu_trigger (i ∷ ids) = do
    call remote env "menu" "trigger" (field "ids" (list (int_items (i ∷ ids))) end)
    echo (fstring ("menu " ∷ join_ids (i ∷ ids)))

  unfoldable pub preset_load : ℤ → Command S (Unit {0})
  preset_load preset_id = do
    call remote env "preset" "load" (field "id" (int preset_id) end)
    echo (fstring ("loaded preset " ∷ decimal_ℤ preset_id ∷ []))

  unfoldable pub preset_save : ℤ → Command S (Unit {0})
  preset_save preset_id = do
    call remote env "preset" "save" (field "id" (int preset_id) end)
    echo (fstring ("saved preset " ∷ decimal_ℤ preset_id ∷ []))

  -- `output or f"SA_..."`
  picture_name : Option String → String
  picture_name none = env.dated_name
  picture_name (some output) = if str_eq output "" then env.dated_name else output

  unfoldable pub capture_save : Option String → Command S (Unit {0})
  unfolding picture_name
  capture_save output = do
    png ← call remote env "capture" "fetch" end
    lift (env.write (picture_name output) png)
    tell (wrote (picture_name output) png)
    echo (fstring ("saved to " ∷ picture_name output ∷ []))

  unfoldable pub raw_execute : String → Command S (Unit {0})
  raw_execute command = do
    answer ← call remote env "raw" "execute" (field "command" (text command) end)
    echo_value answer
