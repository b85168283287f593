-- ===== src/Hub/Dispatcher/Handlers.antt =====
-- The handlers of the device domains: plain functions of a handle, an operation and its arguments.
use tsanet.Prelude.{
  String, false, Option, none, some, List, [], ◌∷◌, fstring, str_eq, if◌then◌else◌,
}
use tsanet.Prelude.Dict.{Dict, insert}
use tsanet.Prelude.Int.{ℤ, pos}
use tsanet.Errors.{Kind, Result, ok, raise_error, Exec, pure, raise, lift, ◌>>=◌, ◌>>◌}
use tsanet.Protocol.Value.{
  Value, Items, Fields, null, bool, int, float, text, list, dict, nil, cons, end, field, is_text,
}
use tsanet.Protocol.Value.Text.{str, repr}
use tsanet.Protocol.Value.Access.{Floats, index, get_field, iterate, value_gt, value_max}
use tsanet.Device.Link.{TinySa}
use tsanet.Device.Parsing.{parse_frequencies, parse_trace_values}
use tsanet.Device.Commands.Basic
use tsanet.Device.Commands.Sweep
use tsanet.Device.Commands.Marker
use tsanet.Device.Commands.Trace

abbrev pub Handler : Type 0
Handler = Value → Value → Exec TinySa Value

-- `args[k]`
abbrev pub arg : String → Value → Exec TinySa Value
arg k args = lift (index k args)

-- The text that a command answered.
abbrev pub say : Exec TinySa String → Exec TinySa Value
say m = do answer ← m; pure (text answer)

abbrev pub unknown_op : String → Value → Exec TinySa Value
unknown_op domain op =
    raise Kind.dispatch_error (fstring ("unknown " ∷ domain ∷ " op: " ∷ repr op ∷ []))

unfoldable pub device : Handler
device op args =
    if is_text op "get_version"
    then say Basic.get_version
    else if is_text op "get_id"
    then say Basic.get_id
    else if is_text op "set_id"
    then (do id ← arg "id" args; say (Basic.set_id id))
    else if is_text op "get_battery"
    then say Basic.get_battery
    else if is_text op "get_battery_offset"
    then say Basic.get_battery_offset
    else if is_text op "set_battery_offset"
    then (do v ← arg "v" args; say (Basic.set_battery_offset v))
    else if is_text op "reset"
    then (do dfu ← lift (get_field "dfu" (bool false) args); Basic.reset dfu; pure null)
    else unknown_op "device" op

abbrev pub lna_threshold_hz : Value
lna_threshold_hz = int (pos 800_000_000)

module _ (floats : Floats) where
  -- `_ensure_lna_for_hz(tx, hz)`
  unfoldable pub ensure_lna_for_hz : Value → Exec TinySa (Unit {0})
  ensure_lna_for_hz hz = do
    high ← lift (value_gt floats hz lna_threshold_hz)
    (if high then (do Basic.enable_lna; pure tt) else pure tt)

  -- The branch `set_start_stop` of `_sweep`.
  unfoldable pub set_start_stop : Value → Exec TinySa Value
  set_start_stop args = do
    start ← arg "start" args
    limit ← lift (get_field "stop" (int (pos 0)) args)
    most ← lift (value_max floats start limit)
    ensure_lna_for_hz most
    stop ← arg "stop" args
    points ← lift (get_field "points" null args)
    say (Sweep.set_start_stop start stop points)

  unfoldable pub sweep : Handler
  unfolding ensure_lna_for_hz set_start_stop
  sweep op args =
      if is_text op "get"
      then say Sweep.get
      else if is_text op "get_status"
      then say Sweep.get_status
      else if is_text op "set_mode"
      then (do mode ← arg "mode" args; say (Sweep.set_mode mode))
      else if is_text op "set_start"
      then (do hz ← arg "hz" args; ensure_lna_for_hz hz; say (Sweep.set_start hz))
      else if is_text op "set_stop"
      then (do hz ← arg "hz" args; ensure_lna_for_hz hz; say (Sweep.set_stop hz))
      else if is_text op "set_center"
      then (do hz ← arg "hz" args; ensure_lna_for_hz hz; say (Sweep.set_center hz))
      else if is_text op "set_span"
      then (do hz ← arg "hz" args; say (Sweep.set_span hz))
      else if is_text op "set_cw"
      then (do hz ← arg "hz" args; ensure_lna_for_hz hz; say (Sweep.set_cw hz))
      else if is_text op "set_start_stop"
      then set_start_stop args
      else if is_text op "set_time"
      then (do us ← arg "us" args; say (Sweep.set_time us))
      else if is_text op "pause"
      then say Sweep.pause
      else if is_text op "resume"
      then say Sweep.resume
      else unknown_op "sweep" op

unfoldable pub marker : Handler
marker op args =
    if is_text op "get"
    then (do id ← arg "id" args; say (Marker.get id))
    else if is_text op "get_all"
    then say Marker.get_all
    else if is_text op "enable"
    then (do id ← arg "id" args; say (Marker.enable id))
    else if is_text op "disable"
    then (do id ← arg "id" args; say (Marker.disable id))
    else if is_text op "set_freq"
    then (do id ← arg "id" args; hz ← arg "hz" args; say (Marker.set_freq id hz))
    else if is_text op "set_trace"
    then (do id ← arg "id" args; trace_id ← arg "trace_id" args; say (Marker.set_trace id trace_id))
    else if is_text op "move_to_peak"
    then (do id ← arg "id" args; say (Marker.move_to_peak id))
    else if is_text op "enable_delta"
    then (do id ← arg "id" args; ref_id ← arg "ref_id" args; say (Marker.enable_delta id ref_id))
    else if is_text op "disable_delta"
    then (do id ← arg "id" args; say (Marker.disable_delta id))
    else if is_text op "enable_tracking"
    then (do id ← arg "id" args; say (Marker.enable_tracking id))
    else if is_text op "disable_tracking"
    then (do id ← arg "id" args; say (Marker.disable_tracking id))
    else unknown_op "marker" op

-- The values that `fetch_data` returns.
frequency_items : List ℤ → Items
frequency_items [] = nil
frequency_items (f ∷ rest) = cons (int f) (frequency_items rest)

float_items : List String → Items
float_items [] = nil
float_items (v ∷ rest) = cons (float v) (float_items rest)

trace_fields : Dict (List String) → Fields
trace_fields [] = end
trace_fields ((k, values) ∷ rest) = field k (list (float_items values)) (trace_fields rest)

unfoldable pub fetched : List ℤ → Dict (List String) → Value
unfolding frequency_items float_items trace_fields
fetched frequencies traces = dict (
    field "frequencies" (list (frequency_items frequencies))
      (field "traces" (dict (trace_fields traces)) end))

module _ (floats : Floats) where
  -- The loop over the ids: a command for each, and its values under the id's text.
  unfoldable pub fetch_all : List Value → Dict (List String) → Exec TinySa (Dict (List String))
  fetch_all [] traces = pure traces
  fetch_all (tid ∷ rest) traces = do
    answer ← Trace.fetch_value tid
    fetch_all rest (insert (str tid) (parse_trace_values floats answer) traces)

  -- The branch `fetch_data` of `_trace`.
  unfoldable pub fetch_data : Value → Exec TinySa Value
  unfolding fetched
  fetch_data args = do
    answer ← Trace.get_frequencies
    frequencies ← lift (parse_frequencies floats answer)
    ids ← arg "ids" args
    values ← lift (iterate ids)
    traces ← fetch_all values []
    pure (fetched frequencies traces)

  unfoldable pub trace : Handler
  trace op args =
      if is_text op "get"
      then (do id ← arg "id" args; say (Trace.get id))
      else if is_text op "get_all"
      then say Trace.get_all
      else if is_text op "get_frequencies"
      then say Trace.get_frequencies
      else if is_text op "fetch_data"
      then fetch_data args
      else if is_text op "enable"
      then (do id ← arg "id" args; say (Trace.enable id))
      else if is_text op "disable"
      then (do id ← arg "id" args; say (Trace.disable id))
      else if is_text op "enable_calc"
      then (do id ← arg "id" args; calc ← arg "calc" args; say (Trace.enable_calc id calc))
      else if is_text op "disable_calc"
      then (do id ← arg "id" args; say (Trace.disable_calc id))
      else if is_text op "set_unit"
      then (do unit ← arg "unit" args; say (Trace.set_unit unit))
      else if is_text op "set_ref_level"
      then (do dbm ← arg "dbm" args; say (Trace.set_ref_level dbm))
      else if is_text op "set_ref_level_auto"
      then say Trace.set_ref_level_auto
      else if is_text op "set_scale"
      then (do level ← arg "level" args; say (Trace.set_scale level))
      else unknown_op "trace" op

unfoldable pub signal : Handler
signal op args =
    if is_text op "enable_spur"
    then say Basic.enable_spur
    else if is_text op "disable_spur"
    then say Basic.disable_spur
    else if is_text op "enable_auto_spur"
    then say Basic.enable_auto_spur
    else if is_text op "enable_lna"
    then say Basic.enable_lna
    else if is_text op "disable_lna"
    then say Basic.disable_lna
    else unknown_op "signal" op

unfoldable pub menu : Handler
menu op args =
    if is_text op "trigger"
    then (do ids ← arg "ids" args; say (Basic.trigger ids))
    else unknown_op "menu" op

unfoldable pub preset : Handler
preset op args =
    if is_text op "load"
    then (do id ← arg "id" args; say (Basic.load id))
    else if is_text op "save"
    then (do id ← arg "id" args; say (Basic.save id))
    else unknown_op "preset" op

unfoldable pub raw : Handler
raw op args =
    if is_text op "execute"
    then (do command ← arg "command" args; say (Basic.execute command))
    else unknown_op "raw" op

-- `_HANDLERS.get(domain)`
named : Floats → String → Option Handler
named floats domain =
    if str_eq domain "device"
    then some device
    else if str_eq domain "sweep"
    then some (sweep floats)
    else if str_eq domain "marker"
    then some marker
    else if str_eq domain "trace"
    then some (trace floats)
    else if str_eq domain "signal"
    then some signal
    else if str_eq domain "menu"
    then some menu
    else if str_eq domain "preset"
    then some preset
    else if str_eq domain "raw"
    then some raw
    else none

unfoldable pub handler_for : Floats → Value → Result (Option Handler)
unfolding named
handler_for floats (text domain) = ok (named floats domain)
handler_for floats (list _) = raise_error Kind.type_error "unhashable type: 'list'"
handler_for floats (dict _) = raise_error Kind.type_error "unhashable type: 'dict'"
handler_for floats _ = ok none
