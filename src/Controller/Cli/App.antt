-- ===== src/Controller/Cli/App.antt =====
-- The application of controller/cli/app.py: the command that a command line names, with its arguments.
pub mod Understood
use tsanet.Prelude.{String, Bool, false, Option, List, []}
use tsanet.Prelude.Int.{ℤ}
use tsanet.Controller.Cli.{Environment, Remote, Context, Command}
use tsanet.Controller.Cli.Basic
use tsanet.Controller.Cli.Sweep
use tsanet.Controller.Cli.Marker
use tsanet.Controller.Cli.Trace
use tsanet.Controller.Cli.Session

-- The commands, but for `trace stats`. A float and a frequency are given by their text.
pub data Invocation : Type 0 where
  devices_list : Invocation
  device_version : Invocation
  device_id : Option ℤ → Invocation
  device_battery : Invocation
  device_reset : Bool → Invocation
  sweep_get : Invocation
  sweep_status : Invocation
  sweep_start : String → Invocation
  sweep_stop : String → Invocation
  sweep_center : String → Invocation
  sweep_span : String → Invocation
  sweep_cw : String → Invocation
  sweep_range : String → String → Option ℤ → Invocation
  sweep_time : ℤ → Invocation
  sweep_pause : Invocation
  sweep_resume : Invocation
  marker_get : Option ℤ → Invocation
  marker_on : ℤ → Invocation
  marker_off : ℤ → Invocation
  marker_freq : ℤ → String → Invocation
  marker_trace : ℤ → ℤ → Invocation
  marker_peak : ℤ → Invocation
  marker_delta : ℤ → ℤ → Invocation
  marker_delta_off : ℤ → Invocation
  marker_track : ℤ → Invocation
  marker_track_off : ℤ → Invocation
  trace_get : Option ℤ → Invocation
  trace_on : ℤ → Invocation
  trace_off : ℤ → Invocation
  trace_calc : ℤ → String → Invocation
  trace_calc_off : ℤ → Invocation
  trace_unit : String → Invocation
  trace_ref : String → Invocation
  trace_ref_auto : Invocation
  trace_scale : String → Invocation
  trace_save : String → Option String → Invocation
  signal_spur : String → Invocation
  signal_lna : String → Invocation
  menu_trigger : List ℤ → Invocation
  preset_load : ℤ → Invocation
  preset_save : ℤ → Invocation
  capture_save : Option String → Invocation
  raw_execute : String → Invocation
  session_list : Invocation
  session_status : Invocation
  session_disconnect : Invocation
  session_force_takeover : Invocation

-- The module's globals when it is loaded.
abbrev pub loaded_at : {S : Type 0} → S → Context S
loaded_at t = record { remote = t; connected = false; log = [] }

module _ {S : Type 0} (remote : Remote S) (env : Environment) where
  unfoldable pub run : Invocation → Command S (Unit {0})
  run devices_list = Basic.devices_list remote env
  run device_version = Basic.device_version remote env
  run (device_id a) = Basic.device_id remote env a
  run device_battery = Basic.device_battery remote env
  run (device_reset a) = Basic.device_reset remote env a
  run sweep_get = Sweep.sweep_get remote env
  run sweep_status = Sweep.sweep_status remote env
  run (sweep_start a) = Sweep.sweep_start remote env a
  run (sweep_stop a) = Sweep.sweep_stop remote env a
  run (sweep_center a) = Sweep.sweep_center remote env a
  run (sweep_span a) = Sweep.sweep_span remote env a
  run (sweep_cw a) = Sweep.sweep_cw remote env a
  run (sweep_range a b c) = Sweep.sweep_range remote env a b c
  run (sweep_time a) = Sweep.sweep_time remote env a
  run sweep_pause = Sweep.sweep_pause remote env
  run sweep_resume = Sweep.sweep_resume remote env
  run (marker_get a) = Marker.marker_get remote env a
  run (marker_on a) = Marker.marker_on remote env a
  run (marker_off a) = Marker.marker_off remote env a
  run (marker_freq a b) = Marker.marker_freq remote env a b
  run (marker_trace a b) = Marker.marker_trace remote env a b
  run (marker_peak a) = Marker.marker_peak remote env a
  run (marker_delta a b) = Marker.marker_delta remote env a b
  run (marker_delta_off a) = Marker.marker_delta_off remote env a
  run (marker_track a) = Marker.marker_track remote env a
  run (marker_track_off a) = Marker.marker_track_off remote env a
  run (trace_get a) = Trace.trace_get remote env a
  run (trace_on a) = Trace.trace_on remote env a
  run (trace_off a) = Trace.trace_off remote env a
  run (trace_calc a b) = Trace.trace_calc remote env a b
  run (trace_calc_off a) = Trace.trace_calc_off remote env a
  run (trace_unit a) = Trace.trace_unit remote env a
  run (trace_ref a) = Trace.trace_ref remote env a
  run trace_ref_auto = Trace.trace_ref_auto remote env
  run (trace_scale a) = Trace.trace_scale remote env a
  run (trace_save a b) = Trace.trace_save remote env a b
  run (signal_spur a) = Basic.signal_spur remote env a
  run (signal_lna a) = Basic.signal_lna remote env a
  run (menu_trigger a) = Basic.menu_trigger remote env a
  run (preset_load a) = Basic.preset_load remote env a
  run (preset_save a) = Basic.preset_save remote env a
  run (capture_save a) = Basic.capture_save remote env a
  run (raw_execute a) = Basic.raw_execute remote env a
  run session_list = Session.session_list remote env
  run session_status = Session.session_status remote env
  run session_disconnect = Session.session_disconnect remote env
  run session_force_takeover = Session.session_force_takeover remote env
