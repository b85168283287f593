-- ===== src/Controller/Cli/App/Understood.antt =====
-- Proofs on the application of controller/cli/app.py.
use mathlib.Core.List.{Memᴰ}
use mathlib.Core.List.Memᴰ.{head, tail}
use mathlib.Core.Path.{subst}
use tsanet.Prelude.{All, List, [], ◌∷◌, ◌≡◌, ◌∙◌, sym, false, String, inl, inr}
use tsanet.Protocol.Value.{Value, Fields}
use tsanet.Hub.Dispatcher.{route}
use tsanet.Hub.Dispatcher.Ready.{IsReady, IsUnderstood, refuses, request_of}
use tsanet.Hub.State.{Library, Hub}
use tsanet.Controller.Cli.{Environment, Remote, asked}
use tsanet.Controller.Cli.Keeps.{Keeps, IsSound, is_select}
use tsanet.Controller.Cli.Basic.Understood.{
  Keeps-devices_list, Keeps-device_version, Keeps-device_id, Keeps-device_battery,
  Keeps-device_reset, Keeps-signal_spur, Keeps-signal_lna, Keeps-menu_trigger, Keeps-preset_load,
  Keeps-preset_save, Keeps-capture_save, Keeps-raw_execute,
}
use tsanet.Controller.Cli.Sweep.Understood.{
  Keeps-sweep_get, Keeps-sweep_status, Keeps-sweep_start, Keeps-sweep_stop, Keeps-sweep_center,
  Keeps-sweep_span, Keeps-sweep_cw, Keeps-sweep_range, Keeps-sweep_time, Keeps-sweep_pause,
  Keeps-sweep_resume,
}
use tsanet.Controller.Cli.Marker.Understood.{
  Keeps-marker_get, Keeps-marker_on, Keeps-marker_off, Keeps-marker_freq, Keeps-marker_trace,
  Keeps-marker_peak, Keeps-marker_delta, Keeps-marker_delta_off, Keeps-marker_track,
  Keeps-marker_track_off,
}
use tsanet.Controller.Cli.Trace.Understood.{
  Keeps-trace_get, Keeps-trace_on, Keeps-trace_off, Keeps-trace_calc, Keeps-trace_calc_off,
  Keeps-trace_unit, Keeps-trace_ref, Keeps-trace_ref_auto, Keeps-trace_scale, Keeps-trace_save,
}
use tsanet.Controller.Cli.Session.Understood.{
  Keeps-session_list, Keeps-session_status, Keeps-session_disconnect, Keeps-session_force_takeover,
}
use tsanet.Controller.Cli.Requests.Trace.{HasPlainNumbers}
use tsanet.Controller.Cli.App.{Invocation, loaded_at, run}

Keeps-run :
    (library : Library) {S : Type 0} (remote : Remote S) (env : Environment)
    → HasPlainNumbers library
    → (i : Invocation) → Keeps library (run remote env i)
unfolding run
Keeps-run library remote env numbers Invocation.devices_list = Keeps-devices_list library remote env
Keeps-run library remote env numbers Invocation.device_version =
    Keeps-device_version library remote env
Keeps-run library remote env numbers (Invocation.device_id a) = Keeps-device_id library remote env a
Keeps-run library remote env numbers Invocation.device_battery =
    Keeps-device_battery library remote env
Keeps-run library remote env numbers (Invocation.device_reset a) =
    Keeps-device_reset library remote env a
Keeps-run library remote env numbers Invocation.sweep_get = Keeps-sweep_get library remote env
Keeps-run library remote env numbers Invocation.sweep_status = Keeps-sweep_status library remote env
Keeps-run library remote env numbers (Invocation.sweep_start a) =
    Keeps-sweep_start library remote env a
Keeps-run library remote env numbers (Invocation.sweep_stop a) =
    Keeps-sweep_stop library remote env a
Keeps-run library remote env numbers (Invocation.sweep_center a) =
    Keeps-sweep_center library remote env a
Keeps-run library remote env numbers (Invocation.sweep_span a) =
    Keeps-sweep_span library remote env a
Keeps-run library remote env numbers (Invocation.sweep_cw a) = Keeps-sweep_cw library remote env a
Keeps-run library remote env numbers (Invocation.sweep_range a b c) =
    Keeps-sweep_range library remote env a b c
Keeps-run library remote env numbers (Invocation.sweep_time a) =
    Keeps-sweep_time library remote env a
Keeps-run library remote env numbers Invocation.sweep_pause = Keeps-sweep_pause library remote env
Keeps-run library remote env numbers Invocation.sweep_resume = Keeps-sweep_resume library remote env
Keeps-run library remote env numbers (Invocation.marker_get a) =
    Keeps-marker_get library remote env a
Keeps-run library remote env numbers (Invocation.marker_on a) = Keeps-marker_on library remote env a
Keeps-run library remote env numbers (Invocation.marker_off a) =
    Keeps-marker_off library remote env a
Keeps-run library remote env numbers (Invocation.marker_freq a b) =
    Keeps-marker_freq library remote env a b
Keeps-run library remote env numbers (Invocation.marker_trace a b) =
    Keeps-marker_trace library remote env a b
Keeps-run library remote env numbers (Invocation.marker_peak a) =
    Keeps-marker_peak library remote env a
Keeps-run library remote env numbers (Invocation.marker_delta a b) =
    Keeps-marker_delta library remote env a b
Keeps-run library remote env numbers (Invocation.marker_delta_off a) =
    Keeps-marker_delta_off library remote env a
Keeps-run library remote env numbers (Invocation.marker_track a) =
    Keeps-marker_track library remote env a
Keeps-run library remote env numbers (Invocation.marker_track_off a) =
    Keeps-marker_track_off library remote env a
Keeps-run library remote env numbers (Invocation.trace_get a) = Keeps-trace_get library remote env a
Keeps-run library remote env numbers (Invocation.trace_on a) = Keeps-trace_on library remote env a
Keeps-run library remote env numbers (Invocation.trace_off a) = Keeps-trace_off library remote env a
Keeps-run library remote env numbers (Invocation.trace_calc a b) =
    Keeps-trace_calc library remote env a b
Keeps-run library remote env numbers (Invocation.trace_calc_off a) =
    Keeps-trace_calc_off library remote env a
Keeps-run library remote env numbers (Invocation.trace_unit a) =
    Keeps-trace_unit library remote env a
Keeps-run library remote env numbers (Invocation.trace_ref a) = Keeps-trace_ref library remote env a
Keeps-run library remote env numbers Invocation.trace_ref_auto =
    Keeps-trace_ref_auto library remote env
Keeps-run library remote env numbers (Invocation.trace_scale a) =
    Keeps-trace_scale library remote env a
Keeps-run library remote env numbers (Invocation.trace_save a b) =
    Keeps-trace_save library remote env numbers a b
Keeps-run library remote env numbers (Invocation.signal_spur a) =
    Keeps-signal_spur library remote env a
Keeps-run library remote env numbers (Invocation.signal_lna a) =
    Keeps-signal_lna library remote env a
Keeps-run library remote env numbers (Invocation.menu_trigger a) =
    Keeps-menu_trigger library remote env a
Keeps-run library remote env numbers (Invocation.preset_load a) =
    Keeps-preset_load library remote env a
Keeps-run library remote env numbers (Invocation.preset_save a) =
    Keeps-preset_save library remote env a
Keeps-run library remote env numbers (Invocation.capture_save a) =
    Keeps-capture_save library remote env a
Keeps-run library remote env numbers (Invocation.raw_execute a) =
    Keeps-raw_execute library remote env a
Keeps-run library remote env numbers Invocation.session_list = Keeps-session_list library remote env
Keeps-run library remote env numbers Invocation.session_status =
    Keeps-session_status library remote env
Keeps-run library remote env numbers Invocation.session_disconnect =
    Keeps-session_disconnect library remote env
Keeps-run library remote env numbers Invocation.session_force_takeover =
    Keeps-session_force_takeover library remote env

All-Memᴰ : {A : Type 0} (P : A → Type 0) (xs : List A) {x : A} → All P xs → Memᴰ x xs → P x
All-Memᴰ P [] all m = elim m [ ]
All-Memᴰ P (y ∷ xs) (p, all) (head e) = subst P (sym e) p
All-Memᴰ P (y ∷ xs) (p, all) (tail m) = All-Memᴰ P xs all m

answered :
    {library : Library} {domain op : String} {args : Fields}
    → IsSound library (asked domain op args)
    → is_select domain op ≡ false
    → IsUnderstood library domain op args
answered (inl select) other = cc (sym select ∙ other)
answered (inr understood) other = understood

-- Whatever a command of `tsanet-ctl` other than `trace stats` is given and whatever the remote end
-- answers, each request that it sends has a meaning for the hub: a hub on which a device is selected
-- does not refuse it as unknown or for an argument that is missing or of the wrong type. Only the
-- selection of the device of `--device` is left out, which the hub may not have. What `int` of a float
-- and the device's handle raise is taken to be no such refusal.
pub run-understood :
    (library : Library) {S : Type 0} (remote : Remote S) (env : Environment) (i : Invocation)
    (t : S) (domain op : String) (args : Fields) (id : Value) (h : Hub)
    → HasPlainNumbers library
    → Memᴰ (asked domain op args) (run remote env i (loaded_at t)).1.log
    → is_select domain op ≡ false
    → IsReady h
    → refuses (route library (request_of id domain op args) h).0 ≡ false
run-understood library remote env i t domain op args id h numbers sent other ready =
    let sound = (Keeps-run library remote env numbers i).at (loaded_at t) tt in
    (answered (All-Memᴰ (IsSound library) (run remote env i (loaded_at t)).1.log sound sent)
        other).at
      id h ready
