-- ===== src/Controller/Cli/Marker/Understood.antt =====
-- Proofs on the requests that the commands of `marker` of controller/cli/app.py send.
use tsanet.Prelude.{String, Option, none, some}
use tsanet.Prelude.Int.{ℤ}
use tsanet.Hub.State.{Library}
use tsanet.Controller.Cli.{Environment, Remote}
use tsanet.Controller.Cli.Keeps.{Keeps, command_rules}
use tsanet.Controller.Cli.Marker.{
  marker_get, marker_on, marker_off, marker_freq, marker_trace, marker_peak, marker_delta,
  marker_delta_off, marker_track, marker_track_off,
}
use tsanet.Controller.Cli.Requests.Marker.{marker_requests}

module _ (library : Library) {S : Type 0} (remote : Remote S) (env : Environment) where
  pub Keeps-marker_get : (a : Option ℤ) → Keeps library (marker_get remote env a)
  unfolding marker_get
  Keeps-marker_get none = search (command_rules, marker_requests)
  Keeps-marker_get (some id) = search (command_rules, marker_requests)

  pub Keeps-marker_on : (a : ℤ) → Keeps library (marker_on remote env a)
  unfolding marker_on
  Keeps-marker_on a = search (command_rules, marker_requests)

  pub Keeps-marker_off : (a : ℤ) → Keeps library (marker_off remote env a)
  unfolding marker_off
  Keeps-marker_off a = search (command_rules, marker_requests)

  pub Keeps-marker_freq : (a : ℤ) (b : String) → Keeps library (marker_freq remote env a b)
  unfolding marker_freq
  Keeps-marker_freq a b = search (command_rules, marker_requests)

  pub Keeps-marker_trace : (a : ℤ) (b : ℤ) → Keeps library (marker_trace remote env a b)
  unfolding marker_trace
  Keeps-marker_trace a b = search (command_rules, marker_requests)

  pub Keeps-marker_peak : (a : ℤ) → Keeps library (marker_peak remote env a)
  unfolding marker_peak
  Keeps-marker_peak a = search (command_rules, marker_requests)

  pub Keeps-marker_delta : (a : ℤ) (b : ℤ) → Keeps library (marker_delta remote env a b)
  unfolding marker_delta
  Keeps-marker_delta a b = search (command_rules, marker_requests)

  pub Keeps-marker_delta_off : (a : ℤ) → Keeps library (marker_delta_off remote env a)
  unfolding marker_delta_off
  Keeps-marker_delta_off a = search (command_rules, marker_requests)

  pub Keeps-marker_track : (a : ℤ) → Keeps library (marker_track remote env a)
  unfolding marker_track
  Keeps-marker_track a = search (command_rules, marker_requests)

  pub Keeps-marker_track_off : (a : ℤ) → Keeps library (marker_track_off remote env a)
  unfolding marker_track_off
  Keeps-marker_track_off a = search (command_rules, marker_requests)
