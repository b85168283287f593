-- ===== src/Controller/Cli/Sweep/Understood.antt =====
-- Proofs on the requests that the commands of `sweep` of controller/cli/app.py send.
use tsanet.Prelude.{String, Option, none, some}
use tsanet.Prelude.Int.{ℤ}
use tsanet.Errors.{Result, ok, err}
use tsanet.Hub.State.{Library}
use tsanet.Controller.Cli.{Environment, Remote}
use tsanet.Controller.Cli.Keeps.{Keeps, command_rules, Keeps-echo, Keeps-pure}
use tsanet.Controller.Cli.Sweep.{
  sweep_get, sweep_status, sweep_start, sweep_stop, sweep_center, sweep_span, sweep_cw, sweep_range,
  sweep_time, sweep_pause, sweep_resume, SweepState, warn_if_mismatch, points_line, state_or_exit,
  sweep_state,
}
use tsanet.Controller.Cli.Requests.Sweep.{sweep_requests}

module _ (library : Library) {S : Type 0} where
  Keeps-warn :
      (label : String) (fmt : ℤ → String) (requested actual : Option ℤ)
      → Keeps library {S = S} (warn_if_mismatch label fmt requested actual)
  unfolding warn_if_mismatch
  Keeps-warn label fmt (some requested) (some actual) = search command_rules
  Keeps-warn label fmt none actual = Keeps-pure tt
  Keeps-warn label fmt (some requested) none = Keeps-pure tt

  Keeps-points_line : (points : Option ℤ) → Keeps library {S = S} (points_line points)
  unfolding points_line
  Keeps-points_line none = Keeps-pure tt
  Keeps-points_line (some points) = Keeps-echo _

  Keeps-state_or_exit :
      (raw : String) (state : Result SweepState) → Keeps library {S = S} (state_or_exit raw state)
  unfolding state_or_exit
  Keeps-state_or_exit raw (ok state) = Keeps-pure state
  Keeps-state_or_exit raw (err e) = search command_rules

ruleset sweep_rules = (command_rules, sweep_requests, Keeps-warn, Keeps-points_line)

module _ (library : Library) {S : Type 0} (remote : Remote S) (env : Environment) where
  Keeps-sweep_state : Keeps library (sweep_state remote env)
  unfolding sweep_state
  Keeps-sweep_state = search (sweep_rules, Keeps-state_or_exit)

module _ (library : Library) {S : Type 0} (remote : Remote S) (env : Environment) where
  pub Keeps-sweep_get : Keeps library (sweep_get remote env)
  unfolding sweep_get
  Keeps-sweep_get = search (sweep_rules, Keeps-sweep_state)

  pub Keeps-sweep_status : Keeps library (sweep_status remote env)
  unfolding sweep_status
  Keeps-sweep_status = search sweep_rules

  pub Keeps-sweep_start : (a : String) → Keeps library (sweep_start remote env a)
  unfolding sweep_start
  Keeps-sweep_start a = search (sweep_rules, Keeps-sweep_state) depth 12

  pub Keeps-sweep_stop : (a : String) → Keeps library (sweep_stop remote env a)
  unfolding sweep_stop
  Keeps-sweep_stop a = search (sweep_rules, Keeps-sweep_state) depth 12

  pub Keeps-sweep_center : (a : String) → Keeps library (sweep_center remote env a)
  unfolding sweep_center
  Keeps-sweep_center a = search (sweep_rules, Keeps-sweep_state) depth 12

  pub Keeps-sweep_span : (a : String) → Keeps library (sweep_span remote env a)
  unfolding sweep_span
  Keeps-sweep_span a = search (sweep_rules, Keeps-sweep_state) depth 12

  pub Keeps-sweep_cw : (a : String) → Keeps library (sweep_cw remote env a)
  unfolding sweep_cw
  Keeps-sweep_cw a = search (sweep_rules, Keeps-sweep_state) depth 12

  pub Keeps-sweep_range :
      (a : String) (b : String) (c : Option ℤ) → Keeps library (sweep_range remote env a b c)
  unfolding sweep_range
  Keeps-sweep_range a b c = search (sweep_rules, Keeps-sweep_state) depth 12

  pub Keeps-sweep_time : (a : ℤ) → Keeps library (sweep_time remote env a)
  unfolding sweep_time
  Keeps-sweep_time a = search sweep_rules

  pub Keeps-sweep_pause : Keeps library (sweep_pause remote env)
  unfolding sweep_pause
  Keeps-sweep_pause = search sweep_rules

  pub Keeps-sweep_resume : Keeps library (sweep_resume remote env)
  unfolding sweep_resume
  Keeps-sweep_resume = search sweep_rules
