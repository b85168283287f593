-- ===== src/Controller/Cli/Session/Understood.antt =====
-- Proofs on the requests that the commands of `session` of controller/cli/app.py send.
use tsanet.Prelude.{List, [], ◌∷◌}
use tsanet.Protocol.Value.{Value}
use tsanet.Hub.State.{Library}
use tsanet.Controller.Cli.{Environment, Remote}
use tsanet.Controller.Cli.Keeps.{Keeps, command_rules, Keeps-bind, Keeps-pure}
use tsanet.Controller.Cli.Session.{
  session_list, session_status, session_disconnect, session_force_takeover, session_line,
  session_lines,
}
use tsanet.Controller.Cli.Requests.Basic.{basic_requests}

module _ (library : Library) {S : Type 0} (remote : Remote S) (env : Environment) where
  Keeps-session_line : (s : Value) → Keeps library (session_line remote env s)
  unfolding session_line
  Keeps-session_line s = search command_rules depth 12

  Keeps-session_lines : (each : List Value) → Keeps library (session_lines remote env each)
  unfolding session_lines
  Keeps-session_lines [] = Keeps-pure tt
  Keeps-session_lines (s ∷ rest) =
      Keeps-bind (session_line remote env s) (λ _. session_lines remote env rest)
        (Keeps-session_line s) (λ _. Keeps-session_lines rest)

module _ (library : Library) {S : Type 0} (remote : Remote S) (env : Environment) where
  pub Keeps-session_list : Keeps library (session_list remote env)
  unfolding session_list
  Keeps-session_list = search (command_rules, basic_requests, Keeps-session_lines)

  pub Keeps-session_status : Keeps library (session_status remote env)
  unfolding session_status
  Keeps-session_status = search (command_rules, basic_requests) depth 12

  pub Keeps-session_disconnect : Keeps library (session_disconnect remote env)
  unfolding session_disconnect
  Keeps-session_disconnect = search (command_rules, basic_requests)

  pub Keeps-session_force_takeover : Keeps library (session_force_takeover remote env)
  unfolding session_force_takeover
  Keeps-session_force_takeover = search (command_rules, basic_requests)
