-- ===== src/Controller/Cli/Trace/Understood.antt =====
-- Proofs on the requests that the commands of `trace` of controller/cli/app.py send.
use tsanet.Prelude.{String, Option, none, some, List, [], ◌∷◌}
use tsanet.Prelude.Int.{ℤ}
use tsanet.Errors.{Result, ok, err}
use tsanet.Hub.State.{Library}
use tsanet.Controller.Cli.{Environment, Remote}
use tsanet.Controller.Cli.Keeps.{Keeps, command_rules, Keeps-die, Keeps-pure}
use tsanet.Controller.Cli.Trace.{
  trace_get, trace_on, trace_off, trace_calc, trace_calc_off, trace_unit, trace_ref, trace_ref_auto,
  trace_scale, trace_save, trace_ids, save_text,
}
use tsanet.Controller.Cli.Requests.Trace.{trace_requests, HasPlainNumbers}

module _ (library : Library) {S : Type 0} (remote : Remote S) (env : Environment) where
  Keeps-trace_ids :
      (raw : String) (ids : Result (List ℤ)) → Keeps library (trace_ids remote env raw ids)
  unfolding trace_ids
  Keeps-trace_ids raw (err e) = search command_rules
  Keeps-trace_ids raw (ok []) = Keeps-die env _
  Keeps-trace_ids raw (ok (t ∷ ts)) = Keeps-pure (t ∷ ts)

  Keeps-save_text :
      (output : Option String) (csv : String) → Keeps library (save_text remote env output csv)
  unfolding save_text
  Keeps-save_text none csv = search command_rules
  Keeps-save_text (some output) csv = search command_rules

module _ (library : Library) {S : Type 0} (remote : Remote S) (env : Environment) where
  pub Keeps-trace_get : (a : Option ℤ) → Keeps library (trace_get remote env a)
  unfolding trace_get
  Keeps-trace_get none = search (command_rules, trace_requests)
  Keeps-trace_get (some id) = search (command_rules, trace_requests)

  pub Keeps-trace_on : (a : ℤ) → Keeps library (trace_on remote env a)
  unfolding trace_on
  Keeps-trace_on a = search (command_rules, trace_requests)

  pub Keeps-trace_off : (a : ℤ) → Keeps library (trace_off remote env a)
  unfolding trace_off
  Keeps-trace_off a = search (command_rules, trace_requests)

  pub Keeps-trace_calc : (a : ℤ) (b : String) → Keeps library (trace_calc remote env a b)
  unfolding trace_calc
  Keeps-trace_calc a b = search (command_rules, trace_requests)

  pub Keeps-trace_calc_off : (a : ℤ) → Keeps library (trace_calc_off remote env a)
  unfolding trace_calc_off
  Keeps-trace_calc_off a = search (command_rules, trace_requests)

  pub Keeps-trace_unit : (a : String) → Keeps library (trace_unit remote env a)
  unfolding trace_unit
  Keeps-trace_unit a = search (command_rules, trace_requests)

  pub Keeps-trace_ref : (a : String) → Keeps library (trace_ref remote env a)
  unfolding trace_ref
  Keeps-trace_ref a = search (command_rules, trace_requests)

  pub Keeps-trace_ref_auto : Keeps library (trace_ref_auto remote env)
  unfolding trace_ref_auto
  Keeps-trace_ref_auto = search (command_rules, trace_requests)

  pub Keeps-trace_scale : (a : String) → Keeps library (trace_scale remote env a)
  unfolding trace_scale
  Keeps-trace_scale a = search (command_rules, trace_requests)

  pub Keeps-trace_save :
      HasPlainNumbers library
      → (raw : String) (output : Option String) → Keeps library (trace_save remote env raw output)
  unfolding trace_save
  Keeps-trace_save numbers raw output =
      search (command_rules, trace_requests, Keeps-trace_ids, Keeps-save_text, numbers) depth 12
