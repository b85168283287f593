-- ===== src/Controller/Cli/Basic/Battery.antt =====
-- Proofs on `device battery` of controller/cli/app.py.
use tsanet.Prelude.{◌≡◌, ap, ◌∙◌, String, false, List, [], ◌∷◌, ◌++◌, append_assoc, fstring}
use tsanet.Errors.{Kind, ok, err}
use tsanet.Config.{NetworkConfig}
use tsanet.Protocol.Value.{text, end}
use tsanet.Protocol.Value.Text.{str}
use tsanet.Controller.Cli.{
  Effect, printed, complained, returns, Context, Remote, Environment, load_config, where_is, tell,
  echo,
}
use tsanet.Controller.Cli.Runs.{bind-returns, call-unreachable}
use tsanet.Controller.Cli.Basic.{or_unsupported, battery_value, battery_line, device_battery}

-- What a round shows: that the hub is out of reach, and then that the firmware lacks the command.
abbrev pub misled : String → String → List Effect
misled lost label =
    complained lost ∷ printed (fstring (label ∷ ": " ∷ "unsupported by this firmware" ∷ [])) ∷ []

module _ {S : Type 0} (remote : Remote S) (env : Environment) where
  abbrev pub offline : S → List Effect → Context S
  offline t log = record { remote = t; connected = false; log = log }

  battery_value-unreachable :
      (op : String) (t₀ t : S) (log : List Effect) (c : NetworkConfig) (why : String)
      → load_config env ≡ ok c
      → remote.connect c t₀ ≡ (err (record { kind = Kind.os_error; text = why }), t)
      → battery_value remote env op (offline t₀ log) ≡ (
        returns (text "unsupported by this firmware"),
        offline t (
            log
            ++ complained (fstring ("error: could not reach " ∷ where_is c ∷ ": " ∷ why ∷ []))
              ∷ []),
      )
  unfolding battery_value or_unsupported
  battery_value-unreachable op t₀ t log c why loaded e =
      ap (or_unsupported remote env) (call-unreachable remote env "device" op end t₀ log loaded e)

  battery_line-unreachable :
      (label op : String) (t₀ t : S) (log : List Effect) (c : NetworkConfig) (why : String)
      → load_config env ≡ ok c
      → remote.connect c t₀ ≡ (err (record { kind = Kind.os_error; text = why }), t)
      → battery_line remote env label op (offline t₀ log) ≡ (
        returns tt,
        offline t (
            log
            ++ misled (fstring ("error: could not reach " ∷ where_is c ∷ ": " ∷ why ∷ [])) label),
      )
  unfolding battery_line tell str
  battery_line-unreachable label op t₀ t log c why loaded e =
      bind-returns (battery_value remote env op)
        (λ value. echo (fstring (label ∷ ": " ∷ str value ∷ [])))
        (battery_value-unreachable op t₀ t log c why loaded e)
      ∙ ap (λ l. (returns tt, offline t l)) (append_assoc log _ _)

  -- `device battery` with a hub that cannot be reached: it takes the exit that the failed connection
  -- asks for as an answer of the device, connects twice, says twice that the firmware does not support
  -- the command, and ends as if nothing had failed.
  pub device_battery-unreachable :
      (t₀ t₁ t₂ : S) (c : NetworkConfig) (why : String)
      → load_config env ≡ ok c
      → remote.connect c t₀ ≡ (err (record { kind = Kind.os_error; text = why }), t₁)
      → remote.connect c t₁ ≡ (err (record { kind = Kind.os_error; text = why }), t₂)
      → device_battery remote env (offline t₀ []) ≡ (
        returns tt,
        offline t₂ (
            misled (fstring ("error: could not reach " ∷ where_is c ∷ ": " ∷ why ∷ [])) "voltage"
            ++ misled
                (fstring ("error: could not reach " ∷ where_is c ∷ ": " ∷ why ∷ []))
                "offset"),
      )
  unfolding device_battery
  device_battery-unreachable t₀ t₁ t₂ c why loaded e e' =
      bind-returns (battery_line remote env "voltage" "get_battery")
        (λ _. battery_line remote env "offset" "get_battery_offset")
        (battery_line-unreachable "voltage" "get_battery" t₀ t₁ [] c why loaded e)
      ∙ battery_line-unreachable "offset" "get_battery_offset" t₁ t₂ _ c why loaded e'
