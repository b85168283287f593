-- ===== src/Controller/Cli/Setup.antt =====
-- The callback `_setup` of controller/cli/app.py, which runs ahead of every command, and the help text.
use tsanet.Prelude.{
  ℕ, String, Bool, true, false, Option, none, some, List, [], ◌∷◌, ◌++◌, fstring, str_eq,
  if◌then◌else◌,
}
use tsanet.Config.{Mode, TransportName}
use tsanet.Device.Parsing.{strip}
use tsanet.Controller.Cli.{Command, Environment, Remote, status, pure, exit, ◌>>◌}
use tsanet.Controller.Cli.Format.{pad_right}
use tsanet.Controller.Cli.Basic.{devices_list}

-- The options in front of a command.
pub record Options : Type 0 where
  pub mode : Option Mode
  pub transport : Option TransportName
  pub address : Option String
  pub port : Option ℕ
  pub device : Option String
  pub list_devices_alias : Bool
  pub verbose : Bool
  pub debug : Bool

-- `_resolve_log_level(verbose, debug)`: `logging.DEBUG`, `INFO` or `WARNING`
unfoldable pub resolve_log_level : Bool → Bool → ℕ
resolve_log_level verbose true = 10
resolve_log_level true false = 20
resolve_log_level false false = 30

-- The globals that `_setup` assigns.
unfoldable pub with_options : Options → Environment → Environment
with_options o env = record env {
  mode = o.mode;
  transport = o.transport;
  address = o.address;
  port = o.port;
  selected_device = o.device;
}

module _ {S : Type 0} (remote : Remote S) (env : Environment) where
  -- `_setup(ctx, ...)`, then the command, if one is named.
  unfoldable pub setup :
      Options → Option (Environment → Command S (Unit {0})) → Command S (Unit {0})
  setup o (some command) = command (with_options o env)
  setup o none =
      if o.list_devices_alias
      then (do devices_list remote (with_options o env); exit (status 0))
      else pure tt

-- A parameter of a command, as `_get_help` reads it.
pub record Parameter : Type 0 where
  pub name : String
  pub opts : List String
  pub help : Option String
  pub required : Bool
  pub hidden : Bool

-- `sep.join(pieces)`
join : String → List String → String
join sep [] = ""
join sep (s ∷ []) = s
join sep (s ∷ t ∷ rest) = fstring (s ∷ sep ∷ join sep (t ∷ rest) ∷ [])

-- `text or ''`
or_blank : Option String → String
or_blank none = ""
or_blank (some s) = s

parameter_line : Parameter → String
unfolding join or_blank
parameter_line p = fstring (
    "  "
    ∷ pad_right 24 (join ", " p.opts)
    ∷ " "
    ∷ or_blank p.help
    ∷ (if p.required then " [required]" else "")
    ∷ [])

-- The loop over `cmd.get_params(ctx)`.
parameter_lines : List Parameter → List String
unfolding parameter_line
parameter_lines [] = []
parameter_lines (p ∷ rest) =
    if p.hidden
    then parameter_lines rest
    else if str_eq p.name "help"
    then parameter_lines rest
    else parameter_line p ∷ parameter_lines rest

description_lines : String → List String
description_lines desc = if str_eq desc "" then [] else "" ∷ fstring ("  " ∷ desc ∷ []) ∷ []

-- `_get_help(ctx)`, of a command's path, its parameters and its own help
unfoldable pub get_help : String → List Parameter → Option String → String
unfolding join or_blank parameter_lines description_lines
get_help path params help = join "\n" (
    fstring ("Usage: " ∷ path ∷ []) ∷ parameter_lines params
    ++ description_lines (strip (or_blank help)))
