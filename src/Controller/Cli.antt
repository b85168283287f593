-- ===== src/Controller/Cli.antt =====
-- controller/cli/app.py: what the commands of `tsanet-ctl` share. A command is a program on a context:
-- the remote end, whether the client has connected, and what the command asked and showed so far.
pub mod Format
pub mod Sweep
pub mod Marker
pub mod Trace
pub mod Basic
pub mod Session
pub mod Keeps
pub mod Runs
pub mod Requests
pub mod App
pub mod Setup
mod Examples
use tsanet.Prelude.{
  String, Bool, true, false, ◌||◌, Option, none, some, List, [], ◌∷◌, ◌++◌, map, fstring, str_mem,
  str_eq, if◌then◌else◌, ℕ, decimal,
}
use tsanet.Prelude.Int.{ℤ, eq_ℤ}
use tsanet.Errors.{Error, Kind, Result, ok, err, is_value_error, is_rpc_error}
use tsanet.Config.{NetworkConfig, Mode, TransportName, tcp, unix, require_port_for_tcp}
use tsanet.Protocol.Value.{Value, Fields, null, text, dict, end, field}
use tsanet.Protocol.Value.Text.{str}
use tsanet.Controller.Parse.{Numbers, parse_frequency}

-- What a command does to the world, in order: a request to the hub, a line on stdout or stderr, text
-- on stdout without a line's end, and a file.
pub data Effect : Type 0 where
  asked : String → String → Fields → Effect
  printed : String → Effect
  complained : String → Effect
  printed_raw : String → Effect
  wrote : String → Value → Effect

-- The argument of `typer.Exit`.
pub data Code : Type 0 where
  status : ℕ → Code
  message : String → Code

-- How a command ends: it returns, raises `typer.Exit`, or raises anything else.
pub data Outcome (A : Type 0) : Type 0 where
  returns : A → Outcome A
  exits : Code → Outcome A
  raises : Error → Outcome A

-- The client of the hub: `RpcClient(config).connect()` and `client.call(domain, op, **args)`.
pub record Remote (S : Type 0) : Type 0 where
  pub connect : NetworkConfig → S → Result (Unit {0}) × S
  pub call : String → String → Fields → S → Result Value × S

-- The globals of the module and what the commands take from libraries: the configuration that was
-- loaded, `_network_overrides`, `_selected_device`, the help text of the command, numbers, and how
-- Python formats.
pub record Environment : Type 0 where
  pub loaded : Result NetworkConfig
  pub mode : Option Mode
  pub transport : Option TransportName
  pub address : Option String
  pub port : Option ℕ
  pub selected_device : Option String
  pub help : Option String
  pub numbers : Numbers
  -- `int(text)`
  pub int_of_text : String → Result ℤ
  -- an f-string's text of a member of a str-based `Enum`, by its class and its value
  pub member_text : String → String → String
  -- `f"{v:.0f}"`
  pub no_decimals : Value → Result String
  -- `f"SA_{datetime.datetime.now():%Y%m%d_%H%M%S}.png"`
  pub dated_name : String
  -- a row of `csv.writer`
  pub csv_row : List Value → String
  -- `Path(path).write_bytes(v)` or `write_text(v)`
  pub write : String → Value → Result (Unit {0})

pub record Context (S : Type 0) : Type 0 where
  pub remote : S
  pub connected : Bool
  pub log : List Effect

abbrev pub Command : Type 0 → Type 0 → Type 0
Command S A = Context S → Outcome A × Context S

-- The rest of a block, after what its first step left.
abbrev pub continue :
    {S A B : Type 0} → (A → Command S B) → Outcome A × Context S → Outcome B × Context S
continue f (returns a, s) = f a s
continue f (exits c, s) = (exits c, s)
continue f (raises e, s) = (raises e, s)

infixl 5 ◌>>=◌ ◌>>◌
unfoldable pub ◌>>=◌ : {S A B : Type 0} → Command S A → (A → Command S B) → Command S B
◌>>=◌ m f s = continue f (m s)

abbrev pub ◌>>◌ : {S A B : Type 0} → Command S A → Command S B → Command S B
m >> k = m >>= λ _. k

abbrev pub of_result : {A : Type 0} → Result A → Outcome A
of_result (ok a) = returns a
of_result (err e) = raises e

module _ {S A : Type 0} where
  unfoldable pub pure : A → Command S A
  pure a s = (returns a, s)

  unfoldable pub exit : Code → Command S A
  exit c s = (exits c, s)

  unfoldable pub raise : Error → Command S A
  raise e s = (raises e, s)

  unfoldable pub lift : Result A → Command S A
  lift r s = (of_result r, s)

unfoldable pub tell : {S : Type 0} → Effect → Command S (Unit {0})
tell e s = (returns tt, record s { log = s.log ++ e ∷ [] })

-- `typer.echo(text)`
abbrev pub echo : {S : Type 0} → String → Command S (Unit {0})
echo line = tell (printed line)

-- `typer.echo(v)` of what a call returned: `None` prints an empty line.
unfoldable pub echo_value : {S : Type 0} → Value → Command S (Unit {0})
echo_value null = echo ""
echo_value v = echo (str v)

-- `_load_config()`: the loaded configuration with the overrides that were given, checked again.
overridden : Environment → NetworkConfig → NetworkConfig
overridden env c = record {
  mode = elim env.mode [ none ↦ c.mode | some m ↦ m ];
  transport = elim env.transport [ none ↦ c.transport | some t ↦ t ];
  address = elim env.address [ none ↦ c.address | some a ↦ a ];
  port = elim env.port [ none ↦ c.port | some p ↦ some p ];
}

unfoldable pub load_config : Environment → Result NetworkConfig
unfolding overridden
load_config env = elim env.loaded [ err e ↦ err e | ok c ↦ require_port_for_tcp (overridden env c) ]

-- What the two clauses of `_rpc` catch.
abbrev pub is_refused : Kind → Bool
is_refused Kind.security_not_implemented_error = true
is_refused Kind.authentication_error = true
is_refused Kind.connection_closed = true
is_refused Kind.rpc_error = true
is_refused _ = false

abbrev pub is_os_error : Kind → Bool
is_os_error Kind.os_error = true
is_os_error Kind.socket_timeout = true
is_os_error _ = false

port_text : Option ℕ → String
port_text none = "None"
port_text (some p) = decimal p

pub where_is : NetworkConfig → String
where_is c = elim c.transport [
  | tcp ↦ fstring (c.address ∷ ":" ∷ port_text c.port ∷ [])
  | unix ↦ c.address
]

-- `typer.echo(text, err=True)` and `raise typer.Exit(code=1)`
abbrev pub give_up : {S A : Type 0} → String → Command S A
give_up line = do tell (complained line); exit (status 1)

module _ {S : Type 0} (remote : Remote S) (env : Environment) where
  -- A method of the client.
  unfoldable pub on_remote : {A : Type 0} → (S → Result A × S) → Command S A
  on_remote m s = let (r, t) = m s.remote in (of_result r, record s { remote = t })

  -- `client.call(domain, op, **args)`
  abbrev pub ask : String → String → Fields → Command S Value
  ask domain op args = do tell (asked domain op args); on_remote (remote.call domain op args)

  select : Option String → Command S (Unit {0})
  select none = pure tt
  select (some id) = do ask "devices" "select" (field "device_id" (text id) end); pure tt

  caught : NetworkConfig → Outcome (Unit {0}) × Context S → Outcome (Unit {0}) × Context S
  caught c (returns _, s) = (returns tt, record s { connected = true })
  caught c (exits code, s) = (exits code, s)
  caught c (raises e, s) =
      (if is_refused e.kind
          then give_up (fstring ("error: " ∷ e.text ∷ []))
          else if is_os_error e.kind
          then give_up (fstring ("error: could not reach " ∷ where_is c ∷ ": " ∷ e.text ∷ []))
          else raise e)
        s

  -- `_rpc()`, without the look-up in the log: the client that has connected, or a new one.
  unfoldable pub rpc : Command S (Unit {0})
  unfolding caught select where_is port_text on_remote ◌>>=◌
  rpc s = if s.connected then (returns tt, s) else elim (load_config env) [
    | err e ↦ (raises e, s)
    | ok c ↦ caught c ((on_remote (remote.connect c) >> select env.selected_device) s)
  ]

  -- `except RpcError`
  refused : {A : Type 0} → Outcome A × Context S → Outcome A × Context S
  refused (raises e, s) = (if is_rpc_error e.kind then exits (message e.text) else raises e, s)
  refused r = r

  -- `_call(domain, op, **args)`
  unfoldable pub call : String → String → Fields → Command S Value
  unfolding refused
  call domain op args s = refused ((rpc >> ask domain op args) s)

module _ {S : Type 0} (env : Environment) where
  -- `_die(msg)`
  unfoldable pub die : {A : Type 0} → String → Command S A
  die msg = elim env.help [
    | none ↦ give_up (fstring ("Error: " ∷ msg ∷ []))
    | some help ↦ do tell (complained help); give_up (fstring ("Error: " ∷ msg ∷ []))
  ]

  parsed : Result ℤ → Command S ℤ
  parsed (ok n) = pure n
  parsed (err e) = if is_value_error e.kind then die e.text else raise e

  -- `_freq(raw)`
  unfoldable pub freq : String → Command S ℤ
  unfolding parsed
  freq raw = parsed (parse_frequency env.numbers raw)

-- An argument of an `Enum`: typer ends with a usage error on a text that is no member.
unfoldable pub choose : {S : Type 0} → List String → String → Command S String
choose members value = if str_mem value members then pure value else exit (status 2)
