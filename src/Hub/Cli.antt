-- ===== src/Hub/Cli.antt =====
-- hub/cli.py: the options of `tsanet-hub`, and how its run ends.
use tsanet.Prelude.{
  ℕ, String, Bool, true, false, Option, none, some, [], ◌∷◌, fstring, str_eq, if◌then◌else◌,
}
use tsanet.Errors.{Error, Kind, Result, ok, err, raise_error}
use tsanet.Config.{NetworkConfig, Mode, TransportName, tcp, unix, require_port_for_tcp}

-- The network part of a configuration before it is checked: texts stand where names are wanted.
pub record RawNetwork : Type 0 where
  pub mode : String
  pub transport : String
  pub address : String
  pub port : Option ℕ

-- `HubConfig`; the interval is given by its `repr`.
pub record HubConfig : Type 0 where
  pub network : RawNetwork
  pub poll_interval : String

pub record Options : Type 0 where
  pub mode : Option String
  pub transport : Option String
  pub address : Option String
  pub port : Option ℕ
  pub poll_interval : Option String
  pub verbose : Bool
  pub debug : Bool
  pub log_level : String

-- `_resolve_log_level(verbose, debug, log_level)`: `attribute` is `getattr` on the module `logging`, of
-- the text in capitals, and `none` its `AttributeError`.
unfoldable pub resolve_log_level : (String → Option ℕ) → Bool → Bool → String → ℕ
resolve_log_level attribute verbose true log_level = 10
resolve_log_level attribute true false log_level = 20
resolve_log_level attribute false false log_level = elim (attribute log_level) [
  | none ↦ 20
  | some level ↦ level
]

abbrev given_or : {A : Type 0} → Option A → A → A
given_or none a = a
given_or (some b) a = b

-- The assignments of `run` to the loaded configuration.
unfoldable pub with_options : Options → HubConfig → HubConfig
with_options o c = record {
  network = record {
    mode = given_or o.mode c.network.mode;
    transport = given_or o.transport c.network.transport;
    address = given_or o.address c.network.address;
    port = elim o.port [ none ↦ c.network.port | some p ↦ some p ];
  };
  poll_interval = given_or o.poll_interval c.poll_interval;
}

mode_of : String → Result Mode
mode_of s =
    if str_eq s "listen"
    then ok Mode.listen
    else if str_eq s "dial"
    then ok Mode.dial
    else raise_error Kind.value_error "Input should be 'listen' or 'dial'"

transport_of : String → Result TransportName
transport_of s =
    if str_eq s "tcp"
    then ok tcp
    else if str_eq s "unix"
    then ok unix
    else raise_error Kind.value_error "Input should be 'tcp' or 'unix'"

-- `NetworkConfig.model_validate(network.__dict__)`: the names, and then the validator.
unfoldable pub model_validate : RawNetwork → Result NetworkConfig
unfolding mode_of transport_of
model_validate n = elim (mode_of n.mode) [
  | err e ↦ err e
  | ok mode ↦ elim (transport_of n.transport) [
    | err e ↦ err e
    | ok transport ↦
        require_port_for_tcp
          (record { mode = mode; transport = transport; address = n.address; port = n.port })
  ]
]

-- How `run` ends: the server has stopped, the command exits with a line on stderr, or an exception
-- leaves it.
pub data Ended : Type 0 where
  stopped : Ended
  exited : ℕ → String → Ended
  raised : Error → Ended

-- `server.start()` under its handler
after_start : Result (Unit {0}) → Ended
after_start (ok _) = stopped
after_start (err e) = elim e.kind [
  | Kind.security_not_implemented_error ↦ exited 1 (fstring ("error: " ∷ e.text ∷ []))
  | _ ↦ raised e
]

-- `run(...)`, with the configuration that was loaded and what `HubServer(config).start()` comes to
unfoldable pub run : Options → Result HubConfig → (HubConfig → Result (Unit {0})) → Ended
unfolding after_start
run o loaded start = elim loaded [
  | err e ↦ raised e
  | ok c ↦
      let config = with_options o c in
      elim (model_validate config.network) [ err e ↦ raised e | ok _ ↦ after_start (start config) ]
]
