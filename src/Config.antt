-- ===== src/Config.antt =====
-- common/config.py: the network and security shapes that hub and controller share, with the checks
-- that pydantic runs after it has checked the fields' types.
pub mod Laws
mod Examples
use tsanet.Prelude.{
  ℕ, String, Bool, true, false, not, ◌&&◌, ◌||◌, Option, none, some, List, str_eq, if◌then◌else◌,
}
use tsanet.Errors.{Kind, Result, ok, err, raise_error}
use tsanet.Protocol.Transport.{Endpoint, make_endpoint}
use tsanet.Protocol.Security.{SecurityProvider, null_security, make_token_security}

-- The `Literal` types of the fields.
pub data Mode : Type 0 where
  listen dial : Mode

pub data TransportName : Type 0 where
  tcp unix : TransportName

pub data SecurityMode : Type 0 where
  no_security token tls_token : SecurityMode

pub record NetworkConfig : Type 0 where
  pub mode : Mode
  pub transport : TransportName
  pub address : String
  pub port : Option ℕ

abbrev pub transport_value : TransportName → String
transport_value tcp = "tcp"
transport_value unix = "unix"

-- `_require_port_for_tcp`
unfoldable pub require_port_for_tcp : NetworkConfig → Result NetworkConfig
require_port_for_tcp c = elim c.transport [
  | tcp ↦ elim c.port [
    | none ↦ raise_error Kind.value_error "tcp transport requires a port"
    | some _ ↦ ok c
  ]
  | unix ↦ ok c
]

-- `endpoint()`
unfoldable pub endpoint : NetworkConfig → Result Endpoint
endpoint c =
    make_endpoint (transport_value c.transport) c.address
      (elim c.transport [ tcp ↦ c.port | unix ↦ none ])

pub record SecurityConfig : Type 0 where
  pub mode : SecurityMode
  pub token : Option String
  pub tls_cert : Option String
  pub tls_key : Option String
  pub tls_ca : Option String

-- `bool(x)` of an optional text
abbrev pub given : Option String → Bool
given none = false
given (some s) = not (str_eq s "")

-- `_require_secrets`
unfoldable pub require_secrets : SecurityConfig → Result SecurityConfig
require_secrets c = elim c.mode [
  | no_security ↦ ok c
  | token ↦
      if given c.token
      then ok c
      else raise_error Kind.value_error "a token is required when security mode is not 'none'"
  | tls_token ↦
      if given c.token
      then (if given c.tls_cert && given c.tls_key
          then ok c
          else raise_error Kind.value_error "tls-token mode requires tls_cert and tls_key")
      else raise_error Kind.value_error "a token is required when security mode is not 'none'"
]

-- `build_provider()`, with what `str.encode` makes of a text.
unfoldable pub build_provider : (String → List ℕ) → SecurityConfig → Result SecurityProvider
build_provider encode c = elim c.mode [
  | no_security ↦ ok null_security
  | token ↦ elim c.token [
    | none ↦ raise_error Kind.assertion_error ""
    | some t ↦ make_token_security (encode t)
  ]
  | tls_token ↦
      raise_error Kind.security_not_implemented_error
        "security mode 'tls-token' is not implemented yet; use 'token' or 'none'"
]
