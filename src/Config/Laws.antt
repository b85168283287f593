-- ===== src/Config/Laws.antt =====
-- Proofs on the configurations of common/config.py.
use tsanet.Prelude.{
  ℕ, String, ◌≡◌, refl, ◌⊎◌, inl, inr, Bool-cases, Option, none, some, List, length, ltb,
}
use tsanet.Errors.{Error, Kind, ok, err}
use tsanet.Protocol.Transport.{Endpoint, make_endpoint}
use tsanet.Protocol.Security.{SecurityProvider, make_token_security}
use tsanet.Config.{
  Mode, TransportName, tcp, unix, SecurityMode, no_security, token, tls_token, NetworkConfig,
  require_port_for_tcp, endpoint, SecurityConfig, require_secrets, build_provider,
}

-- The check of a network configuration and its endpoint, both fine or both a `ValueError`.
abbrev pub Agrees : NetworkConfig → Type 0
Agrees c =
    ((e : Endpoint) × (endpoint c ≡ ok e)
      × (e.address ≡ c.address)
      × (require_port_for_tcp c ≡ ok c))
    ⊎ ((e e' : Error) × (endpoint c ≡ err e)
        × (e.kind ≡ Kind.value_error)
        × (require_port_for_tcp c ≡ err e')
        × (e'.kind ≡ Kind.value_error))

network-Agrees :
    (m : Mode) (t : TransportName) (address : String) (port : Option ℕ)
    → Agrees (record { mode = m; transport = t; address = address; port = port })
unfolding endpoint require_port_for_tcp make_endpoint
network-Agrees m tcp address none = inr (_, _, refl, refl, refl, refl)
network-Agrees m tcp address (some p) = inl (_, refl, refl, refl)
network-Agrees m unix address port = inl (_, refl, refl, refl)

-- A network configuration passes its check exactly if its endpoint can be built, with the address it
-- names; otherwise both are a `ValueError`.
pub endpoint-Agrees : (c : NetworkConfig) → Agrees c
endpoint-Agrees c = network-Agrees c.mode c.transport c.address c.port

-- What a security configuration can build.
abbrev pub Provides : (String → List ℕ) → SecurityConfig → Type 0
Provides encode c =
    ((p : SecurityProvider) × (build_provider encode c ≡ ok p))
    ⊎ ((e : Error) × (build_provider encode c ≡ err e)
        × (((e.kind ≡ Kind.security_not_implemented_error) × (c.mode ≡ tls_token))
            ⊎ ((e.kind ≡ Kind.value_error) × (c.mode ≡ token))))

token-Provides :
    (encode : String → List ℕ) (c : SecurityConfig) (t : String)
    → c.mode ≡ token
    → c.token ≡ some t
    → Provides encode c
unfolding build_provider make_token_security
token-Provides encode c t m e = elim (Bool-cases (ltb 0xFFFF (length (encode t)))) [
  | inl long ↦
      rw (m, e, long, build_provider, make_token_security) (inr (_, refl, inr (refl, refl)))
  | inr short ↦ rw (m, e, short, build_provider, make_token_security) (inl (_, refl))
]

provider_of :
    (encode : String → List ℕ) (m : SecurityMode) (t cert key ca : Option String)
    → let c : SecurityConfig = record {
      mode = m;
      token = t;
      tls_cert = cert;
      tls_key = key;
      tls_ca = ca;
    } in
      require_secrets c ≡ ok c → Provides encode c
unfolding build_provider require_secrets
provider_of encode no_security t cert key ca h = inl (_, refl)
provider_of encode token none cert key ca h = cc h
provider_of encode token (some t) cert key ca h =
    token-Provides encode
      (record { mode = token; token = some t; tls_cert = cert; tls_key = key; tls_ca = ca }) t refl
      refl
provider_of encode tls_token t cert key ca h = inr (_, refl, inl (refl, refl))

-- A security configuration that passed its check builds a provider, or raises
-- `SecurityNotImplementedError` in the mode `tls-token` or `ValueError` in the mode `token`; the
-- assertion in `build_provider` does not fail.
pub build_provider-require_secrets :
    (encode : String → List ℕ) (c : SecurityConfig) → require_secrets c ≡ ok c → Provides encode c
build_provider-require_secrets encode c h =
    provider_of encode c.mode c.token c.tls_cert c.tls_key c.tls_ca h
