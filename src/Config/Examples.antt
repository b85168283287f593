-- ===== src/Config/Examples.antt =====
-- The theorems on configurations at concrete ones.
use tsanet.Prelude.{refl, none, some, [], ◌∷◌}
use tsanet.Config.{require_secrets, NetworkConfig, SecurityConfig, listen, tcp, token}
use tsanet.Config.Laws.{Agrees, endpoint-Agrees, Provides, build_provider-require_secrets}

abbrev portless : NetworkConfig
portless = record { mode = listen; transport = tcp; address = "0.0.0.0"; port = none }

endpoint-Agrees_example : Agrees portless
endpoint-Agrees_example = endpoint-Agrees portless

abbrev with_token : SecurityConfig
with_token = record {
  mode = token;
  token = some "secret";
  tls_cert = none;
  tls_key = none;
  tls_ca = none;
}

build_provider-require_secrets_example : Provides (λ s. 115 ∷ []) with_token
unfolding require_secrets
build_provider-require_secrets_example =
    build_provider-require_secrets (λ s. 115 ∷ []) with_token refl
