-- ===== src/Protocol/Security.antt =====
-- protocol/security.py: the handshake that runs on a socket before the first frame.
pub mod Handshake
use tsanet.Prelude.{
  ℕ, String, Bool, true, false, not, ◌&&◌, ◌||◌, List, [], ◌∷◌, ◌++◌, length, ltb, str_eq, bytes_eq,
  if◌then◌else◌,
}
use text.Mathlib.Text.{starts_with}
use tsanet.Errors.{Kind, Result, ok, err, raise_error, Exec, pure, raise, ◌>>=◌, ◌>>◌}
use tsanet.Protocol.Codec.{to_bytes, from_bytes}
use tsanet.Protocol.Transport.{Socket, socket_sendall, recv_exact_or, close}

unfoldable pub is_loopback : String → Bool
is_loopback address =
    str_eq address "localhost" || (str_eq address "::1" || starts_with address "127.")

-- `NullSecurity` and `TokenSecurity`, the latter with its token in UTF-8.
pub data SecurityProvider : Type 0 where
  null_security : SecurityProvider
  token_security : List ℕ → SecurityProvider

-- `TokenSecurity.__init__`
unfoldable pub make_token_security : List ℕ → Result SecurityProvider
make_token_security encoded =
    if ltb 0xFFFF (length encoded)
    then raise_error Kind.value_error "token is too long to encode (max 65535 bytes)"
    else ok (token_security encoded)

-- Whether `warn_if_insecure` logs its warning; both providers have the same test.
unfoldable pub warn_if_insecure : SecurityProvider → String → String → Bool
unfolding is_loopback
warn_if_insecure provider transport address = str_eq transport "tcp" && not (is_loopback address)

abbrev pub ack_ok : List ℕ
ack_ok = 1 ∷ []

abbrev pub ack_fail : List ℕ
ack_fail = 0 ∷ []

abbrev pub closed_early : String
closed_early = "peer closed the connection during the security handshake"

-- `sock.close()`
socket_close : Exec Socket (Unit {0})
socket_close s = (ok tt, close s)

-- The test of `_present` on the byte that answers.
answered : List ℕ → Exec Socket (Unit {0})
answered ack =
    if bytes_eq ack ack_ok
    then pure tt
    else (do socket_close; raise Kind.authentication_error "hub rejected the security token")

unfoldable pub present : List ℕ → Exec Socket (Unit {0})
unfolding answered socket_close
present token = do
  socket_sendall (to_bytes 2 (length token) ++ token)
  ack ← recv_exact_or closed_early 1
  answered ack

-- The test of `_verify` on the token that came.
judged : List ℕ → List ℕ → Exec Socket (Unit {0})
judged token presented = if bytes_eq presented token then socket_sendall ack_ok else (do
  socket_sendall ack_fail
  socket_close
  raise Kind.authentication_error "peer presented an invalid security token")

unfoldable pub verify : List ℕ → Exec Socket (Unit {0})
unfolding judged socket_close
verify token = do
  header ← recv_exact_or closed_early 2
  presented ← recv_exact_or closed_early (from_bytes 0 header)
  judged token presented

-- `provider.wrap(sock, server=...)`: the socket is the provider's own after it, or an exception.
unfoldable pub wrap : SecurityProvider → Bool → Exec Socket (Unit {0})
wrap null_security server = pure tt
wrap (token_security token) true = verify token
wrap (token_security token) false = present token
