-- ===== src/Protocol/Transport.antt =====
-- protocol/transport.py: a connection sends and receives frames over a socket. The operating
-- system's socket is modelled by what it delivers and what it was given.
pub mod Receive
pub mod Fuel
pub mod RoundTrip
use tsanet.Prelude.{
  ℕ, zero, suc, ◌-◌, String, ◌≡◌, Bool, true, false, Option, none, some, List, [], ◌∷◌, ◌++◌,
  length, take, drop, ltb, ◌==◌, leb, if◌then◌else◌, str_eq, ◌||◌,
}
use tsanet.Errors.{Error, Kind, Result, ok, err, raise_error, Exec, pure, raise, lift, ◌>>=◌, ◌>>◌}
use tsanet.Protocol.Messages.{Message}
use tsanet.Protocol.Codec.{MsgPack, header_size, encode, decode_length, decode_payload}

-- What the network delivers: bytes that arrived together, or nothing within the socket's timeout.
pub data Arrival : Type 0 where
  segment : List ℕ → Arrival
  timeout : Arrival

-- A connected socket: what will arrive before the peer closes, what was sent, whether it is closed.
pub record Socket : Type 0 where
  pub arrivals : List Arrival
  pub sent : List ℕ
  pub closed : Bool

-- `sock.recv(n)`: at least one byte and at most `n` of what arrived together; the empty text once
-- the peer has closed. A segment without bytes is no arrival.
recv_from : ℕ → List Arrival → Result (List ℕ) × List Arrival
recv_from n [] = (ok [], [])
recv_from n (timeout ∷ rest) = (raise_error Kind.socket_timeout "timed out", rest)
recv_from n (segment [] ∷ rest) = recv_from n rest
recv_from n (segment (b ∷ bs) ∷ rest) =
    if leb (length (b ∷ bs)) n
    then (ok (b ∷ bs), rest)
    else (ok (take n (b ∷ bs)), segment (drop n (b ∷ bs)) ∷ rest)

socket_recv : ℕ → Exec Socket (List ℕ)
socket_recv n s =
    let (r, rest) = recv_from n s.arrivals in
    if s.closed
    then (raise_error Kind.os_error "bad file descriptor", s)
    else (r, record s { arrivals = rest })

-- `sock.sendall(bytes)`
unfoldable pub socket_sendall : List ℕ → Exec Socket (Unit {0})
socket_sendall bytes s =
    if s.closed
    then (raise_error Kind.os_error "bad file descriptor", s)
    else (ok tt, record s { sent = s.sent ++ bytes })

-- The loop of `_recv_exact`, which security.py has with another text for a peer that closes.
module _ (why : String) where
  -- The test on the chunk that a round has read: the end of the stream, or another round.
  received : (ℕ → List ℕ → Exec Socket (List ℕ)) → ℕ → List ℕ → List ℕ → Exec Socket (List ℕ)
  received again n chunks [] = raise Kind.connection_closed why
  received again n chunks (b ∷ bs) = again (suc n - length (b ∷ bs)) (chunks ++ b ∷ bs)

  -- The `while remaining > 0`, with the chunks joined so far. Each round reads a byte at least, so
  -- as many rounds as bytes wanted are enough.
  pub recv_loop : ℕ → ℕ → List ℕ → Exec Socket (List ℕ)
  recv_loop zero remaining chunks = pure chunks
  recv_loop (suc fuel) zero chunks = pure chunks
  recv_loop (suc fuel) (suc n) chunks = do
    chunk ← socket_recv (suc n)
    received (recv_loop fuel) n chunks chunk

  unfoldable pub recv_exact_or : ℕ → Exec Socket (List ℕ)
  unfolding recv_loop received socket_recv recv_from
  recv_exact_or count = recv_loop count count []

-- `Connection._recv_exact`
unfoldable pub recv_exact : ℕ → Exec Socket (List ℕ)
recv_exact = recv_exact_or "peer closed the connection"

module _ (mp : MsgPack) where
  -- `Connection.send`
  unfoldable pub send : Message → Exec Socket (Unit {0})
  unfolding socket_sendall
  send m = do bytes ← lift (encode mp m); socket_sendall bytes

  -- `Connection.recv`
  unfoldable pub recv : Exec Socket Message
  unfolding recv_exact
  recv = do
    header ← recv_exact header_size
    size ← lift (decode_length header)
    payload ← recv_exact size
    lift (decode_payload mp payload)

-- `Connection.close`
unfoldable pub close : Socket → Socket
close s = record s { closed = true }

-- `Endpoint`, with the checks of `__post_init__`
pub record Endpoint : Type 0 where
  pub transport : String
  pub address : String
  pub port : Option ℕ

unfoldable pub make_endpoint : String → String → Option ℕ → Result Endpoint
make_endpoint transport address port =
    if str_eq transport "tcp" || str_eq transport "unix"
    then (if str_eq transport "tcp"
        then elim port [
          | none ↦ raise_error Kind.value_error "tcp endpoint requires a port"
          | some p ↦ ok (record { transport = transport; address = address; port = some p })
        ]
        else ok (record { transport = transport; address = address; port = port }))
    else raise_error Kind.value_error "unknown transport"
