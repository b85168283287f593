-- ===== src/Protocol/Security/Handshake.antt =====
-- Proofs on the two ends of the token handshake of protocol/security.py.
use tsanet.Prelude.{
  ℕ, ◌<◌, ◌≡◌, refl, sym, ap, ◌∙◌, true, false, List, [], ◌∷◌, ◌++◌, length, append_assoc,
  append-nil, bytes_eq, bytes_eq_iff, arith, ◌⊎◌, ◌≢◌, inl, inr, Bool-cases, if◌then◌else◌,
}
use tsanet.Errors.{Error, Result, Kind, ok, err, raise_error}
use tsanet.Protocol.Codec.{to_bytes, from_bytes}
use tsanet.Protocol.Transport.{Arrival, Socket, socket_sendall, recv_exact_or, close}
use tsanet.Protocol.Transport.Receive.{
  stream, IsQuiet, live, recv_exact_or_lem, recv_exact_or_closed,
}
use tsanet.Protocol.Security.{
  ack_ok, ack_fail, closed_early, answered, present, judged, verify, socket_close,
}

-- The bytes by which a token is presented.
abbrev pub presentation : List ℕ → List ℕ
presentation token = to_bytes 2 (length token) ++ token

two_bytes : (n : ℕ) → n < 65536 → from_bytes 0 (to_bytes 2 n) ≡ n
unfolding to_bytes from_bytes
two_bytes n h = omega arith

length-two_bytes : (n : ℕ) → length (to_bytes 2 n) ≡ 2
unfolding to_bytes
length-two_bytes n = refl

verify_parts :
    (token : List ℕ) {header presented : List ℕ} {n : ℕ} (s : Socket) {s₁ s₂ : Socket}
    → recv_exact_or closed_early 2 s ≡ (ok header, s₁)
    → from_bytes 0 header ≡ n
    → recv_exact_or closed_early n s₁ ≡ (ok presented, s₂)
    → verify token s ≡ judged token presented s₂
unfolding verify
verify_parts token s p d q = rw p (rw d (rw q))

judged_lem :
    (token presented : List ℕ) (rest : List Arrival) (sent : List ℕ)
    → judged token presented (live rest sent) ≡ (
        if bytes_eq presented token then (ok tt, live rest (sent ++ ack_ok)) else (
          raise_error Kind.authentication_error "peer presented an invalid security token",
          close (live rest (sent ++ ack_fail)),
        ))
unfolding judged socket_sendall socket_close
judged_lem token presented rest sent = ground arith

-- The accepting side reads the presented token, of fewer than 65536 bytes, from a stream that is cut
-- in any way and does not time out. It acknowledges the
-- token that equals its own; for any other it sends the failure byte, closes the socket and raises
-- `AuthenticationError`. No byte behind the handshake is read.
pub verify-presentation :
    (token presented later sent : List ℕ) (arrivals : List Arrival)
    → length presented < 65536
    → IsQuiet arrivals
    → stream arrivals ≡ presentation presented ++ later
    → (rest : List Arrival) × (verify token (live arrivals sent) ≡ (
        if bytes_eq presented token then (ok tt, live rest (sent ++ ack_ok)) else (
          raise_error Kind.authentication_error "peer presented an invalid security token",
          close (live rest (sent ++ ack_fail)),
        )))
      × (stream rest ≡ later)
unfolding to_bytes
verify-presentation token presented later sent arrivals short quiet front =
    let header : List ℕ = to_bytes 2 (length presented) in
    let (rest₁, run₁, quiet₁, left₁) =
      recv_exact_or_lem closed_early header (presented ++ later) sent arrivals quiet
        (front ∙ append_assoc header presented later) in
    let (rest₂, run₂, quiet₂, left₂) =
      recv_exact_or_lem closed_early presented later sent rest₁ quiet₁ left₁ in
    (
      rest₂,
      verify_parts token (live arrivals sent) (rw (← length-two_bytes (length presented)) run₁)
            (two_bytes (length presented) short) run₂
          ∙ judged_lem token presented rest₂ sent,
      left₂,
    )

present_parts :
    (token : List ℕ) {ack : List ℕ} (s : Socket) {s₁ s₂ : Socket}
    → socket_sendall (presentation token) s ≡ (ok tt, s₁)
    → recv_exact_or closed_early 1 s₁ ≡ (ok ack, s₂)
    → present token s ≡ answered ack s₂
unfolding present
present_parts token s p q = rw p (rw q)

answered_lem :
    (ack : ℕ) (rest : List Arrival) (sent : List ℕ)
    → answered (ack ∷ []) (live rest sent) ≡ (
        if bytes_eq (ack ∷ []) ack_ok then (ok tt, live rest sent) else (
          raise_error Kind.authentication_error "hub rejected the security token",
          close (live rest sent),
        ))
unfolding answered socket_close
answered_lem ack rest sent = ground arith

-- The dialing side sends its token and goes by the one byte that answers.
present_answer :
    (token later sent : List ℕ) (ack : ℕ) (arrivals : List Arrival)
    → IsQuiet arrivals
    → stream arrivals ≡ ack ∷ later
    → (rest : List Arrival) × (present token (live arrivals sent) ≡ (
        if bytes_eq (ack ∷ []) ack_ok then (ok tt, live rest (sent ++ presentation token)) else (
          raise_error Kind.authentication_error "hub rejected the security token",
          close (live rest (sent ++ presentation token)),
        )))
      × (stream rest ≡ later)
unfolding socket_sendall
present_answer token later sent ack arrivals quiet front =
    let (rest, run, quiet', left) =
      recv_exact_or_lem closed_early (ack ∷ []) later (sent ++ presentation token) arrivals quiet
        front in
    (
      rest,
      present_parts token (live arrivals sent) refl run
          ∙ answered_lem ack rest (sent ++ presentation token),
      left,
    )

present_end :
    (token sent : List ℕ) (arrivals : List Arrival)
    → IsQuiet arrivals
    → stream arrivals ≡ []
    → (present token (live arrivals sent)).1.sent ≡ sent ++ presentation token
unfolding present socket_sendall
present_end token sent arrivals quiet e =
    rw (recv_exact_or_closed closed_early 0 (sent ++ presentation token) arrivals quiet e)

-- Whatever answers it, the dialing side sends its token and no more.
sent-present :
    (token sent : List ℕ) (arrivals : List Arrival)
    → IsQuiet arrivals
    → (present token (live arrivals sent)).1.sent ≡ sent ++ presentation token
unfolding close
sent-present token sent arrivals quiet = go (stream arrivals) refl
  where
    go :
        (l : List ℕ)
        → stream arrivals ≡ l
        → (present token (live arrivals sent)).1.sent ≡ sent ++ presentation token
    go [] e = present_end token sent arrivals quiet e
    go (ack ∷ later) e =
        let (rest, run, left) = present_answer token later sent ack arrivals quiet e in
        elim (Bool-cases (bytes_eq (ack ∷ []) ack_ok)) [
          | inl yes_ack ↦ rw run (rw yes_ack)
          | inr no_ack ↦ rw run (rw no_ack)
        ]

abbrev invalid_token : Error
invalid_token = record {
  kind = Kind.authentication_error;
  text = "peer presented an invalid security token";
}

abbrev rejected_token : Error
rejected_token = record {
  kind = Kind.authentication_error;
  text = "hub rejected the security token";
}

-- How an end that refused, or was refused, is left.
abbrev pub IsRefused : Result (Unit {0}) × Socket → Type 0
IsRefused (r, s) =
    (e : Error) × (r ≡ err e) × (e.kind ≡ Kind.authentication_error) × (s.closed ≡ true)

abbrev pub IsAccepted : Result (Unit {0}) × Socket → Type 0
IsAccepted (r, s) = (r ≡ ok tt) × (s.closed ≡ false)

-- The two ends of a connection, each reading what the other sent in whatever segments: with equal
-- tokens both accept, and otherwise both raise `AuthenticationError` and close their sockets. The
-- controller's token is shorter than 65536 bytes, and no read times out.
pub handshake_agrees :
    (server client : List ℕ) (to_server to_client : List Arrival)
    → length client < 65536
    → IsQuiet to_server
    → IsQuiet to_client
    → stream to_server ≡ (present client (live to_client [])).1.sent
    → stream to_client ≡ (verify server (live to_server [])).1.sent
    → ((client ≡ server)
        × IsAccepted (verify server (live to_server []))
        × IsAccepted (present client (live to_client [])))
      ⊎ ((client ≢ server)
          × IsRefused (verify server (live to_server []))
          × IsRefused (present client (live to_client [])))
unfolding close
handshake_agrees server client to_server to_client short q₁ q₂ p₁ p₂ =
    let (rest, run, left) =
      verify-presentation server client [] [] to_server short q₁
        (p₁ ∙ sent-present client [] to_client q₂ ∙ sym (append-nil (presentation client))) in
    elim (Bool-cases (bytes_eq client server)) [
      | inl same ↦
          let run' = rw same at run in
          let (rest', answer, left') =
            present_answer client [] [] 1 to_client q₂ (p₂ ∙ ap (λ r. r.1.sent) run') in
          inl ((bytes_eq_iff client server).0 same, rw run' (refl, refl), rw answer (refl, refl))
      | inr other ↦
          let run' = rw other at run in
          let (rest', answer, left') =
            present_answer client [] [] 0 to_client q₂ (p₂ ∙ ap (λ r. r.1.sent) run') in
          inr (
            λ e. cc ((bytes_eq_iff client server).1 e),
            rw run' (invalid_token, refl, refl, refl),
            rw answer (rejected_token, refl, refl, refl),
          )
    ]
