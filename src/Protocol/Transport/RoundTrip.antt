-- ===== src/Protocol/Transport/RoundTrip.antt =====
-- Proofs on `send` and `recv` of protocol/transport.py at the two ends of a connection.
use tsanet.Prelude.{
  ℕ, zero, suc, ◌<◌, ◌≡◌, refl, sym, ap, ◌∙◌, List, [], ◌∷◌, ◌++◌, length, append_assoc, append-nil,
  arith, inl, inr,
}
use tsanet.Errors.{
  Error, Result-cases, ok, err, raise_error, Kind, Exec, pure, ◌>>=◌, ◌>>◌, bind-ok, bind-err,
}
use tsanet.Protocol.Messages.{Message, HasArgs}
use tsanet.Protocol.Codec.{MsgPack, IsMsgPack, header_size, encode, decode_length, decode_payload}
use tsanet.Protocol.Codec.Laws.{encode-IsFrame, decode_payload-packb}
use tsanet.Protocol.Transport.{
  Arrival, segment, timeout, Socket, recv_exact, recv_exact_or, send, recv,
}
use tsanet.Protocol.Transport.Receive.{stream, IsQuiet, live, recv_exact_lem}

module _ (mp : MsgPack) where
  -- `send` appends one frame to what the socket was given.
  pub send_lem :
      (m : Message) {bytes : List ℕ} (arrivals : List Arrival) (sent : List ℕ)
      → encode mp m ≡ ok bytes
      → send mp m (live arrivals sent) ≡ (ok tt, live arrivals (sent ++ bytes))
  unfolding send
  send_lem m arrivals sent e = rw e

  send_err : (m : Message) {e : Error} (s : Socket) → encode mp m ≡ err e → send mp m s ≡ (err e, s)
  unfolding send
  send_err m s p = rw p

  recv_parts :
      {header payload : List ℕ} {n : ℕ} (s : Socket) {s₁ s₂ : Socket}
      → recv_exact header_size s ≡ (ok header, s₁)
      → decode_length header ≡ ok n
      → recv_exact n s₁ ≡ (ok payload, s₂)
      → recv mp s ≡ (decode_payload mp payload, s₂)
  unfolding recv
  recv_parts s p d q = rw p (rw d (rw q))

  module _ (law : IsMsgPack mp) where
    -- A frame at the front of the stream is received as its message, and the rest is left.
    pub recv-encode :
        (m : Message) {bytes : List ℕ} (later sent : List ℕ) (arrivals : List Arrival)
        → HasArgs m
        → encode mp m ≡ ok bytes
        → IsQuiet arrivals
        → stream arrivals ≡ bytes ++ later
        → (rest : List Arrival) × (recv mp (live arrivals sent) ≡ (ok m, live rest sent))
          × IsQuiet rest
          × (stream rest ≡ later)
    recv-encode m later sent arrivals args e quiet front =
        let f = encode-IsFrame mp m e in
        let (rest₁, run₁, quiet₁, left₁) =
          recv_exact_lem f.header (f.payload ++ later) sent arrivals quiet
            (front ∙ ap (λ l. l ++ later) f.bytes-eq ∙ append_assoc f.header f.payload later) in
        let (rest₂, run₂, quiet₂, left₂) = recv_exact_lem f.payload later sent rest₁ quiet₁ left₁ in
        (
          rest₂,
          recv_parts (live arrivals sent) (rw (← f.header_four) run₁) f.declared run₂
              ∙ ap (λ r. (r, live rest₂ sent))
                  (decode_payload-packb mp law m f.payload args f.packed),
          quiet₂,
          left₂,
        )

-- `send` of each message in turn, and as many `recv`s as a number says.
abbrev pub sends : MsgPack → List Message → Exec Socket (Unit {0})
sends mp [] = pure tt
sends mp (m ∷ rest) = do send mp m; sends mp rest

abbrev pub recvs : MsgPack → ℕ → Exec Socket (List Message)
recvs mp zero = pure []
recvs mp (suc n) = do m ← recv mp; rest ← recvs mp n; pure (m ∷ rest)

abbrev pub AllHasArgs : List Message → Type 0
AllHasArgs [] = Unit
AllHasArgs (m ∷ rest) = HasArgs m × AllHasArgs rest

-- The frames of the messages, one behind the other.
abbrev Frames : MsgPack → List Message → List ℕ → Type 0
Frames mp [] wire = wire ≡ []
Frames mp (m ∷ ms) wire =
    (bytes : List ℕ) × (rest : List ℕ) × (wire ≡ bytes ++ rest)
    × (encode mp m ≡ ok bytes)
    × Frames mp ms rest

sends-Frames :
    (mp : MsgPack) (ms : List Message) (arrivals : List Arrival) (before : List ℕ) (t : Socket)
    → sends mp ms (live arrivals before) ≡ (ok tt, t)
    → (wire : List ℕ) × (t.sent ≡ before ++ wire) × Frames mp ms wire
sends-Frames mp [] arrivals before t h =
    ([], ap (λ r. r.1.sent) (sym h) ∙ sym (append-nil before), refl)
sends-Frames mp (m ∷ ms) arrivals before t h = elim (Result-cases (encode mp m)) [
  | inl (e, p) ↦ cc (
      ap (λ r. r.0)
        (sym (bind-err (send mp m) (λ _. sends mp ms) (send_err mp m (live arrivals before) p))
          ∙ h))
  | inr (bytes, p) ↦
      let (wire, e, frames) =
        sends-Frames mp ms arrivals (before ++ bytes) t
          (sym (bind-ok (send mp m) (λ _. sends mp ms) (send_lem mp m arrivals before p)) ∙ h) in
      (bytes ++ wire, e ∙ append_assoc before bytes wire, (bytes, wire, refl, p, frames))
]

recvs-Frames :
    (mp : MsgPack)
    → IsMsgPack mp
    → (ms : List Message) (wire later sent : List ℕ) (arrivals : List Arrival) → AllHasArgs ms
    → Frames mp ms wire
    → IsQuiet arrivals
    → stream arrivals ≡ wire ++ later
    → (rest : List Arrival) × (recvs mp (length ms) (live arrivals sent) ≡ (ok ms, live rest sent))
      × IsQuiet rest
      × (stream rest ≡ later)
recvs-Frames mp law [] wire later sent arrivals args frames q front =
    (arrivals, refl, q, front ∙ ap (λ l. l ++ later) frames)
recvs-Frames mp law (m ∷ ms) wire later sent arrivals args (bytes, more, e, p, frames) q front =
    let (rest₁, run₁, quiet₁, left₁) =
      recv-encode mp law m (more ++ later) sent arrivals args.0 p q
        (front ∙ ap (λ l. l ++ later) e ∙ append_assoc bytes more later) in
    let (rest₂, run₂, quiet₂, left₂) =
      recvs-Frames mp law ms more later sent rest₁ args.1 frames quiet₁ left₁ in
    (rest₂, rw run₁ (rw run₂), quiet₂, left₂)

-- If every message was sent without an exception on the other end, a peer that receives as many
-- messages gets those messages in order,
-- whatever segments the network makes of the bytes, and what was sent later is left in the stream.
-- MessagePack is taken to unpack what it packed, a request to hold a map of arguments, and no read
-- to time out.
pub recvs-sends :
    (mp : MsgPack)
    → IsMsgPack mp
    → (ms : List Message) (outgoing arrivals : List Arrival) (later sent : List ℕ) (t : Socket)
    → AllHasArgs ms
    → sends mp ms (live outgoing []) ≡ (ok tt, t)
    → IsQuiet arrivals
    → stream arrivals ≡ t.sent ++ later
    → (rest : List Arrival) × (recvs mp (length ms) (live arrivals sent) ≡ (ok ms, live rest sent))
      × IsQuiet rest
      × (stream rest ≡ later)
recvs-sends mp law ms outgoing arrivals later sent t args h q front =
    let (wire, e, frames) = sends-Frames mp ms outgoing [] t h in
    recvs-Frames mp law ms wire later sent arrivals args frames q (front ∙ ap (λ l. l ++ later) e)

-- A read that times out within the header drops the bytes that had come: `recv` raises the timeout,
-- and the next `recv` starts in the middle of the frame.
pub recv_timeout :
    (mp : MsgPack) (first : ℕ) (more sent : List ℕ) (rest : List Arrival)
    → length (first ∷ more) < header_size
    → recv mp (live (segment (first ∷ more) ∷ timeout ∷ rest) sent)
      ≡ (raise_error Kind.socket_timeout "timed out", live rest sent)
unfolding recv recv_exact recv_exact_or
recv_timeout mp first [] sent rest h = refl
recv_timeout mp first (b ∷ []) sent rest h = refl
recv_timeout mp first (b ∷ c ∷ []) sent rest h = refl
recv_timeout mp first (b ∷ c ∷ d ∷ more) sent rest h = absurd (omega arith)
