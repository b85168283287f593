-- ===== src/Protocol/Transport/Receive.antt =====
-- Proofs on `_recv_exact` of protocol/transport.py and protocol/security.py.
use tsanet.Prelude.{
  String, ℕ, zero, suc, ◌+◌, ◌-◌, ◌≤◌, ◌<◌, ◌≡◌, refl, sym, ap, ◌∙◌, false, List, [], ◌∷◌, ◌++◌,
  length, length-append, length-take, append_split, nil_or_more, take-append-drop, take, drop,
  arith, append_assoc, append-nil, leb, Bool-cases, inl, inr,
}
use tsanet.Errors.{Result, ok, raise_error, bind-ok, Kind}
use tsanet.Protocol.Transport.{
  Arrival, segment, timeout, Socket, recv_from, socket_recv, received, recv_loop, recv_exact_or,
  recv_exact,
}

-- The bytes of the arrivals, joined.
abbrev pub stream : List Arrival → List ℕ
stream [] = []
stream (segment bs ∷ rest) = bs ++ stream rest
stream (timeout ∷ rest) = stream rest

-- No read of it times out.
abbrev pub IsQuiet : List Arrival → Type 0
IsQuiet [] = Unit
IsQuiet (segment bs ∷ rest) = IsQuiet rest
IsQuiet (timeout ∷ rest) = ⊥

-- A socket that is open.
abbrev pub live : List Arrival → List ℕ → Socket
live arrivals sent = record { arrivals = arrivals; sent = sent; closed = false }

-- One read of a quiet socket with bytes to come: some of them, and no more than asked for.
record Chunk (n : ℕ) (arrivals : List Arrival) : Type 0 where
  first : ℕ
  more : List ℕ
  rest : List Arrival
  reads : recv_from n arrivals ≡ (ok (first ∷ more), rest)
  quiet : IsQuiet rest
  joined : first ∷ more ++ stream rest ≡ stream arrivals
  bounded : length (first ∷ more) ≤ n

recv_from-Chunk :
    (n : ℕ) (arrivals : List Arrival)
    → 0 < n
    → IsQuiet arrivals
    → 0 < length (stream arrivals)
    → Chunk n arrivals
unfolding recv_from
recv_from-Chunk n [] pos q h = absurd (omega arith)
recv_from-Chunk n (timeout ∷ rest) pos q h = absurd q
recv_from-Chunk n (segment [] ∷ rest) pos q h =
    let c = recv_from-Chunk n rest pos q h in
    record {
      first = c.first;
      more = c.more;
      rest = c.rest;
      reads = c.reads;
      quiet = c.quiet;
      joined = c.joined;
      bounded = c.bounded;
    }
recv_from-Chunk (suc n) (segment (b ∷ bs) ∷ rest) pos q h =
    elim (Bool-cases (leb (length (b ∷ bs)) (suc n))) [
      | inl whole ↦ record {
        first = b;
        more = bs;
        rest = rest;
        reads = rw whole;
        quiet = q;
        joined = refl;
        bounded = ground arith;
      }
      | inr part ↦ record {
        first = b;
        more = take n bs;
        rest = segment (drop n bs) ∷ rest;
        reads = rw part;
        quiet = q;
        joined =
            ap (λ l. b ∷ l)
              (sym (append_assoc (take n bs) (drop n bs) (stream rest))
                ∙ ap (λ l. l ++ stream rest) (take-append-drop n bs));
        bounded = omega (arith, length-take n bs);
      }
    ]
recv_from-Chunk zero (segment (b ∷ bs) ∷ rest) pos q h = absurd (omega arith)

recv_from-end :
    (n : ℕ) (arrivals : List Arrival)
    → IsQuiet arrivals
    → stream arrivals ≡ []
    → recv_from n arrivals ≡ (ok [], [])
unfolding recv_from
recv_from-end n [] q h = refl
recv_from-end n (timeout ∷ rest) q h = absurd q
recv_from-end n (segment [] ∷ rest) q h = recv_from-end n rest q h
recv_from-end n (segment (b ∷ bs) ∷ rest) q h = cc

socket_recv_lem :
    (n : ℕ) (sent : List ℕ) (arrivals : List Arrival) {r : Result (List ℕ)} {rest : List Arrival}
    → recv_from n arrivals ≡ (r, rest)
    → socket_recv n (live arrivals sent) ≡ (r, live rest sent)
unfolding socket_recv
socket_recv_lem n sent arrivals e = rw e

module _ (why : String) where
  recv_loop_step :
      (fuel n x : ℕ) (chunks xs sent : List ℕ) (arrivals rest : List Arrival)
      → recv_from (suc n) arrivals ≡ (ok (x ∷ xs), rest)
      → recv_loop why (suc fuel) (suc n) chunks (live arrivals sent)
        ≡ recv_loop why fuel (suc n - length (x ∷ xs)) (chunks ++ x ∷ xs) (live rest sent)
  unfolding recv_loop received
  recv_loop_step fuel n x chunks xs sent arrivals rest e =
      bind-ok (socket_recv (suc n)) (received why (recv_loop why fuel) n chunks)
        (socket_recv_lem (suc n) sent arrivals e)

  -- The bytes wanted stand at the front of the stream: they are what the loop returns.
  recv_loop_lem :
      (fuel : ℕ) (chunks bytes later sent : List ℕ) (arrivals : List Arrival)
      → length bytes ≤ fuel
      → IsQuiet arrivals
      → stream arrivals ≡ bytes ++ later
      → (rest : List Arrival) × (recv_loop why fuel (length bytes) chunks (live arrivals sent)
          ≡ (ok (chunks ++ bytes), live rest sent))
        × IsQuiet rest
        × (stream rest ≡ later)
  unfolding recv_loop
  recv_loop_lem zero chunks [] later sent arrivals fits q e = (arrivals, rw append-nil, q, e)
  recv_loop_lem zero chunks (b ∷ bs) later sent arrivals fits q e = absurd (omega arith)
  recv_loop_lem (suc fuel) chunks [] later sent arrivals fits q e = (arrivals, rw append-nil, q, e)
  recv_loop_lem (suc fuel) chunks (b ∷ bs) later sent arrivals fits q e =
      let c : Chunk (length (b ∷ bs)) arrivals =
        recv_from-Chunk (length (b ∷ bs)) arrivals (omega arith) q (omega (arith, ap length e)) in
      let chunk : List ℕ = c.first ∷ c.more in
      let (middle, p, later_eq) =
        append_split chunk (stream c.rest) (b ∷ bs) later (c.joined ∙ e) c.bounded in
      let sizes : length (b ∷ bs) ≡ length chunk + length middle =
        ap length p ∙ length-append chunk middle in
      let (rest, run, quiet, left) =
        recv_loop_lem fuel (chunks ++ chunk) middle later sent c.rest (omega arith) c.quiet
          later_eq in
      (
        rest,
        recv_loop_step fuel (length bs) c.first chunks c.more sent arrivals c.rest c.reads
            ∙ ap (λ k. recv_loop why fuel k (chunks ++ chunk) (live c.rest sent)) (omega arith)
            ∙ run
            ∙ ap (λ (l : List ℕ). (ok l, live rest sent))
                (append_assoc chunks chunk middle ∙ ap (λ l. chunks ++ l) (sym p)),
        quiet,
        left,
      )

  -- On a quiet socket `_recv_exact` returns exactly the bytes at the front of the stream, wherever
  -- the network cut it, and leaves the rest of the stream.
  pub recv_exact_or_lem :
      (bytes later sent : List ℕ) (arrivals : List Arrival)
      → IsQuiet arrivals
      → stream arrivals ≡ bytes ++ later
      → (rest : List Arrival) × (recv_exact_or why (length bytes) (live arrivals sent)
          ≡ (ok bytes, live rest sent))
        × IsQuiet rest
        × (stream rest ≡ later)
  unfolding recv_exact_or
  recv_exact_or_lem bytes later sent arrivals q e =
      recv_loop_lem (length bytes) [] bytes later sent arrivals (omega arith) q e

  recv_loop_closed :
      (fuel n : ℕ) (chunks sent : List ℕ) (arrivals : List Arrival)
      → IsQuiet arrivals
      → stream arrivals ≡ []
      → recv_loop why (suc fuel) (suc n) chunks (live arrivals sent)
        ≡ (raise_error Kind.connection_closed why, live [] sent)
  unfolding recv_loop received
  recv_loop_closed fuel n chunks sent arrivals q e =
      bind-ok (socket_recv (suc n)) (received why (recv_loop why fuel) n chunks)
        (socket_recv_lem (suc n) sent arrivals (recv_from-end (suc n) arrivals q e))

  pub recv_exact_or_closed :
      (n : ℕ) (sent : List ℕ) (arrivals : List Arrival)
      → IsQuiet arrivals
      → stream arrivals ≡ []
      → recv_exact_or why (suc n) (live arrivals sent)
        ≡ (raise_error Kind.connection_closed why, live [] sent)
  unfolding recv_exact_or
  recv_exact_or_closed n sent arrivals q e = recv_loop_closed n n [] sent arrivals q e

  recv_loop_short :
      (fuel n : ℕ) (chunks sent : List ℕ) (arrivals : List Arrival)
      → n ≤ fuel
      → IsQuiet arrivals
      → length (stream arrivals) < n
      → (recv_loop why fuel n chunks (live arrivals sent)).0
        ≡ raise_error Kind.connection_closed why
  recv_loop_short fuel zero chunks sent arrivals fits q h = absurd (omega arith)
  recv_loop_short zero (suc n) chunks sent arrivals fits q h = absurd (omega arith)
  recv_loop_short (suc fuel) (suc n) chunks sent arrivals fits q h =
      elim (nil_or_more (stream arrivals)) [
        | inl e ↦ ap (λ r. r.0) (recv_loop_closed fuel n chunks sent arrivals q e)
        | inr more ↦
            let c = recv_from-Chunk (suc n) arrivals (omega arith) q more in
            let chunk : List ℕ = c.first ∷ c.more in
            ap (λ r. r.0) (recv_loop_step fuel n c.first chunks c.more sent arrivals c.rest c.reads)
            ∙ recv_loop_short fuel (suc n - length chunk) (chunks ++ chunk) sent c.rest
                (omega arith) c.quiet
                (omega (arith, ap length c.joined, length-append chunk (stream c.rest), c.bounded))
      ]

  -- If no read times out and the peer closes before as many bytes as wanted have come, `_recv_exact`
  -- raises `ConnectionClosed`.
  pub recv_exact_or_short :
      (n : ℕ) (sent : List ℕ) (arrivals : List Arrival)
      → IsQuiet arrivals
      → length (stream arrivals) < n
      → (recv_exact_or why n (live arrivals sent)).0 ≡ raise_error Kind.connection_closed why
  unfolding recv_exact_or
  recv_exact_or_short n sent arrivals q h = recv_loop_short n n [] sent arrivals (omega arith) q h

-- If no read times out and the bytes wanted stand at the front of the stream, `_recv_exact` returns
-- exactly those bytes, wherever the network cut the stream, and leaves the rest of it to be read.
pub recv_exact_lem :
    (bytes later sent : List ℕ) (arrivals : List Arrival)
    → IsQuiet arrivals
    → stream arrivals ≡ bytes ++ later
    → (rest : List Arrival) × (recv_exact (length bytes) (live arrivals sent)
        ≡ (ok bytes, live rest sent))
      × IsQuiet rest
      × (stream rest ≡ later)
unfolding recv_exact
recv_exact_lem = recv_exact_or_lem "peer closed the connection"
