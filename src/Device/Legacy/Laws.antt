-- ===== src/Device/Legacy/Laws.antt =====
-- Proofs on the binary answers of device/_legacy.py.
use tsanet.Prelude.{
  ℕ, zero, suc, ◌+◌, ◌-◌, ◌≤◌, ◌≡◌, refl, ap, ◌∙◌, Option, none, some, List, [], ◌∷◌, ◌++◌, length,
  length-append, Bool-cases, inl, inr, arith, bytes_eq,
}
use tsanet.Errors.{Error, Result, Result-cases, ok, err, Exec, ◌>>=◌, continue}
use tsanet.Device.Legacy.{
  SerialPort, chunk_read, read_rounds, read_exact, exchange, prompted, prompt, line_terminator,
  read_binary, send_binary, is_timeout,
}

-- A block that returned has a first step that returned.
continue_returned :
    {S A B : Type 0} (f : A → Exec S B) (r : Result A × S) {b : B} {s' : S}
    → continue f r ≡ (ok b, s')
    → (a : A) × (t : S) × (r ≡ (ok a, t)) × (f a t ≡ (ok b, s'))
continue_returned f (ok a, t) h = (a, t, refl, h)
continue_returned f (err e, t) h = cc (ap (λ r. r.0) h)

length-same : (chunks bytes : List ℕ) → ok chunks ≡ ok bytes → length bytes ≡ length chunks + 0
length-same chunks bytes e = let same : chunks ≡ bytes = cc e in rw (← same) (omega arith)

module _ {P : Type 0} (port : SerialPort P) where
  -- An exchange that returned returns what the reader returned at one of its attempts.
  exchange_returned :
      {A : Type 0} (command : List ℕ) (reader : Exec P A) (attempts : ℕ) (last : Option Error)
      (p : P) {a : A} {p' : P}
      → exchange port command reader attempts last p ≡ (ok a, p')
      → (q : P) × (reader q ≡ (ok a, p'))
  unfolding exchange
  exchange_returned command reader zero none p h = cc h
  exchange_returned command reader zero (some e) p h = cc h
  exchange_returned command reader (suc left) last p h =
      let attempt : P = port.write (command ++ line_terminator) (port.reset_input_buffer p) in
      elim (Result-cases (reader attempt).0) [
        | inr (a, e) ↦ (attempt, (λ i. (e i, (reader attempt).1)) ∙ rw (e, exchange) at h)
        | inl (x, e) ↦ elim (Bool-cases (is_timeout x.kind)) [
          | inl timed_out ↦
              exchange_returned command reader left (some x) (reader attempt).1
                (rw (e, timed_out, exchange) at h)
          | inr other ↦ cc (ap (λ r. r.0) (rw (e, other, exchange) at h))
        ]
      ]

  -- A round, and the rounds after it.
  length-chunk_read :
      (fuel n : ℕ) (chunks bytes : List ℕ) (p' : P)
      → ((remaining : ℕ) (chunks : List ℕ) (p : P)
          → remaining ≤ fuel
          → read_rounds port fuel remaining chunks p ≡ (ok bytes, p')
          → length bytes ≡ length chunks + remaining)
      → (out : List ℕ × P) → length out.0 ≤ suc n
      → n ≤ fuel
      → chunk_read port (read_rounds port fuel) n chunks out ≡ (ok bytes, p')
      → length bytes ≡ length chunks + suc n
  unfolding chunk_read
  length-chunk_read fuel n chunks bytes p' later ([], q) s le e = cc (ap (λ r. r.0) e)
  length-chunk_read fuel n chunks bytes p' later (b ∷ bs, q) s le e =
      let rest = later (suc n - length (b ∷ bs)) (chunks ++ b ∷ bs) q (omega arith) e in
      ground (arith, rest, length-append chunks (b ∷ bs))

  -- The rounds of `_read_exact` return as many bytes as were wanted, or raise.
  length-read_rounds :
      ((n : ℕ) (p : P) → length (port.read n p).0 ≤ n)
      → (fuel remaining : ℕ) (chunks : List ℕ) (p : P) (bytes : List ℕ) (p' : P) → remaining ≤ fuel
      → read_rounds port fuel remaining chunks p ≡ (ok bytes, p')
      → length bytes ≡ length chunks + remaining
  unfolding read_rounds
  length-read_rounds short zero zero chunks p bytes p' le h =
      length-same chunks bytes (ap (λ r. r.0) h)
  length-read_rounds short zero (suc n) chunks p bytes p' le h = absurd (omega arith)
  length-read_rounds short (suc fuel) zero chunks p bytes p' le h =
      length-same chunks bytes (ap (λ r. r.0) h)
  length-read_rounds short (suc fuel) (suc n) chunks p bytes p' le h =
      length-chunk_read fuel n chunks bytes p'
        (λ remaining chunks p fits e.
          length-read_rounds short fuel remaining chunks p bytes p' fits e)
        (port.read (suc n) p) (short (suc n) p) (omega arith) h

  prompted_returned :
      (payload mark bytes : List ℕ) (p p' : P)
      → prompted port payload mark p ≡ (ok bytes, p')
      → bytes ≡ payload
  unfolding prompted
  prompted_returned payload mark bytes p p' h = elim (Bool-cases (bytes_eq mark prompt)) [
    | inl e ↦ cc (ap (λ r. r.0) (rw (e, prompted) at h))
    | inr e ↦ cc (ap (λ r. r.0) (rw (e, prompted) at h))
  ]

  -- On a port whose `read` returns no more than it was asked for, a binary answer that `send_binary`
  -- returns has exactly the length that was expected, whatever attempts failed before.
  pub length-send_binary :
      ((n : ℕ) (p : P) → length (port.read n p).0 ≤ n)
      → (attempts expected : ℕ) (command : List ℕ) (p : P) (payload : List ℕ) (p' : P)
      → send_binary port attempts command expected p ≡ (ok payload, p')
      → length payload ≡ expected
  unfolding send_binary read_binary read_exact
  length-send_binary short attempts expected command p payload p' h =
      let (q, run) = exchange_returned command (read_binary port expected) attempts none p h in
      let (bytes, t, first, rest) =
        continue_returned (λ bytes. read_exact port (length prompt) >>= prompted port bytes)
          (read_exact port expected (port.read_until (10 ∷ []) q).1) run in
      let (mark, u, second, last) =
        continue_returned (prompted port bytes) (read_exact port (length prompt) t) rest in
      let total =
        length-read_rounds short expected expected [] (port.read_until (10 ∷ []) q).1 bytes t
          (omega arith) first in
      ap length (prompted_returned bytes mark payload u p' last) ∙ omega arith
