-- ===== src/Device/Legacy.antt =====
-- device/_legacy.py: the serial transport under an injected port. A command goes out as its ASCII
-- bytes; an answer is the echo, the body and the prompt. The port is a parameter.
pub mod Laws
use tsanet.Prelude.{
  ℕ, zero, suc, ◌+◌, ◌-◌, String, Bool, true, false, ◌&&◌, ◌||◌, Option, none, some, List, [], ◌∷◌,
  ◌++◌, length, take, drop, bytes_eq, ltb, leb, ◌==◌, map, if◌then◌else◌,
}
use tsanet.Errors.{Error, Kind, Result, ok, err, raise_error, Exec, pure, raise, ◌>>=◌}

-- `SerialPort`: what its methods return, and what becomes of the port.
pub record SerialPort (P : Type 0) : Type 0 where
  pub write : List ℕ → P → P
  pub read : ℕ → P → List ℕ × P
  pub read_until : List ℕ → P → List ℕ × P
  pub reset_input_buffer : P → P

-- `b"ch> "` and `b"\r"`
abbrev pub prompt : List ℕ
prompt = 99 ∷ 104 ∷ 62 ∷ 32 ∷ []

abbrev pub line_terminator : List ℕ
line_terminator = 13 ∷ []

abbrev pub is_timeout : Kind → Bool
is_timeout Kind.device_timeout = true
is_timeout _ = false

-- `body.strip(b"\r\n")`
abbrev pub is_line_byte : ℕ → Bool
is_line_byte b = b == 13 || b == 10

abbrev pub skip_line_bytes : List ℕ → List ℕ
skip_line_bytes [] = []
skip_line_bytes (b ∷ rest) =
    let skipped = skip_line_bytes rest in if is_line_byte b then skipped else b ∷ rest

abbrev pub trim_line_bytes : List ℕ → List ℕ
trim_line_bytes [] = []
trim_line_bytes (b ∷ rest) = elim (trim_line_bytes rest) [
  | [] ↦ if is_line_byte b then [] else b ∷ []
  | c ∷ kept ↦ b ∷ c ∷ kept
]

-- `_strip(command, raw)`, before the bytes are decoded
unfoldable pub strip : List ℕ → List ℕ → List ℕ
strip echo raw =
    let body = take (length raw - length prompt) raw in
    let answer =
      if bytes_eq (take (length echo) body) echo then drop (length echo) body else body in
    trim_line_bytes (skip_line_bytes answer)

-- `"{" in body`, and `body.lstrip().lower().startswith("usage:")`
abbrev pub has_brace : List ℕ → Bool
has_brace [] = false
has_brace (b ∷ rest) = b == 123 || has_brace rest

abbrev pub is_space : ℕ → Bool
is_space b = b == 32 || (leb 9 b && leb b 13) || (leb 28 b && leb b 31)

abbrev pub skip_spaces : List ℕ → List ℕ
skip_spaces [] = []
skip_spaces (b ∷ rest) = let skipped = skip_spaces rest in if is_space b then skipped else b ∷ rest

abbrev pub lower : ℕ → ℕ
lower b = if leb 65 b && leb b 90 then b + 32 else b

-- `b"usage:"`
abbrev pub usage : List ℕ
usage = 117 ∷ 115 ∷ 97 ∷ 103 ∷ 101 ∷ 58 ∷ []

unfoldable pub is_rejection : List ℕ → Bool
is_rejection body = has_brace body || bytes_eq (take 6 (map lower (skip_spaces body))) usage

module _ {P : Type 0} (port : SerialPort P) where
  -- The test on a chunk of `_read_exact`, and the rounds after it.
  chunk_read : (ℕ → List ℕ → Exec P (List ℕ)) → ℕ → List ℕ → List ℕ × P → Result (List ℕ) × P
  chunk_read again n chunks ([], p) = raise Kind.device_timeout "too few bytes" p
  chunk_read again n chunks (b ∷ bs, p) = again (suc n - length (b ∷ bs)) (chunks ++ b ∷ bs) p

  read_rounds : ℕ → ℕ → List ℕ → Exec P (List ℕ)
  read_rounds zero remaining chunks p = (ok chunks, p)
  read_rounds (suc fuel) zero chunks p = (ok chunks, p)
  read_rounds (suc fuel) (suc n) chunks p =
      chunk_read (read_rounds fuel) n chunks (port.read (suc n) p)

  -- `_read_exact(count)`; a round reads a byte at least, so that as many rounds as bytes are enough.
  unfoldable pub read_exact : ℕ → Exec P (List ℕ)
  unfolding read_rounds chunk_read
  read_exact count = read_rounds count count []

  -- `_read_text_response()`
  unfoldable pub read_text_response : Exec P (List ℕ)
  read_text_response p =
      let (data_read, p') = port.read_until prompt p in
      if bytes_eq (drop (length data_read - length prompt) data_read) prompt
      then (ok data_read, p')
      else raise Kind.device_timeout "no prompt in response" p'

  -- `_exchange(command, reader)`, with the attempts that are left and the last timeout
  unfoldable pub exchange : {A : Type 0} → List ℕ → Exec P A → ℕ → Option Error → Exec P A
  exchange command reader zero none p = raise Kind.assertion_error "" p
  exchange command reader zero (some e) p = (err e, p)
  exchange command reader (suc left) last p =
      let (r, p') = reader (port.write (command ++ line_terminator) (port.reset_input_buffer p)) in
      elim r [
        | ok a ↦ (ok a, p')
        | err e ↦
            let again = exchange command reader left (some e) p' in
            if is_timeout e.kind then again else (err e, p')
      ]

  -- `_check_for_rejection(command, body)`
  accepted : List ℕ → Exec P (List ℕ)
  accepted body =
      if is_rejection body
      then raise Kind.command_rejected "device rejected the command"
      else pure body

  -- `send(command)`
  unfoldable pub send : ℕ → List ℕ → Exec P (List ℕ)
  unfolding accepted
  send attempts command = do
    raw ← exchange command read_text_response attempts none
    accepted (strip command raw)

  -- The test on the prompt behind a binary payload.
  prompted : List ℕ → List ℕ → Exec P (List ℕ)
  prompted payload mark =
      if bytes_eq mark prompt
      then pure payload
      else raise Kind.protocol_error "expected prompt after binary payload"

  unfoldable pub read_binary : ℕ → Exec P (List ℕ)
  unfolding prompted
  read_binary expected p =
      (do payload ← read_exact expected; mark ← read_exact (length prompt); prompted payload mark)
        (port.read_until (10 ∷ []) p).1

  -- `send_binary(command, expected_len)`
  unfoldable pub send_binary : ℕ → List ℕ → ℕ → Exec P (List ℕ)
  send_binary attempts command expected = exchange command (read_binary expected) attempts none

  -- `write_only(command)`
  unfoldable pub write_only : List ℕ → Exec P (Unit {0})
  write_only command p =
      (ok tt, port.write (command ++ line_terminator) (port.reset_input_buffer p))
