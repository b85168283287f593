-- ===== src/Device/Link.antt =====
-- A device handle (`TinySA`) as its clients see it: the commands that it was sent, in order, and
-- answers that may depend on all of them. Nothing is assumed of the answers.
use tsanet.Prelude.{ℕ, zero, suc, String, Bool, true, List, [], ◌∷◌, ◌++◌, str_eq, if◌then◌else◌}
use tsanet.Errors.{Result, ok, err, Exec}

-- What went over the wire: a text command, a command with a binary answer, one that is not answered.
pub data Wire : Type 0 where
  text_command : String → Wire
  binary_command : String → ℕ → Wire
  bare_command : String → Wire

pub record TinySa : Type 0 where
  pub port : String
  pub sent : List Wire
  pub closed : Bool
  pub answer : List Wire → String → Result String
  pub answer_binary : List Wire → String → ℕ → Result (List ℕ)
  pub answer_bare : List Wire → String → Result (Unit {0})

-- `tx.send(command)`
unfoldable pub send : String → Exec TinySa String
send command tx =
    (tx.answer tx.sent command, record tx { sent = tx.sent ++ text_command command ∷ [] })

first : ℕ → String → String
first zero s = ""
first (suc n) String.[] = ""
first (suc n) (String.◌∷◌ c s) = String.◌∷◌ c (first n s)

-- `command.startswith("capture")`
is_capture : String → Bool
unfolding first
is_capture command = str_eq (first 7 command) "capture"

-- A picture of the wrong size is filled up with zeros, or cut.
unfoldable pub fitted : ℕ → List ℕ → List ℕ
fitted zero raw = []
fitted (suc n) [] = 0 ∷ fitted n []
fitted (suc n) (b ∷ raw) = b ∷ fitted n raw

payload : String → ℕ → List ℕ → List ℕ
payload command expected raw = if is_capture command then fitted expected raw else raw

-- `tx.send_binary(command, expected_len)`; the answer is tsapython's, or that of a legacy handle, whose
-- binary answers have the expected length already, so that fitting them changes nothing.
unfoldable pub send_binary : String → ℕ → Exec TinySa (List ℕ)
unfolding payload is_capture first fitted
send_binary command expected tx = (
  elim (tx.answer_binary tx.sent command expected) [
    | ok raw ↦ ok (payload command expected raw)
    | err e ↦ err e
  ],
  record tx { sent = tx.sent ++ binary_command command expected ∷ [] },
)

-- `tx.write_only(command)`
unfoldable pub write_only : String → Exec TinySa (Unit {0})
write_only command tx =
    (tx.answer_bare tx.sent command, record tx { sent = tx.sent ++ bare_command command ∷ [] })

-- `tx.close()`
unfoldable pub close : TinySa → TinySa
close tx = record tx { closed = true }
