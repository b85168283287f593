-- ===== src/Hub/Dispatcher/Lna.antt =====
-- Proofs on the amplifier (LNA) that hub/dispatcher.py switches on.
use tsanet.Prelude.{
  String, ◌≡◌, refl, ap, ◌∙◌, some, List, [], ◌∷◌, ◌++◌, append_assoc, append-nil, fstring,
  if◌then◌else◌, Bool-cases, inl, inr, arith,
}
use tsanet.Prelude.Int.{ℤ, pos, ltb_ℤ}
use tsanet.Errors.{ok, ◌>>=◌, ◌>>◌, bind-ok}
use tsanet.Protocol.Value.{Value, Fields, text, int, dict, get?}
use tsanet.Protocol.Value.Text.{str}
use tsanet.Protocol.Value.Access.{Floats, index, value_gt}
use tsanet.Device.Link.{Wire, text_command, TinySa, send}
use tsanet.Device.Commands.Basic.{enable_lna}
use tsanet.Device.Commands.Sweep
use tsanet.Hub.Dispatcher.Handlers.{sweep, ensure_lna_for_hz, arg, say}

-- The device answers every text command.
abbrev pub IsAnswering : TinySa → Type 0
IsAnswering tx =
    (sent : List Wire) (command : String) → (a : String) × (tx.answer sent command ≡ ok a)

-- What goes ahead of a sweep to a frequency: the amplifier above 800 MHz, nothing below.
abbrev pub lna : ℤ → List Wire
lna hz = if ltb_ℤ (pos 800_000_000) hz then text_command "lna on" ∷ [] else []

abbrev pub after : List Wire → TinySa → TinySa
after commands tx = record tx { sent = tx.sent ++ commands }

ensure_lna_for_hz_lem :
    (floats : Floats) (hz : ℤ) (tx : TinySa)
    → IsAnswering tx
    → ensure_lna_for_hz floats (int hz) tx ≡ (ok tt, after (lna hz) tx)
unfolding ensure_lna_for_hz value_gt enable_lna send
ensure_lna_for_hz_lem floats hz tx answering = elim (Bool-cases (ltb_ℤ (pos 800_000_000) hz)) [
  | inl high ↦ rw (high, (answering tx.sent "lna on").1, ensure_lna_for_hz) refl
  | inr low ↦ rw (low, append-nil, ensure_lna_for_hz) refl
]

say-sent :
    (command : String) (tx : TinySa)
    → (say (send command) tx).1.sent ≡ tx.sent ++ text_command command ∷ []
unfolding send
say-sent command tx = ground arith

-- The command behind the amplifier's.
tuned :
    (floats : Floats) (hz : ℤ) (command : String) (tx : TinySa)
    → IsAnswering tx
    → ((ensure_lna_for_hz floats (int hz) >> say (send command)) tx).1.sent
      ≡ tx.sent ++ (lna hz ++ text_command command ∷ [])
tuned floats hz command tx answering =
    ap (λ r. r.1.sent)
      (bind-ok (ensure_lna_for_hz floats (int hz)) (λ _. say (send command))
        (ensure_lna_for_hz_lem floats hz tx answering))
    ∙ say-sent command (after (lna hz) tx)
    ∙ append_assoc tx.sent (lna hz) (text_command command ∷ [])

index-dict :
    (k : String) (fields : Fields) {v : Value}
    → get? k fields ≡ some v
    → index k (dict fields) ≡ ok v
unfolding index
index-dict k fields e = rw (e, index) refl

-- The branch of a tuning request.
tuned_arg :
    (floats : Floats) (command : Value → String) (fields : Fields) (hz : ℤ) (tx : TinySa)
    → IsAnswering tx
    → get? "hz" fields ≡ some (int hz)
    → ((arg "hz" (dict fields) >>= λ v. ensure_lna_for_hz floats v >> say (send (command v)))
        tx).1.sent
      ≡ tx.sent ++ (lna hz ++ text_command (command (int hz)) ∷ [])
tuned_arg floats command fields hz tx answering e =
    ap (λ r. r.1.sent)
      (bind-ok (arg "hz" (dict fields)) (λ v. ensure_lna_for_hz floats v >> say (send (command v)))
        (ap (λ r. (r, tx)) (index-dict "hz" fields e)))
    ∙ tuned floats hz (command (int hz)) tx answering

-- A request that sets the start, the stop or the centre of the sweep, or a fixed frequency, to `hz`
-- sends exactly that command, and ahead of it `lna on` if `hz` is above 800 MHz. The device is taken
-- to answer its commands.
pub sweep-lna :
    (floats : Floats) (fields : Fields) (hz : ℤ) (tx : TinySa)
    → IsAnswering tx
    → get? "hz" fields ≡ some (int hz)
    → let sent : String → List Wire = λ op. (sweep floats (text op) (dict fields) tx).1.sent in
      let command : String → List Wire =
        λ word. tx.sent ++ (lna hz ++ text_command (fstring (word ∷ str (int hz) ∷ [])) ∷ []) in
      (sent "set_start" ≡ command "sweep start ")
      × (sent "set_stop" ≡ command "sweep stop ")
      × (sent "set_center" ≡ command "sweep center ")
      × (sent "set_cw" ≡ command "sweep cw ")
unfolding sweep Sweep.set_start Sweep.set_stop Sweep.set_center Sweep.set_cw
sweep-lna floats fields hz tx answering e =
    let tuned_by = λ (word : String).
      tuned_arg floats (λ v. fstring (word ∷ str v ∷ [])) fields hz tx answering e in
    (
      tuned_by "sweep start ",
      tuned_by "sweep stop ",
      tuned_by "sweep center ",
      tuned_by "sweep cw ",
    )
