-- ===== src/Controller/Cli/Sweep/Report.antt =====
-- Proofs on what the commands of `sweep` of controller/cli/app.py tell the user.
use tsanet.Prelude.{
  ◌≡◌, refl, ap, ◌∙◌, String, true, some, List, [], ◌∷◌, ◌++◌, append_assoc, append-nil, fstring,
  if◌then◌else◌, Bool-cases, inl, inr,
}
use tsanet.Prelude.Int.{ℤ, eq_ℤ, ◌+ℤ◌, ◌-ℤ◌}
use tsanet.Errors.{Kind, ok, raise_error}
use tsanet.Protocol.Value.{Value, int, end, field}
use tsanet.Protocol.Value.Text.{str}
use tsanet.Device.Parsing.{split}
use tsanet.Controller.Parse.{parse_frequency}
use tsanet.Controller.Cli.{
  Effect, asked, complained, printed, returns, exits, status, Outcome, Context, Command, Remote,
  Environment, pure, tell, echo, call, freq, ◌>>=◌, ◌>>◌,
}
use tsanet.Controller.Cli.Runs.{
  bind-returns, bind-exits, call-returns, freq-returns, freq-exits, last_words,
}
use tsanet.Controller.Cli.Format.{fmt_hz}
use tsanet.Controller.Cli.Sweep.{
  SweepState, warn_if_mismatch, state_of, state_or_exit, sweep_state, half, sweep_start, sweep_stop,
  sweep_center, sweep_span, sweep_cw,
}

-- The warning that the device has applied another value than the one asked for, if it has.
abbrev pub warning : String → ℤ → ℤ → List Effect
warning label requested actual =
    if eq_ℤ requested actual
    then []
    else complained (
        fstring (
          "warning: requested "
          ∷ label
          ∷ " "
          ∷ fmt_hz requested
          ∷ " but device applied "
          ∷ fmt_hz actual
          ∷ []))
      ∷ []

-- A context after some effects, with the remote end that they left.
abbrev pub after : {S : Type 0} → S → List Effect → Context S → Context S
after t effects s = record s { remote = t; log = s.log ++ effects }

-- What a command of these does to the context: both requests, the warning, and the line.
abbrev pub reported : {S : Type 0} → String → String → String → ℤ → ℤ → S → Context S → Context S
reported op label name requested applied u s =
    after u
      (asked "sweep" op (field "hz" (int requested) end)
          ∷ asked "sweep" "get" end
          ∷ warning label requested applied
        ++ printed (fstring (name ∷ fmt_hz applied ∷ [])) ∷ [])
      s

warn-outcome :
    {S : Type 0} (label : String) (requested actual : ℤ) (s : Context S)
    → warn_if_mismatch label fmt_hz (some requested) (some actual) s
      ≡ (returns tt, after s.remote (warning label requested actual) s)
unfolding warn_if_mismatch pure tell
warn-outcome label requested actual s = elim (Bool-cases (eq_ℤ requested actual)) [
  | inl same ↦ rw (same, append-nil) refl
  | inr other ↦ rw other refl
]

joined :
    (log : List Effect) (a b : Effect) (more : List Effect) (c : Effect)
    → (((log ++ a ∷ []) ++ b ∷ []) ++ more) ++ c ∷ [] ≡ log ++ (a ∷ b ∷ more ++ c ∷ [])
joined log a b more c = simp append_assoc

module _ {S : Type 0} (remote : Remote S) (env : Environment) where
  sweep_state-returns :
      (s : Context S) {answer : Value} {t : S} {state : SweepState}
      → s.connected ≡ true
      → remote.call "sweep" "get" end s.remote ≡ (ok answer, t)
      → state_of env.int_of_text (split (str answer)) ≡ ok state
      → sweep_state remote env s ≡ (returns state, after t (asked "sweep" "get" end ∷ []) s)
  unfolding sweep_state state_or_exit pure
  sweep_state-returns s {answer} connected e parsed =
      bind-returns (call remote env "sweep" "get" end)
        (λ answer. state_or_exit (str answer) (state_of env.int_of_text (split (str answer))))
        (call-returns remote env "sweep" "get" end s connected e)
      ∙ rw parsed refl

  -- What the five commands have in common: the operation, how the warning calls it and how the line
  -- does, and the part of the state that is compared and shown.
  unfoldable setter : String → String → String → (SweepState → ℤ) → String → Command S (Unit {0})
  unfolding warn_if_mismatch
  setter op label name part hz = do
    requested ← freq env hz
    call remote env "sweep" op (field "hz" (int requested) end)
    state ← sweep_state remote env
    warn_if_mismatch label fmt_hz (some requested) (some (part state))
    echo (fstring (name ∷ fmt_hz (part state) ∷ []))

  setter-returns :
      (op label name : String) (part : SweepState → ℤ) (hz : String) (s : Context S) (requested : ℤ)
      (v answer : Value) (t u : S) (state : SweepState)
      → s.connected ≡ true
      → parse_frequency env.numbers hz ≡ ok requested
      → remote.call "sweep" op (field "hz" (int requested) end) s.remote ≡ (ok v, t)
      → remote.call "sweep" "get" end t ≡ (ok answer, u)
      → state_of env.int_of_text (split (str answer)) ≡ ok state
      → setter op label name part hz s
        ≡ (returns tt, reported op label name requested (part state) u s)
  unfolding setter tell
  setter-returns op label name part hz s requested v answer t u state connected number set get
        shown =
      let args = field "hz" (int requested) end in
      let first = after t (asked "sweep" op args ∷ []) s in
      let second = after u (asked "sweep" "get" end ∷ []) first in
      let said : Command S (Unit {0}) = echo (fstring (name ∷ fmt_hz (part state) ∷ [])) in
      let warn : Command S (Unit {0}) =
        warn_if_mismatch label fmt_hz (some requested) (some (part state)) in
      let report : SweepState → Command S (Unit {0}) = λ state.
        (warn_if_mismatch label fmt_hz (some requested) (some (part state)))
        >> echo (fstring (name ∷ fmt_hz (part state) ∷ [])) in
      bind-returns (freq env hz)
        (λ n.
          call remote env "sweep" op (field "hz" (int n) end)
          >> (sweep_state remote env >>= λ state.
              (warn_if_mismatch label fmt_hz (some n) (some (part state)))
              >> echo (fstring (name ∷ fmt_hz (part state) ∷ []))))
        (freq-returns env hz s number)
      ∙ bind-returns (call remote env "sweep" op args) (λ _. sweep_state remote env >>= report)
          (call-returns remote env "sweep" op args s connected set)
      ∙ bind-returns (sweep_state remote env) report
          (sweep_state-returns first {state = state} connected get shown)
      ∙ bind-returns warn (λ _. said) (warn-outcome label requested (part state) second)
      ∙ ap (λ l. (returns tt, record { remote = u; connected = s.connected; log = l }))
          (joined s.log _ _ (warning label requested (part state)) _)

  setter-invalid :
      (op label name : String) (part : SweepState → ℤ) (hz why : String) (s : Context S)
      → parse_frequency env.numbers hz ≡ raise_error Kind.value_error why
      → setter op label name part hz s
        ≡ (exits (status 1), record s { log = s.log ++ last_words env.help why })
  unfolding setter
  setter-invalid op label name part hz why s bad =
      bind-exits (freq env hz) _ (freq-exits env hz s bad)

  pub sweep-reports :
      (hz : String) (s : Context S) (requested : ℤ) (v answer : String → Value) (t u : String → S)
      (state : String → SweepState)
      → s.connected ≡ true
      → parse_frequency env.numbers hz ≡ ok requested
      → ((op : String)
          → remote.call "sweep" op (field "hz" (int requested) end) s.remote ≡ (ok (v op), t op))
      → ((op : String) → remote.call "sweep" "get" end (t op) ≡ (ok (answer op), u op))
      → ((op : String) → state_of env.int_of_text (split (str (answer op))) ≡ ok (state op))
      → let shows : String → String → String → ℤ → Outcome (Unit {0}) × Context S =
          λ op label name applied.
            (returns tt, reported op label name requested applied (u op) s) in
        (sweep_start remote env hz s
          ≡ shows "set_start" "start" "start = " (state "set_start").start)
        × (sweep_stop remote env hz s ≡ shows "set_stop" "stop" "stop = " (state "set_stop").stop)
        × (sweep_center remote env hz s
            ≡ shows "set_center" "center" "center = "
                (half ((state "set_center").start +ℤ (state "set_center").stop)))
        × (sweep_span remote env hz s
            ≡ shows "set_span" "span" "span = "
                ((state "set_span").stop -ℤ (state "set_span").start))
        × (sweep_cw remote env hz s ≡ shows "set_cw" "cw frequency" "cw = " (state "set_cw").start)
  unfolding setter sweep_start sweep_stop sweep_center sweep_span sweep_cw
  sweep-reports hz s requested v answer t u state connected number set get shown =
      let shows : (op label name : String) (part : SweepState → ℤ)
          → setter op label name part hz s
            ≡ (returns tt, reported op label name requested (part (state op)) (u op) s) =
        λ op label name part.
          setter-returns op label name part hz s requested (v op) (answer op) (t op) (u op)
            (state op) connected number (set op) (get op) (shown op) in
      (
        shows "set_start" "start" "start = " (λ state. state.start),
        shows "set_stop" "stop" "stop = " (λ state. state.stop),
        shows "set_center" "center" "center = " (λ state. half (state.start +ℤ state.stop)),
        shows "set_span" "span" "span = " (λ state. state.stop -ℤ state.start),
        shows "set_cw" "cw frequency" "cw = " (λ state. state.start),
      )

  -- A frequency that the parser refuses with a `ValueError` ends each of these commands with status 1,
  -- behind the help text and the parser's message on stderr: nothing is sent, and the client does not
  -- even connect. Of other exceptions of the parser nothing is said.
  pub sweep-invalid :
      (hz why : String) (s : Context S)
      → parse_frequency env.numbers hz ≡ raise_error Kind.value_error why
      → let refused : Outcome (Unit {0}) × Context S =
          (exits (status 1), record s { log = s.log ++ last_words env.help why }) in
        (sweep_start remote env hz s ≡ refused)
        × (sweep_stop remote env hz s ≡ refused)
        × (sweep_center remote env hz s ≡ refused)
        × (sweep_span remote env hz s ≡ refused)
        × (sweep_cw remote env hz s ≡ refused)
  unfolding setter sweep_start sweep_stop sweep_center sweep_span sweep_cw
  sweep-invalid hz why s bad =
      let refused : (op label name : String) (part : SweepState → ℤ)
          → setter op label name part hz s
            ≡ (exits (status 1), record s { log = s.log ++ last_words env.help why }) =
        λ op label name part. setter-invalid op label name part hz why s bad in
      (
        refused "set_start" "start" "start = " (λ state. state.start),
        refused "set_stop" "stop" "stop = " (λ state. state.stop),
        refused "set_center" "center" "center = " (λ state. half (state.start +ℤ state.stop)),
        refused "set_span" "span" "span = " (λ state. state.stop -ℤ state.start),
        refused "set_cw" "cw frequency" "cw = " (λ state. state.start),
      )
