-- ===== src/Controller/Cli/Sweep.antt =====
-- The group `sweep` of controller/cli/app.py.
pub mod Understood
pub mod Report
use tsanet.Prelude.{
  ℕ, ◌/◌, ◌+◌, ◌-◌, suc, String, Option, none, some, List, [], ◌∷◌, fstring, if◌then◌else◌, ltb,
}
use tsanet.Prelude.Int.{ℤ, pos, negsuc, ◌+ℤ◌, ◌-ℤ◌, decimal_ℤ, eq_ℤ}
use tsanet.Errors.{Error, Kind, Result, ok, err, is_value_error}
use tsanet.Protocol.Value.{Value, Fields, null, int, end, field}
use tsanet.Protocol.Value.Text.{str, repr_text}
use tsanet.Device.Parsing.{split}
use tsanet.Controller.Cli.{
  Command, Environment, Remote, complained, message, pure, raise, exit, tell, echo, echo_value,
  call, freq, ◌>>=◌, ◌>>◌,
}
use tsanet.Controller.Cli.Format.{fmt_hz}

-- `n // 2`
unfoldable pub half : ℤ → ℤ
half (pos n) = pos (n / 2)
half (negsuc n) = negsuc (n / 2)

-- What the device has applied: start, stop, and the points if it tells them.
pub record SweepState : Type 0 where
  pub start : ℤ
  pub stop : ℤ
  pub points : Option ℤ

-- `requested != actual`, of two that are there
warn_if_mismatch : {S : Type 0} → String → (ℤ → String) → Option ℤ → Option ℤ → Command S (Unit {0})
warn_if_mismatch label fmt (some requested) (some actual) =
    if eq_ℤ requested actual
    then pure tt
    else tell (
        complained (
          fstring (
            "warning: requested "
            ∷ label
            ∷ " "
            ∷ fmt requested
            ∷ " but device applied "
            ∷ fmt actual
            ∷ [])))
warn_if_mismatch label fmt none actual = pure tt
warn_if_mismatch label fmt (some requested) none = pure tt

module _ (int_of_text : String → Result ℤ) where
  third : List String → Result (Option ℤ)
  third [] = ok none
  third (p ∷ more) = elim (int_of_text p) [ err e ↦ err e | ok n ↦ ok (some n) ]

  -- The block under `try`.
  unfoldable pub state_of : List String → Result SweepState
  unfolding third
  state_of (a ∷ b ∷ rest) = elim (int_of_text a) [
    | err e ↦ err e
    | ok start ↦ elim (int_of_text b) [
      | err e ↦ err e
      | ok stop ↦ elim (third rest) [
        | err e ↦ err e
        | ok points ↦ ok (record { start = start; stop = stop; points = points })
      ]
    ]
  ]
  state_of _ = err (record { kind = Kind.value_error; text = "too few fields" })

-- `except ValueError`
state_or_exit : {S : Type 0} → String → Result SweepState → Command S SweepState
state_or_exit raw (ok state) = pure state
state_or_exit raw (err e) =
    if is_value_error e.kind
    then exit (message (fstring ("unexpected sweep response: " ∷ repr_text raw ∷ [])))
    else raise e

extra : Option ℤ → String
extra none = ""
extra (some points) = fstring (" (" ∷ decimal_ℤ points ∷ " pts)" ∷ [])

unfoldable pub optional : Option ℤ → Value
optional none = null
optional (some n) = int n

-- The lines of `sweep get`.
points_line : {S : Type 0} → Option ℤ → Command S (Unit {0})
points_line none = pure tt
points_line (some points) = echo (fstring ("Points:     " ∷ decimal_ℤ points ∷ []))

module _ {S : Type 0} (remote : Remote S) (env : Environment) where
  -- `_sweep_state()`
  unfoldable pub sweep_state : Command S SweepState
  unfolding state_of state_or_exit
  sweep_state = do
    answer ← call remote env "sweep" "get" end
    state_or_exit (str answer) (state_of env.int_of_text (split (str answer)))

  unfoldable pub sweep_get : Command S (Unit {0})
  unfolding points_line
  sweep_get = do
    state ← sweep_state
    echo (fstring ("Start:      " ∷ fmt_hz state.start ∷ []))
    echo (fstring ("End:        " ∷ fmt_hz state.stop ∷ []))
    echo (fstring ("Center:     " ∷ fmt_hz (half (state.start +ℤ state.stop)) ∷ []))
    points_line state.points

  unfoldable pub sweep_status : Command S (Unit {0})
  sweep_status = do answer ← call remote env "sweep" "get_status" end; echo_value answer

  unfoldable pub sweep_start : String → Command S (Unit {0})
  unfolding warn_if_mismatch
  sweep_start hz = do
    requested ← freq env hz
    call remote env "sweep" "set_start" (field "hz" (int requested) end)
    state ← sweep_state
    warn_if_mismatch "start" fmt_hz (some requested) (some state.start)
    echo (fstring ("start = " ∷ fmt_hz state.start ∷ []))

  unfoldable pub sweep_stop : String → Command S (Unit {0})
  unfolding warn_if_mismatch
  sweep_stop hz = do
    requested ← freq env hz
    call remote env "sweep" "set_stop" (field "hz" (int requested) end)
    state ← sweep_state
    warn_if_mismatch "stop" fmt_hz (some requested) (some state.stop)
    echo (fstring ("stop = " ∷ fmt_hz state.stop ∷ []))

  unfoldable pub sweep_center : String → Command S (Unit {0})
  unfolding warn_if_mismatch
  sweep_center hz = do
    requested ← freq env hz
    call remote env "sweep" "set_center" (field "hz" (int requested) end)
    state ← sweep_state
    let actual_center = half (state.start +ℤ state.stop)
    warn_if_mismatch "center" fmt_hz (some requested) (some actual_center)
    echo (fstring ("center = " ∷ fmt_hz actual_center ∷ []))

  unfoldable pub sweep_span : String → Command S (Unit {0})
  unfolding warn_if_mismatch
  sweep_span hz = do
    requested ← freq env hz
    call remote env "sweep" "set_span" (field "hz" (int requested) end)
    state ← sweep_state
    let actual_span = state.stop -ℤ state.start
    warn_if_mismatch "span" fmt_hz (some requested) (some actual_span)
    echo (fstring ("span = " ∷ fmt_hz actual_span ∷ []))

  unfoldable pub sweep_cw : String → Command S (Unit {0})
  unfolding warn_if_mismatch
  sweep_cw hz = do
    requested ← freq env hz
    call remote env "sweep" "set_cw" (field "hz" (int requested) end)
    state ← sweep_state
    warn_if_mismatch "cw frequency" fmt_hz (some requested) (some state.start)
    echo (fstring ("cw = " ∷ fmt_hz state.start ∷ []))

  unfoldable pub sweep_range : String → String → Option ℤ → Command S (Unit {0})
  unfolding warn_if_mismatch extra optional
  sweep_range start stop points = do
    s ← freq env start
    t ← freq env stop
    call remote env "sweep" "set_start_stop"
        (field "start" (int s) (field "stop" (int t) (field "points" (optional points) end)))
    state ← sweep_state
    warn_if_mismatch "start" fmt_hz (some s) (some state.start)
    warn_if_mismatch "stop" fmt_hz (some t) (some state.stop)
    warn_if_mismatch "points" decimal_ℤ points state.points
    echo (
        fstring
          ("range = " ∷ fmt_hz state.start ∷ " - " ∷ fmt_hz state.stop ∷ extra state.points ∷ []))

  unfoldable pub sweep_time : ℤ → Command S (Unit {0})
  sweep_time us = do
    call remote env "sweep" "set_time" (field "us" (int us) end)
    echo (fstring ("sweep time = " ∷ decimal_ℤ us ∷ " us" ∷ []))

  unfoldable pub sweep_pause : Command S (Unit {0})
  sweep_pause = do call remote env "sweep" "pause" end; echo "paused"

  unfoldable pub sweep_resume : Command S (Unit {0})
  sweep_resume = do call remote env "sweep" "resume" end; echo "resumed"
