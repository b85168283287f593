-- ===== src/Controller/Cli/Requests/Sweep.antt =====
-- Proofs on the requests of the group `sweep` of controller/cli/app.py.
use tsanet.Prelude.{refl, Option, none, some, Bool, true, false, if◌then◌else◌}
use tsanet.Prelude.Int.{ℤ, pos, ltb_ℤ}
use tsanet.Errors.{pure, ◌>>◌}
use tsanet.Device.Link.{send}
use tsanet.Protocol.Value.{int, end, field}
use tsanet.Protocol.Value.Access.{index, get_field, value_gt, value_max}
use tsanet.Hub.State.{Library}
use tsanet.Hub.Dispatcher.Handlers.{ensure_lna_for_hz, set_start_stop, say, sweep}
use tsanet.Hub.Dispatcher.Ready.{IsUnderstood, Plain, Plain-say, Plain-bind, Plain-if, Plain-send}
use tsanet.Controller.Cli.Requests.{IsUnderstood-sweep}
use tsanet.Device.Commands.Sweep
use tsanet.Device.Commands.Basic
use tsanet.Controller.Cli.Sweep.{optional}

module _ (library : Library) where
  Plain-ensure : (hz : ℤ) → Plain (ensure_lna_for_hz library.floats (int hz))
  unfolding ensure_lna_for_hz value_gt Basic.enable_lna
  Plain-ensure hz =
      Plain-if (ltb_ℤ (pos 800_000_000) hz) (do Basic.enable_lna; pure tt) (pure tt)
        (Plain-bind (send "lna on") (λ _. pure tt) (Plain-send "lna on") (λ _ tx p. (refl, p)))
        (λ tx p. (refl, p))

  pub sweep-get : IsUnderstood library "sweep" "get" end
  unfolding sweep index Sweep.get
  sweep-get = IsUnderstood-sweep library "get" end (Plain-say _)

  pub sweep-get_status : IsUnderstood library "sweep" "get_status" end
  unfolding sweep index Sweep.get_status
  sweep-get_status = IsUnderstood-sweep library "get_status" end (Plain-say _)

  pub sweep-pause : IsUnderstood library "sweep" "pause" end
  unfolding sweep index Sweep.pause
  sweep-pause = IsUnderstood-sweep library "pause" end (Plain-say _)

  pub sweep-resume : IsUnderstood library "sweep" "resume" end
  unfolding sweep index Sweep.resume
  sweep-resume = IsUnderstood-sweep library "resume" end (Plain-say _)

  pub sweep-set_time : (us : ℤ) → IsUnderstood library "sweep" "set_time" (field "us" (int us) end)
  unfolding sweep index Sweep.set_time
  sweep-set_time us = IsUnderstood-sweep library "set_time" (field "us" (int us) end) (Plain-say _)

  pub sweep-set_span : (hz : ℤ) → IsUnderstood library "sweep" "set_span" (field "hz" (int hz) end)
  unfolding sweep index Sweep.set_span
  sweep-set_span hz = IsUnderstood-sweep library "set_span" (field "hz" (int hz) end) (Plain-say _)

  pub sweep-set_start :
      (hz : ℤ) → IsUnderstood library "sweep" "set_start" (field "hz" (int hz) end)
  unfolding sweep index Sweep.set_start
  sweep-set_start hz = IsUnderstood-sweep library "set_start" (field "hz" (int hz) end) (
      Plain-bind (ensure_lna_for_hz library.floats (int hz)) (λ _. say (Sweep.set_start (int hz)))
        (Plain-ensure hz) (λ _. Plain-say _))

  pub sweep-set_stop : (hz : ℤ) → IsUnderstood library "sweep" "set_stop" (field "hz" (int hz) end)
  unfolding sweep index Sweep.set_stop
  sweep-set_stop hz = IsUnderstood-sweep library "set_stop" (field "hz" (int hz) end) (
      Plain-bind (ensure_lna_for_hz library.floats (int hz)) (λ _. say (Sweep.set_stop (int hz)))
        (Plain-ensure hz) (λ _. Plain-say _))

  pub sweep-set_center :
      (hz : ℤ) → IsUnderstood library "sweep" "set_center" (field "hz" (int hz) end)
  unfolding sweep index Sweep.set_center
  sweep-set_center hz = IsUnderstood-sweep library "set_center" (field "hz" (int hz) end) (
      Plain-bind (ensure_lna_for_hz library.floats (int hz)) (λ _. say (Sweep.set_center (int hz)))
        (Plain-ensure hz) (λ _. Plain-say _))

  pub sweep-set_cw : (hz : ℤ) → IsUnderstood library "sweep" "set_cw" (field "hz" (int hz) end)
  unfolding sweep index Sweep.set_cw
  sweep-set_cw hz = IsUnderstood-sweep library "set_cw" (field "hz" (int hz) end) (
      Plain-bind (ensure_lna_for_hz library.floats (int hz)) (λ _. say (Sweep.set_cw (int hz)))
        (Plain-ensure hz) (λ _. Plain-say _))

  Plain-points :
      (start stop : ℤ) (points : Option ℤ)
      → Plain (say (Sweep.set_start_stop (int start) (int stop) (optional points)))
  unfolding Sweep.set_start_stop optional
  Plain-points start stop none = Plain-say _
  Plain-points start stop (some n) = Plain-say _

  most :
      (start stop : ℤ) (b : Bool)
      → Plain (ensure_lna_for_hz library.floats (if b then int stop else int start))
  most start stop true = Plain-ensure stop
  most start stop false = Plain-ensure start

  pub sweep-set_start_stop :
      (start stop : ℤ) (points : Option ℤ)
      → IsUnderstood library "sweep" "set_start_stop" (
          field "start"
            (int start)
            (field "stop" (int stop) (field "points" (optional points) end)))
  unfolding sweep index set_start_stop value_max value_gt get_field
  sweep-set_start_stop start stop points =
      IsUnderstood-sweep library "set_start_stop"
        (field "start" (int start) (field "stop" (int stop) (field "points" (optional points) end)))
        (Plain-bind
          (ensure_lna_for_hz library.floats (if ltb_ℤ start stop then int stop else int start))
          (λ _. say (Sweep.set_start_stop (int start) (int stop) (optional points)))
          (most start stop (ltb_ℤ start stop)) (λ _. Plain-points start stop points))

pub ruleset sweep_requests = (
  sweep-get, sweep-get_status, sweep-pause, sweep-resume, sweep-set_time, sweep-set_span,
  sweep-set_start, sweep-set_stop, sweep-set_center, sweep-set_cw, sweep-set_start_stop,
)
