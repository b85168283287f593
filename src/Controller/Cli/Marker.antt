-- ===== src/Controller/Cli/Marker.antt =====
-- The group `marker` of controller/cli/app.py.
pub mod Understood
use tsanet.Prelude.{String, Option, none, some, List, [], ◌∷◌, fstring}
use tsanet.Prelude.Int.{ℤ, decimal_ℤ}
use tsanet.Protocol.Value.{Value, Fields, int, end, field}
use tsanet.Controller.Cli.{Command, Environment, Remote, echo, echo_value, call, freq, ◌>>=◌, ◌>>◌}

-- `id=marker_id`
abbrev pub marker_field : ℤ → Fields
marker_field marker_id = field "id" (int marker_id) end

line : ℤ → List String → String
line marker_id rest = fstring ("marker " ∷ decimal_ℤ marker_id ∷ rest)

module _ {S : Type 0} (remote : Remote S) (env : Environment) where
  unfoldable pub marker_get : Option ℤ → Command S (Unit {0})
  marker_get (some marker_id) = do
    answer ← call remote env "marker" "get" (marker_field marker_id)
    echo_value answer
  marker_get none = do answer ← call remote env "marker" "get_all" end; echo_value answer

  unfoldable pub marker_on : ℤ → Command S (Unit {0})
  unfolding line
  marker_on marker_id = do
    call remote env "marker" "enable" (marker_field marker_id)
    echo (line marker_id (" enabled" ∷ []))

  unfoldable pub marker_off : ℤ → Command S (Unit {0})
  unfolding line
  marker_off marker_id = do
    call remote env "marker" "disable" (marker_field marker_id)
    echo (line marker_id (" disabled" ∷ []))

  unfoldable pub marker_freq : ℤ → String → Command S (Unit {0})
  unfolding line
  marker_freq marker_id hz = do
    requested ← freq env hz
    call remote env "marker" "set_freq"
        (field "id" (int marker_id) (field "hz" (int requested) end))
    echo (line marker_id (" -> " ∷ hz ∷ []))

  unfoldable pub marker_trace : ℤ → ℤ → Command S (Unit {0})
  unfolding line
  marker_trace marker_id trace_id = do
    call remote env "marker" "set_trace"
        (field "id" (int marker_id) (field "trace_id" (int trace_id) end))
    echo (line marker_id (" -> trace " ∷ decimal_ℤ trace_id ∷ []))

  unfoldable pub marker_peak : ℤ → Command S (Unit {0})
  unfolding line
  marker_peak marker_id = do
    call remote env "marker" "move_to_peak" (marker_field marker_id)
    echo (line marker_id (" -> peak" ∷ []))

  unfoldable pub marker_delta : ℤ → ℤ → Command S (Unit {0})
  unfolding line
  marker_delta marker_id ref_id = do
    call remote env "marker" "enable_delta"
        (field "id" (int marker_id) (field "ref_id" (int ref_id) end))
    echo (line marker_id (" delta from " ∷ decimal_ℤ ref_id ∷ []))

  unfoldable pub marker_delta_off : ℤ → Command S (Unit {0})
  unfolding line
  marker_delta_off marker_id = do
    call remote env "marker" "disable_delta" (marker_field marker_id)
    echo (line marker_id (" delta off" ∷ []))

  unfoldable pub marker_track : ℤ → Command S (Unit {0})
  unfolding line
  marker_track marker_id = do
    call remote env "marker" "enable_tracking" (marker_field marker_id)
    echo (line marker_id (" tracking on" ∷ []))

  unfoldable pub marker_track_off : ℤ → Command S (Unit {0})
  unfolding line
  marker_track_off marker_id = do
    call remote env "marker" "disable_tracking" (marker_field marker_id)
    echo (line marker_id (" tracking off" ∷ []))
