-- ===== src/Controller/Cli/Requests/Marker.antt =====
-- Proofs on the requests of the group `marker` of controller/cli/app.py.
use tsanet.Prelude.Int.{ℤ}
use tsanet.Protocol.Value.{int, end, field}
use tsanet.Protocol.Value.Access.{index}
use tsanet.Hub.State.{Library}
use tsanet.Hub.Dispatcher.Handlers.{marker}
use tsanet.Hub.Dispatcher.Ready.{IsUnderstood, Plain-say}
use tsanet.Controller.Cli.Requests.{IsUnderstood-marker}
use tsanet.Device.Commands.Marker
use tsanet.Controller.Cli.Marker.{marker_field}

module _ (library : Library) where
  pub marker-get : (id : ℤ) → IsUnderstood library "marker" "get" (marker_field id)
  unfolding marker index Marker.get
  marker-get id = IsUnderstood-marker library "get" (marker_field id) (Plain-say _)

  pub marker-get_all : IsUnderstood library "marker" "get_all" end
  unfolding marker index Marker.get_all
  marker-get_all = IsUnderstood-marker library "get_all" end (Plain-say _)

  pub marker-enable : (id : ℤ) → IsUnderstood library "marker" "enable" (marker_field id)
  unfolding marker index Marker.enable
  marker-enable id = IsUnderstood-marker library "enable" (marker_field id) (Plain-say _)

  pub marker-disable : (id : ℤ) → IsUnderstood library "marker" "disable" (marker_field id)
  unfolding marker index Marker.disable
  marker-disable id = IsUnderstood-marker library "disable" (marker_field id) (Plain-say _)

  pub marker-move_to_peak :
      (id : ℤ) → IsUnderstood library "marker" "move_to_peak" (marker_field id)
  unfolding marker index Marker.move_to_peak
  marker-move_to_peak id =
      IsUnderstood-marker library "move_to_peak" (marker_field id) (Plain-say _)

  pub marker-disable_delta :
      (id : ℤ) → IsUnderstood library "marker" "disable_delta" (marker_field id)
  unfolding marker index Marker.disable_delta
  marker-disable_delta id =
      IsUnderstood-marker library "disable_delta" (marker_field id) (Plain-say _)

  pub marker-enable_tracking :
      (id : ℤ) → IsUnderstood library "marker" "enable_tracking" (marker_field id)
  unfolding marker index Marker.enable_tracking
  marker-enable_tracking id =
      IsUnderstood-marker library "enable_tracking" (marker_field id) (Plain-say _)

  pub marker-disable_tracking :
      (id : ℤ) → IsUnderstood library "marker" "disable_tracking" (marker_field id)
  unfolding marker index Marker.disable_tracking
  marker-disable_tracking id =
      IsUnderstood-marker library "disable_tracking" (marker_field id) (Plain-say _)

  pub marker-set_freq :
      (id n : ℤ)
      → IsUnderstood library "marker" "set_freq" (field "id" (int id) (field "hz" (int n) end))
  unfolding marker index Marker.set_freq
  marker-set_freq id n =
      IsUnderstood-marker library "set_freq" (field "id" (int id) (field "hz" (int n) end))
        (Plain-say _)

  pub marker-set_trace :
      (id n : ℤ)
      → IsUnderstood library "marker" "set_trace"
          (field "id" (int id) (field "trace_id" (int n) end))
  unfolding marker index Marker.set_trace
  marker-set_trace id n =
      IsUnderstood-marker library "set_trace" (field "id" (int id) (field "trace_id" (int n) end))
        (Plain-say _)

  pub marker-enable_delta :
      (id n : ℤ)
      → IsUnderstood library "marker" "enable_delta"
          (field "id" (int id) (field "ref_id" (int n) end))
  unfolding marker index Marker.enable_delta
  marker-enable_delta id n =
      IsUnderstood-marker library "enable_delta" (field "id" (int id) (field "ref_id" (int n) end))
        (Plain-say _)

pub ruleset marker_requests = (
  marker-get, marker-get_all, marker-enable, marker-disable, marker-move_to_peak,
  marker-disable_delta, marker-enable_tracking, marker-disable_tracking, marker-set_freq,
  marker-set_trace, marker-enable_delta,
)
