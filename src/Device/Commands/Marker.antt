-- ===== src/Device/Commands/Marker.antt =====
-- device/commands/marker.py
use tsanet.Prelude.{String, [], ◌∷◌, fstring}
use tsanet.Errors.{Exec}
use tsanet.Protocol.Value.{Value}
use tsanet.Protocol.Value.Text.{str}
use tsanet.Device.Link.{TinySa, send}

unfoldable pub get : Value → Exec TinySa String
get marker_id = send (fstring ("marker " ∷ str marker_id ∷ []))

unfoldable pub get_all : Exec TinySa String
get_all = send "marker"

unfoldable pub enable : Value → Exec TinySa String
enable marker_id = send (fstring ("marker " ∷ str marker_id ∷ " on" ∷ []))

unfoldable pub disable : Value → Exec TinySa String
disable marker_id = send (fstring ("marker " ∷ str marker_id ∷ " off" ∷ []))

unfoldable pub set_freq : Value → Value → Exec TinySa String
set_freq marker_id hz = send (fstring ("marker " ∷ str marker_id ∷ " " ∷ str hz ∷ []))

unfoldable pub set_trace : Value → Value → Exec TinySa String
set_trace marker_id trace_id =
    send (fstring ("marker " ∷ str marker_id ∷ " trace " ∷ str trace_id ∷ []))

unfoldable pub move_to_peak : Value → Exec TinySa String
move_to_peak marker_id = send (fstring ("marker " ∷ str marker_id ∷ " peak" ∷ []))

unfoldable pub enable_delta : Value → Value → Exec TinySa String
enable_delta marker_id ref_id =
    send (fstring ("marker " ∷ str marker_id ∷ " delta " ∷ str ref_id ∷ []))

unfoldable pub disable_delta : Value → Exec TinySa String
disable_delta marker_id = send (fstring ("marker " ∷ str marker_id ∷ " delta off" ∷ []))

unfoldable pub enable_tracking : Value → Exec TinySa String
enable_tracking marker_id = send (fstring ("marker " ∷ str marker_id ∷ " tracking on" ∷ []))

unfoldable pub disable_tracking : Value → Exec TinySa String
disable_tracking marker_id = send (fstring ("marker " ∷ str marker_id ∷ " tracking off" ∷ []))
