-- ===== src/Device/Commands/Sweep.antt =====
-- device/commands/sweep.py
use tsanet.Prelude.{String, [], ◌∷◌, fstring}
use tsanet.Errors.{Exec}
use tsanet.Protocol.Value.{Value, null}
use tsanet.Protocol.Value.Text.{str}
use tsanet.Device.Link.{TinySa, send}

unfoldable pub get : Exec TinySa String
get = send "sweep"

unfoldable pub get_status : Exec TinySa String
get_status = send "status"

unfoldable pub set_mode : Value → Exec TinySa String
set_mode mode = send (fstring ("sweep " ∷ str mode ∷ []))

unfoldable pub set_start : Value → Exec TinySa String
set_start hz = send (fstring ("sweep start " ∷ str hz ∷ []))

unfoldable pub set_stop : Value → Exec TinySa String
set_stop hz = send (fstring ("sweep stop " ∷ str hz ∷ []))

unfoldable pub set_center : Value → Exec TinySa String
set_center hz = send (fstring ("sweep center " ∷ str hz ∷ []))

unfoldable pub set_span : Value → Exec TinySa String
set_span hz = send (fstring ("sweep span " ∷ str hz ∷ []))

unfoldable pub set_cw : Value → Exec TinySa String
set_cw hz = send (fstring ("sweep cw " ∷ str hz ∷ []))

-- `points` is `None` when it is not given.
unfoldable pub set_start_stop : Value → Value → Value → Exec TinySa String
set_start_stop start stop null = send (fstring ("sweep " ∷ str start ∷ " " ∷ str stop ∷ []))
set_start_stop start stop points =
    send (fstring ("sweep " ∷ str start ∷ " " ∷ str stop ∷ " " ∷ str points ∷ []))

unfoldable pub set_time : Value → Exec TinySa String
set_time microseconds = send (fstring ("sweeptime " ∷ str microseconds ∷ "u" ∷ []))

unfoldable pub pause : Exec TinySa String
pause = send "pause"

unfoldable pub resume : Exec TinySa String
resume = send "resume"
