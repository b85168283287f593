-- ===== src/Device/Commands/Basic.antt =====
-- device/commands/device.py, signal.py, preset.py, menu.py, raw.py and capture.py.
use tsanet.Prelude.{ℕ, ◌*◌, String, List, [], ◌∷◌, fstring, if◌then◌else◌}
use tsanet.Errors.{Kind, Exec, raise, lift, ◌>>=◌}
use tsanet.Protocol.Value.{Value, is_truthy}
use tsanet.Protocol.Value.Text.{str}
use tsanet.Protocol.Value.Access.{iterate}
use tsanet.Device.Model.{Model, framebuffer}
use tsanet.Device.Link.{TinySa, send, send_binary, write_only}

unfoldable pub get_version : Exec TinySa String
get_version = send "version"

unfoldable pub get_id : Exec TinySa String
get_id = send "deviceid"

unfoldable pub set_id : Value → Exec TinySa String
set_id device_id = send (fstring ("deviceid " ∷ str device_id ∷ []))

unfoldable pub get_battery : Exec TinySa String
get_battery = send "vbat"

unfoldable pub get_battery_offset : Exec TinySa String
get_battery_offset = send "vbat_offset"

unfoldable pub set_battery_offset : Value → Exec TinySa String
set_battery_offset millivolts = send (fstring ("vbat_offset " ∷ str millivolts ∷ []))

unfoldable pub reset : Value → Exec TinySa (Unit {0})
reset dfu = write_only (if is_truthy dfu then "reset dfu" else "reset")

unfoldable pub enable_spur : Exec TinySa String
enable_spur = send "spur on"

unfoldable pub disable_spur : Exec TinySa String
disable_spur = send "spur off"

unfoldable pub enable_auto_spur : Exec TinySa String
enable_auto_spur = send "spur auto"

unfoldable pub enable_lna : Exec TinySa String
enable_lna = send "lna on"

unfoldable pub disable_lna : Exec TinySa String
disable_lna = send "lna off"

unfoldable pub load : Value → Exec TinySa String
load preset_id = send (fstring ("load " ∷ str preset_id ∷ []))

unfoldable pub save : Value → Exec TinySa String
save preset_id = send (fstring ("save " ∷ str preset_id ∷ []))

unfoldable pub execute : Value → Exec TinySa String
execute command = send (str command)

-- `" ".join(str(i) for i in ids)`, piece by piece
join_ids : List Value → List String
join_ids [] = []
join_ids (i ∷ []) = str i ∷ []
join_ids (i ∷ j ∷ rest) = str i ∷ " " ∷ join_ids (j ∷ rest)

unfoldable pub trigger : Value → Exec TinySa String
unfolding join_ids
trigger ids =
    if is_truthy ids
    then (do values ← lift (iterate ids); send (fstring ("menu " ∷ join_ids values)))
    else raise Kind.value_error "menu trigger requires at least one id"

unfoldable pub fetch_framebuffer : Model → Exec TinySa (List ℕ)
fetch_framebuffer model =
    let (width, height) = framebuffer model in send_binary "capture" (width * height * 2)
