-- ===== src/Device/Commands/Trace.antt =====
-- device/commands/trace.py
use tsanet.Prelude.{String, [], ◌∷◌, fstring, if◌then◌else◌}
use tsanet.Errors.{Exec, Kind, raise, lift, ◌>>=◌}
use tsanet.Protocol.Value.{Value}
use tsanet.Protocol.Value.Text.{str, repr}
use tsanet.Protocol.Value.Access.{is_member}
use tsanet.Device.Model.{valid_calc, valid_units}
use tsanet.Device.Link.{TinySa, send}

unfoldable pub get : Value → Exec TinySa String
get trace_id = send (fstring ("trace " ∷ str trace_id ∷ []))

unfoldable pub get_all : Exec TinySa String
get_all = send "trace"

unfoldable pub get_frequencies : Exec TinySa String
get_frequencies = send "frequencies"

unfoldable pub fetch_value : Value → Exec TinySa String
fetch_value trace_id = send (fstring ("trace " ∷ str trace_id ∷ " value" ∷ []))

unfoldable pub enable : Value → Exec TinySa String
enable trace_id = send (fstring ("trace " ∷ str trace_id ∷ " view on" ∷ []))

unfoldable pub disable : Value → Exec TinySa String
disable trace_id = send (fstring ("trace " ∷ str trace_id ∷ " view off" ∷ []))

unfoldable pub enable_calc : Value → Value → Exec TinySa String
enable_calc trace_id calc = do
  known ← lift (is_member calc valid_calc)
  (if known
      then send (fstring ("calc " ∷ str trace_id ∷ " " ∷ str calc ∷ []))
      else raise Kind.value_error (fstring ("invalid calc type: " ∷ repr calc ∷ [])))

unfoldable pub disable_calc : Value → Exec TinySa String
disable_calc trace_id = send (fstring ("calc " ∷ str trace_id ∷ " off" ∷ []))

unfoldable pub set_unit : Value → Exec TinySa String
set_unit unit = do
  known ← lift (is_member unit valid_units)
  (if known
      then send (fstring ("trace " ∷ str unit ∷ []))
      else raise Kind.value_error (fstring ("invalid unit: " ∷ repr unit ∷ [])))

unfoldable pub set_ref_level : Value → Exec TinySa String
set_ref_level dbm = send (fstring ("trace reflevel " ∷ str dbm ∷ []))

unfoldable pub set_ref_level_auto : Exec TinySa String
set_ref_level_auto = send "trace reflevel auto"

unfoldable pub set_scale : Value → Exec TinySa String
set_scale level = send (fstring ("trace scale " ∷ str level ∷ []))
