-- ===== src/Controller/Cli/Session.antt =====
-- The group `session` of controller/cli/app.py.
pub mod Understood
use tsanet.Prelude.{String, List, [], ◌∷◌, fstring, if◌then◌else◌}
use tsanet.Prelude.Int.{pos}
use tsanet.Protocol.Value.{Value, null, int, text, end, is_truthy}
use tsanet.Protocol.Value.Text.{str}
use tsanet.Protocol.Value.Access.{index, get_field, iterate}
use tsanet.Controller.Cli.{Command, Environment, Remote, pure, lift, echo, call, ◌>>=◌, ◌>>◌}
use tsanet.Controller.Cli.Basic.{padded}

module _ {S : Type 0} (remote : Remote S) (env : Environment) where
  session_line : Value → Command S (Unit {0})
  session_line s = do
    transport ← lift (get_field "transport" (text "?") s)
    peer ← lift (get_field "peer" (text "?") s)
    device ← lift (get_field "selected_device" null s)
    uptime ← lift (get_field "uptime_seconds" (int (pos 0)) s)
    transport_text ← lift (padded 6 transport)
    peer_text ← lift (padded 24 peer)
    device_text ← lift (padded 16 (if is_truthy device then device else text "-"))
    seconds ← lift (env.no_decimals uptime)
    echo (
        fstring (
          transport_text ∷ " " ∷ peer_text ∷ " device=" ∷ device_text ∷ " uptime=" ∷ seconds ∷ "s"
          ∷ []))

  session_lines : List Value → Command S (Unit {0})
  unfolding session_line
  session_lines [] = pure tt
  session_lines (s ∷ rest) = do session_line s; session_lines rest

  unfoldable pub session_list : Command S (Unit {0})
  unfolding session_lines
  session_list = do
    sessions ← call remote env "session" "list" end
    (if is_truthy sessions
        then (do each ← lift (iterate sessions); session_lines each)
        else echo "no active sessions")

  unfoldable pub session_status : Command S (Unit {0})
  session_status = do
    s ← call remote env "session" "status" end
    active ← lift (index "active" s)
    (if is_truthy active
        then (do
          peer ← lift (index "peer" s)
          device ← lift (get_field "selected_device" null s)
          uptime ← lift (index "uptime_seconds" s)
          echo (
              fstring (
                "active  peer="
                ∷ str peer
                ∷ "  device="
                ∷ str device
                ∷ "  uptime="
                ∷ str uptime
                ∷ "s"
                ∷ [])))
        else echo "inactive")

  unfoldable pub session_disconnect : Command S (Unit {0})
  session_disconnect = do call remote env "session" "disconnect" end; echo "disconnected"

  unfoldable pub session_force_takeover : Command S (Unit {0})
  session_force_takeover = do
    call remote env "session" "force_takeover" end
    echo "takeover allowed"
