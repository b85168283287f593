-- ===== src/Controller/Cli/Examples.antt =====
-- The theorems on controller/cli/app.py at concrete commands.
use tsanet.Prelude.{String, ◌*◌, ◌≡◌, refl, none, some, [], ◌∷◌, ◌++◌, true, false, ◌==◌, fstring}
use tsanet.Prelude.Int.{ℤ, pos, ◌+ℤ◌, ◌-ℤ◌}
use tsanet.Errors.{Kind, ok, raise_error}
use tsanet.Protocol.Value.{null, int, text, end}
use tsanet.Hub.Session.{new_session}
use tsanet.Device.Link.{TinySa}
use tsanet.Device.Model.{ultra}
use tsanet.Hub.Registry.{RegisteredDevice, registered, get}
use mathlib.Core.List.Memᴰ.{head}
use tsanet.Hub.Dispatcher.{resolve_device, route}
use tsanet.Hub.Dispatcher.Ready.{IsReady, refuses, request_of}
use tsanet.Config.{NetworkConfig, Mode, unix, require_port_for_tcp}
use tsanet.Hub.State.{Library, Hub}
use tsanet.Controller.Parse.{parse_frequency}
use tsanet.Device.Parsing.{strip, split}
use tsanet.Protocol.Value.Text.{str, repr_text}
use tsanet.Controller.Cli
use tsanet.Controller.Cli.{
  Remote, Environment, Context, asked, printed, Outcome, returns, exits, status, load_config,
  where_is,
}
use tsanet.Controller.Cli.Runs.{last_words}
use tsanet.Controller.Cli.App.{Invocation, run}
use tsanet.Controller.Cli.App.Understood.{run-understood}
use tsanet.Controller.Cli.Sweep.{
  SweepState, state_of, half, sweep_start, sweep_stop, sweep_center, sweep_span, sweep_cw,
  sweep_pause,
}
use tsanet.Controller.Cli.Sweep.Report.{reported, sweep-reports, sweep-invalid}
use tsanet.Controller.Cli.Basic.{device_battery}
use tsanet.Controller.Cli.Basic.Battery.{misled, offline, device_battery-unreachable}

-- Arithmetic that no example reaches, and a zlib that stores.
abbrev library : Library
library = record {
  floats = record {
    greater = λ a b. false;
    float_of = λ s. none;
    int_of = λ s. raise_error Kind.value_error s;
    elapsed = λ now started. "0.0";
  };
  zlib = record { compress = λ raw. raw; crc32 = λ bytes. 0 };
}

-- A hub that answers everything with a sweep, and one that is not there.
abbrev sweeping : Remote (Unit {0})
sweeping = record { connect = λ c t. (ok tt, t); call = λ domain op args t. (ok (text "5 9"), t) }

abbrev absent : Remote (Unit {0})
absent = record {
  connect = λ c t. (raise_error Kind.os_error "refused", t);
  call = λ domain op args t. (ok null, t);
}

abbrev local_hub : NetworkConfig
local_hub = record { mode = Mode.dial; transport = unix; address = "/tmp/hub"; port = none }

-- Every number is 5.
abbrev environment : Environment
environment = record {
  loaded = ok local_hub;
  mode = none;
  transport = none;
  address = none;
  port = none;
  selected_device = none;
  help = some "Usage: tsanet-ctl";
  numbers = record {
    is_decimal = λ c. c == 53;
    same_ignoring_case = λ a b. a == b;
    lower = λ s. s;
    float_of = ok;
    scaled = λ value scale. ok (pos (5 * scale));
  };
  int_of_text = λ s. ok (pos 5);
  member_text = λ class value. value;
  no_decimals = λ v. ok "0";
  dated_name = "SA.png";
  csv_row = λ row. "";
  write = λ path v. ok tt;
}

-- A device that answers "1" to everything, and a hub that has selected it.
abbrev device : TinySa
device = record {
  port = "/dev/ttyACM0";
  sent = [];
  closed = false;
  answer = λ sent command. ok "1";
  answer_binary = λ sent command expected. ok [];
  answer_bare = λ sent command. ok tt;
}

abbrev entry : RegisteredDevice
entry =
    registered "/dev/ttyACM0"
      (record { model_string = "tinySA4"; model = ultra; firmware = none; hardware = "0.4.5.1" })
      device

abbrev ready_hub : Hub
ready_hub = record {
  registry = record { devices = ("/dev/ttyACM0", entry) ∷ []; dropped = [] };
  sessions = record {
    current =
        some
          (record (new_session 1 "peer" "tcp" "0.0") { selected_device_id = some "/dev/ttyACM0" });
    takeover_allowed = false;
    closed = [];
  };
  subscriptions = none;
  now = "1.0";
}

ready_hub-IsReady : IsReady ready_hub
unfolding resolve_device get
ready_hub-IsReady = record {
  id = "/dev/ttyACM0";
  device = entry;
  selected = refl;
  known = refl;
  plain = (λ sent command. refl, λ sent command expected. refl, λ sent command. refl);
}

run-understood_example :
    refuses (route library (request_of (int (pos 7)) "sweep" "pause" end) ready_hub).0 ≡ false
unfolding run sweep_pause Cli.◌>>=◌ Cli.call Cli.rpc load_config require_port_for_tcp Cli.pure
    Cli.tell
run-understood_example =
    run-understood library sweeping environment Invocation.sweep_pause tt "sweep" "pause" end
      (int (pos 7)) ready_hub (λ x. refl) (head refl) refl ready_hub-IsReady

-- A client that has connected.
abbrev online : Context (Unit {0})
online = record { remote = tt; connected = true; log = [] }

abbrev five : SweepState
five = record { start = pos 5; stop = pos 5; points = none }

sweep-reports_example :
    let shows : String → String → String → ℤ → Outcome (Unit {0}) × Context (Unit {0}) =
      λ op label name applied. (returns tt, reported op label name (pos 5) applied tt online) in
    (sweep_start sweeping environment "5hz" online ≡ shows "set_start" "start" "start = " (pos 5))
    × (sweep_stop sweeping environment "5hz" online ≡ shows "set_stop" "stop" "stop = " (pos 5))
    × (sweep_center sweeping environment "5hz" online
        ≡ shows "set_center" "center" "center = " (half (pos 10)))
    × (sweep_span sweeping environment "5hz" online ≡ shows "set_span" "span" "span = " (pos 0))
    × (sweep_cw sweeping environment "5hz" online ≡ shows "set_cw" "cw frequency" "cw = " (pos 5))
unfolding parse_frequency strip state_of split str ◌+ℤ◌ ◌-ℤ◌
sweep-reports_example =
    sweep-reports sweeping environment "5hz" online (pos 5) (λ op. text "5 9") (λ op. text "5 9")
      (λ op. tt) (λ op. tt) (λ op. five) refl refl (λ op. refl) (λ op. refl) (λ op. refl)

abbrev turned_down : Outcome (Unit {0}) × Context (Unit {0})
turned_down = (
  exits (status 1),
  record online { log = last_words (some "Usage: tsanet-ctl") "invalid frequency: 'x'" },
)

sweep-invalid_example :
    (sweep_start sweeping environment "x" online ≡ turned_down)
    × (sweep_stop sweeping environment "x" online ≡ turned_down)
    × (sweep_center sweeping environment "x" online ≡ turned_down)
    × (sweep_span sweeping environment "x" online ≡ turned_down)
    × (sweep_cw sweeping environment "x" online ≡ turned_down)
unfolding parse_frequency strip fstring repr_text
sweep-invalid_example = sweep-invalid sweeping environment "x" "invalid frequency: 'x'" online refl

device_battery-unreachable_example :
    device_battery absent environment (offline absent environment tt []) ≡ (
      returns tt,
      offline absent environment tt (
          misled
            (fstring ("error: could not reach " ∷ where_is local_hub ∷ ": " ∷ "refused" ∷ []))
            "voltage"
          ++ misled
              (fstring ("error: could not reach " ∷ where_is local_hub ∷ ": " ∷ "refused" ∷ []))
              "offset"),
    )
unfolding load_config require_port_for_tcp
device_battery-unreachable_example =
    device_battery-unreachable absent environment tt tt tt local_hub "refused" refl refl refl
