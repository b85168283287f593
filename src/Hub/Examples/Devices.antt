-- ===== src/Hub/Examples/Devices.antt =====
-- The hub's theorems on devices, the registry and subscriptions at concrete ones.
use tsanet.Prelude.{
  if◌then◌else◌, str_eq, ◌≢◌, ap, Option, Bool, String, ◌≡◌, refl, none, some, List, [], ◌∷◌, ◌++◌,
  true, false, fstring,
}
use tsanet.Prelude.Int.{pos}
use tsanet.Errors.{Kind, ok, raise_error}
use tsanet.Protocol.Value.{Fields, int, text, list, cons, nil, dict, end, field}
use tsanet.Protocol.Messages.{Request}
use tsanet.Hub.State.{Hub}
use tsanet.Hub.Dispatcher.{route}
use tsanet.Hub.Dispatcher.Handlers.{sweep, handler_for}
use tsanet.Hub.Dispatcher.Ready.{request_of}
use tsanet.Hub.Dispatcher.Select.{select-reaches}
use tsanet.Hub.Dispatcher.Unplugged.{rescanned, scan-unplugged}
use tsanet.Protocol.Value.Text.{repr_text}
use tsanet.Device.Model.{ultra}
use tsanet.Device.Discovery.{Opener, probe, is_open_failure}
use tsanet.Hub.Registry.{
  RegisteredDevice, DeviceRegistry, registered, get, scan, sorted_set, probe_port,
}
use tsanet.Hub.Registry.Scan.{Holds, Agree, scan-Holds}
use tsanet.Hub.Registry.Refines.{devices_of, scanned, scan-refines}
use tsanet.Hub.Registry.Distinct.{IsDistinct}
use tsanet.Hub.Dispatcher.Isolation.{selected_id, route-isolated}
use tsanet.Hub.Dispatcher.Lna.{IsAnswering, lna, sweep-lna}
use tsanet.Device.Link.{TinySa, Wire, text_command}
use tsanet.Protocol.Value.Text.{str}
use tsanet.Hub.Subscriptions.Loop.{delivered, run}
use tsanet.Hub.Subscriptions.Laws.{axis, axis_read, run-axis}
use tsanet.Hub.Examples.{library, incumbent}

-- A device that answers "1" to everything.
abbrev device : TinySa
device = record {
  port = "/dev/ttyACM0";
  sent = [];
  closed = false;
  answer = λ sent command. ok "1";
  answer_binary = λ sent command expected. ok [];
  answer_bare = λ sent command. ok tt;
}

device-IsAnswering : IsAnswering device
device-IsAnswering sent command = ("1", refl)

abbrev tuning : Fields
tuning = field "hz" (int (pos 900_000_000)) end

sweep-lna_example :
    let sent : String → List Wire =
      λ op. (sweep library.floats (text op) (dict tuning) device).1.sent in
    let command : String → List Wire = λ word.
      lna (pos 900_000_000)
      ++ text_command (fstring (word ∷ str (int (pos 900_000_000)) ∷ [])) ∷ [] in
    (sent "set_start" ≡ command "sweep start ")
    × (sent "set_stop" ≡ command "sweep stop ")
    × (sent "set_center" ≡ command "sweep center ")
    × (sent "set_cw" ≡ command "sweep cw ")
sweep-lna_example = sweep-lna library.floats tuning (pos 900_000_000) device device-IsAnswering refl

abbrev registered_at : String → RegisteredDevice
registered_at port =
    registered port
      (record { model_string = "tinySA4"; model = ultra; firmware = none; hardware = "0.4.5.1" })
      device

abbrev two_devices : DeviceRegistry
two_devices = record {
  devices =
      ("/dev/ttyACM0", registered_at "/dev/ttyACM0")
      ∷ ("/dev/ttyACM1", registered_at "/dev/ttyACM1")
      ∷ [];
  dropped = [];
}

-- The session's device is the first of the two.
abbrev selecting : Hub
selecting = record {
  registry = two_devices;
  sessions = record {
    current = some (record incumbent { selected_device_id = some "/dev/ttyACM0" });
    takeover_allowed = false;
    closed = [];
  };
  subscriptions = none;
  now = "1.0";
}

abbrev sweep_request : Request
sweep_request = record {
  id = int (pos 2);
  domain = text "sweep";
  op = text "set_start";
  args = dict tuning;
}

abbrev is_second : Option String → Bool
is_second none = false
is_second (some id) = str_eq id "/dev/ttyACM1"

second-apart : selected_id selecting ≢ some "/dev/ttyACM1"
second-apart e = let differ : false ≡ true = ap is_second e in cc differ

route-isolated_example :
    get "/dev/ttyACM1" (route library sweep_request selecting).1.registry
    ≡ get "/dev/ttyACM1" two_devices
route-isolated_example = route-isolated library sweep_request selecting "/dev/ttyACM1" second-apart

select-reaches_example :
    let h' =
      (route library
        (request_of (int (pos 1)) "devices" "select" (field "device_id" (text "/dev/ttyACM1") end))
        selecting).1 in
    let r = route library sweep_request h' in
    let o = sweep library.floats sweep_request.op sweep_request.args device in
    (r.0 ≡ o.0)
    × (get "/dev/ttyACM1" r.1.registry
        ≡ ok (record (registered_at "/dev/ttyACM1") { transport = o.1 }))
unfolding handler_for get
select-reaches_example =
    select-reaches library "/dev/ttyACM1" (int (pos 1)) sweep_request (sweep library.floats)
      (record incumbent { selected_device_id = some "/dev/ttyACM0" }) (registered_at "/dev/ttyACM1")
      selecting refl refl refl refl refl

-- Every port is gone.
abbrev nothing_opens : Opener
nothing_opens port attempt = raise_error Kind.os_error "gone"

abbrev listed_ports : List String
listed_ports = "/dev/ttyACM1" ∷ "/dev/ttyACM2" ∷ []

-- Only the second device's port opens.
abbrev one_opens : Opener
one_opens port attempt =
    if str_eq port "/dev/ttyACM1" then ok device else raise_error Kind.os_error "gone"

openers-Agree : Agree "/dev/ttyACM1" nothing_opens one_opens
openers-Agree p other n = rw other refl

scan-Holds_example :
    Holds "/dev/ttyACM1"
      (registered_at "/dev/ttyACM1")
      (scan nothing_opens 3 listed_ports two_devices).1
    × (scan nothing_opens 3 listed_ports two_devices ≡ scan one_opens 3 listed_ports two_devices)
scan-Holds_example =
    scan-Holds nothing_opens one_opens 3 listed_ports two_devices "/dev/ttyACM1"
      (registered_at "/dev/ttyACM1") refl refl openers-Agree

scan-refines_example :
    ((port : String)
      → devices_of (scan nothing_opens 3 listed_ports two_devices).1 port
        ≡ scanned nothing_opens 3 listed_ports (devices_of two_devices) port)
    × IsDistinct (scan nothing_opens 3 listed_ports two_devices).1.devices
unfolding scan sorted_set probe_port probe is_open_failure
scan-refines_example = scan-refines nothing_opens 3 listed_ports two_devices (refl, (refl, tt)) refl

-- The first device's port is no longer listed.
scan-unplugged_example :
    route library sweep_request (rescanned nothing_opens 3 listed_ports selecting) ≡ (
      raise_error Kind.key_error (repr_text "/dev/ttyACM0"),
      rescanned nothing_opens 3 listed_ports selecting,
    )
unfolding scan sorted_set probe_port probe is_open_failure handler_for
scan-unplugged_example =
    scan-unplugged library nothing_opens 3 listed_ports sweep_request (sweep library.floats)
      (record incumbent { selected_device_id = some "/dev/ttyACM0" }) "/dev/ttyACM0" selecting
      (refl, (refl, tt)) (refl, (refl, tt)) refl refl refl refl refl refl

run-axis_example :
    let ids = list (cons (int (pos 1)) nil) in
    axis none (run library.floats ids delivered (delivered ∷ delivered ∷ []) device).pushed
    ≡ axis_read library.floats ids 2 device
run-axis_example = run-axis library.floats (list (cons (int (pos 1)) nil)) 2 device
