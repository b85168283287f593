-- ===== src/Device/Discovery.antt =====
-- device/discovery.py: identifying a tinySA on a serial port. Opening a port is the operating system's
-- and tsapython's part: a parameter, which may answer each attempt differently.
use tsanet.Prelude.{
  ℕ, zero, suc, ◌+◌, String, Bool, true, Option, none, some, List, [], ◌∷◌, if◌then◌else◌,
}
use tsanet.Errors.{Kind, Result, ok, err, is_device_error}
use tsanet.Device.Model.{DeviceInfo}
use tsanet.Device.Link.{TinySa}
use tsanet.Device.Commands.Basic.{get_version}
use tsanet.Device.Version.{parse_version}

-- `TinySA(port)`, at the attempt with that number.
abbrev pub Opener : Type 0
Opener = String → ℕ → Result TinySa

-- `except (OSError, DeviceError, ConnectionError)`; a `ConnectionError` is an `OSError`.
unfoldable pub is_open_failure : Kind → Bool
is_open_failure Kind.os_error = true
is_open_failure k = is_device_error k

-- `parse_version(device_commands.get_version(tx))`
identify : Result String → Result DeviceInfo
identify (ok text) = parse_version text
identify (err e) = err e

unfoldable pub version_of : TinySa → Result DeviceInfo
unfolding identify get_version
version_of tx = identify (get_version tx).0

-- `probe(port, attempts=...)`; the `finally` closes the handle of an attempt whatever it returned.
unfoldable pub probe : Opener → String → ℕ → ℕ → Result (Option DeviceInfo)
probe open_port port attempt zero = ok none
probe open_port port attempt (suc left) = elim (open_port port attempt) [
  | err e ↦ if is_open_failure e.kind then ok none else err e
  | ok tx ↦ elim (version_of tx) [
    | ok info ↦ ok (some info)
    | err e ↦
        let again = probe open_port port (attempt + 1) left in
        if is_device_error e.kind then again else err e
  ]
]

pub record DiscoveredDevice : Type 0 where
  pub port : String
  pub info : DeviceInfo

found : String → Option DeviceInfo → Result (List DiscoveredDevice) → Result (List DiscoveredDevice)
found name none rest = rest
found name (some info) (ok devices) = ok (record { port = name; info = info } ∷ devices)
found name (some info) (err e) = err e

-- `discover(list_ports)` without an `open_port` of the caller's
unfoldable pub discover : Opener → ℕ → List String → Result (List DiscoveredDevice)
unfolding found
discover open_port attempts [] = ok []
discover open_port attempts (name ∷ rest) = elim (probe open_port name 0 attempts) [
  | err e ↦ err e
  | ok info ↦ found name info (discover open_port attempts rest)
]
