-- ===== src/Hub/Registry.antt =====
-- hub/registry.py: the devices that the hub holds open, by port.
pub mod Laws
pub mod Sets
pub mod Scan
pub mod Distinct
pub mod Refines
pub mod Keyed
use Prim.Native.Nat.{Ordering}
use Prim.Native.String.{compare}
use tsanet.Prelude.{
  ℕ, String, Bool, false, Option, none, some, List, [], ◌∷◌, ◌++◌, str_eq, str_mem, if◌then◌else◌,
}
use tsanet.Prelude.Dict.{Dict, lookup, insert, remove}
use tsanet.Errors.{Kind, Result, ok, err, raise_error, Exec}
use tsanet.Protocol.Value.Text.{repr_text}
use tsanet.Device.Model.{DeviceInfo}
use tsanet.Device.Link.{TinySa, close}
use tsanet.Device.Discovery.{Opener, probe, is_open_failure}

pub record RegisteredDevice : Type 0 where
  pub device_id : String
  pub port : String
  pub info : DeviceInfo
  pub transport : TinySa
  pub busy : Bool

-- The open devices, and the handles of those that were dropped, in order.
pub record DeviceRegistry : Type 0 where
  pub devices : Dict RegisteredDevice
  pub dropped : List TinySa

abbrev pub empty : DeviceRegistry
empty = record { devices = []; dropped = [] }

-- `sorted(ports)` of a set of ports: each once, in the order of their code points.
insert_sorted : String → List String → List String
insert_sorted p [] = p ∷ []
insert_sorted p (q ∷ qs) = elim (compare p q) [
  | Ordering.lt ↦ p ∷ q ∷ qs
  | Ordering.eq ↦ q ∷ qs
  | Ordering.gt ↦ q ∷ insert_sorted p qs
]

unfoldable pub sorted_set : List String → List String
unfolding insert_sorted
sorted_set [] = []
sorted_set (p ∷ ps) = insert_sorted p (sorted_set ps)

-- `set(d)`
abbrev pub keys : Dict RegisteredDevice → List String
keys [] = []
keys ((k, d) ∷ rest) = k ∷ keys rest

-- `xs - ys`
abbrev pub minus : List String → List String → List String
minus [] ys = []
minus (x ∷ xs) ys = if str_mem x ys then minus xs ys else x ∷ minus xs ys

-- `_drop(port)`
unfoldable pub drop : String → DeviceRegistry → DeviceRegistry
drop port r = elim (lookup port r.devices) [
  | none ↦ r
  | some d ↦ record {
    devices = remove port r.devices;
    dropped = r.dropped ++ close d.transport ∷ [];
  }
]

-- The device that an opened port becomes.
abbrev pub registered : String → DeviceInfo → TinySa → RegisteredDevice
registered port info transport = record {
  device_id = port;
  port = port;
  info = info;
  transport = transport;
  busy = false;
}

opened : String → DeviceInfo → Result TinySa → Result (Option RegisteredDevice)
opened port info (ok transport) = ok (some (registered port info transport))
opened port info (err e) = if is_open_failure e.kind then ok none else err e

-- `_probe_port(port)` in production: probe it, then open it for good.
unfoldable pub probe_port : Opener → ℕ → String → Result (Option RegisteredDevice)
unfolding opened
probe_port open_port attempts port = elim (probe open_port port 0 attempts) [
  | err e ↦ err e
  | ok none ↦ ok none
  | ok (some info) ↦ opened port info (open_port port attempts)
]

-- `if device is not None` and `if port not in self._devices`
add_device : String → Option RegisteredDevice → DeviceRegistry → DeviceRegistry
add_device port none r = r
add_device port (some d) r = elim (lookup port r.devices) [
  | none ↦ record r { devices = insert port d r.devices }
  | some _ ↦ r
]

-- The loop over the new ports.
add_all : Opener → ℕ → List String → Exec DeviceRegistry (Unit {0})
add_all open_port attempts [] r = (ok tt, r)
add_all open_port attempts (port ∷ rest) r = elim (probe_port open_port attempts port) [
  | err e ↦ (err e, r)
  | ok device ↦ add_all open_port attempts rest (add_device port device r)
]

-- The loop over the ports that are gone.
drop_all : List String → DeviceRegistry → DeviceRegistry
drop_all [] r = r
drop_all (port ∷ rest) r = drop_all rest (drop port r)

-- The second half of `scan`, which an exception of the first skips.
drop_absent : List String → Result (Unit {0}) × DeviceRegistry → Result (Unit {0}) × DeviceRegistry
drop_absent ports (ok _, r) = (ok tt, drop_all ports r)
drop_absent ports (err e, r) = (err e, r)

-- `scan()`, with the ports that `list_ports()` returns
unfoldable pub scan : Opener → ℕ → List String → Exec DeviceRegistry (Unit {0})
unfolding add_all add_device drop_all drop_absent drop
scan open_port attempts present r =
    let known = keys r.devices in
    drop_absent (sorted_set (minus known present))
      (add_all open_port attempts (sorted_set (minus present known)) r)

-- The devices of the keys, in the order of the keys.
devices_at : Dict RegisteredDevice → List String → List RegisteredDevice
devices_at d [] = []
devices_at d (k ∷ ks) = elim (lookup k d) [
  | none ↦ devices_at d ks
  | some device ↦ device ∷ devices_at d ks
]

-- `list()`
unfoldable pub list : DeviceRegistry → List RegisteredDevice
unfolding devices_at
list r = devices_at r.devices (sorted_set (keys r.devices))

-- The first device with the id, as `get` walks through them.
find : String → Dict RegisteredDevice → Option RegisteredDevice
find device_id [] = none
find device_id ((k, d) ∷ rest) =
    if str_eq d.device_id device_id then some d else find device_id rest

-- `get(device_id)`
unfoldable pub get : String → DeviceRegistry → Result RegisteredDevice
unfolding find
get device_id r = elim (find device_id r.devices) [
  | none ↦ raise_error Kind.key_error (repr_text device_id)
  | some d ↦ ok d
]

-- A change to the object that `find` returns, which the registry holds too.
update :
    (RegisteredDevice → RegisteredDevice) → String → Dict RegisteredDevice → Dict RegisteredDevice
update f device_id [] = []
update f device_id ((k, d) ∷ rest) =
    if str_eq d.device_id device_id then (k, f d) ∷ rest else (k, d) ∷ update f device_id rest

-- The handle of the device after commands went through it.
unfoldable pub put_transport : TinySa → String → DeviceRegistry → DeviceRegistry
unfolding update
put_transport tx device_id r = record r {
  devices = update (λ d. record d { transport = tx }) device_id r.devices;
}

-- `set_busy(device_id, busy)`
unfoldable pub set_busy : String → Bool → Exec DeviceRegistry (Unit {0})
unfolding update
set_busy device_id busy r = elim (get device_id r) [
  | err e ↦ (err e, r)
  | ok _ ↦
      (ok tt, record r { devices = update (λ d. record d { busy = busy }) device_id r.devices })
]

-- `close()`
unfoldable pub close_all : DeviceRegistry → DeviceRegistry
unfolding drop_all drop
close_all r = drop_all (keys r.devices) r
