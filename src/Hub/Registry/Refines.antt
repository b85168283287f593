-- ===== src/Hub/Registry/Refines.antt =====
-- The registry of hub/registry.py as a function from ports, and proofs that a scan implements it.
use tsanet.Prelude.{
  ℕ, String, ◌≡◌, refl, sym, ap, ◌∙◌, Bool, true, false, not, ◌&&◌, ◌||◌, Option, none, some, List,
  [], ◌∷◌, str_eq, str_mem, eq_iff, Bool-cases, Option-cases, inl, inr, if◌then◌else◌,
}
use tsanet.Prelude.Dict.{lookup, lookup-insert}
use tsanet.Errors.{Error, Result, Result-cases, ok, err}
use tsanet.Device.Discovery.{Opener}
use tsanet.Hub.Registry.{
  RegisteredDevice, DeviceRegistry, sorted_set, keys, minus, drop, probe_port, add_device, add_all,
  drop_all, drop_absent, scan,
}
use tsanet.Hub.Registry.Sets.{str_mem-sorted_set, str_mem-minus, str_mem-keys, is_known}
use tsanet.Hub.Registry.Distinct.{
  IsDistinct, if_or, lookup_same, lookup-remove, remove-IsDistinct, insert-IsDistinct,
}

-- What a registry is to its clients: the device of each port.
abbrev pub Devices : Type 0
Devices = String → Option RegisteredDevice

abbrev pub devices_of : DeviceRegistry → Devices
devices_of r port = lookup port r.devices

-- The device that a probe finds.
abbrev pub found : Result (Option RegisteredDevice) → Option RegisteredDevice
found (ok o) = o
found (err e) = none

abbrev pub or_found : Option RegisteredDevice → Option RegisteredDevice → Option RegisteredDevice
or_found none o = o
or_found (some d) o = some d

-- A scan as its clients see it: on a port that is listed stays the device that was there, or comes
-- the one that a probe finds; on any other port there is none.
abbrev pub scanned : Opener → ℕ → List String → Devices → Devices
scanned opener attempts present devices port =
    if str_mem port present
    then or_found (devices port) (found (probe_port opener attempts port))
    else none

or_found-none : (o : Option RegisteredDevice) → or_found o none ≡ o
or_found-none none = refl
or_found-none (some d) = refl

or_found_twice : (o new : Option RegisteredDevice) → or_found (or_found o new) new ≡ or_found o new
or_found_twice none none = refl
or_found_twice none (some d) = refl
or_found_twice (some d) new = refl

if_same : (b : Bool) (o : Option RegisteredDevice) → o ≡ (if b then o else o)
if_same true o = refl
if_same false o = refl

lookup-add_device :
    (k p : String) (new : Option RegisteredDevice) (r : DeviceRegistry)
    → lookup k (add_device p new r).devices
      ≡ (if str_eq p k then or_found (lookup k r.devices) new else lookup k r.devices)
unfolding add_device
lookup-add_device k p none r =
    rw (or_found-none (lookup k r.devices)) (if_same (str_eq p k) (lookup k r.devices))
lookup-add_device k p (some d) r = elim (Bool-cases (str_eq p k)) [
  | inl e ↦ elim (Option-cases (lookup p r.devices)) [
    | inl free ↦
        rw (free, e, lookup_same p k r.devices e ∙ free, add_device)
          (lookup-insert p k d r.devices ∙ rw e refl)
    | inr (old, taken) ↦ rw (taken, e, lookup_same p k r.devices e ∙ taken, add_device) refl
  ]
  | inr e ↦ elim (Option-cases (lookup p r.devices)) [
    | inl free ↦ rw (free, e, add_device) (lookup-insert p k d r.devices ∙ rw e refl)
    | inr (old, taken) ↦ rw (taken, e, add_device) refl
  ]
]

lookup-drop :
    (k p : String) (r : DeviceRegistry)
    → IsDistinct r.devices
    → lookup k (drop p r).devices ≡ (if str_eq p k then none else lookup k r.devices)
unfolding drop
lookup-drop k p r v = elim (Option-cases (lookup p r.devices)) [
  | inl unknown ↦ elim (Bool-cases (str_eq p k)) [
    | inl e ↦ rw (unknown, e, drop) (lookup_same p k r.devices e ∙ unknown)
    | inr e ↦ rw (unknown, e, drop) refl
  ]
  | inr (d, known) ↦ rw (known, drop) (lookup-remove k p r.devices v)
]

drop-IsDistinct :
    (p : String) (r : DeviceRegistry) → IsDistinct r.devices → IsDistinct (drop p r).devices
unfolding drop
drop-IsDistinct p r v = elim (Option-cases (lookup p r.devices)) [
  | inl unknown ↦ rw (unknown, drop) v
  | inr (d, known) ↦ rw (known, drop) (remove-IsDistinct p r.devices v)
]

lookup-drop_all :
    (k : String) (ports : List String) (r : DeviceRegistry)
    → IsDistinct r.devices
    → lookup k (drop_all ports r).devices ≡ (if str_mem k ports then none else lookup k r.devices)
unfolding drop_all
lookup-drop_all k [] r v = refl
lookup-drop_all k (p ∷ ports) r v =
    lookup-drop_all k ports (drop p r) (drop-IsDistinct p r v)
    ∙ rw (lookup-drop k p r v) (if_or (str_eq p k) (str_mem k ports) (lookup k r.devices))

drop_all-IsDistinct :
    (ports : List String) (r : DeviceRegistry)
    → IsDistinct r.devices
    → IsDistinct (drop_all ports r).devices
unfolding drop_all
drop_all-IsDistinct [] r v = v
drop_all-IsDistinct (p ∷ ports) r v = drop_all-IsDistinct ports (drop p r) (drop-IsDistinct p r v)

add_device-IsDistinct :
    (p : String) (new : Option RegisteredDevice) (r : DeviceRegistry)
    → IsDistinct r.devices
    → IsDistinct (add_device p new r).devices
unfolding add_device
add_device-IsDistinct p none r v = v
add_device-IsDistinct p (some d) r v = elim (Option-cases (lookup p r.devices)) [
  | inl free ↦ rw (free, add_device) (insert-IsDistinct p d r.devices free v)
  | inr (old, taken) ↦ rw (taken, add_device) v
]

or_found_again :
    (e m : Bool) (o new f : Option RegisteredDevice)
    → (e ≡ true → f ≡ new)
    → (if m
        then or_found (if e then or_found o new else o) f
        else (if e then or_found o new else o))
      ≡ (if e || m then or_found o f else o)
or_found_again true true o new f h = rw (h refl) (or_found_twice o new)
or_found_again true false o new f h = rw (h refl) refl
or_found_again false true o new f h = refl
or_found_again false false o new f h = refl

module _ (opener : Opener) (attempts : ℕ) where
  add_all-IsDistinct :
      (ports : List String) (r : DeviceRegistry)
      → IsDistinct r.devices
      → IsDistinct (add_all opener attempts ports r).1.devices
  unfolding add_all
  add_all-IsDistinct [] r v = v
  add_all-IsDistinct (p ∷ ports) r v = elim (Result-cases (probe_port opener attempts p)) [
    | inl (e, failed) ↦ rw (failed, add_all) v
    | inr (new, e) ↦
        rw (e, add_all)
          (add_all-IsDistinct ports (add_device p new r) (add_device-IsDistinct p new r v))
  ]

  found_same :
      (p k : String) (new : Option RegisteredDevice)
      → probe_port opener attempts p ≡ ok new
      → str_eq p k ≡ true
      → found (probe_port opener attempts k) ≡ new
  found_same p k new e same =
      ap (λ z. found (probe_port opener attempts z)) (sym ((eq_iff p k).0 same)) ∙ ap found e

  add_all-err :
      (p : String) (ports : List String) (r : DeviceRegistry) {e : Error}
      → probe_port opener attempts p ≡ err e
      → add_all opener attempts (p ∷ ports) r ≡ (err e, r)
  unfolding add_all
  add_all-err p ports r e = rw (e, add_all) refl

  add_all-ok :
      (p : String) (ports : List String) (r : DeviceRegistry) {new : Option RegisteredDevice}
      → probe_port opener attempts p ≡ ok new
      → add_all opener attempts (p ∷ ports) r ≡ add_all opener attempts ports (add_device p new r)
  unfolding add_all
  add_all-ok p ports r e = rw (e, add_all) refl

  lookup-add_all :
      (k : String) (ports : List String) (r : DeviceRegistry)
      → (add_all opener attempts ports r).0 ≡ ok tt
      → lookup k (add_all opener attempts ports r).1.devices ≡ (
          if str_mem k ports
          then or_found (lookup k r.devices) (found (probe_port opener attempts k))
          else lookup k r.devices)
  unfolding add_all
  lookup-add_all k [] r done = refl
  lookup-add_all k (p ∷ ports) r done = elim (Result-cases (probe_port opener attempts p)) [
    | inl (e, failed) ↦ cc (sym done ∙ ap (λ o. o.0) (add_all-err p ports r failed))
    | inr (new, e) ↦
        ap (λ o. lookup k o.1.devices) (add_all-ok p ports r e)
        ∙ lookup-add_all k ports (add_device p new r)
            (sym (ap (λ o. o.0) (add_all-ok p ports r e)) ∙ done)
        ∙ rw (lookup-add_device k p new r) (
            or_found_again (str_eq p k) (str_mem k ports) (lookup k r.devices) new
              (found (probe_port opener attempts k)) (found_same p k new e))
  ]

or_found_scan :
    (present : Bool) (o f : Option RegisteredDevice)
    → (if is_known o && not present
        then none
        else (if present && not (is_known o) then or_found o f else o))
      ≡ (if present then or_found o f else none)
or_found_scan true none f = refl
or_found_scan true (some d) f = refl
or_found_scan false none f = refl
or_found_scan false (some d) f = refl

drop_absent-done :
    (ports : List String) (o : Result (Unit {0}) × DeviceRegistry)
    → (drop_absent ports o).0 ≡ ok tt
    → (o.0 ≡ ok tt) × (drop_absent ports o ≡ (ok tt, drop_all ports o.1))
unfolding drop_absent
drop_absent-done ports (ok _, r) done = (refl, refl)
drop_absent-done ports (err e, r) done = cc

-- A scan that does not fail implements its description: on a port that is listed the device that was
-- there stays, or the one that a probe finds comes; on any other port there is none afterwards. And
-- no port has two entries afterwards.
pub scan-refines :
    (opener : Opener) (attempts : ℕ) (present : List String) (r : DeviceRegistry)
    → IsDistinct r.devices
    → (scan opener attempts present r).0 ≡ ok tt
    → ((port : String)
        → devices_of (scan opener attempts present r).1 port
          ≡ scanned opener attempts present (devices_of r) port)
      × IsDistinct (scan opener attempts present r).1.devices
unfolding scan
scan-refines opener attempts present r v done =
    let known = keys r.devices in
    let gone = sorted_set (minus known present) in
    let new = sorted_set (minus present known) in
    let added = add_all opener attempts new r in
    let distinct = add_all-IsDistinct opener attempts new r v in
    let (added_ok, e) = drop_absent-done gone added done in
    (
      λ port.
          ap (λ o. lookup port o.1.devices) e
          ∙ lookup-drop_all port gone added.1 distinct
          ∙ rw
              (
                lookup-add_all opener attempts port new r added_ok,
                str_mem-sorted_set port (minus known present),
                str_mem-minus port known present,
                str_mem-sorted_set port (minus present known),
                str_mem-minus port present known,
                str_mem-keys port r.devices,
              )
              (or_found_scan (str_mem port present) (lookup port r.devices)
                (found (probe_port opener attempts port))),
      rw e (drop_all-IsDistinct gone added.1 distinct),
    )
