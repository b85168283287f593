-- ===== src/Hub/Registry/Scan.antt =====
-- Proofs on `DeviceRegistry.scan` of hub/registry.py.
use tsanet.Prelude.{
  ℕ, zero, suc, ◌+◌, String, ◌≡◌, refl, sym, ap, ap₂, ◌∙◌, if◌then◌else◌, true, false, Option, none,
  some, List, [], ◌∷◌, str_eq, str_mem, eq_iff, Bool-cases, Option-cases, inl, inr, arith,
}
use tsanet.Prelude.Dict.{Dict, lookup, insert, remove, lookup-insert}
use tsanet.Errors.{Result, Result-cases, ok, err, is_device_error}
use tsanet.Device.Model.{DeviceInfo}
use tsanet.Device.Link.{TinySa}
use tsanet.Device.Discovery.{Opener, probe, version_of, is_open_failure}
use tsanet.Hub.Registry.Sets.{str_mem-sorted_set, str_mem-minus, str_mem-keys}
use tsanet.Hub.Registry.{
  RegisteredDevice, DeviceRegistry, sorted_set, keys, minus, drop, opened, probe_port, add_device,
  add_all, drop_all, drop_absent, scan,
}

not_mem-head : (k x : String) (l : List String) → str_mem k (x ∷ l) ≡ false → str_eq x k ≡ false
not_mem-head k x l out = ground arith

not_mem-tail : (k x : String) (l : List String) → str_mem k (x ∷ l) ≡ false → str_mem k l ≡ false
not_mem-tail k x l out = ground arith

not_dropped :
    (k : String) (known present : List String)
    → str_mem k present ≡ true
    → str_mem k (sorted_set (minus known present)) ≡ false
not_dropped k known present listed =
    ground (arith, str_mem-sorted_set k (minus known present), str_mem-minus k known present)

-- The registry holds the device under its port.
abbrev pub Holds : String → RegisteredDevice → DeviceRegistry → Type 0
Holds port d r = lookup port r.devices ≡ some d

lookup-insert_kept :
    (k p : String) (d e : RegisteredDevice) (l : Dict RegisteredDevice)
    → lookup k l ≡ some d
    → lookup p l ≡ none
    → lookup k (insert p e l) ≡ some d
lookup-insert_kept k p d e l h free = lookup-insert p k e l ∙ elim (Bool-cases (str_eq p k)) [
  | inl same ↦ cc (sym free ∙ ap (λ z. lookup z l) ((eq_iff p k).0 same) ∙ h)
  | inr other ↦ rw other h
]

lookup-remove_ne :
    (k p : String) (l : Dict RegisteredDevice)
    → str_eq p k ≡ false
    → lookup k (remove p l) ≡ lookup k l
lookup-remove_ne k p [] ne = refl
lookup-remove_ne k p ((j, v) ∷ l) ne = elim (Bool-cases (str_eq j p)) [
  | inl same ↦ rw (same, ap (λ z. str_eq z k) ((eq_iff j p).0 same) ∙ ne) refl
  | inr other ↦ elim (Bool-cases (str_eq j k)) [
    | inl mine ↦ rw (other, mine) refl
    | inr not_mine ↦ rw (other, not_mine) (lookup-remove_ne k p l ne)
  ]
]

add_device-Holds :
    (k p : String) (d : RegisteredDevice) (new : Option RegisteredDevice) (r : DeviceRegistry)
    → Holds k d r
    → Holds k d (add_device p new r)
unfolding add_device
add_device-Holds k p d none r h = h
add_device-Holds k p d (some e) r h = elim (Option-cases (lookup p r.devices)) [
  | inl free ↦ rw (free, add_device) (lookup-insert_kept k p d e r.devices h free)
  | inr (known, taken) ↦ rw (taken, add_device) h
]

add_all-Holds :
    (opener : Opener) (attempts : ℕ) (k : String) (d : RegisteredDevice) (ports : List String)
    (r : DeviceRegistry)
    → Holds k d r
    → Holds k d (add_all opener attempts ports r).1
unfolding add_all
add_all-Holds opener attempts k d [] r h = h
add_all-Holds opener attempts k d (p ∷ ports) r h =
    elim (Result-cases (probe_port opener attempts p)) [
      | inl (e, failed) ↦ rw (failed, add_all) h
      | inr (new, found) ↦
          rw (found, add_all)
            (add_all-Holds opener attempts k d ports (add_device p new r)
              (add_device-Holds k p d new r h))
    ]

drop-Holds :
    (k p : String) (d : RegisteredDevice) (r : DeviceRegistry)
    → str_eq p k ≡ false
    → Holds k d r
    → Holds k d (drop p r)
unfolding drop
drop-Holds k p d r ne h = elim (Option-cases (lookup p r.devices)) [
  | inl unknown ↦ rw (unknown, drop) h
  | inr (gone, e) ↦ rw (e, drop) (lookup-remove_ne k p r.devices ne ∙ h)
]

drop_all-Holds :
    (k : String) (d : RegisteredDevice) (ports : List String) (r : DeviceRegistry)
    → str_mem k ports ≡ false
    → Holds k d r
    → Holds k d (drop_all ports r)
unfolding drop_all
drop_all-Holds k d [] r out h = h
drop_all-Holds k d (p ∷ ports) r out h =
    drop_all-Holds k d ports (drop p r) (not_mem-tail k p ports out)
      (drop-Holds k p d r (not_mem-head k p ports out) h)

drop_absent-Holds :
    (k : String) (d : RegisteredDevice) (ports : List String)
    (o : Result (Unit {0}) × DeviceRegistry)
    → str_mem k ports ≡ false
    → Holds k d o.1
    → Holds k d (drop_absent ports o).1
unfolding drop_absent
drop_absent-Holds k d ports (ok u, r) out h = drop_all-Holds k d ports r out h
drop_absent-Holds k d ports (err e, r) out h = h

-- Two ways to open ports that differ only on one port.
abbrev pub Agree : String → Opener → Opener → Type 0
Agree port opener other = (p : String) → str_eq p port ≡ false → (n : ℕ) → opener p n ≡ other p n

-- An attempt to probe, with what opening the port came to and what the next attempts come to.
attempted : Result TinySa → Result (Option DeviceInfo) → Result (Option DeviceInfo)
attempted (err e) again = if is_open_failure e.kind then ok none else err e
attempted (ok tx) again = elim (version_of tx) [
  | ok info ↦ ok (some info)
  | err e ↦ if is_device_error e.kind then again else err e
]

probe-attempted :
    (opener : Opener) (p : String) (n left : ℕ)
    → probe opener p n (suc left) ≡ attempted (opener p n) (probe opener p (n + 1) left)
unfolding probe attempted
probe-attempted opener p n left = elim (Result-cases (opener p n)) [
  | inl (e, failed) ↦ rw (failed, probe, attempted) refl
  | inr (tx, works) ↦ rw (works, probe, attempted) refl
]

probe-Agree :
    (opener other : Opener) (p : String) (n left : ℕ)
    → ((n : ℕ) → opener p n ≡ other p n)
    → probe opener p n left ≡ probe other p n left
unfolding probe
probe-Agree opener other p n zero h = refl
probe-Agree opener other p n (suc left) h =
    probe-attempted opener p n left
    ∙ ap₂ attempted (h n) (probe-Agree opener other p (n + 1) left h)
    ∙ sym (probe-attempted other p n left)

probe_port-Agree :
    (opener other : Opener) (attempts : ℕ) (p : String)
    → ((n : ℕ) → opener p n ≡ other p n)
    → probe_port opener attempts p ≡ probe_port other attempts p
unfolding probe_port
probe_port-Agree opener other attempts p h =
    let same = probe-Agree opener other p 0 attempts h in
    elim (Result-cases (probe other p 0 attempts)) [
      | inl (e, failed) ↦ rw (same ∙ failed, failed, probe_port) refl
      | inr (none, found) ↦ rw (same ∙ found, found, probe_port) refl
      | inr (some info, found) ↦
          rw (same ∙ found, found, probe_port) (ap (opened p info) (h attempts))
    ]

add_all-Agree :
    (opener other : Opener) (attempts : ℕ) (port : String) (ports : List String)
    (r : DeviceRegistry)
    → Agree port opener other
    → str_mem port ports ≡ false
    → add_all opener attempts ports r ≡ add_all other attempts ports r
unfolding add_all
add_all-Agree opener other attempts port [] r h out = refl
add_all-Agree opener other attempts port (p ∷ ports) r h out =
    let same = probe_port-Agree opener other attempts p (h p (not_mem-head port p ports out)) in
    elim (Result-cases (probe_port other attempts p)) [
      | inl (e, failed) ↦ rw (same, failed, add_all) refl
      | inr (new, found) ↦
          rw (same, found, add_all)
            (add_all-Agree opener other attempts port ports (add_device p new r) h
              (not_mem-tail port p ports out))
    ]

not_opened :
    (port : String) (present : List String) (r : DeviceRegistry) (d : RegisteredDevice)
    → Holds port d r
    → str_mem port (sorted_set (minus present (keys r.devices))) ≡ false
not_opened port present r d h =
    str_mem-sorted_set port (minus present (keys r.devices))
    ∙ str_mem-minus port present (keys r.devices)
    ∙ rw (str_mem-keys port r.devices) (rw h (ground arith))

-- A scan keeps every device whose port is still listed, as it was: it is neither dropped nor opened a
-- second time, whatever is found or fails on the other ports. That its port is not opened is said by
-- what the scan comes to: it is the same however that port would open.
pub scan-Holds :
    (opener other : Opener) (attempts : ℕ) (present : List String) (r : DeviceRegistry)
    (port : String) (d : RegisteredDevice)
    → str_mem port present ≡ true
    → Holds port d r
    → Agree port opener other
    → Holds port d (scan opener attempts present r).1
      × (scan opener attempts present r ≡ scan other attempts present r)
unfolding scan
scan-Holds opener other attempts present r port d listed h same =
    let known = keys r.devices in
    (
      drop_absent-Holds port d (sorted_set (minus known present))
          (add_all opener attempts (sorted_set (minus present known)) r)
          (not_dropped port known present listed)
          (add_all-Holds opener attempts port d (sorted_set (minus present known)) r h),
      ap (drop_absent (sorted_set (minus known present))) (
          add_all-Agree opener other attempts port (sorted_set (minus present known)) r same
            (not_opened port present r d h)),
    )
