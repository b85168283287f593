-- ===== src/Hub/Registry/Keyed.antt =====
-- Proofs on the devices of hub/registry.py that stand under their own id.
use mathlib.Core.Path.{subst}
use tsanet.Prelude.{
  ℕ, String, ◌≡◌, refl, sym, ap, ◌∙◌, false, Option, none, some, List, [], ◌∷◌, str_eq, str_mem,
  eq_iff, Bool-cases, Option-cases, inl, inr, if◌then◌else◌,
}
use tsanet.Prelude.Dict.{Dict, lookup, insert, remove}
use tsanet.Errors.{Result, Result-cases, ok, err, raise_error, Kind}
use tsanet.Protocol.Value.Text.{repr_text}
use tsanet.Device.Discovery.{Opener, probe, is_open_failure}
use tsanet.Device.Model.{DeviceInfo}
use tsanet.Device.Link.{TinySa}
use tsanet.Hub.Registry.{
  RegisteredDevice, DeviceRegistry, sorted_set, keys, minus, find, get, drop, opened, probe_port,
  add_device, add_all, drop_all, drop_absent, scan,
}
use tsanet.Hub.Registry.Distinct.{IsDistinct}
use tsanet.Hub.Registry.Refines.{scan-refines}

-- Every device stands under its id.
abbrev pub IsKeyed : Dict RegisteredDevice → Type 0
IsKeyed [] = Unit
IsKeyed ((k, d) ∷ l) = (k ≡ d.device_id) × IsKeyed l

find-lookup : (id : String) (l : Dict RegisteredDevice) → IsKeyed l → find id l ≡ lookup id l
unfolding find
find-lookup id [] v = refl
find-lookup id ((k, d) ∷ l) (same, v) =
    ap (λ z. if str_eq z id then some d else find id l) (sym same)
    ∙ ap (λ o. if str_eq k id then some d else o) (find-lookup id l v)

remove-IsKeyed : (p : String) (l : Dict RegisteredDevice) → IsKeyed l → IsKeyed (remove p l)
remove-IsKeyed p [] v = tt
remove-IsKeyed p ((j, d) ∷ l) (same, v) = elim (Bool-cases (str_eq j p)) [
  | inl e ↦ rw e v
  | inr e ↦ rw e (same, remove-IsKeyed p l v)
]

insert-IsKeyed :
    (p : String) (d : RegisteredDevice) (l : Dict RegisteredDevice)
    → p ≡ d.device_id
    → IsKeyed l
    → IsKeyed (insert p d l)
insert-IsKeyed p d [] own v = (own, tt)
insert-IsKeyed p d ((j, d') ∷ l) own (same, v) = elim (Bool-cases (str_eq j p)) [
  | inl e ↦ rw e ((eq_iff j p).0 e ∙ own, v)
  | inr e ↦ rw e (same, insert-IsKeyed p d l own v)
]

drop-IsKeyed : (p : String) (r : DeviceRegistry) → IsKeyed r.devices → IsKeyed (drop p r).devices
unfolding drop
drop-IsKeyed p r v = elim (Option-cases (lookup p r.devices)) [
  | inl unknown ↦ rw (unknown, drop) v
  | inr (d, known) ↦ rw (known, drop) (remove-IsKeyed p r.devices v)
]

drop_all-IsKeyed :
    (ports : List String) (r : DeviceRegistry)
    → IsKeyed r.devices
    → IsKeyed (drop_all ports r).devices
unfolding drop_all
drop_all-IsKeyed [] r v = v
drop_all-IsKeyed (p ∷ ports) r v = drop_all-IsKeyed ports (drop p r) (drop-IsKeyed p r v)

-- What a probe of a port finds has the port as its id.
abbrev IsAt : String → Result (Option RegisteredDevice) → Type 0
IsAt port (ok (some d)) = port ≡ d.device_id
IsAt port (ok none) = Unit
IsAt port (err e) = Unit

opened-IsAt :
    (port : String) (info : DeviceInfo) (r : Result TinySa) → IsAt port (opened port info r)
unfolding opened
opened-IsAt port info (ok transport) = refl
opened-IsAt port info (err e) = elim (Bool-cases (is_open_failure e.kind)) [
  | inl closed ↦ rw (closed, opened) tt
  | inr other ↦ rw (other, opened) tt
]

probe_port-IsAt :
    (opener : Opener) (attempts : ℕ) (port : String) → IsAt port (probe_port opener attempts port)
unfolding probe_port
probe_port-IsAt opener attempts port = elim (Result-cases (probe opener port 0 attempts)) [
  | inl (e, failed) ↦ rw (failed, probe_port) tt
  | inr (none, absent) ↦ rw (absent, probe_port) tt
  | inr (some info, answered) ↦
      rw (answered, probe_port) (opened-IsAt port info (opener port attempts))
]

add_device-IsKeyed :
    (p : String) (new : Option RegisteredDevice) (r : DeviceRegistry)
    → IsAt p (ok new)
    → IsKeyed r.devices
    → IsKeyed (add_device p new r).devices
unfolding add_device
add_device-IsKeyed p none r own v = v
add_device-IsKeyed p (some d) r own v = elim (Option-cases (lookup p r.devices)) [
  | inl free ↦ rw (free, add_device) (insert-IsKeyed p d r.devices own v)
  | inr (old, taken) ↦ rw (taken, add_device) v
]

module _ (opener : Opener) (attempts : ℕ) where
  add_all-IsKeyed :
      (ports : List String) (r : DeviceRegistry)
      → IsKeyed r.devices
      → IsKeyed (add_all opener attempts ports r).1.devices
  unfolding add_all
  add_all-IsKeyed [] r v = v
  add_all-IsKeyed (p ∷ ports) r v = elim (Result-cases (probe_port opener attempts p)) [
    | inl (e, failed) ↦ rw (failed, add_all) v
    | inr (new, e) ↦
        rw (e, add_all)
          (add_all-IsKeyed ports (add_device p new r)
            (add_device-IsKeyed p new r (subst (IsAt p) e (probe_port-IsAt opener attempts p)) v))
  ]

  drop_absent-IsKeyed :
      (ports : List String) (o : Result (Unit {0}) × DeviceRegistry)
      → IsKeyed o.1.devices
      → IsKeyed (drop_absent ports o).1.devices
  unfolding drop_absent
  drop_absent-IsKeyed ports (ok _, r) v = drop_all-IsKeyed ports r v
  drop_absent-IsKeyed ports (err e, r) v = v

  pub scan-IsKeyed :
      (present : List String) (r : DeviceRegistry)
      → IsKeyed r.devices
      → IsKeyed (scan opener attempts present r).1.devices
  unfolding scan
  scan-IsKeyed present r v =
      let known = keys r.devices in
      let added = add_all opener attempts (sorted_set (minus present known)) r in
      drop_absent-IsKeyed (sorted_set (minus known present)) added
        (add_all-IsKeyed (sorted_set (minus present known)) r v)

  -- A scan leaves no device under an id that is no port in the list.
  pub get-scan :
      (present : List String) (r : DeviceRegistry) (id : String)
      → IsDistinct r.devices
      → IsKeyed r.devices
      → (scan opener attempts present r).0 ≡ ok tt
      → str_mem id present ≡ false
      → get id (scan opener attempts present r).1 ≡ raise_error Kind.key_error (repr_text id)
  unfolding get
  get-scan present r id distinct keyed done gone =
      let r' = (scan opener attempts present r).1 in
      let empty : lookup id r'.devices ≡ none =
        (scan-refines opener attempts present r distinct done).0 id ∙ rw gone refl in
      rw (find-lookup id r'.devices (scan-IsKeyed present r keyed) ∙ empty, get) refl
