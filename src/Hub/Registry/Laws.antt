-- ===== src/Hub/Registry/Laws.antt =====
-- Proofs on the handles that hub/registry.py holds.
use tsanet.Prelude.{
  String, ◌≡◌, ◌≢◌, refl, sym, ◌∙◌, some, [], ◌∷◌, str_eq, eq_iff, Bool-cases, arith, inl, inr,
}
use tsanet.Errors.{ok}
use mathlib.Core.Option
use tsanet.Prelude.Dict.{Dict}
use tsanet.Device.Link.{TinySa}
use tsanet.Hub.Registry.{RegisteredDevice, DeviceRegistry, find, get, update, put_transport}

module _ (tx : TinySa) (id other : String) (apart : id ≢ other) where
  find-update_ne :
      (l : Dict RegisteredDevice)
      → find other (update (λ d. record d { transport = tx }) id l) ≡ find other l
  unfolding find update
  find-update_ne [] = refl
  find-update_ne ((k, d) ∷ l) = elim (Bool-cases (str_eq d.device_id id)) [
    | inl mine ↦ elim (Bool-cases (str_eq d.device_id other)) [
      | inl both ↦
          absurd (apart (sym ((eq_iff d.device_id id).0 mine) ∙ (eq_iff d.device_id other).0 both))
      | inr not_other ↦ rw (mine, not_other, update, find) refl
    ]
    | inr not_mine ↦ elim (Bool-cases (str_eq d.device_id other)) [
      | inl theirs ↦ rw (not_mine, theirs, update, find) refl
      | inr not_other ↦ rw (not_mine, not_other, update, find) (find-update_ne l)
    ]
  ]

  -- The handle of one device is put back, and every other device is as it was.
  pub get-put_transport_ne : (r : DeviceRegistry) → get other (put_transport tx id r) ≡ get other r
  unfolding get put_transport
  get-put_transport_ne r = rw (find-update_ne r.devices, get) refl

module _ (tx : TinySa) (id : String) where
  find-update_eq :
      (l : Dict RegisteredDevice)
      → find id (update (λ d. record d { transport = tx }) id l)
        ≡ Option.map {A = RegisteredDevice} (λ d. record d { transport = tx }) (find id l)
  unfolding find update
  find-update_eq [] = refl
  find-update_eq ((k, d) ∷ l) = elim (Bool-cases (str_eq d.device_id id)) [
    | inl mine ↦ rw (mine, update, find) (rw mine refl)
    | inr other ↦ rw (other, update, find) (rw other (find-update_eq l))
  ]

  find-get :
      (r : DeviceRegistry) (d : RegisteredDevice) → get id r ≡ ok d → find id r.devices ≡ some d
  unfolding get
  find-get r d e = ground arith

  -- The device's entry has the handle that was put back, and is otherwise as it was.
  pub get-put_transport_eq :
      (r : DeviceRegistry) (d : RegisteredDevice)
      → get id r ≡ ok d
      → get id (put_transport tx id r) ≡ ok (record d { transport = tx })
  unfolding get put_transport
  get-put_transport_eq r d e = rw (find-update_eq r.devices, find-get r d e, get) refl
