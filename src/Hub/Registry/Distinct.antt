-- ===== src/Hub/Registry/Distinct.antt =====
-- Proofs on the devices of hub/registry.py when no port has two entries.
use tsanet.Prelude.{
  String, ◌≡◌, refl, sym, ap, ◌∙◌, Bool, true, false, ◌||◌, Option, none, [], ◌∷◌, str_eq, eq_iff,
  Bool-cases, inl, inr, arith, if◌then◌else◌,
}
use tsanet.Prelude.Dict.{Dict, lookup, insert, remove, lookup-insert}
use tsanet.Hub.Registry.{RegisteredDevice}

-- No port has two entries.
abbrev pub IsDistinct : Dict RegisteredDevice → Type 0
IsDistinct [] = Unit
IsDistinct ((k, d) ∷ l) = (lookup k l ≡ none) × IsDistinct l

pub if_or :
    (e m : Bool) (o : Option RegisteredDevice)
    → (if m then none else (if e then none else o)) ≡ (if e || m then none else o)
if_or e m o = ground arith

pub lookup_same :
    (a b : String) (l : Dict RegisteredDevice) → str_eq a b ≡ true → lookup b l ≡ lookup a l
lookup_same a b l e = ap (λ z. lookup z l) (sym ((eq_iff a b).0 e))

same_right : (j p k : String) → str_eq j p ≡ true → str_eq j k ≡ str_eq p k
same_right j p k e = ap (λ z. str_eq z k) ((eq_iff j p).0 e)

other_key : (j p k : String) → str_eq j p ≡ false → str_eq j k ≡ true → str_eq p k ≡ false
other_key j p k h e = ground (arith, eq_iff j k, eq_iff p k, eq_iff j p)

pub lookup-remove :
    (k p : String) (l : Dict RegisteredDevice)
    → IsDistinct l
    → lookup k (remove p l) ≡ (if str_eq p k then none else lookup k l)
lookup-remove k p [] v = ground arith
lookup-remove k p ((j, d) ∷ l) (fresh, v) = elim (Bool-cases (str_eq j p)) [
  | inl e ↦ elim (Bool-cases (str_eq p k)) [
    | inl f ↦ rw (e, f) (lookup_same j k l (same_right j p k e ∙ f) ∙ fresh)
    | inr f ↦ rw (e, f, same_right j p k e ∙ f) refl
  ]
  | inr e ↦ elim (Bool-cases (str_eq j k)) [
    | inl f ↦ rw (e, f, other_key j p k e f) refl
    | inr f ↦ rw (e, f) (lookup-remove k p l v)
  ]
]

pub remove-IsDistinct :
    (p : String) (l : Dict RegisteredDevice) → IsDistinct l → IsDistinct (remove p l)
remove-IsDistinct p [] v = tt
remove-IsDistinct p ((j, d) ∷ l) (fresh, v) = elim (Bool-cases (str_eq j p)) [
  | inl e ↦ rw e v
  | inr e ↦ rw e (lookup-remove j p l v ∙ ground (arith, fresh), remove-IsDistinct p l v)
]

pub insert-IsDistinct :
    (p : String) (d : RegisteredDevice) (l : Dict RegisteredDevice)
    → lookup p l ≡ none
    → IsDistinct l
    → IsDistinct (insert p d l)
insert-IsDistinct p d [] free v = (refl, tt)
insert-IsDistinct p d ((j, e) ∷ l) free (fresh, v) = elim (Bool-cases (str_eq j p)) [
  | inl same ↦ rw same (fresh, v)
  | inr other ↦ rw other (
    lookup-insert p j d l ∙ ground (arith, fresh, other, eq_iff p j, eq_iff j p),
    insert-IsDistinct p d l (ground (arith, free, other)) v,
  )
]
