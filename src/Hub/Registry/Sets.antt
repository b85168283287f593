-- ===== src/Hub/Registry/Sets.antt =====
-- Proofs on the sets of ports that `DeviceRegistry.scan` of hub/registry.py computes with.
use Prim.Native.String.{compare}
use Prim.Native.Nat.{Ordering}
use text.Mathlib.TextEquality.{path_by_compare}
use tsanet.Prelude.{
  String, ◌≡◌, refl, sym, ap, ◌∙◌, Bool, true, false, not, ◌&&◌, ◌||◌, List, [], ◌∷◌, str_eq,
  str_mem, eq_iff, Option, none, some, Bool-cases, inl, inr, arith,
}
use tsanet.Prelude.Dict.{Dict, lookup}
use tsanet.Hub.Registry.{RegisteredDevice, insert_sorted, sorted_set, keys, minus}

-- The same texts compare the same.
same_mem : (k x : String) (l : List String) → str_eq x k ≡ true → str_mem k l ≡ str_mem x l
same_mem k x l e = ap (λ z. str_mem z l) (sym ((eq_iff x k).0 e))

str_mem-ordered :
    (k : String) (o : Ordering) (a b c : List String) (t : Bool)
    → str_mem k a ≡ t
    → (o ≡ Ordering.eq → str_mem k b ≡ t)
    → str_mem k c ≡ t
    → str_mem k (elim o [ Ordering.lt ↦ a | Ordering.eq ↦ b | Ordering.gt ↦ c ]) ≡ t
str_mem-ordered k Ordering.lt a b c t ha hb hc = ha
str_mem-ordered k Ordering.eq a b c t ha hb hc = hb refl
str_mem-ordered k Ordering.gt a b c t ha hb hc = hc

or_swap : (a b c : Bool) → (a || (b || c)) ≡ (b || (a || c))
or_swap a b c = ground arith

or_same : (a c : Bool) → (a || c) ≡ (a || (a || c))
or_same a c = ground arith

str_mem-insert_sorted :
    (k p : String) (l : List String) → str_mem k (insert_sorted p l) ≡ (str_eq p k || str_mem k l)
unfolding insert_sorted
str_mem-insert_sorted k p [] = refl
str_mem-insert_sorted k p (q ∷ l) =
    str_mem-ordered k (compare p q) (p ∷ q ∷ l) (q ∷ l) (q ∷ insert_sorted p l)
      (str_eq p k || (str_eq q k || str_mem k l)) refl
      (λ e.
        or_same (str_eq q k) (str_mem k l)
        ∙ ap (λ z. str_eq z k || (str_eq q k || str_mem k l)) (sym (path_by_compare p q e)))
      (ap (λ b. str_eq q k || b) (str_mem-insert_sorted k p l)
        ∙ or_swap (str_eq q k) (str_eq p k) (str_mem k l))

-- `sorted` of a set loses no port and adds none.
pub str_mem-sorted_set : (k : String) (l : List String) → str_mem k (sorted_set l) ≡ str_mem k l
unfolding sorted_set
str_mem-sorted_set k [] = refl
str_mem-sorted_set k (p ∷ l) =
    str_mem-insert_sorted k p (sorted_set l) ∙ ap (λ b. str_eq p k || b) (str_mem-sorted_set k l)

pub str_mem-minus :
    (k : String) (xs ys : List String)
    → str_mem k (minus xs ys) ≡ (str_mem k xs && not (str_mem k ys))
str_mem-minus k [] ys = refl
str_mem-minus k (x ∷ xs) ys = elim (Bool-cases (str_mem x ys)) [
  | inl shared ↦ elim (Bool-cases (str_eq x k)) [
    | inl e ↦ ground (arith, shared, e, same_mem k x ys e, str_mem-minus k xs ys)
    | inr e ↦ ground (arith, shared, e, str_mem-minus k xs ys)
  ]
  | inr gone ↦ elim (Bool-cases (str_eq x k)) [
    | inl e ↦ ground (arith, gone, e, same_mem k x ys e, str_mem-minus k xs ys)
    | inr e ↦ ground (arith, gone, e, str_mem-minus k xs ys)
  ]
]

-- Whether there is a device.
abbrev pub is_known : Option RegisteredDevice → Bool
is_known none = false
is_known (some d) = true

pub str_mem-keys :
    (k : String) (l : Dict RegisteredDevice) → str_mem k (keys l) ≡ is_known (lookup k l)
str_mem-keys k [] = refl
str_mem-keys k ((j, d) ∷ l) = ground (arith, str_mem-keys k l)
