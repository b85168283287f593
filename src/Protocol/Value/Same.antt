-- ===== src/Protocol/Value/Same.antt =====
-- Whether two of the values that protocol/messages.py puts into a message are the same, with the
-- equation if they are: for the packers of the examples.
use tsanet.Prelude.{String, ◌≡◌, refl, ap, Bool, true, false, Option, none, some, str_eq, eq_iff}
use tsanet.Prelude.Int.{ℤ, eq_ℤ, eq_ℤ_iff}
use tsanet.Protocol.Value.{Value, Fields, null, bool, int, text, dict, end, field}

unfoldable pub same_text : (a b : String) (t : Bool) → str_eq a b ≡ t → Option (a ≡ b)
same_text a b true e = some ((eq_iff a b).0 e)
same_text a b false e = none

unfoldable pub same_int : (a b : ℤ) (t : Bool) → eq_ℤ a b ≡ t → Option (a ≡ b)
same_int a b true e = some ((eq_ℤ_iff a b).0 e)
same_int a b false e = none

unfoldable mutual
  -- Nulls, Booleans, integers, texts and maps; other values count as different.
  pub same : (v w : Value) → Option (v ≡ w)
  same null null = some refl
  same (bool true) (bool true) = some refl
  same (bool false) (bool false) = some refl
  same (int a) (int b) = elim (same_int a b (eq_ℤ a b) refl) [
    | some e ↦ some (ap int e)
    | none ↦ none
  ]
  same (text a) (text b) = elim (same_text a b (str_eq a b) refl) [
    | some e ↦ some (ap text e)
    | none ↦ none
  ]
  same (dict f) (dict g) = elim (same_fields f g) [ some e ↦ some (ap dict e) | none ↦ none ]
  same _ _ = none

  pub same_fields : (f g : Fields) → Option (f ≡ g)
  same_fields end end = some refl
  same_fields (field k v f) (field l w g) = elim (same_text k l (str_eq k l) refl) [
    | some e ↦ elim (same v w) [
      | some e' ↦ elim (same_fields f g) [
        | some e'' ↦ some (λ i. field (e i) (e' i) (e'' i))
        | none ↦ none
      ]
      | none ↦ none
    ]
    | none ↦ none
  ]
  same_fields _ _ = none
