-- ===== src/Protocol/Value/Access.antt =====
-- What the handlers do with a value of unknown type: indexing, membership, iteration, comparison.
use tsanet.Prelude.{
  String, Bool, false, Option, none, some, List, [], ◌∷◌, map, str_mem, if◌then◌else◌,
}
use tsanet.Prelude.Int.{ℤ, pos, ltb_ℤ}
use tsanet.Errors.{Kind, Result, ok, err, raise_error}
use tsanet.Protocol.Value.{
  Value, Items, Fields, bool, int, float, text, bytes, list, dict, nil, cons, end, field, get?,
  get_or,
}
use tsanet.Protocol.Value.Text.{repr_text}

-- `v[k]`
unfoldable pub index : String → Value → Result Value
index k (dict d) = elim (get? k d) [
  | none ↦ raise_error Kind.key_error (repr_text k)
  | some v ↦ ok v
]
index k _ = raise_error Kind.type_error "not subscriptable by text"

-- `v.get(k, default)`
unfoldable pub get_field : String → Value → Value → Result Value
get_field k default (dict d) = ok (get_or k default d)
get_field k default _ = raise_error Kind.attribute_error "object has no attribute 'get'"

-- `v in names`, for a frozenset of texts
unfoldable pub is_member : Value → List String → Result Bool
is_member (text s) names = ok (str_mem s names)
is_member (list _) names = raise_error Kind.type_error "unhashable type: 'list'"
is_member (dict _) names = raise_error Kind.type_error "unhashable type: 'dict'"
is_member _ names = ok false

pub items : Items → List Value
items nil = []
items (cons v rest) = v ∷ items rest

keys : Fields → List Value
keys end = []
keys (field k v rest) = text k ∷ keys rest

chars : String → List Value
chars String.[] = []
chars (String.◌∷◌ c s) = text (String.◌∷◌ c "") ∷ chars s

-- `for x in v`
unfoldable pub iterate : Value → Result (List Value)
unfolding items keys chars
iterate (list xs) = ok (items xs)
iterate (dict d) = ok (keys d)
iterate (text s) = ok (chars s)
iterate (bytes b) = ok (map (λ n. int (pos n)) b)
iterate _ = raise_error Kind.type_error "object is not iterable"

-- A number that takes part in a comparison.
pub data Number : Type 0 where
  exact : ℤ → Number
  approximate : String → Number

unfoldable pub number_of : Value → Option Number
number_of (int n) = some (exact n)
number_of (bool b) = some (exact (if b then pos 1 else pos 0))
number_of (float r) = some (approximate r)
number_of _ = none

-- Floating point, which the language has no type for: the operations that the code uses, on floats
-- that are given by their `repr`.
pub record Floats : Type 0 where
  -- `a > b` where one of the two is a float
  pub greater : Number → Number → Bool
  -- `float(token)`; `none` is the `ValueError`
  pub float_of : String → Option String
  -- `int(x)`
  pub int_of : String → Result ℤ
  -- `round(now - then, 3)`
  pub elapsed : String → String → String

module _ (floats : Floats) where
  number_gt : Number → Number → Bool
  number_gt (exact a) (exact b) = ltb_ℤ b a
  number_gt a b = floats.greater a b

  compared : Option Number → Option Number → Result Bool
  unfolding number_gt
  compared (some a) (some b) = ok (number_gt a b)
  compared _ _ = raise_error Kind.type_error "'>' not supported"

  -- `a > b`
  unfoldable pub value_gt : Value → Value → Result Bool
  unfolding compared number_of
  value_gt a b = compared (number_of a) (number_of b)

  -- `max(a, b)`: the first, unless the second is greater. Two values of one type that is no number
  -- are refused here, and not by the comparison that the code makes next.
  unfoldable pub value_max : Value → Value → Result Value
  unfolding value_gt
  value_max a b = elim (value_gt b a) [ err e ↦ err e | ok more ↦ ok (if more then b else a) ]
