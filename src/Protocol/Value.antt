-- ===== src/Protocol/Value.antt =====
-- The values that travel in a message: what `msgpack.unpackb` returns. The keys of a map are text;
-- a float stands for itself by its `repr`, which determines it.
pub mod Text
pub mod Access
pub mod Same
use tsanet.Prelude.{
  ℕ, zero, String, Bool, true, false, not, ◌||◌, Option, none, some, List, [], str_eq,
}
use tsanet.Prelude.{if◌then◌else◌}
use tsanet.Prelude.Int.{ℤ, pos}

mutual
  pub data Value : Type 0 where
    null : Value
    bool : Bool → Value
    int : ℤ → Value
    float : String → Value
    text : String → Value
    bytes : List ℕ → Value
    list : Items → Value
    dict : Fields → Value

  pub data Items : Type 0 where
    nil : Items
    cons : Value → Items → Items

  pub data Fields : Type 0 where
    end : Fields
    field : String → Value → Fields → Fields

-- `d.get(k)`
abbrev pub get? : String → Fields → Option Value
get? k end = none
get? k (field j v rest) = if str_eq j k then some v else get? k rest

-- `d.get(k, default)`
abbrev pub get_or : String → Value → Fields → Value
get_or k default d = elim (get? k d) [ none ↦ default | some v ↦ v ]

-- `bool(v)`, the test of `v or ...` and `not v`
abbrev pub is_truthy : Value → Bool
is_truthy null = false
is_truthy (bool b) = b
is_truthy (int (pos zero)) = false
is_truthy (int _) = true
is_truthy (float r) = not (str_eq r "0.0" || str_eq r "-0.0")
is_truthy (text s) = not (str_eq s "")
is_truthy (bytes []) = false
is_truthy (bytes _) = true
is_truthy (list nil) = false
is_truthy (list _) = true
is_truthy (dict end) = false
is_truthy (dict _) = true

-- `v == "s"`
abbrev pub is_text : Value → String → Bool
is_text (text t) s = str_eq t s
is_text _ s = false
