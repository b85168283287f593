-- ===== src/Controller/Stats/Arithmetic.antt =====
-- The floats that controller/stats.py computes with.
use tsanet.Prelude.{ℕ, String, Bool, List}
use tsanet.Errors.{Result}

-- Python's floats: `a + b`, `a - b`, `a * b`, `a / b`, `a / n`, `a < b`, `a <= b`, a literal, `sum`,
-- and what may raise: `10 ** x`, `x ** 2`, `math.log10` and `math.sqrt`.
pub record Reals : Type 1 where
  pub F : Type 0
  pub add : F → F → F
  pub subtract : F → F → F
  pub times : F → F → F
  pub divide : F → F → Result F
  pub over : F → ℕ → F
  pub less : F → F → Bool
  pub at_most : F → F → Bool
  pub literal : String → F
  pub sum : List F → F
  pub power_of_ten : F → Result F
  pub square : F → Result F
  pub log10 : F → Result F
  pub sqrt : F → Result F
