-- ===== src/Controller/Stats/Power.antt =====
-- controller/stats.py: averages, powers and levels of a list of values.
use tsanet.Prelude.{
  ℕ, zero, suc, ◌-◌, ◌/◌, ◌%◌, String, Bool, List, [], ◌∷◌, map, length, fstring, str_eq, str_mem,
  ◌==◌, if◌then◌else◌,
}
use tsanet.Errors.{Kind, Result, ok, raise_error}
use tsanet.Errors.Chain.{◌>>=◌}
use tsanet.Protocol.Value.Text.{repr_text}
use tsanet.Controller.Stats.Arithmetic.{Reals}

module _ (reals : Reals) where
  -- A list comprehension whose element may raise.
  each : (reals.F → Result reals.F) → List reals.F → Result (List reals.F)
  each f [] = ok []
  each f (v ∷ vs) = do x ← f v; xs ← each f vs; ok (x ∷ xs)

  is_voltage_ratio : String → Bool
  is_voltage_ratio unit = str_mem unit ("dBmV" ∷ "dBuV" ∷ [])

  is_voltage : String → Bool
  is_voltage unit = str_mem unit ("V" ∷ "Vpp" ∷ [])

  is_ratio : String → Bool
  is_ratio unit = str_mem unit ("dBm" ∷ "dBmV" ∷ "dBuV" ∷ [])

  -- `10 ** (v / n)`
  raised_by : ℕ → reals.F → Result reals.F
  raised_by n v = reals.power_of_ten (reals.over v n)

  -- `factor * math.log10(x)`
  decibels : String → reals.F → Result reals.F
  decibels factor x = do l ← reals.log10 x; ok (reals.times (reals.literal factor) l)

  mean : List reals.F → reals.F
  mean xs = reals.over (reals.sum xs) (length xs)

  -- `_average(values, unit)`
  unfoldable pub average : List reals.F → String → Result reals.F
  unfolding each is_voltage_ratio is_voltage raised_by decibels mean
  average values unit =
      if str_eq unit "dBm"
      then (do lin ← each (raised_by 10) values; decibels "10" (mean lin))
      else if is_voltage_ratio unit
      then (do
        sq ← each (λ v. do x ← raised_by 20 v; reals.square x) values
        rms ← reals.sqrt (mean sq)
        decibels "20" rms)
      else if is_voltage unit
      then (do sq ← each reals.square values; reals.sqrt (mean sq))
      else ok (mean values)

  -- `sorted(values)`: equal values keep their order.
  insert_sorted : reals.F → List reals.F → List reals.F
  insert_sorted v [] = v ∷ []
  insert_sorted v (x ∷ xs) =
      let later = insert_sorted v xs in if reals.less x v then x ∷ later else v ∷ x ∷ xs

  unfoldable pub sorted : List reals.F → List reals.F
  unfolding insert_sorted
  sorted [] = []
  sorted (v ∷ vs) = insert_sorted v (sorted vs)

  item : ℕ → List reals.F → Result reals.F
  item i [] = raise_error Kind.index_error "list index out of range"
  item zero (v ∷ vs) = ok v
  item (suc i) (v ∷ vs) = item i vs

  -- `_median(values)`, of a list that is not empty
  unfoldable pub median : List reals.F → Result reals.F
  unfolding item
  median values =
      let s = sorted values in
      let n = length s in
      if n % 2 == 1 then item (n / 2) s else (do
        low ← item (n / 2 - 1) s
        high ← item (n / 2) s
        ok (reals.over (reals.add low high) 2))

  -- `_linear_power(values, unit)`
  unfoldable pub linear_power : List reals.F → String → Result (List reals.F)
  unfolding each is_ratio is_voltage raised_by
  linear_power values unit =
      if is_ratio unit
      then each (raised_by 10) values
      else if is_voltage unit
      then ok (map (λ v. reals.times v v) values)
      else ok values

  -- `_channel_power(values, unit)`
  unfoldable pub channel_power : List reals.F → String → Result reals.F
  unfolding is_ratio is_voltage decibels
  channel_power values unit =
      if is_ratio unit
      then (do power ← linear_power values unit; decibels "10" (reals.sum power))
      else if is_voltage unit
      then reals.sqrt (reals.sum (map (λ v. reals.times v v) values))
      else ok (reals.sum values)

  -- `max(power)`: the first of the largest
  largest : reals.F → List reals.F → reals.F
  largest v [] = v
  largest v (x ∷ xs) = largest (if reals.less v x then x else v) xs

  largest_of : List reals.F → Result reals.F
  unfolding largest
  largest_of [] = raise_error Kind.value_error "max() arg is an empty sequence"
  largest_of (v ∷ vs) = ok (largest v vs)

  -- `_papr_db(values, unit)`
  unfoldable pub papr_db : List reals.F → String → Result reals.F
  unfolding mean decibels largest_of
  papr_db values unit = do
    power ← linear_power values unit
    (if reals.at_most (mean power) (reals.literal "0")
        then raise_error Kind.value_error "cannot compute PAPR: average power is non-positive"
        else (do
          peak ← largest_of power
          ratio ← reals.divide peak (mean power)
          decibels "10" ratio))

  two_of : List reals.F → Result (reals.F × reals.F)
  two_of (lo ∷ hi ∷ []) = ok (lo, hi)
  two_of _ = raise_error Kind.value_error "wrong number of values to unpack"

  -- `_flatness_db(vmin, vmax, unit)`
  unfoldable pub flatness_db : reals.F → reals.F → String → Result reals.F
  unfolding decibels two_of
  flatness_db vmin vmax unit = do
    power ← linear_power (vmin ∷ vmax ∷ []) unit
    both ← two_of power
    (if reals.at_most both.0 (reals.literal "0")
        then raise_error Kind.value_error "cannot compute flatness: minimum value is non-positive"
        else (do ratio ← reals.divide both.1 both.0; decibels "10" ratio))

  -- A level that is to be positive.
  if_positive : reals.F → String → Result reals.F → Result reals.F
  if_positive level what r =
      if reals.at_most level (reals.literal "0")
      then raise_error Kind.value_error
          (fstring ("cannot convert a non-positive " ∷ what ∷ " to dBuV" ∷ []))
      else r

  plus : Result reals.F → String → Result reals.F
  plus r constant = do x ← r; ok (reals.add x (reals.literal constant))

  -- `_to_dbuv(level, unit)`
  unfoldable pub to_dbuv : reals.F → String → Result reals.F
  unfolding if_positive plus decibels is_voltage
  to_dbuv level unit =
      if str_eq unit "dBm"
      then plus (ok level) "107.0"
      else if str_eq unit "dBmV"
      then plus (ok level) "60.0"
      else if str_eq unit "dBuV"
      then ok level
      else if is_voltage unit
      then if_positive level "voltage" (plus (decibels "20" level) "120.0")
      else if str_eq unit "W"
      then if_positive level "power"
          (plus (decibels "10" (reals.times level (reals.literal "1000"))) "107.0")
      else raise_error Kind.value_error
          (fstring ("field strength is not defined for unit " ∷ repr_text unit ∷ []))
