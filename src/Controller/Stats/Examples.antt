-- ===== src/Controller/Stats/Examples.antt =====
-- The theorems on controller/stats.py at a concrete trace.
use tsanet.Prelude.{
  ℕ, ◌+◌, ◌-◌, ◌*◌, ◌/◌, refl, none, List, [], ◌∷◌, ◌||◌, arith, ltb, leb, ltb→lt, str_eq,
  if◌then◌else◌,
}
use tsanet.Prelude.Int.{ℤ, pos, ◌-ℤ◌}
use tsanet.Errors.{ok}
use tsanet.Controller.Stats.{
  StatsResult, zip, last, compute_stats, occupied_bandwidth, extremes, find_edges,
}
use tsanet.Controller.Stats.Arithmetic.{Reals}
use tsanet.Controller.Stats.Power.{
  average, median, sorted, linear_power, channel_power, papr_db, flatness_db,
}
use tsanet.Controller.Stats.Range.{IsOrdered, AreExtremesOf, compute_stats-extremes}
use tsanet.Controller.Stats.Bandwidth.{AtMost, occupied_bandwidth-bounds}

abbrev total : List ℕ → ℕ
total [] = 0
total (n ∷ rest) = n + total rest

-- Whole numbers in place of floats.
abbrev whole : Reals
whole = record {
  F = ℕ;
  add = λ a b. a + b;
  subtract = λ a b. a - b;
  times = λ a b. a * b;
  divide = λ a b. ok (a / b);
  over = λ a n. a / n;
  less = ltb;
  at_most = leb;
  literal = λ s. if str_eq s "0" || str_eq s "0.0" then 0 else 1;
  sum = total;
  power_of_ten = ok;
  square = λ a. ok (a * a);
  log10 = ok;
  sqrt = ok;
}

whole-IsOrdered : IsOrdered whole
whole-IsOrdered = record {
  irreflexive = λ a. ground arith;
  transitive = λ a b c h k. ground (arith, ltb→lt a b h, ltb→lt b c k);
}

abbrev three_frequencies : List ℤ
three_frequencies = pos 1 ∷ pos 2 ∷ pos 3 ∷ []

abbrev three_values : List ℕ
three_values = 5 ∷ 3 ∷ 9 ∷ []

abbrev three_points : StatsResult whole
three_points = record {
  average = 5;
  median = 5;
  minimum = 3;
  min_freq = pos 2;
  maximum = 9;
  max_freq = pos 3;
  channel_power = 17;
  occupied_bandwidth_hz = pos 2;
  papr_db = 1;
  flatness_db = 3;
  field_strength_dbuvm = none;
}

compute_stats-extremes_example :
    AreExtremesOf whole (zip three_frequencies three_values) (pos 1) (pos 3) (pos 2, 3) (pos 3, 9)
unfolding compute_stats average median sorted channel_power occupied_bandwidth linear_power papr_db
    flatness_db extremes ◌-ℤ◌
compute_stats-extremes_example =
    compute_stats-extremes whole three_frequencies three_values "W" (pos 1) (pos 3) none
      three_points whole-IsOrdered refl

occupied_bandwidth-bounds_example :
    AtMost (pos 0) (pos 2) × AtMost (pos 2) (last (pos 1) (pos 2 ∷ pos 3 ∷ []) -ℤ pos 1)
unfolding occupied_bandwidth linear_power find_edges ◌-ℤ◌
occupied_bandwidth-bounds_example =
    occupied_bandwidth-bounds whole (pos 1) (pos 2 ∷ pos 3 ∷ []) three_values "W" (pos 2)
      ((omega arith, (omega arith, tt)), ((omega arith, tt), (tt, tt))) refl
