-- ===== src/Controller/Stats.antt =====
-- controller/stats.py: statistics of a trace over a range of frequencies. Floating point is a
-- parameter: a type of floats with Python's operations, some of which raise.
mod Examples
pub mod Arithmetic
pub mod Power
pub mod Best
pub mod Range
pub mod Bandwidth
use tsanet.Prelude.{
  ℕ, zero, suc, ◌+◌, ◌-◌, ◌/◌, ◌%◌, String, Bool, true, false, not, ◌&&◌, ◌||◌, Option, none, some,
  List, [], ◌∷◌, map, length, fstring, str_eq, str_mem, ◌==◌, if◌then◌else◌,
}
use tsanet.Prelude.Int.{ℤ, pos, ◌-ℤ◌, leb_ℤ, decimal_ℤ}
use tsanet.Errors.{Kind, Result, ok, err, raise_error}
use tsanet.Errors.Chain.{◌>>=◌}
use tsanet.Protocol.Value.Text.{repr_text}
use tsanet.Controller.Stats.Arithmetic.{Reals}
use tsanet.Controller.Stats.Power.{
  average, median, linear_power, channel_power, papr_db, flatness_db, to_dbuv,
}

-- `freqs[-1]`, of a first frequency and the others
abbrev pub last : ℤ → List ℤ → ℤ
last f [] = f
last f (g ∷ rest) = last g rest

-- `zip(freqs, values)`
abbrev pub zip : {A B : Type 0} → List A → List B → List (A × B)
zip (a ∷ more) (b ∷ bs) = (a, b) ∷ zip more bs
zip [] bs = []
zip (a ∷ more) [] = []

module _ (reals : Reals) where
  pub record StatsResult : Type 0 where
    pub average : reals.F
    pub median : reals.F
    pub minimum : reals.F
    pub min_freq : ℤ
    pub maximum : reals.F
    pub max_freq : ℤ
    pub channel_power : reals.F
    pub occupied_bandwidth_hz : ℤ
    pub papr_db : reals.F
    pub flatness_db : reals.F
    pub field_strength_dbuvm : Option reals.F

  -- A measured point: its frequency and its value.
  abbrev pub Point : Type 0
  Point = ℤ × reals.F

  -- `_filter(freqs, vals, start, stop)`, as the list of the pairs
  abbrev pub filter : List Point → ℤ → ℤ → List Point
  filter [] start stop = []
  filter (p ∷ rest) start stop =
      if leb_ℤ start p.0 && leb_ℤ p.0 stop
      then p ∷ filter rest start stop
      else filter rest start stop

  -- The extremes so far.
  pub record Extremes : Type 0 where
    pub low : Point
    pub high : Point

  abbrev pub widen : Point → Extremes → Extremes
  widen p e = record {
    low = if reals.less p.1 e.low.1 then p else e.low;
    high = if reals.less e.high.1 p.1 then p else e.high;
  }

  -- The loop for the minimum and the maximum.
  unfoldable pub extremes : List Point → Extremes → Extremes
  extremes [] e = e
  extremes (p ∷ rest) e = extremes rest (widen p e)

  -- The lower edge, the higher edge, once found.
  pub record Edges : Type 0 where
    pub lo_freq : ℤ
    pub hi_freq : ℤ
    pub lo_found : Bool

  abbrev pub lower : Bool → ℤ → Edges → Edges
  lower reached f e =
      if not e.lo_found && reached then record e { lo_freq = f; lo_found = true } else e

  -- The loop for the edges.
  unfoldable pub find_edges : reals.F → reals.F → reals.F → List Point → Edges → Edges
  find_edges lo_target hi_target sum [] e = e
  find_edges lo_target hi_target sum ((f, p) ∷ rest) e =
      let cumulative = reals.add sum p in
      let e' = lower (reals.at_most lo_target cumulative) f e in
      let later = find_edges lo_target hi_target cumulative rest e' in
      if reals.at_most hi_target cumulative then record e' { hi_freq = f } else later

  -- `(1.0 - _OBW_FRACTION) / 2.0`
  abbrev pub edge : reals.F
  edge = reals.over (reals.subtract (reals.literal "1.0") (reals.literal "0.99")) 2

  -- `_occupied_bandwidth(freqs, values, unit)`, of a first frequency and the others
  unfoldable pub occupied_bandwidth : ℤ → List ℤ → List reals.F → String → Result ℤ
  unfolding find_edges
  occupied_bandwidth first freqs values unit = do
    power ← linear_power reals values unit
    let total = reals.sum power
    let e =
        find_edges (reals.times edge total)
          (reals.times (reals.subtract (reals.literal "1.0") edge) total) (reals.literal "0.0")
          (zip (first ∷ freqs) power)
          (record { lo_freq = first; hi_freq = last first freqs; lo_found = false })
    (if reals.at_most total (reals.literal "0") then ok (pos 0) else ok (e.hi_freq -ℤ e.lo_freq))

  field_strength : Option reals.F → reals.F → String → Result (Option reals.F)
  field_strength none avg unit = ok none
  field_strength (some antenna_factor) avg unit = do
    level ← to_dbuv reals avg unit
    ok (some (reals.add level antenna_factor))

  -- `compute_stats` of the points in the range, of which there is one
  stats_of : Point → List Point → String → Option reals.F → Result StatsResult
  unfolding field_strength
  stats_of p rest unit antenna_factor = do
    let values = map (λ q. q.1) (p ∷ rest)
    avg ← average reals values unit
    med ← median reals values
    let e = extremes (p ∷ rest) (record { low = p; high = p })
    strength ← field_strength antenna_factor avg unit
    power ← channel_power reals values unit
    bandwidth ← occupied_bandwidth p.0 (map (λ q. q.0) rest) values unit
    papr ← papr_db reals values unit
    flatness ← flatness_db reals e.low.1 e.high.1 unit
    ok (record {
      average = avg;
      median = med;
      minimum = e.low.1;
      min_freq = e.low.0;
      maximum = e.high.1;
      max_freq = e.high.0;
      channel_power = power;
      occupied_bandwidth_hz = bandwidth;
      papr_db = papr;
      flatness_db = flatness;
      field_strength_dbuvm = strength;
    })

  in_range : List Point → ℤ → ℤ → String → Option reals.F → Result StatsResult
  unfolding stats_of
  in_range [] start stop unit antenna_factor =
      raise_error Kind.value_error
        (fstring ("no data points in range " ∷ decimal_ℤ start ∷ "-" ∷ decimal_ℤ stop ∷ " Hz" ∷ []))
  in_range (p ∷ rest) start stop unit antenna_factor = stats_of p rest unit antenna_factor

  -- `compute_stats(frequencies, values, unit, start_hz, stop_hz, antenna_factor)`
  unfoldable pub compute_stats :
      List ℤ → List reals.F → String → ℤ → ℤ → Option reals.F → Result StatsResult
  unfolding in_range
  compute_stats frequencies values unit start stop antenna_factor =
      if length frequencies == 0 || not (length frequencies == length values)
      then raise_error Kind.value_error "frequencies and values must be non-empty and equal length"
      else in_range (filter (zip frequencies values) start stop) start stop unit antenna_factor
