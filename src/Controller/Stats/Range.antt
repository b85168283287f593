-- ===== src/Controller/Stats/Range.antt =====
-- Proofs on the minimum and the maximum that controller/stats.py computes.
use mathlib.Core.List.{Memᴰ}
use mathlib.Core.List.Memᴰ.{head, tail}
use mathlib.Core.Path.{subst}
use tsanet.Prelude.{
  ◌≡◌, refl, sym, ap, ◌∙◌, String, Bool, true, false, Option, List, [], ◌∷◌, map, All,
  if◌then◌else◌, Bool-cases, inl, inr, ◌||◌, not, ◌&&◌, length, ◌==◌,
}
use tsanet.Prelude.Int.{ℤ, leb_ℤ}
use tsanet.Errors.{Error, Result, ok, err}
use tsanet.Errors.Chain.{all_returned, ok-eq}
use tsanet.Controller.Stats.{
  StatsResult, Point, Extremes, zip, filter, widen, extremes, field_strength, occupied_bandwidth,
  stats_of, in_range, compute_stats,
}
use tsanet.Controller.Stats.Arithmetic.{Reals}
use tsanet.Controller.Stats.Power.{average, median, channel_power, papr_db, flatness_db}
use tsanet.Controller.Stats.Best.{best, best-All, best-Mem}

-- Floats are compared by a strict order; what is not a number is neither less nor more.
pub record IsOrdered (reals : Reals) : Type 0 where
  pub irreflexive : (a : reals.F) → reals.less a a ≡ false
  pub transitive :
      (a b c : reals.F) → reals.less a b ≡ true → reals.less b c ≡ true → reals.less a c ≡ true

-- What is behind a guard that raises.
checked :
    {A : Type 0} (b : Bool) (e : Error) (x : Result A) {a : A}
    → (if b then err e else x) ≡ ok a
    → x ≡ ok a
checked true e x h = cc h
checked false e x h = h

module _ (reals : Reals) where
  abbrev below : Point reals → Point reals → Bool
  below p q = reals.less p.1 q.1

  abbrev above : Point reals → Point reals → Bool
  above p q = reals.less q.1 p.1

  low-extremes :
      (points : List (Point reals)) (e : Extremes reals)
      → (extremes reals points e).low ≡ best below points e.low
  unfolding extremes
  low-extremes [] e = refl
  low-extremes (p ∷ rest) e = low-extremes rest (widen reals p e)

  high-extremes :
      (points : List (Point reals)) (e : Extremes reals)
      → (extremes reals points e).high ≡ best above points e.high
  unfolding extremes
  high-extremes [] e = refl
  high-extremes (p ∷ rest) e = high-extremes rest (widen reals p e)

  -- The extremes of the points are points, and no point is below the one or above the other.
  abbrev pub AreExtremes : List (Point reals) → Point reals → Point reals → Type 0
  AreExtremes points low high =
      Memᴰ low points
      × Memᴰ high points
      × All (λ q. reals.less q.1 low.1 ≡ false) points
      × All (λ q. reals.less high.1 q.1 ≡ false) points

  extremes-AreExtremes :
      (p : Point reals) (rest : List (Point reals))
      → IsOrdered reals
      → let e = extremes reals (p ∷ rest) (record { low = p; high = p }) in
        AreExtremes (p ∷ rest) e.low e.high
  extremes-AreExtremes p rest o =
      let both : Extremes reals = record { low = p; high = p } in
      subst (λ low. AreExtremes (p ∷ rest) low (extremes reals (p ∷ rest) both).high)
        (sym (low-extremes (p ∷ rest) both))
        (subst (AreExtremes (p ∷ rest) (best below (p ∷ rest) p))
          (sym (high-extremes (p ∷ rest) both))
          (
            best-Mem below p rest,
            best-Mem above p rest,
            best-All below (λ p. o.irreflexive p.1) (λ p q r. o.transitive p.1 q.1 r.1) (p ∷ rest)
                p,
            best-All above (λ p. o.irreflexive p.1) (λ p q r pq qr. o.transitive r.1 q.1 p.1 qr pq)
                (p ∷ rest) p,
          ))

  stats_of-extremes :
      (p : Point reals) (rest : List (Point reals)) (unit : String) (factor : Option reals.F)
      (r : StatsResult reals)
      → stats_of reals p rest unit factor ≡ ok r
      → let e = extremes reals (p ∷ rest) (record { low = p; high = p }) in
        ((r.min_freq, r.minimum) ≡ e.low) × ((r.max_freq, r.maximum) ≡ e.high)
  unfolding stats_of
  stats_of-extremes p rest unit factor =
      let values = map (λ q. q.1) (p ∷ rest) in
      let freqs = map (λ q. q.0) rest in
      let e = extremes reals (p ∷ rest) (record { low = p; high = p }) in
      let Found : StatsResult reals → Type 0 =
        λ r. ((r.min_freq, r.minimum) ≡ e.low) × ((r.max_freq, r.maximum) ≡ e.high) in
      all_returned Found (average reals values unit) _ (λ avg.
        all_returned Found (median reals values) _ (λ med.
          all_returned Found (field_strength reals factor avg unit) _ (λ strength.
            all_returned Found (channel_power reals values unit) _ (λ power.
              all_returned Found (occupied_bandwidth reals p.0 freqs values unit) _ (λ width.
                all_returned Found (papr_db reals values unit) _ (λ papr.
                  all_returned Found (flatness_db reals e.low.1 e.high.1 unit) _ (λ flat r h.
                    let same = ok-eq h in
                    (
                      ap (λ r. (r.min_freq, r.minimum)) (sym same),
                      ap (λ r. (r.max_freq, r.maximum)) (sym same),
                    ))))))))

  -- Whether a point lies in the range.
  abbrev pub within : ℤ → ℤ → Point reals → Bool
  within start stop p = leb_ℤ start p.0 && leb_ℤ p.0 stop

  Memᴰ-kept :
      (start stop : ℤ) (p q : Point reals) (rest kept : List (Point reals))
      → within start stop p ≡ true
      → (Memᴰ q kept → Memᴰ q rest × (within start stop q ≡ true))
      → Memᴰ q (p ∷ kept)
      → Memᴰ q (p ∷ rest) × (within start stop q ≡ true)
  Memᴰ-kept start stop p q rest kept inside later (head e) =
      (head e, ap (within start stop) e ∙ inside)
  Memᴰ-kept start stop p q rest kept inside later (tail m) =
      let (found, within_q) = later m in (tail found, within_q)

  Memᴰ-filter :
      (start stop : ℤ) (points : List (Point reals)) (q : Point reals)
      → Memᴰ q (filter reals points start stop)
      → Memᴰ q points × (within start stop q ≡ true)
  Memᴰ-filter start stop [] q h = elim h [ ]
  Memᴰ-filter start stop (p ∷ rest) q h = elim (Bool-cases (within start stop p)) [
    | inl inside ↦
        Memᴰ-kept start stop p q rest (filter reals rest start stop) inside
          (Memᴰ-filter start stop rest q) (rw inside at h)
    | inr outside ↦
        let (found, inside) = Memᴰ-filter start stop rest q (rw outside at h) in
        (tail found, inside)
  ]

  All-filter :
      (start stop : ℤ) (P : Point reals → Type 0) (points : List (Point reals))
      → All P (filter reals points start stop)
      → All (λ q. within start stop q ≡ true → P q) points
  All-filter start stop P [] all = tt
  All-filter start stop P (p ∷ rest) all = elim (Bool-cases (within start stop p)) [
    | inl inside ↦
        let split = rw inside at all in (λ _. split.0, All-filter start stop P rest split.1)
    | inr outside ↦
        ((λ inside. cc (sym inside ∙ outside)), All-filter start stop P rest (rw outside at all))
  ]

  -- What `compute_stats` tells of the measured points: its extremes are points in the range, and of
  -- no point in the range the value is below the one or above the other.
  abbrev pub AreExtremesOf : List (Point reals) → ℤ → ℤ → Point reals → Point reals → Type 0
  AreExtremesOf points start stop low high =
      (Memᴰ low points × (within start stop low ≡ true))
      × (Memᴰ high points × (within start stop high ≡ true))
      × All (λ q. within start stop q ≡ true → reals.less q.1 low.1 ≡ false) points
      × All (λ q. within start stop q ≡ true → reals.less high.1 q.1 ≡ false) points

  -- Extremes of the points that the filter keeps.
  AreExtremes-filter :
      (points : List (Point reals)) (start stop : ℤ) (low high : Point reals)
      → AreExtremes (filter reals points start stop) low high
      → AreExtremesOf points start stop low high
  AreExtremes-filter points start stop low high (l, h, below_none, above_none) = (
    Memᴰ-filter start stop points low l,
    Memᴰ-filter start stop points high h,
    All-filter start stop (λ q. reals.less q.1 low.1 ≡ false) points below_none,
    All-filter start stop (λ q. reals.less high.1 q.1 ≡ false) points above_none,
  )

  in_range-extremes :
      (kept : List (Point reals)) (start stop : ℤ) (unit : String) (factor : Option reals.F)
      (r : StatsResult reals)
      → IsOrdered reals
      → in_range reals kept start stop unit factor ≡ ok r
      → AreExtremes kept (r.min_freq, r.minimum) (r.max_freq, r.maximum)
  unfolding in_range
  in_range-extremes [] start stop unit factor r o h = cc h
  in_range-extremes (p ∷ rest) start stop unit factor r o h =
      let (low, high) = stats_of-extremes p rest unit factor r h in
      let e = extremes reals (p ∷ rest) (record { low = p; high = p }) in
      subst (λ q. AreExtremes (p ∷ rest) q (r.max_freq, r.maximum)) (sym low)
        (subst (AreExtremes (p ∷ rest) e.low) (sym high) (extremes-AreExtremes p rest o))

  -- If `compute_stats` returns, its minimum and its maximum are values of measured points in the range,
  -- at the frequencies that it tells, and no measured point in the range has a value below the one or
  -- above the other. Floats are taken to be ordered strictly by `<`.
  pub compute_stats-extremes :
      (frequencies : List ℤ) (values : List reals.F) (unit : String) (start stop : ℤ)
      (factor : Option reals.F) (r : StatsResult reals)
      → IsOrdered reals
      → compute_stats reals frequencies values unit start stop factor ≡ ok r
      → AreExtremesOf
          (zip frequencies values)
          start
          stop
          (r.min_freq, r.minimum)
          (r.max_freq, r.maximum)
  unfolding compute_stats
  compute_stats-extremes frequencies values unit start stop factor r o h =
      let points = zip frequencies values in
      AreExtremes-filter points start stop (r.min_freq, r.minimum) (r.max_freq, r.maximum)
        (in_range-extremes (filter reals points start stop) start stop unit factor r o
          (checked (length frequencies == 0 || not (length frequencies == length values)) _ _ h))
