-- ===== src/Controller/Stats/Bandwidth.antt =====
-- Proofs on the occupied bandwidth that controller/stats.py computes.
use mathlib.Core.Path.{subst}
use tsanet.Prelude.{
  ◌+◌, ◌≤◌, ◌≡◌, refl, sym, ap, String, Bool, true, false, not, ◌&&◌, List, [], ◌∷◌, All,
  if◌then◌else◌, Bool-cases, ◌⊎◌, inl, inr, arith,
}
use tsanet.Prelude.Int.{ℤ, pos, pos_part, neg_part, ◌-ℤ◌}
use tsanet.Errors.{ok}
use tsanet.Errors.Chain.{all_returned, ok-eq}
use tsanet.Controller.Stats.{Point, Edges, zip, lower, find_edges, last, edge, occupied_bandwidth}
use tsanet.Controller.Stats.Arithmetic.{Reals}
use tsanet.Controller.Stats.Power.{linear_power}

-- `a <= b`
abbrev pub AtMost : ℤ → ℤ → Type 0
AtMost a b = pos_part a + neg_part b ≤ pos_part b + neg_part a

-- The frequencies do not fall.
abbrev pub IsAscending : List ℤ → Type 0
IsAscending [] = Unit
IsAscending (f ∷ fs) = All (AtMost f) fs × IsAscending fs

AtMost-refl : (a : ℤ) → AtMost a a
AtMost-refl a = omega arith

AtMost-trans : (a b c : ℤ) → AtMost a b → AtMost b c → AtMost a c
AtMost-trans a b c h k = omega arith

nonnegative : (a b : ℤ) → AtMost b a → AtMost (pos 0) (a -ℤ b)
unfolding ◌-ℤ◌
nonnegative a b h = ground arith

narrower : (a b c d : ℤ) → AtMost c b → AtMost b a → AtMost a d → AtMost (a -ℤ b) (d -ℤ c)
unfolding ◌-ℤ◌
narrower a b c d h k l = ground arith

All-zip :
    {A B : Type 0} (P : A → Type 0) (xs : List A) (ys : List B)
    → All P xs
    → All (λ p. P p.0) (zip xs ys)
All-zip P [] ys all = tt
All-zip P (x ∷ xs) [] all = tt
All-zip P (x ∷ xs) (y ∷ ys) (p, all) = (p, All-zip P xs ys all)

-- The last frequency is the highest.
All-last :
    (first : ℤ) (freqs : List ℤ)
    → IsAscending (first ∷ freqs)
    → All (λ f. AtMost f (last first freqs)) (first ∷ freqs)
All-last first [] v = (AtMost-refl first, tt)
All-last first (f ∷ fs) ((h, _), v) =
    let rest = All-last f fs v in (AtMost-trans first f (last f fs) h rest.0, rest)

either :
    (P : ℤ → Type 0) (b : Bool) (x y w : ℤ) → (if b then ok x else ok y) ≡ ok w → P x → P y → P w
either P true x y w e h k = subst P (ok-eq e) h
either P false x y w e h k = subst P (ok-eq e) k

module _ (reals : Reals) where
  abbrev IsRising : List (Point reals) → Type 0
  IsRising [] = Unit
  IsRising (p ∷ rest) = All (λ q. AtMost p.0 q.0) rest × IsRising rest

  IsRising-zip :
      (freqs : List ℤ) (power : List reals.F) → IsAscending freqs → IsRising (zip freqs power)
  IsRising-zip [] power v = tt
  IsRising-zip (f ∷ fs) [] v = tt
  IsRising-zip (f ∷ fs) (p ∷ ps) (h, v) = (All-zip (AtMost f) fs ps h, IsRising-zip fs ps v)

  -- The edges hold the frequencies that are left between them.
  record AreAround (first : ℤ) (points : List (Point reals)) (e : Edges reals) : Type 0 where
    above : All (λ p. AtMost e.lo_freq p.0) points
    below : All (λ p. AtMost p.0 e.hi_freq) points
    from : AtMost first e.lo_freq
    wide : AtMost e.lo_freq e.hi_freq

  lower-cases :
      (reached : Bool) (f : ℤ) (e : Edges reals)
      → (lower reals reached f e ≡ record e { lo_freq = f; lo_found = true })
        ⊎ (lower reals reached f e ≡ e)
  lower-cases reached f e = elim (Bool-cases (not e.lo_found && reached)) [
    | inl now ↦ inl (rw now refl)
    | inr later ↦ inr (rw later refl)
  ]

  lower-AreAround :
      (first : ℤ) (reached : Bool) (p : Point reals) (rest : List (Point reals)) (e : Edges reals)
      → All (λ q. AtMost p.0 q.0) rest
      → AreAround first (p ∷ rest) e
      → AreAround first (p ∷ rest) (lower reals reached p.0 e)
  lower-AreAround first reached p rest e rising a = elim (lower-cases reached p.0 e) [
    | inl moved ↦ subst (AreAround first (p ∷ rest)) (sym moved) (record {
      above = (AtMost-refl p.0, rising);
      below = a.below;
      from = AtMost-trans first e.lo_freq p.0 a.from a.above.0;
      wide = a.below.0;
    })
    | inr kept ↦ subst (AreAround first (p ∷ rest)) (sym kept) a
  ]

  -- What the loop ends with, from edges `e`.
  abbrev Within : ℤ → Edges reals → Edges reals → Type 0
  Within first e r =
      AtMost first r.lo_freq × AtMost r.lo_freq r.hi_freq × AtMost r.hi_freq e.hi_freq

  Within-if :
      (first : ℤ) (b : Bool) (e x y : Edges reals)
      → Within first e x
      → Within first e y
      → Within first e (if b then x else y)
  Within-if first true e x y h k = h
  Within-if first false e x y h k = k

  hi_freq-lower :
      (reached : Bool) (f : ℤ) (e : Edges reals) → (lower reals reached f e).hi_freq ≡ e.hi_freq
  hi_freq-lower reached f e = elim (lower-cases reached f e) [
    | inl moved ↦ ap (λ e. e.hi_freq) moved
    | inr kept ↦ ap (λ e. e.hi_freq) kept
  ]

  find_edges-Within :
      (lo_target hi_target sum : reals.F) (first : ℤ) (points : List (Point reals))
      (e : Edges reals)
      → IsRising points
      → AreAround first points e
      → Within first e (find_edges reals lo_target hi_target sum points e)
  unfolding find_edges
  find_edges-Within lo_target hi_target sum first [] e rising a =
      (a.from, a.wide, AtMost-refl e.hi_freq)
  find_edges-Within lo_target hi_target sum first ((f, p) ∷ rest) e (h, rising) a =
      let cumulative = reals.add sum p in
      let reached = reals.at_most lo_target cumulative in
      let e' = lower reals reached f e in
      let a' = lower-AreAround first reached (f, p) rest e h a in
      let later : AreAround first rest e' = record {
        above = a'.above.1;
        below = a'.below.1;
        from = a'.from;
        wide = a'.wide;
      } in
      let r = find_edges reals lo_target hi_target sum ((f, p) ∷ rest) e in
      subst (λ hi. AtMost first r.lo_freq × AtMost r.lo_freq r.hi_freq × AtMost r.hi_freq hi)
        (hi_freq-lower reached f e)
        (Within-if first (reals.at_most hi_target cumulative) e' (record e' { hi_freq = f })
          (find_edges reals lo_target hi_target cumulative rest e')
          (a'.from, a'.above.0, a'.below.0)
          (find_edges-Within lo_target hi_target cumulative first rest e' rising later))

  -- The occupied bandwidth of frequencies that do not fall is not negative, and not wider than the
  -- range of the frequencies.
  pub occupied_bandwidth-bounds :
      (first : ℤ) (freqs : List ℤ) (values : List reals.F) (unit : String) (width : ℤ)
      → IsAscending (first ∷ freqs)
      → occupied_bandwidth reals first freqs values unit ≡ ok width
      → AtMost (pos 0) width × AtMost width (last first freqs -ℤ first)
  unfolding occupied_bandwidth
  occupied_bandwidth-bounds first freqs values unit width v =
      let Bounded : ℤ → Type 0 = λ w. AtMost (pos 0) w × AtMost w (last first freqs -ℤ first) in
      all_returned Bounded (linear_power reals values unit) _
        (λ power w h.
          let total = reals.sum power in
          let top = last first freqs in
          let under = All-last first freqs v in
          let around : AreAround first (zip (first ∷ freqs) power)
              (record { lo_freq = first; hi_freq = top; lo_found = false }) =
            record {
              above = All-zip (AtMost first) (first ∷ freqs) power (AtMost-refl first, v.0);
              below = All-zip (λ f. AtMost f top) (first ∷ freqs) power under;
              from = AtMost-refl first;
              wide = under.0;
            } in
          let (from, wide, to) =
            find_edges-Within (reals.times (edge reals) total)
              (reals.times (reals.subtract (reals.literal "1.0") (edge reals)) total)
              (reals.literal "0.0") first (zip (first ∷ freqs) power)
              (record { lo_freq = first; hi_freq = top; lo_found = false })
              (IsRising-zip (first ∷ freqs) power v) around in
          either Bounded (reals.at_most total (reals.literal "0")) _ _ w h
            (AtMost-refl (pos 0), nonnegative top first under.0)
            (nonnegative _ _ wide, narrower _ _ _ _ from wide to))
        width
