-- ===== src/Controller/Stats/Best.antt =====
-- Proofs on the loop that controller/stats.py looks for an extreme with.
use mathlib.Core.List.{Memᴰ}
use mathlib.Core.List.Memᴰ.{head, tail}
use tsanet.Prelude.{
  ◌≡◌, refl, sym, ◌∙◌, Bool, true, false, List, [], ◌∷◌, All, if◌then◌else◌, Bool-cases, inl, inr,
  ◌⊎◌,
}

-- The first point that no later one beats.
abbrev pub best : {P : Type 0} → (P → P → Bool) → List P → P → P
best beats [] m = m
best beats (p ∷ rest) m = best beats rest (if beats p m then p else m)

module _ {P : Type 0} (beats : P → P → Bool) (irreflexive : (p : P) → beats p p ≡ false)
    (transitive : (p q r : P) → beats p q ≡ true → beats q r ≡ true → beats p r ≡ true) where
  -- What the best point so far is not beaten by does not beat the next.
  stays : (q p m : P) → beats q m ≡ false → beats q (if beats p m then p else m) ≡ false
  stays q p m h = elim (Bool-cases (beats p m)) [
    | inl better ↦ elim (Bool-cases (beats q p)) [
      | inl first ↦ cc (sym h ∙ transitive q p m first better)
      | inr rest ↦ rw (better, rest) refl
    ]
    | inr worse ↦ rw (worse, h) refl
  ]

  passed : (p m : P) → beats p (if beats p m then p else m) ≡ false
  passed p m = elim (Bool-cases (beats p m)) [
    | inl better ↦ rw (better, irreflexive p) refl
    | inr worse ↦ rw (worse, worse) refl
  ]

  best-unbeaten :
      (points : List P) (q m : P) → beats q m ≡ false → beats q (best beats points m) ≡ false
  best-unbeaten [] q m h = h
  best-unbeaten (p ∷ rest) q m h = best-unbeaten rest q (if beats p m then p else m) (stays q p m h)

  pub best-All : (points : List P) (m : P) → All (λ q. beats q (best beats points m) ≡ false) points
  best-All [] m = tt
  best-All (p ∷ rest) m = (
    best-unbeaten rest p (if beats p m then p else m) (passed p m),
    best-All rest (if beats p m then p else m),
  )

best-found :
    {P : Type 0} (beats : P → P → Bool) (points : List P) (m : P)
    → (best beats points m ≡ m) ⊎ Memᴰ (best beats points m) points
best-found beats [] m = inl refl
best-found beats (p ∷ rest) m = elim (best-found beats rest (if beats p m then p else m)) [
  | inl same ↦ elim (Bool-cases (beats p m)) [
    | inl better ↦ inr (head (same ∙ rw better refl))
    | inr worse ↦ inl (same ∙ rw worse refl)
  ]
  | inr later ↦ inr (tail later)
]

-- With a first point to begin with, the best is one of the points.
pub best-Mem :
    {P : Type 0} (beats : P → P → Bool) (p : P) (rest : List P)
    → Memᴰ (best beats (p ∷ rest) p) (p ∷ rest)
best-Mem beats p rest = elim (best-found beats (p ∷ rest) p) [
  | inl same ↦ head same
  | inr found ↦ found
]
