-- ===== src/Errors/Chain.antt =====
-- Chains of steps that return a result, for code that keeps no state.
use tsanet.Prelude.{◌≡◌, refl, ap}
use tsanet.Errors.{Result, ok, err}

infixl 5 ◌>>=◌
abbrev pub ◌>>=◌ : {S T : Type 0} → Result S → (S → Result T) → Result T
err x >>= next = err x
ok s >>= next = next s

-- A chain that returned has a first step that returned.
pub returned :
    {S T : Type 0} (first : Result S) (next : S → Result T) {t : T}
    → (first >>= next) ≡ ok t
    → (s : S) × (first ≡ ok s) × (next s ≡ ok t)
returned (err x) next h = cc h
returned (ok s) next h = (s, refl, h)

-- What holds of all that the rest of a chain returns holds of all that the chain returns.
pub all_returned :
    {S T : Type 0} (P : T → Type 0) (first : Result S) (next : S → Result T)
    → ((s : S) (t : T) → next s ≡ ok t → P t)
    → (t : T) → (first >>= next) ≡ ok t
    → P t
all_returned P (err x) next h t e = cc e
all_returned P (ok s) next h t e = h s t e

pub ok-eq : {T : Type 0} {s t : T} → ok s ≡ ok t → s ≡ t
ok-eq {s = s} e = ap (λ r. elim r [ ok x ↦ x | err y ↦ s ]) e
