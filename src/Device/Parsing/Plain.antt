-- ===== src/Device/Parsing/Plain.antt =====
-- Proofs on the errors of device/parsing.py.
use tsanet.Prelude.{
  ◌≡◌, refl, String, Bool, false, Option, none, some, List, [], ◌∷◌, Bool-cases, Option-cases, inl,
  inr, if◌then◌else◌,
}
use tsanet.Prelude.Int.{ℤ}
use tsanet.Errors.{Error, Kind, Result, ok, err, is_value_error, raised}
use tsanet.Protocol.Value.Access.{Floats}
use tsanet.Device.Parsing.{
  frequency, with_frequency, frequencies_of, parse_frequencies, split, split_lines,
}

-- What `parse_frequencies` raises is what `int(float)` raises.
module _ (floats : Floats) (P : Kind → Bool)
    (plain : (x : String) → raised P (floats.int_of x) ≡ false) where
  Plain-caught :
      (e : Error)
      → P e.kind ≡ false
      → raised P {A = Option ℤ} (if is_value_error e.kind then ok none else err e) ≡ false
  Plain-caught e h = elim (Bool-cases (is_value_error e.kind)) [
    | inl caught ↦ rw caught refl
    | inr not_caught ↦ rw not_caught h
  ]

  Plain-converted :
      (r : Result ℤ)
      → raised P r ≡ false
      → raised P
          (elim r [ ok n ↦ ok (some n) | err e ↦ if is_value_error e.kind then ok none else err e ])
        ≡ false
  Plain-converted (ok n) h = refl
  Plain-converted (err e) h = Plain-caught e h

  Plain-frequency : (token : String) → raised P (frequency floats token) ≡ false
  unfolding frequency
  Plain-frequency token = elim (Option-cases (floats.float_of token)) [
    | inl bad ↦ rw (bad, frequency) refl
    | inr (x, e) ↦ rw (e, frequency) (Plain-converted (floats.int_of x) (plain x))
  ]

  Plain-with_frequency :
      (f : Result (Option ℤ)) (rest : Result (List ℤ))
      → raised P f ≡ false
      → raised P rest ≡ false
      → raised P (with_frequency floats f rest) ≡ false
  unfolding with_frequency
  Plain-with_frequency (err e) rest hf hr = hf
  Plain-with_frequency (ok none) rest hf hr = hr
  Plain-with_frequency (ok (some n)) (err e) hf hr = hr
  Plain-with_frequency (ok (some n)) (ok ns) hf hr = refl

  Plain-line :
      (tokens : List String) (rest : Result (List ℤ))
      → raised P rest ≡ false
      → raised P (elim tokens [
        | [] ↦ rest
        | token ∷ _ ↦ with_frequency floats (frequency floats token) rest
      ])
        ≡ false
  Plain-line [] rest h = h
  Plain-line (token ∷ more) rest h =
      Plain-with_frequency (frequency floats token) rest (Plain-frequency token) h

  Plain-frequencies_of : (lines : List String) → raised P (frequencies_of floats lines) ≡ false
  unfolding frequencies_of
  Plain-frequencies_of [] = refl
  Plain-frequencies_of (line ∷ rest) =
      Plain-line (split line) (frequencies_of floats rest) (Plain-frequencies_of rest)

  pub Plain-parse_frequencies :
      (answer : String) → raised P (parse_frequencies floats answer) ≡ false
  unfolding parse_frequencies
  Plain-parse_frequencies answer = Plain-frequencies_of (split_lines answer)
