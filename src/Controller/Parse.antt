-- ===== src/Controller/Parse.antt =====
-- controller/parse.py: frequencies and times with a suffix, as they stand on a command line. What
-- Python's tables of characters and its floating point say is a parameter.
use Prim.Native.Char.{code}
use tsanet.Prelude.{
  ℕ, String, Bool, true, false, ◌||◌, Option, none, some, [], ◌∷◌, ◌==◌, str_eq, fstring,
  if◌then◌else◌,
}
use tsanet.Prelude.Int.{ℤ}
use tsanet.Prelude.Dict.{Dict, lookup}
use tsanet.Errors.{Kind, Result, ok, err, raise_error}
use tsanet.Protocol.Value.Text.{repr_text}
use tsanet.Device.Parsing.{strip, is_blank}

-- Python's characters and numbers: `\d`, whether two characters are the same for `re.IGNORECASE`,
-- `str.lower`, `float(text)` by its `repr`, and `round(value * scale)`.
pub record Numbers : Type 0 where
  pub is_decimal : ℕ → Bool
  pub same_ignoring_case : ℕ → ℕ → Bool
  pub lower : String → String
  pub float_of : String → Result String
  pub scaled : String → ℕ → Result ℤ

-- `_FREQ_SUFFIXES` and `_TIME_SUFFIXES`
abbrev pub frequency_suffixes : Dict ℕ
frequency_suffixes =
    ("ghz", 1_000_000_000)
    ∷ ("mhz", 1_000_000)
    ∷ ("khz", 1_000)
    ∷ ("hz", 1)
    ∷ ("g", 1_000_000_000)
    ∷ ("m", 1_000_000)
    ∷ ("k", 1_000)
    ∷ []

abbrev pub time_suffixes : Dict ℕ
time_suffixes = ("s", 1_000_000) ∷ ("ms", 1_000) ∷ ("us", 1) ∷ []

module _ (numbers : Numbers) where
  -- `[\d.]`
  is_numeral : ℕ → Bool
  is_numeral c = numbers.is_decimal c || c == 46

  -- `[\d.]+`, which may be empty here, and the text behind it.
  numeral : String → String × String
  numeral String.[] = ("", "")
  numeral (String.◌∷◌ c s) =
      let (value, rest) = numeral s in
      if is_numeral (code c) then (String.◌∷◌ c value, rest) else ("", String.◌∷◌ c s)

  -- `\s*`
  skip_blanks : String → String
  skip_blanks String.[] = ""
  skip_blanks (String.◌∷◌ c s) = if is_blank (code c) then skip_blanks s else String.◌∷◌ c s

  -- Whether the whole text is the suffix, up to its case.
  matches : String → String → Bool
  matches String.[] String.[] = true
  matches String.[] (String.◌∷◌ d t) = false
  matches (String.◌∷◌ c s) String.[] = false
  matches (String.◌∷◌ c s) (String.◌∷◌ d t) =
      let rest = matches s t in if numbers.same_ignoring_case (code d) (code c) then rest else false

  is_suffix : String → Dict ℕ → Bool
  is_suffix s [] = false
  is_suffix s ((name, scale) ∷ rest) = matches s name || is_suffix s rest

  -- `_FREQ_RE.match(text)`: the value, and the suffix if there is one. No suffix begins with what the
  -- parts before it take, so that the match has no choice.
  matched : Dict ℕ → String → Option (String × Option String)
  matched suffixes text =
      let (value, behind) = numeral text in
      let suffix = skip_blanks behind in
      if str_eq value ""
      then none
      else if str_eq suffix ""
      then some (value, none)
      else if is_suffix suffix suffixes
      then some (value, some suffix)
      else none

  -- `(m.group("suffix") or default).lower()`
  suffix_or : String → Option String → String
  suffix_or default none = numbers.lower default
  suffix_or default (some suffix) = numbers.lower suffix

  -- `round(value * SUFFIXES[suffix])`
  scaled_by : Option ℕ → String → String → Result ℤ
  scaled_by none suffix value = raise_error Kind.key_error (repr_text suffix)
  scaled_by (some scale) suffix value = numbers.scaled value scale

  measured : Dict ℕ → String → String × Option String → Result ℤ
  measured suffixes default (numeral, suffix) = elim (numbers.float_of numeral) [
    | err e ↦ err e
    | ok value ↦ let name = suffix_or default suffix in scaled_by (lookup name suffixes) name value
  ]

  -- `parse_frequency(raw)`
  unfoldable pub parse_frequency : String → Result ℤ
  unfolding matched numeral is_numeral skip_blanks matches is_suffix measured suffix_or scaled_by
  parse_frequency raw = elim (matched frequency_suffixes (strip raw)) [
    | none ↦ raise_error Kind.value_error (fstring ("invalid frequency: " ∷ repr_text raw ∷ []))
    | some m ↦ measured frequency_suffixes "hz" m
  ]

  -- `parse_time(raw)`
  unfoldable pub parse_time : String → Result ℤ
  unfolding matched numeral is_numeral skip_blanks matches is_suffix measured suffix_or scaled_by
  parse_time raw = elim (matched time_suffixes (strip raw)) [
    | none ↦ raise_error Kind.value_error (fstring ("invalid time: " ∷ repr_text raw ∷ []))
    | some m ↦ measured time_suffixes "us" m
  ]
