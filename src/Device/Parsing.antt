-- ===== src/Device/Parsing.antt =====
-- device/parsing.py: the numbers in the answers to `frequencies` and `trace <id> value`.
pub mod Plain
use Prim.Native.Char.{code}
use tsanet.Prelude.{
  ℕ, String, Bool, false, ◌&&◌, ◌||◌, Option, none, some, List, [], ◌∷◌, leb, ◌==◌, str_eq,
  if◌then◌else◌,
}
use tsanet.Prelude.Int.{ℤ}
use tsanet.Errors.{Kind, Result, ok, err, is_value_error}
use tsanet.Protocol.Value.Access.{Floats}

-- What ends a line for `str.splitlines`.
is_line_end : ℕ → Bool
is_line_end c =
    (leb 10 c && leb c 13) || ((leb 28 c && leb c 30) || (c == 133 || (c == 8232 || c == 8233)))

-- What `str.split` and `str.strip` take for a blank.
unfoldable pub is_blank : ℕ → Bool
is_blank c =
    (leb 9 c && leb c 13)
    || ((leb 28 c && leb c 32)
        || (c == 133
            || (c == 160
                || (c == 5760
                    || ((leb 8192 c && leb c 8202)
                        || (c == 8232
                            || (c == 8233 || (c == 8239 || (c == 8287 || c == 12288)))))))))

-- A character in front of the first of the pieces.
push : String → List String → List String
push s [] = s ∷ []
push (String.◌∷◌ c _) (piece ∷ rest) = String.◌∷◌ c piece ∷ rest
push String.[] pieces = pieces

-- `text.splitlines()`; `after_cr` tells that the character before was a carriage return, whose
-- line feed ends no second line.
split_lines_from : Bool → String → List String
split_lines_from after_cr String.[] = []
split_lines_from after_cr (String.◌∷◌ c s) =
    let rest = split_lines_from (code c == 13) s in
    if after_cr && code c == 10
    then rest
    else if is_line_end (code c)
    then "" ∷ rest
    else push (String.◌∷◌ c "") rest

unfoldable pub split_lines : String → List String
unfolding split_lines_from is_line_end push
split_lines = split_lines_from false

-- A word, unless it is empty, in front of the words.
with_word : String → List String → List String
with_word String.[] rest = rest
with_word (String.◌∷◌ c word) rest = String.◌∷◌ c word ∷ rest

-- `line.split()`: the word that the line begins with, which may be empty, and the words behind it.
split_from : String → String × List String
split_from String.[] = ("", [])
split_from (String.◌∷◌ c s) =
    let (word, rest) = split_from s in
    if is_blank (code c) then ("", with_word word rest) else (String.◌∷◌ c word, rest)

unfoldable pub split : String → List String
unfolding split_from with_word is_blank
split line = let (word, rest) = split_from line in with_word word rest

-- `text.strip()`
strip_left : String → String
strip_left String.[] = ""
strip_left (String.◌∷◌ c s) = if is_blank (code c) then strip_left s else String.◌∷◌ c s

strip_right : String → String
strip_right String.[] = ""
strip_right (String.◌∷◌ c s) =
    let rest = strip_right s in
    if is_blank (code c) && str_eq rest "" then "" else String.◌∷◌ c rest

unfoldable pub strip : String → String
unfolding strip_left strip_right is_blank
strip text = strip_right (strip_left text)

-- `tokens[-1]`
last : String → List String → String
last token [] = token
last token (next ∷ rest) = last next rest

module _ (floats : Floats) where
  -- `int(float(token))`; `none` is the `ValueError`, of either call, that skips the line
  frequency : String → Result (Option ℤ)
  frequency token = elim (floats.float_of token) [
    | none ↦ ok none
    | some x ↦ elim (floats.int_of x) [
      | ok n ↦ ok (some n)
      | err e ↦ if is_value_error e.kind then ok none else err e
    ]
  ]

  -- One round of the loop, before the frequencies of the lines that follow.
  with_frequency : Result (Option ℤ) → Result (List ℤ) → Result (List ℤ)
  with_frequency (err e) rest = err e
  with_frequency (ok none) rest = rest
  with_frequency (ok (some n)) (err e) = err e
  with_frequency (ok (some n)) (ok ns) = ok (n ∷ ns)

  frequencies_of : List String → Result (List ℤ)
  frequencies_of [] = ok []
  frequencies_of (line ∷ rest) = elim (split line) [
    | [] ↦ frequencies_of rest
    | token ∷ _ ↦ with_frequency (frequency token) (frequencies_of rest)
  ]

  unfoldable pub parse_frequencies : String → Result (List ℤ)
  unfolding frequencies_of with_frequency frequency split_lines
  parse_frequencies text = frequencies_of (split_lines text)

  values_of : List String → List String
  values_of [] = []
  values_of (line ∷ rest) = elim (split line) [
    | [] ↦ values_of rest
    | token ∷ tokens ↦ elim (floats.float_of (last token tokens)) [
      | none ↦ values_of rest
      | some x ↦ x ∷ values_of rest
    ]
  ]

  unfoldable pub parse_trace_values : String → List String
  unfolding values_of last split_lines
  parse_trace_values text = values_of (split_lines text)
