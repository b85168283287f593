-- ===== src/Controller/Cli/Format.antt =====
-- `_fmt_hz` of controller/cli/app.py and the f-string formats that the commands print with.
use Prim.Native.Char.{code}
use Prim.Native.String.{◌++◌}
use tsanet.Prelude.{
  ℕ, zero, suc, ◌-◌, ◌/◌, ◌%◌, String, ◌&&◌, [], ◌∷◌, fstring, str_eq, decimal, ltb, ◌==◌,
  if◌then◌else◌,
}
use tsanet.Prelude.Int.{ℤ, pos, negsuc, decimal_ℤ}

text_length : String → ℕ
text_length String.[] = 0
text_length (String.◌∷◌ c s) = suc (text_length s)

repeated : String → ℕ → String
repeated s zero = ""
repeated s (suc n) = s ++ repeated s n

-- `f"{s:<width}"`
unfoldable pub pad_right : ℕ → String → String
unfolding text_length repeated
pad_right width s = s ++ repeated " " (width - text_length s)

-- `f"{n:0width}"`
unfoldable pub zero_padded : ℕ → ℕ → String
unfolding text_length repeated
zero_padded width n = repeated "0" (width - text_length (decimal n)) ++ decimal n

-- `text.rstrip("0")`
unfoldable pub strip_zeros : String → String
strip_zeros String.[] = ""
strip_zeros (String.◌∷◌ c s) =
    let rest = strip_zeros s in if code c == 48 && str_eq rest "" then "" else String.◌∷◌ c rest

-- A branch of `_fmt_hz`: a multiple of `scale`, which is ten to the power of `width`.
in_unit : ℕ → ℕ → String → ℕ → String
in_unit scale width name hz =
    if hz % scale == 0
    then fstring (decimal (hz / scale) ∷ name ∷ [])
    else strip_zeros (fstring (decimal (hz / scale) ∷ "." ∷ zero_padded width (hz % scale) ∷ []))
      ++ name

-- `_fmt_hz(hz)`: what is below 1000 is printed as it is, negative numbers too.
unfoldable pub fmt_hz : ℤ → String
unfolding in_unit strip_zeros zero_padded
fmt_hz (negsuc n) = fstring (decimal_ℤ (negsuc n) ∷ " Hz" ∷ [])
fmt_hz (pos hz) =
    if ltb hz 1_000
    then fstring (decimal hz ∷ " Hz" ∷ [])
    else if ltb hz 1_000_000
    then in_unit 1_000 3 " kHz" hz
    else if ltb hz 1_000_000_000
    then in_unit 1_000_000 6 " MHz" hz
    else in_unit 1_000_000_000 9 " GHz" hz
