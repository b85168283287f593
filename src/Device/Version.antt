-- ===== src/Device/Version.antt =====
-- `parse_version` of device/model.py: the regular expression
-- `^(tinySA\w+)_v?(\S+)?\s*HW Version:V(.*?)\s*$` as a backtracking matcher, part by part. A part
-- takes what is left of the text and a continuation for the parts behind it. `\w` is the class of
-- the ASCII letters, digits and `_`.
use Prim.Native.Char.{code}
use tsanet.Prelude.{
  ℕ, String, Bool, not, ◌&&◌, ◌||◌, Option, none, some, List, [], ◌∷◌, leb, ◌==◌, str_eq, fstring,
  if◌then◌else◌,
}
use tsanet.Errors.{Kind, Result, ok, raise_error}
use tsanet.Protocol.Value.Text.{repr_text}
use tsanet.Device.Model.{ultra, basic, DeviceInfo}
use tsanet.Device.Parsing.{is_blank, split_lines, strip}

-- The parts behind: `none` if they do not match.
abbrev Rest : Type 0
Rest = String → Option DeviceInfo

-- The first of two tries that matches.
abbrev or_else : Option DeviceInfo → Option DeviceInfo → Option DeviceInfo
or_else (some info) other = some info
or_else none other = other

-- A fixed text.
literal : String → Rest → Rest
literal String.[] k s = k s
literal (String.◌∷◌ c text) k String.[] = none
literal (String.◌∷◌ c text) k (String.◌∷◌ d s) = if code c == code d then literal text k s else none

-- `[class]*`, greedy, with the text that it took.
many : (ℕ → Bool) → (String → Rest) → Rest
many class k String.[] = k "" ""
many class k (String.◌∷◌ c s) =
    let longer = many class (λ taken. k (String.◌∷◌ c taken)) s in
    let shorter = k "" (String.◌∷◌ c s) in
    if class (code c) then or_else longer shorter else shorter

-- `[class]+`
some_of : (ℕ → Bool) → (String → Rest) → Rest
some_of class k String.[] = none
some_of class k (String.◌∷◌ c s) =
    let longer = many class (λ taken. k (String.◌∷◌ c taken)) s in
    if class (code c) then longer else none

-- `[class]*?`, which takes as little as it can.
few : (ℕ → Bool) → (String → Rest) → Rest
few class k String.[] = k "" ""
few class k (String.◌∷◌ c s) =
    let shorter = k "" (String.◌∷◌ c s) in
    let longer = few class (λ taken. k (String.◌∷◌ c taken)) s in
    or_else shorter (if class (code c) then longer else none)

is_word : ℕ → Bool
is_word c =
    (leb 48 c && leb c 57) || ((leb 65 c && leb c 90) || ((leb 97 c && leb c 122) || c == 95))

not_blank : ℕ → Bool
not_blank c = not (is_blank c)

-- `.`
not_newline : ℕ → Bool
not_newline c = not (c == 10)

-- `DeviceInfo(...)` from the three groups.
device_info : String → Option String → String → DeviceInfo
device_info model_string firmware hardware = record {
  model_string = model_string;
  model = if str_eq model_string "tinySA4" then ultra else basic;
  firmware = firmware;
  hardware = hardware;
}

-- `\s*$`
at_end : String → Option String → String → Rest
at_end model firmware hardware =
    many is_blank (λ _ s. if str_eq s "" then some (device_info model firmware hardware) else none)

-- `\s*HW Version:V(.*?)\s*$`
from_hardware : String → Option String → Rest
from_hardware model firmware =
    many is_blank (λ _. literal "HW Version:V" (few not_newline (at_end model firmware)))

-- `(\S+)?` and what follows
from_firmware : String → Rest
from_firmware model s =
    or_else (some_of not_blank (λ firmware. from_hardware model (some firmware)) s)
      (from_hardware model none s)

-- `v?` and what follows
from_v : String → Rest
from_v model s = or_else (literal "v" (from_firmware model) s) (from_firmware model s)

match_version : Rest
unfolding literal many some_of few is_word not_blank not_newline device_info at_end from_hardware
    from_firmware from_v is_blank
match_version =
    literal "tinySA"
      (some_of is_word (λ word. literal "_" (from_v (fstring ("tinySA" ∷ word ∷ [])))))

-- The loop over the whole text and its lines.
first_match : List String → Option DeviceInfo
first_match [] = none
first_match (candidate ∷ rest) = or_else (match_version (strip candidate)) (first_match rest)

unfoldable pub parse_version : String → Result DeviceInfo
unfolding first_match match_version
parse_version text = elim (first_match (strip text ∷ split_lines text)) [
  | some info ↦ ok info
  | none ↦
      raise_error Kind.protocol_error
        (fstring ("unrecognized version response: " ∷ repr_text text ∷ []))
]
