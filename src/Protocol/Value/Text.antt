-- ===== src/Protocol/Value/Text.antt =====
-- `str` and `repr` of a value, as f-strings and error messages use them.
use Prim.Native.Char.{code}
use Prim.Native.String.{◌++◌}
use tsanet.Prelude.{
  ℕ, zero, suc, ◌-◌, ◌/◌, ◌%◌, String, Bool, false, not, ◌&&◌, ◌||◌, List, [], ◌∷◌, ltb, ◌==◌,
  if◌then◌else◌, decimal, digit, ◌≡◌, refl,
}
use tsanet.Prelude.Int.{pos, decimal_ℤ}
use tsanet.Protocol.Value.{
  Value, Items, Fields, null, bool, int, float, text, bytes, list, dict, nil, cons, end, field,
}

has_code : ℕ → String → Bool
has_code n String.[] = false
has_code n (String.◌∷◌ c s) = code c == n || has_code n s

hex_digit : ℕ → String
hex_digit n =
    if ltb n 10
    then digit n
    else if n == 10
    then "a"
    else if n == 11
    then "b"
    else if n == 12
    then "c"
    else if n == 13
    then "d"
    else if n == 14
    then "e"
    else "f"

-- `\xNN`
hex_escape : ℕ → String
hex_escape n = "\\x" ++ hex_digit (n / 16 % 16) ++ hex_digit (n % 16)

-- The escape of one code in a literal with the given quote; `raw` is the code itself as text.
escape : ℕ → ℕ → String → String
escape quote n raw =
    if n == 92
    then "\\\\"
    else if n == quote
    then "\\" ++ raw
    else if n == 10
    then "\\n"
    else if n == 13
    then "\\r"
    else if n == 9
    then "\\t"
    else if ltb n 32 || n == 127
    then hex_escape n
    else raw

escape_all : ℕ → String → String
escape_all quote String.[] = ""
escape_all quote (String.◌∷◌ c s) = escape quote (code c) (String.◌∷◌ c "") ++ escape_all quote s

-- `repr(s)`: single quotes, unless the text has one and no double quote.
unfoldable pub repr_text : String → String
unfolding escape_all escape hex_escape hex_digit has_code
repr_text s =
    if has_code 39 s && not (has_code 34 s)
    then "\"" ++ escape_all 34 s ++ "\""
    else "'" ++ escape_all 39 s ++ "'"

abbrev printable : String
printable =
    " !\"#$%&'()*+,-./0123456789:;<=>?@ABCDEFGHIJKLMNOPQRSTUVWXYZ[\\]^_`abcdefghijklmnopqrstuvwxyz{|}~"

char_at : ℕ → String → String
char_at n String.[] = ""
char_at zero (String.◌∷◌ c s) = String.◌∷◌ c ""
char_at (suc n) (String.◌∷◌ c s) = char_at n s

bytes_have : ℕ → List ℕ → Bool
bytes_have n [] = false
bytes_have n (b ∷ bs) = b == n || bytes_have n bs

escape_bytes : ℕ → List ℕ → String
escape_bytes quote [] = ""
escape_bytes quote (b ∷ bs) =
    (if ltb 126 b then hex_escape b else escape quote b (char_at (b - 32) printable))
    ++ escape_bytes quote bs

repr_bytes : List ℕ → String
repr_bytes b =
    if bytes_have 39 b && not (bytes_have 34 b)
    then "b\"" ++ escape_bytes 34 b ++ "\""
    else "b'" ++ escape_bytes 39 b ++ "'"

-- `repr` of the value and, for a container, of what it holds.
unfoldable mutual
  unfolding repr_text repr_bytes escape_bytes bytes_have char_at

  pub repr : Value → String
  repr null = "None"
  repr (bool b) = if b then "True" else "False"
  repr (int n) = decimal_ℤ n
  repr (float r) = r
  repr (text s) = repr_text s
  repr (bytes b) = repr_bytes b
  repr (list xs) = "[" ++ repr_items xs ++ "]"
  repr (dict d) = "{" ++ repr_fields d ++ "}"

  pub repr_items : Items → String
  repr_items nil = ""
  repr_items (cons x nil) = repr x
  repr_items (cons x xs) = repr x ++ ", " ++ repr_items xs

  pub repr_fields : Fields → String
  repr_fields end = ""
  repr_fields (field k v end) = repr_text k ++ ": " ++ repr v
  repr_fields (field k v rest) = repr_text k ++ ": " ++ repr v ++ ", " ++ repr_fields rest

-- `str(v)`
unfoldable pub str : Value → String
str (text s) = s
str v = repr v

sample : Value
sample = list (cons (int (pos 800000000)) (cons (text "it's") (cons (bytes (1 ∷ 65 ∷ [])) nil)))

str-sample : str sample ≡ "[800000000, \"it's\", b'\\x01A']"
unfolding str repr sample decimal_ℤ decimal
str-sample = refl
