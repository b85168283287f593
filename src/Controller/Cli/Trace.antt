-- ===== src/Controller/Cli/Trace.antt =====
-- The group `trace` of controller/cli/app.py, but for `trace stats`.
pub mod Understood
use Prim.Native.Char.{code}
use tsanet.Prelude.{
  ℕ, zero, suc, ◌+◌, String, Option, none, some, List, [], ◌∷◌, ◌++◌, fstring, map, ◌==◌, str_eq,
  if◌then◌else◌,
}
use tsanet.Prelude.Int.{ℤ, pos, decimal_ℤ}
use tsanet.Errors.{Error, Kind, Result, ok, err, raise_error, is_value_error}
use tsanet.Protocol.Value.{Value, Items, Fields, int, float, text, list, cons, nil, end, field}
use tsanet.Protocol.Value.Text.{str, repr_text}
use tsanet.Protocol.Value.Access.{index, iterate}
use tsanet.Device.Model.{valid_calc, valid_units}
use tsanet.Device.Parsing.{strip}
use tsanet.Controller.Cli.{
  Command, Environment, Remote, printed_raw, wrote, pure, raise, lift, tell, echo, echo_value, call,
  die, choose, ◌>>=◌, ◌>>◌,
}

-- `id=trace_id`
abbrev pub trace_field : ℤ → Fields
trace_field trace_id = field "id" (int trace_id) end

line : ℤ → List String → String
line trace_id rest = fstring ("trace " ∷ decimal_ℤ trace_id ∷ rest)

-- `text.split(",")`
with_char : String → List String → List String
with_char c [] = c ∷ []
with_char c (piece ∷ rest) = fstring (c ∷ piece ∷ []) ∷ rest

unfoldable pub split_commas : String → List String
unfolding with_char
split_commas String.[] = "" ∷ []
split_commas (String.◌∷◌ c s) =
    let rest = split_commas s in
    if code c == 44 then "" ∷ rest else with_char (String.◌∷◌ c "") rest

-- `[int(s.strip()) for s in pieces if s.strip()]`
ints_of : (String → Result ℤ) → List String → Result (List ℤ)
ints_of int_of_text [] = ok []
ints_of int_of_text (piece ∷ rest) =
    let more = ints_of int_of_text rest in
    if str_eq (strip piece) "" then more else elim (int_of_text (strip piece)) [
      | err e ↦ err e
      | ok n ↦ elim more [ err e ↦ err e | ok ns ↦ ok (n ∷ ns) ]
    ]

abbrev pub int_items : List ℤ → Items
int_items [] = nil
int_items (n ∷ rest) = cons (int n) (int_items rest)

-- `for i, (f, v) in enumerate(zip(freqs, values))`
rows_of_one : ℤ → ℕ → List Value → List Value → List (List Value)
rows_of_one tid i (f ∷ fs) (v ∷ vs) =
    (int tid ∷ int (pos i) ∷ f ∷ v ∷ []) ∷ rows_of_one tid (i + 1) fs vs
rows_of_one tid i (f ∷ fs) [] = []
rows_of_one tid i [] values = []

-- `values[i]`
item : ℕ → List Value → Result Value
item i [] = raise_error Kind.index_error "list index out of range"
item zero (v ∷ rest) = ok v
item (suc i) (v ∷ rest) = item i rest

-- `traces[str(tid)]`, as a list
values_of : Value → ℤ → Result (List Value)
values_of traces tid = elim (index (decimal_ℤ tid) traces) [
  | err e ↦ err e
  | ok values ↦ iterate values
]

-- `traces[str(tid)][i]`
value_at : Value → ℕ → ℤ → Result Value
unfolding values_of item
value_at traces i tid = elim (values_of traces tid) [ err e ↦ err e | ok values ↦ item i values ]

-- The values of the traces at one point.
at_point : Value → ℕ → List ℤ → Result (List Value)
unfolding value_at
at_point traces i [] = ok []
at_point traces i (tid ∷ rest) = elim (value_at traces i tid) [
  | err e ↦ err e
  | ok v ↦ elim (at_point traces i rest) [ err e ↦ err e | ok vs ↦ ok (v ∷ vs) ]
]

-- `for i, f in enumerate(freqs)`
rows_of_all : Value → List ℤ → ℕ → List Value → Result (List (List Value))
unfolding at_point
rows_of_all traces ids i [] = ok []
rows_of_all traces ids i (f ∷ fs) = elim (at_point traces i ids) [
  | err e ↦ err e
  | ok values ↦ elim (rows_of_all traces ids (i + 1) fs) [
    | err e ↦ err e
    | ok rows ↦ ok ((int (pos i) ∷ f ∷ values) ∷ rows)
  ]
]

headers : List ℤ → List Value
headers ids =
    text "point" ∷ text "frequency" ∷ map (λ t. text (fstring ("value_t" ∷ decimal_ℤ t ∷ []))) ids

-- The rows of the file, the headers first.
table : List Value → Value → List ℤ → Result (List (List Value))
unfolding rows_of_one rows_of_all headers values_of
table freqs traces (tid ∷ []) = elim (values_of traces tid) [
  | err e ↦ err e
  | ok values ↦ ok (
      (text "trace" ∷ text "point" ∷ text "frequency" ∷ text "value" ∷ [])
      ∷ rows_of_one tid 0 freqs values)
]
table freqs traces ids = elim (rows_of_all traces ids 0 freqs) [
  | err e ↦ err e
  | ok rows ↦ ok (headers ids ∷ rows)
]

module _ {S : Type 0} (remote : Remote S) (env : Environment) where
  unfoldable pub trace_get : Option ℤ → Command S (Unit {0})
  trace_get (some trace_id) = do
    answer ← call remote env "trace" "get" (trace_field trace_id)
    echo_value answer
  trace_get none = do answer ← call remote env "trace" "get_all" end; echo_value answer

  unfoldable pub trace_on : ℤ → Command S (Unit {0})
  unfolding line
  trace_on trace_id = do
    call remote env "trace" "enable" (trace_field trace_id)
    echo (line trace_id (" enabled" ∷ []))

  unfoldable pub trace_off : ℤ → Command S (Unit {0})
  unfolding line
  trace_off trace_id = do
    call remote env "trace" "disable" (trace_field trace_id)
    echo (line trace_id (" disabled" ∷ []))

  unfoldable pub trace_calc : ℤ → String → Command S (Unit {0})
  unfolding line
  trace_calc trace_id name = do
    calc_type ← choose valid_calc name
    call remote env "trace" "enable_calc"
        (field "id" (int trace_id) (field "calc" (text calc_type) end))
    echo (line trace_id (" calc = " ∷ env.member_text "_CalcType" calc_type ∷ []))

  unfoldable pub trace_calc_off : ℤ → Command S (Unit {0})
  unfolding line
  trace_calc_off trace_id = do
    call remote env "trace" "disable_calc" (trace_field trace_id)
    echo (line trace_id (" calc off" ∷ []))

  unfoldable pub trace_unit : String → Command S (Unit {0})
  trace_unit name = do
    unit ← choose valid_units name
    call remote env "trace" "set_unit" (field "unit" (text unit) end)
    echo (fstring ("unit = " ∷ env.member_text "_UnitType" unit ∷ []))

  -- A float argument is given by its `repr`.
  unfoldable pub trace_ref : String → Command S (Unit {0})
  trace_ref dbm = do
    call remote env "trace" "set_ref_level" (field "dbm" (float dbm) end)
    echo (fstring ("ref level = " ∷ dbm ∷ " dBm" ∷ []))

  unfoldable pub trace_ref_auto : Command S (Unit {0})
  trace_ref_auto = do call remote env "trace" "set_ref_level_auto" end; echo "ref level = auto"

  unfoldable pub trace_scale : String → Command S (Unit {0})
  trace_scale level = do
    call remote env "trace" "set_scale" (field "level" (float level) end)
    echo (fstring ("scale = " ∷ level ∷ " dB/div" ∷ []))

  -- The list of ids: `_die` where it is not one of numbers, or empty.
  trace_ids : String → Result (List ℤ) → Command S (List ℤ)
  trace_ids raw (err e) =
      if is_value_error e.kind
      then die env (fstring ("invalid trace ID in " ∷ repr_text raw ∷ ": " ∷ e.text ∷ []))
      else raise e
  trace_ids raw (ok []) = die env "at least one trace ID is required"
  trace_ids raw (ok (t ∷ ts)) = pure (t ∷ ts)

  -- What becomes of the text: it goes to the file, if there is a name, or to stdout.
  save_text : Option String → String → Command S (Unit {0})
  save_text none csv = tell (printed_raw csv)
  save_text (some output) csv = if str_eq output "" then tell (printed_raw csv) else (do
    lift (env.write output (text csv))
    tell (wrote output (text csv))
    echo (fstring ("saved to " ∷ output ∷ [])))

  unfoldable pub trace_save : String → Option String → Command S (Unit {0})
  unfolding trace_ids ints_of table save_text
  trace_save raw output = do
    ids ← trace_ids raw (ints_of env.int_of_text (split_commas raw))
    data' ← call remote env "trace" "fetch_data" (field "ids" (list (int_items ids)) end)
    freqs ← lift (index "frequencies" data')
    traces ← lift (index "traces" data')
    points ← lift (iterate freqs)
    rows ← lift (table points traces ids)
    save_text output (fstring (map env.csv_row rows))
