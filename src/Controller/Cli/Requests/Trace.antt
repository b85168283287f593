-- ===== src/Controller/Cli/Requests/Trace.antt =====
-- Proofs on the requests of the group `trace` of controller/cli/app.py.
use tsanet.Prelude.{
  refl, ◌≡◌, false, String, Bool, true, List, [], ◌∷◌, str_mem, fstring, if◌then◌else◌,
}
use tsanet.Prelude.Dict.{Dict, insert}
use tsanet.Prelude.Int.{ℤ}
use tsanet.Errors.{Error, err, lift}
use tsanet.Protocol.Value.{Value, int, float, text, list, end, field}
use tsanet.Protocol.Value.Text.{str}
use tsanet.Protocol.Value.Access.{index, iterate, items, is_member}
use tsanet.Hub.State.{Library}
use tsanet.Hub.Dispatcher.Handlers.{trace, say, fetch_all, fetch_data}
use tsanet.Hub.Dispatcher.Ready.{
  IsUnderstood, Plain, is_refusal, refuses, Plain-say, Plain-bind, Plain-lift, Plain-send,
}
use tsanet.Controller.Cli.Requests.{IsUnderstood-trace}
use tsanet.Device.Link.{send}
use tsanet.Device.Model.{valid_calc, valid_units}
use tsanet.Device.Commands.Trace
use tsanet.Device.Parsing.{parse_frequencies, parse_trace_values}
use tsanet.Device.Parsing.Plain.{Plain-parse_frequencies}
use tsanet.Controller.Cli.Trace.{trace_field, int_items}

module _ (library : Library) where
  pub trace-get : (id : ℤ) → IsUnderstood library "trace" "get" (trace_field id)
  unfolding trace index Trace.get
  trace-get id = IsUnderstood-trace library "get" (trace_field id) refl refl (Plain-say _)

  pub trace-get_all : IsUnderstood library "trace" "get_all" end
  unfolding trace index Trace.get_all
  trace-get_all = IsUnderstood-trace library "get_all" end refl refl (Plain-say _)

  pub trace-enable : (id : ℤ) → IsUnderstood library "trace" "enable" (trace_field id)
  unfolding trace index Trace.enable
  trace-enable id = IsUnderstood-trace library "enable" (trace_field id) refl refl (Plain-say _)

  pub trace-disable : (id : ℤ) → IsUnderstood library "trace" "disable" (trace_field id)
  unfolding trace index Trace.disable
  trace-disable id = IsUnderstood-trace library "disable" (trace_field id) refl refl (Plain-say _)

  pub trace-disable_calc : (id : ℤ) → IsUnderstood library "trace" "disable_calc" (trace_field id)
  unfolding trace index Trace.disable_calc
  trace-disable_calc id =
      IsUnderstood-trace library "disable_calc" (trace_field id) refl refl (Plain-say _)

  Plain-member :
      (known : Bool) (command : String) (e : Error)
      → refuses {A = String} (err e) ≡ false
      → Plain (say (if known then send command else (λ tx. (err e, tx))))
  Plain-member true command e h = Plain-say command
  Plain-member false command e h = λ tx p. (h, p)

  pub trace-enable_calc :
      (id : ℤ) (calc : String)
      → IsUnderstood library "trace" "enable_calc"
          (field "id" (int id) (field "calc" (text calc) end))
  unfolding trace index Trace.enable_calc is_member
  trace-enable_calc id calc =
      IsUnderstood-trace library "enable_calc" (field "id" (int id) (field "calc" (text calc) end))
        refl refl (Plain-member (str_mem calc valid_calc) _ _ refl)

  pub trace-set_unit :
      (unit : String) → IsUnderstood library "trace" "set_unit" (field "unit" (text unit) end)
  unfolding trace index Trace.set_unit is_member
  trace-set_unit unit =
      IsUnderstood-trace library "set_unit" (field "unit" (text unit) end) refl refl
        (Plain-member (str_mem unit valid_units) _ _ refl)

  pub trace-set_ref_level :
      (dbm : String) → IsUnderstood library "trace" "set_ref_level" (field "dbm" (float dbm) end)
  unfolding trace index Trace.set_ref_level
  trace-set_ref_level dbm =
      IsUnderstood-trace library "set_ref_level" (field "dbm" (float dbm) end) refl refl
        (Plain-say _)

  pub trace-set_ref_level_auto : IsUnderstood library "trace" "set_ref_level_auto" end
  unfolding trace index Trace.set_ref_level_auto
  trace-set_ref_level_auto =
      IsUnderstood-trace library "set_ref_level_auto" end refl refl (Plain-say _)

  pub trace-set_scale :
      (level : String) → IsUnderstood library "trace" "set_scale" (field "level" (float level) end)
  unfolding trace index Trace.set_scale
  trace-set_scale level =
      IsUnderstood-trace library "set_scale" (field "level" (float level) end) refl refl
        (Plain-say _)

  -- `int(x)` of a float raises `OverflowError` and `ValueError`.
  abbrev pub HasPlainNumbers : Type 0
  HasPlainNumbers = (x : String) → refuses (library.floats.int_of x) ≡ false

  Plain-fetch_all :
      (ids : List Value) (traces : Dict (List String)) → Plain (fetch_all library.floats ids traces)
  unfolding fetch_all Trace.fetch_value
  Plain-fetch_all [] traces = λ tx p. (refl, p)
  Plain-fetch_all (tid ∷ rest) traces =
      Plain-bind (send (fstring ("trace " ∷ str tid ∷ " value" ∷ [])))
        (λ answer.
          fetch_all library.floats rest
            (insert (str tid) (parse_trace_values library.floats answer) traces))
        (Plain-send _)
        (λ answer.
          Plain-fetch_all rest (insert (str tid) (parse_trace_values library.floats answer) traces))

  pub trace-fetch_data :
      HasPlainNumbers
      → (ids : List ℤ)
      → IsUnderstood library "trace" "fetch_data" (field "ids" (list (int_items ids)) end)
  unfolding trace index fetch_data Trace.get_frequencies iterate
  trace-fetch_data numbers ids =
      IsUnderstood-trace library "fetch_data" (field "ids" (list (int_items ids)) end) refl refl (
        Plain-bind (send "frequencies") _ (Plain-send "frequencies") (λ answer.
          Plain-bind (lift (parse_frequencies library.floats answer)) _
            (Plain-lift (parse_frequencies library.floats answer)
              (Plain-parse_frequencies library.floats is_refusal numbers answer))
            (λ frequencies.
              Plain-bind (fetch_all library.floats (items (int_items ids)) []) _
                (Plain-fetch_all (items (int_items ids)) []) (λ traces tx p. (refl, p)))))

pub ruleset trace_requests = (
  trace-get, trace-get_all, trace-enable, trace-disable, trace-disable_calc, trace-enable_calc,
  trace-set_unit, trace-set_ref_level, trace-set_ref_level_auto, trace-set_scale, trace-fetch_data,
)
