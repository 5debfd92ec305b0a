-- ===== src/TemplateValidator/Validation/Tests.antt =====
-- Runs of the evaluation, and its theorems at concrete data.
use Prim.Native.String.{len as byte_length}
use mathlib.Core.Bool.{false≢true}
use text.Mathlib.TextEquality.{eq_iff}
use ssp_operator.Base.{
  if◌then◌else◌, String, ◌≡◌, ◌≢◌, ◌↔◌, refl, Bool, true, false, not, none, some, [], ◌∷◌, map, All,
  ◌==◌, contains, string_eq,
}
use ssp_operator.Base.Dict.{Dict, lookup, add}
use ssp_operator.Base.Int.{pos}
use ssp_operator.Base.Text.{has_prefix, trim_prefix, strip_prefix}
use ssp_operator.TemplateValidator.Validation.Path.{
  Error, JsonPath, string, signed, Results, Library, ok, int, str, find, as_int64, as_string, new,
  marshal_json, unmarshal_json,
}
use ssp_operator.TemplateValidator.Validation.Path.RoundTrip.{unmarshal_json-marshal_json}
use ssp_operator.TemplateValidator.Validation.Rules.{Rule, rule_type_is_valid, is_appliable_on}
use ssp_operator.TemplateValidator.Validation.Decode.{
  decode_range, decode_int, decode_ints, find_path_on_vm_or_ref, includes,
}
use ssp_operator.TemplateValidator.Validation.Specialized.{
  specialize, new_int_rule, apply, apply_int, includes_all,
}
use ssp_operator.TemplateValidator.Validation.Eval.{
  evaluate, succeeded, to_status_causes, evaluate_loop, evaluate_rule, validate_rule, applied, fail,
}
use ssp_operator.TemplateValidator.Validation.Eval.Lengths.{Within, evaluate_string_rule}
use ssp_operator.TemplateValidator.Validation.Eval.Reports.{
  any_blocks, evaluate-any_blocks, blocking, cause_of, told, to_status_causes-evaluate,
}
use ssp_operator.TemplateValidator.Validation.Eval.WellFormed.{
  AreWellFormed, evaluate-AreWellFormed,
}
use ssp_operator.TemplateValidator.Validation.Eval.Kinds.{
  Between, evaluate_integer_rule, evaluate_enum_rule,
}

-- An object that is a table of what each path finds in it.
abbrev Object : Type 0
Object = Dict String Results

lib : Library Object
unfolding lookup string_eq
lib = record {
  find_results = λ p vm. lookup p vm;
  compiles = λ regex. true;
  match_string = λ regex s. regex == s;
  format_int = λ n. "n";
}

abbrev cores : JsonPath
cores = record { expr = ".cores"; path = "{.spec.template.cores}" }

abbrev bus : JsonPath
bus = record { expr = ".bus"; path = "{.spec.template.bus}" }

abbrev vm : Object
vm =
    ("{.spec.template.cores}", (signed "int32" (pos 2) ∷ []) ∷ [])
    ∷ ("{.spec.template.bus}", (string "sata" ∷ []) ∷ [])
    ∷ []

abbrev core_rule : Rule
core_rule = record {
  rule = "integer";
  name = "core-limits";
  path = cores;
  message = "cores out of range";
  valid = none;
  just_warning = false;
  values = [];
  min = some (int (pos 1));
  max = some (int (pos 4));
  min_length = none;
  max_length = none;
  regex = "";
}

abbrev bus_rule : Rule
bus_rule = record core_rule {
  rule = "enum";
  name = "bus";
  path = bus;
  values = map str ("virtio" ∷ "sata" ∷ []);
  min = none;
  max = none;
}

-- A rule with an upper bound only.
abbrev bus_length_rule : Rule
bus_length_rule = record core_rule {
  rule = "string";
  name = "bus-length";
  path = bus;
  min = none;
  max = none;
  max_length = some (int (pos 6));
}

has_message : core_rule.message ≢ ""
has_message p = false≢true ((eq_iff "cores out of range" "").1 p)

found_cores : find lib cores vm ≡ ok ((signed "int32" (pos 2) ∷ []) ∷ [])
unfolding find lib
found_cores = refl

found_bus : find lib bus vm ≡ ok ((string "sata" ∷ []) ∷ [])
unfolding find lib
found_bus = refl

core_numbers : as_int64 ((signed "int32" (pos 2) ∷ []) ∷ []) ≡ ok (pos 2 ∷ [])
unfolding as_int64
core_numbers = refl

bus_texts : as_string ((string "sata" ∷ []) ∷ []) ≡ ok ("sata" ∷ [])
unfolding as_string
bus_texts = refl

evaluate_integer_rule_example :
    (succeeded (evaluate lib vm vm (core_rule ∷ [])) ≡ true)
    ↔ All (Between (pos 1) (pos 4)) (pos 2 ∷ [])
evaluate_integer_rule_example =
    evaluate_integer_rule lib vm vm core_rule (pos 1) (pos 4) (pos 2) []
      ((signed "int32" (pos 2) ∷ []) ∷ []) refl has_message refl refl refl refl found_cores
      core_numbers

evaluate_enum_rule_example :
    (succeeded (evaluate lib vm vm (bus_rule ∷ [])) ≡ true)
    ↔ All {A = String} (λ s. contains ("virtio" ∷ "sata" ∷ []) s ≡ true) ("sata" ∷ [])
evaluate_enum_rule_example =
    evaluate_enum_rule lib vm vm bus_rule ("virtio" ∷ "sata" ∷ []) "sata" []
      ((string "sata" ∷ []) ∷ []) refl has_message refl refl refl found_bus bus_texts

evaluate_string_rule_example :
    (succeeded (evaluate lib vm vm (bus_length_rule ∷ [])) ≡ true)
    ↔ All {A = String} (λ s. Within none (some (pos 6)) (pos (byte_length s))) ("sata" ∷ [])
evaluate_string_rule_example =
    evaluate_string_rule lib vm vm bus_length_rule none (some (pos 6)) "sata" []
      ((string "sata" ∷ []) ∷ []) refl has_message refl refl refl refl found_bus bus_texts

evaluate-any_blocks_example :
    let result = evaluate lib vm vm (core_rule ∷ core_rule ∷ []) in
    (map (λ rr. rr.ref) result.status ≡ core_rule ∷ core_rule ∷ [])
    × (succeeded result ≡ not (any_blocks result.status))
evaluate-any_blocks_example = evaluate-any_blocks lib vm vm (core_rule ∷ core_rule ∷ [])

abbrev describe : Error → String
describe e = "error"

to_status_causes-evaluate_example :
    let result = evaluate lib vm vm (core_rule ∷ core_rule ∷ []) in
    let causes = to_status_causes describe result in
    ((causes ≡ []) ↔ (succeeded result ≡ true))
    × (causes ≡ (if succeeded result then [] else map (cause_of describe) (told result.status)))
    × (blocking (told result.status) ≡ blocking result.status)
to_status_causes-evaluate_example =
    to_status_causes-evaluate lib vm vm describe (core_rule ∷ core_rule ∷ [])

core_rule_holds : succeeded (evaluate lib vm vm (core_rule ∷ [])) ≡ true
unfolding succeeded evaluate evaluate_loop evaluate_rule validate_rule rule_type_is_valid
    is_appliable_on specialize new_int_rule decode_range decode_int apply apply_int decode_ints
    find_path_on_vm_or_ref find lib as_int64 includes_all includes applied string_eq
core_rule_holds = refl

-- Names that occur twice fail the evaluation.
duplicate_fails : succeeded (evaluate lib vm vm (core_rule ∷ core_rule ∷ [])) ≡ false
unfolding succeeded evaluate evaluate_loop evaluate_rule validate_rule rule_type_is_valid
    is_appliable_on specialize new_int_rule decode_range decode_int apply apply_int decode_ints
    find_path_on_vm_or_ref find lib as_int64 includes_all includes applied string_eq add fail
duplicate_fails = refl

evaluate-AreWellFormed_example : AreWellFormed (core_rule ∷ [])
evaluate-AreWellFormed_example = evaluate-AreWellFormed lib vm vm (core_rule ∷ []) core_rule_holds

abbrev accept : String → Bool
accept expr = true

made_cores : new accept "jsonpath::$.cores" ≡ ok cores
unfolding new string_eq strip_prefix trim_prefix has_prefix
made_cores = refl

no_dollar : has_prefix ".cores" "$" ≡ false
unfolding has_prefix strip_prefix
no_dollar = refl

unmarshal_json-marshal_json_example : unmarshal_json accept (marshal_json cores) ≡ ok cores
unmarshal_json-marshal_json_example =
    unmarshal_json-marshal_json accept "jsonpath::$.cores" cores made_cores no_dollar
