-- ===== src/TemplateValidator/Validation/Eval.antt =====
-- internal/template-validator/validation/eval.go: all rules of a template against an object. What
-- `Evaluate` prints to its sink, and the log of unsatisfied warnings, are not modelled.
pub mod Reports
pub mod WellFormed
pub mod Kinds
pub mod Lengths
use ssp_operator.Base.{
  String, ◌<>◌, Bool, true, false, ◌&&◌, not, Option, none, some, List, [], ◌∷◌, ◌++◌, ◌==◌,
  contains, string_eq, if◌then◌else◌,
}
use ssp_operator.Base.Dict.{add}
use ssp_operator.TemplateValidator.Validation.Path.{
  Error, Library, Fallible, ok, err, unrecognized_rule_type, duplicate_rule_name,
  missing_required_key,
}
use ssp_operator.TemplateValidator.Validation.Rules.{Rule, is_appliable_on, rule_type_is_valid}
use ssp_operator.TemplateValidator.Validation.Specialized.{specialize, apply}
use ssp_operator.TemplateValidator.Validation.Messages.{applier_string}

pub record ValidationReport : Type 0 where
  pub ref : Rule
  pub skipped : Bool
  pub satisfied : Bool
  pub message : String
  pub error : Option Error

pub record Result : Type 0 where
  pub status : List ValidationReport
  pub failed : Bool

abbrev pub empty_result : Result
empty_result = record { status = []; failed = false }

unfoldable pub fail : Result → Rule → Error → Result
fail r ru e = record {
  status =
      r.status
      ++ (record { ref = ru; skipped = false; satisfied = false; message = ""; error = some e }
          ∷ []);
  failed = true;
}

unfoldable pub skip : Result → Rule → Result
skip r ru = record r {
  status =
      r.status
      ++ (record { ref = ru; skipped = true; satisfied = false; message = ""; error = none } ∷ []);
}

unfoldable pub applied : Result → Rule → Bool → String → Result
applied r ru satisfied message = record {
  status =
      r.status
      ++ (record {
        ref = ru;
        skipped = false;
        satisfied = satisfied;
        message = message;
        error = none;
      }
          ∷ []);
  failed = if not satisfied then (if ru.just_warning then r.failed else true) else r.failed;
}

unfoldable pub succeeded : Result → Bool
succeeded r = not r.failed

-- The message of the cause, if the report needs one. `error_message` is the `Error` method.
unfoldable pub needs_cause : (Error → String) → ValidationReport → Option String
needs_cause error_message rr = elim rr.error [
  | some e ↦ some (error_message e)
  | none ↦ if not rr.skipped && not rr.satisfied then some rr.message else none
]

-- A `StatusCause` of type FieldValueInvalid.
pub record StatusCause : Type 0 where
  pub field : String
  pub message : String

unfoldable pub causes_of : (Error → String) → List ValidationReport → List StatusCause
causes_of error_message [] = []
causes_of error_message (rr ∷ status) =
    let rest = causes_of error_message status in
    elim (needs_cause error_message rr) [
      | none ↦ rest
      | some message ↦
          (record { field = rr.ref.path.expr; message = rr.ref.message <> (": " <> message) })
          ∷ rest
    ]

unfoldable pub to_status_causes : (Error → String) → Result → List StatusCause
to_status_causes error_message r = if not r.failed then [] else causes_of error_message r.status

unfoldable pub validate_rule : Rule → Option Error
validate_rule r =
    if not (rule_type_is_valid r.rule)
    then some unrecognized_rule_type
    else if r.message == ""
    then some missing_required_key
    else none

module _ {V : Type 0} (lib : Library V) (vm ref_vm : V) where
  -- The body of the loop for a rule whose name is new, from the call of `validateRule` on.
  unfoldable pub evaluate_rule : Result → Rule → Result
  evaluate_rule result r = elim (validate_rule r) [
    | some e ↦ fail result r e
    | none ↦
        if not (is_appliable_on lib r vm)
        then skip result r
        else elim (specialize lib r vm ref_vm) [
          | err e ↦ fail result r e
          | ok ra ↦ elim (apply lib ra vm ref_vm) [
            | err e ↦ fail result r e
            | ok (ra', satisfied) ↦ applied result r satisfied (applier_string lib ra')
          ]
        ]
  ]

  -- The loop, from the names seen so far.
  unfoldable pub evaluate_loop : List String → Result → List Rule → Result
  evaluate_loop unique_names result [] = result
  evaluate_loop unique_names result (r ∷ rules) =
      let seen = contains unique_names r.name in
      evaluate_loop (if seen then unique_names else add r.name unique_names)
        (if seen then fail result r duplicate_rule_name else evaluate_rule result r) rules

  unfoldable pub evaluate : List Rule → Result
  evaluate rules = evaluate_loop [] empty_result rules
