-- ===== src/TemplateValidator/Validation/Rules.antt =====
-- internal/template-validator/validation/rules.go, and the rule types of specialized.go.
use Prim.Native.Nat.{zero, suc}
use ssp_operator.Base.{String, Bool, true, false, ◌||◌, Option, none, some, List, ◌==◌, string_eq}
use ssp_operator.TemplateValidator.Validation.Path.{
  JsonPath, IntOrPath, StringOrPath, Library, ok, err, find, len,
}

pub record Rule : Type 0 where
  pub rule : String
  pub name : String
  pub path : JsonPath
  pub message : String
  pub valid : Option JsonPath
  pub just_warning : Bool
  pub values : List StringOrPath
  pub min : Option IntOrPath
  pub max : Option IntOrPath
  pub min_length : Option IntOrPath
  pub max_length : Option IntOrPath
  pub regex : String

unfoldable pub is_appliable_on : {V : Type 0} → Library V → Rule → V → Bool
unfolding find
is_appliable_on lib r vm = elim r.valid [
  | none ↦ true
  | some valid ↦ elim (find lib valid vm) [
    | err e ↦ false
    | ok results ↦ elim (len results) [ zero ↦ false | suc n ↦ true ]
  ]
]

abbrev pub integer_rule_type : String
integer_rule_type = "integer"

abbrev pub string_rule_type : String
string_rule_type = "string"

abbrev pub enum_rule_type : String
enum_rule_type = "enum"

abbrev pub regex_rule_type : String
regex_rule_type = "regex"

unfoldable pub rule_type_is_valid : String → Bool
rule_type_is_valid r =
    r == integer_rule_type || r == string_rule_type || r == enum_rule_type || r == regex_rule_type
