-- ===== src/TemplateValidator/Validation/Specialized.antt =====
-- internal/template-validator/validation/specialized.go: the four kinds of rule.
use Prim.Native.String.{len as byte_length}
use ssp_operator.Base.{
  String, Bool, true, false, not, List, [], ◌∷◌, ◌==◌, contains, string_eq, if◌then◌else◌,
}
use ssp_operator.Base.Int.{ℤ, pos}
use ssp_operator.TemplateValidator.Validation.Path.{
  StringOrPath, Library, Fallible, ok, err, ◌>>=◌, no_values_found, regex_error, unsupported_rule,
}
use ssp_operator.TemplateValidator.Validation.Rules.{
  Rule, integer_rule_type, string_rule_type, enum_rule_type, regex_rule_type,
}
use ssp_operator.TemplateValidator.Validation.Decode.{
  Range, empty_range, includes, decode_ints, decode_string, decode_strings, decode_range,
}

-- The loops over the values, which stop at the first that is out of range.
unfoldable pub includes_all : Range → List ℤ → Bool
includes_all r [] = true
includes_all r (val ∷ vals) =
    let rest = includes_all r vals in if not (includes r val) then false else rest

unfoldable pub includes_lengths : Range → List String → Bool
includes_lengths r [] = true
includes_lengths r (val ∷ vals) =
    let rest = includes_lengths r vals in
    if not (includes r (pos (byte_length val))) then false else rest

unfoldable pub contains_only : List String → List String → Bool
contains_only [] expected = true
contains_only (val ∷ data') expected =
    let rest = contains_only data' expected in if contains expected val then rest else false

pub record IntRule : Type 0 where
  pub ref : Rule
  pub value : Range
  pub current : List ℤ
  pub satisfied : Bool

pub record StringRule : Type 0 where
  pub ref : Rule
  pub length : Range
  pub current : List String
  pub satisfied : Bool

pub record EnumRule : Type 0 where
  pub ref : Rule
  pub values : List String
  pub current : List String
  pub satisfied : Bool

pub record RegexRule : Type 0 where
  pub ref : Rule
  pub regex : String
  pub current : List String
  pub satisfied : Bool

pub data RuleApplier : Type 0 where
  int_rule : IntRule → RuleApplier
  string_rule : StringRule → RuleApplier
  enum_rule : EnumRule → RuleApplier
  regex_rule : RegexRule → RuleApplier

module _ {V : Type 0} (lib : Library V) where
  unfoldable pub new_int_rule : Rule → V → V → Fallible RuleApplier
  new_int_rule r vm ref = do
    range ← decode_range lib empty_range r.min r.max vm ref
    ok (int_rule (record { ref = r; value = range; current = []; satisfied = false }))

  unfoldable pub new_string_rule : Rule → V → V → Fallible RuleApplier
  new_string_rule r vm ref = do
    range ← decode_range lib empty_range r.min_length r.max_length vm ref
    ok (string_rule (record { ref = r; length = range; current = []; satisfied = false }))

  -- The loop over the values of an enum rule.
  unfoldable pub decode_values : List StringOrPath → V → V → Fallible (List String)
  decode_values [] vm ref = ok []
  decode_values (v ∷ vs) vm ref = do
    s ← decode_string lib v vm ref
    rest ← decode_values vs vm ref
    ok (s ∷ rest)

  unfoldable pub new_enum_rule : Rule → V → V → Fallible RuleApplier
  new_enum_rule r vm ref = do
    values ← decode_values r.values vm ref
    ok (enum_rule (record { ref = r; values = values; current = []; satisfied = false }))

  unfoldable pub new_regex_rule : Rule → Fallible RuleApplier
  new_regex_rule r =
      if lib.compiles r.regex
      then ok (regex_rule (record { ref = r; regex = r.regex; current = []; satisfied = false }))
      else err regex_error

  unfoldable pub specialize : Rule → V → V → Fallible RuleApplier
  specialize r vm ref =
      if r.rule == integer_rule_type
      then new_int_rule r vm ref
      else if r.rule == string_rule_type
      then new_string_rule r vm ref
      else if r.rule == enum_rule_type
      then new_enum_rule r vm ref
      else if r.rule == regex_rule_type
      then new_regex_rule r
      else err (unsupported_rule r.rule)

  unfoldable pub matches_all : String → List String → Bool
  matches_all regex [] = true
  matches_all regex (val ∷ vals) =
      let rest = matches_all regex vals in if not (lib.match_string regex val) then false else rest

  -- The four methods `Apply`, with the rule as they leave it and whether it is satisfied.
  unfoldable pub apply_int : IntRule → V → V → Fallible (RuleApplier × Bool)
  apply_int ir vm ref = do
    vals ← decode_ints lib ir.ref.path vm ref
    elim vals [
      | [] ↦ err no_values_found
      | val ∷ rest ↦
          let satisfied = includes_all ir.value (val ∷ rest) in
          ok (int_rule (record ir { current = val ∷ rest; satisfied = satisfied }), satisfied)
    ]

  unfoldable pub apply_string : StringRule → V → V → Fallible (RuleApplier × Bool)
  apply_string sr vm ref = do
    vals ← decode_strings lib sr.ref.path vm ref
    elim vals [
      | [] ↦ err no_values_found
      | val ∷ rest ↦
          let satisfied = includes_lengths sr.length (val ∷ rest) in
          ok (string_rule (record sr { current = val ∷ rest; satisfied = satisfied }), satisfied)
    ]

  unfoldable pub apply_enum : EnumRule → V → V → Fallible (RuleApplier × Bool)
  apply_enum er vm ref = do
    vals ← decode_strings lib er.ref.path vm ref
    elim vals [
      | [] ↦ err no_values_found
      | val ∷ rest ↦
          let satisfied = contains_only (val ∷ rest) er.values in
          ok (enum_rule (record er { current = val ∷ rest; satisfied = satisfied }), satisfied)
    ]

  unfoldable pub apply_regex : RegexRule → V → V → Fallible (RuleApplier × Bool)
  apply_regex rr vm ref = do
    vals ← decode_strings lib rr.ref.path vm ref
    elim vals [
      | [] ↦ err no_values_found
      | val ∷ rest ↦
          let satisfied = matches_all rr.regex (val ∷ rest) in
          ok (regex_rule (record rr { current = val ∷ rest; satisfied = satisfied }), satisfied)
    ]

  unfoldable pub apply : RuleApplier → V → V → Fallible (RuleApplier × Bool)
  apply (int_rule ir) vm ref = apply_int ir vm ref
  apply (string_rule sr) vm ref = apply_string sr vm ref
  apply (enum_rule er) vm ref = apply_enum er vm ref
  apply (regex_rule rr) vm ref = apply_regex rr vm ref
